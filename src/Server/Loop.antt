-- ===== src/Server/Loop.antt =====
-- The server's main loop (server.c, serv_sigCHLD, serv_cleanup_conn, serv_loop).
use sexpect.Base.{
  ℕ, ◌+◌, Bool, true, false, not, ◌&&◌, ◌||◌, Option, none, some, List, [], ◌∷◌, ltb, if◌then◌else◌,
}
use sexpect.Base.Int.{ℤ, pos, negsuc, is_positive}
use sexpect.Proto.Message.{Ttlv}
use sexpect.Server.Buffers.{
  Buffers, PtmRead, size_raw_buf, serv_read_ptm, nonblock_drop, drop_old_data,
}
use sexpect.Server.State.{Server, Conn, Env}
use sexpect.Server.Expect.{Regex, elapsed}
use sexpect.Server.Pass.{Flow, go, done, crash, with_buffers, serv_pass}
use sexpect.Server.Process.{serv_process_msg}

-- The server between two rounds; `exits` is the static counter of -cloexit.
pub record Loop : Type 0 where
  pub server : Server
  pub exits : ℕ

-- What one round meets: whether the child died before it, whether select or accept was interrupted,
-- a client that connects, what reading the ptm returns if it is ready, what msg_recv returns if
-- the client's socket is ready, and the rest of the surroundings.
pub record Ready : Type 0 where
  pub sigchld : Bool
  pub interrupted : Bool
  pub connects : Bool
  pub ptm : Option (List PtmRead)
  pub client : Option (Option Ttlv)
  pub env : Env

-- serv_sigCHLD, and the surroundings of the round.
unfoldable pub begin_round : Ready → Server → Server
begin_round r s =
    if r.sigchld
    then record s {
      env = r.env;
      child_dead = true;
      spawn = record (s.spawn) { exittime = r.env.now };
    }
    else record s { env = r.env }

-- -cloexit closes the ptm in the second round that finds the child dead and the ptm open.
unfoldable pub close_on_exit : Loop → Loop
close_on_exit l =
    if l.server.spawn.cloexit && (l.server.child_dead && l.server.ptm_open)
    then record l {
      exits = l.exits + 1;
      server = if ltb 1 (l.exits + 1) then record (l.server) { ptm_open = false } else l.server;
    }
    else l

abbrev is_negative : ℤ → Bool
is_negative (pos n) = false
is_negative (negsuc n) = true

-- The child is dead, its output is closed, and there is no client.
abbrev pub is_zombie : Server → Bool
is_zombie s = s.child_dead && (not s.ptm_open && not s.conn.sock)

-- The tests that leave the loop: -nowait, -zombie-idle, -ttl and -idle.
unfoldable pub leaves : Server → Bool
leaves s = (s.spawn.autowait && is_zombie s) || (zombie_idle || (ttl || idle))
  where
    since : ℕ → ℤ → Bool
    since t limit = elapsed t s.env.now limit

    zombie_idle : Bool
    zombie_idle =
        not (is_negative s.spawn.zombie_idle)
        && (is_zombie s
            && (since s.lastactive s.spawn.zombie_idle
                && since s.spawn.exittime s.spawn.zombie_idle))

    ttl : Bool
    ttl = is_positive s.spawn.ttl && (not s.conn.sock && since s.spawn.startime s.spawn.ttl)

    idle : Bool
    idle = is_positive s.spawn.idle && (not s.conn.sock && since s.lastactive s.spawn.idle)

-- serv_cleanup_conn
abbrev pub clean_conn : Conn
clean_conn = record {
  sock = false;
  passing = false;
  subcmd = 0;
  expflags = 0;
  pattern = none;
  timeout = pos 0;
  lookback = 0;
  startime = 0;
}

-- A client can connect while there is none.
unfoldable pub accept_client : Ready → Server → Server
accept_client r s =
    if not s.conn.sock && r.connects
    then record s { conn = record clean_conn { sock = true; startime = r.env.now } }
    else s

-- Whether the ptm is among the descriptors of select.
abbrev pub wants_ptm : Server → Bool
wants_ptm s =
    s.ptm_open && (ltb (s.buffers.oldcnt + s.buffers.newcnt) size_raw_buf || s.spawn.nonblock)

abbrev pub after_read : Server → Buffers × Bool → Server
after_read s (b, still_open) = record s { buffers = b; ptm_open = still_open }

abbrev pub read_if : Option (List PtmRead) → Server → Server
read_if none s = s
read_if (some reads) s = after_read s (serv_read_ptm reads s.buffers)

unfoldable pub read_ptm : Ready → Server → Server
unfolding serv_read_ptm
read_ptm r s = if wants_ptm s then read_if r.ptm s else s

unfoldable pub drop_unread : Server → Server
unfolding nonblock_drop
drop_unread s =
    if s.spawn.nonblock && not s.conn.sock
    then record s { buffers = nonblock_drop s.buffers }
    else s

-- The message of a client that was connected when select was called.
abbrev pub client_message : Option (Option Ttlv) → Server → Option Server
client_message none s = some s
client_message (some msg) s = serv_process_msg msg s

unfoldable pub hear_client : Bool → Ready → Server → Option Server
unfolding serv_process_msg
hear_client connected r s = if connected && s.conn.sock then client_message r.client s else some s

-- How a round of the loop ends.
pub data Round : Type 0 where
  next : Loop → Round
  left : Server → Round
  crashed : Round

abbrev pub end_round : ℕ → Flow → Round
end_round exits (go s) =
    next (record { server = with_buffers s (drop_old_data s.buffers); exits = exits })
end_round exits (done s) =
    next (record { server = with_buffers s (drop_old_data s.buffers); exits = exits })
end_round exits crash = crashed

-- What follows the client's message: serv_pass, which tests for itself whether there is a client
-- that waits for output, and drop_old_data.
abbrev pub pass_round : Regex → ℕ → Option Server → Round
pass_round regex exits none = crashed
pass_round regex exits (some s) = end_round exits (serv_pass regex s)

-- What follows select.
unfoldable pub selected : Regex → Ready → Loop → Round
unfolding accept_client read_ptm drop_unread hear_client serv_pass drop_old_data
selected regex r l =
    pass_round regex l.exits
      (hear_client l.server.conn.sock r (drop_unread (read_ptm r (accept_client r l.server))))

abbrev pub round_from : Regex → Ready → Loop → Round
round_from regex r l =
    if leaves l.server then left l.server else if r.interrupted then next l else selected regex r l

-- One round of serv_loop, its test included.
unfoldable pub serv_round : Regex → Ready → Loop → Round
unfolding begin_round close_on_exit leaves selected
serv_round regex r l =
    if not l.server.waited || l.server.conn.sock
    then round_from regex r (close_on_exit (record l { server = begin_round r l.server }))
    else left l.server

-- serv_loop, over the rounds that come.
unfoldable pub serv_loop : Regex → List Ready → Round → Round
unfolding serv_round
serv_loop regex [] outcome = outcome
serv_loop regex (r ∷ rs) (next l) = serv_loop regex rs (serv_round regex r l)
serv_loop regex (r ∷ rs) (left s) = left s
serv_loop regex (r ∷ rs) crashed = crashed
