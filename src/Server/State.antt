-- ===== src/Server/State.antt =====
-- The server's global struct (server.c) and what surrounds it.
use sexpect.Base.{
  ℕ, ◌+◌, ◌-◌, ◌*◌, ◌≤◌, ◌<◌, ◌≡◌, Bool, true, false, not, Option, none, some, List, [], ◌∷◌, ◌++◌,
  ◌==◌, if◌then◌else◌, replicate,
}
use sexpect.Base.Int.{ℤ}
use sexpect.Proto.Message.{Ttlv, ttlv_new_int, ttlv_new_text, ttlv_new_struct, ttlv_append_child}
use sexpect.Server.Buffers.{Buffers}
use sexpect.Tags.{tag_error, tag_error_code, tag_error_msg}

-- g.conn. `sock` says whether there is a client, `lookback` is 0 where there is none.
pub record Conn : Type 0 where
  pub sock : Bool
  pub passing : Bool
  pub subcmd : ℕ
  pub expflags : ℕ
  pub pattern : Option (List ℕ)
  pub timeout : ℤ
  pub lookback : ℕ
  pub startime : ℕ

-- struct st_spawn, as far as the server reads it while it runs. Times are nanoseconds.
pub record Spawn : Type 0 where
  pub nonblock : Bool
  pub autowait : Bool
  pub cloexit : Bool
  pub def_timeout : ℤ
  pub ttl : ℤ
  pub idle : ℤ
  pub zombie_idle : ℤ
  pub startime : ℕ
  pub exittime : ℕ

-- What the system calls of one step find: the clock, what the next calls of msg_send return, how
-- many bytes write takes for the ptm, whether kill succeeds and its error text otherwise, the
-- terminal's size if ioctl reads it, and the process numbers.
pub record Env : Type 0 where
  pub now : ℕ
  pub link : List Bool
  pub ptm_takes : ℕ
  pub kill_ok : Bool
  pub kill_error : List ℕ
  pub winsize : Option (ℕ × ℕ)
  pub pid : ℕ
  pub ppid : ℕ
  pub ptsname : List ℕ
  pub exitstatus : ℕ

-- The global struct, with what the server did: messages sent to the client, bytes written to the
-- ptm, signals sent to the child, and window sizes set.
pub record Server : Type 0 where
  pub conn : Conn
  pub spawn : Spawn
  pub env : Env
  pub buffers : Buffers
  pub ptm_open : Bool
  pub child_dead : Bool
  pub waited : Bool
  pub lastactive : ℕ
  pub expout : List (Option (List ℕ))
  pub sent : List Ttlv
  pub typed : List ℕ
  pub signals : List ℕ
  pub resized : List (ℕ × ℕ)

-- EXPECT_OUT_NUM
abbrev pub expect_out_num : ℕ
expect_out_num = 10

unfoldable pub free_expect_out : Server → Server
free_expect_out s = record s { expout = replicate expect_out_num none }

unfoldable pub serv_new_error : ℕ → List ℕ → Ttlv
unfolding ttlv_new_struct ttlv_append_child ttlv_new_int ttlv_new_text
serv_new_error code text = ttlv_append_child (ttlv_new_struct tag_error) (
    ttlv_new_int tag_error_code code
    ∷ ttlv_new_text tag_error_msg (sexpect.Base.length text) text
    ∷ [])

-- `close(g.conn.sock); g.conn.sock = -1`
abbrev pub close_sock : Server → Server
close_sock s = record s { conn = record (s.conn) { sock = false } }

-- What a call of msg_send returns: it succeeds where the script of the link has ended.
abbrev pub link_up : List Bool → Bool
link_up [] = true
link_up (ok ∷ rest) = ok

abbrev pub link_rest : List Bool → List Bool
link_rest [] = []
link_rest (ok ∷ rest) = rest

-- serv_msg_send: whether the message went out. A failure closes the connection.
unfoldable pub serv_msg_send : Ttlv → Server → Server × Bool
serv_msg_send msg s = if not s.conn.sock then (s, false) else attempt
  where
    next : Server
    next = record s { env = record (s.env) { link = link_rest s.env.link } }

    attempt : Server × Bool
    attempt = if link_up s.env.link then (record next { sent = s.sent ++ (msg ∷ []) }, true) else (
      record next { conn = record (s.conn) { sock = false }; lastactive = s.env.now },
      false,
    )

-- A reply whose outcome the caller ignores.
abbrev pub reply : Ttlv → Server → Server
reply msg s = (serv_msg_send msg s).0
