-- ===== src/Client/Agree.antt =====
-- Proofs on the requests of the client and what the server makes of them (client.c, cli_main;
-- server.c, serv_process_msg).
use sexpect.Base.{
  ℕ, ◌^◌, ◌<◌, ◌≡◌, refl, Bool, true, false, Option, none, some, List, ltb, if◌then◌else◌, arith,
  length, c_string, ◌==◌, take_all,
}
use sexpect.Base.Int.{ℤ, pos, negsuc, signed32, pattern32}
use sexpect.Proto.Message.{
  get_int, get_raw, ttlv_new_int, ttlv_new_bool, ttlv_new_text, ttlv_new_struct, ttlv_append,
  ttlv_append_child, append_children, find_from, ttlv_find_sibling, ttlv_find_child,
}
use sexpect.Args.Options.{PassOpts, SetOpts}
use sexpect.Args.Number.{is_int}
use sexpect.Server.State.{Server, Spawn, Conn}
use sexpect.Args.Finish.{first_given}
use sexpect.Server.State.{free_expect_out}
use sexpect.Server.Process.{process_pass, set_spawn, truth}
use sexpect.Client.Request.{set_request, pass_request, int_of_bool}

pub signed32-pattern32 : (n : ℤ) → is_int n ≡ true → signed32 (pattern32 n) ≡ n
signed32-pattern32 (pos n) h = ground arith
signed32-pattern32 (negsuc n) h = ground arith

-- What `sexpect set` asks for.
abbrev pub asked : SetOpts → Spawn → Spawn
asked st sp = record sp {
  autowait = if st.set_autowait then st.autowait else sp.autowait;
  nonblock = if st.set_nonblock then st.nonblock else sp.nonblock;
  def_timeout = if st.set_timeout then st.timeout else sp.def_timeout;
  ttl = if st.set_ttl then st.ttl else sp.ttl;
  idle = if st.set_idle then st.idle else sp.idle;
}

truth-int_of_bool : (b : Bool) → truth (if int_of_bool b == 0 then 0 else 1) ≡ b
truth-int_of_bool true = refl
truth-int_of_bool false = refl

-- The server's settings after the message of `sexpect set` are those that were asked for, and the
-- others stay, for numbers that an int holds.
pub set_spawn-set_request :
    (st : SetOpts) (sp : Spawn)
    → is_int st.timeout ≡ true
    → is_int st.ttl ≡ true
    → is_int st.idle ≡ true
    → set_spawn (set_request st) sp ≡ asked st sp
unfolding set_spawn set_request ttlv_append_child append_children ttlv_append ttlv_new_int
    ttlv_new_bool ttlv_new_struct ttlv_find_child ttlv_find_sibling find_from get_int
set_spawn-set_request st sp ht hl hi = ground (
  arith,
  signed32-pattern32 st.timeout ht,
  signed32-pattern32 st.ttl hl,
  signed32-pattern32 st.idle hi,
  truth-int_of_bool st.autowait,
  truth-int_of_bool st.nonblock,
)

-- A text without NUL bytes, as every argument is.
abbrev pub IsText : Option (List ℕ) → Type 0
IsText none = Unit
IsText (some p) = c_string p ≡ p

-- What `expect`, `interact` and `wait` ask for.
abbrev pub pass_asked : PassOpts → Server → Conn
pass_asked st s = record (s.conn) {
  passing = true;
  subcmd = st.subcmd;
  expflags = st.expflags;
  pattern = first_given st.pattern s.conn.pattern;
  timeout = if st.has_timeout then st.timeout else s.spawn.def_timeout;
  lookback = if ltb 0 st.lookback then st.lookback else s.conn.lookback;
}

abbrev pub conn_of : Option Server → Option Conn
conn_of none = none
conn_of (some s) = some s.conn

-- The connection after the message of `expect`, `interact` or `wait` has the sub-command, the flags,
-- the pattern, the timeout and the lookback that were asked for, for numbers that an int holds and a
-- pattern without NUL bytes: where no timeout was given the server's default holds.
pub process_pass-pass_request :
    (st : PassOpts) (s : Server)
    → is_int st.timeout ≡ true
    → st.lookback < 2 ^ 31
    → IsText st.pattern
    → conn_of (process_pass (pass_request st) s) ≡ some (pass_asked st s)
unfolding process_pass pass_request free_expect_out ttlv_append_child append_children ttlv_append
    ttlv_new_int ttlv_new_text ttlv_new_struct ttlv_find_child ttlv_find_sibling find_from get_int
    get_raw
process_pass-pass_request st s ht hl hp = with_pattern st.pattern hp
  where
    with_pattern :
        (p : Option (List ℕ))
        → IsText p
        → conn_of (process_pass (pass_request (record st { pattern = p })) s)
          ≡ some (pass_asked (record st { pattern = p }) s)
    with_pattern none h = ground (arith, signed32-pattern32 st.timeout ht, hl)
    with_pattern (some p) h =
        ground (arith, signed32-pattern32 st.timeout ht, hl, h, take_all (length p) p (omega arith))
