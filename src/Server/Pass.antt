-- ===== src/Server/Pass.antt =====
-- One round of passing output to a client (server.c, serv_pass).
use sexpect.Base.{
  ℕ, ◌+◌, ◌-◌, true, false, not, ◌&&◌, ◌||◌, Option, none, some, List, [], ◌∷◌, ◌==◌, ltb,
  if◌then◌else◌, drop,
}
use sexpect.Proto.Message.{ttlv_new_int, ttlv_new_bool, ttlv_new_raw, ttlv_new_struct}
use sexpect.Tags.{
  has_flag, pass_expect_eof, pass_expect_exit, pass_subcmd_interact, pass_subcmd_wait, tag_output,
  tag_matched, tag_eof, tag_exited, error_eof, error_timeout,
}
use sexpect.Server.Buffers.{Buffers, buf_raw2expect, mark_sent, skip_expect, discard_expect}
use sexpect.Server.Lookback.{send_start}
use sexpect.Server.State.{Server, serv_new_error, serv_msg_send, reply}
use sexpect.Server.Expect.{Regex, serv_expect, exp_timed_out}

-- A part of serv_pass goes on to the next part or returns. `crash` is an assert that fails or a
-- pointer that leads nowhere.
pub data Flow : Type 0 where
  go : Server → Flow
  done : Server → Flow
  crash : Flow

infixl 5 ◌>>=◌
abbrev pub ◌>>=◌ : Flow → (Server → Flow) → Flow
go s >>= f = f s
done s >>= f = done s
crash >>= f = crash

-- "PTY closed" and "expect timed out"
abbrev pub pty_closed : List ℕ
pty_closed = b'P' ∷ b'T' ∷ b'Y' ∷ b' ' ∷ b'c' ∷ b'l' ∷ b'o' ∷ b's' ∷ b'e' ∷ b'd' ∷ []

abbrev pub expect_timed_out : List ℕ
expect_timed_out =
    b'e' ∷ b'x' ∷ b'p' ∷ b'e' ∷ b'c' ∷ b't' ∷ b' ' ∷ b't' ∷ b'i' ∷ b'm' ∷ b'e' ∷ b'd' ∷ b' ' ∷ b'o'
    ∷ b'u' ∷ b't' ∷ []

abbrev pub stop_passing : Server → Server
stop_passing s = record s { conn = record (s.conn) { passing = false } }

abbrev pub with_buffers : Server → Buffers → Server
with_buffers s b = record s { buffers = b }

-- The message of the output from index `start` on goes out; what was new is old then.
unfoldable pub send_from : ℕ → Server → Flow
send_from start s =
    let output = drop start s.buffers.rawbuf in
    let size = s.buffers.oldcnt + s.buffers.newcnt - start in
    let (s', went) = serv_msg_send (ttlv_new_raw tag_output size output) s in
    if ltb 0 size
    then (if went then go (with_buffers s' (mark_sent s'.buffers)) else done s')
    else go s

-- The lookback serves once.
abbrev pub send_if : Option ℕ → Server → Flow
send_if none s = crash
send_if (some start) s = send_from start (record s { conn = record (s.conn) { lookback = 0 } })

unfoldable pub send_output : Server → Flow
unfolding send_from send_start
send_output s = send_if (send_start s.conn.lookback s.buffers) s

-- A pattern is tried on the expect buffer; `interact` and `wait` without one empty it.
abbrev pub matched : Option Server → Server → Flow
matched none s = go s
matched (some s') s = done (stop_passing (reply (ttlv_new_bool tag_matched 1) s'))

abbrev pub try_copied : Regex → List ℕ → Server → Option Buffers → Flow
try_copied regex pattern s none = crash
try_copied regex pattern s (some b) =
    matched (serv_expect regex pattern (with_buffers s b)) (with_buffers s b)

abbrev pub match_kind : Regex → Server → Option (List ℕ) → Flow
match_kind regex s (some pattern) = try_copied regex pattern s (buf_raw2expect s.buffers)
match_kind regex s none =
    if (s.conn.subcmd == pass_subcmd_interact) || (s.conn.subcmd == pass_subcmd_wait)
    then go (with_buffers s (skip_expect s.buffers))
    else go s

unfoldable pub match_pattern : Regex → Server → Flow
unfolding serv_expect buf_raw2expect
match_pattern regex s = match_kind regex s s.conn.pattern

-- waitpid collects the child once.
abbrev pub report_exit : Server → Server
report_exit s =
    if not s.waited && s.child_dead
    then stop_passing
        (reply (ttlv_new_int tag_exited s.env.exitstatus) (record s { waited = true }))
    else s

-- The ptm is closed and all output was sent.
unfoldable pub at_eof : Server → Flow
at_eof s =
    if not s.ptm_open && (s.buffers.newcnt == 0)
    then (if has_flag s.conn.expflags pass_expect_eof
        then done (
            stop_passing
              (reply (ttlv_new_struct tag_eof) (with_buffers s (discard_expect s.buffers))))
        else if has_flag s.conn.expflags pass_expect_exit
        then done (report_exit s)
        else done (stop_passing (reply (serv_new_error error_eof pty_closed) s)))
    else go s

unfoldable pub at_timeout : Server → Flow
unfolding exp_timed_out
at_timeout s =
    if exp_timed_out s
    then done (stop_passing (reply (serv_new_error error_timeout expect_timed_out) s))
    else go s

unfoldable pub serv_pass : Regex → Server → Flow
unfolding send_output match_pattern at_eof at_timeout
serv_pass regex s = if not s.conn.sock || not s.conn.passing then done s else round
  where
    round : Flow
    round = do s₁ ← send_output s; s₂ ← match_pattern regex s₁; s₃ ← at_eof s₂; at_timeout s₃
