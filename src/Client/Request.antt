-- ===== src/Client/Request.antt =====
-- The request of a command (client.c, cli_main, cli_chkerr, cli_send_winsize).
use sexpect.Base.{
  ℕ, ◌+◌, Bool, true, false, ◌&&◌, not, Option, none, some, List, [], ◌∷◌, ◌++◌, ◌==◌, ltb,
  if◌then◌else◌, length, streq, str1of, codes,
}
use sexpect.Base.Int.{ℤ, pos, negsuc, pattern32}
use sexpect.Tags.{
  error_usage, error_notty, error_eof, error_timeout, tag_close, tag_expout, tag_info, tag_kill,
  tag_send, tag_set, tag_pass, tag_autowait, tag_nonblock, tag_exp_timeout, tag_ttl, tag_idletime,
  tag_pass_subcmd, tag_exp_flags, tag_pattern, tag_lookback, tag_winch, tag_winsize_row,
  tag_winsize_col, pass_subcmd_expect, pass_expect_ere,
}
use sexpect.Proto.Message.{
  Ttlv, ttlv_new_int, ttlv_new_bool, ttlv_new_text, ttlv_new_raw, ttlv_new_struct,
  ttlv_append_child,
}
use sexpect.Args.Options.{
  Command, close, chkerr, expect, interact, wait, expect_out, get, kill, send, set, PassOpts,
  SetOpts, ChkerrOpts,
}
use sexpect.Args.Result.{Result, ok, exits}

-- cli_chkerr: the code that the process exits with.
abbrev pub compared : ℕ → List ℕ → ℕ
compared errcode cmpto =
    if not (str1of cmpto (codes "eof" ∷ codes "timeout" ∷ []))
    then error_usage
    else if streq cmpto (codes "eof") && (errcode == error_eof)
    then 0
    else if streq cmpto (codes "timeout") && (errcode == error_timeout)
    then 0
    else 1

abbrev pub chkerr_code : ℤ → Option (List ℕ) → ℕ
chkerr_code (negsuc n) cmpto = error_usage
chkerr_code (pos n) none = error_usage
chkerr_code (pos n) (some cmpto) = compared n cmpto

unfoldable pub cli_chkerr : ChkerrOpts → ℕ
unfolding streq str1of
cli_chkerr st = chkerr_code st.errcode st.cmpto

-- `kill` without a signal sends SIGTERM.
abbrev pub signal_or : ℕ → ℤ → ℕ
signal_or sigterm (negsuc n) = sigterm
signal_or sigterm (pos n) = n

-- The bytes of -enter: a carriage return behind the data.
abbrev pub send_message : Bool → List ℕ → Result Ttlv
send_message true text = ok (ttlv_new_raw tag_send (length text + 1) (text ++ (b'\r' ∷ [])))
send_message false [] = exits 0
send_message false (c ∷ cs) = ok (ttlv_new_raw tag_send (length (c ∷ cs)) (c ∷ cs))

abbrev pub bytes_of : Option (List ℕ) → List ℕ
bytes_of none = []
bytes_of (some text) = text

abbrev pub int_of_bool : Bool → ℕ
int_of_bool b = if b then 1 else 0

-- A child that is appended on a condition.
abbrev pub child_if : Bool → Ttlv → Ttlv → Ttlv
child_if b child msg = if b then ttlv_append_child msg (child ∷ []) else msg

unfoldable pub set_request : SetOpts → Ttlv
unfolding ttlv_append_child ttlv_new_bool ttlv_new_int ttlv_new_struct
set_request st = child_if st.set_idle (ttlv_new_int tag_idletime (pattern32 st.idle)) (
    child_if st.set_ttl (ttlv_new_int tag_ttl (pattern32 st.ttl)) (
      child_if st.set_timeout (ttlv_new_int tag_exp_timeout (pattern32 st.timeout)) (
        child_if st.set_nonblock (ttlv_new_bool tag_nonblock (int_of_bool st.nonblock)) (
          child_if st.set_autowait (ttlv_new_bool tag_autowait (int_of_bool st.autowait))
            (ttlv_new_struct tag_set)))))

-- `expect` without any option waits for any output.
abbrev pub or_any : PassOpts → PassOpts
or_any st =
    if (st.subcmd == pass_subcmd_expect) && (st.expflags == 0)
    then record st { expflags = pass_expect_ere; pattern = some (codes ".*") }
    else st

abbrev pub pattern_child : Option (List ℕ) → Ttlv → Ttlv
pattern_child none msg = msg
pattern_child (some p) msg = ttlv_append_child msg (ttlv_new_text tag_pattern (length p) p ∷ [])

unfoldable pub pass_request : PassOpts → Ttlv
unfolding ttlv_append_child ttlv_new_text ttlv_new_int ttlv_new_struct
pass_request st = child_if (ltb 0 st.lookback) (ttlv_new_int tag_lookback st.lookback) (
    pattern_child st.pattern (
      child_if st.has_timeout (ttlv_new_int tag_exp_timeout (pattern32 st.timeout)) (
        ttlv_append_child
          (ttlv_append_child (ttlv_new_struct tag_pass)
            (ttlv_new_int tag_pass_subcmd st.subcmd ∷ []))
          (ttlv_new_int tag_exp_flags st.expflags ∷ []))))

abbrev pub pass_message : Bool → PassOpts → Result Ttlv
pass_message tty st =
    if not st.no_input && not tty then exits error_notty else ok (pass_request (or_any st))

-- The message that cli_main sends; `tty` says whether stdin is a terminal. (main calls cli_main for
-- every command but `spawn`, and getargs does not return with `help` or `version`.)
unfoldable pub request : ℕ → Bool → Command → Result Ttlv
unfolding cli_chkerr set_request pass_request ttlv_new_struct ttlv_new_int ttlv_new_raw
request sigterm tty (chkerr st) = exits (cli_chkerr st)
request sigterm tty close = ok (ttlv_new_struct tag_close)
request sigterm tty (expect_out index) = ok (ttlv_new_int tag_expout index)
request sigterm tty (get st) = ok (ttlv_new_struct tag_info)
request sigterm tty (kill signal) = ok (ttlv_new_int tag_kill (signal_or sigterm signal))
request sigterm tty (send st) = send_message st.enter (bytes_of st.payload)
request sigterm tty (set st) = ok (set_request st)
request sigterm tty (expect st) = pass_message tty st
request sigterm tty (interact st) = pass_message tty st
request sigterm tty (wait st) = pass_message tty st
request sigterm tty c = exits error_usage

-- The size of the terminal, `none` where stdin is no terminal or ioctl fails.
abbrev pub winch : ℕ × ℕ → Ttlv
winch (row, col) =
    ttlv_append_child (ttlv_new_struct tag_winch)
      (ttlv_new_int tag_winsize_row row ∷ ttlv_new_int tag_winsize_col col ∷ [])

unfoldable pub cli_send_winsize : Bool → Option (ℕ × ℕ) → Option Ttlv
unfolding ttlv_append_child ttlv_new_struct ttlv_new_int
cli_send_winsize tty none = none
cli_send_winsize tty (some size) = if not tty then none else some (winch size)
