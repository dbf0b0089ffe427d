-- ===== src/Common/Names.antt =====
-- The names of error codes and tags (common.c, common_init, v2n, v2n_error, v2n_tag).
use sexpect.Base.{
  ℕ, ◌-◌, ◌++◌, Bool, false, not, Option, none, some, List, [], ◌∷◌, ◌==◌, ltb, if◌then◌else◌,
  length, take, codes,
}
use sexpect.Base.Int.{ℤ, pos, negsuc}
use sexpect.Args.Result.{Result, ok, exits}
use sexpect.Client.Show.{decimal}
use sexpect.Tags.{
  error_detach, error_eof, error_exited, error_general, error_internal, error_notty, error_proto,
  error_sys, error_timeout, error_usage, tag_ack, tag_autowait, tag_close, tag_disconn, tag_eof,
  tag_error, tag_error_code, tag_error_msg, tag_exited, tag_expbuf, tag_expout, tag_expout_index,
  tag_expout_text, tag_exp_flags, tag_exp_timeout, tag_hello, tag_idletime, tag_info, tag_input,
  tag_kill, tag_logfile, tag_logfile_append, tag_lookback, tag_matched, tag_nohup, tag_nonblock,
  tag_output, tag_pass, tag_pass_subcmd, tag_pattern, tag_pid, tag_ppid, tag_ptsname, tag_send,
  tag_set, tag_timed_out, tag_ttl, tag_version, tag_winch, tag_winsize_col, tag_winsize_row,
  tag_zombie_ttl,
}

-- struct v2n_map
abbrev pub V2nMap : Type 0
V2nMap = ℕ × Option (List ℕ)

-- g_v2n_error
abbrev pub error_names : List V2nMap
error_names =
    (error_detach, some (codes "ERROR_DETACH"))
    ∷ (error_eof, some (codes "ERROR_EOF"))
    ∷ (error_exited, some (codes "ERROR_EXITED"))
    ∷ (error_general, some (codes "ERROR_GENERAL"))
    ∷ (error_internal, some (codes "ERROR_INTERNAL"))
    ∷ (error_notty, some (codes "ERROR_NOTTY"))
    ∷ (error_proto, some (codes "ERROR_PROTO"))
    ∷ (error_sys, some (codes "ERROR_SYS"))
    ∷ (error_timeout, some (codes "ERROR_TIMEOUT"))
    ∷ (error_usage, some (codes "ERROR_USAGE"))
    ∷ (0, none)
    ∷ []

-- g_v2n_tag
abbrev pub tag_names : List V2nMap
tag_names =
    (tag_ack, some (codes "TAG_ACK"))
    ∷ (tag_autowait, some (codes "TAG_AUTOWAIT"))
    ∷ (tag_close, some (codes "TAG_CLOSE"))
    ∷ (tag_disconn, some (codes "TAG_DISCONN"))
    ∷ (tag_eof, some (codes "TAG_EOF"))
    ∷ (tag_error, some (codes "TAG_ERROR"))
    ∷ (tag_error_code, some (codes "TAG_ERROR_CODE"))
    ∷ (tag_error_msg, some (codes "TAG_ERROR_MSG"))
    ∷ (tag_exited, some (codes "TAG_EXITED"))
    ∷ (tag_expbuf, some (codes "TAG_EXPBUF"))
    ∷ (tag_expout, some (codes "TAG_EXPOUT"))
    ∷ (tag_expout_index, some (codes "TAG_EXPOUT_INDEX"))
    ∷ (tag_expout_text, some (codes "TAG_EXPOUT_TEXT"))
    ∷ (tag_exp_flags, some (codes "TAG_EXP_FLAGS"))
    ∷ (tag_exp_timeout, some (codes "TAG_EXP_TIMEOUT"))
    ∷ (tag_hello, some (codes "TAG_HELLO"))
    ∷ (tag_idletime, some (codes "TAG_IDLETIME"))
    ∷ (tag_info, some (codes "TAG_INFO"))
    ∷ (tag_input, some (codes "TAG_INPUT"))
    ∷ (tag_kill, some (codes "TAG_KILL"))
    ∷ (tag_logfile, some (codes "TAG_LOGFILE"))
    ∷ (tag_logfile_append, some (codes "TAG_LOGFILE_APPEND"))
    ∷ (tag_lookback, some (codes "TAG_LOOKBACK"))
    ∷ (tag_matched, some (codes "TAG_MATCHED"))
    ∷ (tag_nohup, some (codes "TAG_NOHUP"))
    ∷ (tag_nonblock, some (codes "TAG_NONBLOCK"))
    ∷ (tag_output, some (codes "TAG_OUTPUT"))
    ∷ (tag_pass, some (codes "TAG_PASS"))
    ∷ (tag_pass_subcmd, some (codes "TAG_PASS_SUBCMD"))
    ∷ (tag_pattern, some (codes "TAG_PATTERN"))
    ∷ (tag_pid, some (codes "TAG_PID"))
    ∷ (tag_ppid, some (codes "TAG_PPID"))
    ∷ (tag_ptsname, some (codes "TAG_PTSNAME"))
    ∷ (tag_send, some (codes "TAG_SEND"))
    ∷ (tag_set, some (codes "TAG_SET"))
    ∷ (tag_timed_out, some (codes "TAG_TIMED_OUT"))
    ∷ (tag_ttl, some (codes "TAG_TTL"))
    ∷ (tag_version, some (codes "TAG_VERSION"))
    ∷ (tag_winch, some (codes "TAG_WINCH"))
    ∷ (tag_winsize_col, some (codes "TAG_WINSIZE_COL"))
    ∷ (tag_winsize_row, some (codes "TAG_WINSIZE_ROW"))
    ∷ (tag_zombie_ttl, some (codes "TAG_ZOMBIE_TTL"))
    ∷ (0, none)
    ∷ []

abbrev pub error_start : ℕ
error_start = 200

abbrev pub error_end : ℕ
error_end = 211

abbrev pub tag_start : ℕ
tag_start = 0

abbrev pub tag_end : ℕ
tag_end = 43

-- common_init
unfoldable pub common_init : Result (Unit {0})
common_init =
    if not (length error_names == error_end - error_start)
    then exits error_general
    else if not (length tag_names == tag_end - tag_start)
    then exits error_general
    else ok tt

-- The text that a function of this group returns: a name of a table, what snprintf wrote into the
-- caller's buffer, that buffer with nothing written, or NULL.
pub data Named : Type 0 where
  literal written : List ℕ → Named
  untouched null : Named

-- The caller's buffer: `none` is NULL, `some len` one of `len` bytes.
abbrev pub Buffer : Type 0
Buffer = Option ℕ

-- snprintf(buf, len, "%s", text), and the buffer as the result.
abbrev pub print_to : Buffer → List ℕ → Named
print_to none text = null
print_to (some len) text = if len == 0 then untouched else written (take (len - 1) text)

abbrev pub is_number : ℕ → ℤ → Bool
is_number v (pos n) = v == n
is_number v (negsuc n) = false

-- A name that v2n found.
abbrev pub found : List ℕ → Buffer → Named
found name none = literal name
found name (some len) = if ltb 0 len then print_to (some len) name else literal name

-- v2n
unfoldable pub v2n : List V2nMap → ℤ → Buffer → Option Named
v2n [] val buf = none
v2n ((v, none) ∷ rest) val buf = none
v2n ((v, some name) ∷ rest) val buf =
    let later = v2n rest val buf in if is_number v val then some (found name buf) else later

abbrev pub or_number : Option Named → ℤ → Buffer → Named
or_number (some name) n buf = name
or_number none n buf = print_to buf (codes "ERROR " ++ decimal n)

unfoldable pub v2n_error : ℤ → Buffer → Named
unfolding v2n decimal
v2n_error err buf = or_number (v2n error_names err buf) err buf

unfoldable pub v2n_tag : ℤ → Buffer → Named
unfolding v2n decimal
v2n_tag tag buf = or_number (v2n tag_names tag buf) tag buf
