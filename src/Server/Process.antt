-- ===== src/Server/Process.antt =====
-- Handling a request of the client (server.c, serv_hello, serv_disconn, serv_process_msg).
use sexpect.Base.{
  streq, ℕ, ◌-◌, ◌^◌, ◌%◌, Bool, true, false, not, ◌&&◌, Option, none, some, List, [], ◌∷◌, ◌++◌,
  min, codes, ◌==◌, ltb, if◌then◌else◌, length, take, drop, get_elem?, c_string,
}
use sexpect.Base.Int.{ℤ, pos, negsuc, signed32, pattern32, is_positive}
use sexpect.Proto.Message.{
  Value, Ttlv, null, node, get_int, get_raw, ttlv_find_child, ttlv_append_child, ttlv_new_int,
  ttlv_new_bool, ttlv_new_text, ttlv_new_raw, ttlv_new_struct,
}
use sexpect.Tags.{
  tag_hello, tag_disconn, tag_send, tag_input, tag_pass, tag_expout, tag_winch, tag_close, tag_kill,
  tag_set, tag_info, tag_ack, tag_version, tag_pass_subcmd, tag_exp_flags, tag_pattern,
  tag_exp_timeout, tag_lookback, tag_expout_text, tag_winsize_row, tag_winsize_col, tag_autowait,
  tag_nonblock, tag_ttl, tag_idletime, tag_zombie_ttl, tag_pid, tag_ppid, tag_ptsname, tag_expbuf,
  error_proto, error_usage, error_sys,
}
use sexpect.Server.Buffers.{Buffers, buf_raw2expect}
use sexpect.Server.State.{
  Server, Conn, Spawn, close_sock, serv_new_error, reply, free_expect_out, expect_out_num,
}
use sexpect.Server.Pass.{with_buffers}

-- VERSION_
abbrev pub version : List ℕ
version = codes "2.3.14"

-- The messages of msg_hello and msg_disconn.
unfoldable pub hello : Ttlv
unfolding ttlv_append_child ttlv_new_struct ttlv_new_text
hello =
    ttlv_append_child (ttlv_new_struct tag_hello)
      (ttlv_new_text tag_version (length version) version ∷ [])

unfoldable pub disconn : Ttlv
unfolding ttlv_new_struct
disconn = ttlv_new_struct tag_disconn

-- The text of a version mismatch, cut to the 63 characters that `err_msg` holds.
abbrev pub mismatch_text : List ℕ → List ℕ
mismatch_text client = take 63 (
    codes "version mismatch (server: "
    ++ (version ++ (codes ", client: " ++ (client ++ codes ")"))))

-- The members of a node that ttlv_find_child returned; `none` is a NULL pointer that is followed.
abbrev pub int_of : Ttlv → Option ℕ
int_of null = none
int_of (node tag type len v child next) = some (get_int v)

abbrev pub text_of : Ttlv → Option (List ℕ)
text_of null = none
text_of (node tag type len v child next) = some (c_string (get_raw v))

-- A setting that a child of the message changes, if there is one.
abbrev pub if_given {ℓ} : {A : Type ℓ} → Option ℕ → (ℕ → A) → A → A
if_given none f a = a
if_given (some n) f a = f n

-- A failure of msg_hello closes the connection, like one of serv_msg_send.
abbrev pub check_version : Option (List ℕ) → Server → Server
check_version none s = close_sock s
check_version (some client) s =
    if streq version client
    then reply hello s
    else close_sock (reply (serv_new_error error_proto (mismatch_text client)) s)

unfoldable pub serv_hello : Ttlv → Server → Server
unfolding streq hello
serv_hello msg s =
    if not s.conn.sock then s else check_version (text_of (ttlv_find_child msg tag_version)) s

-- serv_disconn answers, and closes the connection whether or not the answer went out.
unfoldable pub serv_disconn : Server → Server
unfolding disconn
serv_disconn s =
    if not s.conn.sock then s else close_sock (record (reply disconn s) { lastactive = s.env.now })

-- TAG_SEND and TAG_INPUT: the ptm takes as much as it takes. Only TAG_SEND is answered.
unfoldable pub process_send : Bool → ℕ → Value → Server → Server
process_send answer len v s = if answer then reply (ttlv_new_struct tag_ack) written else written
  where
    written : Server
    written =
        if s.ptm_open
        then record s { typed = s.typed ++ take (min s.env.ptm_takes len) (get_raw v) }
        else s

-- TAG_PASS: the new request of the connection.
abbrev pub request : ℕ → ℕ → Option (List ℕ) → Ttlv → Server → Conn
request subcmd expflags pattern msg s = record (s.conn) {
  passing = true;
  subcmd = subcmd;
  expflags = expflags;
  pattern = pattern;
  timeout = if_given (int_of (ttlv_find_child msg tag_exp_timeout)) signed32 s.spawn.def_timeout;
  lookback =
      if_given (int_of (ttlv_find_child msg tag_lookback))
        (λ n. if is_positive (signed32 n) then n else s.conn.lookback) s.conn.lookback;
}

abbrev pub pass_with : ℕ → ℕ → Option (List ℕ) → Ttlv → Server → Server
pass_with subcmd expflags none msg s = record s {
  conn = request subcmd expflags s.conn.pattern msg s;
}
pass_with subcmd expflags (some pattern) msg s =
    free_expect_out (record s { conn = request subcmd expflags (some pattern) msg s })

-- The sub-command and the flags must be there.
abbrev pub pass_flags : ℕ → Option ℕ → Ttlv → Server → Option Server
pass_flags subcmd none msg s = none
pass_flags subcmd (some expflags) msg s =
    some (pass_with subcmd expflags (text_of (ttlv_find_child msg tag_pattern)) msg s)

abbrev pub pass_subcmd : Option ℕ → Ttlv → Server → Option Server
pass_subcmd none msg s = none
pass_subcmd (some subcmd) msg s =
    pass_flags subcmd (int_of (ttlv_find_child msg tag_exp_flags)) msg s

unfoldable pub process_pass : Ttlv → Server → Option Server
unfolding free_expect_out
process_pass msg s = pass_subcmd (int_of (ttlv_find_child msg tag_pass_subcmd)) msg s

-- An entry of `expout` as a text; one that is not set is empty.
abbrev pub group : Option (Option (List ℕ)) → List ℕ
group none = []
group (some none) = []
group (some (some text)) = c_string text

-- TAG_EXPOUT
abbrev pub expout_answer : ℤ → Server → Ttlv
expout_answer (pos i) s =
    let text = group (get_elem? s.expout i) in
    if ltb i expect_out_num
    then ttlv_new_text tag_expout_text (length text) text
    else serv_new_error error_usage (codes "index must in range 0-9")
expout_answer (negsuc n) s = serv_new_error error_usage (codes "index must in range 0-9")

unfoldable pub process_expout : Value → Server → Server
process_expout v s = reply (expout_answer (signed32 (get_int v)) s) s

-- TAG_WINCH. ws_row and ws_col have 16 bits.
abbrev pub is_size : Option (ℕ × ℕ) → ℕ → ℕ → Bool
is_size none row col = false
is_size (some (r, c)) row col = (r == row) && (c == col)

abbrev pub resize : Option ℕ → Option ℕ → Server → Option Server
resize none col s = none
resize (some row) none s = none
resize (some row) (some col) s = some (
    if is_size s.env.winsize row col
    then s
    else record s { resized = s.resized ++ ((row % 2 ^ 16, col % 2 ^ 16) ∷ []) })

unfoldable pub process_winch : Ttlv → Server → Option Server
process_winch msg s =
    if not s.ptm_open
    then some s
    else resize (int_of (ttlv_find_child msg tag_winsize_row))
        (int_of (ttlv_find_child msg tag_winsize_col)) s

-- TAG_CLOSE
unfoldable pub process_close : Server → Server
process_close s = reply (ttlv_new_struct tag_ack) (record s { ptm_open = false })

-- TAG_KILL
unfoldable pub process_kill : Value → Server → Server
process_kill v s =
    if s.env.kill_ok
    then reply (ttlv_new_struct tag_ack) (record s { signals = s.signals ++ (get_int v ∷ []) })
    else reply (serv_new_error error_sys (take 1023 (codes "kill: " ++ s.env.kill_error))) s

-- TAG_SET
abbrev pub truth : ℕ → Bool
truth n = not (n == 0)

unfoldable pub set_spawn : Ttlv → Spawn → Spawn
set_spawn msg sp = record sp {
  autowait = if_given (int_of (ttlv_find_child msg tag_autowait)) truth sp.autowait;
  nonblock = if_given (int_of (ttlv_find_child msg tag_nonblock)) truth sp.nonblock;
  def_timeout = if_given (int_of (ttlv_find_child msg tag_exp_timeout)) signed32 sp.def_timeout;
  ttl = if_given (int_of (ttlv_find_child msg tag_ttl)) signed32 sp.ttl;
  idle = if_given (int_of (ttlv_find_child msg tag_idletime)) signed32 sp.idle;
}

unfoldable pub process_set : Ttlv → Server → Server
unfolding set_spawn
process_set msg s = reply (ttlv_new_struct tag_ack) (record s { spawn = set_spawn msg s.spawn })

-- MAX_EXPBUF_PEEK
abbrev pub max_expbuf_peek : ℕ
max_expbuf_peek = 4096

abbrev pub from_bool : Bool → ℕ
from_bool true = 1
from_bool false = 0

-- The answer to TAG_INFO.
unfoldable pub info : Server → Ttlv
info s =
    let expbuf = s.buffers.expbuf in
    let n_expbuf = min (length expbuf) max_expbuf_peek in
    ttlv_append_child (ttlv_new_struct tag_info) (
      ttlv_new_int tag_pid s.env.pid
      ∷ ttlv_new_int tag_ppid s.env.ppid
      ∷ ttlv_new_text tag_ptsname (length s.env.ptsname) s.env.ptsname
      ∷ ttlv_new_int tag_exp_timeout (pattern32 s.spawn.def_timeout)
      ∷ ttlv_new_bool tag_autowait (from_bool s.spawn.autowait)
      ∷ ttlv_new_bool tag_nonblock (from_bool s.spawn.nonblock)
      ∷ ttlv_new_int tag_ttl (pattern32 s.spawn.ttl)
      ∷ ttlv_new_int tag_idletime (pattern32 s.spawn.idle)
      ∷ ttlv_new_int tag_zombie_ttl (pattern32 s.spawn.zombie_idle)
      ∷ ttlv_new_raw tag_expbuf n_expbuf (drop (length expbuf - n_expbuf) expbuf)
      ∷ [])

abbrev pub inform : Server → Option Buffers → Option Server
inform s none = none
inform s (some b) = some (reply (info (with_buffers s b)) (with_buffers s b))

unfoldable pub process_info : Server → Option Server
unfolding info buf_raw2expect
process_info s = inform s (buf_raw2expect s.buffers)

-- The switch of serv_process_msg; other tags are ignored. `none` is an assert that fails or a NULL
-- pointer that is followed.
unfoldable pub dispatch : Ttlv → Server → Option Server
unfolding serv_hello serv_disconn process_send process_pass process_expout process_winch
    process_close process_kill process_set process_info
dispatch null s = some s
dispatch (node tag type len v child next) s =
    let msg = node tag type len v child next in
    if tag == tag_hello
    then some (serv_hello msg s)
    else if tag == tag_disconn
    then some (serv_disconn s)
    else if tag == tag_send
    then some (process_send true len v s)
    else if tag == tag_input
    then some (process_send false len v s)
    else if tag == tag_pass
    then process_pass msg s
    else if tag == tag_expout
    then some (process_expout v s)
    else if tag == tag_winch
    then process_winch msg s
    else if tag == tag_close
    then some (process_close s)
    else if tag == tag_kill
    then some (process_kill v s)
    else if tag == tag_set
    then some (process_set msg s)
    else if tag == tag_info
    then process_info s
    else some s

abbrev pub received : Option Ttlv → Server → Option Server
received none s = some (close_sock s)
received (some msg) s = dispatch msg s

-- serv_process_msg, given what msg_recv returns: where it fails the connection is closed.
unfoldable pub serv_process_msg : Option Ttlv → Server → Option Server
unfolding dispatch
serv_process_msg msg s = received msg (record s { lastactive = s.env.now })
