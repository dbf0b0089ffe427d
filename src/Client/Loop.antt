-- ===== src/Client/Loop.antt =====
-- The client's connection to the server (client.c, cli_hello, cli_disconn, cli_loop, cli_main).
use sexpect.Base.{
  ℕ, ◌+◌, Bool, true, false, not, ◌&&◌, Option, none, some, List, [], ◌∷◌, ◌==◌, if◌then◌else◌,
  length, take, streq,
}
use sexpect.Base.Int.{ℤ, pos, negsuc, signed32}
use sexpect.Tags.{
  error_sys, error_proto, error_eof, error_detach, has_flag, pass_expect_eof, tag_hello,
  tag_version, tag_disconn, tag_ack, tag_output, tag_expout_text, tag_matched, tag_eof, tag_error,
  tag_error_msg, tag_error_code, tag_info, tag_exited, tag_input,
}
use sexpect.Proto.Message.{
  Ttlv, null, node, tag_of, get_int, get_raw, ttlv_new_text, ttlv_find_child,
}
use sexpect.Server.Process.{hello, disconn, version, int_of, text_of}
use sexpect.Args.Options.{Command, expect, interact, wait, get}
use sexpect.Client.Request.{or_any, cli_send_winsize}
use sexpect.Client.Subst.{Subst, cli_subst_raw}
use sexpect.Client.State.{Client, Run, go, waits, ends, hangs, crash, ◌>>=◌, show, cli_msg_send}
use sexpect.Client.Show.{show_info}

abbrev pub is_interact : Command → Bool
is_interact (interact st) = true
is_interact c = false

-- cmdopts->passing
abbrev pub is_passing : Command → Bool
is_passing (expect st) = true
is_passing (interact st) = true
is_passing (wait st) = true
is_passing c = false

-- The bytes of an output or of a group: msg->v_raw, msg->length.
abbrev pub bytes_in : Ttlv → List ℕ
bytes_in null = []
bytes_in (node tag type len v child next) = take len (get_raw v)

abbrev pub with_inbox : List (Option Ttlv) → Client → Client
with_inbox inbox c = record c { inbox = inbox }

-- cli_msg_recv
abbrev pub received : List (Option Ttlv) → Client → (Ttlv → Client → Run) → Run
received [] c f = waits c
received (none ∷ rest) c f = ends (pos error_proto) (with_inbox rest c)
received (some msg ∷ rest) c f = f msg (with_inbox rest c)

-- The version that the server says, or what is wrong.
abbrev pub check_version : Option (List ℕ) → Client → Run
check_version none c = ends (pos error_proto) c
check_version (some text) c = if streq version text then go c else ends (pos error_proto) c

abbrev pub hello_error : Option (List ℕ) → Client → Run
hello_error none c = crash
hello_error (some text) c = ends (pos error_proto) c

-- The loop of cli_hello, over what is received. Other messages are passed over.
unfoldable pub await_hello : List (Option Ttlv) → Client → Run
unfolding ttlv_find_child streq
await_hello [] c = waits (with_inbox [] c)
await_hello (none ∷ rest) c = ends (pos error_proto) (with_inbox rest c)
await_hello (some msg ∷ rest) c =
    let later = await_hello rest c in
    if tag_of msg == tag_hello
    then check_version (text_of (ttlv_find_child msg tag_version)) (with_inbox rest c)
    else if tag_of msg == tag_error
    then hello_error (text_of (ttlv_find_child msg tag_error_msg)) (with_inbox rest c)
    else later

abbrev pub cli_hello : Client → Run
cli_hello c = cli_msg_send hello c >>= (λ d. await_hello d.inbox d)

-- The loop of cli_disconn: output is still shown to a client that asked for it.
abbrev pub late_output : Ttlv → Client → Client
late_output msg c = if is_passing c.cmd then show (bytes_in msg) c else c

unfoldable pub await_disconn : List (Option Ttlv) → Client → Run
await_disconn [] c = waits (with_inbox [] c)
await_disconn (none ∷ rest) c = ends (pos error_proto) (with_inbox rest c)
await_disconn (some msg ∷ rest) c =
    let shown = await_disconn rest (late_output msg c) in
    let later = await_disconn rest c in
    if tag_of msg == tag_disconn
    then go (with_inbox rest c)
    else if tag_of msg == tag_output
    then shown
    else later

-- cli_disconn ends the process, but for a negative code.
abbrev pub exit_with : ℤ → Client → Run
exit_with (pos n) c = ends (pos n) c
exit_with (negsuc n) c = go c

unfoldable pub cli_disconn : ℤ → Client → Run
unfolding cli_msg_send await_disconn disconn
cli_disconn code c = do d ← cli_msg_send disconn c; e ← await_disconn d.inbox d; exit_with code e

-- How the macros of wait read a status: the process returned a code, was killed by a signal, or
-- neither.
pub data Ended : Type 0 where
  returned killed : ℕ → Ended
  neither : Ended

abbrev pub exit_code : Ended → ℕ
exit_code (returned n) = n
exit_code (killed n) = 128 + n
exit_code neither = 255

-- cmdopts->pass.expflags, after cli_main.
abbrev pub flags_of : Command → Option ℕ
flags_of (expect st) = some (or_any st).expflags
flags_of (interact st) = some (or_any st).expflags
flags_of (wait st) = some (or_any st).expflags
flags_of c = none

abbrev pub end_of_output : Option ℕ → Client → Run
end_of_output none c = crash
end_of_output (some flags) c =
    cli_disconn (pos (if has_flag flags pass_expect_eof then 0 else error_eof)) c

-- TAG_ERROR. After a negative code the loop would go on with a file number of -1.
abbrev pub at_error : Option (List ℕ) → Option ℕ → Client → Run
at_error none code c = crash
at_error (some text) none c = crash
at_error (some text) (some code) c =
    if is_passing c.cmd
    then cli_disconn (signed32 code) c >>= (λ d. crash)
    else cli_disconn (negsuc 0) c >>= (λ d. ends (signed32 code) d)

abbrev pub info_shown : Option (List ℕ) → Client → Run
info_shown none c = crash
info_shown (some text) c = cli_disconn (pos 0) (show text c)

abbrev pub at_info : Command → Ttlv → Client → Run
at_info (get st) msg c = info_shown (show_info st msg) c
at_info other msg c = crash

abbrev pub substituted : Option (List ℕ) → Client → Run
substituted none c = hangs
substituted (some text) c = go (show text c)

-- TAG_OUTPUT. More fuel than there are bytes would make no difference.
abbrev pub at_output : List Subst → List ℕ → Client → Run
at_output [] bytes c = go (show bytes c)
at_output (sub ∷ subs) bytes c = substituted (cli_subst_raw (sub ∷ subs) (length bytes) bytes) c

-- What cli_loop does with a message. (TAG_EOF and TAG_INFO answer commands whose options have the
-- member of the union that is read; for others `crash` stands for what is read then.)
unfoldable pub answer : (ℕ → Ended) → Ttlv → Client → Run
unfolding cli_disconn show_info cli_subst_raw ttlv_find_child get_int
answer status null c = crash
answer status (node tag type len v child next) c =
    let msg = node tag type len v child next in
    if tag == tag_ack
    then cli_disconn (pos 0) c
    else if tag == tag_output
    then at_output c.subs (bytes_in msg) c
    else if tag == tag_expout_text
    then cli_disconn (pos 0) (show (bytes_in msg) c)
    else if tag == tag_matched
    then cli_disconn (pos 0) c
    else if tag == tag_eof
    then end_of_output (flags_of c.cmd) c
    else if tag == tag_error
    then at_error (text_of (ttlv_find_child msg tag_error_msg))
        (int_of (ttlv_find_child msg tag_error_code)) c
    else if tag == tag_info
    then at_info c.cmd msg c
    else if tag == tag_exited
    then cli_disconn (pos (exit_code (status (get_int v)))) c
    else ends (pos error_proto) c

-- What reading stdin returns: bytes, which may be none, EINTR, or another error.
pub data Typed : Type 0 where
  keys : List ℕ → Typed
  interrupted failed : Typed

-- What one round meets: whether SIGWINCH came before it and the terminal's size, how select
-- returns, what stdin has, and whether the socket is ready.
pub record Tick : Type 0 where
  pub winched : Bool
  pub winsize : Option (ℕ × ℕ)
  pub select : Option Bool
  pub stdin : Option Typed
  pub readable : Bool

abbrev pub no_detach : Command → Bool
no_detach (interact st) = st.no_detach
no_detach c = false

-- CTRL-]
abbrev pub is_detach : List ℕ → Bool
is_detach [] = false
is_detach (c ∷ []) = c == 29
is_detach (c ∷ d ∷ cs) = false

abbrev pub send_keys : List ℕ → Client → Run
send_keys [] c = go c
send_keys (k ∷ ks) c = do
  d ← if not (no_detach c.cmd) && is_detach (k ∷ ks) then cli_disconn (pos error_detach) c else go c
  cli_msg_send (ttlv_new_text tag_input (length (k ∷ ks)) (k ∷ ks)) d

abbrev pub at_stdin : Option Typed → Client → (Client → Run) → Run
at_stdin none c f = f c
at_stdin (some (keys bytes)) c f = send_keys bytes c >>= f
at_stdin (some interrupted) c f = go c
at_stdin (some failed) c f = ends (pos error_sys) c

abbrev pub send_if : Option Ttlv → Client → Run
send_if none c = go c
send_if (some msg) c = cli_msg_send msg c

abbrev pub at_socket : (ℕ → Ended) → Bool → Client → Run
at_socket status readable c = if readable then received c.inbox c (answer status) else go c

-- How select returns: descriptors are ready, a signal came (`some true`) or another error.
abbrev pub selected : (ℕ → Ended) → Tick → Option Bool → Client → Run
selected status t none c =
    at_stdin (if is_interact c.cmd then t.stdin else none) c (at_socket status t.readable)
selected status t (some true) c = go c
selected status t (some false) c = ends (pos error_sys) c

unfoldable pub cli_round : (ℕ → Ended) → Tick → Client → Run
unfolding answer cli_msg_send cli_send_winsize ttlv_new_text
cli_round status t c = do
  d ←
      send_if (if t.winched && is_interact c.cmd then cli_send_winsize c.is_tty t.winsize else none)
        c
  selected status t t.select d

-- cli_loop, over the rounds that come.
unfoldable pub cli_loop : (ℕ → Ended) → List Tick → Client → Run
unfolding cli_round
cli_loop status [] c = go c
cli_loop status (t ∷ ts) c = cli_round status t c >>= (λ d. cli_loop status ts d)
