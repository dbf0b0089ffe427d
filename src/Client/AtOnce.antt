-- ===== src/Client/AtOnce.antt =====
-- The commands that the server answers at once: what they do, the answer and the code (client.c,
-- cli_main, cli_loop; server.c, serv_process_msg).
use sexpect.Base.{
  ℕ, ◌≡◌, Bool, true, false, Option, some, List, [], ◌∷◌, ◌++◌, ltb, if◌then◌else◌, length, codes,
  get_elem?, take,
}
use sexpect.Base.Int.{ℤ, pos}
use sexpect.Tags.{error_sys, error_usage, tag_ack, tag_expout_text}
use sexpect.Proto.Message.{Ttlv, ttlv_new_text, ttlv_new_struct}
use sexpect.Args.Options.{Command, close, expect_out, kill, send, set, SendOpts, SetOpts}
use sexpect.Server.State.{Server, close_sock, serv_new_error, expect_out_num}
use sexpect.Server.Process.{disconn, group, serv_process_msg}
use sexpect.Client.Agree.{asked}
use sexpect.Client.Request.{signal_or, bytes_of}
use sexpect.Client.State.{Client, ends}
use sexpect.Client.Loop.{Tick, Ended, cli_loop}
use sexpect.Client.Exit.{hears}

-- The commands that the server answers at once and with one message, but for `get`.
pub data IsAtOnce : Command → Type 0 where
  closes : IsAtOnce close
  shows : {index : ℕ} → IsAtOnce (expect_out index)
  kills : {signal : ℤ} → IsAtOnce (kill signal)
  sends : {st : SendOpts} → IsAtOnce (send st)
  sets : {st : SetOpts} → IsAtOnce (set st)

-- What `send` types: its data, and a carriage return behind it with -enter.
abbrev pub typed_text : Bool → List ℕ → List ℕ
typed_text enter text = if enter then text ++ (b'\r' ∷ []) else text

-- What such a command does to the server: the terminal is closed, a signal goes to the child, the
-- terminal is given the data, as much as it takes, or settings change.
abbrev pub effect : ℕ → Command → Server → Server
effect sigterm close s = record s { ptm_open = false }
effect sigterm (kill signal) s = record s {
  signals = if s.env.kill_ok then s.signals ++ (signal_or sigterm signal ∷ []) else s.signals;
}
effect sigterm (send st) s = record s {
  typed =
      if s.ptm_open
      then s.typed ++ take s.env.ptm_takes (typed_text st.enter (bytes_of st.payload))
      else s.typed;
}
effect sigterm (set st) s = record s { spawn = asked st s.spawn }
effect sigterm c s = s

-- What `expect_out` shows.
abbrev pub group_shown : Command → Server → List ℕ
group_shown (expect_out index) s =
    if ltb index expect_out_num then group (get_elem? s.expout index) else []
group_shown c s = []

-- The answer.
abbrev pub reply_to : Command → Server → Ttlv
reply_to (expect_out index) s =
    let text = group (get_elem? s.expout index) in
    if ltb index expect_out_num
    then ttlv_new_text tag_expout_text (length text) text
    else serv_new_error error_usage (codes "index must in range 0-9")
reply_to (kill signal) s =
    if s.env.kill_ok
    then ttlv_new_struct tag_ack
    else serv_new_error error_sys (take 1023 (codes "kill: " ++ s.env.kill_error))
reply_to c s = ttlv_new_struct tag_ack

-- The code that the command ends with.
abbrev pub code_for : Command → Server → ℕ
code_for (expect_out index) s = if ltb index expect_out_num then 0 else error_usage
code_for (kill signal) s = if s.env.kill_ok then 0 else error_sys
code_for c s = 0

abbrev pub carried_out : ℕ → Command → Server → Server
carried_out sigterm cmd s = record (effect sigterm cmd s) {
  sent = s.sent ++ (reply_to cmd s ∷ []);
  lastactive = s.env.now;
}

abbrev pub closed_behind : Server → Server
closed_behind s = close_sock (record s { sent = s.sent ++ (disconn ∷ []); lastactive = s.env.now })

-- The client behind the parting.
abbrev pub gone : List ℕ → List (Option Ttlv) → Client → Client
gone text rest c = record c {
  shown = c.shown ++ text;
  sent = c.sent ++ (disconn ∷ []);
  link = [];
  inbox = rest;
}

-- The exchange of a client and a server over a command's message, on a link that loses nothing: the
-- server does what the command says and answers, it parts from the client that says so, and the
-- client that hears both ends with the code for the answer.
pub record Settles (status : ℕ → Ended) (sigterm : ℕ) (more : List Tick) (rest : List (Option Ttlv))
    (s : Server) (c : Client) (msg : Ttlv) : Type 0 where
  pub answered : serv_process_msg (some msg) s ≡ some (carried_out sigterm c.cmd s)
  pub parted :
      serv_process_msg (some disconn) (carried_out sigterm c.cmd s)
      ≡ some (closed_behind (carried_out sigterm c.cmd s))
  pub ended :
      cli_loop status
        (hears ∷ more)
        (record c { inbox = some (reply_to c.cmd s) ∷ some disconn ∷ rest })
      ≡ ends (pos (code_for c.cmd s)) (gone (group_shown c.cmd s) rest c)

-- A connected client on a link that loses nothing.
abbrev pub IsConnected : Server → Type 0
IsConnected s = (s.conn.sock ≡ true) × (s.env.link ≡ [])
