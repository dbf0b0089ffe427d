-- ===== src/Client/Main.antt =====
-- The client from its command to its end (client.c, cli_main).
use sexpect.Base.{ℕ, Bool, true, false, Option, none, some, List, [], if◌then◌else◌}
use sexpect.Base.Int.{pos}
use sexpect.Tags.{error_sys}
use sexpect.Proto.Message.{Ttlv}
use sexpect.Args.Options.{Command}
use sexpect.Args.Result.{Result, ok, exits}
use sexpect.Client.Request.{request, cli_send_winsize}
use sexpect.Client.Subst.{Subst, Matcher, Regcomp, cli_subst_compile}
use sexpect.Client.State.{Client, Run, go, ends, hangs, ◌>>=◌, cli_msg_send}
use sexpect.Client.Loop.{Ended, Tick, is_interact, send_if, cli_hello, cli_loop}

-- What the client meets: regcomp, the compiled pattern of cli_subst_parse_repl, the number of
-- SIGTERM, how a wait status is read, whether stdin is a terminal, what connecting and switching
-- the terminal to raw mode return, the terminal's size, what the calls of msg_send and msg_recv
-- return, and the rounds of the loop.
pub record World : Type 0 where
  pub regcomp : Regcomp
  pub digits : Matcher
  pub sigterm : ℕ
  pub status : ℕ → Ended
  pub is_tty : Bool
  pub connects : Bool
  pub raw_mode : Bool
  pub winsize : Option (ℕ × ℕ)
  pub link : List Bool
  pub inbox : List (Option Ttlv)
  pub ticks : List Tick

abbrev pub started : World → Command → List Subst → Client
started w cmd subs = record {
  cmd = cmd;
  is_tty = w.is_tty;
  subs = subs;
  shown = [];
  sent = [];
  link = w.link;
  inbox = w.inbox;
}

abbrev pub raw_if : Bool → Client → Run
raw_if switched c = if switched then go c else ends (pos error_sys) c

-- From connecting on. An interactive client switches its terminal to raw mode and says its size.
abbrev pub connected : World → Ttlv → Client → Run
connected w msg c = if not_connected then ends (pos error_sys) c else talk
  where
    not_connected : Bool
    not_connected = if w.connects then false else true

    talk : Run
    talk = do
      d ← cli_hello c
      e ← raw_if (if is_interact c.cmd then w.raw_mode else true) d
      f ← cli_msg_send msg e
      g ← send_if (if is_interact c.cmd then cli_send_winsize w.is_tty w.winsize else none) f
      cli_loop w.status w.ticks g

abbrev pub with_request : World → Result Ttlv → Client → Run
with_request w (exits code) c = ends (pos code) c
with_request w (ok msg) c = connected w msg c

abbrev pub with_subs : World → Command → Option (Result (List Subst)) → Run
with_subs w cmd none = hangs
with_subs w cmd (some (exits code)) = ends (pos code) (started w cmd [])
with_subs w cmd (some (ok subs)) =
    with_request w (request w.sigterm w.is_tty cmd) (started w cmd subs)

-- cli_main. (For `chkerr`, which returns before the substitutions are compiled, there are none.)
unfoldable pub cli_main : World → Command → Run
unfolding request cli_loop cli_msg_send cli_send_winsize cli_subst_compile
cli_main w cmd = with_subs w cmd (cli_subst_compile w.regcomp w.digits cmd)
