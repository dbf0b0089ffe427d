-- ===== src/Client/State.antt =====
-- The client's global struct, and sending and receiving (client.c, cli_msg_send, cli_msg_recv).
use sexpect.Base.{ℕ, Bool, Option, List, [], ◌∷◌, ◌++◌, if◌then◌else◌}
use sexpect.Base.Int.{ℤ, pos}
use sexpect.Tags.{error_proto}
use sexpect.Proto.Message.{Ttlv}
use sexpect.Args.Options.{Command}
use sexpect.Server.State.{link_up, link_rest}
use sexpect.Client.Subst.{Subst}

-- The client while it runs, with what it did: the bytes it wrote to the terminal and the messages
-- it sent. `link` and `inbox` are what the next calls of msg_send and msg_recv return.
pub record Client : Type 0 where
  pub cmd : Command
  pub is_tty : Bool
  pub subs : List Subst
  pub shown : List ℕ
  pub sent : List Ttlv
  pub link : List Bool
  pub inbox : List (Option Ttlv)

-- A part of the client goes on, is still waiting for a message, or ends the process with a code.
-- `hangs` is a loop that never ends, `crash` a pointer or a file number that leads nowhere.
pub data Run : Type 0 where
  go : Client → Run
  waits : Client → Run
  ends : ℤ → Client → Run
  hangs crash : Run

infixl 5 ◌>>=◌
abbrev pub ◌>>=◌ : Run → (Client → Run) → Run
go c >>= f = f c
waits c >>= f = waits c
ends code c >>= f = ends code c
hangs >>= f = hangs
crash >>= f = crash

-- write to the terminal
abbrev pub show : List ℕ → Client → Client
show text c = record c { shown = c.shown ++ text }

unfoldable pub cli_msg_send : Ttlv → Client → Run
cli_msg_send msg c =
    if link_up c.link
    then go (record c { link = link_rest c.link; sent = c.sent ++ (msg ∷ []) })
    else ends (pos error_proto) (record c { link = link_rest c.link })
