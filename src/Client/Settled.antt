-- ===== src/Client/Settled.antt =====
-- Proofs on the whole exchange of a command that the server answers at once (client.c, cli_main,
-- cli_loop, cli_disconn; server.c, serv_process_msg).
use sexpect.Base.{
  ℕ, ◌≡◌, refl, Bool, false, Option, some, List, [], ◌∷◌, ◌++◌, ltb, arith, ap, ◌∙◌, length,
  get_elem?, take_all, append-nil, Bool-cases, inl, inr,
}
use sexpect.Base.Int.{ℤ, pos, negsuc}
use sexpect.Proto.Message.{
  Ttlv, get_int, get_raw, ttlv_new_int, ttlv_new_text, ttlv_new_struct, ttlv_append,
  ttlv_append_child, append_children, find_from, ttlv_find_sibling, ttlv_find_child,
}
use sexpect.Args.Options.{Command}
use sexpect.Args.Result.{Result, ok, exits}
use sexpect.Args.Scanned.{Gives, gives, quit}
use sexpect.Args.Runnable.{IsRunnable}
use sexpect.Server.State.{Server, serv_new_error, expect_out_num}
use sexpect.Server.Process.{disconn, group, serv_process_msg}
use sexpect.Client.Request.{request}
use sexpect.Client.State.{Client, ◌>>=◌, ends, show, cli_msg_send}
use sexpect.Client.Loop.{
  Tick, Ended, is_passing, exit_with, await_disconn, cli_disconn, answer, cli_loop,
}
use sexpect.Client.Exit.{hears, cli_round-hears}
use sexpect.Client.AtOnce.{
  IsAtOnce, group_shown, reply_to, code_for, carried_out, gone, Settles, IsConnected, closes, shows,
  kills, sends, sets,
}
use sexpect.Client.Carried.{
  carried_out-IsConnected, serv_process_msg-disconn, serv_process_msg-request,
}

cli_disconn-gone :
    (code : ℤ) (rest : List (Option Ttlv)) (c : Client)
    → c.link ≡ []
    → cli_disconn code (record c { inbox = some disconn ∷ rest }) ≡ exit_with code (gone [] rest c)
unfolding cli_disconn cli_msg_send await_disconn disconn ttlv_new_struct
cli_disconn-gone code rest c l = rw (l, append-nil c.shown) refl

at_once-not_passing :
    (c : Client) {cmd : Command} → IsAtOnce cmd → c.cmd ≡ cmd → is_passing c.cmd ≡ false
at_once-not_passing c closes e = rw e refl
at_once-not_passing c shows e = rw e refl
at_once-not_passing c kills e = rw e refl
at_once-not_passing c sends e = rw e refl
at_once-not_passing c sets e = rw e refl

-- The client shows what came and ends with the code for the answer.
answer-reply_to :
    (status : ℕ → Ended) (rest : List (Option Ttlv)) (s : Server) (c : Client) {cmd : Command}
    → IsAtOnce cmd
    → c.cmd ≡ cmd
    → c.link ≡ []
    → answer status (reply_to cmd s) (record c { inbox = some disconn ∷ rest })
      ≡ ends (pos (code_for cmd s)) (gone (group_shown cmd s) rest c)
unfolding answer ttlv_new_struct ttlv_new_int ttlv_new_text serv_new_error ttlv_append_child
    append_children ttlv_append ttlv_find_child ttlv_find_sibling find_from get_int get_raw
answer-reply_to status rest s c closes e l = cli_disconn-gone (pos 0) rest c l
answer-reply_to status rest s c sends e l = cli_disconn-gone (pos 0) rest c l
answer-reply_to status rest s c sets e l = cli_disconn-gone (pos 0) rest c l
answer-reply_to status rest s c kills e l = elim (Bool-cases s.env.kill_ok) [
  | inl k ↦ rw k (cli_disconn-gone (pos 0) rest c l)
  | inr k ↦ rw (k, at_once-not_passing c kills e, cli_disconn-gone (negsuc 0) rest c l) refl
]
answer-reply_to status rest s c (shows {index}) e l = elim (Bool-cases (ltb index expect_out_num)) [
  | inl k ↦
      let text = group (get_elem? s.expout index) in
      rw (k, take_all (length text) text (omega arith), take_all (length text) text (omega arith))
        (cli_disconn-gone (pos 0) rest (show text c) l
          ∙ ap (λ t. ends (pos 0) (record (gone text rest c) { shown = t }))
              (append-nil (c.shown ++ text)))
  | inr k ↦
      rw (k, at_once-not_passing c (shows {index = index}) e, cli_disconn-gone (negsuc 0) rest c l)
        refl
]

-- One round for the answer.
cli_loop-reply_to :
    (status : ℕ → Ended) (more : List Tick) (rest : List (Option Ttlv)) (s : Server) (c : Client)
    → IsAtOnce c.cmd
    → c.link ≡ []
    → cli_loop status
        (hears ∷ more)
        (record c { inbox = some (reply_to c.cmd s) ∷ some disconn ∷ rest })
      ≡ ends (pos (code_for c.cmd s)) (gone (group_shown c.cmd s) rest c)
unfolding cli_loop
cli_loop-reply_to status more rest s c a l =
    ap (λ r. r >>= (λ d. cli_loop status more d))
      (cli_round-hears status (record c { inbox = some (reply_to c.cmd s) ∷ some disconn ∷ rest })
        ∙ answer-reply_to status rest s c a refl l)

-- The whole exchange of a command that the server answers at once, on a link that loses nothing: the
-- server carries the command out and answers with one message, a client that hears it shows what it
-- holds for `expect_out`, says goodbye and ends, with code 0 or, where the signal could not be sent
-- or the index is out of range, with the error's code; the server hears the goodbye, answers it and
-- is free again. The numbers of the command are those that getargs leaves; `send` without any data
-- sends no message.
pub request-Settles :
    (status : ℕ → Ended) (sigterm : ℕ) (tty : Bool) (more : List Tick) (rest : List (Option Ttlv))
    (s : Server) (c : Client)
    → IsAtOnce c.cmd
    → IsRunnable c.cmd
    → IsConnected s
    → c.link ≡ []
    → Gives (Settles status sigterm more rest s c) (request sigterm tty c.cmd)
request-Settles status sigterm tty more rest s c a r h l =
    settled (request sigterm tty c.cmd) (serv_process_msg-request sigterm tty s a r h)
  where
    settled :
        (m : Result Ttlv)
        → Gives (λ msg. serv_process_msg (some msg) s ≡ some (carried_out sigterm c.cmd s)) m
        → Gives (Settles status sigterm more rest s c) m
    settled (exits code) quit = quit
    settled (ok msg) (gives e) = gives (record {
      answered = e;
      parted = serv_process_msg-disconn _ (carried_out-IsConnected sigterm s a h);
      ended = cli_loop-reply_to status more rest s c a l;
    })
