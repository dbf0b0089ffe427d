-- ===== src/Client/Exit.antt =====
-- Proofs on the exit codes of the client (client.c, cli_disconn, cli_loop).
use sexpect.Base.{
  ℕ, ◌≡◌, ◌≢◌, refl, Bool, true, false, Option, none, some, List, [], ◌∷◌, ◌++◌, if◌then◌else◌,
  length, arith, ap, sym, ◌∙◌, append_assoc, append-nil, subst, Bool-cases, inl, inr, take_all,
  codes, streq, str1of,
}
use sexpect.Base.Int.{pos}
use sexpect.Tags.{tag_output, error_eof, error_timeout}
use sexpect.Args.Options.{Command}
use sexpect.Proto.Message.{
  Ttlv, get_int, get_raw, ttlv_new_int, ttlv_new_bool, ttlv_new_text, ttlv_new_raw, ttlv_new_struct,
  ttlv_append, ttlv_append_child, append_children, find_from, ttlv_find_sibling, ttlv_find_child,
}
use sexpect.Server.State.{serv_new_error}
use sexpect.Server.Process.{disconn}
use sexpect.Server.Verdict.{Verdict, found, at_end, closed, late, ended}
use sexpect.Client.Request.{cli_chkerr}
use sexpect.Client.State.{Client, go, ends, show, cli_msg_send}
use sexpect.Client.Loop.{
  Tick, received, is_interact, cli_loop, cli_round, Ended, exit_code, flags_of, is_passing,
  with_inbox, await_disconn, cli_disconn, answer,
}
use sexpect.Client.Rounds.{
  IsPassive, Rounds, last, heard, idle, interrupted, cli_round-heard, cli_round-idle,
  cli_round-interrupted,
}

-- Output that is still on its way, in front of the server's DISCONN.
abbrev pub on_its_way : List (List ℕ) → List (Option Ttlv) → List (Option Ttlv)
on_its_way [] rest = some disconn ∷ rest
on_its_way (bytes ∷ more) rest =
    some (ttlv_new_raw tag_output (length bytes) bytes) ∷ on_its_way more rest

abbrev pub all_of : List (List ℕ) → List ℕ
all_of [] = []
all_of (bytes ∷ more) = bytes ++ all_of more

-- cli_disconn shows the output that was on its way.
await_disconn-on_its_way :
    (texts : List (List ℕ)) (rest : List (Option Ttlv)) (c : Client)
    → is_passing c.cmd ≡ true
    → await_disconn (on_its_way texts rest) c
      ≡ go (record c { shown = c.shown ++ all_of texts; inbox = rest })
unfolding await_disconn disconn ttlv_new_struct ttlv_new_raw get_raw
await_disconn-on_its_way [] rest c p =
    ap (λ t. go (record c { shown = t; inbox = rest })) (sym (append-nil c.shown))
await_disconn-on_its_way (bytes ∷ more) rest c p =
    rw (p, take_all (length bytes) bytes (omega arith), take_all (length bytes) bytes (omega arith))
      (await_disconn-on_its_way more rest (show bytes c) p
        ∙ ap (λ t. go (record c { shown = t; inbox = rest }))
            (append_assoc c.shown bytes (all_of more)))

-- The client after DISCONN went out and came back: it showed what was on its way.
abbrev pub parted : List (List ℕ) → List (Option Ttlv) → Client → Client
parted texts rest c = record c {
  shown = c.shown ++ all_of texts;
  sent = c.sent ++ (disconn ∷ []);
  link = [];
  inbox = rest;
}

-- cli_disconn with a code ends the process with it, having shown what was on its way.
cli_disconn-ends :
    (n : ℕ) (texts : List (List ℕ)) (rest : List (Option Ttlv)) (c : Client)
    → is_passing c.cmd ≡ true
    → c.link ≡ []
    → c.inbox ≡ on_its_way texts rest
    → cli_disconn (pos n) c ≡ ends (pos n) (parted texts rest c)
unfolding cli_disconn cli_msg_send
cli_disconn-ends n texts rest c p l i =
    rw
      (
        l,
        i,
        await_disconn-on_its_way texts rest
            (record c { link = []; sent = c.sent ++ (disconn ∷ []); inbox = on_its_way texts rest })
            p,
      )
      refl

-- The code that a verdict of the server stands for.
abbrev pub code_of : {flags : ℕ} {msg : Ttlv} → (ℕ → Ended) → Verdict flags msg → ℕ
code_of status found = 0
code_of status (at_end e) = 0
code_of status closed = error_eof
code_of status late = error_timeout
code_of status (ended n) = exit_code (status n)

-- The client ends with the code of the server's verdict: 0 for a match or for the end of the output
-- where it was asked for, the error's code for an end of the output that was not and for a timeout,
-- and the code of the child, or 128 and the signal, where it exited. What was on its way is shown.
pub answer-Verdict :
    (status : ℕ → Ended) {flags : ℕ} {msg : Ttlv} (v : Verdict flags msg) (texts : List (List ℕ))
    (rest : List (Option Ttlv)) (c : Client)
    → flags_of c.cmd ≡ some flags
    → is_passing c.cmd ≡ true
    → c.link ≡ []
    → c.inbox ≡ on_its_way texts rest
    → answer status msg c ≡ ends (pos (code_of status v)) (parted texts rest c)
unfolding answer ttlv_new_bool ttlv_new_struct ttlv_new_int ttlv_new_text serv_new_error
    ttlv_append_child append_children ttlv_append ttlv_find_child ttlv_find_sibling find_from
    get_int get_raw
answer-Verdict status found texts rest c f p l i = cli_disconn-ends 0 texts rest c p l i
answer-Verdict status (at_end e) texts rest c f p l i =
    rw (f, e) (cli_disconn-ends 0 texts rest c p l i)
answer-Verdict status closed texts rest c f p l i =
    rw (p, cli_disconn-ends error_eof texts rest c p l i) refl
answer-Verdict status late texts rest c f p l i =
    rw (p, cli_disconn-ends error_timeout texts rest c p l i) refl
answer-Verdict status (ended n) texts rest c f p l i =
    cli_disconn-ends (exit_code (status n)) texts rest c p l i

-- A round in which only the socket is ready.
abbrev pub hears : Tick
hears = record { winched = false; winsize = none; select = none; stdin = none; readable = true }

-- Output, then a message, then what cli_disconn meets.
abbrev pub output_then : List (List ℕ) → Ttlv → List (Option Ttlv) → List (Option Ttlv)
output_then [] msg rest = some msg ∷ rest
output_then (bytes ∷ more) msg rest =
    some (ttlv_new_raw tag_output (length bytes) bytes) ∷ output_then more msg rest

pub cli_round-hears :
    (status : ℕ → Ended) (c : Client)
    → cli_round status hears c ≡ received c.inbox c (answer status)
unfolding cli_round
cli_round-hears status c = elim (Bool-cases (is_interact c.cmd)) [
  | inl e ↦ rw e refl
  | inr e ↦ rw e refl
]

answer-output :
    (status : ℕ → Ended) (bytes : List ℕ) (c : Client)
    → c.subs ≡ []
    → answer status (ttlv_new_raw tag_output (length bytes) bytes) c ≡ go (show bytes c)
unfolding answer ttlv_new_raw get_raw
answer-output status bytes c u =
    rw (u, take_all (length bytes) bytes (omega arith), take_all (length bytes) bytes (omega arith))
      refl

passive :
    {cmd : Command} {t : Tick} (c : Client) → c.cmd ≡ cmd → IsPassive cmd t → IsPassive c.cmd t
passive {t = t} c e q = subst (λ k. IsPassive k t) (sym e) q

cli_loop-Rounds :
    (status : ℕ → Ended) {flags : ℕ} {msg : Ttlv} {cmd : Command} (v : Verdict flags msg)
    (before texts : List (List ℕ)) (rest : List (Option Ttlv)) {ticks : List Tick} (c : Client)
    → c.cmd ≡ cmd
    → Rounds cmd before ticks
    → flags_of c.cmd ≡ some flags
    → is_passing c.cmd ≡ true
    → c.link ≡ []
    → c.subs ≡ []
    → c.inbox ≡ output_then before msg (on_its_way texts rest)
    → cli_loop status ticks c
      ≡ ends (pos (code_of status v)) (parted texts rest (show (all_of before) c))
unfolding cli_loop
cli_loop-Rounds status v before texts rest c e (idle {t = t} q s r k) f p l u i =
    rw (cli_round-idle status t c (passive c e q) s r)
      (cli_loop-Rounds status v before texts rest c e k f p l u i)
cli_loop-Rounds status v before texts rest c e (interrupted {t = t} q s k) f p l u i =
    rw (cli_round-interrupted status t c (passive c e q) s)
      (cli_loop-Rounds status v before texts rest c e k f p l u i)
cli_loop-Rounds status v [] texts rest c e (last {t = t} q s r) f p l u i =
    rw
      (
        cli_round-heard status t c (passive c e q) s r,
        i,
        answer-Verdict status v texts rest (with_inbox (on_its_way texts rest) c) f p l refl,
      )
      (ap (λ t. ends (pos (code_of status v)) (parted texts rest (record c { shown = t })))
        (sym (append-nil c.shown)))
cli_loop-Rounds status {msg = msg} v (bytes ∷ before) texts rest c e (heard {t = t} q s r k) f p l u
      i =
    rw
      (
        cli_round-heard status t c (passive c e q) s r,
        i,
        answer-output status bytes (with_inbox (output_then before msg (on_its_way texts rest)) c)
            u,
      )
      (cli_loop-Rounds status v before texts rest
          (show bytes (with_inbox (output_then before msg (on_its_way texts rest)) c)) e k f p l u
          refl
        ∙ ap (λ t. ends (pos (code_of status v)) (parted texts rest (record c { shown = t })))
            (append_assoc c.shown bytes (all_of before)))

-- A client without substitutions, on a link on which none of its messages is lost and with a user
-- who does nothing, shows all output that the server sends, before its verdict and behind it, byte
-- for byte and in its order, and ends with the code that the verdict stands for, provided that
-- select has its socket ready as often as there are messages up to the verdict: in between it may
-- return without the socket or be interrupted.
pub cli_loop-Verdict :
    (status : ℕ → Ended) {flags : ℕ} {msg : Ttlv} (v : Verdict flags msg)
    (before texts : List (List ℕ)) (rest : List (Option Ttlv)) {ticks : List Tick} (c : Client)
    → Rounds c.cmd before ticks
    → flags_of c.cmd ≡ some flags
    → is_passing c.cmd ≡ true
    → c.link ≡ []
    → c.subs ≡ []
    → c.inbox ≡ output_then before msg (on_its_way texts rest)
    → cli_loop status ticks c
      ≡ ends (pos (code_of status v)) (parted texts rest (show (all_of before) c))
cli_loop-Verdict status v before texts rest c k f p l u i =
    cli_loop-Rounds status v before texts rest c refl k f p l u i

abbrev pub is_late : {flags : ℕ} {msg : Ttlv} → Verdict flags msg → Bool
is_late late = true
is_late found = false
is_late (at_end e) = false
is_late closed = false
is_late (ended n) = false

-- `chkerr -errno N -is timeout` on the code of a client whose request ended with a verdict exits
-- with 0 where that is the timeout and with 1 otherwise, provided that the child's own code is not
-- the one that stands for a timeout.
pub cli_chkerr-timeout :
    (status : ℕ → Ended) {flags : ℕ} {msg : Ttlv} (v : Verdict flags msg)
    → ((n : ℕ) → exit_code (status n) ≢ error_timeout)
    → cli_chkerr (record { errcode = pos (code_of status v); cmpto = some (codes "timeout") })
      ≡ (if is_late v then 0 else 1)
unfolding cli_chkerr streq str1of
cli_chkerr-timeout status found h = refl
cli_chkerr-timeout status (at_end e) h = refl
cli_chkerr-timeout status closed h = refl
cli_chkerr-timeout status late h = refl
cli_chkerr-timeout status (ended n) h = let k = h n in ground arith
