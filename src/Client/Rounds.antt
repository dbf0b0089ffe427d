-- ===== src/Client/Rounds.antt =====
-- Rounds of the client's loop in which the user does nothing (client.c, cli_loop).
use sexpect.Base.{
  ℕ, ◌≡◌, refl, true, false, none, some, List, [], ◌∷◌, ◌&&◌, if◌then◌else◌, ap, ◌∙◌,
}
use sexpect.Args.Options.{Command}
use sexpect.Client.State.{Client, go}
use sexpect.Client.Loop.{Tick, received, is_interact, cli_round, Ended, answer}

-- The user does nothing in a round: the window keeps its size and no key is pressed, or the command
-- is not `interact`.
pub record IsPassive (cmd : Command) (t : Tick) : Type 0 where
  pub winch : (t.winched && is_interact cmd) ≡ false
  pub stdin : (if is_interact cmd then t.stdin else none) ≡ none

-- Rounds in which a client hears one message for each of `texts` and then one more, in that order. Between them select
-- may return without the socket, or with EINTR.
pub data Rounds (cmd : Command) : List (List ℕ) → List Tick → Type 0 where
  last :
      {t : Tick} {more : List Tick}
      → IsPassive cmd t
      → t.select ≡ none
      → t.readable ≡ true
      → Rounds cmd [] (t ∷ more)
  heard :
      {bytes : List ℕ} {texts : List (List ℕ)} {t : Tick} {more : List Tick}
      → IsPassive cmd t
      → t.select ≡ none
      → t.readable ≡ true
      → Rounds cmd texts more
      → Rounds cmd (bytes ∷ texts) (t ∷ more)
  idle :
      {texts : List (List ℕ)} {t : Tick} {more : List Tick}
      → IsPassive cmd t
      → t.select ≡ none
      → t.readable ≡ false
      → Rounds cmd texts more
      → Rounds cmd texts (t ∷ more)
  interrupted :
      {texts : List (List ℕ)} {t : Tick} {more : List Tick}
      → IsPassive cmd t
      → t.select ≡ some true
      → Rounds cmd texts more
      → Rounds cmd texts (t ∷ more)

cli_round-ready :
    (status : ℕ → Ended) (t : Tick) (c : Client)
    → IsPassive c.cmd t
    → t.select ≡ none
    → cli_round status t c ≡ (if t.readable then received c.inbox c (answer status) else go c)
unfolding cli_round
cli_round-ready status t c p e = rw (p.winch, e, p.stdin) refl

pub cli_round-interrupted :
    (status : ℕ → Ended) (t : Tick) (c : Client)
    → IsPassive c.cmd t
    → t.select ≡ some true
    → cli_round status t c ≡ go c
unfolding cli_round
cli_round-interrupted status t c p e = rw (p.winch, e) refl

pub cli_round-heard :
    (status : ℕ → Ended) (t : Tick) (c : Client)
    → IsPassive c.cmd t
    → t.select ≡ none
    → t.readable ≡ true
    → cli_round status t c ≡ received c.inbox c (answer status)
cli_round-heard status t c p e r =
    cli_round-ready status t c p e
    ∙ ap (λ b. if b then received c.inbox c (answer status) else go c) r

pub cli_round-idle :
    (status : ℕ → Ended) (t : Tick) (c : Client)
    → IsPassive c.cmd t
    → t.select ≡ none
    → t.readable ≡ false
    → cli_round status t c ≡ go c
cli_round-idle status t c p e r =
    cli_round-ready status t c p e
    ∙ ap (λ b. if b then received c.inbox c (answer status) else go c) r
