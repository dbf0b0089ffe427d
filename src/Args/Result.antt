-- ===== src/Args/Result.antt =====
-- fatal and exit (common.c): a value, or the code the process exits with.
use sexpect.Base.{ℕ}

pub data Result {ℓ} (A : Type ℓ) : Type ℓ where
  ok : A → Result A
  exits : ℕ → Result A

infixl 5 ◌>>=◌
abbrev pub ◌>>=◌ {ℓ κ} : {A : Type ℓ} {B : Type κ} → Result A → (A → Result B) → Result B
ok a >>= f = f a
exits code >>= f = exits code
