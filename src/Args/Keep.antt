-- ===== src/Args/Keep.antt =====
-- Proofs on one argument, whatever the command (main.c, getargs).
use sexpect.Base.{
  ℕ, ◌^◌, ◌<◌, ◌≡◌, refl, Bool, true, false, Option, none, some, List, [], ◌∷◌, if◌then◌else◌,
  arith, str1of, All,
}
use sexpect.Base.Int.{ℤ, pos, negsuc}
use sexpect.Tags.{error_usage}
use sexpect.Args.Result.{Result, ok, exits}
use sexpect.Args.Number.{is_int, in_range, not_negative, strtol, arg2int, arg2uint}
use sexpect.Args.Step.{
  Step, more, more_next, stop, quits, nextarg, then_more, next_int, next_uint, choose,
}

-- What holds of the options that a step leaves.
pub data Keeps {A : Type 0} (P : A → Type 0) : Step A → Type 0 where
  goes : {a : A} → P a → Keeps P (more a)
  jumps : {a : A} → P a → Keeps P (more_next a)
  ends : {a : A} → P a → Keeps P (stop a)
  leaves : {code : ℕ} → Keeps P (quits code)

pub choose-All {ℓ} :
    {A : Type ℓ} (P : A → Type 0) (arg : List ℕ) (table : List (List (List ℕ) × A)) {otherwise : A}
    → All (λ e. P e.1) table
    → P otherwise
    → P (choose arg table otherwise)
unfolding choose
choose-All P arg [] h k = k
choose-All P arg ((names, a) ∷ table) {otherwise} h k =
    pick (str1of arg names) h.0 (choose-All P arg table h.1 k)
  where
    pick :
        (b : Bool)
        → P a
        → P (choose arg table otherwise)
        → P (if b then a else choose arg table otherwise)
    pick true p q = p
    pick false p q = q

module _ {A : Type 0} {P : A → Type 0} where
  pub Keeps-if : (b : Bool) {s t : Step A} → Keeps P s → Keeps P t → Keeps P (if b then s else t)
  Keeps-if true h k = h
  Keeps-if false h k = k

  pub nextarg-Keeps :
      (rest : List (List ℕ)) (f : List ℕ → Step A)
      → ((next : List ℕ) → Keeps P (f next))
      → Keeps P (nextarg rest f)
  nextarg-Keeps [] f h = leaves
  nextarg-Keeps (next ∷ rest) f h = h next

  pub arg2int-Keeps :
      (arg : List ℕ) (f : Result ℤ → Step A)
      → ((n : ℤ) → is_int n ≡ true → Keeps P (f (ok n)))
      → ((code : ℕ) → Keeps P (f (exits code)))
      → Keeps P (f (arg2int arg))
  unfolding arg2int
  arg2int-Keeps arg f h k = taken (strtol arg)
    where
      checked :
          (n : ℤ) (b : Bool) → is_int n ≡ b → Keeps P (f (if b then ok n else exits error_usage))
      checked n true e = h n e
      checked n false e = k error_usage

      taken : (r : Option ℤ) → Keeps P (f (in_range r))
      taken none = k error_usage
      taken (some n) = checked n (is_int n) refl

  pub arg2uint-Keeps :
      (arg : List ℕ) (f : Result ℕ → Step A)
      → ((n : ℕ) → n < 2 ^ 31 → Keeps P (f (ok n)))
      → ((code : ℕ) → Keeps P (f (exits code)))
      → Keeps P (f (arg2uint arg))
  unfolding arg2uint
  arg2uint-Keeps arg f h k = arg2int-Keeps arg (λ r. f (not_negative r)) number k
    where
      number : (n : ℤ) → is_int n ≡ true → Keeps P (f (not_negative (ok n)))
      number (pos n) e = h n (ground arith)
      number (negsuc n) e = k error_usage

  pub next_int-Keeps :
      (rest : List (List ℕ)) (f : ℤ → A)
      → ((n : ℤ) → is_int n ≡ true → P (f n))
      → Keeps P (next_int rest f)
  unfolding next_int
  next_int-Keeps rest f h =
      nextarg-Keeps rest _
        λ next. arg2int-Keeps next (λ r. then_more r f) (λ n e. jumps (h n e)) (λ code. leaves)

  pub next_uint-Keeps :
      (rest : List (List ℕ)) (f : ℕ → A)
      → ((n : ℕ) → n < 2 ^ 31 → P (f n))
      → Keeps P (next_uint rest f)
  unfolding next_uint
  next_uint-Keeps rest f h =
      nextarg-Keeps rest _
        λ next. arg2uint-Keeps next (λ r. then_more r f) (λ n e. jumps (h n e)) (λ code. leaves)

  pub choose-Keeps :
      (arg : List ℕ) (table : List (List (List ℕ) × Step A)) {otherwise : Step A}
      → All (λ e. Keeps P e.1) table
      → Keeps P otherwise
      → Keeps P (choose arg table otherwise)
  choose-Keeps arg table h k = choose-All (Keeps P) arg table h k
