-- ===== src/Args/Step.antt =====
-- One argument of a command (main.c, getargs, nextarg).
use sexpect.Base.{ℕ, ◌+◌, ◌-◌, Bool, true, false, List, [], ◌∷◌, ◌==◌, if◌then◌else◌, str1of, codes}
use sexpect.Base.Int.{ℤ, pos, negsuc}
use sexpect.Tags.{error_usage, has_flag}
use sexpect.Args.Result.{Result, ok, exits}
use sexpect.Args.Number.{arg2int, arg2uint}

-- The loop goes on with the next argument, or with the one after it, or ends, or the process exits.
-- An unexpected argument ends the loop, and the process exits behind it.
pub data Step {ℓ} (A : Type ℓ) : Type ℓ where
  more more_next stop : A → Step A
  quits : ℕ → Step A

abbrev pub unexpected {ℓ} : {A : Type ℓ} → Step A
unexpected = quits error_usage

-- nextarg
abbrev pub nextarg {ℓ} : {A : Type ℓ} → List (List ℕ) → (List ℕ → Step A) → Step A
nextarg [] f = quits error_usage
nextarg (next ∷ rest) f = f next

abbrev pub then_more {ℓ κ} : {A : Type ℓ} {B : Type κ} → Result B → (B → A) → Step A
then_more (ok b) f = more_next (f b)
then_more (exits code) f = quits code

-- An argument that is a number.
unfoldable pub next_int {ℓ} : {A : Type ℓ} → List (List ℕ) → (ℤ → A) → Step A
unfolding arg2int
next_int rest f = nextarg rest (λ next. then_more (arg2int next) f)

unfoldable pub next_uint {ℓ} : {A : Type ℓ} → List (List ℕ) → (ℕ → A) → Step A
unfolding arg2uint
next_uint rest f = nextarg rest (λ next. then_more (arg2uint next) f)

-- `if (n < 0) n = -1`, and the same with 0.
abbrev pub at_least_minus_one : ℤ → ℤ
at_least_minus_one (pos n) = pos n
at_least_minus_one (negsuc n) = negsuc 0

abbrev pub at_least_zero : ℤ → ℤ
at_least_zero (pos n) = pos n
at_least_zero (negsuc n) = pos 0

-- `flags |= flag` and `flags &= ~flag` for a flag of one bit.
abbrev pub set_flag : ℕ → ℕ → ℕ
set_flag flag flags = if has_flag flags flag then flags else flags + flag

abbrev pub clear_flag : ℕ → ℕ → ℕ
clear_flag flag flags = if has_flag flags flag then flags - flag else flags

-- arg[0] == '-'
abbrev pub is_option : List ℕ → Bool
is_option [] = false
is_option (c ∷ cs) = c == b'-'

abbrev pub is_empty : List ℕ → Bool
is_empty [] = true
is_empty (c ∷ cs) = false

-- The options that several commands share.
abbrev pub opt_nocase : List (List ℕ)
opt_nocase = codes "-nocase" ∷ codes "-icase" ∷ codes "-i" ∷ []

abbrev pub opt_cstring : List (List ℕ)
opt_cstring = codes "-cstring" ∷ codes "-cstr" ∷ codes "-c" ∷ []

abbrev pub opt_lookback : List (List ℕ)
opt_lookback = codes "-lookback" ∷ codes "-lb" ∷ []

abbrev pub opt_anchor : List (List ℕ)
opt_anchor = codes "-anchor-newline" ∷ codes "-anchor" ∷ []

abbrev pub opt_timeout : List (List ℕ)
opt_timeout = codes "-timeout" ∷ codes "-t" ∷ []

abbrev pub opt_autowait : List (List ℕ)
opt_autowait = codes "-autowait" ∷ codes "-nowait" ∷ codes "-now" ∷ []

abbrev pub opt_nonblock : List (List ℕ)
opt_nonblock = codes "-nonblock" ∷ codes "-nb" ∷ codes "-discard" ∷ []

abbrev pub opt_idle : List (List ℕ)
opt_idle = codes "-idle-close" ∷ codes "-idle" ∷ []

abbrev pub opt_ttl : List (List ℕ)
opt_ttl = codes "-ttl" ∷ []

-- A chain of `if (str1of(arg, ...)) ... else if (str1of(arg, ...)) ... else ...`.
unfoldable pub choose {ℓ} : {A : Type ℓ} → List ℕ → List (List (List ℕ) × A) → A → A
unfolding str1of
choose arg [] otherwise = otherwise
choose arg ((names, a) ∷ table) otherwise =
    if str1of arg names then a else choose arg table otherwise
