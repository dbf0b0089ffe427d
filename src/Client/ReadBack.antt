-- ===== src/Client/ReadBack.antt =====
-- Proofs on the numbers that `get` shows and the command line reads (client.c, cli_loop; main.c,
-- arg2int).
use sexpect.Base.{
  ℕ, zero, suc, ◌+◌, ◌*◌, ◌/◌, ◌%◌, ◌^◌, ◌<◌, ◌≤◌, ◌≡◌, refl, true, some, List, [], ◌∷◌, ltb, arith,
  ap, ◌∙◌, sym, Bool-cases, inl, inr,
}
use sexpect.Base.Int.{ℤ, pos, negsuc}
use sexpect.Args.Result.{ok}
use sexpect.Args.Number.{is_int, digits, unsigned, negated, with_sign, signed, strtol, arg2int}
use sexpect.Client.Show.{digits_of, decimal}

-- At most so many digits.
abbrev IsShort : ℕ → ℕ → Type 0
IsShort zero n = n ≡ 0
IsShort (suc fuel) n = IsShort fuel (n / 10)

-- A text that begins with a digit.
data IsNumeral : List ℕ → Type 0 where
  numeral : (d : ℕ) (rest : List ℕ) → 48 ≤ d → d ≤ 57 → IsNumeral (d ∷ rest)

digits-step :
    (n d : ℕ) (rest : List ℕ) → d < 10 → digits n ((48 + d) ∷ rest) ≡ digits (n * 10 + d) rest
unfolding digits
digits-step n d rest h = ground arith

digits-digits_of :
    (fuel n : ℕ) (behind : List ℕ)
    → IsShort fuel n
    → digits 0 (digits_of fuel n behind) ≡ digits n behind
unfolding digits_of
digits-digits_of zero n behind h = ap (λ m. digits m behind) (sym h)
digits-digits_of (suc fuel) n behind h = elim (Bool-cases (ltb n 10)) [
  | inl e ↦
      rw e (digits-step 0 n behind (ground (arith, e)) ∙ ap (λ m. digits m behind) (omega arith))
  | inr e ↦ rw e (
      digits-digits_of fuel (n / 10) ((48 + n % 10) ∷ behind) h
      ∙ (digits-step (n / 10) (n % 10) behind (omega arith)
          ∙ ap (λ m. digits m behind) (omega arith)))
]

digits_of-IsNumeral :
    (fuel n : ℕ) {behind : List ℕ} → IsNumeral behind → IsNumeral (digits_of fuel n behind)
unfolding digits_of
digits_of-IsNumeral zero n h = h
digits_of-IsNumeral (suc fuel) n {behind} h = elim (Bool-cases (ltb n 10)) [
  | inl e ↦ rw e (numeral (48 + n) behind (omega arith) (ground (arith, e)))
  | inr e ↦
      rw e (
        digits_of-IsNumeral fuel (n / 10)
          (numeral (48 + n % 10) behind (omega arith) (omega arith)))
]

some_digits-IsNumeral : (fuel n : ℕ) → IsNumeral (digits_of (suc fuel) n [])
unfolding digits_of
some_digits-IsNumeral fuel n = elim (Bool-cases (ltb n 10)) [
  | inl e ↦ rw e (numeral (48 + n) [] (omega arith) (ground (arith, e)))
  | inr e ↦
      rw e
        (digits_of-IsNumeral fuel (n / 10) (numeral (48 + n % 10) [] (omega arith) (omega arith)))
]

unsigned-IsNumeral : {s : List ℕ} → IsNumeral s → unsigned s ≡ digits 0 s
unfolding unsigned
unsigned-IsNumeral (numeral d rest low high) = refl

strtol-IsNumeral : {s : List ℕ} → IsNumeral s → strtol s ≡ with_sign pos (digits 0 s)
unfolding strtol signed unsigned
strtol-IsNumeral (numeral d rest low high) = ground arith

strtol-minus : {s : List ℕ} → IsNumeral s → strtol (b'-' ∷ s) ≡ with_sign negated (digits 0 s)
unfolding strtol signed unsigned
strtol-minus (numeral d rest low high) = refl

IsShort-int : (n : ℕ) → n < 2 ^ 32 → IsShort 10 n
IsShort-int n h = omega arith

digits-all : (n : ℕ) → n < 2 ^ 32 → digits 0 (digits_of 10 n []) ≡ some n
digits-all n h = digits-digits_of 10 n [] (IsShort-int n h) ∙ (unfold digits in refl)

negated-suc : (m n : ℕ) → m ≡ suc n → negated m ≡ negsuc n
negated-suc m n e = rw e refl

strtol-decimal : (n : ℤ) → is_int n ≡ true → strtol (decimal n) ≡ some n
unfolding decimal
strtol-decimal (pos n) h =
    strtol-IsNumeral (some_digits-IsNumeral 9 n) ∙ ap (with_sign pos) (digits-all n (ground arith))
strtol-decimal (negsuc n) h =
    strtol-minus (some_digits-IsNumeral 9 (n + 1))
    ∙ (ap (with_sign negated) (digits-all (n + 1) (ground arith))
        ∙ ap some (negated-suc (n + 1) n (omega arith)))

-- A number that `get` shows is read back by the command line as it is: arg2int of the text that
-- printf prints for an int is that int, INT_MIN included.
pub arg2int-decimal : (n : ℤ) → is_int n ≡ true → arg2int (decimal n) ≡ ok n
unfolding arg2int
arg2int-decimal n h = rw (strtol-decimal n h, h) refl
