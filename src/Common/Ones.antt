-- ===== src/Common/Ones.antt =====
-- Proofs on count1bits (common.c).
use sexpect.Base.{
  ℕ, zero, suc, ◌+◌, ◌-◌, ◌*◌, ◌/◌, ◌%◌, ◌^◌, ◌≤◌, ◌<◌, ◌≡◌, ◌≢◌, inl, inr, refl, ap, ◌∙◌, sym,
  subst, min, Bool-cases, ==_iff, some, ◌==◌, arith,
}
use Prim.Native.Nat.{bit_and, digits, bit_and-bitwise}
use sexpect.Common.Bits.{count_from, count1bits}

-- The number of ones among the last `width` binary digits.
unfoldable pub ones : ℕ → ℕ → ℕ
ones zero n = 0
ones (suc width) n = n % 2 + ones width (n / 2)

-- The bits that two numbers share, from a bound on the digits of the first.
abbrev shared : ℕ → ℕ → ℕ → ℕ
shared bound a b = digits (λ x. zero) min bound a b

shared_self : (bound n : ℕ) → n ≤ bound → shared bound n n ≡ n
shared_self zero n h = omega (arith, h)
shared_self (suc bound) zero h = refl
shared_self (suc bound) (suc n) h =
    omega (arith, h, shared_self bound (suc n / 2) (omega (arith, h)))

-- A number and the one before it share all but the lowest of its ones.
module _ (width : ℕ) where
  abbrev OneLess : ℕ → ℕ → Type 0
  OneLess n m = (ones width m + 1 ≡ ones width n) × (m < n)

odd-OneLess :
    (width bound n : ℕ)
    → n ≤ bound
    → (suc n) % 2 ≡ 1
    → OneLess (suc width) (suc n) (shared (suc bound) (suc n) n)
unfolding ones
odd-OneLess width bound n h odd =
    let half : suc n / 2 ≡ n / 2 = omega (arith, odd) in
    let same = shared_self bound (n / 2) (omega (arith, h)) in
    let twice : shared (suc bound) (suc n) n ≡ n = rw half (omega (arith, same, odd)) in
    rw (twice, odd, half) (omega (arith, odd), omega arith)

even-OneLess :
    (width bound n : ℕ)
    → suc n % 2 ≡ 0
    → OneLess width (suc (n / 2)) (shared (suc bound) (suc (n / 2)) (n / 2))
    → OneLess (suc width) (suc n) (shared (suc (suc bound)) (suc n) n)
unfolding ones
even-OneLess width bound n even ih =
    let half : suc n / 2 ≡ suc (n / 2) = omega (arith, even) in
    let m = shared (suc bound) (suc (n / 2)) (n / 2) in
    let twice : shared (suc (suc bound)) (suc n) n ≡ m * 2 = rw half (omega (arith, even)) in
    let front : m * 2 / 2 ≡ m = omega arith in
    rw (twice, half, front) (omega (arith, even, ih.0), omega (arith, even, ih.1))

shared-OneLess :
    (width bound n : ℕ)
    → n ≤ bound
    → suc n < 2 ^ width
    → OneLess width (suc n) (shared (suc bound) (suc n) n)
shared-OneLess zero bound n h small = absurd (omega (arith, small))
shared-OneLess (suc width) zero n h small = odd-OneLess width zero n h (omega (arith, h))
shared-OneLess (suc width) (suc bound) n h small = elim (Bool-cases (suc n % 2 == 1)) [
  | inl odd ↦ odd-OneLess width (suc bound) n h (ground (arith, odd))
  | inr even ↦
      let zero_last : suc n % 2 ≡ 0 = ground (arith, even) in
      even-OneLess width bound n zero_last (
        shared-OneLess width bound (n / 2) (omega (arith, h, zero_last))
          (omega (arith, small, zero_last)))
]

-- `n & (n - 1)`
bit_and-OneLess : (width n : ℕ) → n ≢ 0 → n < 2 ^ width → OneLess width n (bit_and n (n - 1))
bit_and-OneLess width zero h small = absurd (h refl)
bit_and-OneLess width (suc n) h small =
    subst (OneLess width (suc n)) (sym (pred ∙ bit_and-bitwise (suc n) n))
      (shared-OneLess width n n (omega arith) small)
  where
    pred : bit_and (suc n) (suc n - 1) ≡ bit_and (suc n) n
    pred = ap (λ m. bit_and (suc n) m) (omega arith)

ones-zero : (width : ℕ) → ones width 0 ≡ 0
unfolding ones
ones-zero zero = refl
ones-zero (suc width) = omega (arith, ones-zero width)

ones-le : (width n : ℕ) → ones width n ≤ width
unfolding ones
ones-le zero n = omega arith
ones-le (suc width) n = omega (arith, ones-le width (n / 2))

no_ones : (width n : ℕ) → n < 2 ^ width → ones width n ≡ 0 → n ≡ 0
unfolding ones
no_ones zero n small h = omega (arith, small)
no_ones (suc width) n small h =
    omega (arith, no_ones width (n / 2) (omega (arith, small)) (omega (arith, h)))

count_from-ones :
    (width rounds cnt n : ℕ)
    → n < 2 ^ width
    → ones width n ≤ rounds
    → count_from rounds cnt n ≡ some (cnt + ones width n)
unfolding count_from
count_from-ones width zero cnt n small few =
    let none_left : ones width n ≡ 0 = omega (arith, few) in
    rw (no_ones width n small none_left, ones-zero width) (ground arith)
count_from-ones width (suc rounds) cnt n small few = elim (Bool-cases (n == 0)) [
  | inl e ↦ rw ((==_iff n 0).0 e, ones-zero width) (ground arith)
  | inr e ↦
      let (fewer, less) = bit_and-OneLess width n (ground (arith, e)) small in
      rw
        (
          e,
          count_from-ones width rounds (cnt + 1) (bit_and n (n - 1)) (omega (arith, small, less))
              (omega (arith, few, fewer)),
        )
        (ap some (omega (arith, fewer)))
]

count_from-all : (width n : ℕ) → n < 2 ^ width → count_from width 0 n ≡ some (ones width n)
count_from-all width n small =
    count_from-ones width width 0 n small (ones-le width n) ∙ ap some (omega arith)

-- The loop of count1bits ends for every unsigned int, within 32 rounds, and its count is the number
-- of the ones among the binary digits.
pub count1bits-ones : (n : ℕ) → n < 2 ^ 32 → count1bits n ≡ some (ones 32 n)
unfolding count1bits
count1bits-ones n small = count_from-all 32 n small
