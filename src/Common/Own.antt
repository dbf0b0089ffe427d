-- ===== src/Common/Own.antt =====
-- Proofs on the names of error codes and tags (common.c).
use sexpect.Base.{
  ℕ, zero, suc, ◌+◌, ◌-◌, ◌≡◌, ◌≤◌, ◌<◌, refl, ap, sym, Bool, true, false, ◌&&◌, Option, none, some,
  List, [], ◌∷◌, ◌==◌, if◌then◌else◌, arith, streq, take, Bool-cases, inl, inr, ==_iff,
}
use sexpect.Base.Int.{ℤ, pos}
use sexpect.Common.Names.{
  V2nMap, error_names, tag_names, error_start, error_end, tag_start, tag_end, Named, literal,
  written, null, untouched, Buffer, v2n, v2n_error, v2n_tag, or_number, found,
}

-- The number that a table has for a name.
unfoldable pub n2v : List V2nMap → List ℕ → Option ℕ
unfolding streq
n2v [] s = none
n2v ((v, none) ∷ rest) s = none
n2v ((v, some name) ∷ rest) s = let later = n2v rest s in if streq name s then some v else later

abbrev is_that : ℕ → Option ℕ → Bool
is_that n none = false
is_that n (some m) = n == m

-- The table has a name for the number, which leads back to it.
abbrev returns : List V2nMap → ℕ → Option Named → Bool
returns table n (some (literal s)) = is_that n (n2v table s)
returns table n _ = false

-- The same for `count` numbers from `n` on.
all_return : List V2nMap → ℕ → ℕ → Bool
unfolding v2n n2v
all_return table zero n = true
all_return table (suc count) n =
    returns table n (v2n table (pos n) none) && all_return table count (n + 1)

errors_return : all_return error_names 10 201 ≡ true
unfolding all_return v2n n2v streq
errors_return = refl

tags_return : all_return tag_names 42 1 ≡ true
unfolding all_return v2n n2v streq
tags_return = refl

all_return-at :
    (table : List V2nMap) (count n k : ℕ)
    → all_return table count n ≡ true
    → n ≤ k
    → k < n + count
    → returns table k (v2n table (pos k) none) ≡ true
unfolding all_return
all_return-at table zero n k h low high = absurd (omega arith)
all_return-at table (suc count) n k h low high = elim (Bool-cases (k == n)) [
  | inl e ↦ rw ((==_iff k n).0 e) (ground (arith, h))
  | inr e ↦
      all_return-at table count (n + 1) k (ground (arith, h)) (ground (arith, e))
        (omega (arith, high))
]

-- The name that v2n finds is the same with a buffer, which gets it.
v2n-buffer :
    (table : List V2nMap) (val : ℤ) (name : List ℕ) (buf : Buffer)
    → v2n table val none ≡ some (literal name)
    → v2n table val buf ≡ some (found name buf)
unfolding v2n
v2n-buffer [] val name buf h = absurd (ground arith)
v2n-buffer ((v, none) ∷ rest) val name buf h = absurd (ground arith)
v2n-buffer ((v, some own) ∷ rest) val name buf h = ground (arith, h, v2n-buffer rest val name buf)

-- A name of its own: the table leads from the number to the name and back, and a buffer gets as
-- much of it as fits.
abbrev pub HasName : List V2nMap → (ℤ → Buffer → Named) → ℕ → Type 0
HasName table lookup n =
    (name : List ℕ) × (lookup (pos n) none ≡ literal name)
    × (n2v table name ≡ some n)
    × ((len : ℕ) → 0 < len → lookup (pos n) (some len) ≡ written (take (len - 1) name))

lookup_of : List V2nMap → ℤ → Buffer → Named
lookup_of table val buf = or_number (v2n table val buf) val buf

named-HasName :
    (table : List V2nMap) (n : ℕ) (r : Option Named)
    → v2n table (pos n) none ≡ r
    → returns table n r ≡ true
    → HasName table (lookup_of table) n
unfolding lookup_of
named-HasName table n none e h = absurd (ground (arith, h))
named-HasName table n (some null) e h = absurd (ground (arith, h))
named-HasName table n (some untouched) e h = absurd (ground (arith, h))
named-HasName table n (some (written s)) e h = absurd (ground (arith, h))
named-HasName table n (some (literal s)) e h = (
  s,
  rw e refl,
  back (n2v table s) refl h,
  λ len positive. rw (v2n-buffer table (pos n) s (some len) e) (ground (arith, positive)),
)
  where
    back : (o : Option ℕ) → n2v table s ≡ o → is_that n o ≡ true → o ≡ some n
    back none f k = absurd (ground (arith, k))
    back (some m) f k = ap some (sym ((==_iff n m).0 k))

-- Every error code and every tag of the protocol has a name of its own.
pub v2n_error-HasName : (n : ℕ) → error_start < n → n < error_end → HasName error_names v2n_error n
unfolding v2n_error lookup_of
v2n_error-HasName n low high =
    named-HasName error_names n _ refl
      (all_return-at error_names 10 201 n errors_return (omega arith) (omega (arith, high)))

pub v2n_tag-HasName : (n : ℕ) → tag_start < n → n < tag_end → HasName tag_names v2n_tag n
unfolding v2n_tag lookup_of
v2n_tag-HasName n low high =
    named-HasName tag_names n _ refl
      (all_return-at tag_names 42 1 n tags_return (omega arith) (omega (arith, high)))
