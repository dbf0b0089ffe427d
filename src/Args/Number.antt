-- ===== src/Args/Number.antt =====
-- Numbers on the command line (main.c, arg2int and arg2uint).
use sexpect.Base.{
  ℕ, zero, suc, ◌+◌, ◌-◌, ◌*◌, ◌^◌, Bool, ◌||◌, ◌&&◌, Option, none, some, List, [], ◌∷◌, ◌==◌, ltb,
  leb, if◌then◌else◌,
}
use sexpect.Base.Int.{ℤ, pos, negsuc}
use sexpect.Tags.{error_usage}
use sexpect.Args.Result.{Result, ok, exits}

abbrev pub is_space : ℕ → Bool
is_space c = (c == b' ') || (leb 9 c && leb c 13)

abbrev is_digit : ℕ → Bool
is_digit c = leb b'0' c && leb c b'9'

-- strtol in base 10 of a text that it has to take whole: digits alone, with the number so far,
unfoldable pub digits : ℕ → List ℕ → Option ℕ
digits n [] = some n
digits n (c ∷ cs) = let rest = digits (n * 10 + (c - b'0')) cs in if is_digit c then rest else none

-- at least one of them,
unfoldable pub unsigned : List ℕ → Option ℕ
unfolding digits
unsigned [] = none
unsigned (c ∷ cs) = digits 0 (c ∷ cs)

abbrev pub negated : ℕ → ℤ
negated zero = pos 0
negated (suc n) = negsuc n

abbrev pub with_sign : (ℕ → ℤ) → Option ℕ → Option ℤ
with_sign f none = none
with_sign f (some n) = some (f n)

-- behind a sign,
unfoldable pub signed : List ℕ → Option ℤ
unfolding unsigned
signed [] = none
signed (c ∷ cs) =
    if c == b'-'
    then with_sign negated (unsigned cs)
    else if c == b'+'
    then with_sign pos (unsigned cs)
    else with_sign pos (unsigned (c ∷ cs))

-- behind white space.
unfoldable pub strtol : List ℕ → Option ℤ
unfolding signed
strtol [] = signed []
strtol (c ∷ cs) = let rest = strtol cs in if is_space c then rest else signed (c ∷ cs)

-- INT_MIN <= n && n <= INT_MAX. A number that does not fit a long becomes LONG_MIN or LONG_MAX and
-- is outside as well.
abbrev pub is_int : ℤ → Bool
is_int (pos n) = ltb n (2 ^ 31)
is_int (negsuc n) = ltb n (2 ^ 31)

abbrev pub in_range : Option ℤ → Result ℤ
in_range none = exits error_usage
in_range (some n) = if is_int n then ok n else exits error_usage

unfoldable pub arg2int : List ℕ → Result ℤ
unfolding strtol
arg2int s = in_range (strtol s)

abbrev pub not_negative : Result ℤ → Result ℕ
not_negative (exits code) = exits code
not_negative (ok (negsuc n)) = exits error_usage
not_negative (ok (pos n)) = ok n

unfoldable pub arg2uint : List ℕ → Result ℕ
unfolding arg2int
arg2uint s = not_negative (arg2int s)
