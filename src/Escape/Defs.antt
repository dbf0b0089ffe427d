-- ===== src/Escape/Defs.antt =====
-- common.c, strunesc; common.h, the c_H and c_O macros; client.c, cli_dump_cstring.
use sexpect.Base.{
  ℕ, zero, suc, ◌+◌, ◌-◌, ◌*◌, ◌/◌, ◌%◌, Bool, ◌||◌, ◌&&◌, not, Option, none, some, List, [], ◌∷◌,
  ◌++◌, ◌==◌, ltb, leb, if◌then◌else◌,
}

-- `in[i]`: behind its last byte a C string has a NUL.
abbrev pub at : List ℕ → ℕ → ℕ
at [] i = 0
at (x ∷ xs) zero = x
at (x ∷ xs) (suc i) = at xs i

abbrev between : ℕ → ℕ → ℕ → Bool
between lo hi c = leb lo c && leb c hi

abbrev is_odigit : ℕ → Bool
is_odigit c = between b'0' b'7' c

-- isxdigit and toupper in the C locale.
abbrev is_xdigit : ℕ → Bool
is_xdigit c = between b'0' b'9' c || (between b'a' b'f' c || between b'A' b'F' c)

abbrev to_upper : ℕ → ℕ
to_upper c = if between b'a' b'z' c then c - 32 else c

-- c_H1 and c_H2, c_O1 to c_O3. The results are stored in a char.
abbrev c_h1 : ℕ → ℕ
c_h1 c = if leb c b'9' then c - b'0' else to_upper c - b'A' + 10

abbrev c_h2 : ℕ → ℕ → ℕ
c_h2 c d = c_h1 c * 16 + c_h1 d

abbrev c_o1 : ℕ → ℕ
c_o1 c = c - b'0'

abbrev c_o2 : ℕ → ℕ → ℕ
c_o2 c d = c_o1 c * 8 + c_o1 d

abbrev c_o3 : ℕ → ℕ → ℕ → ℕ
c_o3 c d e = c_o2 c d * 8 + c_o1 e

-- \o, \oo and \ooo, the last if it fits a byte.
abbrev octal : ℕ → ℕ → ℕ → ℕ × ℕ
octal c d e =
    if is_odigit d
    then (if is_odigit e && leb (c_o3 c d e) 0xff then (c_o3 c d e, 4) else (c_o2 c d, 3))
    else (c_o1 c, 2)

-- What stands behind a backslash: the byte that is meant, and how many bytes of the text it takes.
unfoldable pub escape : ℕ → ℕ → ℕ → Option (ℕ × ℕ)
escape c d e =
    if c == 92
    then some (92, 2)
    else if c == b'a'
    then some (7, 2)
    else if c == b'b'
    then some (8, 2)
    else if (c == b'e') || (c == b'E')
    then some (27, 2)
    else if c == b'f'
    then some (12, 2)
    else if c == b'n'
    then some (10, 2)
    else if c == b'r'
    then some (13, 2)
    else if c == b't'
    then some (9, 2)
    else if c == b'v'
    then some (11, 2)
    else if c == b'c'
    then control
    else if c == b'x'
    then hex
    else if is_odigit c
    then some (octal c d e)
    else if c == 0
    then some (92, 1)
    else some (c, 2)
  where
    control : Option (ℕ × ℕ)
    control =
        if ltb (to_upper d) b'A' || ltb b'_' (to_upper d)
        then none
        else some (to_upper d - b'A' + 1, 3)

    hex : Option (ℕ × ℕ)
    hex =
        if not (is_xdigit d)
        then none
        else if is_xdigit e
        then some (c_h2 d e, 4)
        else some (c_h1 d, 3)

-- One round of the loop of strunesc.
unfoldable pub step : List ℕ → Option (ℕ × ℕ)
unfolding escape
step text =
    if at text 0 == 92 then escape (at text 1) (at text 2) (at text 3) else some (at text 0, 1)

abbrev emit : Option (ℕ × ℕ) → (ℕ → Option (List ℕ)) → Option (List ℕ)
emit none rest = none
emit (some (byte, used)) rest = elim (rest (used - 1)) [
  | none ↦ none
  | some out ↦ some (byte ∷ out)
]

-- The loop, `skip` bytes before its next round.
unfoldable pub unescape : ℕ → List ℕ → Option (List ℕ)
unfolding step
unescape skip [] = some []
unescape zero (c ∷ cs) = emit (step (c ∷ cs)) (λ used. unescape used cs)
unescape (suc skip) (c ∷ cs) = unescape skip cs

-- strunesc of a C string: the bytes, `none` for NULL.
unfoldable pub strunesc : List ℕ → Option (List ℕ)
unfolding unescape
strunesc text = unescape 0 text

-- printf of a digit.
abbrev hex_digit : ℕ → ℕ
hex_digit n = if ltb n 10 then b'0' + n else b'a' + (n - 10)

-- The text of one byte in cli_dump_cstring. A quote becomes \047.
unfoldable pub dump_char : ℕ → List ℕ
dump_char c =
    if c == 39
    then 92 ∷ (b'0' + c / 64) ∷ (b'0' + c / 8 % 8) ∷ (b'0' + c % 8) ∷ []
    else if c == 92
    then 92 ∷ 92 ∷ []
    else if between 0x20 0x7e c
    then c ∷ []
    else if c == 7
    then 92 ∷ b'a' ∷ []
    else if c == 8
    then 92 ∷ b'b' ∷ []
    else if c == 12
    then 92 ∷ b'f' ∷ []
    else if c == 10
    then 92 ∷ b'n' ∷ []
    else if c == 13
    then 92 ∷ b'r' ∷ []
    else if c == 9
    then 92 ∷ b't' ∷ []
    else if c == 11
    then 92 ∷ b'v' ∷ []
    else 92 ∷ b'x' ∷ hex_digit (c / 16) ∷ hex_digit (c % 16) ∷ []

-- What cli_dump_cstring prints between the quotes.
unfoldable pub dump_cstring : List ℕ → List ℕ
unfolding dump_char
dump_cstring [] = []
dump_cstring (c ∷ cs) = dump_char c ++ dump_cstring cs
