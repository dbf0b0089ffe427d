-- ===== src/Escape/Tests.antt =====
-- Texts with every kind of byte, printed and read back (client.c and common.c).
use sexpect.Base.{◌≡◌, ℕ, some, List, [], ◌∷◌, All, arith}
use sexpect.Proto.Wire.{IsByte}
use sexpect.Escape.Defs.{strunesc, dump_cstring}
use sexpect.Escape.RoundTrip.{strunesc-dump_cstring}

-- A NUL, a quote, a backslash, a newline, a digit that follows a hexadecimal escape, and 0xff.
abbrev mixed : List ℕ
mixed = 0 ∷ 39 ∷ 92 ∷ 10 ∷ 255 ∷ b'a' ∷ []

mixed-IsByte : All IsByte mixed
mixed-IsByte = omega arith

strunesc-dump_cstring_example : strunesc (dump_cstring mixed) ≡ some mixed
strunesc-dump_cstring_example = strunesc-dump_cstring mixed mixed-IsByte
