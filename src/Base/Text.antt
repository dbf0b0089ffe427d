-- ===== src/Base/Text.antt =====
-- Texts of the source as bytes, and their comparison.
use Prim.Native.Nat.{ℕ}
use Prim.Native.Char.{code}
use Prim.Native.String.{String}
use mathlib.Core.List.{List, [], ◌∷◌}
use mathlib.Core.Bool.{Bool, true, false, ◌&&◌, ◌||◌}
use sexpect.Base.Tests.{◌==◌}

-- The bytes of an ASCII text.
abbrev pub codes : String → List ℕ
codes String.[] = []
codes (String.◌∷◌ c s) = code c ∷ codes s

-- Equality of two C strings.
unfoldable pub streq : List ℕ → List ℕ → Bool
streq [] [] = true
streq [] (y ∷ ys) = false
streq (x ∷ xs) [] = false
streq (x ∷ xs) (y ∷ ys) = (x == y) && streq xs ys

-- str1of of common.c: whether a text is one of a list.
unfoldable pub str1of : List ℕ → List (List ℕ) → Bool
unfolding streq
str1of s [] = false
str1of s (next ∷ rest) = streq s next || str1of s rest
