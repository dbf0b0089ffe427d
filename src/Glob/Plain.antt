-- ===== src/Glob/Plain.antt =====
-- Globs without special bytes, through glob2re.
use sexpect.Base.{ℕ, ◌≡◌, ◌≢◌, refl, Bool, true, false, some, List, [], ◌∷◌, All, arith}
use sexpect.Glob.Defs.{is_special, round, rounds, glob2re}

-- A byte that stands for itself in a glob and in the expression.
unfoldable pub IsPlain : ℕ → Type 0
IsPlain c =
    (is_special c ≡ false)
    × ((c ≢ b'*')
        × ((c ≢ b'?') × ((c ≢ b'[') × ((c ≢ b']') × ((c ≢ b'^') × ((c ≢ b'$') × (c ≢ 92)))))))

round-plain : (first : Bool) (c : ℕ) (cs : List ℕ) → IsPlain c → round first c cs ≡ some (c ∷ [], 1)
unfolding round IsPlain
round-plain first c cs p = ground arith

rounds-plain : (first : Bool) (text : List ℕ) → All IsPlain text → rounds first 0 text ≡ some text
unfolding rounds
rounds-plain first [] h = refl
rounds-plain first (c ∷ cs) (p, ps) = rw (round-plain first c cs p, rounds-plain false cs ps) refl

-- A glob of bytes that are special neither in a glob nor in an expression is its own expression.
pub glob2re-plain : (text : List ℕ) → All IsPlain text → glob2re text ≡ some text
unfolding glob2re
glob2re-plain text h = rounds-plain true text h
