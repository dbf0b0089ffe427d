-- ===== src/Glob/Bounds.antt =====
-- The buffer that glob2re writes to (common.c).
use sexpect.Base.{
  ℕ, zero, suc, ◌+◌, ◌-◌, ◌*◌, ◌≤◌, ◌<◌, ◌≡◌, subst, Bool, true, false, Option, none, some, List,
  [], ◌∷◌, ◌++◌, ◌==◌, if◌then◌else◌, ◌||◌, length, take, length-append, arith,
}
use sexpect.Glob.Defs.{
  closing, has_class, Round, set_body, set_first, bracket, quoted, is_special, dollar, round, emit,
  rounds, glob2re,
}

-- A round takes at least one byte, none behind the end, and writes at most three times as much.
abbrev Fits : ℕ → Round → Type 0
Fits n none = Unit
Fits n (some (out, used)) = (length out ≤ 3 * used) × ((1 ≤ used) × (used ≤ n))

choose : (n : ℕ) (b : Bool) (r q : Round) → Fits n r → Fits n q → Fits n (if b then r else q)
choose n true r q f g = f
choose n false r q f g = g

Fits-eq : (m n : ℕ) (r : Round) → m ≡ n → Fits m r → Fits n r
Fits-eq m n none e f = tt
Fits-eq m n (some (out, used)) e f = (f.0, (f.1.0, omega (arith, e, f.1.1)))

length-take-le : (n : ℕ) (xs : List ℕ) → length (take n xs) ≤ n
length-take-le zero xs = omega arith
length-take-le (suc n) [] = omega arith
length-take-le (suc n) (x ∷ xs) = omega (arith, length-take-le n xs)

abbrev Below : ℕ → Option ℕ → Type 0
Below n none = Unit
Below n (some i) = i < n

closing-Below : (text : List ℕ) → Below (length text) (closing text)
unfolding closing
closing-Below [] = tt
closing-Below (c ∷ cs) = put (c == b']') (closing cs) (closing-Below cs)
  where
    put :
        (b : Bool) (r : Option ℕ)
        → Below (length cs) r
        → Below
            (suc (length cs))
            (if b then some 0 else elim r [ none ↦ none | some i ↦ some (suc i) ])
    put true r h = omega arith
    put false none h = tt
    put false (some i) h = omega arith

set_body-Fits :
    (out : List ℕ) (used : ℕ) (text : List ℕ)
    → length out ≤ 3 * used
    → Fits (used + length text) (set_body out used text)
unfolding set_body
set_body-Fits out used text h = closed (closing text) (closing-Below text)
  where
    closed :
        (r : Option ℕ)
        → Below (length text) r
        → Fits (used + length text) (elim r [
          | none ↦ none
          | some i ↦
              if has_class i text then none else some (out ++ take (suc i) text, used + suc i)
        ])
    closed none b = tt
    closed (some i) b = pick (has_class i text)
      where
        pick :
            (p : Bool)
            → Fits
                (used + length text)
                (if p then none else some (out ++ take (suc i) text, used + suc i))
        pick true = tt
        pick false = (
          omega (arith, h, length-append out (take (suc i) text), length-take-le (suc i) text),
          (omega arith, omega (arith, b)),
        )

set_first-Fits :
    (out : List ℕ) (used : ℕ) (text : List ℕ)
    → length out ≤ 3 * used
    → Fits (used + length text) (set_first out used text)
unfolding set_first
set_first-Fits out used [] h = tt
set_first-Fits out used (c ∷ cs) h =
    choose (used + suc (length cs)) (c == b']') _ _
      (Fits-eq (suc used + length cs) (used + suc (length cs)) _ (omega arith) (
        set_body-Fits (out ++ b']' ∷ []) (suc used) cs
          (omega (arith, h, length-append out (b']' ∷ [])))))
      (set_body-Fits out used (c ∷ cs) h)

bracket-Fits : (text : List ℕ) → Fits (suc (length text)) (bracket text)
unfolding bracket
bracket-Fits [] = tt
bracket-Fits (c ∷ cs) =
    choose (suc (suc (length cs))) ((c == b'!') || (c == b'^')) _ _
      (Fits-eq (2 + length cs) (suc (suc (length cs))) _ (omega arith)
        (set_first-Fits (b'[' ∷ b'^' ∷ []) 2 cs (omega arith)))
      (Fits-eq (1 + suc (length cs)) (suc (suc (length cs))) _ (omega arith)
        (set_first-Fits (b'[' ∷ []) 1 (c ∷ cs) (omega arith)))

quoted-Fits : (text : List ℕ) → Fits (suc (length text)) (quoted text)
unfolding quoted
quoted-Fits [] = tt
quoted-Fits (c ∷ cs) = ground arith

-- A round that takes one byte.
one : (n : ℕ) (out : List ℕ) → length out ≤ 3 → Fits (suc n) (some (out, 1))
one n out h = (h, (omega arith, omega arith))

round-Fits : (first : Bool) (c : ℕ) (cs : List ℕ) → Fits (suc (length cs)) (round first c cs)
unfolding round
round-Fits first c cs =
    let n = suc (length cs) in
    choose n (c == b'*') _ _ (one (length cs) (b'.' ∷ b'*' ∷ []) (omega arith)) (
      choose n (c == b'?') _ _ (one (length cs) (b'.' ∷ []) (omega arith)) (
        choose n (c == b']') _ _ (one (length cs) (b']' ∷ []) (omega arith)) (
          choose n (c == b'[') _ _ (bracket-Fits cs) (
            choose n (c == b'^') _ _ (caret first) (
              choose n (c == b'$') _ _ (money cs) (
                choose n (is_special c) _ _ (one (length cs) (b'[' ∷ c ∷ b']' ∷ []) (omega arith)) (
                  choose n (c == 92) _ _ (quoted-Fits cs)
                    (one (length cs) (c ∷ []) (omega arith)))))))))
  where
    caret :
        (b : Bool) → Fits (suc (length cs)) (some ((if b then b'^' ∷ [] else 92 ∷ b'^' ∷ []), 1))
    caret true = (omega arith, (omega arith, omega arith))
    caret false = (omega arith, (omega arith, omega arith))

    money : (ds : List ℕ) → Fits (suc (length ds)) (dollar ds)
    money [] = (omega arith, (omega arith, omega arith))
    money (d ∷ ds) = (omega arith, (omega arith, omega arith))

-- What the loop writes fits three times what is left.
abbrev Within : ℕ → Option (List ℕ) → Type 0
Within n none = Unit
Within n (some out) = length out ≤ 3 * n

Within-eq : (m n : ℕ) (r : Option (List ℕ)) → m ≡ n → Within m r → Within n r
Within-eq m n none e w = tt
Within-eq m n (some out) e w = omega (arith, e, w)

emit-Within :
    (n : ℕ) (r : Round) (rest : ℕ → Option (List ℕ))
    → Fits (suc n) r
    → ((used : ℕ) → Within (n - used) (rest used))
    → Within (suc n) (emit r rest)
emit-Within n none rest f k = tt
emit-Within n (some (bytes, used)) rest f k = add (rest (used - 1)) (k (used - 1))
  where
    add :
        (r : Option (List ℕ))
        → Within (n - (used - 1)) r
        → Within (suc n) (elim r [ none ↦ none | some out ↦ some (bytes ++ out) ])
    add none w = tt
    add (some out) w = omega (arith, w, length-append bytes out, f.0, f.1.0, f.1.1)

rounds-Within :
    (first : Bool) (skip : ℕ) (text : List ℕ) → Within (length text - skip) (rounds first skip text)
unfolding rounds
rounds-Within first skip [] = omega arith
rounds-Within first zero (c ∷ cs) =
    Within-eq (suc (length cs)) (suc (length cs) - 0) _ (omega arith) (
      emit-Within (length cs) (round first c cs) (λ used. rounds false used cs)
        (round-Fits first c cs) (λ used. rounds-Within false used cs))
rounds-Within first (suc skip) (c ∷ cs) =
    Within-eq (length cs - skip) (suc (length cs) - suc skip) _ (omega arith)
      (rounds-Within false skip cs)

-- The expression that glob2re returns for a glob is at most three times as long as the glob: with its
-- NUL it fits the 3 * strlen(in) + 1 bytes that are allocated for it.
pub length-glob2re :
    (text out : List ℕ) → glob2re text ≡ some out → length out + 1 ≤ 3 * length text + 1
unfolding glob2re
length-glob2re text out e =
    omega (arith, subst (Within (length text - 0)) e (rounds-Within true 0 text))
