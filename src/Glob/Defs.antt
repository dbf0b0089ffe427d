-- ===== src/Glob/Defs.antt =====
-- common.c, glob2re.
use sexpect.Base.{
  ℕ, zero, suc, ◌+◌, ◌-◌, Bool, true, false, ◌||◌, ◌&&◌, Option, none, some, List, [], ◌∷◌, ◌++◌,
  ◌==◌, if◌then◌else◌, take,
}

-- strchr(in, ']').
unfoldable pub closing : List ℕ → Option ℕ
closing [] = none
closing (c ∷ cs) =
    let rest = closing cs in
    if c == b']' then some 0 else elim rest [ none ↦ none | some i ↦ some (suc i) ]

abbrev opens_class : ℕ → List ℕ → Bool
opens_class c [] = false
opens_class c (d ∷ ds) = (c == b'[') && ((d == b':') || ((d == b'.') || (d == b'=')))

-- Whether `[:`, `[.` or `[=` starts in one of the first `n` bytes.
unfoldable pub has_class : ℕ → List ℕ → Bool
has_class zero text = false
has_class (suc n) [] = false
has_class (suc n) (c ∷ cs) = opens_class c cs || has_class n cs

-- A round's output and how many bytes of the glob it took; `none` for the return of NULL.
abbrev pub Round : Type 0
Round = Option (List ℕ × ℕ)

-- The bytes up to the bracket that closes the set.
unfoldable pub set_body : List ℕ → ℕ → List ℕ → Round
unfolding closing has_class
set_body out used text = elim (closing text) [
  | none ↦ none
  | some i ↦ if has_class i text then none else some (out ++ take (suc i) text, used + suc i)
]

-- A `]` that comes first is of the set.
unfoldable pub set_first : List ℕ → ℕ → List ℕ → Round
unfolding set_body
set_first out used [] = none
set_first out used (c ∷ cs) =
    if c == b']' then set_body (out ++ b']' ∷ []) (suc used) cs else set_body out used (c ∷ cs)

-- What follows `[`.
unfoldable pub bracket : List ℕ → Round
unfolding set_first
bracket [] = none
bracket (c ∷ cs) =
    if (c == b'!') || (c == b'^')
    then set_first (b'[' ∷ b'^' ∷ []) 2 cs
    else set_first (b'[' ∷ []) 1 (c ∷ cs)

-- . + | < > ( ) { }
abbrev pub is_special : ℕ → Bool
is_special c =
    (c == b'.')
    || ((c == b'+')
        || ((c == b'|')
            || ((c == b'<')
                || ((c == b'>')
                    || ((c == b'(') || ((c == b')') || ((c == b'{') || (c == b'}'))))))))

-- What follows a backslash.
unfoldable pub quoted : List ℕ → Round
quoted [] = none
quoted (c ∷ cs) =
    if c == 92
    then some (92 ∷ 92 ∷ [], 2)
    else if (c == b'*') || ((c == b'?') || ((c == b'[') || (c == b']')))
    then some (b'[' ∷ c ∷ b']' ∷ [], 2)
    else none

abbrev pub dollar : List ℕ → Round
dollar [] = some (b'$' ∷ [], 1)
dollar (c ∷ cs) = some (b'[' ∷ b'$' ∷ b']' ∷ [], 1)

-- One round of the loop of glob2re; `first` tells that it stands at the start of the glob.
unfoldable pub round : Bool → ℕ → List ℕ → Round
unfolding bracket quoted
round first c cs =
    if c == b'*'
    then some (b'.' ∷ b'*' ∷ [], 1)
    else if c == b'?'
    then some (b'.' ∷ [], 1)
    else if c == b']'
    then some (b']' ∷ [], 1)
    else if c == b'['
    then bracket cs
    else if c == b'^'
    then some ((if first then b'^' ∷ [] else 92 ∷ b'^' ∷ []), 1)
    else if c == b'$'
    then dollar cs
    else if is_special c
    then some (b'[' ∷ c ∷ b']' ∷ [], 1)
    else if c == 92
    then quoted cs
    else some (c ∷ [], 1)

abbrev pub emit : Round → (ℕ → Option (List ℕ)) → Option (List ℕ)
emit none rest = none
emit (some (bytes, used)) rest = elim (rest (used - 1)) [
  | none ↦ none
  | some out ↦ some (bytes ++ out)
]

-- The loop, `skip` bytes before its next round.
unfoldable pub rounds : Bool → ℕ → List ℕ → Option (List ℕ)
unfolding round
rounds first skip [] = some []
rounds first zero (c ∷ cs) = emit (round first c cs) (λ used. rounds false used cs)
rounds first (suc skip) (c ∷ cs) = rounds false skip cs

-- glob2re of a C string, `none` for NULL.
unfoldable pub glob2re : List ℕ → Option (List ℕ)
unfolding rounds
glob2re text = rounds true 0 text
