-- ===== src/Client/Unchanged.antt =====
-- Proofs on cli_subst and cli_subst_raw (client.c).
use sexpect.Base.{
  ℕ, zero, suc, ◌-◌, ◌≤◌, ◌<◌, ◌≡◌, ◌≢◌, refl, Option, none, some, List, [], ◌∷◌, ◌++◌, length,
  take, drop, c_string, arith, ap, ◌∙◌, sym, All, append-nil, take-append-drop, take-drop,
  length-drop, length-c_string,
}
use sexpect.Client.Subst.{
  Groups, Part, replace_match, Subst, span_at, between, or_later, first_match, replacement,
  in_front, replaced, subst_step, cli_subst, cli_subst_raw,
}

-- A match that takes at least one byte of the subject.
abbrev pub Advances : List ℕ → Option (ℕ × ℕ) → Type 0
Advances s none = ⊥
Advances s (some (so, eo)) = (so ≤ eo) × ((0 < eo) × (eo ≤ length s))

-- A pattern that matches no empty text.
abbrev pub IsAdvancing : Subst → Type 0
IsAdvancing sub =
    (s : List ℕ) (groups : Groups) → sub.pat s ≡ some groups → Advances s (span_at groups 0)

-- What is known of the match that is chosen.
data Chosen (Q : List Part → Type 0) (s : List ℕ) : Option (List Part × Groups) → Type 0 where
  no_match : Chosen Q s none
  a_match :
      {repl : List Part} {groups : Groups}
      → Q repl
      → Advances s (span_at groups 0)
      → Chosen Q s (some (repl, groups))

or_later-Chosen :
    (Q : List Part → Type 0) (s : List ℕ) (m : Option Groups) (repl : List Part)
    {later : Option (List Part × Groups)}
    → Q repl
    → ((groups : Groups) → m ≡ some groups → Advances s (span_at groups 0))
    → Chosen Q s later
    → Chosen Q s (or_later m repl later)
or_later-Chosen Q s none repl q a h = h
or_later-Chosen Q s (some groups) repl q a h = a_match q (a groups refl)

first_match-Chosen :
    (Q : List Part → Type 0) (subs : List Subst) (s : List ℕ)
    → All (λ sub. IsAdvancing sub × Q sub.repl) subs
    → Chosen Q s (first_match subs s)
unfolding first_match
first_match-Chosen Q [] s h = no_match
first_match-Chosen Q (sub ∷ subs) s h =
    or_later-Chosen Q s (sub.pat s) sub.repl h.0.1 (h.0.0 s) (first_match-Chosen Q subs s h.1)

length-drop-lt : (n : ℕ) (s : List ℕ) → 0 < n → n ≤ length s → length (drop n s) < length s
length-drop-lt zero s h k = absurd (omega arith)
length-drop-lt (suc n) [] h k = absurd (omega arith)
length-drop-lt (suc zero) (c ∷ cs) h k = omega arith
length-drop-lt (suc (suc n)) (c ∷ cs) h k =
    omega (arith, length-drop-lt (suc n) cs (omega arith) (omega arith))

in_front-ne-none : (text : List ℕ) {o : Option (List ℕ)} → o ≢ none → in_front text o ≢ none
in_front-ne-none text {o = none} h = λ e. h refl
in_front-ne-none text {o = some later} h = λ e. absurd (ground arith)

-- What follows a match is shorter than the subject.
replaced-ne-none :
    (later : List ℕ → Option (List ℕ)) (s : List ℕ) (repl : List Part) (groups : Groups)
    (span : Option (ℕ × ℕ))
    → Advances s span
    → ((rest : List ℕ) → length rest < length s → later rest ≢ none)
    → replaced later s repl groups span ≢ none
replaced-ne-none later s repl groups none a h = absurd a
replaced-ne-none later s repl groups (some (so, eo)) a h =
    in_front-ne-none (take so s ++ replacement s groups repl)
      (h (drop eo s) (length-drop-lt eo s a.1.0 a.1.1))

abbrev IsAny : List Part → Type 0
IsAny repl = Unit

All-IsAny :
    (subs : List Subst) → All IsAdvancing subs → All (λ sub. IsAdvancing sub × IsAny sub.repl) subs
All-IsAny [] h = tt
All-IsAny (sub ∷ subs) h = ((h.0, tt), All-IsAny subs h.1)

step-ne-none :
    (later : List ℕ → Option (List ℕ)) (s : List ℕ) {m : Option (List Part × Groups)}
    → Chosen IsAny s m
    → ((rest : List ℕ) → length rest < length s → later rest ≢ none)
    → subst_step later s m ≢ none
step-ne-none later s no_match h = λ e. absurd (ground arith)
step-ne-none later s (a_match {repl = repl} {groups = groups} q a) h =
    replaced-ne-none later s repl groups (span_at groups 0) a h

-- The loop of cli_subst ends where no pattern matches an empty text: it needs at most one round for
-- each byte of the text.
pub cli_subst-ne-none :
    (subs : List Subst) (fuel : ℕ) (s : List ℕ)
    → All IsAdvancing subs
    → length s ≤ fuel
    → cli_subst subs fuel s ≢ none
unfolding cli_subst
cli_subst-ne-none subs fuel [] h k = λ e. absurd (ground arith)
cli_subst-ne-none subs zero (c ∷ cs) h k = absurd (omega arith)
cli_subst-ne-none subs (suc fuel) (c ∷ cs) h k =
    step-ne-none (λ rest. cli_subst subs fuel rest) (c ∷ cs)
      (first_match-Chosen IsAny subs (c ∷ cs) (All-IsAny subs h))
      (λ rest l. cli_subst-ne-none subs fuel rest h (omega arith))

-- Where the first pattern that matches does so with an empty text at the start, the loop of
-- cli_subst never ends, whatever its fuel.
pub cli_subst-loops :
    (subs : List Subst) (fuel : ℕ) (s : List ℕ) (repl : List Part) (groups : Groups) (so : ℕ)
    → s ≢ []
    → first_match subs s ≡ some (repl, groups)
    → span_at groups 0 ≡ some (so, 0)
    → cli_subst subs fuel s ≡ none
unfolding cli_subst
cli_subst-loops subs fuel [] repl groups so n e f = absurd (n refl)
cli_subst-loops subs zero (c ∷ cs) repl groups so n e f = refl
cli_subst-loops subs (suc fuel) (c ∷ cs) repl groups so n e f =
    rw (e, f, cli_subst-loops subs fuel (c ∷ cs) repl groups so n e f) refl

-- A substitution that puts back what it finds, `-subst 'PATTERN::(0)'`.
abbrev pub IsSame : List Part → Type 0
IsSame repl = repl ≡ replace_match 0 ∷ []

put_back :
    (so eo : ℕ) (s : List ℕ) → so ≤ eo → (take so s ++ (between s (so, eo) ++ [])) ++ drop eo s ≡ s
put_back so eo s h =
    ap (λ t. (take so s ++ t) ++ drop eo s) (append-nil (take (eo - so) (drop so s)))
    ∙ (ap (λ t. t ++ drop eo s) (take-drop so (eo - so) eo s (omega arith)) ∙ take-append-drop eo s)

step-unchanged :
    (later : List ℕ → Option (List ℕ)) (s : List ℕ) {m : Option (List Part × Groups)}
    → Chosen IsSame s m
    → ((rest : List ℕ) → length rest < length s → later rest ≡ some rest)
    → subst_step later s m ≡ some s
unfolding replacement
step-unchanged later s no_match h = refl
step-unchanged later s (a_match {repl = repl} {groups = groups} q a) h =
    spans (span_at groups 0) refl a
  where
    spans :
        (span : Option (ℕ × ℕ))
        → span_at groups 0 ≡ span
        → Advances s span
        → replaced later s repl groups span ≡ some s
    spans none e a = absurd a
    spans (some (so, eo)) e a =
        rw (q, e, h (drop eo s) (length-drop-lt eo s a.1.0 a.1.1)) (ap some (put_back so eo s a.0))

-- Where no pattern matches an empty text and every replacement is `(0)`, the whole match, cli_subst
-- writes the text as it is.
cli_subst-unchanged :
    (subs : List Subst) (fuel : ℕ) (s : List ℕ)
    → All (λ sub. IsAdvancing sub × IsSame sub.repl) subs
    → length s ≤ fuel
    → cli_subst subs fuel s ≡ some s
unfolding cli_subst
cli_subst-unchanged subs fuel [] h k = refl
cli_subst-unchanged subs zero (c ∷ cs) h k = absurd (omega arith)
cli_subst-unchanged subs (suc fuel) (c ∷ cs) h k =
    step-unchanged (λ rest. cli_subst subs fuel rest) (c ∷ cs)
      (first_match-Chosen IsSame subs (c ∷ cs) h)
      (λ rest l. cli_subst-unchanged subs fuel rest h (omega arith))

-- A text up to its first NUL byte, and what follows it.
data Cut (s : List ℕ) : Type 0 where
  ends : c_string s ≡ s → drop (length (c_string s)) s ≡ [] → Cut s
  cuts :
      (rest : List ℕ)
      → drop (length (c_string s)) s ≡ 0 ∷ rest
      → s ≡ c_string s ++ (0 ∷ rest)
      → Cut s

cut : (s : List ℕ) → Cut s
unfolding c_string
cut [] = ends refl refl
cut (zero ∷ cs) = cuts cs refl refl
cut (suc c ∷ cs) = elim (cut cs) [
  | ends e f ↦ ends (ap (λ t. suc c ∷ t) e) f
  | cuts rest f e ↦ cuts rest f (ap (λ t. suc c ∷ t) e)
]

-- cli_subst_raw writes the bytes of the output as they are, NUL bytes included, where no pattern
-- matches an empty text and every replacement is `(0)`, the whole match.
pub cli_subst_raw-unchanged :
    (subs : List Subst) (fuel : ℕ) (raw : List ℕ)
    → All (λ sub. IsAdvancing sub × IsSame sub.repl) subs
    → length raw ≤ fuel
    → cli_subst_raw subs fuel raw ≡ some raw
unfolding cli_subst_raw
cli_subst_raw-unchanged subs fuel [] h k = refl
cli_subst_raw-unchanged subs zero (c ∷ cs) h k = absurd (omega arith)
cli_subst_raw-unchanged subs (suc fuel) (c ∷ cs) h k = elim (cut (c ∷ cs)) [
  | ends e f ↦ rw (first_text, f) (ap some (append-nil (c_string (c ∷ cs)) ∙ e))
  | cuts rest f e ↦
      rw (first_text, f, cli_subst_raw-unchanged subs fuel rest h (shorter rest f))
        (ap some (sym e))
]
  where
    first_text : cli_subst subs (suc fuel) (c_string (c ∷ cs)) ≡ some (c_string (c ∷ cs))
    first_text =
        cli_subst-unchanged subs (suc fuel) (c_string (c ∷ cs)) h
          (omega (arith, length-c_string (c ∷ cs)))

    shorter :
        (rest : List ℕ) → drop (length (c_string (c ∷ cs))) (c ∷ cs) ≡ 0 ∷ rest → length rest ≤ fuel
    shorter rest f = omega (arith, ap length f, length-drop (length (c_string (c ∷ cs))) (c ∷ cs))
