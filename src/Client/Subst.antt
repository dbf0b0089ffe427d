-- ===== src/Client/Subst.antt =====
-- The substitutions of `interact -subst` (client.c, cli_subst_parse_repl, cli_subst_compile,
-- cli_subst, cli_subst_raw).
use sexpect.Base.{
  ℕ, zero, suc, ◌+◌, ◌-◌, Bool, Option, none, some, List, [], ◌∷◌, ◌++◌, ◌==◌, if◌then◌else◌,
  length, take, drop, get_elem?, c_string, codes,
}
use sexpect.Tags.{error_usage, has_flag, pass_expect_icase, pass_expect_newline}
use sexpect.Escape.Defs.{at, strunesc}
use sexpect.Server.Expect.{strstr, same}
use sexpect.Args.Options.{Command, interact, PassOpts}
use sexpect.Args.Result.{Result, ok, exits, ◌>>=◌}
use sexpect.Args.Finish.{without_escapes}

-- regexec with a compiled pattern: where the subject matches, the start and the end of each of the
-- ten groups that took part, the whole match first.
abbrev pub Groups : Type 0
Groups = List (Option (ℕ × ℕ))

abbrev pub Matcher : Type 0
Matcher = List ℕ → Option Groups

-- regcomp with REG_EXTENDED: the pattern, whether case is ignored, whether newlines are special.
abbrev pub Regcomp : Type 0
Regcomp = List ℕ → Bool → Bool → Option Matcher

-- struct subst_repl_part and struct subst_spec
pub data Part : Type 0 where
  replace_literal : List ℕ → Part
  replace_match : ℕ → Part

pub record Subst : Type 0 where
  pub pat : Matcher
  pub repl : List Part

-- What a pointer into the subject says: rm_so and rm_eo of a group.
abbrev pub span_at : Groups → ℕ → Option (ℕ × ℕ)
span_at groups k = elim (get_elem? groups k) [ none ↦ none | some g ↦ g ]

abbrev pub between : List ℕ → ℕ × ℕ → List ℕ
between s (so, eo) = take (eo - so) (drop so s)

-- The loop of cli_subst_parse_repl. `digits` is the compiled "[(][0123456789][)]", `none` is a loop
-- that does not end within its fuel.
abbrev pub literal_if : ℕ → List ℕ → List Part → List Part
literal_if so s parts = if so == 0 then parts else replace_literal (take so s) ∷ parts

abbrev pub behind_match : ℕ × ℕ → List ℕ → Option (List Part) → Option (List Part)
behind_match span s none = none
behind_match (so, eo) s (some parts) =
    some (literal_if so s (replace_match (at s (so + 1) - b'0') ∷ parts))

-- The text matched at `so`, up to `eo`; `later` is the loop on what follows.
abbrev pub part_at : (List ℕ → Option (List Part)) → List ℕ → Option (ℕ × ℕ) → Option (List Part)
part_at later s none = none
part_at later s (some (so, eo)) = behind_match (so, eo) s (later (drop eo s))

abbrev pub next_part : (List ℕ → Option (List Part)) → List ℕ → Option Groups → Option (List Part)
next_part later s none = some (replace_literal s ∷ [])
next_part later s (some groups) = part_at later s (span_at groups 0)

unfoldable pub parts_of : Matcher → ℕ → List ℕ → Option (List Part)
parts_of digits fuel [] = some []
parts_of digits zero (c ∷ cs) = none
parts_of digits (suc fuel) (c ∷ cs) =
    next_part (λ rest. parts_of digits fuel rest) (c ∷ cs) (digits (c ∷ cs))

-- With -cstring the literal parts have escapes.
abbrev pub unescaped_part : Part → Result Part
unescaped_part (replace_match k) = ok (replace_match k)
unescaped_part (replace_literal text) =
    without_escapes (strunesc text) >>= (λ bytes. ok (replace_literal bytes))

unfoldable pub unescaped_parts : List Part → Result (List Part)
unfolding strunesc
unescaped_parts [] = ok []
unescaped_parts (part ∷ parts) = do p ← unescaped_part part; ps ← unescaped_parts parts; ok (p ∷ ps)

unfoldable pub cli_subst_parse_repl : Matcher → List ℕ → Bool → Option (Result (List Part))
unfolding parts_of unescaped_parts
cli_subst_parse_repl digits s cstring = elim (parts_of digits (length s) s) [
  | none ↦ none
  | some parts ↦ some (if cstring then unescaped_parts parts else ok parts)
]

-- SUBST_SEP
abbrev pub subst_sep : List ℕ
subst_sep = codes "::"

-- PATTERN in front of the separator at `sep`, compiled.
abbrev pub compiled : Option Matcher → Result Matcher
compiled none = exits error_usage
compiled (some pat) = ok pat

abbrev pub pattern_at : Regcomp → PassOpts → ℕ → List ℕ → Result Matcher
pattern_at regcomp st zero sub = exits error_usage
pattern_at regcomp st (suc n) sub = do
  pat ← if st.cstring then without_escapes (strunesc (take (suc n) sub)) else ok (take (suc n) sub)
  compiled (
      regcomp pat (has_flag st.expflags pass_expect_icase)
        (has_flag st.expflags pass_expect_newline))

-- One -subst, `none` where parsing REPLACE does not end.
abbrev pub with_parts : Result Matcher → Option (Result (List Part)) → Option (Result Subst)
with_parts (exits code) parts = some (exits code)
with_parts (ok pat) none = none
with_parts (ok pat) (some parts) = some (parts >>= (λ repl. ok (record { pat = pat; repl = repl })))

abbrev pub compile_at : Regcomp → Matcher → PassOpts → List ℕ → Option ℕ → Option (Result Subst)
compile_at regcomp digits st sub none = some (exits error_usage)
compile_at regcomp digits st sub (some sep) =
    with_parts (pattern_at regcomp st sep sub)
      (cli_subst_parse_repl digits (drop (sep + length subst_sep) sub) st.cstring)

abbrev pub and_then :
    Option (Result Subst) → Option (Result (List Subst)) → Option (Result (List Subst))
and_then none later = none
and_then (some (exits code)) later = some (exits code)
and_then (some (ok sub)) none = none
and_then (some (ok sub)) (some later) = some (later >>= (λ subs. ok (sub ∷ subs)))

unfoldable pub compile_all :
    Regcomp → Matcher → PassOpts → List (List ℕ) → Option (Result (List Subst))
unfolding strstr cli_subst_parse_repl strunesc
compile_all regcomp digits st [] = some (ok [])
compile_all regcomp digits st (sub ∷ subs) =
    and_then (compile_at regcomp digits st sub (strstr same sub subst_sep))
      (compile_all regcomp digits st subs)

unfoldable pub cli_subst_compile : Regcomp → Matcher → Command → Option (Result (List Subst))
unfolding compile_all
cli_subst_compile regcomp digits (interact st) = compile_all regcomp digits st st.subs
cli_subst_compile regcomp digits c = some (ok [])

-- The first -subst that matches.
abbrev pub or_later :
    Option Groups → List Part → Option (List Part × Groups) → Option (List Part × Groups)
or_later none repl later = later
or_later (some groups) repl later = some (repl, groups)

unfoldable pub first_match : List Subst → List ℕ → Option (List Part × Groups)
first_match [] s = none
first_match (sub ∷ subs) s = or_later (sub.pat s) sub.repl (first_match subs s)

-- What is written for a match.
abbrev pub group_text : List ℕ → Option (ℕ × ℕ) → List ℕ
group_text s none = []
group_text s (some span) = between s span

abbrev pub part_text : List ℕ → Groups → Part → List ℕ
part_text s groups (replace_literal text) = text
part_text s groups (replace_match k) = group_text s (span_at groups k)

unfoldable pub replacement : List ℕ → Groups → List Part → List ℕ
replacement s groups [] = []
replacement s groups (part ∷ parts) = part_text s groups part ++ replacement s groups parts

abbrev pub in_front : List ℕ → Option (List ℕ) → Option (List ℕ)
in_front text none = none
in_front text (some later) = some (text ++ later)

abbrev pub replaced :
    (List ℕ → Option (List ℕ)) → List ℕ → List Part → Groups → Option (ℕ × ℕ) → Option (List ℕ)
replaced later s repl groups none = none
replaced later s repl groups (some (so, eo)) =
    in_front (take so s ++ replacement s groups repl) (later (drop eo s))

abbrev pub subst_step :
    (List ℕ → Option (List ℕ)) → List ℕ → Option (List Part × Groups) → Option (List ℕ)
subst_step later s none = some s
subst_step later s (some (repl, groups)) = replaced later s repl groups (span_at groups 0)

-- cli_subst: what it writes, `none` if the loop does not end within its fuel. (regexec always says
-- where the whole match is.)
unfoldable pub cli_subst : List Subst → ℕ → List ℕ → Option (List ℕ)
unfolding first_match replacement
cli_subst subs fuel [] = some []
cli_subst subs zero (c ∷ cs) = none
cli_subst subs (suc fuel) (c ∷ cs) =
    subst_step (λ rest. cli_subst subs fuel rest) (c ∷ cs) (first_match subs (c ∷ cs))

-- What follows a text: a NUL byte, or the end.
abbrev pub behind_text : (List ℕ → Option (List ℕ)) → List ℕ → Option (List ℕ)
behind_text later [] = some []
behind_text later (nul ∷ rest) = in_front (0 ∷ []) (later rest)

abbrev pub then_rest : Option (List ℕ) → Option (List ℕ) → Option (List ℕ)
then_rest none later = none
then_rest (some out) later = in_front out later

-- cli_subst_raw: the texts between the NUL bytes. (A NUL stands behind the bytes of a message, so
-- the test in front of the loop never returns.)
unfoldable pub cli_subst_raw : List Subst → ℕ → List ℕ → Option (List ℕ)
unfolding cli_subst c_string
cli_subst_raw subs fuel [] = some []
cli_subst_raw subs zero (c ∷ cs) = none
cli_subst_raw subs (suc fuel) (c ∷ cs) = then_rest (cli_subst subs (suc fuel) (c_string (c ∷ cs))) (
    behind_text (λ rest. cli_subst_raw subs fuel rest) (drop (length (c_string (c ∷ cs))) (c ∷ cs)))
