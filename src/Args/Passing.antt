-- ===== src/Args/Passing.antt =====
-- The arguments of `expect`, `interact` and `wait` (main.c, getargs).
use sexpect.Base.{ℕ, true, some, List, [], ◌∷◌, ◌++◌, if◌then◌else◌, codes}
use sexpect.Base.Int.{ℤ}
use sexpect.Tags.{
  error_usage, has_flag, pass_expect_exact, pass_expect_glob, pass_expect_ere, pass_expect_eof,
  pass_expect_icase, pass_expect_newline,
}
use sexpect.Args.Options.{PassOpts}
use sexpect.Args.Step.{
  choose, Step, more, more_next, quits, unexpected, nextarg, next_int, next_uint,
  at_least_minus_one, set_flag, is_option, is_empty, opt_nocase, opt_cstring, opt_lookback,
  opt_anchor, opt_timeout,
}

abbrev pub with_flag : ℕ → PassOpts → PassOpts
with_flag flag st = record st { expflags = set_flag flag st.expflags }

-- A pattern of a kind.
abbrev pub with_pattern : ℕ → List ℕ → PassOpts → PassOpts
with_pattern kind next st = record (with_flag kind st) { pattern = some next }

abbrev pub with_cstring : PassOpts → PassOpts
with_cstring st = record st { cstring = true }

abbrev pub with_lookback : PassOpts → ℕ → PassOpts
with_lookback st n = record st { lookback = n }

abbrev pub with_timeout : PassOpts → ℤ → PassOpts
with_timeout st n = record st { has_timeout = true; timeout = at_least_minus_one n }

unfoldable pub expect_arg : List ℕ → List (List ℕ) → PassOpts → Step PassOpts
unfolding next_int next_uint
expect_arg arg rest st =
    choose arg
      (((codes "-exact" ∷ codes "-ex" ∷ []), pattern_of pass_expect_exact)
        ∷ ((codes "-re" ∷ []), pattern_of pass_expect_ere)
        ∷ ((codes "-glob" ∷ codes "-gl" ∷ []), pattern_of pass_expect_glob)
        ∷ (opt_nocase, more (with_flag pass_expect_icase st))
        ∷ (opt_anchor, more (with_flag pass_expect_newline st))
        ∷ (opt_cstring, more (with_cstring st))
        ∷ ((codes "-eof" ∷ []), more (with_flag pass_expect_eof st))
        ∷ (opt_timeout, next_int rest (with_timeout st))
        ∷ (opt_lookback, next_uint rest (with_lookback st))
        ∷ [])
      (if is_option arg
        then quits error_usage
        else if is_empty arg
        then quits error_usage
        else if has_flag st.expflags pass_expect_exact
        then unexpected
        else more (with_pattern pass_expect_exact arg st))
  where
    pattern_of : ℕ → Step PassOpts
    pattern_of kind = nextarg rest (λ next. more_next (with_pattern kind next st))

-- There is no test against MAX_SUBST.
unfoldable pub interact_arg : List ℕ → List (List ℕ) → PassOpts → Step PassOpts
unfolding next_uint
interact_arg arg rest st =
    choose arg
      (((codes "-re" ∷ []), nextarg rest (λ next. more_next (with_pattern pass_expect_ere next st)))
        ∷ (opt_nocase, more (with_flag pass_expect_icase st))
        ∷ (opt_anchor, more (with_flag pass_expect_newline st))
        ∷ (opt_cstring, more (with_cstring st))
        ∷ (opt_lookback, next_uint rest (with_lookback st))
        ∷ (
          (codes "-nodetach" ∷ codes "-nodet" ∷ codes "-nod" ∷ []),
          more (record st { no_detach = true }),
        )
        ∷ (
          (codes "-subst" ∷ codes "-sub" ∷ []),
          nextarg rest (λ next. more_next (record st { subs = st.subs ++ (next ∷ []) })),
        )
        ∷ [])
      (unexpected)

unfoldable pub wait_arg : List ℕ → List (List ℕ) → PassOpts → Step PassOpts
unfolding next_uint
wait_arg arg rest st =
    choose arg ((opt_lookback, next_uint rest (with_lookback st)) ∷ []) (unexpected)
