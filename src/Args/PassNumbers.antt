-- ===== src/Args/PassNumbers.antt =====
-- Proofs on the options of expect, interact and wait that getargs accepts (main.c).
use sexpect.Base.{ℕ, ◌^◌, ◌<◌, ◌≡◌, refl, true, List, arith}
use sexpect.Base.Int.{ℤ, pos, negsuc}
use sexpect.Tags.{
  has_flag, pass_expect_exact, pass_expect_glob, pass_expect_ere, pass_expect_eof,
  pass_expect_icase, pass_expect_newline, pass_subcmd_expect, pass_subcmd_interact,
  pass_subcmd_wait,
}
use sexpect.Args.Options.{PassOpts}
use sexpect.Args.Number.{is_int}
use sexpect.Args.Step.{
  more_next, nextarg, at_least_minus_one, at_least_zero, set_flag, is_option, is_empty,
}
use sexpect.Args.Passing.{
  with_flag, with_pattern, with_lookback, with_timeout, expect_arg, interact_arg, wait_arg,
}
use sexpect.Args.Keep.{
  Keeps, goes, jumps, leaves, Keeps-if, nextarg-Keeps, next_int-Keeps, next_uint-Keeps,
  choose-Keeps,
}

-- An int that is a number of seconds, or -1 for no limit.
abbrev pub IsLimit : ℤ → Type 0
IsLimit (pos n) = n < 2 ^ 31
IsLimit (negsuc n) = n ≡ 0

-- An int that is a number of seconds.
abbrev pub IsSeconds : ℤ → Type 0
IsSeconds (pos n) = n < 2 ^ 31
IsSeconds (negsuc n) = ⊥

pub IsLimit-is_int : (n : ℤ) → IsLimit n → is_int n ≡ true
IsLimit-is_int (pos n) h = ground arith
IsLimit-is_int (negsuc n) h = ground arith

pub IsSeconds-is_int : (n : ℤ) → IsSeconds n → is_int n ≡ true
IsSeconds-is_int (pos n) h = ground arith
IsSeconds-is_int (negsuc n) h = absurd h

-- The numbers of `expect`, `interact` and `wait`.
pub record IsPass (subcmd : ℕ) (st : PassOpts) : Type 0 where
  pub sub : st.subcmd ≡ subcmd
  pub timeout : IsLimit st.timeout
  pub lookback : st.lookback < 2 ^ 31
  pub flags : st.expflags < 2 ^ 8

pub at_least_minus_one-IsLimit : (n : ℤ) → is_int n ≡ true → IsLimit (at_least_minus_one n)
at_least_minus_one-IsLimit (pos n) h = ground arith
at_least_minus_one-IsLimit (negsuc n) h = refl

pub at_least_zero-IsSeconds : (n : ℤ) → is_int n ≡ true → IsSeconds (at_least_zero n)
at_least_zero-IsSeconds (pos n) h = ground arith
at_least_zero-IsSeconds (negsuc n) h = omega arith

module _ {subcmd : ℕ} {st : PassOpts} (p : IsPass subcmd st) where
  flag-IsPass : (flag : ℕ) → set_flag flag st.expflags < 2 ^ 8 → IsPass subcmd (with_flag flag st)
  flag-IsPass flag h = record { sub = p.sub; timeout = p.timeout; lookback = p.lookback; flags = h }

  lookback-IsPass : (n : ℕ) → n < 2 ^ 31 → IsPass subcmd (with_lookback st n)
  lookback-IsPass n h = record { sub = p.sub; timeout = p.timeout; lookback = h; flags = p.flags }

  timeout-IsPass : (n : ℤ) → is_int n ≡ true → IsPass subcmd (with_timeout st n)
  timeout-IsPass n h = record {
    sub = p.sub;
    timeout = at_least_minus_one-IsLimit n h;
    lookback = p.lookback;
    flags = p.flags;
  }

  same-IsPass :
      {st' : PassOpts}
      → st'.subcmd ≡ st.subcmd
      → st'.timeout ≡ st.timeout
      → st'.lookback ≡ st.lookback
      → st'.expflags ≡ st.expflags
      → IsPass subcmd st'
  same-IsPass e t l f = record {
    sub = rw e p.sub;
    timeout = rw t p.timeout;
    lookback = rw l p.lookback;
    flags = rw f p.flags;
  }

set_flag-lt-exact : (flags : ℕ) → flags < 2 ^ 8 → set_flag pass_expect_exact flags < 2 ^ 8
set_flag-lt-exact flags h = ground arith

set_flag-lt-newline : (flags : ℕ) → flags < 2 ^ 8 → set_flag pass_expect_newline flags < 2 ^ 8
set_flag-lt-newline flags h = ground arith

set_flag-lt-ere : (flags : ℕ) → flags < 2 ^ 8 → set_flag pass_expect_ere flags < 2 ^ 8
set_flag-lt-ere flags h = ground arith

set_flag-lt-glob : (flags : ℕ) → flags < 2 ^ 8 → set_flag pass_expect_glob flags < 2 ^ 8
set_flag-lt-glob flags h = ground arith

set_flag-lt-icase : (flags : ℕ) → flags < 2 ^ 8 → set_flag pass_expect_icase flags < 2 ^ 8
set_flag-lt-icase flags h = ground arith

set_flag-lt-eof : (flags : ℕ) → flags < 2 ^ 8 → set_flag pass_expect_eof flags < 2 ^ 8
set_flag-lt-eof flags h = ground arith

pub expect_arg-Keeps :
    (arg : List ℕ) (rest : List (List ℕ)) {st : PassOpts}
    → IsPass pass_subcmd_expect st
    → Keeps (IsPass pass_subcmd_expect) (expect_arg arg rest st)
unfolding expect_arg
expect_arg-Keeps arg rest {st} p =
    choose-Keeps arg _
      (
        kind pass_expect_exact exact,
        (
          kind pass_expect_ere (set_flag-lt-ere st.expflags p.flags),
          (
            kind pass_expect_glob (set_flag-lt-glob st.expflags p.flags),
            (
              goes (flag-IsPass p pass_expect_icase (set_flag-lt-icase st.expflags p.flags)),
              (
                goes (flag-IsPass p pass_expect_newline (set_flag-lt-newline st.expflags p.flags)),
                (
                  goes (same-IsPass p refl refl refl refl),
                  (
                    goes (flag-IsPass p pass_expect_eof (set_flag-lt-eof st.expflags p.flags)),
                    (
                      next_int-Keeps rest _ (timeout-IsPass p),
                      (next_uint-Keeps rest _ (lookback-IsPass p), tt),
                    ),
                  ),
                ),
              ),
            ),
          ),
        ),
      )
      (Keeps-if (is_option arg) leaves (
        Keeps-if (is_empty arg) leaves (
          Keeps-if (has_flag st.expflags pass_expect_exact) leaves
            (goes (same-IsPass (flag-IsPass p pass_expect_exact exact) refl refl refl refl)))))
  where
    exact : set_flag pass_expect_exact st.expflags < 2 ^ 8
    exact = set_flag-lt-exact st.expflags p.flags

    kind :
        (flag : ℕ)
        → set_flag flag st.expflags < 2 ^ 8
        → Keeps
            (IsPass pass_subcmd_expect)
            (nextarg rest (λ next. more_next (with_pattern flag next st)))
    kind flag h =
        nextarg-Keeps rest _ λ next. jumps (same-IsPass (flag-IsPass p flag h) refl refl refl refl)

pub interact_arg-Keeps :
    (arg : List ℕ) (rest : List (List ℕ)) {st : PassOpts}
    → IsPass pass_subcmd_interact st
    → Keeps (IsPass pass_subcmd_interact) (interact_arg arg rest st)
unfolding interact_arg
interact_arg-Keeps arg rest {st} p =
    choose-Keeps arg _
      (
        nextarg-Keeps rest _ (λ next. jumps (
            same-IsPass (flag-IsPass p pass_expect_ere (set_flag-lt-ere st.expflags p.flags)) refl
              refl refl refl)),
        (
          goes (flag-IsPass p pass_expect_icase (set_flag-lt-icase st.expflags p.flags)),
          (
            goes (flag-IsPass p pass_expect_newline (set_flag-lt-newline st.expflags p.flags)),
            (
              goes (same-IsPass p refl refl refl refl),
              (
                next_uint-Keeps rest _ (lookback-IsPass p),
                (
                  goes (same-IsPass p refl refl refl refl),
                  (nextarg-Keeps rest _ (λ next. jumps (same-IsPass p refl refl refl refl)), tt),
                ),
              ),
            ),
          ),
        ),
      )
      leaves

pub wait_arg-Keeps :
    (arg : List ℕ) (rest : List (List ℕ)) {st : PassOpts}
    → IsPass pass_subcmd_wait st
    → Keeps (IsPass pass_subcmd_wait) (wait_arg arg rest st)
unfolding wait_arg
wait_arg-Keeps arg rest {st} p =
    choose-Keeps arg _ (next_uint-Keeps rest _ (lookback-IsPass p), tt) leaves
