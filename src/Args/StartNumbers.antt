-- ===== src/Args/StartNumbers.antt =====
-- Proofs on the options of spawn and chkerr that getargs accepts (main.c).
use sexpect.Base.{ℕ, ◌≡◌, true, List, arith, subst, sym, refl}
use sexpect.Base.Int.{ℤ}
use sexpect.Args.Options.{ChkerrOpts, SpawnOpts}
use sexpect.Args.Number.{is_int}
use sexpect.Args.Step.{is_option, is_empty}
use sexpect.Args.Other.{spawn_arg, chkerr_arg}
use sexpect.Args.Keep.{
  Keeps, goes, jumps, leaves, ends, Keeps-if, nextarg-Keeps, next_int-Keeps, next_uint-Keeps,
  choose-Keeps,
}
use sexpect.Args.PassNumbers.{
  IsLimit, IsSeconds, at_least_minus_one-IsLimit, at_least_zero-IsSeconds,
}

abbrev pub IsInt : ℤ → Type 0
IsInt n = is_int n ≡ true

-- The numbers of `spawn`: `zombie_idle` may be any int.
pub record IsSpawning (st : SpawnOpts) : Type 0 where
  pub timeout : IsLimit st.def_timeout
  pub ttl : IsSeconds st.ttl
  pub idle : IsSeconds st.idle
  pub zombie_idle : IsInt st.zombie_idle

same-IsSpawning :
    {st st' : SpawnOpts}
    → st'.def_timeout ≡ st.def_timeout
    → st'.ttl ≡ st.ttl
    → st'.idle ≡ st.idle
    → st'.zombie_idle ≡ st.zombie_idle
    → IsSpawning st
    → IsSpawning st'
same-IsSpawning t l i z p = record {
  timeout = subst IsLimit (sym t) p.timeout;
  ttl = subst IsSeconds (sym l) p.ttl;
  idle = subst IsSeconds (sym i) p.idle;
  zombie_idle = subst IsInt (sym z) p.zombie_idle;
}

pub spawn_arg-Keeps :
    (arg : List ℕ) (rest : List (List ℕ)) {st : SpawnOpts}
    → IsSpawning st
    → Keeps IsSpawning (spawn_arg arg rest st)
unfolding spawn_arg
spawn_arg-Keeps arg rest {st} p =
    choose-Keeps arg _
      (
        goes (same-IsSpawning refl refl refl refl p),
        (
          goes (same-IsSpawning refl refl refl refl p),
          (
            goes (same-IsSpawning refl refl refl refl p),
            (
              goes (same-IsSpawning refl refl refl refl p),
              (
                nextarg-Keeps rest _ (λ next.
                    Keeps-if (is_empty next) leaves
                      (jumps (same-IsSpawning refl refl refl refl p))),
                (
                  next_int-Keeps rest _ (λ n e. record {
                    timeout = at_least_minus_one-IsLimit n e;
                    ttl = p.ttl;
                    idle = p.idle;
                    zombie_idle = p.zombie_idle;
                  }),
                  (
                    next_int-Keeps rest _ (λ n e. record {
                      timeout = p.timeout;
                      ttl = at_least_zero-IsSeconds n e;
                      idle = p.idle;
                      zombie_idle = p.zombie_idle;
                    }),
                    (
                      next_int-Keeps rest _ (λ n e. record {
                        timeout = p.timeout;
                        ttl = p.ttl;
                        idle = at_least_zero-IsSeconds n e;
                        zombie_idle = p.zombie_idle;
                      }),
                      (
                        nextarg-Keeps rest _
                            (λ next. jumps (same-IsSpawning refl refl refl refl p)),
                        (
                          goes (same-IsSpawning refl refl refl refl p),
                          (
                            next_int-Keeps rest _ (λ n e. record {
                              timeout = p.timeout;
                              ttl = p.ttl;
                              idle = p.idle;
                              zombie_idle = e;
                            }),
                            tt,
                          ),
                        ),
                      ),
                    ),
                  ),
                ),
              ),
            ),
          ),
        ),
      )
      (Keeps-if (is_option arg) leaves (ends (same-IsSpawning refl refl refl refl p)))

-- The code that `chkerr` compares with.
abbrev pub IsCode : ChkerrOpts → Type 0
IsCode st = IsInt st.errcode

pub chkerr_arg-Keeps :
    (arg : List ℕ) (rest : List (List ℕ)) (st : ChkerrOpts)
    → IsCode st
    → Keeps IsCode (chkerr_arg arg rest st)
unfolding chkerr_arg
chkerr_arg-Keeps arg rest st p =
    choose-Keeps arg _
      (next_uint-Keeps rest _ (λ n e. ground arith), (nextarg-Keeps rest _ (λ next. jumps p), tt))
      leaves
