-- ===== src/Args/Tests.antt =====
-- Command lines (main.c).
use sexpect.Base.{ℕ, ◌≡◌, refl, true, none, some, List, [], ◌∷◌, arith, codes, streq, str1of}
use sexpect.Base.Int.{pos}
use sexpect.Args.Options.{expect, no_pass}
use sexpect.Args.Result.{ok}
use sexpect.Args.Step.{choose}
use sexpect.Args.Scanned.{Gives}
use sexpect.Args.Finish.{Sys, absent, getargs}
use sexpect.Args.Runnable.{IsReady, getargs-IsRunnable}

abbrev sys : Sys
sys = record {
  signal_number = λ name. 15;
  getenv = λ name. none;
  stat = λ name. none;
  read_file = λ name limit. none;
  read_fd = λ fd limit. none;
  sock_file = λ path. absent;
}

-- sexpect -sock s expect -timeout 5 -exact '$ '
abbrev expect_prompt : List (List ℕ)
expect_prompt =
    codes "-sock"
    ∷ codes "s"
    ∷ codes "expect"
    ∷ codes "-timeout"
    ∷ codes "5"
    ∷ codes "-exact"
    ∷ codes "$ "
    ∷ []

getargs_lem :
    getargs sys expect_prompt
    ≡ ok (
      expect (record no_pass {
        subcmd = 1;
        no_input = true;
        has_timeout = true;
        timeout = pos 5;
        expflags = 1;
        pattern = some (codes "$ ");
      }),
      some (codes "s"),
    )
unfolding getargs choose str1of streq
getargs_lem = refl

getargs-IsRunnable_example : Gives IsReady (getargs sys expect_prompt)
getargs-IsRunnable_example = getargs-IsRunnable sys expect_prompt (λ name. omega arith)
