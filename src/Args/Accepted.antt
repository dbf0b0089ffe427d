-- ===== src/Args/Accepted.antt =====
-- Proofs on the options that getargs accepts (main.c).
use sexpect.Base.{
  ℕ, ◌^◌, ◌<◌, ◌≤◌, Bool, true, false, Option, none, some, List, [], ◌∷◌, ◌||◌, if◌then◌else◌, ltb,
  ◌==◌, arith, str1of, inl, inr, Bool-cases,
}
use sexpect.Base.Int.{ℤ, pos, negsuc}
use sexpect.Tags.{pass_subcmd_expect, pass_subcmd_interact, pass_subcmd_wait}
use sexpect.Args.Result.{ok}
use sexpect.Args.Options.{
  Command, expect, interact, wait, expect_out, get, kill, set, spawn, chkerr, SetOpts, GetOpts,
}
use sexpect.Args.Signal.{name2sig, find_signal, strcaseeq, signal_names, long_name}
use sexpect.Args.Step.{is_option}
use sexpect.Args.Other.{
  true_words, false_words, next_bool, set_arg, max_peek, peek, get_one, get_arg, kill_arg,
  kill_option, kill_name, kill_number, dash_number, behind_dash,
}
use sexpect.Args.Keep.{
  Keeps, goes, jumps, leaves, Keeps-if, nextarg-Keeps, arg2int-Keeps, arg2uint-Keeps,
  next_int-Keeps, choose-Keeps,
}
use sexpect.Args.PassNumbers.{
  IsPass, IsLimit, IsSeconds, at_least_minus_one-IsLimit, at_least_zero-IsSeconds,
}
use sexpect.Args.StartNumbers.{IsInt, IsSpawning, IsCode}

-- The numbers of `set`.
pub record IsSettings (st : SetOpts) : Type 0 where
  pub timeout : IsLimit st.timeout
  pub ttl : IsSeconds st.ttl
  pub idle : IsSeconds st.idle

next_bool-Keeps :
    {A : Type 0} {P : A → Type 0} (rest : List (List ℕ)) (f : Bool → A)
    → ((b : Bool) → P (f b))
    → Keeps P (next_bool rest f)
unfolding next_bool
next_bool-Keeps rest f h = nextarg-Keeps rest _ λ next.
    Keeps-if (str1of next true_words) (jumps (h true))
      (Keeps-if (str1of next false_words) (jumps (h false)) leaves)

pub set_arg-Keeps :
    (arg : List ℕ) (rest : List (List ℕ)) {st : SetOpts}
    → IsSettings st
    → Keeps IsSettings (set_arg arg rest st)
unfolding set_arg
set_arg-Keeps arg rest {st} p =
    choose-Keeps arg _
      (
        next_bool-Keeps rest (λ b. record st { set_autowait = true; autowait = b })
            (λ b. record { timeout = p.timeout; ttl = p.ttl; idle = p.idle }),
        (
          next_bool-Keeps rest (λ b. record st { set_nonblock = true; nonblock = b })
              (λ b. record { timeout = p.timeout; ttl = p.ttl; idle = p.idle }),
          (
            next_int-Keeps rest _ (λ n e. record {
              timeout = at_least_minus_one-IsLimit n e;
              ttl = p.ttl;
              idle = p.idle;
            }),
            (
              next_int-Keeps rest _ (λ n e. record {
                timeout = p.timeout;
                ttl = at_least_zero-IsSeconds n e;
                idle = p.idle;
              }),
              (
                next_int-Keeps rest _ (λ n e. record {
                  timeout = p.timeout;
                  ttl = p.ttl;
                  idle = at_least_zero-IsSeconds n e;
                }),
                tt,
              ),
            ),
          ),
        ),
      )
      leaves

-- The number of bytes that `get -expect-buffer` shows.
pub record IsGet (st : GetOpts) : Type 0 where
  pub shown : st.n_expbuf ≤ max_peek

pub get_arg-Keeps :
    (arg : List ℕ) (rest : List (List ℕ)) {st : GetOpts}
    → IsGet st
    → Keeps IsGet (get_arg arg rest st)
unfolding get_arg get_one
get_arg-Keeps arg rest {st} p = Keeps-if st.got_one leaves (
    choose-Keeps arg _ (goes (record { shown = p.shown }), tt)
      (choose-Keeps arg _
        (
          goes (record { shown = p.shown }),
          (
            goes (record { shown = p.shown }),
            (
              goes (record { shown = p.shown }),
              (
                goes (record { shown = p.shown }),
                (
                  goes (record { shown = p.shown }),
                  (
                    goes (record { shown = p.shown }),
                    (
                      goes (record { shown = p.shown }),
                      (
                        goes (record { shown = p.shown }),
                        (
                          nextarg-Keeps rest _ (λ next.
                              arg2int-Keeps next
                                (peek (record st { got_one = true; get_all = false }))
                                (λ n e.
                                  shows (record st { got_one = true; get_all = false }) n p.shown)
                                (λ code. leaves)),
                          tt,
                        ),
                      ),
                    ),
                  ),
                ),
              ),
            ),
          ),
        )
        leaves))
  where
    shows : (o : GetOpts) (n : ℤ) → o.n_expbuf ≤ max_peek → Keeps IsGet (peek o (ok n))
    shows o (pos n) h = elim (Bool-cases ((n == 0) || ltb max_peek n)) [
      | inl e ↦ rw e leaves
      | inr e ↦ rw e (jumps (record { shown = ground arith }))
    ]
    shows o (negsuc n) h = leaves

-- What a name stands for, if anything.
abbrev IsSmall : Option ℕ → Type 0
IsSmall none = Unit
IsSmall (some n) = n < 2 ^ 31

find_signal-IsSmall :
    (number : List ℕ → ℕ) (names : List (List ℕ)) (longname : List ℕ)
    → ((name : List ℕ) → number name < 2 ^ 31)
    → IsSmall (find_signal number names longname)
unfolding find_signal
find_signal-IsSmall number [] longname h = tt
find_signal-IsSmall number (name ∷ names) longname h =
    pick (strcaseeq name longname) _ (find_signal-IsSmall number names longname h)
  where
    pick : (b : Bool) (r : Option ℕ) → IsSmall r → IsSmall (if b then some (number name) else r)
    pick true r k = h name
    pick false r k = k

pub kill_arg-Keeps :
    (number : List ℕ → ℕ) (arg : List ℕ) (rest : List (List ℕ)) (signal : ℤ)
    → ((name : List ℕ) → number name < 2 ^ 31)
    → Keeps IsInt (kill_arg number arg rest signal)
unfolding kill_arg name2sig
kill_arg-Keeps number arg rest signal h = option (dash_number arg)
  where
    named : (r : Option ℕ) → IsSmall r → Keeps IsInt (kill_name r)
    named none k = leaves
    named (some n) k = goes (ground arith)

    option : (r : Option ℕ) → Keeps IsInt (kill_option number arg r)
    option none =
        Keeps-if (is_option arg)
          (named (name2sig number (behind_dash arg))
            (find_signal-IsSmall number signal_names (long_name (behind_dash arg)) h))
          leaves
    option (some n) =
        arg2uint-Keeps (behind_dash arg) kill_number (λ n e. goes (ground arith)) (λ code. leaves)

-- The options between two arguments.
abbrev pub IsSound : Command → Type 0
IsSound (expect st) = IsPass pass_subcmd_expect st
IsSound (interact st) = IsPass pass_subcmd_interact st
IsSound (wait st) = IsPass pass_subcmd_wait st
IsSound (set st) = IsSettings st
IsSound (get st) = IsGet st
IsSound (kill signal) = IsInt signal
IsSound (expect_out index) = index < 2 ^ 31
IsSound (spawn st) = IsSpawning st
IsSound (chkerr st) = IsCode st
IsSound c = Unit
