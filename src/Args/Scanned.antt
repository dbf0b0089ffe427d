-- ===== src/Args/Scanned.antt =====
-- Proofs on the loop and the last checks of getargs (main.c).
use sexpect.Base.{
  ℕ, ◌^◌, ◌<◌, ◌≡◌, refl, Bool, true, false, Option, none, some, List, [], ◌∷◌, arith,
}
use sexpect.Args.Result.{Result, ok, exits, ◌>>=◌}
use sexpect.Args.Options.{
  Command, help, version, close, chkerr, expect, interact, wait, expect_out, get, kill, send, set,
  spawn, unknown, CmdOpts,
}
use sexpect.Args.Step.{Step, more, more_next, stop, quits, is_option}
use sexpect.Args.Other.{expout_arg, send_arg}
use sexpect.Args.Scan.{command, chosen, global_arg, mapped, command_arg, next_arg, go_on, scan}
use sexpect.Args.Keep.{
  Keeps, goes, jumps, ends, leaves, Keeps-if, choose-All, choose-Keeps, nextarg-Keeps,
  next_uint-Keeps,
}
use sexpect.Args.StartNumbers.{chkerr_arg-Keeps, spawn_arg-Keeps}
use sexpect.Args.Accepted.{IsSound, get_arg-Keeps, set_arg-Keeps, kill_arg-Keeps}
use sexpect.Args.PassNumbers.{expect_arg-Keeps, interact_arg-Keeps, wait_arg-Keeps}

-- A result, where there is one.
pub data Gives {ℓ} {A : Type ℓ} (P : A → Type 0) : Result A → Type ℓ where
  gives : {a : A} → P a → Gives P (ok a)
  quit : {code : ℕ} → Gives P (exits code)

pub Gives-bind :
    {A B : Type 0} {P : A → Type 0} {Q : B → Type 0} (r : Result A) {f : A → Result B}
    → Gives P r
    → ((a : A) → P a → Gives Q (f a))
    → Gives Q (r >>= f)
Gives-bind (ok a) (gives h) k = k a h
Gives-bind (exits code) quit k = quit

-- The options between two arguments, if there is a command.
abbrev pub IsBetween : Option Command → Type 0
IsBetween none = Unit
IsBetween (some c) = IsSound c

pub record Between (o : CmdOpts) : Type 0 where
  pub sound : IsBetween o.cmd

mapped-Keeps :
    {A B : Type 0} {P : A → Type 0} {Q : B → Type 0} (f : A → B) {s : Step A}
    → ((a : A) → P a → Q (f a))
    → Keeps P s
    → Keeps Q (mapped f s)
mapped-Keeps f h (goes p) = goes (h _ p)
mapped-Keeps f h (jumps p) = jumps (h _ p)
mapped-Keeps f h (ends p) = ends (h _ p)
mapped-Keeps f h leaves = leaves

-- Nothing is asked of the options.
mapped-any :
    {A B : Type 0} {Q : B → Type 0} (f : A → B) (s : Step A)
    → ((a : A) → Q (f a))
    → Keeps Q (mapped f s)
mapped-any f (more a) h = goes (h a)
mapped-any f (more_next a) h = jumps (h a)
mapped-any f (stop a) h = ends (h a)
mapped-any f (quits code) h = leaves

command-IsSound : (arg : List ℕ) → IsSound (command arg)
unfolding command
command-IsSound arg =
    choose-All IsSound arg _
      (
        refl,
        (
          tt,
          (
            record {
              sub = refl;
              timeout = omega arith;
              lookback = omega arith;
              flags = omega arith;
            },
            (
              omega arith,
              (
                record { shown = omega arith },
                (
                  record {
                    sub = refl;
                    timeout = omega arith;
                    lookback = omega arith;
                    flags = omega arith;
                  },
                  (
                    refl,
                    (
                      tt,
                      (
                        record { timeout = omega arith; ttl = omega arith; idle = omega arith },
                        (
                          record {
                            timeout = omega arith;
                            ttl = omega arith;
                            idle = omega arith;
                            zombie_idle = refl;
                          },
                          (
                            record {
                              sub = refl;
                              timeout = omega arith;
                              lookback = omega arith;
                              flags = omega arith;
                            },
                            tt,
                          ),
                        ),
                      ),
                    ),
                  ),
                ),
              ),
            ),
          ),
        ),
      )
      tt

global_arg-Keeps :
    (arg : List ℕ) (rest : List (List ℕ)) {o : CmdOpts}
    → Between o
    → Keeps Between (global_arg arg rest o)
unfolding global_arg
global_arg-Keeps arg rest {o} b =
    choose-Keeps arg _
      (
        goes (record { sound = tt }),
        (
          goes (record { sound = tt }),
          (
            goes (record { sound = b.sound }),
            (nextarg-Keeps rest _ (λ next. jumps (record { sound = b.sound })), tt),
          ),
        ),
      )
      (Keeps-if (is_option arg) leaves (goes (record { sound = command-IsSound arg })))

module _ (number : List ℕ → ℕ) (small : (name : List ℕ) → number name < 2 ^ 31) where
  command_arg-Keeps :
      (arg : List ℕ) (rest : List (List ℕ)) (c : Command)
      → IsSound c
      → Keeps IsSound (command_arg number arg rest c)
  command_arg-Keeps arg rest help s = leaves
  command_arg-Keeps arg rest version s = leaves
  command_arg-Keeps arg rest close s = leaves
  command_arg-Keeps arg rest (chkerr st) s =
      mapped-Keeps chkerr (λ a h. h) (chkerr_arg-Keeps arg rest st s)
  command_arg-Keeps arg rest (expect st) s =
      mapped-Keeps expect (λ a h. h) (expect_arg-Keeps arg rest s)
  command_arg-Keeps arg rest (interact st) s =
      mapped-Keeps interact (λ a h. h) (interact_arg-Keeps arg rest s)
  command_arg-Keeps arg rest (wait st) s = mapped-Keeps wait (λ a h. h) (wait_arg-Keeps arg rest s)
  command_arg-Keeps arg rest (expect_out index) s =
      mapped-Keeps expect_out (λ a h. h) (index_arg index)
    where
      index_arg : (i : ℕ) → Keeps (λ n. n < 2 ^ 31) (expout_arg arg rest i)
      index_arg i =
          unfold expout_arg in choose-Keeps arg _ (next_uint-Keeps rest _ (λ n e. e), tt) leaves
  command_arg-Keeps arg rest (get st) s = mapped-Keeps get (λ a h. h) (get_arg-Keeps arg rest s)
  command_arg-Keeps arg rest (kill signal) s =
      mapped-Keeps kill (λ a h. h) (kill_arg-Keeps number arg rest signal small)
  command_arg-Keeps arg rest (send st) s = mapped-any send (send_arg arg rest st) (λ a. tt)
  command_arg-Keeps arg rest (set st) s = mapped-Keeps set (λ a h. h) (set_arg-Keeps arg rest s)
  command_arg-Keeps arg rest (spawn st) s =
      mapped-Keeps spawn (λ a h. h) (spawn_arg-Keeps arg rest s)
  command_arg-Keeps arg rest (unknown word) s = goes tt

  next_arg-Keeps :
      (arg : List ℕ) (rest : List (List ℕ)) (o : CmdOpts) (c : Option Command)
      → o.cmd ≡ c
      → IsBetween c
      → Keeps Between (next_arg number arg rest o c)
  next_arg-Keeps arg rest o none e h = global_arg-Keeps arg rest (record { sound = rw e tt })
  next_arg-Keeps arg rest o (some c) e h =
      mapped-Keeps (chosen o) (λ a k. record { sound = k }) (command_arg-Keeps arg rest c h)

  go_on-Gives :
      (later : Bool → CmdOpts → Result CmdOpts) {s : Step CmdOpts}
      → ((used : Bool) (p : CmdOpts) → Between p → Gives Between (later used p))
      → Keeps Between s
      → Gives Between (go_on later s)
  go_on-Gives later h (goes {a = p} k) = h false p k
  go_on-Gives later h (jumps {a = p} k) = h true p k
  go_on-Gives later h (ends k) = gives k
  go_on-Gives later h leaves = quit

  pub scan-Gives :
      (skip : Bool) (args : List (List ℕ)) (o : CmdOpts)
      → Between o
      → Gives Between (scan number skip args o)
  unfolding scan
  scan-Gives skip [] o b = gives b
  scan-Gives true (arg ∷ rest) o b = scan-Gives false rest o b
  scan-Gives false (arg ∷ rest) o b =
      go_on-Gives (λ used p. scan number used rest p) (λ used p k. scan-Gives used rest p k)
        (next_arg-Keeps arg rest o o.cmd refl b.sound)
