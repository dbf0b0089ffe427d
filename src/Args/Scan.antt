-- ===== src/Args/Scan.antt =====
-- The loop of getargs (main.c).
use sexpect.Base.{ℕ, Bool, true, false, Option, none, some, List, [], ◌∷◌, if◌then◌else◌, codes}
use sexpect.Base.Int.{ℤ, pos, negsuc}
use sexpect.Tags.{
  error_usage, pass_subcmd_expect, pass_subcmd_interact, pass_subcmd_wait, pass_expect_exit,
}
use sexpect.Args.Options.{
  Command, help, version, close, chkerr, expect, interact, wait, expect_out, get, kill, send, set,
  spawn, unknown, CmdOpts, PassOpts, no_pass, no_send, no_set, no_get, no_spawn,
}
use sexpect.Args.Result.{Result, ok, exits}
use sexpect.Args.Step.{choose, Step, more, more_next, stop, quits, unexpected, nextarg, is_option}
use sexpect.Args.Passing.{expect_arg, interact_arg, wait_arg}
use sexpect.Args.Other.{chkerr_arg, expout_arg, get_arg, kill_arg, send_arg, set_arg, spawn_arg}

-- PASS_DEF_TMOUT and PASS_DEF_ZOMBIE_TTL
abbrev pub pass_def_tmout : ℤ
pass_def_tmout = negsuc 0

abbrev pub pass_def_zombie_ttl : ℤ
pass_def_zombie_ttl = pos 86400

-- The options of `interact` and of `wait` to begin with.
abbrev pub until_exit : ℕ → Bool → PassOpts
until_exit subcmd no_input = record no_pass {
  subcmd = subcmd;
  no_input = no_input;
  has_timeout = true;
  timeout = negsuc 0;
  expflags = pass_expect_exit;
}

-- The command that a word names, with its options to begin with.
unfoldable pub command : List ℕ → Command
command arg =
    choose arg
      ((
        (codes "chkerr" ∷ codes "ckerr" ∷ codes "chk" ∷ codes "ck" ∷ codes "err" ∷ []),
        chkerr (record { errcode = negsuc 0; cmpto = none }),
      )
        ∷ ((codes "close" ∷ codes "c" ∷ []), close)
        ∷ (
          (codes "expect" ∷ codes "exp" ∷ codes "ex" ∷ codes "x" ∷ []),
          expect (record no_pass { subcmd = pass_subcmd_expect; no_input = true }),
        )
        ∷ ((codes "expect_out" ∷ codes "expout" ∷ codes "out" ∷ []), expect_out 0)
        ∷ ((codes "get" ∷ []), get (record no_get { get_all = true }))
        ∷ ((codes "interact" ∷ codes "i" ∷ []), interact (until_exit pass_subcmd_interact false))
        ∷ ((codes "kill" ∷ codes "k" ∷ []), kill (negsuc 0))
        ∷ ((codes "send" ∷ codes "s" ∷ []), send no_send)
        ∷ ((codes "set" ∷ []), set (record no_set { timeout = pass_def_tmout }))
        ∷ (
          (codes "spawn" ∷ codes "sp" ∷ codes "fork" ∷ []),
          spawn
              (record no_spawn { def_timeout = pass_def_tmout; zombie_idle = pass_def_zombie_ttl }),
        )
        ∷ ((codes "wait" ∷ codes "w" ∷ []), wait (until_exit pass_subcmd_wait true))
        ∷ [])
      (unknown arg)

abbrev pub chosen : CmdOpts → Command → CmdOpts
chosen o c = record o { cmd = some c }

-- An argument before the command.
unfoldable pub global_arg : List ℕ → List (List ℕ) → CmdOpts → Step CmdOpts
unfolding command
global_arg arg rest o =
    choose arg
      ((
        (codes "-h" ∷ codes "-help" ∷ codes "--help" ∷ codes "help" ∷ codes "h" ∷ []),
        more (chosen o help),
      )
        ∷ (
          (codes "-version" ∷ codes "--version" ∷ codes "version" ∷ codes "ver" ∷ codes "v" ∷ []),
          more (chosen o version),
        )
        ∷ ((codes "-debug" ∷ codes "-d" ∷ []), more (record o { debug = true }))
        ∷ (
          (codes "-sock" ∷ codes "-s" ∷ []),
          nextarg rest (λ next. more_next (record o { sockpath = some next })),
        )
        ∷ [])
      (if is_option arg then quits error_usage else more (chosen o (command arg)))

abbrev pub mapped {ℓ κ} : {A : Type ℓ} {B : Type κ} → (A → B) → Step A → Step B
mapped f (more a) = more (f a)
mapped f (more_next a) = more_next (f a)
mapped f (stop a) = stop (f a)
mapped f (quits code) = quits code

-- An argument of the command that was chosen. An unknown command takes any.
abbrev pub command_arg : (List ℕ → ℕ) → List ℕ → List (List ℕ) → Command → Step Command
command_arg number arg rest help = unexpected
command_arg number arg rest version = unexpected
command_arg number arg rest close = unexpected
command_arg number arg rest (chkerr st) = mapped chkerr (chkerr_arg arg rest st)
command_arg number arg rest (expect st) = mapped expect (expect_arg arg rest st)
command_arg number arg rest (interact st) = mapped interact (interact_arg arg rest st)
command_arg number arg rest (wait st) = mapped wait (wait_arg arg rest st)
command_arg number arg rest (expect_out index) = mapped expect_out (expout_arg arg rest index)
command_arg number arg rest (get st) = mapped get (get_arg arg rest st)
command_arg number arg rest (kill signal) = mapped kill (kill_arg number arg rest signal)
command_arg number arg rest (send st) = mapped send (send_arg arg rest st)
command_arg number arg rest (set st) = mapped set (set_arg arg rest st)
command_arg number arg rest (spawn st) = mapped spawn (spawn_arg arg rest st)
command_arg number arg rest (unknown word) = more (unknown word)

abbrev pub next_arg :
    (List ℕ → ℕ) → List ℕ → List (List ℕ) → CmdOpts → Option Command → Step CmdOpts
next_arg number arg rest o none = global_arg arg rest o
next_arg number arg rest o (some c) = mapped (chosen o) (command_arg number arg rest c)

abbrev pub go_on : (Bool → CmdOpts → Result CmdOpts) → Step CmdOpts → Result CmdOpts
go_on later (more o) = later false o
go_on later (more_next o) = later true o
go_on later (stop o) = ok o
go_on later (quits code) = exits code

-- The loop; `skip` says that the first argument was used by the one before it.
unfoldable pub scan : (List ℕ → ℕ) → Bool → List (List ℕ) → CmdOpts → Result CmdOpts
unfolding global_arg expect_arg interact_arg wait_arg chkerr_arg expout_arg get_arg kill_arg
    send_arg set_arg spawn_arg
scan number skip [] o = ok o
scan number true (arg ∷ rest) o = scan number false rest o
scan number false (arg ∷ rest) o =
    go_on (λ used p. scan number used rest p) (next_arg number arg rest o o.cmd)
