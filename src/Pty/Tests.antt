-- ===== src/Pty/Tests.antt =====
-- Pseudo terminals at concrete inputs.
use sexpect.Base.{◌≡◌, refl, true, false, none, some, [], ◌∷◌, ◌==◌, if◌then◌else◌, codes, arith}
use sexpect.System.{other, absent, child, Proc}
use sexpect.Pty.Tty.{Termios, cs7, Tty, Driver, tty_raw, tty_reset}
use sexpect.Pty.Raw.{RawOrSame, tty_raw-RawOrSame, tty_reset-tty_raw}
use sexpect.Pty.Open.{PtyCalls}
use sexpect.Pty.Slave.{GivesFree}

-- A terminal as a shell leaves it, with seven bits per character.
abbrev cooked : Termios
cooked = record {
  echo = true;
  icanon = true;
  iexten = true;
  isig = true;
  brkint = true;
  icrnl = true;
  inpck = false;
  istrip = true;
  ixon = true;
  csize = cs7;
  parenb = true;
  opost = true;
  vmin = 4;
  vtime = 2;
  others = 3 ∷ 28 ∷ [];
}

abbrev shell_tty : Tty
shell_tty = record { settings = cooked; gets = [] }

-- A driver that makes every change.
abbrev obedient : Driver
obedient now wanted = some wanted

-- One that never turns the signal characters off, and reports success.
abbrev keeps_signals : Driver
keeps_signals now wanted = some (record wanted { isig = now.isig })

keeps_signals_fails : (tty_raw keeps_signals shell_tty).ok ≡ false
unfolding tty_raw
keeps_signals_fails = refl

keeps_signals_restores : (tty_raw keeps_signals shell_tty).tty.settings ≡ cooked
unfolding tty_raw
keeps_signals_restores = refl

tty_raw-RawOrSame_example : RawOrSame cooked (tty_raw obedient shell_tty)
tty_raw-RawOrSame_example = tty_raw-RawOrSame obedient shell_tty (λ now. refl)

tty_reset-tty_raw_example :
    (((tty_reset obedient cooked (tty_raw obedient shell_tty).tty).0).settings ≡ cooked)
    × ((tty_reset obedient cooked (tty_raw obedient shell_tty).tty).1 ≡ true)
tty_reset-tty_raw_example =
    tty_reset-tty_raw obedient shell_tty cooked (λ now. refl) (unfold tty_raw in refl)
      (unfold tty_raw in refl)

-- A process with three descriptors.
abbrev shell : Proc
shell = record {
  table = λ n.
      if n == 0
      then some (other 0)
      else if n == 1
      then some (other 1)
      else if n == 2
      then some (other 2)
      else none;
  disk = λ q. absent;
  at_root = false;
  umask = 18;
  leads = false;
  winsize = none;
  sighup_ignored = false;
  sigpipe_ignored = false;
  sigchld_handled = false;
  term = none;
  sockfile_set = false;
}

abbrev calls : PtyCalls
calls = record {
  openpt = some 3;
  granted = true;
  unlocked = true;
  ptsname = some (codes "/dev/pts/7");
  fork = child;
  setsid = true;
  open_slave = some 4;
  set_termios = true;
  set_winsize = true;
  dup_in = true;
  dup_out = true;
  dup_err = true;
}

calls-GivesFree : GivesFree calls shell.table
calls-GivesFree = record {
  master_free = λ fdm e. ground arith;
  slave_free = λ fds e. ground arith;
  apart = λ fdm fds e f. ground arith;
}
