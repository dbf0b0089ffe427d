-- ===== src/Pty/Open.antt =====
-- Opening a pseudo terminal, and the fork of the program that runs on it (pty.c, ptym_open,
-- ptys_open, pty_fork).
use sexpect.Base.{
  ℕ, ◌-◌, Bool, true, false, ◌||◌, Option, none, some, List, ◌==◌, if◌then◌else◌, take,
}
use sexpect.Base.Int.{ℤ, pos, negsuc}
use sexpect.System.{
  master, slave, Fork, failed, child, parent, Proc, Out, ok, fatal_sys, or_fatal, ◌>>=◌, open_fd,
  close_fd, dup2_or_fatal,
}

-- What the calls of one pty_fork return: posix_openpt, grantpt, unlockpt, ptsname and fork, and in
-- the child setsid, open, tcsetattr, the size's ioctl and the three calls of dup2.
pub record PtyCalls : Type 0 where
  pub openpt : Option ℕ
  pub granted : Bool
  pub unlocked : Bool
  pub ptsname : Option (List ℕ)
  pub fork : Fork
  pub setsid : Bool
  pub open_slave : Option ℕ
  pub set_termios : Bool
  pub set_winsize : Bool
  pub dup_in : Bool
  pub dup_out : Bool
  pub dup_err : Bool

-- What snprintf writes into `size` bytes.
abbrev pub snprintf : ℕ → List ℕ → List ℕ
snprintf size text = take (size - 1) text

-- What ptym_open returns, the name it wrote, and the process.
pub record Opened : Type 0 where
  pub result : ℤ
  pub name : List ℕ
  pub proc : Proc

module _ (c : PtyCalls) (size : ℕ) where
  abbrev pub named : ℕ → List ℕ → Option (List ℕ) → Proc → Opened
  named fdm ptmx none p = record { result = negsuc 3; name = ptmx; proc = close_fd fdm p }
  named fdm ptmx (some text) p = record { result = pos fdm; name = snprintf size text; proc = p }

  abbrev pub unlocked : ℕ → List ℕ → Proc → Opened
  unlocked fdm ptmx p =
      if c.unlocked
      then named fdm ptmx c.ptsname p
      else record { result = negsuc 2; name = ptmx; proc = close_fd fdm p }

  abbrev pub granted : Option ℕ → List ℕ → Proc → Opened
  granted none ptmx p = record { result = negsuc 0; name = ptmx; proc = p }
  granted (some fdm) ptmx p =
      if c.granted
      then unlocked fdm ptmx (open_fd fdm master p)
      else record { result = negsuc 1; name = ptmx; proc = close_fd fdm (open_fd fdm master p) }

-- ptym_open. `name` starts as "/dev/ptmx".
unfoldable pub ptym_open : PtyCalls → ℕ → Proc → Opened
ptym_open c size p = granted c size c.openpt (snprintf size (sexpect.Base.codes "/dev/ptmx")) p

abbrev pub slave_opened : Option ℕ → Proc → ℤ × Proc
slave_opened none p = (negsuc 4, p)
slave_opened (some fds) p = (pos fds, open_fd fds slave p)

-- ptys_open
abbrev pub ptys_open : PtyCalls → Proc → ℤ × Proc
ptys_open c p = slave_opened c.open_slave p

-- What pty_fork returns; the parent is given the master.
pub data Forked : Type 0 where
  fork_failed in_child : Forked
  in_parent : (pid fdm : ℕ) → Forked

abbrev pub became_leader : Proc → Proc
became_leader p = record p { leads = true }

-- The slave's size.
abbrev pub sized : PtyCalls → Option (ℕ × ℕ) → Proc → Out Proc
sized c none p = ok p
sized c (some ws) p = if c.set_winsize then ok (record p { winsize = some ws }) else fatal_sys p

-- The child's calls behind ptys_open. `termios` and `winsize` say whether pty_fork was given them.
abbrev pub on_slave : PtyCalls → ℕ → Bool → Option (ℕ × ℕ) → ℤ × Proc → Out Proc
on_slave c fdm termios winsize (negsuc e, p) = fatal_sys p
on_slave c fdm termios winsize (pos fds, p) = do
  p1 ← or_fatal (if termios then c.set_termios else true) (close_fd fdm p)
  p2 ← sized c winsize p1
  p3 ← dup2_or_fatal c.dup_in fds 0 p2
  p4 ← dup2_or_fatal c.dup_out fds 1 p3
  p5 ← dup2_or_fatal c.dup_err fds 2 p4
  ok (if fds == 0 || (fds == 1 || fds == 2) then p5 else close_fd fds p5)

abbrev pub in_new_session : PtyCalls → ℕ → Bool → Option (ℕ × ℕ) → Proc → Out Proc
in_new_session c fdm termios winsize p =
    or_fatal c.setsid (if c.setsid then became_leader p else p) >>= λ q.
    on_slave c fdm termios winsize (ptys_open c q)

abbrev pub forked : PtyCalls → ℕ → Bool → Option (ℕ × ℕ) → Fork → Proc → Out (Forked × Proc)
forked c fdm termios winsize failed p = ok (fork_failed, p)
forked c fdm termios winsize (parent pid) p = ok (in_parent pid fdm, p)
forked c fdm termios winsize child p =
    in_new_session c fdm termios winsize p >>= λ q. ok (in_child, q)

abbrev pub forked_if :
    PtyCalls → ℕ → Bool → Option (ℕ × ℕ) → Opened → ℤ → Out (List ℕ × (Forked × Proc))
forked_if c namesz termios winsize o (negsuc e) = fatal_sys o.proc
forked_if c namesz termios winsize o (pos fdm) =
    forked c fdm termios winsize c.fork o.proc >>= λ r. ok (snprintf namesz o.name, r)

abbrev pub opened : PtyCalls → ℕ → Bool → Option (ℕ × ℕ) → Opened → Out (List ℕ × (Forked × Proc))
opened c namesz termios winsize o = forked_if c namesz termios winsize o o.result

-- pty_fork: the slave's name, the result and the process. The name passes an array of 32 bytes.
unfoldable pub pty_fork :
    PtyCalls → ℕ → Bool → Option (ℕ × ℕ) → Proc → Out (List ℕ × (Forked × Proc))
unfolding ptym_open
pty_fork c namesz termios winsize p = opened c namesz termios winsize (ptym_open c 32 p)
