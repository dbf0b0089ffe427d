-- ===== src/Pty/Slave.antt =====
-- Proofs on opening a pseudo terminal and on pty_fork (pty.c).
use sexpect.Base.{
  ℕ, ◌≤◌, ◌≡◌, ◌≢◌, refl, Bool, true, false, Option, none, some, List, ◌==◌, if◌then◌else◌, arith,
  Bool-cases, inl, inr, ◌||◌, ==_iff, ap, ◌∙◌, ◌<◌,
}
use sexpect.Base.Int.{ℤ, pos, negsuc}
use sexpect.System.{
  File, master, slave, Fork, failed, child, parent, Proc, ok, open_fd, close_fd, ◌>>=◌, with_file,
  dup2_or_fatal, or_fatal, IfOk, came, ended, Holds-bind,
}
use sexpect.Pty.Open.{
  PtyCalls, named, unlocked, granted, ptym_open, Forked, fork_failed, in_child, in_parent, on_slave,
  sized, slave_opened, became_leader, snprintf, in_new_session, forked, opened, pty_fork,
}

-- What ptym_open does to the descriptors.
abbrev pub OneMore : ℤ → (ℕ → Option File) → (ℕ → Option File) → Type 0
OneMore (negsuc e) before after = (n : ℕ) → after n ≡ before n
OneMore (pos fdm) before after = (n : ℕ) → after n ≡ (if n == fdm then some master else before n)

-- The number that open gives was free.
abbrev pub IsFree : Option ℕ → (ℕ → Option File) → Type 0
IsFree none table = Unit
IsFree (some fd) table = table fd ≡ none

-- A descriptor that was free is as before once it is closed.
closed_again :
    (table : ℕ → Option File) (fd n : ℕ) (file : Option File)
    → table fd ≡ none
    → with_file fd none (with_file fd file table) n ≡ table n
closed_again table fd n file free = elim (Bool-cases (n == fd)) [
  | inl e ↦ let same : table n ≡ none = ap table ((==_iff n fd).0 e) ∙ free in rw (e, same) refl
  | inr e ↦ rw e refl
]

module _ (c : PtyCalls) (size : ℕ) (ptmx : List ℕ) (p : Proc) where
  named-OneMore :
      (fdm : ℕ) (name : Option (List ℕ))
      → p.table fdm ≡ none
      → (let o = named c size fdm ptmx name (open_fd fdm master p) in
          OneMore o.result p.table o.proc.table)
  named-OneMore fdm none free = λ n. closed_again p.table fdm n (some master) free
  named-OneMore fdm (some text) free = λ n. refl

  unlocked-OneMore :
      (fdm : ℕ)
      → p.table fdm ≡ none
      → (let o = unlocked c size fdm ptmx (open_fd fdm master p) in
          OneMore o.result p.table o.proc.table)
  unlocked-OneMore fdm free = elim (Bool-cases c.unlocked) [
    | inl e ↦ rw e (named-OneMore fdm c.ptsname free)
    | inr e ↦ rw e (λ n. closed_again p.table fdm n (some master) free)
  ]

  granted-OneMore :
      (openpt : Option ℕ)
      → IsFree openpt p.table
      → (let o = granted c size openpt ptmx p in OneMore o.result p.table o.proc.table)
  granted-OneMore none free = λ n. refl
  granted-OneMore (some fdm) free = elim (Bool-cases c.granted) [
    | inl e ↦ rw e (unlocked-OneMore fdm free)
    | inr e ↦ rw e (λ n. closed_again p.table fdm n (some master) free)
  ]

-- ptym_open adds the master to the descriptors where it returns it, and leaves none open behind
-- any of its errors, if posix_openpt gives a number that was free.
pub ptym_open-OneMore :
    (c : PtyCalls) (size : ℕ) (p : Proc)
    → IsFree c.openpt p.table
    → OneMore (ptym_open c size p).result p.table (ptym_open c size p).proc.table
unfolding ptym_open
ptym_open-OneMore c size p free = granted-OneMore c size _ p c.openpt free

-- The program on the slave: its standard descriptors, and what else it has from before.
pub record OnSlave (before : ℕ → Option File) (after : ℕ → Option File) : Type 0 where
  pub stdin : after 0 ≡ some slave
  pub stdout : after 1 ≡ some slave
  pub stderr : after 2 ≡ some slave
  pub others : (n : ℕ) → 3 ≤ n → after n ≡ before n

-- The three calls of dup2, and the descriptor that is closed behind them.
module _ (before : ℕ → Option File) (fdm fds : ℕ) (free_m : before fdm ≡ none)
    (free_s : before fds ≡ none) (apart : fds ≢ fdm) where
  abbrev lent : ℕ → Option File
  lent = with_file fdm none (with_file fds (some slave) (with_file fdm (some master) before))

  -- The table behind each call of dup2.
  abbrev one : ℕ → Option File
  one = with_file 0 (lent fds) lent

  abbrev two : ℕ → Option File
  two = with_file 1 (one fds) one

  abbrev three : ℕ → Option File
  three = with_file 2 (two fds) two

  lent-fds : lent fds ≡ some slave
  lent-fds = ground arith

  one-fds : one fds ≡ some slave
  one-fds = ground (arith, lent-fds)

  two-fds : two fds ≡ some slave
  two-fds = ground (arith, one-fds)

  lent-others : (n : ℕ) → n ≢ fds → lent n ≡ before n
  lent-others n h = ground (arith, ap before {x = n} {y = fdm})

  closed_slave : (n : ℕ) → 3 ≤ n → with_file fds none three n ≡ before n
  closed_slave n h = ground (arith, lent-others n, ap before {x = n} {y = fds})

  kept_slave : fds < 3 → (n : ℕ) → 3 ≤ n → three n ≡ before n
  kept_slave low n h = ground (arith, lent-others n)

  standard : (n : ℕ) → n < 3 → three n ≡ some slave
  standard n h = ground (arith, lent-fds, one-fds, two-fds)

  finished :
      (p : Proc)
      → p.table ≡ three
      → OnSlave before (if fds == 0 || (fds == 1 || fds == 2) then p else close_fd fds p).table
  finished p e = elim (Bool-cases (fds == 0 || (fds == 1 || fds == 2))) [
    | inl low ↦
        rw (low, e)
          (record {
            stdin = standard 0 (omega arith);
            stdout = standard 1 (omega arith);
            stderr = standard 2 (omega arith);
            others = kept_slave (ground arith);
          })
    | inr high ↦
        rw (high, e)
          (record {
            stdin = ground (arith, standard 0 (omega arith));
            stdout = ground (arith, standard 1 (omega arith));
            stderr = ground (arith, standard 2 (omega arith));
            others = closed_slave;
          })
  ]

or_fatal-table :
    (b : Bool) {t : ℕ → Option File} (p : Proc)
    → p.table ≡ t
    → IfOk (λ q. q.table ≡ t) (or_fatal b p)
or_fatal-table true p e = came e
or_fatal-table false p e = ended tt

dup2-table :
    (b : Bool) (fd onto : ℕ) {t : ℕ → Option File} (p : Proc)
    → p.table ≡ t
    → IfOk (λ q. q.table ≡ with_file onto (t fd) t) (dup2_or_fatal b fd onto p)
dup2-table true fd onto p e = came (ap (λ u. with_file onto (u fd) u) e)
dup2-table false fd onto p e = ended tt

sized-table :
    (c : PtyCalls) (ws : Option (ℕ × ℕ)) {t : ℕ → Option File} (p : Proc)
    → p.table ≡ t
    → IfOk (λ q. q.table ≡ t) (sized c ws p)
sized-table c none p e = came e
sized-table c (some ws) p e = elim (Bool-cases c.set_winsize) [
  | inl set ↦ rw set (came e)
  | inr kept ↦ rw kept (ended tt)
]

-- What the child has of the descriptors when pty_fork returns there.
module _ (c : PtyCalls) (fdm : ℕ) (termios : Bool) (ws : Option (ℕ × ℕ)) where
  on_slave-OnSlave :
      (before : ℕ → Option File) (fds : ℕ) (p : Proc)
      → before fdm ≡ none
      → before fds ≡ none
      → fds ≢ fdm
      → p.table ≡ with_file fds (some slave) (with_file fdm (some master) before)
      → IfOk (λ q. OnSlave before q.table) (on_slave c fdm termios ws (pos fds, p))
  on_slave-OnSlave before fds p free_m free_s apart e =
      Holds-bind (or_fatal (if termios then c.set_termios else true) (close_fd fdm p))
        (or_fatal-table _ (close_fd fdm p) (ap (with_file fdm none) e))
        λ p1 e1. Holds-bind (sized c ws p1) (sized-table c ws p1 e1) λ p2 e2.
          Holds-bind (dup2_or_fatal c.dup_in fds 0 p2) (dup2-table c.dup_in fds 0 p2 e2) λ p3 e3.
            Holds-bind (dup2_or_fatal c.dup_out fds 1 p3) (dup2-table c.dup_out fds 1 p3 e3)
              λ p4 e4.
                Holds-bind (dup2_or_fatal c.dup_err fds 2 p4) (dup2-table c.dup_err fds 2 p4 e4)
                  λ p5 e5. came (finished before fdm fds free_m free_s apart p5 e5)

-- The descriptors where pty_fork returns: in the child, and in the parent.
abbrev pub HasTable : (ℕ → Option File) → List ℕ × (Forked × Proc) → Type 0
HasTable before (name, (fork_failed, q)) = Unit
HasTable before (name, (in_child, q)) = OnSlave before q.table
HasTable before (name, (in_parent pid fdm, q)) =
    (n : ℕ) → q.table n ≡ (if n == fdm then some master else before n)

renamed :
    (table : ℕ → Option File) (name other : List ℕ) (f : Forked) (q : Proc)
    → HasTable table (name, (f, q))
    → HasTable table (other, (f, q))
renamed table name other fork_failed q h = h
renamed table name other in_child q h = h
renamed table name other (in_parent pid fdm) q h = h

-- The numbers that posix_openpt and open give are free.
pub record GivesFree (c : PtyCalls) (table : ℕ → Option File) : Type 0 where
  pub master_free : (fdm : ℕ) → c.openpt ≡ some fdm → table fdm ≡ none
  pub slave_free : (fds : ℕ) → c.open_slave ≡ some fds → table fds ≡ none
  pub apart : (fdm fds : ℕ) → c.openpt ≡ some fdm → c.open_slave ≡ some fds → fds ≢ fdm

module _ (c : PtyCalls) (termios : Bool) (ws : Option (ℕ × ℕ)) (p : Proc)
    (free : GivesFree c p.table) where
  module _ (fdm : ℕ) (given : c.openpt ≡ some fdm) where
    slave_opened-OnSlave :
        (o : Option ℕ) (q : Proc)
        → c.open_slave ≡ o
        → q.table ≡ with_file fdm (some master) p.table
        → IfOk (λ r. OnSlave p.table r.table) (on_slave c fdm termios ws (slave_opened o q))
    slave_opened-OnSlave none q e t = ended tt
    slave_opened-OnSlave (some fds) q e t =
        on_slave-OnSlave c fdm termios ws p.table fds (open_fd fds slave q)
          (free.master_free fdm given) (free.slave_free fds e) (free.apart fdm fds given e)
          (ap (with_file fds (some slave)) t)

    in_new_session-OnSlave :
        (setsid : Bool)
        → c.setsid ≡ setsid
        → IfOk
            (λ r. OnSlave p.table r.table)
            (in_new_session c fdm termios ws (open_fd fdm master p))
    in_new_session-OnSlave true e =
        rw e (slave_opened-OnSlave c.open_slave (became_leader (open_fd fdm master p)) refl refl)
    in_new_session-OnSlave false e = rw e (ended tt)

    forked-HasTable :
        (namesz : ℕ) (name : List ℕ) (f : Fork)
        → IfOk
            (HasTable p.table)
            (forked c fdm termios ws f (open_fd fdm master p) >>= λ r. ok (snprintf namesz name, r))
    forked-HasTable namesz name failed = came tt
    forked-HasTable namesz name (parent pid) = came (λ n. refl)
    forked-HasTable namesz name child =
        Holds-bind
          (in_new_session c fdm termios ws (open_fd fdm master p) >>= λ q. ok (in_child, q))
          (Holds-bind {R = λ r. HasTable p.table (name, r)}
            (in_new_session c fdm termios ws (open_fd fdm master p))
            (in_new_session-OnSlave c.setsid refl) (λ q h. came h))
          (λ r h. came (renamed p.table name (snprintf namesz name) r.0 r.1 h))

    named-HasTable :
        (namesz : ℕ) (ptmx : List ℕ) (name : Option (List ℕ))
        → (let o = named c 32 fdm ptmx name (open_fd fdm master p) in
            IfOk (HasTable p.table) (opened c namesz termios ws o))
    named-HasTable namesz ptmx none = ended tt
    named-HasTable namesz ptmx (some text) = forked-HasTable namesz (snprintf 32 text) c.fork

  granted-HasTable :
      (namesz : ℕ) (ptmx : List ℕ) (o : Option ℕ) (granted_ unlocked_ : Bool)
      → c.openpt ≡ o
      → c.granted ≡ granted_
      → c.unlocked ≡ unlocked_
      → IfOk (HasTable p.table) (opened c namesz termios ws (granted c 32 o ptmx p))
  granted-HasTable namesz ptmx none g u e eg eu = ended tt
  granted-HasTable namesz ptmx (some fdm) false u e eg eu = rw eg (ended tt)
  granted-HasTable namesz ptmx (some fdm) true false e eg eu = rw (eg, eu) (ended tt)
  granted-HasTable namesz ptmx (some fdm) true true e eg eu =
      rw (eg, eu) (named-HasTable fdm e namesz ptmx c.ptsname)

-- Where pty_fork returns in the child, its standard input, output and error are the slave, and
-- every other descriptor is as before: neither the master nor a second copy of the slave is left.
-- Where it returns in the parent, the master came to the descriptors and nothing else changed. The
-- numbers that posix_openpt and open give have to be free.
pub pty_fork-HasTable :
    (c : PtyCalls) (namesz : ℕ) (termios : Bool) (ws : Option (ℕ × ℕ)) (p : Proc)
    → GivesFree c p.table
    → IfOk (HasTable p.table) (pty_fork c namesz termios ws p)
unfolding pty_fork ptym_open
pty_fork-HasTable c namesz termios ws p free =
    granted-HasTable c termios ws p free namesz _ c.openpt c.granted c.unlocked refl refl refl
