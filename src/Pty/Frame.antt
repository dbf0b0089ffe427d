-- ===== src/Pty/Frame.antt =====
-- Proofs on what pty_fork leaves alone (pty.c).
use sexpect.Base.{
  ℕ, ◌≡◌, refl, Bool, true, false, Option, none, some, List, ◌||◌, ◌==◌, if◌then◌else◌, Bool-cases,
  inl, inr,
}
use sexpect.Base.Int.{ℤ, pos, negsuc}
use sexpect.Tags.{error_sys}
use sexpect.System.{
  File, master, Fork, failed, child, parent, Proc, End, exited, or_fatal, close_fd, open_fd,
  dup2_or_fatal, Holds, came, ended, Holds-bind,
}
use sexpect.Pty.Open.{
  PtyCalls, Opened, named, granted, ptym_open, slave_opened, ptys_open, became_leader, sized,
  on_slave, in_new_session, forked, forked_if, pty_fork,
}

-- A property of the process that its descriptors, its session and its terminal's size do not touch.
pub record IsFrame (I : Proc → Type 0) : Type 0 where
  pub table : (p : Proc) (t : ℕ → Option File) → I p → I (record p { table = t })
  pub session : (p : Proc) → I p → I (record p { leads = true })
  pub size : (p : Proc) (ws : Option (ℕ × ℕ)) → I p → I (record p { winsize = ws })

-- The process ended by fatal_sys.
abbrev pub Failed : (Proc → Type 0) → End → Proc → Type 0
Failed I e p = I p × (e ≡ exited error_sys)

module _ (I : Proc → Type 0) (fr : IsFrame I) where
  or_fatal-Frame : (b : Bool) (p : Proc) → I p → Holds I (Failed I) (or_fatal b p)
  or_fatal-Frame true p h = came h
  or_fatal-Frame false p h = ended (h, refl)

  dup2-Frame :
      (b : Bool) (fd onto : ℕ) (p : Proc) → I p → Holds I (Failed I) (dup2_or_fatal b fd onto p)
  dup2-Frame true fd onto p h = came (fr.table p _ h)
  dup2-Frame false fd onto p h = ended (h, refl)

  module _ (c : PtyCalls) where
    sized-Frame : (ws : Option (ℕ × ℕ)) (p : Proc) → I p → Holds I (Failed I) (sized c ws p)
    sized-Frame none p h = came h
    sized-Frame (some ws) p h = elim (Bool-cases c.set_winsize) [
      | inl set ↦ rw set (came (fr.size p (some ws) h))
      | inr kept ↦ rw kept (ended (h, refl))
    ]

    closed-Frame : (b : Bool) (fd : ℕ) (p : Proc) → I p → I (if b then p else close_fd fd p)
    closed-Frame true fd p h = h
    closed-Frame false fd p h = fr.table p _ h

    module _ (fdm : ℕ) (termios : Bool) (ws : Option (ℕ × ℕ)) where
      on_slave-Frame : (r : ℤ × Proc) → I r.1 → Holds I (Failed I) (on_slave c fdm termios ws r)
      on_slave-Frame (negsuc e, p) h = ended (h, refl)
      on_slave-Frame (pos fds, p) h =
          Holds-bind (or_fatal (if termios then c.set_termios else true) (close_fd fdm p))
            (or_fatal-Frame _ (close_fd fdm p) (fr.table p _ h))
            λ p1 h1. Holds-bind (sized c ws p1) (sized-Frame ws p1 h1) λ p2 h2.
              Holds-bind (dup2_or_fatal c.dup_in fds 0 p2) (dup2-Frame c.dup_in fds 0 p2 h2)
                λ p3 h3.
                  Holds-bind (dup2_or_fatal c.dup_out fds 1 p3) (dup2-Frame c.dup_out fds 1 p3 h3)
                    λ p4 h4.
                      Holds-bind (dup2_or_fatal c.dup_err fds 2 p4)
                        (dup2-Frame c.dup_err fds 2 p4 h4)
                        λ p5 h5. came (closed-Frame (fds == 0 || (fds == 1 || fds == 2)) fds p5 h5)

      slave_opened-Frame : (o : Option ℕ) (p : Proc) → I p → I (slave_opened o p).1
      slave_opened-Frame none p h = h
      slave_opened-Frame (some fds) p h = fr.table p _ h

      in_new_session-Frame :
          (p : Proc) → I p → Holds I (Failed I) (in_new_session c fdm termios ws p)
      in_new_session-Frame p h = elim (Bool-cases c.setsid) [
        | inl led ↦ rw led (
            on_slave-Frame (ptys_open c (became_leader p))
              (slave_opened-Frame c.open_slave (became_leader p) (fr.session p h)))
        | inr not_led ↦ rw not_led (ended (h, refl))
      ]

      forked-Frame :
          (f : Fork) (p : Proc) → I p → Holds (λ r. I r.1) (Failed I) (forked c fdm termios ws f p)
      forked-Frame failed p h = came h
      forked-Frame (parent pid) p h = came h
      forked-Frame child p h =
          Holds-bind (in_new_session c fdm termios ws p) (in_new_session-Frame p h) (λ q k. came k)

    forked_if-Frame :
        (namesz : ℕ) (termios : Bool) (ws : Option (ℕ × ℕ)) (o : Opened) (result : ℤ)
        → I o.proc
        → Holds (λ r. I r.1.1) (Failed I) (forked_if c namesz termios ws o result)
    forked_if-Frame namesz termios ws o (negsuc e) h = ended (h, refl)
    forked_if-Frame namesz termios ws o (pos fdm) h =
        Holds-bind (forked c fdm termios ws c.fork o.proc)
          (forked-Frame fdm termios ws c.fork o.proc h) (λ r k. came k)

    module _ (size : ℕ) (ptmx : List ℕ) where
      named-Frame :
          (fdm : ℕ) (name : Option (List ℕ)) (p : Proc)
          → I p
          → I (named c size fdm ptmx name p).proc
      named-Frame fdm none p h = fr.table p _ h
      named-Frame fdm (some text) p h = h

      granted-Frame : (o : Option ℕ) (p : Proc) → I p → I (granted c size o ptmx p).proc
      granted-Frame none p h = h
      granted-Frame (some fdm) p h = elim (Bool-cases c.granted) [
        | inr e ↦ rw e (fr.table (open_fd fdm master p) _ (fr.table p _ h))
        | inl e ↦ rw e (elim (Bool-cases c.unlocked) [
          | inr u ↦ rw u (fr.table (open_fd fdm master p) _ (fr.table p _ h))
          | inl u ↦ rw u (named-Frame fdm c.ptsname (open_fd fdm master p) (fr.table p _ h))
        ])
      ]

    -- pty_fork touches nothing but the descriptors, the session and the size, and ends the process
    -- by fatal_sys alone.
    pub pty_fork-Frame :
        (namesz : ℕ) (termios : Bool) (ws : Option (ℕ × ℕ)) (p : Proc)
        → I p
        → Holds (λ r. I r.1.1) (Failed I) (pty_fork c namesz termios ws p)
    unfolding pty_fork ptym_open
    pty_fork-Frame namesz termios ws p h =
        forked_if-Frame namesz termios ws (ptym_open c 32 p) (ptym_open c 32 p).result
          (granted-Frame 32 _ c.openpt p h)
