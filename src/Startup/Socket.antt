-- ===== src/Startup/Socket.antt =====
-- Proofs on the server's socket (server.c, serv_main).
use sexpect.Base.{
  ℕ, ◌≡◌, ◌≢◌, ◌⊎◌, refl, ap, ◌∙◌, Bool, true, false, Option, none, some, List, [], ◌∷◌, Bool-cases,
  inl, inr, streq, if◌then◌else◌, ltb, length, arith,
}
use sexpect.Tags.{error_sys, error_general}
use sexpect.System.{
  Entry, absent, log_file, with_entry, bound, Proc, End, exited, overflowed, Holds, came, ended,
  Holds-if,
}
use sexpect.Pty.Frame.{IsFrame}
use sexpect.Startup.Defs.{
  Calls, set_entry, sock_connect, unless_in_use, log_with, log_opened, unlinked, bind_mode,
  private_mask, bind_socket, start_listening,
}

pub streq_refl : (s : List ℕ) → streq s s ≡ true
unfolding streq
streq_refl [] = refl
streq_refl (x ∷ s) = ground (arith, streq_refl s)

-- The entry of the path `key` is `e`, and no other one changed.
pub record Has (key : List ℕ) (before : List ℕ → Entry) (e : Entry) (p : Proc) : Type 0 where
  pub mine : p.disk key ≡ e
  pub others : (q : List ℕ) → streq q key ≡ false → p.disk q ≡ before q
  pub started_here : p.at_root ≡ false

-- The same, wherever the process is, for one of the entries that serv_main can leave: that from
-- before, none, or a socket that its owner alone may use.
pub record Leaves (key : List ℕ) (before : List ℕ → Entry) (e : End) (p : Proc) : Type 0 where
  pub mine :
      (p.disk key ≡ before key)
      ⊎ ((p.disk key ≡ absent) ⊎ ((l : Bool) × (p.disk key ≡ bound 448 l)))
  pub others : (q : List ℕ) → streq q key ≡ false → p.disk q ≡ before q
  pub served : e ≡ exited 0 → p.disk key ≡ bound 448 true

private_socket : bind_mode private_mask ≡ 448
private_socket = refl

pub sys-ne-zero : exited error_sys ≢ exited 0
sys-ne-zero s = absurd (ground (arith, s))

module _ (c : Calls) (path : List ℕ) (before : List ℕ → Entry) where
  abbrev pub key : List ℕ
  key = c.names path

  abbrev pub Same : Proc → Type 0
  Same p = Has key before (before key) p

  pub set_entry-Has :
      (e : Entry) {e' e'' : Entry} (p : Proc)
      → e'' ≡ e'
      → Has key before e p
      → Has key before e' (set_entry c path e'' p)
  set_entry-Has e p same h = record {
    mine = rw (h.started_here, streq_refl key) same;
    others = λ q apart. rw (h.started_here, apart) (h.others q apart);
    started_here = h.started_here;
  }

  module _ {e : Entry} where
    pub Has-IsFrame : IsFrame (Has key before e)
    Has-IsFrame = record {
      table = λ p t h. record { mine = h.mine; others = h.others; started_here = h.started_here };
      session = λ p h. record { mine = h.mine; others = h.others; started_here = h.started_here };
      size = λ p ws h. record { mine = h.mine; others = h.others; started_here = h.started_here };
    }

  -- A failure leaves one of the three.
  pub failed-Leaves : (n : ℕ) (p : Proc) → n ≢ 0 → Same p → Leaves key before (exited n) p
  failed-Leaves n p h k = record {
    mine = inl k.mine;
    others = k.others;
    served = λ s. absurd (ground (arith, h, s));
  }

  no_socket-Leaves :
      (e : End) (p : Proc) → e ≢ exited 0 → Has key before absent p → Leaves key before e p
  no_socket-Leaves e p h k = record {
    mine = inr (inl k.mine);
    others = k.others;
    served = λ s. absurd (h s);
  }

  pub socket-Leaves :
      (e : End) (p : Proc) (l : Bool)
      → (e ≡ exited 0 → l ≡ true)
      → Has key before (bound 448 l) p
      → Leaves key before e p
  socket-Leaves e p l h k = record {
    mine = inr (inr (l, k.mine));
    others = k.others;
    served = λ s. k.mine ∙ ap (bound 448) (h s);
  }

  pub sock_connect-Same :
      (probe : Option ℕ) (p : Proc)
      → Same p
      → Holds (λ r. Same r.1) (Leaves key before) (sock_connect c probe p)
  sock_connect-Same none p h = ended (failed-Leaves error_sys p (λ e. absurd (omega (arith, e))) h)
  sock_connect-Same (some fd) p h = came (Has-IsFrame.table p _ h)

  pub unless_in_use-Same :
      (r : Option ℕ × Proc) → Same r.1 → Holds Same (Leaves key before) (unless_in_use r)
  unless_in_use-Same (none, p) h = came h
  unless_in_use-Same (some fd, p) h =
      ended (failed-Leaves error_general p (λ e. absurd (omega (arith, e))) h)

  -- Behind unlink the entry is still there, or gone.
  abbrev Unlinked : Proc → Type 0
  Unlinked p = Has key before absent p ⊎ Same p

  unlinked-Unlinked : (p : Proc) → Same p → Unlinked (unlinked c path p)
  unlinked-Unlinked p h = elim (Bool-cases c.unlinks) [
    | inl e ↦ rw e (inl (set_entry-Has (before key) p refl h))
    | inr e ↦ rw e (inr h)
  ]

  Unlinked-Leaves : (e : End) (p : Proc) → e ≢ exited 0 → Unlinked p → Leaves key before e p
  Unlinked-Leaves e p fails (inl h) = no_socket-Leaves e p fails h
  Unlinked-Leaves e p fails (inr h) = record {
    mine = inl h.mine;
    others = h.others;
    served = λ s. absurd (fails s);
  }

  masked : (p : Proc) → Unlinked p → Unlinked (record p { umask = private_mask })
  masked p (inl h) =
      inl (record { mine = h.mine; others = h.others; started_here = h.started_here })
  masked p (inr h) =
      inr (record { mine = h.mine; others = h.others; started_here = h.started_here })

  -- The socket as bind and listen leave it.
  pub record Bound (l : Bool) (p : Proc) : Type 0 where
    pub has : Has key before (bound 448 l) p
    pub mask : p.umask ≡ private_mask

  set_socket-Bound :
      (l : Bool) {e : Entry} (p : Proc)
      → Has key before e p
      → p.umask ≡ private_mask
      → Bound l (set_entry c path (bound (bind_mode p.umask) l) p)
  set_socket-Bound l {e} p h m = record {
    has = set_entry-Has e p (ap (λ mask. bound (bind_mode mask) l) m) h;
    mask = m;
  }

  bound-Bound :
      (p : Proc)
      → Unlinked p
      → p.umask ≡ private_mask
      → Bound false (set_entry c path (bound (bind_mode p.umask) false) p)
  bound-Bound p (inl gone) m = set_socket-Bound false p gone m
  bound-Bound p (inr there) m = set_socket-Bound false p there m

  pub bind_socket-Bound :
      (p : Proc) → Same p → Holds (Bound false) (Leaves key before) (bind_socket c path p)
  bind_socket-Bound p h =
      let q = unlinked c path p in
      let u = unlinked-Unlinked p h in
      let m = masked q u in
      Holds-if (ltb (length path) c.sun_path)
        (Holds-if c.binds (came (bound-Bound (record q { umask = private_mask }) m refl))
          (ended (Unlinked-Leaves (exited error_sys) _ sys-ne-zero m)))
        (ended (Unlinked-Leaves overflowed _ (λ s. absurd (ground (arith, s))) u))

  pub start_listening-Bound :
      (p : Proc) → Bound false p → Holds (Bound true) (Leaves key before) (start_listening c path p)
  start_listening-Bound p b =
      Holds-if c.listens (came (set_socket-Bound true p b.has b.mask))
        (ended (socket-Leaves (exited error_sys) p false (λ s. absurd (sys-ne-zero s)) b.has))

-- The files behind the opening of the log: where it was asked for without -append and opened, it
-- was created or emptied.
abbrev pub with_log : Calls → Bool → Option (List ℕ) → Option ℕ → (List ℕ → Entry) → List ℕ → Entry
with_log c append none opened disk = disk
with_log c append (some log) none disk = disk
with_log c append (some log) (some fd) disk =
    if append then disk else with_entry (c.names log) log_file disk

-- What was there before, at each path, and the log.
log_entry-Same :
    (c : Calls) (path log : List ℕ) (before : List ℕ → Entry) (p : Proc)
    → Same c path before p
    → Same c path (with_entry (c.names log) log_file before) (set_entry c log log_file p)
log_entry-Same c path log before p h = record {
  mine = rw h.started_here (entry (c.names path) h.mine);
  others = λ q apart. rw h.started_here (entry q (h.others q apart));
  started_here = h.started_here;
}
  where
    entry :
        (q : List ℕ)
        → p.disk q ≡ before q
        → with_entry (c.names log) log_file p.disk q ≡ with_entry (c.names log) log_file before q
    entry q e = elim (Bool-cases (streq q (c.names log))) [
      | inl same ↦ rw same refl
      | inr apart ↦ rw apart e
    ]

pub log_opened-Same :
    (c : Calls) (path : List ℕ) (before : List ℕ → Entry) (append : Bool) (o : Option (List ℕ))
    (p : Proc)
    → Same c path before p
    → Same c path (with_log c append o c.open_log before) (log_opened c append o p).1
log_opened-Same c path before append none p h = h
log_opened-Same c path before append (some log) p h = on c.open_log append
  where
    on :
        (opened : Option ℕ) (append : Bool)
        → Same c path
            (with_log c append (some log) opened before)
            (log_with c append log opened p).1
    on none append = h
    on (some fd) true = (Has-IsFrame c path before).table p _ h
    on (some fd) false =
        (Has-IsFrame c path (with_entry (c.names log) log_file before)).table _ _
          (log_entry-Same c path log before p h)
