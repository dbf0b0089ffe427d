-- ===== src/Startup/Listening.antt =====
-- Proofs on what serv_main leaves at the socket's path (server.c).
use sexpect.Base.{
  ℕ, ◌+◌, ◌≡◌, refl, Bool, true, false, ◌||◌, ◌==◌, Option, none, some, List, if◌then◌else◌, zero,
  suc, arith,
}
use sexpect.Tags.{error_sys}
use sexpect.System.{
  stream, Entry, bound, Fork, failed, child, parent, Proc, End, exited, value_or_fatal, open_fd,
  close_fd, Holds, came, ended, Holds-bind,
}
use sexpect.Startup.Defs.{
  Calls, bind_socket, start_listening, daemonize, nulled, close_others, is_fd, become_daemon,
  open_socket,
}
use sexpect.Startup.Socket.{
  Has, Leaves, Same, Bound, Has-IsFrame, failed-Leaves, socket-Leaves, bind_socket-Bound,
  start_listening-Bound, sys-ne-zero,
}

module _ (c : Calls) (path : List ℕ) (before : List ℕ → Entry) where
  abbrev pub Served : Proc → Type 0
  Served p = Has (c.names path) before (bound 448 true) p

  value-Holds :
      {A : Type 0} (P : Proc → Type 0) (o : Option A) (p : Proc)
      → P p
      → Leaves (c.names path) before (exited error_sys) p
      → Holds (λ a. P p × (o ≡ some a)) (Leaves (c.names path) before) (value_or_fatal o p)
  value-Holds P none p h q = ended q
  value-Holds P (some a) p h q = came (h, refl)

  -- The listening socket is there, and `full` is the path that realpath gave.
  abbrev pub Opened : Proc × (ℕ × (Option ℕ × List ℕ)) → Type 0
  Opened (p, (fd, (logfd, full))) = Served p × (c.realpath ≡ some full)

  pub open_socket-Opened :
      (r : Option ℕ × Proc)
      → Same c path before r.1
      → Holds Opened (Leaves (c.names path) before) (open_socket c path r)
  open_socket-Opened (logfd, p) h =
      Holds-bind (value_or_fatal c.socket p)
        (value-Holds (Same c path before) c.socket p h
          (failed-Leaves c path before error_sys p (λ e. absurd (omega (arith, e))) h))
        λ fd h1.
          Holds-bind (bind_socket c path (open_fd fd stream p))
            (bind_socket-Bound c path before (open_fd fd stream p)
              ((Has-IsFrame c path before).table p _ h1.0))
            λ q b.
              Holds-bind (value_or_fatal c.realpath q)
                (value-Holds (Bound c path before false) c.realpath q b (
                  socket-Leaves c path before (exited error_sys) q false
                    (λ s. absurd (sys-ne-zero s)) b.has))
                λ full b1.
                  Holds-bind (start_listening c path q) (start_listening-Bound c path before q b1.0)
                    λ r b2. came (b2.has, b1.1)

  pub Served-Leaves : (e : End) (p : Proc) → Served p → Leaves (c.names path) before e p
  Served-Leaves e p h = socket-Leaves c path before e p true (λ s. refl) h

  close_others-Served :
      (n fd listening : ℕ) (logfd : Option ℕ) (p : Proc)
      → Served p
      → Served (close_others n fd listening logfd p)
  unfolding close_others
  close_others-Served zero fd listening logfd p h = h
  close_others-Served (suc n) fd listening logfd p h =
      close_others-Served n (fd + 1) listening logfd _ (on (fd == listening || is_fd fd logfd))
    where
      on : (b : Bool) → Served (if b then p else close_fd fd p)
      on true = h
      on false = (Has-IsFrame c path before).table p _ h

  nulled-Served : (o : Option ℕ) (p : Proc) → Served p → Served (nulled o p)
  nulled-Served none p h = h
  nulled-Served (some fd) p h = (Has-IsFrame c path before).table p _ h

  daemonize-Served :
      (f : Fork) (p : Proc) → Served p → Holds Served (Leaves (c.names path) before) (daemonize f p)
  daemonize-Served failed p h = ended (Served-Leaves _ p h)
  daemonize-Served (parent pid) p h = ended (Served-Leaves _ p h)
  daemonize-Served child p h = came ((Has-IsFrame c path before).session p h)

  pub become_daemon-Served :
      (debug : Bool) (listening : ℕ) (logfd : Option ℕ) (p : Proc)
      → Served p
      → Holds Served (Leaves (c.names path) before) (become_daemon c debug listening logfd p)
  become_daemon-Served true listening logfd p h = came h
  become_daemon-Served false listening logfd p h =
      Holds-bind (daemonize c.fork p) (daemonize-Served c.fork p h)
        (λ q k. came (close_others-Served 13 3 listening logfd _ (nulled-Served c.open_null q k)))
