-- ===== src/Startup/Serving.antt =====
-- Proofs on serv_main from the fork of the program to its end (server.c).
use sexpect.Base.{
  ℕ, ◌≡◌, refl, Bool, true, false, not, Option, none, some, List, if◌then◌else◌, streq, ◌⊎◌, inl,
  inr,
}
use sexpect.Tags.{error_sys, error_general}
use sexpect.Args.Options.{SpawnOpts}
use sexpect.System.{
  ◌>>=◌, Entry, bound, Proc, End, exited, executed, close_fd, Holds, came, ended, Holds-bind,
  Holds-map, Holds-if,
}
use sexpect.Pty.Open.{Forked, fork_failed, in_child, in_parent, pty_fork}
use sexpect.Pty.Frame.{pty_fork-Frame}
use sexpect.Server.State.{Env}
use sexpect.Startup.Defs.{
  Calls, sock_connect, unless_in_use, log_opened, become_daemon, setenv_term, ignore_sighup,
  copy_winsize, run_program, Started, first_server, serve, behind_fork, open_socket, spawn_program,
  start_server,
}
use sexpect.Startup.Socket.{
  Leaves, Same, with_log, Has-IsFrame, sock_connect-Same, unless_in_use-Same, log_opened-Same,
}
use sexpect.Startup.Listening.{
  Served, Opened, open_socket-Opened, Served-Leaves, become_daemon-Served,
}

-- The server at its loop: its private socket listens, no other path changed, the working directory
-- is the root, and the global struct is the first one.
pub record Serving (c : Calls) (env : Env) (path : List ℕ) (st : SpawnOpts)
    (before : List ℕ → Entry) (s : Started) : Type 0 where
  pub mine : s.proc.disk (c.names path) ≡ bound 448 true
  pub others : (q : List ℕ) → streq q (c.names path) ≡ false → s.proc.disk q ≡ before q
  pub at_root : s.proc.at_root ≡ true
  pub full : c.realpath ≡ some s.sockpath
  pub first : s.server ≡ first_server c env st

module _ (c : Calls) (env : Env) (path : List ℕ) (st : SpawnOpts) (before : List ℕ → Entry) where
  setenv_term-Served :
      (term : Option (List ℕ)) (p : Proc)
      → Served c path before p
      → Holds (Served c path before) (Leaves (c.names path) before) (setenv_term c term p)
  setenv_term-Served none p h = came h
  setenv_term-Served (some term) p h =
      Holds-if c.setenv
        (came (record { mine = h.mine; others = h.others; started_here = h.started_here }))
        (ended (Served-Leaves c path before (exited error_sys) p h))

  ignore_sighup-Served :
      (nohup : Bool) (p : Proc)
      → Served c path before p
      → Served c path before (ignore_sighup nohup p)
  ignore_sighup-Served true p h = record {
    mine = h.mine;
    others = h.others;
    started_here = h.started_here;
  }
  ignore_sighup-Served false p h = h

  copy_winsize-Served :
      (ws : Option (ℕ × ℕ)) (p : Proc)
      → Served c path before p
      → Served c path before (copy_winsize c ws p)
  copy_winsize-Served none p h = h
  copy_winsize-Served (some ws) p h = on c.sets_winsize
    where
      on : (b : Bool) → Served c path before (if b then record p { winsize = some ws } else p)
      on true = record { mine = h.mine; others = h.others; started_here = h.started_here }
      on false = h

  run_program-Leaves :
      {A : Type 0} {P : A → Type 0} (listening : ℕ) (p : Proc)
      → Served c path before p
      → Holds P (Leaves (c.names path) before) (run_program {A = A} c st listening p)
  run_program-Leaves listening p h =
      Holds-bind (setenv_term c st.term (ignore_sighup st.nohup (close_fd listening p)))
        (setenv_term-Served st.term _
          (ignore_sighup-Served st.nohup _ ((Has-IsFrame c path before).table p _ h)))
        λ q k.
          let k' =
            copy_winsize-Served c.winsize (record q { sockfile_set = false })
              (record { mine = k.mine; others = k.others; started_here = k.started_here }) in
          Holds-if c.execs (ended (Served-Leaves c path before (executed st.argv) _ k'))
            (ended (Served-Leaves c path before (exited error_sys) _ k'))

  serve-Serving :
      (full : List ℕ) (listening : ℕ) (logfd : Option ℕ) (name : List ℕ) (pid fdm : ℕ) (p : Proc)
      → Served c path before p
      → c.realpath ≡ some full
      → Holds
          (Serving c env path st before)
          (Leaves (c.names path) before)
          (serve c env st full listening logfd name pid fdm (record p { at_root = true }))
  serve-Serving full listening logfd name pid fdm p h r =
      let at : (e : End) → Leaves (c.names path) before e (record p { at_root = true }) = λ e.
        let l = Served-Leaves c path before e p h in
        record { mine = l.mine; others = l.others; served = l.served } in
      Holds-if (not c.writable) (ended (at (exited error_general))) (
        Holds-if (not c.nonblocking) (ended (at (exited error_sys))) (
          came
            (record { mine = h.mine; others = h.others; at_root = refl; full = r; first = refl })))

  behind_fork-Serving :
      (full : List ℕ) (listening : ℕ) (logfd : Option ℕ) (name : List ℕ) (f : Forked) (p : Proc)
      → Served c path before p
      → c.realpath ≡ some full
      → Holds
          (Serving c env path st before)
          (Leaves (c.names path) before)
          (behind_fork c env st full listening logfd (name, (f, p)))
  behind_fork-Serving full listening logfd name fork_failed p h r =
      ended (Served-Leaves c path before (exited error_sys) p h)
  behind_fork-Serving full listening logfd name in_child p h r = run_program-Leaves listening p h
  behind_fork-Serving full listening logfd name (in_parent pid fdm) p h r =
      serve-Serving full listening logfd name pid fdm p h r

  spawn_program-Serving :
      (debug : Bool) (o : Proc × (ℕ × (Option ℕ × List ℕ)))
      → Opened c path before o
      → Holds
          (Serving c env path st before)
          (Leaves (c.names path) before)
          (spawn_program c env debug st o)
  spawn_program-Serving debug (p, (listening, (logfd, full))) h =
      Holds-bind (become_daemon c debug listening logfd p)
        (become_daemon-Served c path before debug listening logfd p h.0)
        λ q k.
          Holds-bind (pty_fork c.pty 32 false none q)
            (Holds-map (λ r i. i) (λ e r i. Served-Leaves c path before e r i.0)
              (pty_fork-Frame (Served c path before) (Has-IsFrame c path before) c.pty 32 false none
                q k))
            λ r k'. behind_fork-Serving full listening logfd r.0 r.1.0 r.1.1 k' h.1

-- The files once the log of a server was opened, for what was there before.
abbrev pub logged : Calls → SpawnOpts → (List ℕ → Entry) → List ℕ → Entry
logged c st = with_log c st.append st.logfile c.open_log

-- How the start of a server leaves the files, before the log was opened or behind that.
abbrev pub LeavesLogged : Calls → List ℕ → SpawnOpts → (List ℕ → Entry) → End → Proc → Type 0
LeavesLogged c path st before e p =
    Leaves (c.names path) before e p ⊎ Leaves (c.names path) (logged c st before) e p

-- Whatever fails, the process that starts a server leaves every path but the socket's as it was,
-- and but the logfile's, which is created or emptied if it is asked for without -append and opens.
-- At the socket's path it leaves what was there, nothing, or a socket of mode 0700, and it ends
-- with code 0 only once that socket listens. A server that gets to its loop has that socket. (The
-- process has not yet gone to the root when it starts.)
pub start_server-Serving :
    (c : Calls) (env : Env) (debug : Bool) (path : List ℕ) (st : SpawnOpts) (p : Proc)
    → p.at_root ≡ false
    → Holds
        (Serving c env path st (logged c st p.disk))
        (LeavesLogged c path st p.disk)
        (start_server c env debug path st p)
unfolding start_server
start_server-Serving c env debug path st p here =
    Holds-bind (sock_connect c c.probe p)
      (Holds-map (λ r h. h) (λ e q l. inl l)
        (sock_connect-Same c path p.disk c.probe p
          (record { mine = refl; others = λ q e. refl; started_here = here })))
      λ r h.
        Holds-bind (unless_in_use r)
          (Holds-map (λ q k. k) (λ e q l. inl l) (unless_in_use-Same c path p.disk r h))
          λ q k. Holds-map (λ s k. k) (λ e q l. inr l) (behind_log q k)
  where
    behind_log :
        (q : Proc)
        → Same c path p.disk q
        → Holds
            (Serving c env path st (logged c st p.disk))
            (Leaves (c.names path) (logged c st p.disk))
            (open_socket c path (log_opened c st.append st.logfile q)
              >>= spawn_program c env debug st)
    behind_log q k =
        Holds-bind (open_socket c path (log_opened c st.append st.logfile q))
          (open_socket-Opened c path (logged c st p.disk) (log_opened c st.append st.logfile q)
            (log_opened-Same c path p.disk st.append st.logfile q k))
          λ o l. spawn_program-Serving c env path st (logged c st p.disk) debug o l
