-- ===== src/Startup/Descriptors.antt =====
-- Proofs on the descriptors that the program on the terminal gets (server.c, serv_main).
use sexpect.Base.{
  ℕ, ◌+◌, ◌≡◌, ◌≢◌, ◌≤◌, ◌<◌, refl, Bool, true, false, not, ◌||◌, ◌==◌, Option, none, some, List,
  if◌then◌else◌, arith, zero, suc, Bool-cases, inl, inr, ◌∙◌, ap, sym, subst,
}
use sexpect.Args.Options.{SpawnOpts}
use sexpect.Tags.{error_sys, error_general}
use sexpect.System.{
  File, slave, Fork, failed, child, parent, Proc, End, exited, executed, ◌>>=◌, close_fd, Holds,
  came, ended, Holds-bind, Holds-map, Holds-if, Holds-and,
}
use sexpect.Pty.Open.{Forked, fork_failed, in_child, in_parent, pty_fork}
use sexpect.Pty.Frame.{pty_fork-Frame}
use sexpect.Pty.Slave.{OnSlave, HasTable, GivesFree, pty_fork-HasTable}
use sexpect.Server.State.{Env}
use sexpect.Startup.Defs.{
  Calls, nulled, close_others, is_fd, daemonize, become_daemon, setenv_term, ignore_sighup,
  copy_winsize, run_program, Started, serve, behind_fork, spawn_program,
}

-- Closed, but for those that are kept.
close_others-none :
    (n fd listening : ℕ) (logfd : Option ℕ) (p : Proc) (k : ℕ)
    → p.table k ≡ none
    → (close_others n fd listening logfd p).table k ≡ none
unfolding close_others
close_others-none zero fd listening logfd p k h = h
close_others-none (suc n) fd listening logfd p k h =
    close_others-none n (fd + 1) listening logfd _ k (on (fd == listening || is_fd fd logfd))
  where
    on : (b : Bool) → (if b then p else close_fd fd p).table k ≡ none
    on true = h
    on false = ground (arith, h)

close_others-closes :
    (n fd listening : ℕ) (logfd : Option ℕ) (p : Proc) (k : ℕ)
    → fd ≤ k
    → k < fd + n
    → k ≢ listening
    → is_fd k logfd ≡ false
    → (close_others n fd listening logfd p).table k ≡ none
unfolding close_others
close_others-closes zero fd listening logfd p k low high other unlogged = absurd (omega arith)
close_others-closes (suc n) fd listening logfd p k low high other unlogged =
    elim (Bool-cases (k == fd)) [
      | inl e ↦ close_others-none n (fd + 1) listening logfd _ k (ground (arith, e, unlogged))
      | inr e ↦
          close_others-closes n (fd + 1) listening logfd _ k (ground (arith, e))
            (omega (arith, high)) other unlogged
    ]

-- The spawned program's descriptors below 16: the terminal, and the logfile if there is one.
pub record OnlyTerminal (logfd : Option ℕ) (table : ℕ → Option File) : Type 0 where
  pub stdin : table 0 ≡ some slave
  pub stdout : table 1 ≡ some slave
  pub stderr : table 2 ≡ some slave
  pub none_else : (n : ℕ) → 3 ≤ n → n < 16 → is_fd n logfd ≡ false → table n ≡ none

-- Where the process became a program, it has no more than that.
abbrev pub Spawned : Option ℕ → End → Proc → Type 0
Spawned logfd e p = (argv : List (List ℕ)) → e ≡ executed argv → OnlyTerminal logfd p.table

exited-Spawned : (logfd : Option ℕ) (code : ℕ) (p : Proc) → Spawned logfd (exited code) p
exited-Spawned logfd code p argv e = absurd (ground (arith, e))

-- The descriptors of the daemon before it forks the program.
abbrev pub daemon : Calls → ℕ → Option ℕ → Proc → Proc
daemon c listening logfd p =
    close_others 13 3 listening logfd (nulled c.open_null (record p { leads = true }))

module _ (c : Calls) (env : Env) (st : SpawnOpts) (listening : ℕ) (logfd : Option ℕ) where
  setenv_term-table :
      (term : Option (List ℕ)) (p : Proc)
      → Holds (λ q. q.table ≡ p.table) (λ e q. e ≡ exited error_sys) (setenv_term c term p)
  setenv_term-table none p = came refl
  setenv_term-table (some term) p = Holds-if c.setenv (came refl) (ended refl)

  sighup-table : (nohup : Bool) (p : Proc) → (ignore_sighup nohup p).table ≡ p.table
  sighup-table true p = refl
  sighup-table false p = refl

  winsize-table : (ws : Option (ℕ × ℕ)) (p : Proc) → (copy_winsize c ws p).table ≡ p.table
  winsize-table none p = refl
  winsize-table (some ws) p = ground arith

  closed-OnlyTerminal :
      (before after : ℕ → Option File)
      → 3 ≤ listening
      → ((n : ℕ) → 3 ≤ n → n < 16 → n ≢ listening → is_fd n logfd ≡ false → before n ≡ none)
      → OnSlave before after
      → OnlyTerminal logfd (λ n. if n == listening then none else after n)
  closed-OnlyTerminal before after high closed o = record {
    stdin = ground (arith, o.stdin);
    stdout = ground (arith, o.stdout);
    stderr = ground (arith, o.stderr);
    none_else = λ n low bound unlogged. elim (Bool-cases (n == listening)) [
      | inl e ↦ rw e refl
      | inr e ↦ rw e (o.others n low ∙ closed n low bound (ground (arith, e)) unlogged)
    ];
  }

  run_program-Spawned :
      {P : Started → Type 0} (p : Proc)
      → OnlyTerminal logfd (close_fd listening p).table
      → Holds P (Spawned logfd) (run_program c st listening p)
  run_program-Spawned p o =
      Holds-bind (setenv_term c st.term (ignore_sighup st.nohup (close_fd listening p)))
        (Holds-map (λ q e. e) (λ e q f. rw f (exited-Spawned logfd error_sys q))
          (setenv_term-table st.term (ignore_sighup st.nohup (close_fd listening p))))
        λ q same.
          let r = copy_winsize c c.winsize (record q { sockfile_set = false }) in
          let t : r.table ≡ (close_fd listening p).table =
            winsize-table c.winsize (record q { sockfile_set = false })
            ∙ (same ∙ sighup-table st.nohup (close_fd listening p)) in
          Holds-if c.execs (ended (λ argv e. subst (OnlyTerminal logfd) (sym t) o))
            (ended (exited-Spawned logfd error_sys r))

  serve-Spawned :
      (full name : List ℕ) (pid fdm : ℕ) (p : Proc)
      → Holds (λ s. Unit) (Spawned logfd) (serve c env st full listening logfd name pid fdm p)
  serve-Spawned full name pid fdm p =
      Holds-if (not c.writable) (ended (exited-Spawned logfd error_general p))
        (Holds-if (not c.nonblocking) (ended (exited-Spawned logfd error_sys p)) (came tt))

  behind_fork-Spawned :
      (before : ℕ → Option File) (full name : List ℕ) (f : Forked) (p : Proc)
      → 3 ≤ listening
      → ((n : ℕ) → 3 ≤ n → n < 16 → n ≢ listening → is_fd n logfd ≡ false → before n ≡ none)
      → HasTable before (name, (f, p))
      → Holds (λ s. Unit) (Spawned logfd) (behind_fork c env st full listening logfd (name, (f, p)))
  behind_fork-Spawned before full name fork_failed p high closed h =
      ended (exited-Spawned logfd error_sys p)
  behind_fork-Spawned before full name (in_parent pid fdm) p high closed h =
      serve-Spawned full name pid fdm (record p { at_root = true })
  behind_fork-Spawned before full name in_child p high closed h =
      run_program-Spawned p (closed-OnlyTerminal before p.table high closed h)

  daemonize-Spawned :
      (f : Fork) (p : Proc)
      → Holds (λ q. q ≡ record p { leads = true }) (Spawned logfd) (daemonize f p)
  daemonize-Spawned failed p = ended (exited-Spawned logfd error_sys p)
  daemonize-Spawned (parent pid) p = ended (exited-Spawned logfd 0 p)
  daemonize-Spawned child p = came refl

  forked-Spawned :
      (full : List ℕ) (q : Proc)
      → 3 ≤ listening
      → ((n : ℕ) → 3 ≤ n → n < 16 → n ≢ listening → is_fd n logfd ≡ false → q.table n ≡ none)
      → GivesFree c.pty q.table
      → Holds
          (λ s. Unit)
          (Spawned logfd)
          (pty_fork c.pty 32 false none q >>= λ r. behind_fork c env st full listening logfd r)
  forked-Spawned full q high closed free =
      Holds-bind (pty_fork c.pty 32 false none q)
        (Holds-map (λ r h. h.0) (λ e r h. rw h.1.1 (exited-Spawned logfd error_sys r))
          (Holds-and (pty_fork-HasTable c.pty 32 false none q free) (
            pty_fork-Frame (λ r. Unit)
              (record { table = λ r t u. tt; session = λ r u. tt; size = λ r ws u. tt }) c.pty 32
              false none q tt)))
        λ r h. behind_fork-Spawned q.table full r.0 r.1.0 r.1.1 high closed h

  -- A program that the daemon started has the terminal as its standard descriptors and, below 16,
  -- nothing else but the logfile that was opened: not the listening socket, not the master, nothing
  -- that the server was started with. The numbers that posix_openpt and open give have to be free
  -- then, and the socket is none of the standard descriptors.
  pub spawn_program-Spawned :
      (full : List ℕ) (p : Proc)
      → 3 ≤ listening
      → GivesFree c.pty (daemon c listening logfd p).table
      → Holds
          (λ s. Unit)
          (Spawned logfd)
          (spawn_program c env false st (p, (listening, (logfd, full))))
  spawn_program-Spawned full p high free =
      Holds-bind (become_daemon c false listening logfd p)
        (Holds-bind {R = λ q. q ≡ daemon c listening logfd p} (daemonize c.fork p)
          (daemonize-Spawned c.fork p)
          (λ q e. came (ap (λ r. close_others 13 3 listening logfd (nulled c.open_null r)) e)))
        λ q e. rw e (
          forked-Spawned full (daemon c listening logfd p) high
            (λ n low bound other unlogged.
              close_others-closes 13 3 listening logfd _ n low (omega (arith, bound)) other
                unlogged)
            free)
