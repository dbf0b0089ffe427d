-- ===== src/Startup/Defs.antt =====
-- The server from its command to its loop (server.c, daemonize, serv_main; common.c, sock_connect).
use sexpect.Base.{
  ℕ, ◌+◌, ◌-◌, zero, suc, Bool, true, false, not, ◌||◌, Option, none, some, List, [], ◌==◌, ltb,
  if◌then◌else◌, length, replicate,
}
use Prim.Native.Nat.{bit_and}
use sexpect.Tags.{error_general}
use sexpect.Args.Options.{SpawnOpts}
use sexpect.System.{
  null_device, stream, client_stream, logfile, Entry, absent, log_file, bound, Fork, failed, child,
  parent, Proc, exited, executed, overflowed, aborted, Out, ok, ends, ◌>>=◌, fatal, fatal_sys,
  value_or_fatal, open_fd, close_fd, dup2, with_entry,
}
use sexpect.Pty.Open.{PtyCalls, Forked, fork_failed, in_child, in_parent, pty_fork}
use sexpect.Server.Buffers.{serv_init}
use sexpect.Server.State.{Server, Env, expect_out_num}
use sexpect.Server.Expect.{Regex}
use sexpect.Server.Loop.{Loop, Ready, Round, next, left, crashed, clean_conn, serv_loop}

-- What the system calls of serv_main return, in the order in which it makes them; the size of
-- sun_path in struct sockaddr_un; and `names`, which gives the file that a path stands for in the
-- directory where the program starts.
pub record Calls : Type 0 where
  pub names : List ℕ → List ℕ
  pub sun_path : ℕ
  pub winsize : Option (ℕ × ℕ)
  pub probe : Option ℕ
  pub connects : Bool
  pub open_log : Option ℕ
  pub socket : Option ℕ
  pub unlinks : Bool
  pub binds : Bool
  pub realpath : Option (List ℕ)
  pub listens : Bool
  pub fork : Fork
  pub open_null : Option ℕ
  pub pty : PtyCalls
  pub setenv : Bool
  pub sets_winsize : Bool
  pub execs : Bool
  pub writable : Bool
  pub nonblocking : Bool
  pub removes : Bool
  pub clock_first : ℕ
  pub clock_spawned : ℕ

-- The file that a path stands for now. Once the working directory is the root, a full path is its
-- own name.
abbrev pub resolve : Calls → Proc → List ℕ → List ℕ
resolve c p path = if p.at_root then path else c.names path

abbrev pub set_entry : Calls → List ℕ → Entry → Proc → Proc
set_entry c path entry p = record p { disk = with_entry (resolve c p path) entry p.disk }

-- sock_connect: the descriptor, if connect succeeds. It leaves the socket open where connect fails.
-- (The address is cut to the size of sun_path; `connects` is about what stands there.)
abbrev pub sock_connect : Calls → Option ℕ → Proc → Out (Option ℕ × Proc)
sock_connect c none p = fatal_sys p
sock_connect c (some fd) p = ok (if c.connects then some fd else none, open_fd fd client_stream p)

-- The check that no server uses the path.
abbrev pub unless_in_use : Option ℕ × Proc → Out Proc
unless_in_use (none, p) = ok p
unless_in_use (some fd, p) = fatal error_general p

-- The logfile's descriptor is -1 where it was not asked for or did not open.
-- Without -append open creates the file, or empties it (O_CREAT | O_TRUNC).
abbrev pub log_with : Calls → Bool → List ℕ → Option ℕ → Proc → Option ℕ × Proc
log_with c append path none p = (none, p)
log_with c append path (some fd) p =
    (some fd, open_fd fd logfile (if append then p else set_entry c path log_file p))

abbrev pub log_opened : Calls → Bool → Option (List ℕ) → Proc → Option ℕ × Proc
log_opened c append none p = (none, p)
log_opened c append (some path) p = log_with c append path c.open_log p

-- `umask(0077)`
abbrev pub private_mask : ℕ
private_mask = 63

-- The mode of a socket that bind makes under a mask.
abbrev pub bind_mode : ℕ → ℕ
bind_mode mask = 511 - bit_and 511 mask

abbrev pub unlinked : Calls → List ℕ → Proc → Proc
unlinked c path p = if c.unlinks then set_entry c path absent p else p

abbrev pub or_bound : Calls → List ℕ → Proc → Out Proc
or_bound c path p =
    if c.binds then ok (set_entry c path (bound (bind_mode p.umask) false) p) else fatal_sys p

-- From unlink to bind. strcpy overflows sun_path where the path and its NUL do not fit.
abbrev pub bind_socket : Calls → List ℕ → Proc → Out Proc
bind_socket c path p =
    if ltb (length path) c.sun_path
    then or_bound c path (record (unlinked c path p) { umask = private_mask })
    else ends overflowed (unlinked c path p)

abbrev pub start_listening : Calls → List ℕ → Proc → Out Proc
start_listening c path p =
    if c.listens then ok (set_entry c path (bound (bind_mode p.umask) true) p) else fatal_sys p

-- daemonize
abbrev pub daemonize : Fork → Proc → Out Proc
daemonize failed p = fatal_sys p
daemonize (parent pid) p = ends (exited 0) p
daemonize child p = ok (record p { leads = true })

-- The null device in place of the standard descriptors, if it opens.
abbrev pub nulled : Option ℕ → Proc → Proc
nulled none p = p
nulled (some fd) p = dup2 fd 2 (dup2 fd 1 (dup2 fd 0 (open_fd fd null_device p)))

abbrev pub is_fd : ℕ → Option ℕ → Bool
is_fd fd none = false
is_fd fd (some kept) = fd == kept

-- `for (fd = 3; fd < 16; ++fd)`, with the number of rounds that are left.
unfoldable pub close_others : ℕ → ℕ → ℕ → Option ℕ → Proc → Proc
close_others zero fd listening logfd p = p
close_others (suc n) fd listening logfd p =
    close_others n (fd + 1) listening logfd
      (if fd == listening || is_fd fd logfd then p else close_fd fd p)

abbrev pub become_daemon : Calls → Bool → ℕ → Option ℕ → Proc → Out Proc
become_daemon c debug listening logfd p =
    if debug
    then ok p
    else daemonize c.fork p >>= λ q. ok (close_others 13 3 listening logfd (nulled c.open_null q))

-- sig_handle, for the signals that serv_main handles.
abbrev pub ignore_sighup : Bool → Proc → Proc
ignore_sighup nohup p = if nohup then record p { sighup_ignored = true } else p

abbrev pub handle_signals : Proc → Proc
handle_signals p = record p { sigpipe_ignored = true; sigchld_handled = true }

abbrev pub setenv_term : Calls → Option (List ℕ) → Proc → Out Proc
setenv_term c none p = ok p
setenv_term c (some term) p = if c.setenv then ok (record p { term = some term }) else fatal_sys p

-- The size that the starting terminal had, for the new one. A failure is only reported.
abbrev pub copy_winsize : Calls → Option (ℕ × ℕ) → Proc → Proc
copy_winsize c none p = p
copy_winsize c (some ws) p = if c.sets_winsize then record p { winsize = some ws } else p

-- The child, up to the program it becomes.
abbrev pub run_program : {A : Type 0} → Calls → SpawnOpts → ℕ → Proc → Out A
run_program c st listening p =
    setenv_term c st.term (ignore_sighup st.nohup (close_fd listening p)) >>= λ q.
    let r = copy_winsize c c.winsize (record q { sockfile_set = false }) in
    if c.execs then ends (executed st.argv) r else fatal_sys r

-- The server when it enters serv_loop: its process, the global struct, the full path of its socket,
-- and the descriptors g.fd_listen, g.fd_ptm and spawn->logfd. `child_pid` is g.child.
pub record Started : Type 0 where
  pub proc : Proc
  pub server : Server
  pub sockpath : List ℕ
  pub listening : ℕ
  pub ptm : ℕ
  pub logfd : Option ℕ
  pub child_pid : ℕ
  pub ptsname : List ℕ

-- The global struct behind serv_init and the fork; what it has no value for is zero.
unfoldable pub first_server : Calls → Env → SpawnOpts → Server
unfolding serv_init
first_server c env st = record {
  conn = clean_conn;
  spawn = record {
    nonblock = st.nonblock;
    autowait = st.autowait;
    cloexit = st.cloexit;
    def_timeout = st.def_timeout;
    ttl = st.ttl;
    idle = st.idle;
    zombie_idle = st.zombie_idle;
    startime = c.clock_spawned;
    exittime = 0;
  };
  env = env;
  buffers = serv_init;
  ptm_open = true;
  child_dead = false;
  waited = false;
  lastactive = c.clock_first;
  expout = replicate expect_out_num none;
  sent = [];
  typed = [];
  signals = [];
  resized = [];
}

-- The parent behind pty_fork: it waits for the child to open the slave, makes the master
-- non-blocking and handles its signals.
abbrev pub serve :
    Calls → Env → SpawnOpts → List ℕ → ℕ → Option ℕ → List ℕ → ℕ → ℕ → Proc → Out Started
serve c env st full listening logfd name pid fdm p =
    if not c.writable
    then fatal error_general p
    else if not c.nonblocking
    then fatal_sys p
    else ok (record {
      proc = handle_signals p;
      server = first_server c env st;
      sockpath = full;
      listening = listening;
      ptm = fdm;
      logfd = logfd;
      child_pid = pid;
      ptsname = name;
    })

abbrev pub behind_fork :
    Calls → Env → SpawnOpts → List ℕ → ℕ → Option ℕ → List ℕ × (Forked × Proc) → Out Started
behind_fork c env st full listening logfd (name, (fork_failed, p)) = fatal_sys p
behind_fork c env st full listening logfd (name, (in_child, p)) = run_program c st listening p
behind_fork c env st full listening logfd (name, (in_parent pid fdm, p)) =
    serve c env st full listening logfd name pid fdm (record p { at_root = true })

-- From the logfile to the listening socket: its descriptor, the logfile's and the full path.
abbrev pub open_socket : Calls → List ℕ → Option ℕ × Proc → Out (Proc × (ℕ × (Option ℕ × List ℕ)))
open_socket c path (logfd, p) = do
  listening ← value_or_fatal c.socket p
  q ← bind_socket c path (open_fd listening stream p)
  full ← value_or_fatal c.realpath q
  r ← start_listening c path q
  ok (r, (listening, (logfd, full)))

-- From there on.
abbrev pub spawn_program :
    Calls → Env → Bool → SpawnOpts → Proc × (ℕ × (Option ℕ × List ℕ)) → Out Started
spawn_program c env debug st (p, (listening, (logfd, full))) = do
  q ← become_daemon c debug listening logfd p
  r ← pty_fork c.pty 32 false none q
  behind_fork c env st full listening logfd r

-- serv_main up to serv_loop, for a process that is given the path of its socket and the options.
unfoldable pub start_server : Calls → Env → Bool → List ℕ → SpawnOpts → Proc → Out Started
unfolding pty_fork close_others first_server
start_server c env debug path st p = do
  q ← unless_in_use (← sock_connect c c.probe p)
  o ← open_socket c path (log_opened c st.append st.logfile q)
  spawn_program c env debug st o

-- What follows serv_loop. Where the rounds that come are used up the server still runs.
abbrev pub behind_loop : Calls → Started → Round → Out (Loop × Started)
behind_loop c s (next l) = ok (l, s)
behind_loop c s (left server) =
    ends (exited 0) (if c.removes then set_entry c s.sockpath absent s.proc else s.proc)
behind_loop c s crashed = ends aborted s.proc

-- serv_main, over the rounds of its loop that come.
unfoldable pub serv_main :
    Calls → Regex → List Ready → Env → Bool → List ℕ → SpawnOpts → Proc → Out (Loop × Started)
unfolding start_server serv_loop
serv_main c regex rounds env debug path st p = start_server c env debug path st p >>= λ s.
    behind_loop c s (serv_loop regex rounds (next (record { server = s.server; exits = 0 })))
