-- ===== src/Startup/Tests.antt =====
-- The start of the server and the program at concrete inputs.
use sexpect.Base.{
  ℕ, ◌≡◌, ◌≢◌, refl, true, false, Option, none, some, List, [], ◌∷◌, ◌==◌, if◌then◌else◌, arith,
  codes, streq, All,
}
use sexpect.Base.Int.{negsuc}
use sexpect.Args.Options.{SpawnOpts, no_spawn}
use sexpect.Args.Finish.{Sys}
use sexpect.System.{
  absent, bound, other, stale, child, parent, Proc, exited, aborted, Out, ok, ends, Holds,
}
use sexpect.Pty.Open.{PtyCalls}
use sexpect.Pty.Slave.{GivesFree}
use sexpect.Server.State.{Server, Env}
use sexpect.Server.Expect.{Regex}
use sexpect.Server.AtHead.{IsPlainReady}
use sexpect.Server.Loop.{Ready, Round, left, next, serv_loop}
use sexpect.Startup.Defs.{
  Calls, Started, first_server, open_socket, spawn_program, start_server, serv_main, behind_loop,
}
use sexpect.Startup.Serving.{Serving, LeavesLogged, logged, start_server-Serving}
use sexpect.Startup.Ends.{serv_main-left, serv_main-ne-aborted}
use sexpect.Startup.Descriptors.{Spawned, daemon, spawn_program-Spawned}
use sexpect.Startup.Main.{Surroundings, Program, quits, main}
use sexpect.Startup.Program.{Becomes, main-Becomes}

abbrev no_regex : Regex
no_regex pattern icase newlines subject = none

abbrev env : Env
env = record {
  now = 0;
  link = [];
  ptm_takes = 100;
  kill_ok = true;
  kill_error = [];
  winsize = none;
  pid = 8;
  ppid = 1;
  ptsname = [];
  exitstatus = 0;
}

-- `sexpect -sock s spawn -autowait sh`
abbrev options : SpawnOpts
options = record no_spawn { argv = codes "sh" ∷ []; autowait = true; zombie_idle = negsuc 0 }

-- A shell's process: its terminal as descriptors 0 to 2, and an old socket at the path.
abbrev shell : Proc
shell = record {
  table = λ n.
      if n == 0
      then some (other 0)
      else if n == 1
      then some (other 0)
      else if n == 2
      then some (other 0)
      else none;
  disk = λ q. stale;
  at_root = false;
  umask = 18;
  leads = false;
  winsize = none;
  sighup_ignored = false;
  sigpipe_ignored = false;
  sigchld_handled = false;
  term = none;
  sockfile_set = true;
}

abbrev pty : PtyCalls
pty = record {
  openpt = some 5;
  granted = true;
  unlocked = true;
  ptsname = some (codes "/dev/pts/7");
  fork = parent 9;
  setsid = true;
  open_slave = some 6;
  set_termios = true;
  set_winsize = true;
  dup_in = true;
  dup_out = true;
  dup_err = true;
}

abbrev calls : Calls
calls = record {
  names = λ path. codes "/tmp/s";
  sun_path = 108;
  winsize = some (24, 80);
  probe = some 3;
  connects = false;
  open_log = none;
  socket = some 4;
  unlinks = true;
  binds = true;
  realpath = some (codes "/tmp/s");
  listens = true;
  fork = child;
  open_null = some 5;
  pty = pty;
  setenv = true;
  sets_winsize = true;
  execs = true;
  writable = true;
  nonblocking = true;
  removes = true;
  clock_first = 0;
  clock_spawned = 1;
}

-- The same with a log.
abbrev with_logfile : SpawnOpts
with_logfile = record options { logfile = some (codes "log") }

abbrev logging : Calls
logging = record calls {
  names = λ path. if streq path (codes "log") then codes "/tmp/log" else codes "/tmp/s";
  open_log = some 6;
}

start_server-Serving_example :
    Holds
      (Serving logging env (codes "s") with_logfile (logged logging with_logfile shell.disk))
      (LeavesLogged logging (codes "s") with_logfile shell.disk)
      (start_server logging env false (codes "s") with_logfile shell)
start_server-Serving_example =
    start_server-Serving logging env false (codes "s") with_logfile shell refl

-- In the first round the child dies; in the second its output ends; then there is nothing to do.
abbrev quiet : Ready
quiet = record {
  sigchld = false;
  interrupted = false;
  connects = false;
  ptm = none;
  client = none;
  env = env;
}

abbrev rounds : List Ready
rounds =
    record quiet { sigchld = true; ptm = some (sexpect.Server.Buffers.eof ∷ []) }
    ∷ quiet
    ∷ quiet
    ∷ []

rounds-IsPlainReady : All IsPlainReady rounds
rounds-IsPlainReady = (
  record { ptm = (tt, tt); client = tt },
  (record { ptm = tt; client = tt }, (record { ptm = tt; client = tt }, tt)),
)

-- The server behind that, or any where the start fails.
abbrev or_shell : Out Started → Started
or_shell (ok s) = s
or_shell (ends e p) = record {
  proc = shell;
  server = first_server calls env options;
  sockpath = [];
  listening = 0;
  ptm = 0;
  logfd = none;
  child_pid = 0;
  ptsname = [];
}

started : Started
unfolding start_server
started = or_shell (start_server calls env false (codes "s") options shell)

starts : start_server calls env false (codes "s") options shell ≡ ok started
unfolding start_server started
starts = refl

abbrev or_first : Round → Server
or_first (left s) = s
or_first r = first_server calls env options

last_server : Server
unfolding started start_server serv_loop
last_server =
    or_first (serv_loop no_regex rounds (next (record { server = started.server; exits = 0 })))

leaves_loop :
    serv_loop no_regex rounds (next (record { server = started.server; exits = 0 }))
    ≡ left last_server
unfolding serv_loop started start_server last_server
leaves_loop = refl

serv_main-left_example :
    (q : Proc) × (serv_main calls no_regex rounds env false (codes "s") options shell
      ≡ ends (exited 0) q)
    × ((file : List ℕ)
        → q.disk file ≡ (
            if streq file (codes "/tmp/s")
            then (if true then absent else bound 448 true)
            else stale))
serv_main-left_example =
    serv_main-left calls no_regex rounds env false (codes "s") options shell started last_server
      refl (λ full e. ground (arith, e)) starts leaves_loop

serv_main-ne-aborted_example :
    serv_main calls no_regex rounds env false (codes "s") options shell ≢ ends aborted shell
serv_main-ne-aborted_example =
    serv_main-ne-aborted calls no_regex rounds env false (codes "s") options shell started refl refl
      rounds-IsPlainReady starts shell

pty-GivesFree : GivesFree pty (daemon calls 4 none shell).table
unfolding sexpect.Startup.Defs.close_others
pty-GivesFree = record {
  master_free = λ fdm e. ground (arith, e);
  slave_free = λ fds e. ground (arith, e);
  apart = λ fdm fds e f. ground (arith, e, f);
}

spawn_program-Spawned_example :
    Holds
      (λ s. Unit)
      (Spawned none)
      (spawn_program calls env false options (shell, (4, (none, codes "/tmp/s"))))
spawn_program-Spawned_example =
    spawn_program-Spawned calls env options 4 none (codes "/tmp/s") shell (omega arith)
      pty-GivesFree

abbrev surroundings : Surroundings
surroundings = record {
  sys = record {
    signal_number = λ name. 15;
    getenv = λ name. none;
    stat = λ name. none;
    read_file = λ name limit. none;
    read_fd = λ fd limit. none;
    sock_file = λ path. sexpect.Args.Finish.socket;
  };
  world = record {
    regcomp = λ pattern icase newlines. none;
    digits = λ text. none;
    sigterm = 15;
    status = λ code. sexpect.Client.Loop.Ended.returned code;
    is_tty = true;
    connects = true;
    raw_mode = true;
    winsize = none;
    link = [];
    inbox = [];
    ticks = [];
  };
  calls = calls;
  env = env;
  regex = no_regex;
  rounds = rounds;
  proc = shell;
}

abbrev spawn_line : List (List ℕ)
spawn_line = codes "-s" ∷ codes "s" ∷ codes "spawn" ∷ codes "-autowait" ∷ codes "sh" ∷ []

main-Becomes_example : Becomes surroundings spawn_line (main surroundings spawn_line)
main-Becomes_example = main-Becomes surroundings spawn_line (λ name. omega arith)

-- The whole way: the daemon runs, its program ends, the socket is gone and the code is 0.
abbrev code_of : Program → Option ℕ
code_of (sexpect.Startup.Main.serves (ends (exited code) p)) = some code
code_of p = none

spawn_ends : code_of (main surroundings spawn_line) ≡ some 0
unfolding main sexpect.Args.Scan.scan sexpect.Args.Step.choose
spawn_ends = refl

no_arguments : main surroundings [] ≡ quits 202
unfolding main
no_arguments = refl
