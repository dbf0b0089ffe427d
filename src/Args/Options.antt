-- ===== src/Args/Options.antt =====
-- The options of a command (common.h, struct st_spawn to struct st_cmdopts).
use sexpect.Base.{ℕ, Bool, false, Option, none, List, []}
use sexpect.Base.Int.{ℤ, pos}

-- struct st_pass. `subs` holds `nsubs` entries.
pub record PassOpts : Type 0 where
  pub subcmd : ℕ
  pub no_input : Bool
  pub has_timeout : Bool
  pub no_detach : Bool
  pub timeout : ℤ
  pub expflags : ℕ
  pub pattern : Option (List ℕ)
  pub cstring : Bool
  pub lookback : ℕ
  pub subs : List (List ℕ)

-- struct st_send. `payload` is `data`, the first `len` bytes of it.
pub record SendOpts : Type 0 where
  pub cstring : Bool
  pub has_fd : Bool
  pub strip : Bool
  pub enter : Bool
  pub envvar : Option (List ℕ)
  pub filename : Option (List ℕ)
  pub fd : ℕ
  pub limit : ℕ
  pub sources : ℕ
  pub payload : Option (List ℕ)

pub record ChkerrOpts : Type 0 where
  pub errcode : ℤ
  pub cmpto : Option (List ℕ)

pub record SetOpts : Type 0 where
  pub set_autowait : Bool
  pub autowait : Bool
  pub set_nonblock : Bool
  pub nonblock : Bool
  pub set_timeout : Bool
  pub timeout : ℤ
  pub set_ttl : Bool
  pub ttl : ℤ
  pub set_idle : Bool
  pub idle : ℤ

-- struct st_get, and the static variable `got_one` of getargs.
pub record GetOpts : Type 0 where
  pub got_one : Bool
  pub get_all : Bool
  pub get_pid : Bool
  pub get_ppid : Bool
  pub get_tty : Bool
  pub get_timeout : Bool
  pub get_nonblock : Bool
  pub get_autowait : Bool
  pub get_ttl : Bool
  pub get_idle : Bool
  pub n_expbuf : ℕ

-- struct st_spawn, but for the times and the file number.
pub record SpawnOpts : Type 0 where
  pub argv : List (List ℕ)
  pub term : Option (List ℕ)
  pub nohup : Bool
  pub nonblock : Bool
  pub autowait : Bool
  pub cloexit : Bool
  pub def_timeout : ℤ
  pub logfile : Option (List ℕ)
  pub append : Bool
  pub ttl : ℤ
  pub idle : ℤ
  pub zombie_idle : ℤ

-- `cmd` and the member of the union that goes with it. `unknown` is any other word.
pub data Command : Type 0 where
  help version close : Command
  chkerr : ChkerrOpts → Command
  expect interact wait : PassOpts → Command
  expect_out : ℕ → Command
  get : GetOpts → Command
  kill : ℤ → Command
  send : SendOpts → Command
  set : SetOpts → Command
  spawn : SpawnOpts → Command
  unknown : List ℕ → Command

-- struct st_cmdopts; `passing` follows from the command.
pub record CmdOpts : Type 0 where
  pub sockpath : Option (List ℕ)
  pub cmd : Option Command
  pub debug : Bool

abbrev pub no_options : CmdOpts
no_options = record { sockpath = none; cmd = none; debug = false }

-- The static struct is cleared when the program starts.
abbrev pub no_pass : PassOpts
no_pass = record {
  subcmd = 0;
  no_input = false;
  has_timeout = false;
  no_detach = false;
  timeout = pos 0;
  expflags = 0;
  pattern = none;
  cstring = false;
  lookback = 0;
  subs = [];
}

abbrev pub no_send : SendOpts
no_send = record {
  cstring = false;
  has_fd = false;
  strip = false;
  enter = false;
  envvar = none;
  filename = none;
  fd = 0;
  limit = 0;
  sources = 0;
  payload = none;
}

abbrev pub no_set : SetOpts
no_set = record {
  set_autowait = false;
  autowait = false;
  set_nonblock = false;
  nonblock = false;
  set_timeout = false;
  timeout = pos 0;
  set_ttl = false;
  ttl = pos 0;
  set_idle = false;
  idle = pos 0;
}

abbrev pub no_get : GetOpts
no_get = record {
  got_one = false;
  get_all = false;
  get_pid = false;
  get_ppid = false;
  get_tty = false;
  get_timeout = false;
  get_nonblock = false;
  get_autowait = false;
  get_ttl = false;
  get_idle = false;
  n_expbuf = 0;
}

abbrev pub no_spawn : SpawnOpts
no_spawn = record {
  argv = [];
  term = none;
  nohup = false;
  nonblock = false;
  autowait = false;
  cloexit = false;
  def_timeout = pos 0;
  logfile = none;
  append = false;
  ttl = pos 0;
  idle = pos 0;
  zombie_idle = pos 0;
}
