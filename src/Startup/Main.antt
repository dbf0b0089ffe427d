-- ===== src/Startup/Main.antt =====
-- The program (main.c, main, startup; common.c, common_init).
use sexpect.Base.{ℕ, Bool, false, Option, none, some, List}
use sexpect.Args.Options.{Command, spawn, SpawnOpts, CmdOpts, no_options}
use sexpect.Args.Result.{Result, ok, exits, ◌>>=◌}
use sexpect.Args.Finish.{Sys, getargs}
use sexpect.Args.Scan.{scan}
use sexpect.Client.State.{Run}
use sexpect.Client.Main.{World, cli_main}
use sexpect.System.{Proc, Out}
use sexpect.Server.State.{Env}
use sexpect.Server.Expect.{Regex}
use sexpect.Server.Loop.{Loop, Ready}
use sexpect.Startup.Defs.{Calls, Started, serv_main}
use sexpect.Common.Names.{common_init}

-- What the program meets: the system as getargs asks it, and as the client and the server do.
pub record Surroundings : Type 0 where
  pub sys : Sys
  pub world : World
  pub calls : Calls
  pub env : Env
  pub regex : Regex
  pub rounds : List Ready
  pub proc : Proc

-- What the program does: it ends with a code before it is a client or a server, or is one of them.
-- `no_path` is a server without the path of a socket.
pub data Program : Type 0 where
  quits : ℕ → Program
  serves : Out (Loop × Started) → Program
  talks : Run → Program
  no_path : Program

-- g.cmdopts.debug, behind getargs.
abbrev pub debug_of : Result CmdOpts → Bool
debug_of (exits code) = false
debug_of (ok o) = o.debug

abbrev pub as_server : Surroundings → Bool → SpawnOpts → Option (List ℕ) → Program
as_server s debug st none = no_path
as_server s debug st (some path) =
    serves (serv_main s.calls s.regex s.rounds s.env debug path st s.proc)

-- `streq(g.cmdopts.cmd, CMD_SPAWN)`
abbrev pub chosen_program : Surroundings → Bool → Command → Option (List ℕ) → Program
chosen_program s debug (spawn st) path = as_server s debug st path
chosen_program s debug cmd path = talks (cli_main s.world cmd)

abbrev pub with_args : Surroundings → Bool → Result (Command × Option (List ℕ)) → Program
with_args s debug (exits code) = quits code
with_args s debug (ok (cmd, path)) = chosen_program s debug cmd path

-- main
unfoldable pub main : Surroundings → List (List ℕ) → Program
unfolding common_init getargs scan serv_main cli_main
main s argv =
    with_args s (debug_of (scan s.sys.signal_number false argv no_options))
      (common_init >>= λ started. getargs s.sys argv)
