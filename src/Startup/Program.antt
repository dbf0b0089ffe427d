-- ===== src/Startup/Program.antt =====
-- Proofs on the whole program (main.c, main).
use sexpect.Base.{
  ℕ, ◌^◌, ◌<◌, ◌≡◌, refl, Bool, true, false, Option, none, some, List, if◌then◌else◌, arith, codes,
}
use sexpect.Tags.{error_usage}
use sexpect.Args.Options.{
  Command, help, version, close, chkerr, expect, interact, wait, expect_out, get, kill, send, set,
  spawn, unknown, SpawnOpts, no_options,
}
use sexpect.Args.Result.{Result, ok, exits}
use sexpect.Args.Finish.{
  Sys, SockFile, absent, unreadable, socket, other, finish_command, is_chkerr, check_file,
  check_sock, first_given, finish, getargs,
}
use sexpect.Args.Scan.{scan}
use sexpect.Args.Scanned.{Gives, gives, quit, Gives-bind}
use sexpect.Args.Runnable.{IsRunnable, IsReady, getargs-IsRunnable}
use sexpect.Client.Main.{cli_main}
use sexpect.Common.Names.{common_init}
use sexpect.Startup.Defs.{serv_main}
use sexpect.Startup.Main.{
  Surroundings, Program, quits, serves, talks, chosen_program, debug_of, with_args, main,
}

-- A command other than chkerr comes with the path of a socket.
abbrev pub HasPath : Command × Option (List ℕ) → Type 0
HasPath (c, some path) = Unit
HasPath (c, none) = is_chkerr c ≡ true

check_file-HasPath :
    (f : SockFile) (c : Command) (path : List ℕ) → Gives HasPath (check_file f c path)
check_file-HasPath absent c path = gives tt
check_file-HasPath socket c path = gives tt
check_file-HasPath unreadable c path = quit
check_file-HasPath other c path = quit

check_sock-HasPath :
    (sys : Sys) (c : Command) (path : Option (List ℕ)) → Gives HasPath (check_sock sys c path)
check_sock-HasPath sys c (some path) = check_file-HasPath (sys.sock_file path) c path
check_sock-HasPath sys c none = on (is_chkerr c) refl
  where
    on :
        (b : Bool) → is_chkerr c ≡ b → Gives HasPath (if b then ok (c, none) else exits error_usage)
    on true e = gives e
    on false e = quit

Gives-all : {A : Type 0} (r : Result A) → Gives (λ a. Unit) r
Gives-all (ok a) = gives tt
Gives-all (exits code) = quit

getargs-HasPath : (sys : Sys) (argv : List (List ℕ)) → Gives HasPath (getargs sys argv)
unfolding getargs
getargs-HasPath sys argv =
    Gives-bind (scan sys.signal_number false argv no_options) (Gives-all _)
      (λ o u. on o.cmd o.sockpath)
  where
    on : (cmd : Option Command) (path : Option (List ℕ)) → Gives HasPath (finish sys path cmd)
    on none path = quit
    on (some c) path =
        Gives-bind (finish_command sys c) (Gives-all _) (λ d u.
          check_sock-HasPath sys d (first_given path (sys.getenv (codes "SEXPECT_SOCKFILE"))))

Gives-and :
    {A : Type 0} {P Q : A → Type 0} {r : Result A}
    → Gives P r
    → Gives Q r
    → Gives (λ a. P a × Q a) r
Gives-and (gives h) (gives k) = gives (h, k)
Gives-and quit quit = quit

-- Every command but `spawn` is for the client.
abbrev pub IsForClient : Command → Type 0
IsForClient (spawn st) = ⊥
IsForClient cmd = Unit

-- What the program becomes for its arguments: it ends with the code that getargs ends with, or is a
-- client with the command that getargs leaves, which is one for the client that it can run, or the
-- server of the `spawn` that getargs leaves, with -debug as it was given, a program to start and the
-- path of its socket.
pub data Becomes (s : Surroundings) (argv : List (List ℕ)) : Program → Type 0 where
  ends_first : {code : ℕ} → getargs s.sys argv ≡ exits code → Becomes s argv (quits code)
  client :
      (cmd : Command) (path : Option (List ℕ))
      → getargs s.sys argv ≡ ok (cmd, path)
      → IsRunnable cmd
      → IsForClient cmd
      → Becomes s argv (talks (cli_main s.world cmd))
  server :
      (path : List ℕ) (st : SpawnOpts)
      → getargs s.sys argv ≡ ok (spawn st, some path)
      → IsRunnable (spawn st)
      → Becomes s argv (
          serves (
            serv_main s.calls s.regex s.rounds s.env
              (debug_of (scan s.sys.signal_number false argv no_options))
              path
              st
              s.proc))

module _ (s : Surroundings) (argv : List (List ℕ)) where
  debug : Bool
  debug = debug_of (scan s.sys.signal_number false argv no_options)

  chosen_program-Becomes :
      (c : Command) (path : Option (List ℕ))
      → getargs s.sys argv ≡ ok (c, path)
      → IsRunnable c
      → HasPath (c, path)
      → Becomes s argv (chosen_program s debug c path)
  unfolding debug
  chosen_program-Becomes (spawn st) (some path) e r h = server path st e r
  chosen_program-Becomes (spawn st) none e r h = absurd (ground (arith, h))
  chosen_program-Becomes help path e r h = client help path e r tt
  chosen_program-Becomes version path e r h = client version path e r tt
  chosen_program-Becomes close path e r h = client close path e r tt
  chosen_program-Becomes (chkerr st) path e r h = client (chkerr st) path e r tt
  chosen_program-Becomes (expect st) path e r h = client (expect st) path e r tt
  chosen_program-Becomes (interact st) path e r h = client (interact st) path e r tt
  chosen_program-Becomes (wait st) path e r h = client (wait st) path e r tt
  chosen_program-Becomes (expect_out index) path e r h = client (expect_out index) path e r tt
  chosen_program-Becomes (get st) path e r h = client (get st) path e r tt
  chosen_program-Becomes (kill signal) path e r h = client (kill signal) path e r tt
  chosen_program-Becomes (send st) path e r h = client (send st) path e r tt
  chosen_program-Becomes (set st) path e r h = client (set st) path e r tt
  chosen_program-Becomes (unknown word) path e r h = client (unknown word) path e r tt

  with_args-Becomes :
      (r : Result (Command × Option (List ℕ)))
      → getargs s.sys argv ≡ r
      → Gives (λ a. IsReady a × HasPath a) r
      → Becomes s argv (with_args s debug r)
  with_args-Becomes (exits code) e quit = ends_first e
  with_args-Becomes (ok (c, path)) e (gives (r, h)) = chosen_program-Becomes c path e r h

-- The program ends with the code that getargs ends with for its arguments, or is a client with the
-- command that getargs leaves, which is not `spawn` and which it can run, or the server of a `spawn`
-- that getargs leaves with a program to start, the path of a socket and sound numbers, run with
-- -debug as it was given. The numbers of signals have to fit an int.
pub main-Becomes :
    (s : Surroundings) (argv : List (List ℕ))
    → ((name : List ℕ) → s.sys.signal_number name < 2 ^ 31)
    → Becomes s argv (main s argv)
unfolding main common_init debug
main-Becomes s argv small =
    with_args-Becomes s argv (getargs s.sys argv) refl
      (Gives-and (getargs-IsRunnable s.sys argv small) (getargs-HasPath s.sys argv))
