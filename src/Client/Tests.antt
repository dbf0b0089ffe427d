-- ===== src/Client/Tests.antt =====
-- Requests, replies and substitutions at concrete inputs (client.c).
use sexpect.Base.{
  ℕ, ◌≡◌, refl, Bool, true, false, subst, ap, Option, none, some, List, [], ◌∷◌, arith, codes,
  c_string, ◌==◌, if◌then◌else◌,
}
use sexpect.Base.Int.{pos, negsuc}
use sexpect.Tags.{pass_expect_exact, pass_subcmd_expect, error_timeout}
use sexpect.Args.Options.{expect, send, no_send, SetOpts, PassOpts, no_set, no_pass}
use sexpect.Args.Scanned.{Gives}
use sexpect.Args.Runnable.{IsRunnable}
use sexpect.Server.State.{Spawn, Server, Env, serv_new_error}
use sexpect.Server.Pass.{expect_timed_out}
use sexpect.Server.Buffers.{serv_init}
use sexpect.Server.Invariant.{serv_init-IsValid, IsSynced-IsReady}
use sexpect.Server.Loop.{clean_conn}
use sexpect.Server.Process.{set_spawn, process_pass, serv_process_msg}
use sexpect.Server.InOrder.{InOrder, Handles}
use sexpect.Server.Verdict.{Verdict, late}
use sexpect.Client.Request.{set_request, pass_request, request}
use sexpect.Client.Agree.{
  asked, pass_asked, conn_of, set_spawn-set_request, process_pass-pass_request,
}
use sexpect.Args.Number.{arg2int}
use sexpect.Args.Result.{ok}
use sexpect.Args.Options.{no_get}
use sexpect.Server.Process.{info}
use sexpect.Client.Show.{decimal, show_info}
use sexpect.Client.Get.{IsShowable, settings_text, show_info-info}
use sexpect.Client.ReadBack.{arg2int-decimal}
use sexpect.Client.Plain.{request-Handles}
use sexpect.Client.Subst.{
  Matcher, Groups, Subst, replace_literal, replace_match, span_at, first_match, cli_subst,
  cli_subst_raw,
}
use sexpect.Client.Unchanged.{Advances, IsAdvancing, cli_subst-loops, cli_subst_raw-unchanged}
use sexpect.Client.State.{Client, ends, show}
use sexpect.Client.Loop.{Tick, Ended, returned, cli_loop}
use sexpect.Client.AtOnce.{sends, Settles}
use sexpect.Client.Settled.{request-Settles}
use sexpect.Client.Rounds.{heard, idle, last, interrupted}
use sexpect.Client.Exit.{on_its_way, output_then, hears, parted, cli_loop-Verdict}

abbrev settings : Spawn
settings = record {
  nonblock = false;
  autowait = false;
  cloexit = true;
  def_timeout = pos 10;
  ttl = negsuc 0;
  idle = negsuc 0;
  zombie_idle = negsuc 0;
  startime = 0;
  exittime = 0;
}

-- `set -timeout -1 -autowait on`
abbrev set_timeout : SetOpts
set_timeout = record no_set {
  set_timeout = true;
  timeout = negsuc 0;
  set_autowait = true;
  autowait = true;
}

set_spawn-set_request_example :
    set_spawn (set_request set_timeout) settings ≡ asked set_timeout settings
set_spawn-set_request_example = set_spawn-set_request set_timeout settings refl refl refl

-- `expect -exact '$ ' -timeout 5`
abbrev prompt : PassOpts
prompt = record no_pass {
  subcmd = pass_subcmd_expect;
  no_input = true;
  has_timeout = true;
  timeout = pos 5;
  expflags = pass_expect_exact;
  pattern = some (codes "$ ");
}

abbrev env : Env
env = record {
  now = 5;
  link = [];
  ptm_takes = 100;
  kill_ok = true;
  kill_error = [];
  winsize = none;
  pid = 2;
  ppid = 1;
  ptsname = codes "/dev/pts/1";
  exitstatus = 0;
}

abbrev connected : Server
connected = record {
  conn = record clean_conn { sock = true };
  spawn = settings;
  env = env;
  buffers = serv_init;
  ptm_open = true;
  child_dead = false;
  waited = false;
  lastactive = 0;
  expout = [];
  sent = [];
  typed = [];
  signals = [];
  resized = [];
}

process_pass-pass_request_example :
    conn_of (process_pass (pass_request prompt) connected) ≡ some (pass_asked prompt connected)
process_pass-pass_request_example =
    process_pass-pass_request prompt connected refl (omega arith) (unfold c_string in refl)

connected-InOrder : InOrder connected
unfolding serv_init
connected-InOrder = record {
  ready =
      IsSynced-IsReady
        (record { valid = serv_init-IsValid; seen = omega arith; trimmed = omega arith });
  clean = tt;
  copying = λ p. absurd (ground arith);
  blocking = refl;
}

prompt-IsRunnable : IsRunnable (expect prompt)
prompt-IsRunnable = record {
  numbers = record {
    sub = refl;
    timeout = omega arith;
    lookback = omega arith;
    flags = omega arith;
  };
  one_kind = omega arith;
  no_glob = refl;
}

request-Handles_example :
    Gives (λ msg. Handles (serv_process_msg (some msg) connected)) (request 15 true (expect prompt))
request-Handles_example =
    request-Handles 15 true (expect prompt) prompt-IsRunnable (λ h e. absurd (ground arith))
      connected-InOrder

-- A pattern that matches an "a" at the start of the subject.
abbrev starts_with_a : Matcher
starts_with_a [] = none
starts_with_a (c ∷ cs) = if c == b'a' then some (some (0, 1) ∷ []) else none

-- `-subst '^a::(0)'`
abbrev same_a : List Subst
same_a = record { pat = starts_with_a; repl = replace_match 0 ∷ [] } ∷ []

starts_with_a-IsAdvancing :
    IsAdvancing (record { pat = starts_with_a; repl = replace_match 0 ∷ [] })
starts_with_a-IsAdvancing [] groups e = absurd (ground arith)
starts_with_a-IsAdvancing (c ∷ cs) groups e = on (c == b'a') e
  where
    groups_of : Option Groups → Groups
    groups_of none = []
    groups_of (some g) = g

    on :
        (b : Bool)
        → (if b then some (some (0, 1) ∷ []) else none) ≡ some groups
        → Advances (c ∷ cs) (span_at groups 0)
    on true e =
        subst (λ (g : Groups). Advances (c ∷ cs) (span_at g 0)) (ap groups_of e)
          (omega arith, (omega arith, omega arith))
    on false e = absurd (ground arith)

cli_subst_raw-unchanged_example :
    cli_subst_raw same_a 4 (b'a' ∷ 0 ∷ b'a' ∷ b'b' ∷ []) ≡ some (b'a' ∷ 0 ∷ b'a' ∷ b'b' ∷ [])
cli_subst_raw-unchanged_example =
    cli_subst_raw-unchanged same_a 4 (b'a' ∷ 0 ∷ b'a' ∷ b'b' ∷ [])
      ((starts_with_a-IsAdvancing, refl), tt) (omega arith)

-- A pattern that matches no text but an empty one, such as `x*` on a subject without an "x".
abbrev empty_match : Matcher
empty_match s = some (some (0, 0) ∷ [])

abbrev insert : List Subst
insert = record { pat = empty_match; repl = replace_literal (codes "y") ∷ [] } ∷ []

cli_subst-loops_example : cli_subst insert 1000 (codes "b") ≡ none
cli_subst-loops_example =
    cli_subst-loops insert 1000 (codes "b") (replace_literal (codes "y") ∷ []) (some (0, 0) ∷ []) 0
      (λ e. absurd (ground arith)) (unfold first_match in refl) refl

abbrev status : ℕ → Ended
status n = returned 3

-- A client that waits for a prompt; it times out behind some output, and more is on its way.
abbrev client : Client
client = record {
  cmd = expect prompt;
  is_tty = false;
  subs = [];
  shown = [];
  sent = [];
  link = [];
  inbox =
      output_then (codes "a" ∷ codes "b" ∷ []) (serv_new_error error_timeout expect_timed_out)
        (on_its_way (codes "c" ∷ []) []);
}

abbrev timed_out : Verdict pass_expect_exact (serv_new_error error_timeout expect_timed_out)
timed_out = late

-- Two messages and the verdict, with a round in which nothing happens and an interrupted one.
abbrev ticks : List Tick
ticks =
    record hears { readable = false }
    ∷ hears
    ∷ record hears { select = some true }
    ∷ hears
    ∷ hears
    ∷ []

cli_loop-Verdict_example :
    cli_loop status ticks client
    ≡ ends (pos error_timeout) (parted (codes "c" ∷ []) [] (show (codes "ab") client))
cli_loop-Verdict_example =
    cli_loop-Verdict status timed_out (codes "a" ∷ codes "b" ∷ []) (codes "c" ∷ []) [] client
      (idle (record { winch = refl; stdin = refl }) refl refl
        (heard (record { winch = refl; stdin = refl }) refl refl
          (interrupted (record { winch = refl; stdin = refl }) refl
            (heard (record { winch = refl; stdin = refl }) refl refl
              (last (record { winch = refl; stdin = refl }) refl refl)))))
      refl refl refl refl refl

arg2int-decimal_example : arg2int (decimal (negsuc 2147483647)) ≡ ok (negsuc 2147483647)
arg2int-decimal_example = arg2int-decimal (negsuc 2147483647) refl

connected-IsShowable : IsShowable connected
connected-IsShowable = record {
  ptsname = unfold c_string in refl;
  pid = omega arith;
  ppid = omega arith;
  ttl = refl;
  idle = refl;
  timeout = refl;
  zombie_idle = refl;
}

show_info-info_example :
    show_info (record no_get { get_all = true; n_expbuf = 10 }) (info connected)
    ≡ some (settings_text (record no_get { get_all = true; n_expbuf = 10 }) connected)
show_info-info_example =
    show_info-info (record no_get { get_all = true; n_expbuf = 10 }) connected connected-IsShowable

-- `send -enter ls`
abbrev sender : Client
sender = record {
  cmd = send (record no_send { enter = true; payload = some (codes "ls") });
  is_tty = true;
  subs = [];
  shown = [];
  sent = [];
  link = [];
  inbox = [];
}

request-Settles_example :
    Gives (Settles returned 15 [] [] connected sender) (request 15 true sender.cmd)
request-Settles_example =
    request-Settles returned 15 true [] [] connected sender sends (omega arith) (refl, refl) refl
