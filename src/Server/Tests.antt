-- ===== src/Server/Tests.antt =====
-- A session with one client, and concrete buffers (server.c).
use sexpect.Base.{
  ℕ, ◌≤◌, ◌≡◌, ◌≢◌, refl, Bool, true, false, Option, none, some, List, [], ◌∷◌, All, All-replicate,
  arith, inl, codes, length-replicate, replicate,
}
use sexpect.Base.Int.{pos, negsuc}
use sexpect.Tags.{
  tag_pass, tag_pass_subcmd, tag_exp_flags, tag_pattern, pass_expect_exact, pass_subcmd_expect,
}
use sexpect.Proto.Message.{
  Ttlv, null, node, v_none, v_int, v_raw, ttype_int, ttype_text, ttype_struct, ttlv_find_child,
  get_int, get_raw,
}
use sexpect.Server.Buffers.{
  Buffers, PtmRead, bytes, eof, eintr, serv_init, receive, mark_sent, drop_old_data, buf_raw2expect,
  max_old_data, serv_read_ptm,
}
use sexpect.Server.Invariant.{
  IsValid, IsSynced, IsSynced-IsReady, serv_init-IsValid, serv_read_ptm-IsValid,
}
use sexpect.Server.Lookback.{send_start, newline}
use sexpect.Server.Output.{newlines_in, send_start-ne-none, send_start-nul}
use sexpect.Server.Overflow.{unattended, buf_raw2expect-nonblock_overflow}
use sexpect.Server.State.{Server, Env, Spawn}
use sexpect.Server.Expect.{Regex, exp_timed_out}
use sexpect.Server.Pass.{serv_pass}
use sexpect.Server.PassSafe.{Leaves, serv_pass-IsSynced}
use sexpect.Server.Verdict.{IsHeard}
use sexpect.Server.Outcome.{Outcome, serv_pass-in_time}
use sexpect.Server.Process.{serv_process_msg}
use sexpect.Server.ProcessSafe.{serv_process_msg-Handles}
use sexpect.Server.InOrder.{IsPlain, InOrder, Handles}
use sexpect.Server.Loop.{Loop, Ready, next, crashed, clean_conn, serv_round, serv_loop}
use sexpect.Server.LoopSafe.{serv_loop-ne-crashed}
use sexpect.Server.AtHead.{IsPlainReady, AtHead}
use sexpect.Server.Track.{Tracks}
use sexpect.Server.Expect.{expect_exact, same, to_lower}
use sexpect.Server.Buffers.{without_nul}
use sexpect.Tags.{has_flag, pass_expect_icase}
use sexpect.Base.{if◌then◌else◌}
use sexpect.Server.Exact.{Expects, expect_exact-Expects}
use sexpect.Server.TrackLoop.{Tracked, output, serv_loop-Tracks}

-- Expressions that match nothing.
abbrev no_regex : Regex
no_regex pattern icase newlines subject = none

abbrev env : Env
env = record {
  now = 5;
  link = true ∷ false ∷ [];
  ptm_takes = 100;
  kill_ok = true;
  kill_error = [];
  winsize = none;
  pid = 2;
  ppid = 1;
  ptsname = [];
  exitstatus = 0;
}

abbrev spawn : Spawn
spawn = record {
  nonblock = false;
  autowait = false;
  cloexit = true;
  def_timeout = pos 10;
  ttl = negsuc 0;
  idle = negsuc 0;
  zombie_idle = negsuc 0;
  startime = 0;
  exittime = 0;
}

abbrev started : Server
started = record {
  conn = clean_conn;
  spawn = spawn;
  env = env;
  buffers = serv_init;
  ptm_open = true;
  child_dead = false;
  waited = false;
  lastactive = 0;
  expout = [];
  sent = [];
  typed = [];
  signals = [];
  resized = [];
}

started-AtHead : AtHead started
unfolding serv_init
started-AtHead = record {
  synced = record { valid = serv_init-IsValid; seen = omega arith; trimmed = omega arith };
  clean = tt;
  copying = λ p. absurd (ground arith);
  blocking = refl;
}

-- `expect -exact "$ "`
abbrev expect_request : Ttlv
expect_request =
    node tag_pass ttype_struct 0 v_none
      (node tag_pass_subcmd ttype_int 4 (v_int pass_subcmd_expect) null (
        node tag_exp_flags ttype_int 4 (v_int pass_expect_exact) null
          (node tag_pattern ttype_text 2 (v_raw (codes "$ ")) null null)))
      null

expect_request-IsPlain : IsPlain expect_request
unfolding ttlv_find_child get_int get_raw
expect_request-IsPlain = record {
  subcmd = λ e. cc;
  flags = λ e. cc;
  copying = λ e. inl cc;
  row = λ e. absurd (ground arith);
  col = λ e. absurd (ground arith);
  blocking = λ e. absurd (ground arith);
}

abbrev round_of : Bool → Option (List PtmRead) → Option (Option Ttlv) → Ready
round_of connects ptm client = record {
  sigchld = false;
  interrupted = false;
  connects = connects;
  ptm = ptm;
  client = client;
  env = env;
}

-- A client connects, asks for output up to a prompt, which comes, and goes away.
abbrev session : List Ready
session =
    round_of true (some (bytes (codes "hello") ∷ [])) none
    ∷ round_of false (some (eintr ∷ bytes (codes "a\nb$ ") ∷ [])) (some (some expect_request))
    ∷ round_of false (some (eof ∷ [])) (some none)
    ∷ []

abbrev first_loop : Loop
first_loop = record { server = started; exits = 0 }

session-IsPlainReady : All IsPlainReady session
session-IsPlainReady = (
  record { ptm = ground arith; client = tt },
  (
    record { ptm = ground arith; client = expect_request-IsPlain },
    (record { ptm = ground arith; client = tt }, tt),
  ),
)

serv_loop-ne-crashed_example : serv_loop no_regex session (next first_loop) ≢ crashed
serv_loop-ne-crashed_example =
    serv_loop-ne-crashed no_regex session first_loop session-IsPlainReady started-AtHead

-- The server while a client waits for a prompt, with its request and some output unread.
abbrev waiting : Server
waiting = record started {
  conn = record clean_conn {
    sock = true;
    passing = true;
    subcmd = pass_subcmd_expect;
    expflags = pass_expect_exact;
    pattern = some (codes "$ ");
    lookback = 2;
  };
  buffers = receive serv_init (codes "a\nb\nc\n$ ");
}

waiting-IsSynced : IsSynced waiting.buffers
unfolding receive serv_init
waiting-IsSynced = record { valid = omega arith; seen = omega arith; trimmed = omega arith }

waiting-begins : send_start waiting.conn.lookback waiting.buffers ≢ none
waiting-begins =
    send_start-ne-none 2 (receive serv_init (codes "a\nb\nc\n$ "))
      (unfold receive serv_init in omega arith)

serv_pass-IsSynced_example :
    Leaves (λ s'. IsSynced (drop_old_data s'.buffers)) (serv_pass no_regex waiting)
serv_pass-IsSynced_example =
    serv_pass-IsSynced no_regex waiting (IsSynced-IsReady waiting-IsSynced) refl waiting-begins

started-InOrder : InOrder started
unfolding serv_init
started-InOrder = record {
  ready = IsSynced-IsReady started-AtHead.synced;
  clean = tt;
  copying = λ p. absurd (ground arith);
  blocking = refl;
}

serv_process_msg-Handles_example : Handles (serv_process_msg (some expect_request) started)
serv_process_msg-Handles_example =
    serv_process_msg-Handles (some expect_request) {s = started} started-InOrder
      expect_request-IsPlain

serv_read_ptm-IsValid_example :
    IsValid (serv_read_ptm (eintr ∷ bytes (codes "hello") ∷ eof ∷ []) serv_init).0
serv_read_ptm-IsValid_example =
    serv_read_ptm-IsValid (eintr ∷ bytes (codes "hello") ∷ eof ∷ []) {b = serv_init}
      serv_init-IsValid

buf_raw2expect-nonblock_overflow_example :
    (b : Buffers) × (buf_raw2expect (mark_sent (receive serv_init (replicate max_old_data b'a')))
      ≡ some b)
    × (buf_raw2expect (unattended (drop_old_data b) (replicate max_old_data b'b') (b'c' ∷ []))
        ≡ none)
buf_raw2expect-nonblock_overflow_example =
    buf_raw2expect-nonblock_overflow (replicate max_old_data b'a') (replicate max_old_data b'b')
      (b'c' ∷ []) (length-replicate {A = ℕ} max_old_data b'a')
      (All-replicate (λ x. x ≢ 0) max_old_data b'a' (omega arith))
      (length-replicate {A = ℕ} max_old_data b'b') (omega arith) (omega arith)

-- Four old lines, of which two are asked for.
abbrev lines : Buffers
lines = record {
  ntotal = 8;
  rawoffset = 0;
  expoffset = 8;
  rawbuf = codes "a\nb\nc\nd\n";
  oldcnt = 8;
  newcnt = 0;
  expbuf = [];
}

begins_behind : send_start 2 lines ≡ some 4
unfolding send_start
begins_behind = refl

send_start-ne-none_example : send_start 9 lines ≢ none
send_start-ne-none_example = send_start-ne-none 9 lines (omega arith)

-- The raw buffer begins with a NUL byte, and has lost data.
abbrev after_nul : Buffers
after_nul = record {
  ntotal = 5;
  rawoffset = 2;
  expoffset = 5;
  rawbuf = b'x' ∷ 0 ∷ newline ∷ [];
  oldcnt = 3;
  newcnt = 0;
  expbuf = [];
}

send_start-nul_example : send_start 5 after_nul ≡ none
send_start-nul_example =
    send_start-nul 5 after_nul (b'x' ∷ []) (newline ∷ []) (omega arith) refl (omega arith)
      (unfold newlines_in in omega arith) (unfold newlines_in in omega arith)

-- A client that waited ten seconds for a prompt that did not come.
abbrev impatient : Server
impatient = record started {
  conn = record clean_conn {
    sock = true;
    passing = true;
    subcmd = pass_subcmd_expect;
    expflags = pass_expect_exact;
    pattern = some (codes "$ ");
    timeout = pos 10;
  };
  env = record env { now = 11000000000; link = [] };
}

impatient-IsHeard : IsHeard impatient
impatient-IsHeard = record { sock = refl; passing = refl; link = refl }

serv_pass-in_time_example : Leaves (λ s'. s'.conn.passing ≡ false) (serv_pass no_regex impatient)
serv_pass-in_time_example =
    serv_pass-in_time no_regex impatient impatient-IsHeard refl timed_out
      (IsSynced-IsReady started-AtHead.synced) refl
      (unfold send_start in λ e. absurd (ground arith))
  where
    timed_out : exp_timed_out impatient ≡ true
    timed_out = unfold exp_timed_out in refl

serv_loop-Tracks_example :
    Tracked
      (output no_regex session (next first_loop))
      (serv_loop no_regex session (next first_loop))
serv_loop-Tracks_example = serv_loop-Tracks no_regex session first_loop refl

-- What the session reads.
session_output : output no_regex session (next first_loop) ≡ codes "helloa\nb$ "
unfolding output serv_init serv_round ttlv_find_child sexpect.Server.State.serv_msg_send mark_sent
    get_int sexpect.Base.c_string get_raw
session_output = refl

-- `a` is found in the output that has come so far.
abbrev typed : Server
typed = record started {
  buffers = record serv_init {
    ntotal = 6;
    rawbuf = 0 ∷ codes "banan";
    newcnt = 6;
    expoffset = 6;
    expbuf = codes "nan";
  };
}

typed-Tracks : Tracks (0 ∷ codes "banan") typed.buffers
unfolding without_nul serv_init
typed-Tracks = record {
  valid = omega arith;
  gone = [];
  gone_size = refl;
  raw = refl;
  seen = codes "ba";
  exp = refl;
}

expect_exact-Expects_example :
    Expects
      (if has_flag 0 pass_expect_icase then to_lower else same)
      (0 ∷ codes "banan")
      (codes "an")
      typed
      (expect_exact (codes "an") typed)
expect_exact-Expects_example =
    expect_exact-Expects (0 ∷ codes "banan") (codes "an") typed typed-Tracks
