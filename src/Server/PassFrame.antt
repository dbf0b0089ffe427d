-- ===== src/Server/PassFrame.antt =====
-- Proofs on what serv_pass changes (server.c, serv_pass).
use sexpect.Base.{
  ℕ, ◌+◌, ◌-◌, ◌≡◌, refl, Bool, true, false, not, ◌&&◌, ◌||◌, Option, none, some, List, ◌==◌, ltb,
  if◌then◌else◌, length, drop, arith, inl, inr, Bool-cases, ◌∙◌, ap, sym,
}
use sexpect.Proto.Message.{Ttlv, ttlv_new_int, ttlv_new_bool, ttlv_new_raw, ttlv_new_struct}
use sexpect.Tags.{
  has_flag, pass_expect_eof, pass_expect_exit, pass_subcmd_interact, pass_subcmd_wait, tag_output,
  tag_matched, tag_eof, tag_exited, error_eof, error_timeout, pass_expect_exact, pass_expect_glob,
  pass_expect_ere, pass_expect_nosub,
}
use sexpect.Server.Buffers.{
  Buffers, buf_raw2expect, catch_up, copy_new, mark_sent, skip_expect, discard_expect,
}
use sexpect.Server.Lookback.{send_start}
use sexpect.Server.State.{Server, serv_new_error, serv_msg_send, reply}
use sexpect.Server.Expect.{
  Regex, serv_expect, exp_timed_out, expect_exact, expect_ere, exact_found, ere_found,
}
use sexpect.Server.Pass.{
  Flow, go, done, crash, ◌>>=◌, stop_passing, with_buffers, send_from, send_if, send_output,
  matched, try_copied, match_kind, match_pattern, report_exit, at_eof, at_timeout, serv_pass,
  pty_closed, expect_timed_out,
}

-- The request, the raw bytes and the settings are those of `s`, and passing may have ended.
pub record Frame (s s' : Server) : Type 0 where
  pub raw : s'.buffers.rawbuf ≡ s.buffers.rawbuf
  pub pattern : s'.conn.pattern ≡ s.conn.pattern
  pub subcmd : s'.conn.subcmd ≡ s.conn.subcmd
  pub nonblock : s'.spawn.nonblock ≡ s.spawn.nonblock
  pub passing : s'.conn.passing ≡ true → s.conn.passing ≡ true

pub Frame-refl : (s : Server) → Frame s s
Frame-refl s = record {
  raw = refl;
  pattern = refl;
  subcmd = refl;
  nonblock = refl;
  passing = λ p. p;
}

pub Frame-trans : {s t u : Server} → Frame s t → Frame t u → Frame s u
Frame-trans f g = record {
  raw = g.raw ∙ f.raw;
  pattern = g.pattern ∙ f.pattern;
  subcmd = g.subcmd ∙ f.subcmd;
  nonblock = g.nonblock ∙ f.nonblock;
  passing = λ p. f.passing (g.passing p);
}

pub serv_msg_send-Frame : (msg : Ttlv) (s : Server) → Frame s (serv_msg_send msg s).0
unfolding serv_msg_send
serv_msg_send-Frame msg s = elim (Bool-cases (not s.conn.sock)) [
  | inl e ↦ rw e (Frame-refl s)
  | inr e ↦ rw e (ground arith)
]

-- A flow that leaves servers in the frame of `s`.
pub data Frames (s : Server) : Flow → Type 0 where
  goes : {s' : Server} → Frame s s' → Frames s (go s')
  stops : {s' : Server} → Frame s s' → Frames s (done s')
  crashes : Frames s crash

module _ {s : Server} where
  Frames-widen : {t : Server} {m : Flow} → Frame s t → Frames t m → Frames s m
  Frames-widen h (goes g) = goes (Frame-trans h g)
  Frames-widen h (stops g) = stops (Frame-trans h g)
  Frames-widen h crashes = crashes

  Frames-bind :
      {m : Flow} {f : Server → Flow}
      → Frames s m
      → ((s' : Server) → Frames s' (f s'))
      → Frames s (m >>= f)
  Frames-bind (goes {s'} h) k = Frames-widen h (k s')
  Frames-bind (stops h) k = stops h
  Frames-bind crashes k = crashes

  Frames-if : (b : Bool) {m n : Flow} → Frames s m → Frames s n → Frames s (if b then m else n)
  Frames-if true h k = h
  Frames-if false h k = k

-- Ending the passing with an answer.
answered : (msg : Ttlv) {s s' : Server} → Frame s s' → Frame s (stop_passing (reply msg s'))
answered msg {s} {s'} f =
    let g = Frame-trans f (serv_msg_send-Frame msg s') in
    record {
      raw = g.raw;
      pattern = g.pattern;
      subcmd = g.subcmd;
      nonblock = g.nonblock;
      passing = λ p. cc p;
    }

send_from-Frames : (start : ℕ) (s : Server) → Frames s (send_from start s)
unfolding send_from mark_sent
send_from-Frames start s =
    Frames-if (ltb 0 size)
      (Frames-if (serv_msg_send msg s).1
        (goes (record {
          raw = f.raw;
          pattern = f.pattern;
          subcmd = f.subcmd;
          nonblock = f.nonblock;
          passing = f.passing;
        }))
        (stops f))
      (goes (Frame-refl s))
  where
    size : ℕ
    size = s.buffers.oldcnt + s.buffers.newcnt - start

    msg : Ttlv
    msg = ttlv_new_raw tag_output size (drop start s.buffers.rawbuf)

    f : Frame s (serv_msg_send msg s).0
    f = serv_msg_send-Frame msg s

send_if-Frames : (o : Option ℕ) (s : Server) → Frames s (send_if o s)
send_if-Frames none s = crashes
send_if-Frames (some start) s =
    Frames-widen
      (record { raw = refl; pattern = refl; subcmd = refl; nonblock = refl; passing = λ p. p })
      (send_from-Frames start (record s { conn = record (s.conn) { lookback = 0 } }))

-- Another expect buffer.
pub copied-raw : (b c : Buffers) → buf_raw2expect b ≡ some c → c.rawbuf ≡ b.rawbuf
unfolding buf_raw2expect catch_up copy_new
copied-raw b c e = ground arith

rebuffered : (s : Server) (b : Buffers) → b.rawbuf ≡ s.buffers.rawbuf → Frame s (with_buffers s b)
rebuffered s b e = record {
  raw = e;
  pattern = refl;
  subcmd = refl;
  nonblock = refl;
  passing = λ p. p;
}

-- A match changes the expect buffer and what it found.
pub record Touch (s s' : Server) : Type 0 where
  pub raw : s'.buffers.rawbuf ≡ s.buffers.rawbuf
  pub conn : s'.conn ≡ s.conn
  pub env : s'.env ≡ s.env
  pub spawn : s'.spawn ≡ s.spawn
  pub sent : s'.sent ≡ s.sent

Touch-Frame : {s s' : Server} → Touch s s' → Frame s s'
Touch-Frame t = record {
  raw = t.raw;
  pattern = ap (λ c. c.pattern) t.conn;
  subcmd = ap (λ c. c.subcmd) t.conn;
  nonblock = ap (λ p. p.nonblock) t.spawn;
  passing = λ p. sym (ap (λ c. c.passing) t.conn) ∙ p;
}

pub data FramesMatch (s : Server) : Option Server → Type 0 where
  no_match : FramesMatch s none
  match : {s' : Server} → Touch s s' → FramesMatch s (some s')

FramesMatch-if :
    {s : Server} (b : Bool) {x y : Option Server}
    → FramesMatch s x
    → FramesMatch s y
    → FramesMatch s (if b then x else y)
FramesMatch-if true h k = h
FramesMatch-if false h k = k

exact_found-Touch :
    (pattern : List ℕ) (s : Server) (found : Option ℕ) → FramesMatch s (exact_found pattern s found)
unfolding exact_found
exact_found-Touch pattern s none = no_match
exact_found-Touch pattern s (some i) =
    match (record { raw = refl; conn = refl; env = refl; spawn = refl; sent = refl })

ere_found-Touch :
    (s : Server) (groups : Option (List (Option (ℕ × ℕ)))) → FramesMatch s (ere_found s groups)
unfolding ere_found
ere_found-Touch s none = no_match
ere_found-Touch s (some groups) =
    match (elim (Bool-cases (has_flag s.conn.expflags pass_expect_nosub)) [
      | inl e ↦ rw e (record { raw = refl; conn = refl; env = refl; spawn = refl; sent = refl })
      | inr e ↦ rw e (record { raw = refl; conn = refl; env = refl; spawn = refl; sent = refl })
    ])

pub serv_expect-Touch :
    (regex : Regex) (pattern : List ℕ) (s : Server) → FramesMatch s (serv_expect regex pattern s)
unfolding serv_expect expect_exact expect_ere
serv_expect-Touch regex pattern s =
    FramesMatch-if ((length s.buffers.expbuf == 0) && not s.ptm_open) no_match (
      FramesMatch-if (has_flag s.conn.expflags pass_expect_exact) (exact_found-Touch pattern s _) (
        FramesMatch-if (has_flag s.conn.expflags pass_expect_glob) no_match (
          FramesMatch-if (has_flag s.conn.expflags pass_expect_ere) (ere_found-Touch s _)
            no_match)))

matched-Frames : (s : Server) (r : Option Server) → FramesMatch s r → Frames s (matched r s)
matched-Frames s none no_match = goes (Frame-refl s)
matched-Frames s (some s') (match t) =
    stops (answered (ttlv_new_bool tag_matched 1) (Touch-Frame t))

try_copied-Frames :
    (regex : Regex) (pattern : List ℕ) (s : Server) (o : Option Buffers)
    → buf_raw2expect s.buffers ≡ o
    → Frames s (try_copied regex pattern s o)
try_copied-Frames regex pattern s none e = crashes
try_copied-Frames regex pattern s (some b) e =
    Frames-widen (rebuffered s b (copied-raw s.buffers b e)) (
      matched-Frames (with_buffers s b) (serv_expect regex pattern (with_buffers s b))
        (serv_expect-Touch regex pattern (with_buffers s b)))

match_kind-Frames :
    (regex : Regex) (s : Server) (pattern : Option (List ℕ)) → Frames s (match_kind regex s pattern)
match_kind-Frames regex s (some pattern) =
    try_copied-Frames regex pattern s (buf_raw2expect s.buffers) refl
match_kind-Frames regex s none =
    Frames-if ((s.conn.subcmd == pass_subcmd_interact) || (s.conn.subcmd == pass_subcmd_wait))
      (goes (rebuffered s (skip_expect s.buffers) (unfold skip_expect in refl)))
      (goes (Frame-refl s))

report_exit-Frame : (s : Server) → Frame s (report_exit s)
report_exit-Frame s = elim (Bool-cases (not s.waited && s.child_dead)) [
  | inl e ↦ rw e (
      answered (ttlv_new_int tag_exited s.env.exitstatus) {s = s} {s' = record s { waited = true }}
        (record { raw = refl; pattern = refl; subcmd = refl; nonblock = refl; passing = λ p. p }))
  | inr e ↦ rw e (Frame-refl s)
]

at_eof-Frames : (s : Server) → Frames s (at_eof s)
unfolding at_eof
at_eof-Frames s =
    Frames-if (not s.ptm_open && (s.buffers.newcnt == 0))
      (Frames-if (has_flag s.conn.expflags pass_expect_eof)
        (stops (
          answered (ttlv_new_struct tag_eof)
            (rebuffered s (discard_expect s.buffers) (unfold discard_expect in refl))))
        (Frames-if (has_flag s.conn.expflags pass_expect_exit) (stops (report_exit-Frame s))
          (stops (answered (serv_new_error error_eof pty_closed) (Frame-refl s)))))
      (goes (Frame-refl s))

at_timeout-Frames : (s : Server) → Frames s (at_timeout s)
unfolding at_timeout
at_timeout-Frames s =
    Frames-if (exp_timed_out s)
      (stops (answered (serv_new_error error_timeout expect_timed_out) (Frame-refl s)))
      (goes (Frame-refl s))

-- serv_pass changes neither the raw bytes, nor the request but for ending it, nor the settings.
pub serv_pass-Frames : (regex : Regex) (s : Server) → Frames s (serv_pass regex s)
unfolding serv_pass send_output match_pattern
serv_pass-Frames regex s =
    Frames-if (not s.conn.sock || not s.conn.passing) (stops (Frame-refl s)) (
      Frames-bind (send_if-Frames (send_start s.conn.lookback s.buffers) s) λ s₁.
        Frames-bind (match_kind-Frames regex s₁ s₁.conn.pattern)
          λ s₂. Frames-bind (at_eof-Frames s₂) λ s₃. at_timeout-Frames s₃)
