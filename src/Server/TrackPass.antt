-- ===== src/Server/TrackPass.antt =====
-- Proofs on what serv_pass and serv_process_msg keep of the output (server.c).
use sexpect.Base.{
  ℕ, ◌+◌, ◌-◌, ◌≡◌, refl, ap, sym, ◌∙◌, subst, Bool, true, false, not, ◌&&◌, ◌||◌, Option, none,
  some, List, ◌==◌, ltb, if◌then◌else◌, drop, Bool-cases, inl, inr,
}
use sexpect.Proto.Message.{Ttlv, ttlv_new_int, ttlv_new_bool, ttlv_new_raw, ttlv_new_struct}
use sexpect.Tags.{
  has_flag, pass_expect_eof, pass_expect_exit, pass_subcmd_interact, pass_subcmd_wait, tag_output,
  tag_matched, tag_eof, tag_exited, error_eof, error_timeout,
}
use sexpect.Server.Buffers.{Buffers, buf_raw2expect, discard_expect}
use sexpect.Server.Lookback.{send_start}
use sexpect.Server.State.{Server, serv_new_error, serv_msg_send}
use sexpect.Server.Expect.{Regex, serv_expect, exp_timed_out}
use sexpect.Server.Pass.{
  Flow, go, done, crash, ◌>>=◌, with_buffers, send_from, send_if, send_output, matched, try_copied,
  match_kind, match_pattern, report_exit, at_eof, at_timeout, serv_pass, pty_closed,
  expect_timed_out,
}
use sexpect.Server.Copied.{serv_msg_send-keeps, MatchedIf, no_match, match, serv_expect-MatchedIf}
use sexpect.Server.Track.{Tracks, mark_sent-Tracks, skip_expect-Tracks, discard_expect-Tracks}
use sexpect.Server.TrackCopy.{buf_raw2expect-Tracks, consumed-Tracks}

-- The server's buffers hold what they should of the output `h`.
abbrev pub Holding : List ℕ → Server → Type 0
Holding h s = Tracks h s.buffers

-- Every server that a flow leaves does.
pub data Follows (h : List ℕ) : Flow → Type 0 where
  goes : {s : Server} → Holding h s → Follows h (go s)
  stops : {s : Server} → Holding h s → Follows h (done s)
  crashes : Follows h crash

module _ {h : List ℕ} where
  Follows-bind :
      {m : Flow} {f : Server → Flow}
      → Follows h m
      → ((s : Server) → Holding h s → Follows h (f s))
      → Follows h (m >>= f)
  Follows-bind (goes {s} t) k = k s t
  Follows-bind (stops t) k = stops t
  Follows-bind crashes k = crashes

  Follows-if : (b : Bool) {m n : Flow} → Follows h m → Follows h n → Follows h (if b then m else n)
  Follows-if true p q = p
  Follows-if false p q = q

  pub sent-Holding : (msg : Ttlv) (s : Server) → Holding h s → Holding h (serv_msg_send msg s).0
  sent-Holding msg s t = subst (Tracks h) (sym (serv_msg_send-keeps msg s).0) t

  send_from-Follows : (start : ℕ) (s : Server) → Holding h s → Follows h (send_from start s)
  unfolding send_from
  send_from-Follows start s t =
      Follows-if (ltb 0 size)
        (Follows-if (serv_msg_send msg s).1 (goes (mark_sent-Tracks u)) (stops u)) (goes t)
    where
      size : ℕ
      size = s.buffers.oldcnt + s.buffers.newcnt - start

      msg : Ttlv
      msg = ttlv_new_raw tag_output size (drop start s.buffers.rawbuf)

      u : Holding h (serv_msg_send msg s).0
      u = sent-Holding msg s t

  send_if-Follows : (o : Option ℕ) (s : Server) → Holding h s → Follows h (send_if o s)
  send_if-Follows none s t = crashes
  send_if-Follows (some start) s t =
      send_from-Follows start (record s { conn = record (s.conn) { lookback = 0 } }) t

  matched-Follows :
      (s : Server) (r : Option Server) → Holding h s → MatchedIf s r → Follows h (matched r s)
  matched-Follows s none t no_match = goes t
  matched-Follows s (some s') t (match m) = stops (
      sent-Holding (ttlv_new_bool tag_matched 1) s' (
        subst (Tracks h) (sym (m.left ∙ ap (λ rest. record (s.buffers) { expbuf = rest }) m.behind))
          (consumed-Tracks m.index t)))

  try_copied-Follows :
      (regex : Regex) (pattern : List ℕ) (s : Server) (o : Option Buffers)
      → Holding h s
      → buf_raw2expect s.buffers ≡ o
      → Follows h (try_copied regex pattern s o)
  try_copied-Follows regex pattern s none t e = crashes
  try_copied-Follows regex pattern s (some b) t e =
      matched-Follows (with_buffers s b) (serv_expect regex pattern (with_buffers s b))
        (buf_raw2expect-Tracks t e) (serv_expect-MatchedIf regex pattern (with_buffers s b))

  match_kind-Follows :
      (regex : Regex) (s : Server) (pattern : Option (List ℕ))
      → Holding h s
      → Follows h (match_kind regex s pattern)
  match_kind-Follows regex s (some pattern) t =
      try_copied-Follows regex pattern s (buf_raw2expect s.buffers) t refl
  match_kind-Follows regex s none t =
      Follows-if ((s.conn.subcmd == pass_subcmd_interact) || (s.conn.subcmd == pass_subcmd_wait))
        (goes (skip_expect-Tracks t)) (goes t)

  report_exit-Holding : (s : Server) → Holding h s → Holding h (report_exit s)
  report_exit-Holding s t = elim (Bool-cases (not s.waited && s.child_dead)) [
    | inl e ↦
        rw e
          (sent-Holding (ttlv_new_int tag_exited s.env.exitstatus) (record s { waited = true }) t)
    | inr e ↦ rw e t
  ]

  at_eof-Follows : (s : Server) → Holding h s → Follows h (at_eof s)
  unfolding at_eof
  at_eof-Follows s t =
      Follows-if (not s.ptm_open && (s.buffers.newcnt == 0))
        (Follows-if (has_flag s.conn.expflags pass_expect_eof)
          (stops (
            sent-Holding (ttlv_new_struct tag_eof) (with_buffers s (discard_expect s.buffers))
              (discard_expect-Tracks t)))
          (Follows-if (has_flag s.conn.expflags pass_expect_exit) (stops (report_exit-Holding s t))
            (stops (sent-Holding (serv_new_error error_eof pty_closed) s t))))
        (goes t)

  at_timeout-Follows : (s : Server) → Holding h s → Follows h (at_timeout s)
  unfolding at_timeout
  at_timeout-Follows s t =
      Follows-if (exp_timed_out s)
        (stops (sent-Holding (serv_new_error error_timeout expect_timed_out) s t)) (goes t)

  pub serv_pass-Follows : (regex : Regex) (s : Server) → Holding h s → Follows h (serv_pass regex s)
  unfolding serv_pass send_output match_pattern
  serv_pass-Follows regex s t = Follows-if (not s.conn.sock || not s.conn.passing) (stops t) (
      Follows-bind (send_if-Follows (send_start s.conn.lookback s.buffers) s t) λ s₁ t₁.
        Follows-bind (match_kind-Follows regex s₁ s₁.conn.pattern t₁)
          λ s₂ t₂. Follows-bind (at_eof-Follows s₂ t₂) λ s₃ t₃. at_timeout-Follows s₃ t₃)
