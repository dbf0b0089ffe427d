-- ===== src/Server/PassSafe.antt =====
-- Proofs on what serv_pass does to the buffers (server.c, serv_pass and drop_old_data).
use sexpect.Base.{
  ℕ, ◌≡◌, ◌≢◌, refl, true, not, ◌&&◌, ◌||◌, Option, none, some, List, ◌==◌, arith, inl, inr, sym,
  ◌∙◌, Bool-cases, subst,
}
use sexpect.Proto.Message.{Ttlv, ttlv_new_int, ttlv_new_bool, ttlv_new_struct}
use sexpect.Tags.{
  has_flag, pass_expect_eof, pass_expect_exit, pass_subcmd_interact, pass_subcmd_wait, tag_matched,
  tag_eof, tag_exited, error_eof, error_timeout,
}
use sexpect.Server.Buffers.{
  Buffers, buf_raw2expect, mark_sent, skip_expect, discard_expect, drop_old_data,
}
use sexpect.Server.Invariant.{
  IsSynced, IsReady, mark_sent-IsValid, skip_expect-IsValid, discard_expect-IsValid, copy_sent,
  copy_unsent, drop_old_data-IsSynced,
}
use sexpect.Server.Lookback.{send_start}
use sexpect.Server.State.{Server, serv_new_error, reply}
use sexpect.Server.Expect.{Regex, serv_expect, exp_timed_out}
use sexpect.Server.Pass.{
  Flow, go, done, crash, with_buffers, matched, try_copied, match_kind, match_pattern, report_exit,
  at_eof, at_timeout, serv_pass, pty_closed, expect_timed_out,
}
use sexpect.Server.Copied.{
  Runs, goes, stops, Runs-bind, Runs-if, IsSeen, copies, IsUncopied, unsent, was_sent, Uncopied,
  Seen, serv_msg_send-keeps, IsReady-IsSeen, send_output-Runs, consume-IsSeen, MatchedIf, no_match,
  match, serv_expect-MatchedIf,
}

reply-buffers : (msg : Ttlv) (s : Server) → (reply msg s).buffers ≡ s.buffers
reply-buffers msg s = (serv_msg_send-keeps msg s).0

matched-Runs :
    (s : Server) (r : Option Server)
    → IsSeen s.buffers
    → MatchedIf s r
    → Runs Seen Seen (matched r s)
matched-Runs s none seen no_match = goes seen
matched-Runs s (some s') seen (match m) = stops (
    subst IsSeen (sym (reply-buffers (ttlv_new_bool tag_matched 1) s' ∙ m.left))
      (consume-IsSeen m.rest seen m.shorter))

copied : {b : Buffers} → IsUncopied b → (c : Buffers) × (buf_raw2expect b ≡ some c) × IsSeen c
copied (unsent s) = let (c, e, r) = copy_unsent s in (c, e, IsReady-IsSeen r)
copied (was_sent s) = let (c, e, r) = copy_sent s in (c, e, IsReady-IsSeen r)

skipped : {b : Buffers} → IsUncopied b → IsSeen (skip_expect b)
unfolding skip_expect mark_sent
skipped (unsent s) = record {
  valid = unfold skip_expect in skip_expect-IsValid s.valid;
  seen = omega (arith, s.valid);
}
skipped (was_sent s) = record {
  valid = skip_expect-IsValid (mark_sent-IsValid s.valid);
  seen = omega (arith, s.valid);
}

match_kind-Runs :
    (regex : Regex) (s : Server) (pattern : Option (List ℕ))
    → Uncopied s
    → s.conn.pattern ≡ pattern
    → Runs Seen Seen (match_kind regex s pattern)
match_kind-Runs regex s (some pattern) u e =
    let (c, copy, seen) = copied u.buffers in
    subst (λ o. Runs Seen Seen (try_copied regex pattern s o)) (sym copy)
      (matched-Runs (with_buffers s c) (serv_expect regex pattern (with_buffers s c)) seen
        (serv_expect-MatchedIf regex pattern (with_buffers s c)))
match_kind-Runs regex s none u e =
    Runs-if ((s.conn.subcmd == pass_subcmd_interact) || (s.conn.subcmd == pass_subcmd_wait))
      (λ h. goes (skipped u.buffers)) (λ h. absurd (ground arith))

match_pattern-Runs :
    (regex : Regex) (s : Server) → Uncopied s → Runs Seen Seen (match_pattern regex s)
unfolding match_pattern
match_pattern-Runs regex s u = match_kind-Runs regex s s.conn.pattern u refl

discarded : {b : Buffers} → IsSeen b → IsSeen (discard_expect b)
discarded s = record {
  valid = discard_expect-IsValid s.valid;
  seen = unfold discard_expect in omega (arith, s.valid);
}

replied : (msg : Ttlv) (s : Server) → Seen s → Seen (reply msg s)
replied msg s seen = subst IsSeen (sym (reply-buffers msg s)) seen

report_exit-Seen : (s : Server) → Seen s → Seen (report_exit s)
report_exit-Seen s seen = elim (Bool-cases (not s.waited && s.child_dead)) [
  | inl e ↦
      rw e (replied (ttlv_new_int tag_exited s.env.exitstatus) (record s { waited = true }) seen)
  | inr e ↦ rw e seen
]

at_eof-Runs : (s : Server) → Seen s → Runs Seen Seen (at_eof s)
unfolding at_eof
at_eof-Runs s seen =
    Runs-if (not s.ptm_open && (s.buffers.newcnt == 0))
      (λ closed.
        Runs-if (has_flag s.conn.expflags pass_expect_eof)
          (λ eof. stops (
            replied (ttlv_new_struct tag_eof) (with_buffers s (discard_expect s.buffers))
              (discarded seen)))
          (λ other.
            Runs-if (has_flag s.conn.expflags pass_expect_exit)
              (λ exit. stops (report_exit-Seen s seen))
              (λ pattern. stops (replied (serv_new_error error_eof pty_closed) s seen))))
      (λ open_still. goes seen)

at_timeout-Runs : (s : Server) → Seen s → Runs Seen Seen (at_timeout s)
unfolding at_timeout
at_timeout-Runs s seen =
    Runs-if (exp_timed_out s)
      (λ late. stops (replied (serv_new_error error_timeout expect_timed_out) s seen))
      (λ in_time. goes seen)

serv_pass-Runs :
    (regex : Regex) (s : Server)
    → IsReady s.buffers
    → copies s.conn ≡ true
    → send_start s.conn.lookback s.buffers ≢ none
    → Runs Seen Seen (serv_pass regex s)
unfolding serv_pass
serv_pass-Runs regex s synced c begins =
    Runs-if (not s.conn.sock || not s.conn.passing) (λ idle. stops (IsReady-IsSeen synced))
      (λ busy. Runs-bind (send_output-Runs s synced c begins) λ s₁ u.
        Runs-bind (match_pattern-Runs regex s₁ u)
          λ s₂ seen₂. Runs-bind (at_eof-Runs s₂ seen₂) λ s₃ seen₃. at_timeout-Runs s₃ seen₃)

-- The server that a flow leaves, if it did not crash.
abbrev pub Leaves : (Server → Type 0) → Flow → Type 0
Leaves P (go s) = P s
Leaves P (done s) = P s
Leaves P crash = ⊥

Runs-Leaves :
    {P Q : Server → Type 0} {m : Flow} → Runs P P m → ((s : Server) → P s → Q s) → Leaves Q m
Runs-Leaves (goes {s} h) k = k s h
Runs-Leaves (stops {s} h) k = k s h

-- A round of serv_pass for a client with a pattern, or for `interact` or `wait`, whatever the link,
-- the regular expressions and the clock do: if the buffers are in order at the head of the round
-- and the output has a place to begin, then the assert passes, and the buffers are in order again
-- behind the drop_old_data at the end of the round.
pub serv_pass-IsSynced :
    (regex : Regex) (s : Server)
    → IsReady s.buffers
    → copies s.conn ≡ true
    → send_start s.conn.lookback s.buffers ≢ none
    → Leaves (λ s'. IsSynced (drop_old_data s'.buffers)) (serv_pass regex s)
serv_pass-IsSynced regex s synced c begins =
    Runs-Leaves (serv_pass-Runs regex s synced c begins)
      λ s' seen. drop_old_data-IsSynced seen.valid seen.seen
