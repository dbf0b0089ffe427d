-- ===== src/Server/Outcome.antt =====
-- Proofs on how a round of serv_pass leaves the request (server.c, serv_pass).
use sexpect.Base.{
  ℕ, ◌≢◌, ◌+◌, ◌≡◌, refl, Bool, true, false, not, ◌||◌, Option, none, some, [], ◌∷◌, ◌++◌, length,
  if◌then◌else◌, drop, arith, ◌∙◌, sym, ap, subst,
}
use sexpect.Proto.Message.{Ttlv, ttlv_new_bool}
use sexpect.Tags.{tag_matched}
use sexpect.Server.Buffers.{buf_raw2expect, drop_old_data}
use sexpect.Server.Lookback.{send_start}
use sexpect.Server.State.{Server}
use sexpect.Server.Expect.{Regex, exp_timed_out}
use sexpect.Server.Invariant.{IsReady, IsSynced}
use sexpect.Server.PassSafe.{Leaves, serv_pass-IsSynced}
use sexpect.Server.Copied.{copies}
use sexpect.Server.Pass.{
  Flow, go, done, crash, ◌>>=◌, send_if, send_output, match_pattern, at_eof, at_timeout, serv_pass,
}
use sexpect.Server.Verdict.{
  IsHeard, facts, Decided, AwaitsExit, Ends, goes, stops, over, at_eof-Ends,
}
use sexpect.Server.Tried.{
  outputs, passed_on, match_in, Tried, hit, missed, broke, match_kind-Tried, send_if-passed_on,
}

-- How a round leaves the request: `start` is where the output begins, and `passed_on start s` the
-- server that the match is tried on.
pub data Outcome (regex : Regex) (s : Server) : Flow → Type 0 where
  stays :
      {s' : Server} (start : ℕ)
      → send_start s.conn.lookback s.buffers ≡ some start
      → match_in regex (passed_on start s) ≡ none
      → exp_timed_out s ≡ false
      → s'.conn.passing ≡ true
      → s'.sent ≡ s.sent ++ outputs (drop start s.buffers.rawbuf)
      → Outcome regex s (go s')
  waits :
      {s' : Server} (start : ℕ)
      → send_start s.conn.lookback s.buffers ≡ some start
      → match_in regex (passed_on start s) ≡ none
      → AwaitsExit (facts s)
      → s'.conn.passing ≡ true
      → s'.sent ≡ s.sent ++ outputs (drop start s.buffers.rawbuf)
      → Outcome regex s (done s')
  matches :
      {s' r : Server} (start : ℕ)
      → send_start s.conn.lookback s.buffers ≡ some start
      → match_in regex (passed_on start s) ≡ some r
      → s'.conn.passing ≡ false
      → s'.sent
        ≡ (s.sent ++ outputs (drop start s.buffers.rawbuf)) ++ (ttlv_new_bool tag_matched 1 ∷ [])
      → Outcome regex s (done s')
  decided :
      {s' : Server} (start : ℕ) (msg : Ttlv)
      → send_start s.conn.lookback s.buffers ≡ some start
      → match_in regex (passed_on start s) ≡ none
      → Decided (facts s) msg
      → s'.conn.passing ≡ false
      → s'.sent ≡ (s.sent ++ outputs (drop start s.buffers.rawbuf)) ++ (msg ∷ [])
      → Outcome regex s (done s')
  lost : send_start s.conn.lookback s.buffers ≡ none → Outcome regex s crash
  asserted :
      (start : ℕ)
      → send_start s.conn.lookback s.buffers ≡ some start
      → buf_raw2expect (passed_on start s).buffers ≡ none
      → Outcome regex s crash

module _ (regex : Regex) (s : Server) where
  behind_output :
      (start : ℕ)
      → send_start s.conn.lookback s.buffers ≡ some start
      → {m : Flow} → Tried regex (passed_on start s) m
      → Outcome regex s (m >>= λ s₂. at_eof s₂ >>= at_timeout)
  unfolding exp_timed_out
  behind_output start e (hit m p q) = matches start e m p q
  behind_output start e (broke b) = asserted start e b
  behind_output start e (missed {s' = s₂} m h same q) = ended (at_eof-Ends s₂ h)
    where
      ended : {f : Flow} → Ends s₂ f → Outcome regex s f
      ended (goes due) = stays start e m (sym (ap (λ f. f.due) same) ∙ due) h.passing q
      ended (stops a) = waits start e m (subst AwaitsExit same a) h.passing q
      ended (over msg d p k) =
          decided start msg e m (subst (λ f. Decided f msg) same d) p
            (k ∙ ap (λ l. l ++ (msg ∷ [])) q)

  pub serv_pass-Outcome :
      IsHeard s
      → length s.buffers.rawbuf ≡ s.buffers.oldcnt + s.buffers.newcnt
      → Outcome regex s (serv_pass regex s)
  unfolding serv_pass send_output match_pattern
  serv_pass-Outcome h filled = waiting (not s.conn.sock || not s.conn.passing) refl
    where
      started :
          (o : Option ℕ)
          → send_start s.conn.lookback s.buffers ≡ o
          → Outcome regex s
              (send_if o s >>= λ s₁. match_pattern regex s₁ >>= λ s₂. at_eof s₂ >>= at_timeout)
      started none e = lost e
      started (some start) e = rw (send_if-passed_on start s h filled) (
          behind_output start e (
            match_kind-Tried regex (passed_on start s) s.conn.pattern
              (record { sock = h.sock; passing = h.passing; link = h.link }) refl))

      waiting :
          (b : Bool)
          → (not s.conn.sock || not s.conn.passing) ≡ b
          → Outcome regex s (
              if b
              then done s
              else send_output s >>= λ s₁.
                  match_pattern regex s₁ >>= λ s₂. at_eof s₂ >>= at_timeout)
      waiting true e = let a = h.sock in let b = h.passing in absurd (ground arith)
      waiting false e = started (send_start s.conn.lookback s.buffers) refl

-- A request whose time is up is over behind the next round of serv_pass, while the terminal is
-- open: for a connected client with a pattern, or for `interact` or `wait`, on a link that loses
-- nothing, if the buffers are in order and the output has a place to begin.
pub serv_pass-in_time :
    (regex : Regex) (s : Server)
    → IsHeard s
    → s.ptm_open ≡ true
    → exp_timed_out s ≡ true
    → IsReady s.buffers
    → copies s.conn ≡ true
    → send_start s.conn.lookback s.buffers ≢ none
    → Leaves (λ s'. s'.conn.passing ≡ false) (serv_pass regex s)
serv_pass-in_time regex s h ptm up ready c begins =
    both (serv_pass-Outcome regex s h ready.valid.filled)
      (serv_pass-IsSynced regex s ready c begins)
  where
    both :
        {f : Flow}
        → Outcome regex s f
        → Leaves (λ s'. IsSynced (drop_old_data s'.buffers)) f
        → Leaves (λ s'. s'.conn.passing ≡ false) f
    both (stays start e m d p q) l = absurd (ground (arith, d, up))
    both (waits start e m a p q) l = let shut = a.0 in absurd (ground (arith, shut, ptm))
    both (matches start e m p q) l = p
    both (decided start msg e m d p q) l = p
    both (lost e) l = absurd l
    both (asserted start e b) l = absurd l
