-- ===== src/Server/Tried.antt =====
-- Proofs on the output and the match of a round of serv_pass (server.c, serv_pass).
use sexpect.Base.{
  ℕ, ◌+◌, ◌-◌, ◌≡◌, refl, Bool, true, false, ◌||◌, Option, none, some, List, [], ◌∷◌, ◌++◌, ◌==◌,
  ltb, length, if◌then◌else◌, drop, arith, append-nil, ◌∙◌, sym, ap, subst, length-drop,
}
use sexpect.Proto.Message.{Ttlv, ttlv_new_raw, ttlv_new_bool}
use sexpect.Tags.{tag_output, tag_matched, pass_subcmd_interact, pass_subcmd_wait}
use sexpect.Server.Buffers.{Buffers, buf_raw2expect, skip_expect, mark_sent}
use sexpect.Server.State.{Server, serv_msg_send}
use sexpect.Server.Expect.{Regex, serv_expect, exp_timed_out}
use sexpect.Server.PassFrame.{FramesMatch, no_match, match, serv_expect-Touch}
use sexpect.Server.Pass.{
  Flow, go, done, crash, send_from, send_if, match_kind, matched, try_copied, with_buffers,
}
use sexpect.Server.Verdict.{IsHeard, facts, reply-sent, linked, linked-id}

-- Output as it is sent: one message, or none where there is nothing to send.
abbrev pub outputs : List ℕ → List Ttlv
outputs [] = []
outputs (x ∷ xs) = ttlv_new_raw tag_output (length (x ∷ xs)) (x ∷ xs) ∷ []

abbrev pub sent_buffers : List ℕ → Buffers → Buffers
sent_buffers [] b = b
sent_buffers (x ∷ xs) b = record b { oldcnt = b.oldcnt + b.newcnt; newcnt = 0 }

-- The server once the raw buffer went out from index `start` on, to its end.
abbrev pub passed_on : ℕ → Server → Server
passed_on start s = record s {
  conn = record (s.conn) { lookback = 0 };
  buffers = sent_buffers (drop start s.buffers.rawbuf) s.buffers;
  sent = s.sent ++ outputs (drop start s.buffers.rawbuf);
}

-- What serv_expect finds with a pattern, once the output was copied to the expect buffer.
abbrev pub match_of : Regex → Server → Option (List ℕ) → Option Buffers → Option Server
match_of regex t none o = none
match_of regex t (some pattern) none = none
match_of regex t (some pattern) (some b) = serv_expect regex pattern (with_buffers t b)

abbrev pub match_in : Regex → Server → Option Server
match_in regex t = match_of regex t t.conn.pattern (buf_raw2expect t.buffers)

-- The match, on a server whose output went out.
pub data Tried (regex : Regex) (t : Server) : Flow → Type 0 where
  hit :
      {s' r : Server}
      → match_in regex t ≡ some r
      → s'.conn.passing ≡ false
      → s'.sent ≡ t.sent ++ (ttlv_new_bool tag_matched 1 ∷ [])
      → Tried regex t (done s')
  missed :
      {s' : Server}
      → match_in regex t ≡ none
      → IsHeard s'
      → facts s' ≡ facts t
      → s'.sent ≡ t.sent
      → Tried regex t (go s')
  broke : buf_raw2expect t.buffers ≡ none → Tried regex t crash

match_in-match_of :
    (regex : Regex) (t : Server) {pattern : Option (List ℕ)} {o : Option Buffers}
    → t.conn.pattern ≡ pattern
    → buf_raw2expect t.buffers ≡ o
    → match_in regex t ≡ match_of regex t pattern o
match_in-match_of regex t {pattern} e f =
    ap (λ p. match_of regex t p (buf_raw2expect t.buffers)) e ∙ ap (match_of regex t pattern) f

pub match_kind-Tried :
    (regex : Regex) (t : Server) (pattern : Option (List ℕ))
    → IsHeard t
    → t.conn.pattern ≡ pattern
    → Tried regex t (match_kind regex t pattern)
unfolding exp_timed_out
match_kind-Tried regex t (some pattern) h e = copied (buf_raw2expect t.buffers) refl
  where
    tried :
        (b : Buffers) (r : Option Server)
        → match_in regex t ≡ r
        → FramesMatch (with_buffers t b) r
        → Tried regex t (matched r (with_buffers t b))
    tried b none m no_match =
        missed m (record { sock = h.sock; passing = h.passing; link = h.link }) refl refl
    tried b (some r) m (match c) = hit m refl (
        reply-sent (ttlv_new_bool tag_matched 1) r (ap (λ k. k.sock) c.conn ∙ h.sock)
          (ap (λ k. k.link) c.env ∙ h.link)
        ∙ ap (λ l. l ++ (ttlv_new_bool tag_matched 1 ∷ [])) c.sent)

    copied :
        (o : Option Buffers)
        → buf_raw2expect t.buffers ≡ o
        → Tried regex t (try_copied regex pattern t o)
    copied none f = broke f
    copied (some b) f =
        tried b (serv_expect regex pattern (with_buffers t b)) (match_in-match_of regex t e f)
          (serv_expect-Touch regex pattern (with_buffers t b))
match_kind-Tried regex t none h e =
    skipped ((t.conn.subcmd == pass_subcmd_interact) || (t.conn.subcmd == pass_subcmd_wait))
  where
    skipped :
        (b : Bool) → Tried regex t (if b then go (with_buffers t (skip_expect t.buffers)) else go t)
    skipped true =
        missed (match_in-match_of regex t e refl)
          (record { sock = h.sock; passing = h.passing; link = h.link }) refl refl
    skipped false = missed (match_in-match_of regex t e refl) h refl refl

-- The output goes out whole.
pub send_if-passed_on :
    (start : ℕ) (s : Server)
    → IsHeard s
    → length s.buffers.rawbuf ≡ s.buffers.oldcnt + s.buffers.newcnt
    → send_if (some start) s ≡ go (passed_on start s)
unfolding send_from serv_msg_send mark_sent
send_if-passed_on start s h filled =
    subst (λ t. send_if (some start) t ≡ go (passed_on start t)) (linked-id s h.sock h.link)
      (rw size (on (drop start s.buffers.rawbuf)))
  where
    size : s.buffers.oldcnt + s.buffers.newcnt - start ≡ length (drop start s.buffers.rawbuf)
    size = omega (arith, length-drop start s.buffers.rawbuf, filled)

    t : Server
    t = record (linked s) { conn = record (s.conn) { sock = true; lookback = 0 } }

    on :
        (out : List ℕ)
        → (if ltb 0 (length out)
            then go (record t {
              sent = s.sent ++ (ttlv_new_raw tag_output (length out) out ∷ []);
              buffers = record (s.buffers) {
                oldcnt = s.buffers.oldcnt + s.buffers.newcnt;
                newcnt = 0;
              };
            })
            else go t)
          ≡ go (record t { buffers = sent_buffers out s.buffers; sent = s.sent ++ outputs out })
    on [] = ap (λ l. go (record t { sent = l })) (sym (append-nil s.sent))
    on (x ∷ xs) =
        let some_output : ltb 0 (length (x ∷ xs)) ≡ true = ground arith in rw some_output refl
