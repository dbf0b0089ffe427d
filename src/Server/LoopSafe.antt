-- ===== src/Server/LoopSafe.antt =====
-- Proofs on serv_loop in blocking mode (server.c).
use sexpect.Base.{
  ℕ, ◌-◌, ◌≡◌, ◌≢◌, Bool, true, false, not, ◌||◌, Option, List, [], ◌∷◌, All, ltb, if◌then◌else◌,
  arith, inl, inr, Bool-cases, ◌∙◌, All-drop,
}
use sexpect.Server.Buffers.{Buffers, drop_old_raw, drop_old_exp, drop_old_data, max_old_data}
use sexpect.Server.Invariant.{IsSynced, drop_old_data-IsSynced}
use sexpect.Server.Output.{send_start-ne-none}
use sexpect.Server.State.{Server}
use sexpect.Server.Expect.{Regex}
use sexpect.Server.Pass.{Flow, go, done, crash, with_buffers, serv_pass}
use sexpect.Server.PassSafe.{Leaves, serv_pass-IsSynced}
use sexpect.Server.PassFrame.{Frame, Frame-refl, Frames, goes, stops, serv_pass-Frames}
use sexpect.Server.InOrder.{InOrder, Handles, handles}
use sexpect.Server.Loop.{
  Loop, Ready, begin_round, close_on_exit, leaves, Round, next, left, crashed, end_round,
  pass_round, selected, serv_round, serv_loop,
}
use sexpect.Server.AtHead.{
  IsText, IsPlainReady, AtHead, AtHead-InOrder, begin_round-AtHead, close_on_exit-AtHead,
  accept_client-AtHead, read_ptm-AtHead, drop_unread-AtHead, hear_client-Handles,
}

-- How a round may end.
pub data Sound : Round → Type 0 where
  goes_on : {l : Loop} → AtHead l.server → Sound (next l)
  ends : {s : Server} → Sound (left s)

rawbuf-drop_old_exp : (b : Buffers) → (drop_old_exp b).rawbuf ≡ b.rawbuf
unfolding drop_old_exp
rawbuf-drop_old_exp b = ground arith

clean-drop_old_raw : (b : Buffers) → IsText b.rawbuf → IsText (drop_old_raw b).rawbuf
unfolding drop_old_raw
clean-drop_old_raw b clean = elim (Bool-cases (ltb max_old_data b.oldcnt)) [
  | inl e ↦ rw e (All-drop (λ x. x ≢ 0) (b.oldcnt - max_old_data) b.rawbuf clean)
  | inr e ↦ rw e clean
]

clean-drop_old_data : (b : Buffers) → IsText b.rawbuf → IsText (drop_old_data b).rawbuf
unfolding drop_old_data
clean-drop_old_data b clean = rw rawbuf-drop_old_exp (clean-drop_old_raw b clean)

framed :
    {s s' : Server}
    → InOrder s
    → Frame s s'
    → IsSynced (drop_old_data s'.buffers)
    → AtHead (with_buffers s' (drop_old_data s'.buffers))
framed {s} {s'} o f synced = record {
  synced = synced;
  clean = clean-drop_old_data s'.buffers (rw f.raw o.clean);
  copying = λ p. rw (f.pattern, f.subcmd) (o.copying (f.passing p));
  blocking = f.nonblock ∙ o.blocking;
}

-- The end of a round, from what serv_pass did to the buffers and what it left alone.
end_round-Sound :
    (exits : ℕ) (s : Server) (f : Flow)
    → InOrder s
    → Leaves (λ s'. IsSynced (drop_old_data s'.buffers)) f
    → Frames s f
    → Sound (end_round exits f)
end_round-Sound exits s crash o sound f = absurd sound
end_round-Sound exits s (go s') o sound (goes f) = goes_on (framed o f sound)
end_round-Sound exits s (done s') o sound (stops f) = goes_on (framed o f sound)

serv_pass-Sound :
    (regex : Regex) (exits : ℕ) (s : Server)
    → InOrder s
    → Sound (end_round exits (serv_pass regex s))
unfolding serv_pass
serv_pass-Sound regex exits s o = elim (Bool-cases (not s.conn.sock || not s.conn.passing)) [
  | inl idle ↦
      rw idle
        (goes_on (framed o (Frame-refl s) (drop_old_data-IsSynced o.ready.valid o.ready.seen)))
  | inr busy ↦
      end_round-Sound exits s (serv_pass regex s) o
        (serv_pass-IsSynced regex s o.ready (o.copying (ground arith))
          (send_start-ne-none s.conn.lookback s.buffers o.clean))
        (serv_pass-Frames regex s)
]

pass_round-Sound :
    (regex : Regex) (exits : ℕ) {r : Option Server} → Handles r → Sound (pass_round regex exits r)
pass_round-Sound regex exits (handles {s} o) = serv_pass-Sound regex exits s o

selected-Sound :
    (regex : Regex) (r : Ready) (l : Loop)
    → IsPlainReady r
    → AtHead l.server
    → Sound (selected regex r l)
unfolding selected
selected-Sound regex r l p h = pass_round-Sound regex l.exits (
    hear_client-Handles l.server.conn.sock r
      (AtHead-InOrder (drop_unread-AtHead (read_ptm-AtHead r p.ptm (accept_client-AtHead r h))))
      p.client)

Sound-if : (b : Bool) {x y : Round} → Sound x → Sound y → Sound (if b then x else y)
Sound-if true h k = h
Sound-if false h k = k

-- One round of serv_loop on text and plain requests, in blocking mode, ends the loop or leads to
-- the next round in order: it does not crash.
pub serv_round-Sound :
    (regex : Regex) (r : Ready) (l : Loop)
    → IsPlainReady r
    → AtHead l.server
    → Sound (serv_round regex r l)
unfolding serv_round
serv_round-Sound regex r l p h =
    let l' = close_on_exit (record l { server = begin_round r l.server }) in
    let h' =
      close_on_exit-AtHead (record l { server = begin_round r l.server })
        (begin_round-AtHead r h) in
    Sound-if (not l.server.waited || l.server.conn.sock)
      (Sound-if (leaves l'.server) ends
        (Sound-if r.interrupted (goes_on h') (selected-Sound regex r l' p h')))
      ends

serv_loop-Sound :
    (regex : Regex) (rs : List Ready) {outcome : Round}
    → All IsPlainReady rs
    → Sound outcome
    → Sound (serv_loop regex rs outcome)
unfolding serv_loop
serv_loop-Sound regex [] p s = s
serv_loop-Sound regex (r ∷ rs) p (goes_on {l} h) =
    serv_loop-Sound regex rs p.1 (serv_round-Sound regex r l p.0 h)
serv_loop-Sound regex (r ∷ rs) p ends = ends

-- However many rounds come, whatever the regular expressions, the clock and the links do: a server
-- in blocking mode that starts in order does not crash, if the child writes no NUL bytes and no
-- client asks for `expect -eof` without a pattern, leaves out a part of a request, or turns on
-- -nonblock.
pub serv_loop-ne-crashed :
    (regex : Regex) (rs : List Ready) (l : Loop)
    → All IsPlainReady rs
    → AtHead l.server
    → serv_loop regex rs (next l) ≢ crashed
serv_loop-ne-crashed regex rs l p h = sound (serv_loop-Sound regex rs p (goes_on h))
  where
    sound : {r : Round} → Sound r → r ≢ crashed
    sound (goes_on k) = cc
    sound ends = cc
