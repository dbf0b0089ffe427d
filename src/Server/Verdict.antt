-- ===== src/Server/Verdict.antt =====
-- Proofs on what the parts of serv_pass tell the client (server.c, serv_pass).
use sexpect.Base.{
  ℕ, ◌≡◌, refl, Bool, true, false, not, ◌&&◌, [], ◌∷◌, ◌++◌, ◌==◌, if◌then◌else◌, arith, Bool-cases,
  inl, inr, ◌∙◌, sym, ap,
}
use sexpect.Proto.Message.{Ttlv, ttlv_new_int, ttlv_new_bool, ttlv_new_struct}
use sexpect.Tags.{
  has_flag, pass_expect_eof, pass_expect_exit, tag_matched, tag_eof, tag_exited, error_eof,
  error_timeout,
}
use sexpect.Server.Buffers.{discard_expect}
use sexpect.Server.State.{Server, serv_new_error, serv_msg_send, reply}
use sexpect.Server.Expect.{exp_timed_out}
use sexpect.Server.Pass.{
  Flow, go, done, ◌>>=◌, pty_closed, expect_timed_out, stop_passing, with_buffers, report_exit,
  at_eof, at_timeout,
}

-- The message that ends a request for output, for the flags of the request: a match, the end of
-- the output where that was asked for or not, a timeout, or how the child ended.
pub data Verdict (flags : ℕ) : Ttlv → Type 0 where
  found : Verdict flags (ttlv_new_bool tag_matched 1)
  at_end : has_flag flags pass_expect_eof ≡ true → Verdict flags (ttlv_new_struct tag_eof)
  closed : Verdict flags (serv_new_error error_eof pty_closed)
  late : Verdict flags (serv_new_error error_timeout expect_timed_out)
  ended : (status : ℕ) → Verdict flags (ttlv_new_int tag_exited status)

-- A connected client waits for output, and no message to it is lost.
pub record IsHeard (s : Server) : Type 0 where
  pub sock : s.conn.sock ≡ true
  pub passing : s.conn.passing ≡ true
  pub link : s.env.link ≡ []

-- The server with a client, and with no message ahead that is lost.
abbrev pub linked : Server → Server
linked s = record s { conn = record (s.conn) { sock = true }; env = record (s.env) { link = [] } }

pub linked-id : (s : Server) → s.conn.sock ≡ true → s.env.link ≡ [] → linked s ≡ s
linked-id s c l =
    ap (λ b. record s { conn = record (s.conn) { sock = b }; env = record (s.env) { link = [] } })
      (sym c)
    ∙ ap (λ k. record s { env = record (s.env) { link = k } }) (sym l)

-- What decides how a request ends without a match: its flags, whether the terminal is open, whether
-- the child is dead and was collected, its status, and whether the time is up.
pub record Facts : Type 0 where
  pub flags : ℕ
  pub ptm_open : Bool
  pub child_dead : Bool
  pub waited : Bool
  pub exitstatus : ℕ
  pub due : Bool

abbrev pub facts : Server → Facts
facts s = record {
  flags = s.conn.expflags;
  ptm_open = s.ptm_open;
  child_dead = s.child_dead;
  waited = s.waited;
  exitstatus = s.env.exitstatus;
  due = exp_timed_out s;
}

-- When a verdict other than a match is right.
abbrev pub IsRight : (f : Facts) {msg : Ttlv} → Verdict f.flags msg → Type 0
IsRight f found = ⊥
IsRight f (at_end e) = f.ptm_open ≡ false
IsRight f closed =
    (f.ptm_open ≡ false)
    × (has_flag f.flags pass_expect_eof ≡ false)
    × (has_flag f.flags pass_expect_exit ≡ false)
IsRight f late = f.due ≡ true
IsRight f (ended status) =
    (f.ptm_open ≡ false)
    × (has_flag f.flags pass_expect_eof ≡ false)
    × (has_flag f.flags pass_expect_exit ≡ true)
    × (f.child_dead ≡ true)
    × (f.waited ≡ false)
    × (status ≡ f.exitstatus)

abbrev pub Decided : Facts → Ttlv → Type 0
Decided f msg = (v : Verdict f.flags msg) × IsRight f v

-- A closed terminal waits for the child to exit.
abbrev pub AwaitsExit : Facts → Type 0
AwaitsExit f =
    (f.ptm_open ≡ false)
    × (has_flag f.flags pass_expect_eof ≡ false)
    × (has_flag f.flags pass_expect_exit ≡ true)
    × ((not f.waited && f.child_dead) ≡ false)

-- The round behind the match: the request stays, before its time is up or while a closed terminal
-- waits for the child to exit, or is over with the right message.
pub data Ends (s : Server) : Flow → Type 0 where
  goes : exp_timed_out s ≡ false → Ends s (go s)
  stops : AwaitsExit (facts s) → Ends s (done s)
  over :
      {s' : Server} (msg : Ttlv)
      → Decided (facts s) msg
      → s'.conn.passing ≡ false
      → s'.sent ≡ s.sent ++ (msg ∷ [])
      → Ends s (done s')

Ends-if :
    {s : Server} (b : Bool) {m n : Flow}
    → (b ≡ true → Ends s m)
    → (b ≡ false → Ends s n)
    → Ends s (if b then m else n)
Ends-if true h k = h refl
Ends-if false h k = k refl

-- A message goes out, whatever the rest of the server.
pub reply-sent :
    (msg : Ttlv) (s : Server)
    → s.conn.sock ≡ true
    → s.env.link ≡ []
    → (reply msg s).sent ≡ s.sent ++ (msg ∷ [])
unfolding serv_msg_send
reply-sent msg s e f = ground (arith, e, f)

-- The request ends with a message.
answered :
    (msg : Ttlv) {s s' : Server}
    → IsHeard s'
    → s'.sent ≡ s.sent
    → Decided (facts s) msg
    → Ends s (done (stop_passing (reply msg s')))
answered msg {s = s} {s' = s'} h e d =
    over msg d refl (reply-sent msg s' h.sock h.link ∙ ap (λ l. l ++ (msg ∷ [])) e)

report_exit-Ends :
    (s : Server)
    → IsHeard s
    → s.ptm_open ≡ false
    → has_flag s.conn.expflags pass_expect_eof ≡ false
    → has_flag s.conn.expflags pass_expect_exit ≡ true
    → Ends s (done (report_exit s))
report_exit-Ends s h c n e = elim (Bool-cases (not s.waited && s.child_dead)) [
  | inl d ↦ rw d (
      answered (ttlv_new_int tag_exited s.env.exitstatus) {s = s} {s' = record s { waited = true }}
        (record { sock = h.sock; passing = h.passing; link = h.link }) refl
        (ended s.env.exitstatus, (c, n, e, ground arith, ground arith, refl)))
  | inr d ↦ rw d (stops (c, n, e, d))
]

at_timeout-Ends : (s : Server) → IsHeard s → Ends s (at_timeout s)
unfolding at_timeout
at_timeout-Ends s h =
    Ends-if (exp_timed_out s)
      (λ e. answered (serv_new_error error_timeout expect_timed_out) h refl (late, e)) (λ e. goes e)

-- The end of the output, and then the time.
pub at_eof-Ends : (s : Server) → IsHeard s → Ends s (at_eof s >>= at_timeout)
unfolding at_eof
at_eof-Ends s h = closing (not s.ptm_open && (s.buffers.newcnt == 0)) refl
  where
    without_eof :
        (exit : Bool)
        → s.ptm_open ≡ false
        → has_flag s.conn.expflags pass_expect_eof ≡ false
        → has_flag s.conn.expflags pass_expect_exit ≡ exit
        → Ends s (
            (if exit
              then done (report_exit s)
              else done (stop_passing (reply (serv_new_error error_eof pty_closed) s)))
            >>= at_timeout)
    without_eof true shut n e = report_exit-Ends s h shut n e
    without_eof false shut n e =
        answered (serv_new_error error_eof pty_closed) h refl (closed, (shut, n, e))

    with_eof :
        (eof : Bool)
        → s.ptm_open ≡ false
        → has_flag s.conn.expflags pass_expect_eof ≡ eof
        → Ends s (
            (if eof
              then done (
                  stop_passing
                    (reply (ttlv_new_struct tag_eof) (with_buffers s (discard_expect s.buffers))))
              else if has_flag s.conn.expflags pass_expect_exit
              then done (report_exit s)
              else done (stop_passing (reply (serv_new_error error_eof pty_closed) s)))
            >>= at_timeout)
    with_eof true shut e =
        answered (ttlv_new_struct tag_eof) {s = s} {s' = with_buffers s (discard_expect s.buffers)}
          (record { sock = h.sock; passing = h.passing; link = h.link }) refl (at_end e, shut)
    with_eof false shut n = without_eof (has_flag s.conn.expflags pass_expect_exit) shut n refl

    closing :
        (b : Bool)
        → (not s.ptm_open && (s.buffers.newcnt == 0)) ≡ b
        → Ends s (
            (if b
              then (if has_flag s.conn.expflags pass_expect_eof
                  then done (
                      stop_passing (
                        reply
                          (ttlv_new_struct tag_eof)
                          (with_buffers s (discard_expect s.buffers))))
                  else if has_flag s.conn.expflags pass_expect_exit
                  then done (report_exit s)
                  else done (stop_passing (reply (serv_new_error error_eof pty_closed) s)))
              else go s)
            >>= at_timeout)
    closing true c = with_eof (has_flag s.conn.expflags pass_expect_eof) (ground arith) refl
    closing false c = at_timeout-Ends s h
