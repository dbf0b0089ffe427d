-- ===== src/Server/ProcessSafe.antt =====
-- Proofs on what requests do to the buffers (server.c, serv_process_msg).
use sexpect.Base.{
  ℕ, ◌≡◌, ◌≢◌, ◌⊎◌, refl, Bool, true, false, not, Option, none, some, List, ◌++◌, ◌==◌,
  if◌then◌else◌, arith, inl, inr, sym, subst, ap, take, min, codes, ==_iff,
}
use sexpect.Base.Int.{signed32}
use sexpect.Proto.Message.{
  Value, Ttlv, null, node, get_raw, get_int, ttlv_find_child, ttlv_new_struct,
}
use sexpect.Tags.{
  tag_hello, tag_disconn, tag_send, tag_input, tag_pass, tag_expout, tag_winch, tag_close, tag_kill,
  tag_set, tag_info, tag_ack, tag_pass_subcmd, tag_exp_flags, tag_pattern, tag_nonblock,
  tag_winsize_row, tag_winsize_col, pass_subcmd_interact, pass_subcmd_wait, error_sys,
}
use sexpect.Server.Invariant.{copy_unsent}
use sexpect.Server.State.{Server, Conn, Spawn, serv_new_error, free_expect_out}
use sexpect.Server.Pass.{with_buffers}
use sexpect.Server.PassFrame.{copied-raw}
use sexpect.Server.Process.{
  int_of, text_of, truth, if_given, process_send, pass_with, pass_flags, pass_subcmd, process_pass,
  process_expout, resize, is_size, process_winch, process_close, process_kill, set_spawn,
  process_set, info, inform, process_info, dispatch, serv_process_msg, expout_answer,
}
use sexpect.Server.InOrder.{
  IsPlain, InOrder, Calm-InOrder, reply-InOrder, Handles, handles, InOrder-if, Handles-if,
  close_sock-InOrder, serv_hello-InOrder, serv_disconn-InOrder,
}

-- A server that differs in other fields alone.
others :
    {s s' : Server}
    → InOrder s
    → s'.buffers ≡ s.buffers
    → s'.conn ≡ s.conn
    → s'.spawn ≡ s.spawn
    → InOrder s'
others o b c sp = Calm-InOrder o (record {
  buffers = b;
  passing = ap (λ (k : Conn). k.passing) c;
  pattern = ap (λ (k : Conn). k.pattern) c;
  subcmd = ap (λ (k : Conn). k.subcmd) c;
  nonblock = ap (λ (k : Spawn). k.nonblock) sp;
})

process_send-InOrder :
    (answer : Bool) (len : ℕ) (v : Value) {s : Server}
    → InOrder s
    → InOrder (process_send answer len v s)
unfolding process_send
process_send-InOrder answer len v {s} o =
    InOrder-if answer (reply-InOrder (ttlv_new_struct tag_ack) written) written
  where
    written : InOrder (
        if s.ptm_open
        then record s { typed = s.typed ++ take (min s.env.ptm_takes len) (get_raw v) }
        else s)
    written = InOrder-if s.ptm_open (others o refl refl refl) o

pass_with-InOrder :
    (subcmd flags : ℕ) (pattern : Option (List ℕ)) (msg : Ttlv) {s : Server}
    → InOrder s
    → (pattern ≢ none) ⊎ ((subcmd ≡ pass_subcmd_interact) ⊎ (subcmd ≡ pass_subcmd_wait))
    → InOrder (pass_with subcmd flags pattern msg s)
unfolding free_expect_out
pass_with-InOrder subcmd flags none msg o c = record {
  ready = o.ready;
  clean = o.clean;
  copying = λ p. ground arith;
  blocking = o.blocking;
}
pass_with-InOrder subcmd flags (some pattern) msg o c = record {
  ready = o.ready;
  clean = o.clean;
  copying = λ p. refl;
  blocking = o.blocking;
}

pass_flags-Handles :
    (subcmd : ℕ) (flags : Option ℕ) (msg : Ttlv) {s : Server}
    → InOrder s
    → flags ≢ none
    → (text_of (ttlv_find_child msg tag_pattern) ≢ none)
      ⊎ ((subcmd ≡ pass_subcmd_interact) ⊎ (subcmd ≡ pass_subcmd_wait))
    → Handles (pass_flags subcmd flags msg s)
pass_flags-Handles subcmd none msg o f c = absurd (f refl)
pass_flags-Handles subcmd (some flags) msg o f c =
    handles (pass_with-InOrder subcmd flags (text_of (ttlv_find_child msg tag_pattern)) msg o c)

pass_subcmd-Handles :
    (subcmd : Option ℕ) (msg : Ttlv) {s : Server}
    → InOrder s
    → subcmd ≢ none
    → int_of (ttlv_find_child msg tag_exp_flags) ≢ none
    → (text_of (ttlv_find_child msg tag_pattern) ≢ none)
      ⊎ ((subcmd ≡ some pass_subcmd_interact) ⊎ (subcmd ≡ some pass_subcmd_wait))
    → Handles (pass_subcmd subcmd msg s)
pass_subcmd-Handles none msg o n f c = absurd (n refl)
pass_subcmd-Handles (some subcmd) msg o n f c =
    pass_flags-Handles subcmd (int_of (ttlv_find_child msg tag_exp_flags)) msg o f (inner c)
  where
    inner :
        (text_of (ttlv_find_child msg tag_pattern) ≢ none)
          ⊎ ((some subcmd ≡ some pass_subcmd_interact) ⊎ (some subcmd ≡ some pass_subcmd_wait))
        → (text_of (ttlv_find_child msg tag_pattern) ≢ none)
          ⊎ ((subcmd ≡ pass_subcmd_interact) ⊎ (subcmd ≡ pass_subcmd_wait))
    inner (inl h) = inl h
    inner (inr (inl h)) = inr (inl (cc h))
    inner (inr (inr h)) = inr (inr (cc h))

process_expout-InOrder : (v : Value) {s : Server} → InOrder s → InOrder (process_expout v s)
unfolding process_expout
process_expout-InOrder v {s} o = reply-InOrder (expout_answer (signed32 (get_int v)) s) o

resize-Handles :
    (row col : Option ℕ) {s : Server}
    → InOrder s
    → row ≢ none
    → col ≢ none
    → Handles (resize row col s)
resize-Handles none col o r c = absurd (r refl)
resize-Handles (some row) none o r c = absurd (c refl)
resize-Handles (some row) (some col) {s} o r c =
    handles (InOrder-if (is_size s.env.winsize row col) o (others o refl refl refl))

process_close-InOrder : {s : Server} → InOrder s → InOrder (process_close s)
unfolding process_close
process_close-InOrder {s} o = reply-InOrder (ttlv_new_struct tag_ack) (others o refl refl refl)

process_kill-InOrder : (v : Value) {s : Server} → InOrder s → InOrder (process_kill v s)
unfolding process_kill
process_kill-InOrder v {s} o =
    InOrder-if s.env.kill_ok (reply-InOrder (ttlv_new_struct tag_ack) (others o refl refl refl))
      (reply-InOrder (serv_new_error error_sys (take 1023 (codes "kill: " ++ s.env.kill_error))) o)

process_set-InOrder :
    (msg : Ttlv) {s : Server}
    → InOrder s
    → if_given (int_of (ttlv_find_child msg tag_nonblock)) truth false ≡ false
    → InOrder (process_set msg s)
unfolding process_set set_spawn
process_set-InOrder msg {s} o b = reply-InOrder (ttlv_new_struct tag_ack) (record {
  ready = o.ready;
  clean = o.clean;
  copying = o.copying;
  blocking = kept (int_of (ttlv_find_child msg tag_nonblock)) b;
})
  where
    kept :
        (given : Option ℕ)
        → if_given given truth false ≡ false
        → if_given given truth s.spawn.nonblock ≡ false
    kept none h = o.blocking
    kept (some n) h = h

process_info-Handles : {s : Server} → InOrder s → Handles (process_info s)
unfolding process_info
process_info-Handles {s} o =
    let (c, copy, ready) = copy_unsent o.ready in
    subst (λ r. Handles (inform s r)) (sym copy)
      (handles (
        reply-InOrder (info (with_buffers s c)) (record {
          ready = ready;
          clean = rw (copied-raw s.buffers c copy) o.clean;
          copying = o.copying;
          blocking = o.blocking;
        })))

dispatch-Handles : (msg : Ttlv) {s : Server} → InOrder s → IsPlain msg → Handles (dispatch msg s)
unfolding dispatch process_pass process_winch
dispatch-Handles null o p = handles o
dispatch-Handles (node tag type len v child next) {s} o p =
    let msg = node tag type len v child next in
    Handles-if (tag == tag_hello) (λ _. handles (serv_hello-InOrder msg o))
      λ _.
        Handles-if (tag == tag_disconn) (λ _. handles (serv_disconn-InOrder o))
          λ _.
            Handles-if (tag == tag_send) (λ _. handles (process_send-InOrder true len v o))
              λ _.
                Handles-if (tag == tag_input) (λ _. handles (process_send-InOrder false len v o))
                  λ _.
                    Handles-if (tag == tag_pass)
                      (λ e.
                        let t = (==_iff tag tag_pass).0 e in
                        pass_subcmd-Handles (int_of (ttlv_find_child msg tag_pass_subcmd)) msg o
                          (p.subcmd t) (p.flags t) (p.copying t))
                      λ _.
                        Handles-if (tag == tag_expout) (λ _. handles (process_expout-InOrder v o))
                          λ _.
                            Handles-if (tag == tag_winch)
                              (λ e.
                                let t = (==_iff tag tag_winch).0 e in
                                Handles-if (not s.ptm_open) (λ _. handles o)
                                  λ _.
                                    resize-Handles (int_of (ttlv_find_child msg tag_winsize_row))
                                      (int_of (ttlv_find_child msg tag_winsize_col)) o (p.row t)
                                      (p.col t))
                              λ _.
                                Handles-if (tag == tag_close)
                                  (λ _. handles (process_close-InOrder o))
                                  λ _.
                                    Handles-if (tag == tag_kill)
                                      (λ _. handles (process_kill-InOrder v o))
                                      λ _.
                                        Handles-if (tag == tag_set)
                                          (λ e. handles (
                                            process_set-InOrder msg o
                                              (p.blocking ((==_iff tag tag_set).0 e))))
                                          λ _.
                                            Handles-if (tag == tag_info)
                                              (λ _. process_info-Handles o) λ _. handles o

abbrev pub IsPlainInput : Option Ttlv → Type 0
IsPlainInput none = Unit
IsPlainInput (some msg) = IsPlain msg

-- serv_process_msg, in blocking mode and with output free of NUL bytes: whatever msg_recv returns,
-- a message of the kinds IsPlain describes or none, it follows no NULL pointer, fails no assert, and
-- leaves the server in order.
pub serv_process_msg-Handles :
    (msg : Option Ttlv) {s : Server}
    → InOrder s
    → IsPlainInput msg
    → Handles (serv_process_msg msg s)
unfolding serv_process_msg
serv_process_msg-Handles none {s} o p = handles (close_sock-InOrder (others o refl refl refl))
serv_process_msg-Handles (some msg) {s} o p =
    dispatch-Handles msg {s = record s { lastactive = s.env.now }} (others o refl refl refl) p
