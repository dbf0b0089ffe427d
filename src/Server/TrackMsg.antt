-- ===== src/Server/TrackMsg.antt =====
-- Proofs on what serv_process_msg keeps of the output (server.c).
use sexpect.Base.{
  ℕ, ◌≡◌, refl, sym, subst, Bool, true, false, not, Option, none, some, List, ◌==◌, if◌then◌else◌,
}
use sexpect.Base.Int.{signed32}
use sexpect.Proto.Message.{Ttlv, null, node, Value, get_int, ttlv_new_struct, ttlv_find_child}
use sexpect.Tags.{
  tag_hello, tag_disconn, tag_send, tag_input, tag_pass, tag_expout, tag_winch, tag_close, tag_kill,
  tag_set, tag_info, tag_version, tag_ack, tag_pass_subcmd, tag_exp_flags, tag_pattern, error_proto,
  tag_winsize_row, tag_winsize_col,
}
use sexpect.Server.Buffers.{Buffers, buf_raw2expect}
use sexpect.Server.State.{Server, close_sock, serv_new_error, reply}
use sexpect.Server.Process.{
  hello, disconn, mismatch_text, int_of, text_of, check_version, serv_hello, serv_disconn,
  process_send, pass_with, pass_flags, pass_subcmd, process_pass, expout_answer, process_expout,
  is_size, resize, process_winch, process_close, process_kill, process_set, info, inform,
  process_info, dispatch, received, serv_process_msg,
}
use sexpect.Server.Pass.{with_buffers}
use sexpect.Server.TrackCopy.{buf_raw2expect-Tracks}
use sexpect.Server.TrackPass.{Holding, sent-Holding}

-- What a handler leaves, where it does not crash.
pub data Answers (h : List ℕ) : Option Server → Type 0 where
  answers : {s : Server} → Holding h s → Answers h (some s)
  crashes : Answers h none

module _ {h : List ℕ} where
  Answers-if :
      (b : Bool) {x y : Option Server} → Answers h x → Answers h y → Answers h (if b then x else y)
  Answers-if true p q = p
  Answers-if false p q = q

  Holding-if :
      (b : Bool) (s t : Server) → Holding h s → Holding h t → Holding h (if b then s else t)
  Holding-if true s t p q = p
  Holding-if false s t p q = q

  check_version-Holding :
      (client : Option (List ℕ)) (s : Server) → Holding h s → Holding h (check_version client s)
  check_version-Holding none s t = t
  check_version-Holding (some client) s t =
      Holding-if (sexpect.Base.streq sexpect.Server.Process.version client) _ _
        (sent-Holding hello s t)
        (sent-Holding (serv_new_error error_proto (mismatch_text client)) s t)

  serv_hello-Holding : (msg : Ttlv) (s : Server) → Holding h s → Holding h (serv_hello msg s)
  unfolding serv_hello
  serv_hello-Holding msg s t =
      Holding-if (not s.conn.sock) _ _ t
        (check_version-Holding (text_of (ttlv_find_child msg tag_version)) s t)

  serv_disconn-Holding : (s : Server) → Holding h s → Holding h (serv_disconn s)
  unfolding serv_disconn
  serv_disconn-Holding s t = Holding-if (not s.conn.sock) _ _ t (sent-Holding disconn s t)

  process_send-Holding :
      (answer : Bool) (len : ℕ) (v : Value) (s : Server)
      → Holding h s
      → Holding h (process_send answer len v s)
  unfolding process_send
  process_send-Holding answer len v s t =
      Holding-if answer _ _
        (sent-Holding (ttlv_new_struct tag_ack) _ (Holding-if s.ptm_open _ _ t t))
        (Holding-if s.ptm_open _ _ t t)

  pass_flags-Answers :
      (subcmd : ℕ) (flags : Option ℕ) (msg : Ttlv) (s : Server)
      → Holding h s
      → Answers h (pass_flags subcmd flags msg s)
  pass_flags-Answers subcmd none msg s t = crashes
  pass_flags-Answers subcmd (some flags) msg s t =
      answers (on (text_of (ttlv_find_child msg tag_pattern)))
    where
      on : (pattern : Option (List ℕ)) → Holding h (pass_with subcmd flags pattern msg s)
      on none = t
      on (some pattern) = unfold sexpect.Server.State.free_expect_out in t

  pass_subcmd-Answers :
      (subcmd : Option ℕ) (msg : Ttlv) (s : Server)
      → Holding h s
      → Answers h (pass_subcmd subcmd msg s)
  pass_subcmd-Answers none msg s t = crashes
  pass_subcmd-Answers (some subcmd) msg s t =
      pass_flags-Answers subcmd (int_of (ttlv_find_child msg tag_exp_flags)) msg s t

  process_pass-Answers : (msg : Ttlv) (s : Server) → Holding h s → Answers h (process_pass msg s)
  unfolding process_pass
  process_pass-Answers msg s t =
      pass_subcmd-Answers (int_of (ttlv_find_child msg tag_pass_subcmd)) msg s t

  process_expout-Holding : (v : Value) (s : Server) → Holding h s → Holding h (process_expout v s)
  unfolding process_expout
  process_expout-Holding v s t = sent-Holding (expout_answer (signed32 (get_int v)) s) s t

  resize-Answers : (row col : Option ℕ) (s : Server) → Holding h s → Answers h (resize row col s)
  resize-Answers none col s t = crashes
  resize-Answers (some row) none s t = crashes
  resize-Answers (some row) (some col) s t =
      answers (Holding-if (is_size s.env.winsize row col) _ _ t t)

  process_winch-Answers : (msg : Ttlv) (s : Server) → Holding h s → Answers h (process_winch msg s)
  unfolding process_winch
  process_winch-Answers msg s t = Answers-if (not s.ptm_open) (answers t) (
      resize-Answers (int_of (ttlv_find_child msg tag_winsize_row))
        (int_of (ttlv_find_child msg tag_winsize_col)) s t)

  process_kill-Holding : (v : Value) (s : Server) → Holding h s → Holding h (process_kill v s)
  unfolding process_kill
  process_kill-Holding v s t =
      Holding-if s.env.kill_ok _ _ (sent-Holding (ttlv_new_struct tag_ack) _ t) (sent-Holding _ s t)

  inform-Answers :
      (s : Server) (o : Option Buffers)
      → Holding h s
      → buf_raw2expect s.buffers ≡ o
      → Answers h (inform s o)
  inform-Answers s none t e = crashes
  inform-Answers s (some b) t e =
      answers
        (sent-Holding (info (with_buffers s b)) (with_buffers s b) (buf_raw2expect-Tracks t e))

  dispatch-Answers : (msg : Ttlv) (s : Server) → Holding h s → Answers h (dispatch msg s)
  unfolding dispatch process_close process_set process_info
  dispatch-Answers null s t = answers t
  dispatch-Answers (node tag type len v child next) s t =
      let msg = node tag type len v child next in
      Answers-if (tag == tag_hello) (answers (serv_hello-Holding msg s t)) (
        Answers-if (tag == tag_disconn) (answers (serv_disconn-Holding s t)) (
          Answers-if (tag == tag_send) (answers (process_send-Holding true len v s t)) (
            Answers-if (tag == tag_input) (answers (process_send-Holding false len v s t)) (
              Answers-if (tag == tag_pass) (process_pass-Answers msg s t) (
                Answers-if (tag == tag_expout) (answers (process_expout-Holding v s t)) (
                  Answers-if (tag == tag_winch) (process_winch-Answers msg s t) (
                    Answers-if (tag == tag_close)
                      (answers
                        (sent-Holding (ttlv_new_struct tag_ack) (record s { ptm_open = false }) t))
                      (Answers-if (tag == tag_kill) (answers (process_kill-Holding v s t)) (
                        Answers-if (tag == tag_set)
                          (answers (sent-Holding (ttlv_new_struct tag_ack) _ t))
                          (Answers-if (tag == tag_info)
                            (inform-Answers s (buf_raw2expect s.buffers) t refl)
                            (answers t)))))))))))

  pub serv_process_msg-Answers :
      (msg : Option Ttlv) (s : Server) → Holding h s → Answers h (serv_process_msg msg s)
  unfolding serv_process_msg
  serv_process_msg-Answers none s t = answers t
  serv_process_msg-Answers (some msg) s t =
      dispatch-Answers msg (record s { lastactive = s.env.now }) t
