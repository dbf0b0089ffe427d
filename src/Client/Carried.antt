-- ===== src/Client/Carried.antt =====
-- Proofs on the server's side of a command that it answers at once (server.c, serv_process_msg,
-- serv_disconn; client.c, cli_main).
use sexpect.Base.{
  ℕ, ◌^◌, ◌<◌, ◌≡◌, refl, Bool, true, false, some, List, [], ◌∷◌, ◌++◌, ltb, min, if◌then◌else◌,
  arith, ap, sym, ◌∙◌, length, codes, take, take_all, length-append, subst, Bool-cases, inl, inr,
}
use sexpect.Base.Int.{ℤ, pos, signed32}
use sexpect.Tags.{error_sys, tag_ack, tag_send, tag_set}
use sexpect.Proto.Message.{
  Ttlv, null, node, tag_of, ttlv_new_bool, v_raw, v_int, get_int, get_raw, ttlv_new_int,
  ttlv_new_raw, ttlv_new_struct, ttlv_append, ttlv_append_child, append_children,
}
use sexpect.Args.Options.{Command, kill, set, SetOpts}
use sexpect.Args.PassNumbers.{IsLimit-is_int, IsSeconds-is_int}
use sexpect.Args.Scanned.{Gives, gives, quit}
use sexpect.Args.Runnable.{IsRunnable}
use sexpect.Server.State.{Server, reply, serv_msg_send, serv_new_error}
use sexpect.Server.Verdict.{linked-id}
use sexpect.Server.Process.{
  disconn, serv_process_msg, dispatch, serv_disconn, process_send, process_expout, process_close,
  process_kill, process_set, set_spawn,
}
use sexpect.Client.Agree.{set_spawn-set_request}
use sexpect.Client.Request.{request, set_request, send_message, signal_or, bytes_of}
use sexpect.Client.AtOnce.{
  IsAtOnce, typed_text, carried_out, closed_behind, IsConnected, closes, shows, kills, sends, sets,
}

reply-sent :
    (msg : Ttlv) (s : Server)
    → IsConnected s
    → reply msg s ≡ record s { sent = s.sent ++ (msg ∷ []) }
unfolding serv_msg_send
reply-sent msg s h =
    subst (λ t. reply msg t ≡ record t { sent = t.sent ++ (msg ∷ []) }) (linked-id s h.0 h.1) refl

pub serv_process_msg-disconn :
    (s : Server) → IsConnected s → serv_process_msg (some disconn) s ≡ some (closed_behind s)
unfolding serv_process_msg dispatch serv_disconn disconn ttlv_new_struct serv_msg_send
serv_process_msg-disconn s h =
    subst (λ t. serv_process_msg (some disconn) t ≡ some (closed_behind t)) (linked-id s h.0 h.1)
      refl

pub carried_out-IsConnected :
    (sigterm : ℕ) (s : Server) {cmd : Command}
    → IsAtOnce cmd
    → IsConnected s
    → IsConnected (carried_out sigterm cmd s)
carried_out-IsConnected sigterm s closes h = h
carried_out-IsConnected sigterm s shows h = h
carried_out-IsConnected sigterm s kills h = h
carried_out-IsConnected sigterm s sends h = h
carried_out-IsConnected sigterm s sets h = h

signed32-pos : (n : ℕ) → n < 2 ^ 31 → signed32 n ≡ pos n
signed32-pos n h = ground arith

abbrev active : Server → Server
active s = record s { lastactive = s.env.now }

taken-min :
    (k : ℕ) (text : List ℕ) → take (min k (length text)) (take (length text) text) ≡ take k text
taken-min k text =
    rw (take_all (length text) text (omega arith)) (elim (Bool-cases (ltb (length text) k)) [
      | inl l ↦
          ap (λ n. take n text) (ground arith)
          ∙ (take_all (length text) text (omega arith) ∙ sym (take_all k text (ground arith)))
      | inr l ↦ ap (λ n. take n text) (ground arith)
    ])

-- The server with `text` typed, as much as the terminal takes.
abbrev with_typed : List ℕ → Server → Server
with_typed text s = record s {
  typed = if s.ptm_open then s.typed ++ take s.env.ptm_takes text else s.typed;
  sent = s.sent ++ (ttlv_new_struct tag_ack ∷ []);
  lastactive = s.env.now;
}

process_send-typed :
    (text : List ℕ) (s : Server)
    → IsConnected s
    → process_send true (length text) (v_raw (take (length text) text)) (active s)
      ≡ with_typed text s
unfolding process_send get_raw
process_send-typed text s h = on s.ptm_open
  where
    on :
        (b : Bool)
        → process_send true
            (length text)
            (v_raw (take (length text) text))
            (record (active s) { ptm_open = b })
          ≡ with_typed text (record s { ptm_open = b })
    on true = rw (taken-min s.env.ptm_takes text) (
        reply-sent (ttlv_new_struct tag_ack)
          (record (active s) { ptm_open = true; typed = s.typed ++ take s.env.ptm_takes text }) h)
    on false = reply-sent (ttlv_new_struct tag_ack) (record (active s) { ptm_open = false }) h

send_message-carried :
    (enter : Bool) (text : List ℕ) (s : Server)
    → IsConnected s
    → Gives
        (λ msg. serv_process_msg (some msg) s ≡ some (with_typed (typed_text enter text) s))
        (send_message enter text)
unfolding serv_process_msg dispatch ttlv_new_raw
send_message-carried true text s h =
    let typed = text ++ (b'\r' ∷ []) in
    gives (
      subst
        (λ n. serv_process_msg (some (ttlv_new_raw tag_send n typed)) s ≡ some (with_typed typed s))
        (length-append text (b'\r' ∷ [])) (ap some (process_send-typed typed s h)))
send_message-carried false [] s h = quit
send_message-carried false (c ∷ cs) s h = gives (ap some (process_send-typed (c ∷ cs) s h))

process_kill-signal :
    (sigterm : ℕ) (signal : ℤ) (s : Server)
    → IsConnected s
    → process_kill (v_int (signal_or sigterm signal)) (active s)
      ≡ carried_out sigterm (kill signal) s
unfolding process_kill get_int
process_kill-signal sigterm signal s h = on s.env.kill_ok
  where
    with_kill : Bool → Server
    with_kill b = record s { env = record (s.env) { kill_ok = b } }

    on :
        (b : Bool)
        → process_kill (v_int (signal_or sigterm signal)) (active (with_kill b))
          ≡ carried_out sigterm (kill signal) (with_kill b)
    on true =
        reply-sent (ttlv_new_struct tag_ack)
          (record (active (with_kill true)) {
            signals = s.signals ++ (signal_or sigterm signal ∷ []);
          })
          h
    on false =
        reply-sent (serv_new_error error_sys (take 1023 (codes "kill: " ++ s.env.kill_error)))
          (active (with_kill false)) h

tag_of-set_request : (st : SetOpts) → tag_of (set_request st) ≡ tag_set
unfolding set_request ttlv_append_child append_children ttlv_append ttlv_new_int ttlv_new_bool
    ttlv_new_struct
tag_of-set_request st = ground arith

dispatch-set :
    (msg : Ttlv) (s : Server) → tag_of msg ≡ tag_set → dispatch msg s ≡ some (process_set msg s)
unfolding dispatch
dispatch-set null s e = absurd (ground arith)
dispatch-set (node tag type len v child next) s e = rw e refl

process_set-reply :
    (msg : Ttlv) (s : Server)
    → IsConnected s
    → process_set msg (active s) ≡ record s {
      spawn = set_spawn msg s.spawn;
      sent = s.sent ++ (ttlv_new_struct tag_ack ∷ []);
      lastactive = s.env.now;
    }
unfolding process_set
process_set-reply msg s h =
    reply-sent (ttlv_new_struct tag_ack) (record (active s) { spawn = set_spawn msg s.spawn }) h

-- The server does what the command says.
pub serv_process_msg-request :
    (sigterm : ℕ) (tty : Bool) (s : Server) {cmd : Command}
    → IsAtOnce cmd
    → IsRunnable cmd
    → IsConnected s
    → Gives
        (λ msg. serv_process_msg (some msg) s ≡ some (carried_out sigterm cmd s))
        (request sigterm tty cmd)
unfolding serv_process_msg dispatch request process_close process_expout process_kill process_set
    process_send ttlv_new_struct ttlv_new_int ttlv_new_raw get_int get_raw
serv_process_msg-request sigterm tty s closes r h =
    gives (ap some (reply-sent _ (record (active s) { ptm_open = false }) h))
serv_process_msg-request sigterm tty s (shows {index}) r h =
    gives (rw (signed32-pos index r) (ap some (reply-sent _ (active s) h)))
serv_process_msg-request sigterm tty s (kills {signal}) r h =
    gives (ap some (process_kill-signal sigterm signal s h))
serv_process_msg-request sigterm tty s (sends {st}) r h =
    send_message-carried st.enter (bytes_of st.payload) s h
serv_process_msg-request sigterm tty s (sets {st}) r h = gives (
    dispatch-set (set_request st) (active s) (tag_of-set_request st)
    ∙ (ap some (process_set-reply (set_request st) s h)
        ∙ ap (λ p. some (record (carried_out sigterm (set st) s) { spawn = p }))
            (set_spawn-set_request st s.spawn (IsLimit-is_int st.timeout r.timeout)
              (IsSeconds-is_int st.ttl r.ttl) (IsSeconds-is_int st.idle r.idle))))
