-- ===== src/Client/Plain.antt =====
-- Proofs on the requests of the client: the server handles each of them (client.c, cli_main;
-- server.c, serv_process_msg).
use sexpect.Base.{
  ℕ, ◌≡◌, ◌≢◌, refl, Bool, true, false, not, ◌&&◌, Option, none, some, List, [], ◌∷◌, if◌then◌else◌,
  arith, length, c_string, ◌==◌, take, inl, inr, Bool-cases, ◌⊎◌,
}
use sexpect.Tags.{
  tag_pass, tag_pass_subcmd, tag_exp_flags, tag_pattern, tag_winch, tag_set, tag_send, tag_kill,
  tag_expout, tag_close, tag_info, pass_subcmd_expect, pass_subcmd_interact, pass_subcmd_wait,
  error_notty,
}
use sexpect.Proto.Message.{
  tag_of, Ttlv, null, node, Value, get_int, get_raw, ttlv_new_int, ttlv_new_bool, ttlv_new_text,
  ttlv_new_raw, ttlv_new_struct, ttlv_append, ttlv_append_child, append_children, find_from,
  ttlv_find_sibling, ttlv_find_child,
}
use sexpect.Args.Options.{
  Command, help, version, close, chkerr, expect, interact, wait, expect_out, get, kill, send, set,
  spawn, unknown, PassOpts, SetOpts,
}
use sexpect.Args.Result.{Result, ok, exits}
use sexpect.Args.Scanned.{Gives, gives, quit}
use sexpect.Args.Runnable.{IsRunnable}
use sexpect.Server.State.{Server}
use sexpect.Server.Process.{int_of, text_of, serv_process_msg}
use sexpect.Server.ProcessSafe.{serv_process_msg-Handles}
use sexpect.Server.InOrder.{IsPlain, InOrder, Handles}
use sexpect.Client.Request.{
  request, set_request, pass_request, send_message, pass_message, or_any, bytes_of,
}

-- What serv_pass needs: a pattern, or a sub-command that needs none.
abbrev pub IsAnswerable : PassOpts → Type 0
IsAnswerable st =
    (st.pattern ≢ none) ⊎ ((st.subcmd ≡ pass_subcmd_interact) ⊎ (st.subcmd ≡ pass_subcmd_wait))

some-ne-none : {A : Type 0} {a : A} {o : Option A} → o ≡ some a → o ≢ none
some-ne-none e h = absurd (ground arith)

-- What the server reads from the message of `expect`, `interact` or `wait`.
record IsPassMessage (st : PassOpts) (msg : Ttlv) : Type 0 where
  tag : tag_of msg ≡ tag_pass
  subcmd : int_of (ttlv_find_child msg tag_pass_subcmd) ≡ some st.subcmd
  flags : int_of (ttlv_find_child msg tag_exp_flags) ≡ some st.expflags
  pattern : st.pattern ≢ none → text_of (ttlv_find_child msg tag_pattern) ≢ none

pass_request-IsPassMessage : (st : PassOpts) → IsPassMessage st (pass_request st)
unfolding pass_request ttlv_append_child append_children ttlv_append ttlv_new_int ttlv_new_text
    ttlv_new_struct ttlv_find_child ttlv_find_sibling find_from get_int get_raw
pass_request-IsPassMessage st = with_pattern st.pattern
  where
    with_pattern :
        (p : Option (List ℕ))
        → IsPassMessage (record st { pattern = p }) (pass_request (record st { pattern = p }))
    with_pattern none = record {
      tag = ground arith;
      subcmd = ground arith;
      flags = ground arith;
      pattern = λ h. absurd (h refl);
    }
    with_pattern (some p) = record {
      tag = ground arith;
      subcmd = ground arith;
      flags = ground arith;
      pattern = λ h. some-ne-none {a = c_string (take (length p) p)} (ground arith);
    }

pass_request-IsPlain : (st : PassOpts) → IsAnswerable st → IsPlain (pass_request st)
pass_request-IsPlain st a =
    let m = pass_request-IsPassMessage st in
    record {
      subcmd = λ e. some-ne-none m.subcmd;
      flags = λ e. some-ne-none m.flags;
      copying = λ e. elim a [
        | inl p ↦ inl (m.pattern p)
        | inr (inl i) ↦ inr (inl (rw m.subcmd (rw i refl)))
        | inr (inr w) ↦ inr (inr (rw m.subcmd (rw w refl)))
      ];
      row = λ e. absurd (other e);
      col = λ e. absurd (other e);
      blocking = λ e. absurd (not_set e);
    }
  where
    other : tag_of (pass_request st) ≡ tag_winch → ⊥
    other e = let t = (pass_request-IsPassMessage st).tag in absurd (ground arith)

    not_set : tag_of (pass_request st) ≡ tag_set → ⊥
    not_set e = let t = (pass_request-IsPassMessage st).tag in absurd (ground arith)

set_request-IsPlain :
    (st : SetOpts) → (st.set_nonblock ≡ true → st.nonblock ≡ false) → IsPlain (set_request st)
unfolding set_request ttlv_append_child append_children ttlv_append ttlv_new_int ttlv_new_bool
    ttlv_new_struct ttlv_find_child ttlv_find_sibling find_from get_int
set_request-IsPlain st h = record {
  subcmd = λ e. absurd (ground arith);
  flags = λ e. absurd (ground arith);
  copying = λ e. absurd (ground arith);
  row = λ e. absurd (ground arith);
  col = λ e. absurd (ground arith);
  blocking = λ e. ground arith;
}

bare-IsPlain :
    (tag : ℕ)
    → tag ≢ tag_pass
    → tag ≢ tag_winch
    → tag ≢ tag_set
    → (type len : ℕ) (v : Value) → IsPlain (node tag type len v null null)
bare-IsPlain tag p w t type len v = record {
  subcmd = λ e. absurd (p e);
  flags = λ e. absurd (p e);
  copying = λ e. absurd (p e);
  row = λ e. absurd (w e);
  col = λ e. absurd (w e);
  blocking = λ e. absurd (t e);
}

or_any-IsAnswerable :
    (st : PassOpts)
    → st.subcmd ≡ pass_subcmd_expect
    → (st.expflags ≢ 0 → st.pattern ≢ none)
    → IsAnswerable (or_any st)
or_any-IsAnswerable st e h =
    elim (Bool-cases ((st.subcmd == pass_subcmd_expect) && (st.expflags == 0))) [
      | inl any ↦ rw any (inl λ p. some-ne-none refl p)
      | inr given ↦ rw given (inl (h (ground arith)))
    ]

or_any-id : (st : PassOpts) → st.subcmd ≢ pass_subcmd_expect → or_any st ≡ st
or_any-id st h = elim (Bool-cases ((st.subcmd == pass_subcmd_expect) && (st.expflags == 0))) [
  | inl any ↦ absurd (ground arith)
  | inr given ↦ rw given refl
]

or_any-interact : (st : PassOpts) → st.subcmd ≡ pass_subcmd_interact → IsAnswerable (or_any st)
or_any-interact st e = rw (or_any-id st (ground arith)) (inr (inl e))

or_any-wait : (st : PassOpts) → st.subcmd ≡ pass_subcmd_wait → IsAnswerable (or_any st)
or_any-wait st e = rw (or_any-id st (ground arith)) (inr (inr e))

send_message-IsPlain : (enter : Bool) (text : List ℕ) → Gives IsPlain (send_message enter text)
unfolding ttlv_new_raw
send_message-IsPlain true text =
    gives (bare-IsPlain tag_send (omega arith) (omega arith) (omega arith) _ _ _)
send_message-IsPlain false [] = quit
send_message-IsPlain false (c ∷ cs) =
    gives (bare-IsPlain tag_send (omega arith) (omega arith) (omega arith) _ _ _)

-- The conditions on a request that the server handles: `expect` with a flag has a pattern too, and
-- `set` does not turn -nonblock on.
abbrev pub IsSafe : Command → Type 0
IsSafe (expect st) = st.expflags ≢ 0 → st.pattern ≢ none
IsSafe (set st) = st.set_nonblock ≡ true → st.nonblock ≡ false
IsSafe c = Unit

pass_message-IsPlain :
    (tty : Bool) (st : PassOpts) → IsAnswerable (or_any st) → Gives IsPlain (pass_message tty st)
pass_message-IsPlain tty st a = on (not st.no_input && not tty)
  where
    on : (b : Bool) → Gives IsPlain (if b then exits error_notty else ok (pass_request (or_any st)))
    on true = quit
    on false = gives (pass_request-IsPlain (or_any st) a)

request-IsPlain :
    (sigterm : ℕ) (tty : Bool) (c : Command)
    → IsRunnable c
    → IsSafe c
    → Gives IsPlain (request sigterm tty c)
unfolding request ttlv_new_struct ttlv_new_int ttlv_new_raw
request-IsPlain sigterm tty help r s = quit
request-IsPlain sigterm tty version r s = quit
request-IsPlain sigterm tty close r s =
    gives (bare-IsPlain tag_close (omega arith) (omega arith) (omega arith) _ _ _)
request-IsPlain sigterm tty (chkerr st) r s = quit
request-IsPlain sigterm tty (expect st) r s =
    pass_message-IsPlain tty st (or_any-IsAnswerable st r.numbers.sub s)
request-IsPlain sigterm tty (interact st) r s =
    pass_message-IsPlain tty st (or_any-interact st r.sub)
request-IsPlain sigterm tty (wait st) r s = pass_message-IsPlain tty st (or_any-wait st r.sub)
request-IsPlain sigterm tty (expect_out index) r s =
    gives (bare-IsPlain tag_expout (omega arith) (omega arith) (omega arith) _ _ _)
request-IsPlain sigterm tty (get st) r s =
    gives (bare-IsPlain tag_info (omega arith) (omega arith) (omega arith) _ _ _)
request-IsPlain sigterm tty (kill signal) r s =
    gives (bare-IsPlain tag_kill (omega arith) (omega arith) (omega arith) _ _ _)
request-IsPlain sigterm tty (send st) r s = send_message-IsPlain st.enter (bytes_of st.payload)
request-IsPlain sigterm tty (set st) r s = gives (set_request-IsPlain st s)
request-IsPlain sigterm tty (spawn st) r s = quit
request-IsPlain sigterm tty (unknown word) r s = quit

-- From the command line to the server: in blocking mode and with output free of NUL bytes, the
-- server handles the message of every command that getargs leaves without following a NULL pointer
-- or failing an assert, and stays in order, provided that `expect` with a flag has a pattern too and
-- `set` does not turn -nonblock on.
pub request-Handles :
    (sigterm : ℕ) (tty : Bool) (c : Command) {s : Server}
    → IsRunnable c
    → IsSafe c
    → InOrder s
    → Gives (λ msg. Handles (serv_process_msg (some msg) s)) (request sigterm tty c)
request-Handles sigterm tty c {s} r h o =
    sent (request sigterm tty c) (request-IsPlain sigterm tty c r h)
  where
    sent :
        (m : Result Ttlv)
        → Gives IsPlain m
        → Gives (λ msg. Handles (serv_process_msg (some msg) s)) m
    sent (ok msg) (gives p) = gives (serv_process_msg-Handles (some msg) o p)
    sent (exits code) quit = quit
