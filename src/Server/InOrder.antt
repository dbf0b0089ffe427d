-- ===== src/Server/InOrder.antt =====
-- Proofs on the server within a round, and on connecting and leaving (server.c, serv_hello,
-- serv_disconn).
use sexpect.Base.{
  ℕ, ◌≡◌, ◌≢◌, ◌⊎◌, refl, Bool, true, false, not, Option, none, some, List, All, if◌then◌else◌,
  arith, ◌∙◌, sym, subst,
}
use sexpect.Proto.Message.{tag_of, Ttlv, ttlv_find_child}
use sexpect.Tags.{
  tag_pass, tag_winch, tag_set, tag_version, tag_pass_subcmd, tag_exp_flags, tag_pattern,
  tag_nonblock, tag_winsize_row, tag_winsize_col, pass_subcmd_interact, pass_subcmd_wait,
  error_proto,
}
use sexpect.Server.Buffers.{Buffers}
use sexpect.Server.Invariant.{IsReady}
use sexpect.Server.State.{Server, close_sock, serv_new_error, serv_msg_send, reply}
use sexpect.Server.Copied.{copies}
use sexpect.Server.Process.{
  int_of, text_of, truth, if_given, check_version, hello, disconn, mismatch_text, serv_hello,
  serv_disconn,
}

-- A request as the client of this program builds it, but for `expect -eof` without a pattern, and
-- for switching to -nonblock.
pub record IsPlain (msg : Ttlv) : Type 0 where
  pub subcmd : tag_of msg ≡ tag_pass → int_of (ttlv_find_child msg tag_pass_subcmd) ≢ none
  pub flags : tag_of msg ≡ tag_pass → int_of (ttlv_find_child msg tag_exp_flags) ≢ none
  pub copying :
      tag_of msg ≡ tag_pass
      → (text_of (ttlv_find_child msg tag_pattern) ≢ none)
        ⊎ ((int_of (ttlv_find_child msg tag_pass_subcmd) ≡ some pass_subcmd_interact)
            ⊎ (int_of (ttlv_find_child msg tag_pass_subcmd) ≡ some pass_subcmd_wait))
  pub row : tag_of msg ≡ tag_winch → int_of (ttlv_find_child msg tag_winsize_row) ≢ none
  pub col : tag_of msg ≡ tag_winch → int_of (ttlv_find_child msg tag_winsize_col) ≢ none
  pub blocking :
      tag_of msg ≡ tag_set
      → if_given (int_of (ttlv_find_child msg tag_nonblock)) truth false ≡ false

-- The server within a round, in blocking mode, with no NUL byte among its output.
pub record InOrder (s : Server) : Type 0 where
  pub ready : IsReady s.buffers
  pub clean : All (λ x. x ≢ 0) s.buffers.rawbuf
  pub copying : s.conn.passing ≡ true → copies s.conn ≡ true
  pub blocking : s.spawn.nonblock ≡ false

-- What decides InOrder stays as it was.
pub record Calm (s s' : Server) : Type 0 where
  pub buffers : s'.buffers ≡ s.buffers
  pub passing : s'.conn.passing ≡ s.conn.passing
  pub pattern : s'.conn.pattern ≡ s.conn.pattern
  pub subcmd : s'.conn.subcmd ≡ s.conn.subcmd
  pub nonblock : s'.spawn.nonblock ≡ s.spawn.nonblock

pub Calm-InOrder : {s s' : Server} → InOrder s → Calm s s' → InOrder s'
Calm-InOrder {s} {s'} o c = record {
  ready = subst IsReady (sym c.buffers) o.ready;
  clean = subst (λ (b : Buffers). All (λ x. x ≢ 0) b.rawbuf) (sym c.buffers) o.clean;
  copying = λ p. rw (c.pattern, c.subcmd) (o.copying (sym c.passing ∙ p));
  blocking = c.nonblock ∙ o.blocking;
}

serv_msg_send-Calm : (msg : Ttlv) (s : Server) → Calm s (serv_msg_send msg s).0
unfolding serv_msg_send
serv_msg_send-Calm msg s = ground arith

pub reply-InOrder : (msg : Ttlv) {s : Server} → InOrder s → InOrder (reply msg s)
reply-InOrder msg {s} o = Calm-InOrder o (serv_msg_send-Calm msg s)

-- The outcome of a request: no crash, and the server in order.
pub data Handles : Option Server → Type 0 where
  handles : {s : Server} → InOrder s → Handles (some s)

pub InOrder-if : (b : Bool) {s t : Server} → InOrder s → InOrder t → InOrder (if b then s else t)
InOrder-if true h k = h
InOrder-if false h k = k

pub Handles-if :
    (b : Bool) {s t : Option Server}
    → (b ≡ true → Handles s)
    → (b ≡ false → Handles t)
    → Handles (if b then s else t)
Handles-if true h k = h refl
Handles-if false h k = k refl

pub close_sock-InOrder : {s : Server} → InOrder s → InOrder (close_sock s)
close_sock-InOrder o = record {
  ready = o.ready;
  clean = o.clean;
  copying = o.copying;
  blocking = o.blocking;
}

check_version-InOrder :
    (client : Option (List ℕ)) {s : Server} → InOrder s → InOrder (check_version client s)
check_version-InOrder none o = close_sock-InOrder o
check_version-InOrder (some client) o =
    InOrder-if _ (reply-InOrder hello o)
      (close_sock-InOrder (reply-InOrder (serv_new_error error_proto (mismatch_text client)) o))

pub serv_hello-InOrder : (msg : Ttlv) {s : Server} → InOrder s → InOrder (serv_hello msg s)
unfolding serv_hello
serv_hello-InOrder msg {s} o =
    InOrder-if (not s.conn.sock) o
      (check_version-InOrder (text_of (ttlv_find_child msg tag_version)) o)

pub serv_disconn-InOrder : {s : Server} → InOrder s → InOrder (serv_disconn s)
unfolding serv_disconn
serv_disconn-InOrder {s} o =
    let replied = reply-InOrder disconn o in
    InOrder-if (not s.conn.sock) o (record {
      ready = replied.ready;
      clean = replied.clean;
      copying = replied.copying;
      blocking = replied.blocking;
    })
