-- ===== src/Server/AtHead.antt =====
-- Proofs on the parts of a round before serv_pass (server.c, serv_loop).
use sexpect.Base.{
  ℕ, ◌+◌, ◌≡◌, ◌≢◌, Bool, true, false, not, ◌&&◌, Option, none, some, List, [], ◌∷◌, All, ◌==◌, ltb,
  if◌then◌else◌, length, take, arith, inl, inr, Bool-cases, All-append, All-take, length-take,
}
use sexpect.Server.Buffers.{
  Buffers, PtmRead, bytes, eof, eintr, eagain, fatal, room, receive, ptm_returned, serv_read_ptm,
}
use sexpect.Server.Invariant.{IsSynced, IsSynced-IsReady, receive-IsSynced}
use sexpect.Server.State.{Server}
use sexpect.Server.Copied.{copies}
use sexpect.Server.ProcessSafe.{IsPlainInput, serv_process_msg-Handles}
use sexpect.Server.InOrder.{InOrder, Handles, handles}
use sexpect.Server.Loop.{
  Loop, Ready, begin_round, close_on_exit, accept_client, wants_ptm, read_if, read_ptm, drop_unread,
  client_message, hear_client,
}

-- Output without NUL bytes.
abbrev pub IsText : List ℕ → Type 0
IsText bs = All (λ x. x ≢ 0) bs

abbrev pub IsTextRead : PtmRead → Type 0
IsTextRead (bytes bs) = IsText bs
IsTextRead eof = Unit
IsTextRead eintr = Unit
IsTextRead eagain = Unit
IsTextRead fatal = Unit

abbrev pub IsTextReads : Option (List PtmRead) → Type 0
IsTextReads none = Unit
IsTextReads (some reads) = All IsTextRead reads

abbrev pub IsPlainClient : Option (Option (sexpect.Proto.Message.Ttlv)) → Type 0
IsPlainClient none = Unit
IsPlainClient (some msg) = IsPlainInput msg

-- What a round meets: text from the child, and plain requests.
pub record IsPlainReady (r : Ready) : Type 0 where
  pub ptm : IsTextReads r.ptm
  pub client : IsPlainClient r.client

-- The server between two rounds.
pub record AtHead (s : Server) : Type 0 where
  pub synced : IsSynced s.buffers
  pub clean : IsText s.buffers.rawbuf
  pub copying : s.conn.passing ≡ true → copies s.conn ≡ true
  pub blocking : s.spawn.nonblock ≡ false

pub AtHead-InOrder : {s : Server} → AtHead s → InOrder s
AtHead-InOrder h = record {
  ready = IsSynced-IsReady h.synced;
  clean = h.clean;
  copying = h.copying;
  blocking = h.blocking;
}

-- A read keeps the buffers in order and free of NUL bytes.
record TextSynced (b : Buffers) : Type 0 where
  pub synced : IsSynced b
  pub clean : IsText b.rawbuf

ptm_returned-TextSynced :
    (r : PtmRead) (again : Buffers × Bool) {b : Buffers}
    → IsTextRead r
    → TextSynced b
    → TextSynced again.0
    → TextSynced (ptm_returned r again b).0
unfolding ptm_returned
ptm_returned-TextSynced (bytes bs) again {b} text t ta = elim (Bool-cases (length bs == 0)) [
  | inl e ↦ rw e t
  | inr e ↦ rw e (record {
    synced = receive-IsSynced (take (room b) bs) t.synced (omega (arith, length-take (room b) bs));
    clean =
        unfold receive in
        All-append (λ x. x ≢ 0) b.rawbuf (take (room b) bs) t.clean
          (All-take (λ x. x ≢ 0) (room b) bs text);
  })
]
ptm_returned-TextSynced eof again text t ta = t
ptm_returned-TextSynced eintr again text t ta = ta
ptm_returned-TextSynced eagain again text t ta = t
ptm_returned-TextSynced fatal again text t ta = t

serv_read_ptm-TextSynced :
    (rs : List PtmRead) {b : Buffers}
    → All IsTextRead rs
    → TextSynced b
    → TextSynced (serv_read_ptm rs b).0
unfolding serv_read_ptm
serv_read_ptm-TextSynced [] text t = t
serv_read_ptm-TextSynced (r ∷ rs) {b} text t = elim (Bool-cases (room b == 0)) [
  | inl e ↦ rw e t
  | inr e ↦ rw e (
      ptm_returned-TextSynced r (serv_read_ptm rs b) text.0 t
        (serv_read_ptm-TextSynced rs text.1 t))
]

AtHead-if : (b : Bool) {s t : Server} → AtHead s → AtHead t → AtHead (if b then s else t)
AtHead-if true h k = h
AtHead-if false h k = k

pub begin_round-AtHead : (r : Ready) {s : Server} → AtHead s → AtHead (begin_round r s)
unfolding begin_round
begin_round-AtHead r {s} h =
    AtHead-if r.sigchld
      (record { synced = h.synced; clean = h.clean; copying = h.copying; blocking = h.blocking })
      (record { synced = h.synced; clean = h.clean; copying = h.copying; blocking = h.blocking })

pub close_on_exit-AtHead : (l : Loop) → AtHead l.server → AtHead (close_on_exit l).server
unfolding close_on_exit
close_on_exit-AtHead l h =
    elim (Bool-cases (l.server.spawn.cloexit && (l.server.child_dead && l.server.ptm_open))) [
      | inl e ↦ rw e (
          AtHead-if (ltb 1 (l.exits + 1))
            (record {
              synced = h.synced;
              clean = h.clean;
              copying = h.copying;
              blocking = h.blocking;
            })
            h)
      | inr e ↦ rw e h
    ]

pub accept_client-AtHead : (r : Ready) {s : Server} → AtHead s → AtHead (accept_client r s)
unfolding accept_client
accept_client-AtHead r {s} h =
    AtHead-if (not s.conn.sock && r.connects)
      (record { synced = h.synced; clean = h.clean; copying = λ p. cc p; blocking = h.blocking }) h

read_if-AtHead :
    (reads : Option (List PtmRead)) {s : Server}
    → IsTextReads reads
    → AtHead s
    → AtHead (read_if reads s)
read_if-AtHead none text h = h
read_if-AtHead (some reads) text h =
    let t = serv_read_ptm-TextSynced reads text (record { synced = h.synced; clean = h.clean }) in
    record { synced = t.synced; clean = t.clean; copying = h.copying; blocking = h.blocking }

pub read_ptm-AtHead :
    (r : Ready) {s : Server} → IsTextReads r.ptm → AtHead s → AtHead (read_ptm r s)
unfolding read_ptm
read_ptm-AtHead r {s} text h = AtHead-if (wants_ptm s) (read_if-AtHead r.ptm text h) h

-- In blocking mode nothing is dropped unread.
pub drop_unread-AtHead : {s : Server} → AtHead s → AtHead (drop_unread s)
unfolding drop_unread
drop_unread-AtHead {s} h = elim (Bool-cases (s.spawn.nonblock && not s.conn.sock)) [
  | inl e ↦ absurd (ground (arith, h.blocking))
  | inr e ↦ rw e h
]

client_message-Handles :
    (c : Option (Option (sexpect.Proto.Message.Ttlv))) {s : Server}
    → InOrder s
    → IsPlainClient c
    → Handles (client_message c s)
client_message-Handles none o p = handles o
client_message-Handles (some msg) o p = serv_process_msg-Handles msg o p

pub hear_client-Handles :
    (connected : Bool) (r : Ready) {s : Server}
    → InOrder s
    → IsPlainClient r.client
    → Handles (hear_client connected r s)
unfolding hear_client
hear_client-Handles connected r {s} o p = elim (Bool-cases (connected && s.conn.sock)) [
  | inl e ↦ rw e (client_message-Handles r.client o p)
  | inr e ↦ rw e (handles o)
]
