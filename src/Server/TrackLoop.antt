-- ===== src/Server/TrackLoop.antt =====
-- Proofs on what serv_loop keeps of the output (server.c).
use sexpect.Base.{
  ℕ, ◌≡◌, sym, ◌∙◌, subst, Bool, not, ◌&&◌, ◌||◌, Option, none, some, List, [], ◌∷◌, ◌++◌, ◌==◌,
  if◌then◌else◌, length, take, append_assoc, append-nil, Bool-cases, inl, inr, arith, length-take,
}
use sexpect.Proto.Message.{Ttlv}
use sexpect.Server.Buffers.{
  Buffers, PtmRead, bytes, eof, eintr, eagain, fatal, room, ptm_returned, serv_read_ptm,
  drop_old_data, serv_init,
}
use sexpect.Server.State.{Server}
use sexpect.Server.Expect.{Regex}
use sexpect.Server.Pass.{Flow, go, done, crash, serv_pass}
use sexpect.Server.Loop.{
  Loop, Ready, begin_round, close_on_exit, leaves, accept_client, wants_ptm, read_if, read_ptm,
  drop_unread, client_message, hear_client, Round, next, left, crashed, end_round, pass_round,
  selected, serv_round, serv_loop,
}
use sexpect.Server.Track.{
  Tracks, serv_init-Tracks, receive-Tracks, drop_old_raw-Tracks, drop_old_exp-Tracks,
  nonblock_drop-Tracks,
}
use sexpect.Server.TrackPass.{Holding, Follows, goes, stops, crashes, serv_pass-Follows}
use sexpect.Server.TrackMsg.{Answers, answers, serv_process_msg-Answers}

-- The bytes that the calls of read put into the raw buffer.
abbrev pub returned_bytes : PtmRead → List ℕ → Buffers → List ℕ
returned_bytes (bytes bs) again b = if length bs == 0 then [] else take (room b) bs
returned_bytes eintr again b = again
returned_bytes eof again b = []
returned_bytes eagain again b = []
returned_bytes fatal again b = []

unfoldable pub read_bytes : List PtmRead → Buffers → List ℕ
read_bytes [] b = []
read_bytes (r ∷ rs) b = if room b == 0 then [] else returned_bytes r (read_bytes rs b) b

-- The output of the child that one round reads, and that all rounds together read.
abbrev pub bytes_if : Option (List PtmRead) → Buffers → List ℕ
bytes_if none b = []
bytes_if (some reads) b = read_bytes reads b

abbrev pub selected_output : Ready → Server → List ℕ
selected_output r s = if wants_ptm s then bytes_if r.ptm s.buffers else []

unfoldable pub round_output : Ready → Loop → List ℕ
unfolding read_bytes
round_output r l =
    let l' = close_on_exit (record l { server = begin_round r l.server }) in
    if not l.server.waited || l.server.conn.sock
    then (if leaves l'.server
        then []
        else if r.interrupted
        then []
        else selected_output r (accept_client r l'.server))
    else []

unfoldable pub output : Regex → List Ready → Round → List ℕ
unfolding round_output
output regex [] outcome = []
output regex (r ∷ rs) (next l) = round_output r l ++ output regex rs (serv_round regex r l)
output regex (r ∷ rs) (left s) = []
output regex (r ∷ rs) crashed = []

module _ {h : List ℕ} {b : Buffers} where
  returned-Tracks :
      (r : PtmRead) (again : Buffers × Bool) (more : List ℕ)
      → Tracks h b
      → Tracks (h ++ more) again.0
      → Tracks (h ++ returned_bytes r more b) (ptm_returned r again b).0
  unfolding ptm_returned
  returned-Tracks (bytes bs) again more t ta = elim (Bool-cases (length bs == 0)) [
    | inl e ↦ rw (e, append-nil h) t
    | inr e ↦ rw e (receive-Tracks (take (room b) bs) t (omega (arith, length-take (room b) bs)))
  ]
  returned-Tracks eof again more t ta = rw (append-nil h) t
  returned-Tracks eintr again more t ta = ta
  returned-Tracks eagain again more t ta = rw (append-nil h) t
  returned-Tracks fatal again more t ta = rw (append-nil h) t

  serv_read_ptm-Tracks :
      (rs : List PtmRead) → Tracks h b → Tracks (h ++ read_bytes rs b) (serv_read_ptm rs b).0
  unfolding serv_read_ptm read_bytes
  serv_read_ptm-Tracks [] t = rw (append-nil h) t
  serv_read_ptm-Tracks (r ∷ rs) t = elim (Bool-cases (room b == 0)) [
    | inl e ↦ rw (e, append-nil h) t
    | inr e ↦
        rw e
          (returned-Tracks r (serv_read_ptm rs b) (read_bytes rs b) t (serv_read_ptm-Tracks rs t))
  ]

  drop_old_data-Tracks : Tracks h b → Tracks h (drop_old_data b)
  unfolding drop_old_data
  drop_old_data-Tracks t = drop_old_exp-Tracks (drop_old_raw-Tracks t)

begin_round-buffers : (r : Ready) (s : Server) → (begin_round r s).buffers ≡ s.buffers
unfolding begin_round
begin_round-buffers r s = ground arith

close_on_exit-buffers : (l : Loop) → (close_on_exit l).server.buffers ≡ l.server.buffers
unfolding close_on_exit
close_on_exit-buffers l = ground arith

accept_client-buffers : (r : Ready) (s : Server) → (accept_client r s).buffers ≡ s.buffers
unfolding accept_client
accept_client-buffers r s = ground arith

-- How a round ends with the output `h` behind it.
pub data Tracked (h : List ℕ) : Round → Type 0 where
  goes_on : {l : Loop} → Holding h l.server → Tracked h (next l)
  ends : {s : Server} → Holding h s → Tracked h (left s)
  fails : Tracked h crashed

module _ {h : List ℕ} where
  end_round-Tracked : (exits : ℕ) (f : Flow) → Follows h f → Tracked h (end_round exits f)
  end_round-Tracked exits (go s) (goes t) = goes_on (drop_old_data-Tracks t)
  end_round-Tracked exits (done s) (stops t) = goes_on (drop_old_data-Tracks t)
  end_round-Tracked exits crash crashes = fails

  pass_round-Tracked :
      (regex : Regex) (exits : ℕ) (o : Option Server)
      → Answers h o
      → Tracked h (pass_round regex exits o)
  pass_round-Tracked regex exits none a = fails
  pass_round-Tracked regex exits (some s) (answers t) =
      end_round-Tracked exits (serv_pass regex s) (serv_pass-Follows regex s t)

  drop_unread-Holding : (s : Server) → Holding h s → Holding h (drop_unread s)
  unfolding drop_unread
  drop_unread-Holding s t = elim (Bool-cases (s.spawn.nonblock && not s.conn.sock)) [
    | inl e ↦ rw e (nonblock_drop-Tracks t)
    | inr e ↦ rw e t
  ]

  client_message-Answers :
      (c : Option (Option Ttlv)) (s : Server) → Holding h s → Answers h (client_message c s)
  client_message-Answers none s t = answers t
  client_message-Answers (some msg) s t = serv_process_msg-Answers msg s t

  hear_client-Answers :
      (connected : Bool) (r : Ready) (s : Server)
      → Holding h s
      → Answers h (hear_client connected r s)
  unfolding hear_client
  hear_client-Answers connected r s t = elim (Bool-cases (connected && s.conn.sock)) [
    | inl e ↦ rw e (client_message-Answers r.client s t)
    | inr e ↦ rw e (answers t)
  ]

  read_if-Holding :
      (reads : Option (List PtmRead)) (s : Server)
      → Holding h s
      → Holding (h ++ bytes_if reads s.buffers) (read_if reads s)
  read_if-Holding none s t = rw (append-nil h) t
  read_if-Holding (some reads) s t = serv_read_ptm-Tracks reads t

  read_ptm-Holding :
      (r : Ready) (s : Server) → Holding h s → Holding (h ++ selected_output r s) (read_ptm r s)
  unfolding read_ptm
  read_ptm-Holding r s t = elim (Bool-cases (wants_ptm s)) [
    | inl e ↦ rw e (read_if-Holding r.ptm s t)
    | inr e ↦ rw (e, append-nil h) t
  ]

selected-Tracked :
    {h : List ℕ} (regex : Regex) (r : Ready) (l : Loop)
    → Holding h l.server
    → Tracked (h ++ selected_output r (accept_client r l.server)) (selected regex r l)
unfolding selected
selected-Tracked {h} regex r l t =
    let s = accept_client r l.server in
    let u : Holding h s = subst (Tracks h) (sym (accept_client-buffers r l.server)) t in
    pass_round-Tracked regex l.exits _ (
      hear_client-Answers l.server.conn.sock r (drop_unread (read_ptm r s))
        (drop_unread-Holding (read_ptm r s) (read_ptm-Holding r s u)))

serv_round-Tracked :
    {h : List ℕ} (regex : Regex) (r : Ready) (l : Loop)
    → Holding h l.server
    → Tracked (h ++ round_output r l) (serv_round regex r l)
unfolding serv_round round_output
serv_round-Tracked {h} regex r l t =
    let begun = record l { server = begin_round r l.server } in
    let l' = close_on_exit begun in
    let u : Holding h l'.server =
      subst (Tracks h) (sym (close_on_exit-buffers begun ∙ begin_round-buffers r l.server)) t in
    elim (Bool-cases (not l.server.waited || l.server.conn.sock)) [
      | inr e ↦ rw (e, append-nil h) (ends t)
      | inl e ↦ rw e (elim (Bool-cases (leaves l'.server)) [
        | inl f ↦ rw (f, append-nil h) (ends u)
        | inr f ↦ rw f (elim (Bool-cases r.interrupted) [
          | inl g ↦ rw (g, append-nil h) (goes_on u)
          | inr g ↦ rw g (selected-Tracked regex r l' u)
        ])
      ])
    ]

serv_loop-Tracked :
    (regex : Regex) (rs : List Ready) (outcome : Round) (h : List ℕ)
    → Tracked h outcome
    → Tracked (h ++ output regex rs outcome) (serv_loop regex rs outcome)
unfolding serv_loop output
serv_loop-Tracked regex [] outcome h t = rw (append-nil h) t
serv_loop-Tracked regex (r ∷ rs) (next l) h (goes_on t) =
    rw (sym (append_assoc h (round_output r l) (output regex rs (serv_round regex r l)))) (
      serv_loop-Tracked regex rs (serv_round regex r l) (h ++ round_output r l)
        (serv_round-Tracked regex r l t))
serv_loop-Tracked regex (r ∷ rs) (left s) h (ends t) = rw (append-nil h) (ends t)
serv_loop-Tracked regex (r ∷ rs) crashed h fails = fails

-- Over any session, in every mode and whatever the requests, the link and the regular expressions
-- do: as long as the server runs, its raw buffer is the end of the output that its rounds read,
-- from `rawoffset` on, and its expect buffer is the end of the first `expoffset` bytes of that
-- output less their NUL bytes. So a pattern is only ever tried on a contiguous part of the output,
-- in order. Buffers as serv_init leaves them are those of no output.
pub serv_loop-Tracks :
    (regex : Regex) (rs : List Ready) (l : Loop)
    → l.server.buffers ≡ serv_init
    → Tracked (output regex rs (next l)) (serv_loop regex rs (next l))
serv_loop-Tracks regex rs l first =
    serv_loop-Tracked regex rs (next l) []
      (goes_on (subst (Tracks []) (sym first) serv_init-Tracks))
