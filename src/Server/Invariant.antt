-- ===== src/Server/Invariant.antt =====
-- The invariant of the two buffers (server.c), and proofs on the operations.
use sexpect.Base.{
  ℕ, ◌+◌, ◌-◌, ◌≤◌, ◌<◌, ◌≡◌, refl, Bool, some, List, [], ◌∷◌, ◌++◌, ◌==◌, length, take, drop,
  arith, length-append, length-take, length-drop, le→ltb, Bool-cases, inl, inr,
}
use native.Mathlib.Decide.{dec_lt}
use sexpect.Server.Buffers.{
  Buffers, size_raw_buf, max_old_data, serv_init, PtmRead, bytes, eof, eintr, eagain, fatal, room,
  receive, serv_read_ptm, ptm_returned, drop_old_raw, drop_old_exp, drop_old_data, without_nul,
  catch_up, copy_new, buf_raw2expect, nonblock_drop, mark_sent, skip_expect, discard_expect,
}

-- The counters agree with the bytes that are held, and nothing leaves its buffer. Once the raw
-- buffer has lost data its old part is full.
pub record IsValid (b : Buffers) : Type 0 where
  pub filled : length b.rawbuf ≡ b.oldcnt + b.newcnt
  pub raw_fits : b.oldcnt + b.newcnt ≤ size_raw_buf
  pub total : b.rawoffset + (b.oldcnt + b.newcnt) ≡ b.ntotal
  pub kept : 0 < b.rawoffset → max_old_data ≤ b.oldcnt
  pub exp_behind : b.expoffset ≤ b.ntotal
  pub exp_count : length b.expbuf ≤ b.expoffset
  pub exp_fits : length b.expbuf ≤ size_raw_buf

pub serv_init-IsValid : IsValid serv_init
unfolding serv_init
serv_init-IsValid = omega arith

pub receive-IsValid :
    {b : Buffers} (bs : List ℕ) → IsValid b → length bs ≤ room b → IsValid (receive b bs)
unfolding receive
receive-IsValid {b} bs v fits = omega (arith, length-append b.rawbuf bs, v.filled, v.kept)

pub drop_old_raw-IsValid : {b : Buffers} → IsValid b → IsValid (drop_old_raw b)
unfolding drop_old_raw
drop_old_raw-IsValid {b} v = ground (arith, length-drop (b.oldcnt - max_old_data) b.rawbuf)

pub drop_old_exp-IsValid : {b : Buffers} → IsValid b → IsValid (drop_old_exp b)
unfolding drop_old_exp
drop_old_exp-IsValid {b} v = ground (arith, length-drop (length b.expbuf - max_old_data) b.expbuf)

pub nonblock_drop-IsValid : {b : Buffers} → IsValid b → IsValid (nonblock_drop b)
unfolding nonblock_drop
nonblock_drop-IsValid v = ground arith

pub mark_sent-IsValid : {b : Buffers} → IsValid b → IsValid (mark_sent b)
unfolding mark_sent
mark_sent-IsValid v = omega arith

pub skip_expect-IsValid : {b : Buffers} → IsValid b → IsValid (skip_expect b)
unfolding skip_expect
skip_expect-IsValid v = omega arith

pub discard_expect-IsValid : {b : Buffers} → IsValid b → IsValid (discard_expect b)
unfolding discard_expect
discard_expect-IsValid v = omega arith

pub catch_up-IsValid : {b : Buffers} → IsValid b → IsValid (catch_up b)
unfolding catch_up
catch_up-IsValid v = ground arith

pub length-without_nul : (xs : List ℕ) → length (without_nul xs) ≤ length xs
unfolding without_nul
length-without_nul [] = omega arith
length-without_nul (x ∷ xs) = ground (arith, length-without_nul xs)

ptm_returned-IsValid :
    (r : PtmRead) (again : Buffers × Bool) {b : Buffers}
    → IsValid b
    → IsValid again.0
    → IsValid (ptm_returned r again b).0
unfolding ptm_returned
ptm_returned-IsValid (bytes bs) again {b} v va = elim (Bool-cases (length bs == 0)) [
  | inl e ↦ rw e v
  | inr e ↦ rw e (receive-IsValid (take (room b) bs) v (omega (arith, length-take (room b) bs)))
]
ptm_returned-IsValid eof again v va = v
ptm_returned-IsValid eintr again v va = va
ptm_returned-IsValid eagain again v va = v
ptm_returned-IsValid fatal again v va = v

-- serv_read_ptm, whatever the calls of read return, keeps the invariant of the buffers: the counters
-- agree with the bytes that are held, and nothing leaves its buffer.
pub serv_read_ptm-IsValid :
    (rs : List PtmRead) {b : Buffers} → IsValid b → IsValid (serv_read_ptm rs b).0
unfolding serv_read_ptm
serv_read_ptm-IsValid [] v = v
serv_read_ptm-IsValid (r ∷ rs) {b} v = elim (Bool-cases (room b == 0)) [
  | inl e ↦ rw e v
  | inr e ↦ rw e (ptm_returned-IsValid r (serv_read_ptm rs b) v (serv_read_ptm-IsValid rs v))
]

-- The copy of buf_raw2expect stays inside the expect buffer.
abbrev pub Fits : Buffers → Type 0
Fits b = length b.expbuf + (b.ntotal - b.expoffset) ≤ size_raw_buf

-- The assert of buf_raw2expect passes exactly where the copy fits.
pub copy_new-IsValid :
    {b : Buffers}
    → IsValid b
    → b.rawoffset ≤ b.expoffset
    → Fits b
    → (c : Buffers) × (copy_new b ≡ some c)
      × IsValid c
      × (c.expoffset ≡ c.ntotal)
      × (c.rawoffset ≡ b.rawoffset)
      × (c.oldcnt ≡ b.oldcnt)
unfolding copy_new
copy_new-IsValid {b} v near fits =
    let behind = drop (b.oldcnt + b.newcnt - (b.ntotal - b.expoffset)) b.rawbuf in
    let size = length-append b.expbuf (without_nul behind) in
    let part = length-without_nul behind in
    let rest = length-drop (b.oldcnt + b.newcnt - (b.ntotal - b.expoffset)) b.rawbuf in
    (
      record b { expoffset = b.ntotal; expbuf = b.expbuf ++ without_nul behind },
      ground arith,
      omega (arith, size, part, rest, v.kept),
      refl,
      refl,
      refl,
    )

-- At the head of serv_loop, with no old data that buf_raw2expect has not seen.
pub record IsSynced (b : Buffers) : Type 0 where
  pub valid : IsValid b
  pub seen : b.rawoffset + b.oldcnt ≤ b.expoffset
  pub trimmed : length b.expbuf ≤ max_old_data

-- Then the copy fits, also once more output came in and once it was marked as sent.
pub IsSynced-Fits : {b : Buffers} → IsSynced b → Fits b
IsSynced-Fits {b} s = elim (dec_lt 0 b.rawoffset) [
  | yes h ↦ omega (arith, s.valid.kept h)
  | no h ↦ omega arith
]

pub receive-IsSynced :
    {b : Buffers} (bs : List ℕ) → IsSynced b → length bs ≤ room b → IsSynced (receive b bs)
receive-IsSynced {b} bs s fits = record {
  valid = receive-IsValid bs s.valid fits;
  seen = unfold receive in s.seen;
  trimmed = unfold receive in s.trimmed;
}

-- Within a round: the copy fits, and all old data was copied.
pub record IsReady (b : Buffers) : Type 0 where
  pub valid : IsValid b
  pub seen : b.rawoffset + b.oldcnt ≤ b.expoffset
  pub fits : Fits b

pub IsSynced-IsReady : {b : Buffers} → IsSynced b → IsReady b
IsSynced-IsReady s = record { valid = s.valid; seen = s.seen; fits = IsSynced-Fits s }

-- The round of serv_pass that has a pattern: the output is sent, then copied.
pub copy_sent :
    {b : Buffers} → IsReady b → (c : Buffers) × (buf_raw2expect (mark_sent b) ≡ some c) × IsReady c
unfolding buf_raw2expect catch_up mark_sent
copy_sent {b} s =
    let sent = mark_sent-IsValid s.valid in
    let near = le→ltb b.expoffset b.rawoffset (omega (arith, s.seen)) in
    let (c, e, v, off, raw, old) =
      copy_new-IsValid {b = mark_sent b} sent (omega (arith, s.seen)) s.fits in
    (
      c,
      rw near e,
      record {
        valid = v;
        seen = omega (arith, off, v.total);
        fits = omega (arith, off, v.exp_fits);
      },
    )

-- A request for the expect buffer copies what is new and sends nothing.
pub copy_unsent :
    {b : Buffers} → IsReady b → (c : Buffers) × (buf_raw2expect b ≡ some c) × IsReady c
unfolding buf_raw2expect catch_up
copy_unsent {b} s =
    let near = le→ltb b.expoffset b.rawoffset (omega (arith, s.seen)) in
    let (c, e, v, off, raw, old) =
      copy_new-IsValid {b = b} s.valid (omega (arith, s.seen)) s.fits in
    (
      c,
      rw near e,
      record {
        valid = v;
        seen = omega (arith, off, v.total);
        fits = omega (arith, off, v.exp_fits);
      },
    )

-- drop_old_data at the end of a round of serv_loop.
pub drop_old_data-IsSynced :
    {b : Buffers} → IsValid b → b.rawoffset + b.oldcnt ≤ b.expoffset → IsSynced (drop_old_data b)
unfolding drop_old_data
drop_old_data-IsSynced {b} v seen = record {
  valid = drop_old_exp-IsValid (drop_old_raw-IsValid v);
  seen = unfold drop_old_raw drop_old_exp in ground arith;
  trimmed =
      unfold drop_old_raw drop_old_exp in
      ground (arith, length-drop (length b.expbuf - max_old_data) b.expbuf);
}
