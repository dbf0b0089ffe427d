-- ===== src/Server/Overflow.antt =====
-- The assert of buf_raw2expect and output that became old without being copied (server.c).
use sexpect.Base.{
  ℕ, ◌+◌, ◌-◌, ◌≤◌, ◌<◌, ◌≡◌, ◌≢◌, refl, true, none, some, List, [], ◌∷◌, leb, length, arith, All,
  ap, take, take_all,
}
use sexpect.Server.Buffers.{
  Buffers, room, size_raw_buf, max_old_data, nonblock_drop_size, serv_init, receive, drop_old_raw,
  drop_old_exp, drop_old_data, without_nul, catch_up, copy_new, buf_raw2expect, nonblock_drop,
  mark_sent,
}

pub length-without_nul_of_nonzero :
    (xs : List ℕ) → All (λ x. x ≢ 0) xs → length (without_nul xs) ≡ length xs
unfolding without_nul
length-without_nul_of_nonzero [] h = refl
length-without_nul_of_nonzero (x ∷ xs) h = ground (arith, length-without_nul_of_nonzero xs h.1)

-- The counters that decide the assert, at the head of a round with no client: both buffers keep
-- all the old data they may, and nothing is new.
record IsFull (b : Buffers) : Type 0 where
  exp_full : length b.expbuf ≡ max_old_data
  old_full : b.oldcnt ≡ max_old_data
  none_new : b.newcnt ≡ 0
  copied : b.expoffset ≡ b.ntotal
  window : b.rawoffset + max_old_data ≡ b.ntotal

-- An `expect` that finds no match in the first 8 KB of output leaves them in both buffers.
expect-IsFull :
    (first : List ℕ)
    → length first ≡ max_old_data
    → All (λ x. x ≢ 0) first
    → (b : Buffers) × (buf_raw2expect (mark_sent (receive serv_init first)) ≡ some b)
      × IsFull (drop_old_data b)
unfolding buf_raw2expect catch_up copy_new mark_sent receive serv_init drop_old_data drop_old_raw
    drop_old_exp
expect-IsFull first size nonzero =
    let n = length first in
    let kept = length-without_nul_of_nonzero first nonzero in
    let passes : leb (0 + (0 + n - 0)) size_raw_buf ≡ true = ground arith in
    let whole : 0 + (0 + n) + 0 - (0 + n - 0) ≡ 0 = omega arith in
    (
      record {
        ntotal = 0 + n;
        rawoffset = 0;
        expoffset = 0 + n;
        rawbuf = first;
        oldcnt = 0 + (0 + n);
        newcnt = 0;
        expbuf = without_nul first;
      },
      rw (passes, whole),
      ground (arith, kept),
    )

-- One read of output that is there, as much as the raw buffer has room for.
abbrev pub read : List ℕ → Buffers → Buffers
read output b = receive b (take (room b) output)

-- Output that arrives with no client: 8 KB fill the raw buffer, serv_loop drops 1 KB, and a little
-- more arrives.
abbrev pub unattended : Buffers → List ℕ → List ℕ → Buffers
unattended b second third = read third (drop_old_data (nonblock_drop (read second b)))

nonblock_drop_full :
    (b : Buffers)
    → b.oldcnt ≡ max_old_data
    → b.newcnt ≡ max_old_data
    → nonblock_drop b
      ≡ record b { oldcnt = b.oldcnt + nonblock_drop_size; newcnt = b.newcnt - nonblock_drop_size }
unfolding nonblock_drop
nonblock_drop_full b o n = ground arith

drop_old_raw_over :
    (b : Buffers)
    → b.oldcnt ≡ max_old_data + nonblock_drop_size
    → ((drop_old_raw b).rawoffset ≡ b.rawoffset + nonblock_drop_size)
      × ((drop_old_raw b).oldcnt ≡ max_old_data)
      × ((drop_old_raw b).newcnt ≡ b.newcnt)
unfolding drop_old_raw
drop_old_raw_over b o = ground arith

-- drop_old_data leaves the counters of the expect buffer alone, and its bytes if they fit.
drop_old_data-keeps :
    (b : Buffers)
    → length b.expbuf ≡ max_old_data
    → ((drop_old_data b).expbuf ≡ b.expbuf)
      × ((drop_old_data b).expoffset ≡ b.expoffset)
      × ((drop_old_data b).ntotal ≡ b.ntotal)
      × ((drop_old_data b).rawoffset ≡ (drop_old_raw b).rawoffset)
      × ((drop_old_data b).oldcnt ≡ (drop_old_raw b).oldcnt)
      × ((drop_old_data b).newcnt ≡ (drop_old_raw b).newcnt)
unfolding drop_old_data drop_old_raw drop_old_exp
drop_old_data-keeps b e = ground arith

copy_new_overflow :
    (b : Buffers)
    → b.rawoffset ≤ b.expoffset
    → size_raw_buf < length b.expbuf + (b.ntotal - b.expoffset)
    → buf_raw2expect b ≡ none
unfolding buf_raw2expect catch_up copy_new
copy_new_overflow b near over = ground arith

IsFull-overflow :
    (b : Buffers) (second third : List ℕ)
    → IsFull b
    → length second ≡ max_old_data
    → 0 < length third
    → length third ≤ nonblock_drop_size
    → buf_raw2expect (unattended b second third) ≡ none
unfolding receive
IsFull-overflow b second third h s2 s3 s4 =
    let c = receive b second in
    let d : Buffers = record c {
      oldcnt = c.oldcnt + nonblock_drop_size;
      newcnt = c.newcnt - nonblock_drop_size;
    } in
    let full = nonblock_drop_full c h.old_full (omega (arith, h.none_new)) in
    let (same, off, tot, raw, old, new) = drop_old_data-keeps d h.exp_full in
    let (lost, kept, left) = drop_old_raw_over d (omega (arith, h.old_full)) in
    let whole : take (room b) second ≡ second =
      take_all (room b) second (omega (arith, h.old_full, h.none_new)) in
    let all : take (room (drop_old_data d)) third ≡ third =
      take_all (room (drop_old_data d)) third (omega (arith, old, new, kept, left, h.none_new)) in
    rw (whole, full, all)
      (copy_new_overflow (receive (drop_old_data d) third)
        (omega (arith, off, raw, lost, h.window, h.copied))
        (omega (arith, ap length same, off, tot, h.exp_full, h.copied)))

-- With -nonblock: an `expect` finds no match in 8 KB of output without NUL bytes and ends; then, with
-- no client, 8 KB more arrive, and at least one further byte and at most the 1 KB that was dropped to
-- make room. The next copy for `expect` (or `get`) fails the assert, and the server aborts.
pub buf_raw2expect-nonblock_overflow :
    (first second third : List ℕ)
    → length first ≡ max_old_data
    → All (λ x. x ≢ 0) first
    → length second ≡ max_old_data
    → 0 < length third
    → length third ≤ nonblock_drop_size
    → (b : Buffers) × (buf_raw2expect (mark_sent (receive serv_init first)) ≡ some b)
      × (buf_raw2expect (unattended (drop_old_data b) second third) ≡ none)
buf_raw2expect-nonblock_overflow first second third s1 nonzero s2 s3 s4 =
    let (b, copied, full) = expect-IsFull first s1 nonzero in
    (b, copied, IsFull-overflow (drop_old_data b) second third full s2 s3 s4)
