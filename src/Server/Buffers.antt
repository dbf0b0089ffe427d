-- ===== src/Server/Buffers.antt =====
-- The raw buffer and the expect buffer (server.c, serv_init, serv_read_ptm, drop_old_data,
-- buf_raw2expect, and the dropping of output in serv_loop).
use sexpect.Base.{
  ℕ, ◌+◌, ◌-◌, Bool, true, false, ◌&&◌, Option, none, some, List, [], ◌∷◌, ◌++◌, ◌==◌, ltb, leb,
  if◌then◌else◌, length, take, drop,
}

-- SIZE_RAW_BUF, which serv_init also takes for `expbufsize`.
abbrev pub size_raw_buf : ℕ
size_raw_buf = 16384

-- MAX_OLD_DATA
abbrev pub max_old_data : ℕ
max_old_data = 8192

-- NONBLOCK_DROP_SIZE
abbrev pub nonblock_drop_size : ℕ
nonblock_drop_size = 1024

-- The buffer fields of the server's global struct. `rawbuf` holds the bytes in use, `oldcnt` is
-- `rawnew - rawbuf`, and `expbuf` holds `expcnt` bytes.
pub record Buffers : Type 0 where
  pub ntotal : ℕ
  pub rawoffset : ℕ
  pub expoffset : ℕ
  pub rawbuf : List ℕ
  pub oldcnt : ℕ
  pub newcnt : ℕ
  pub expbuf : List ℕ

unfoldable pub serv_init : Buffers
serv_init = record {
  ntotal = 0;
  rawoffset = 0;
  expoffset = 0;
  rawbuf = [];
  oldcnt = 0;
  newcnt = 0;
  expbuf = [];
}

-- One return of read(2) on the non-blocking ptm.
pub data PtmRead : Type 0 where
  bytes : List ℕ → PtmRead
  eof eintr eagain fatal : PtmRead

-- What serv_read_ptm asks read for.
abbrev pub room : Buffers → ℕ
room b = size_raw_buf - (b.newcnt + b.oldcnt)

-- The bytes that a read put behind the new data. (The copy to the logfile has no effect here.)
unfoldable pub receive : Buffers → List ℕ → Buffers
receive b bs = record b {
  rawbuf = b.rawbuf ++ bs;
  newcnt = b.newcnt + length bs;
  ntotal = b.ntotal + length bs;
}

-- What one return of read does: the buffers, and whether the ptm is still open. `again` is the next
-- round of the loop.
unfoldable pub ptm_returned : PtmRead → Buffers × Bool → Buffers → Buffers × Bool
ptm_returned (bytes bs) again b =
    if length bs == 0 then (b, false) else (receive b (take (room b) bs), true)
ptm_returned eof again b = (b, false)
ptm_returned eintr again b = again
ptm_returned eagain again b = (b, true)
ptm_returned fatal again b = (b, false)

-- serv_read_ptm, given what the calls of read return one after the other. read returns at most what
-- it was asked for; where no return is left it is taken to have none ready.
unfoldable pub serv_read_ptm : List PtmRead → Buffers → Buffers × Bool
unfolding receive ptm_returned
serv_read_ptm [] b = (b, true)
serv_read_ptm (r ∷ rs) b = if room b == 0 then (b, true) else ptm_returned r (serv_read_ptm rs b) b

-- The two halves of drop_old_data.
unfoldable pub drop_old_raw : Buffers → Buffers
drop_old_raw b =
    if ltb max_old_data b.oldcnt
    then record b {
      rawbuf = drop (b.oldcnt - max_old_data) b.rawbuf;
      oldcnt = max_old_data;
      rawoffset = b.rawoffset + (b.oldcnt - max_old_data);
    }
    else b

unfoldable pub drop_old_exp : Buffers → Buffers
drop_old_exp b =
    if ltb max_old_data (length b.expbuf)
    then record b { expbuf = drop (length b.expbuf - max_old_data) b.expbuf }
    else b

unfoldable pub drop_old_data : Buffers → Buffers
unfolding drop_old_raw drop_old_exp
drop_old_data b = drop_old_exp (drop_old_raw b)

-- The copy loop of buf_raw2expect leaves NUL bytes out.
unfoldable pub without_nul : List ℕ → List ℕ
without_nul [] = []
without_nul (x ∷ xs) = let rest = without_nul xs in if x == 0 then rest else x ∷ rest

-- The first step of buf_raw2expect: data that the raw buffer has lost makes the expect buffer start
-- anew.
unfoldable pub catch_up : Buffers → Buffers
catch_up b =
    if ltb b.expoffset b.rawoffset then record b { expoffset = b.rawoffset; expbuf = [] } else b

-- The copy itself; `none` where the assert fails.
unfoldable pub copy_new : Buffers → Option Buffers
unfolding without_nul
copy_new b =
    if leb (length b.expbuf + (b.ntotal - b.expoffset)) size_raw_buf
    then some (record b {
      expoffset = b.ntotal;
      expbuf =
          b.expbuf ++ without_nul (drop (b.oldcnt + b.newcnt - (b.ntotal - b.expoffset)) b.rawbuf);
    })
    else none

unfoldable pub buf_raw2expect : Buffers → Option Buffers
unfolding catch_up copy_new
buf_raw2expect b = copy_new (catch_up b)

-- serv_loop with -nonblock and no client: a full raw buffer gives up its oldest new data.
unfoldable pub nonblock_drop : Buffers → Buffers
nonblock_drop b =
    if (b.oldcnt + b.newcnt == size_raw_buf) && leb b.oldcnt max_old_data
    then record b { oldcnt = b.oldcnt + nonblock_drop_size; newcnt = b.newcnt - nonblock_drop_size }
    else b

-- serv_pass after it has sent the output: all of the new data is old.
unfoldable pub mark_sent : Buffers → Buffers
mark_sent b = record b { oldcnt = b.oldcnt + b.newcnt; newcnt = 0 }

-- serv_pass for `interact` and `wait` without a pattern.
unfoldable pub skip_expect : Buffers → Buffers
skip_expect b = record b { expoffset = b.ntotal - b.newcnt; expbuf = [] }

-- serv_pass at the end of file for `expect -eof`.
unfoldable pub discard_expect : Buffers → Buffers
discard_expect b = record b { expoffset = b.ntotal; expbuf = [] }
