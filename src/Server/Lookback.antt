-- ===== src/Server/Lookback.antt =====
-- Where the output that serv_pass sends begins (server.c, serv_pass, the part on `-lookback`).
use sexpect.Base.{
  ℕ, ◌+◌, Bool, false, ◌&&◌, Option, none, some, List, [], ◌∷◌, ◌==◌, ltb, leb, if◌then◌else◌,
  length, take,
}
use mathlib.Core.List.{reverse}
use sexpect.Server.Buffers.{Buffers}

-- '\n'
abbrev pub newline : ℕ
newline = 10

-- The loop from the last byte down, over the reversed buffer: how many newlines it counted, and the
-- index at which it broke off, if it did.
unfoldable pub scan_back : ℕ → ℕ → List ℕ → ℕ × Option ℕ
scan_back lookback newlines [] = (newlines, none)
scan_back lookback newlines (x ∷ before) =
    let count = if x == newline then newlines + 1 else newlines in
    let later = scan_back lookback count before in
    if (x == newline) && leb lookback count then (count, some (length before)) else later

-- strchr(buffer, '\n'); `none` is NULL, for a NUL byte that comes first. The buffer holds a newline
-- or a NUL where this is called.
unfoldable pub strchr_newline : ℕ → List ℕ → Option ℕ
strchr_newline index [] = none
strchr_newline index (x ∷ xs) =
    let later = strchr_newline (index + 1) xs in
    if x == newline then some index else if x == 0 then none else later

-- The index behind the last newline of the reversed bytes, if there is one.
unfoldable pub after_last_newline : List ℕ → Option ℕ
after_last_newline [] = none
after_last_newline (x ∷ before) =
    let later = after_last_newline before in
    if x == newline then some (length before + 1) else later

abbrev pub last_is_newline : List ℕ → Bool
last_is_newline [] = false
last_is_newline (x ∷ before) = x == newline

-- `++lookback` if the output ends in a newline.
abbrev pub lines_wanted : ℕ → List ℕ → ℕ
lines_wanted lookback reversed = if last_is_newline reversed then lookback + 1 else lookback

-- Too few newlines: from behind the first one, or from the start if nothing was dropped. `none` is
-- the pointer NULL + 1.
unfoldable pub start_at_first : Buffers → Option ℕ → Option ℕ
start_at_first b none = none
start_at_first b (some pc) = some (if ltb pc b.oldcnt then pc + 1 else b.oldcnt)

-- Enough newlines: `pc` is the index of the one that was wanted.
unfoldable pub start_behind : Buffers → ℕ → Option ℕ → ℕ
start_behind b pc old =
    if ltb pc b.oldcnt
    then pc + 1
    else elim old [ some start ↦ start | none ↦ if b.rawoffset == 0 then 0 else b.oldcnt ]

-- `psend - g.rawbuf` for a `lookback` above 0, given the outcome of the scan.
unfoldable pub start_of : Buffers → ℕ → ℕ × Option ℕ → Option ℕ
unfolding start_at_first start_behind strchr_newline after_last_newline
start_of b wanted (newlines, none) =
    if newlines == 0
    then some 0
    else if b.rawoffset == 0
    then some 0
    else start_at_first b (strchr_newline 0 b.rawbuf)
start_of b wanted (newlines, some pc) =
    some (start_behind b pc (after_last_newline (reverse (take b.oldcnt b.rawbuf))))

-- `psend - g.rawbuf`.
unfoldable pub send_start : ℕ → Buffers → Option ℕ
unfolding start_of scan_back
send_start lookback b =
    let wanted = lines_wanted lookback (reverse b.rawbuf) in
    if lookback == 0
    then some b.oldcnt
    else start_of b wanted (scan_back wanted 0 (reverse b.rawbuf))
