-- ===== src/Server/Output.antt =====
-- Which output serv_pass sends for `-lookback` (server.c, serv_pass).
use sexpect.Base.{
  ℕ, ◌+◌, ◌≤◌, ◌<◌, ◌≡◌, ◌≢◌, refl, false, Option, none, some, List, [], ◌∷◌, ◌++◌, ◌==◌,
  if◌then◌else◌, length, take, arith, Bool-cases, inl, inr, All, length-take, length-reverse, ◌∙◌,
  ap,
}
use mathlib.Core.List.{reverse, reverse-append}
use sexpect.Server.Buffers.{Buffers}
use sexpect.Server.Lookback.{
  newline, scan_back, strchr_newline, after_last_newline, lines_wanted, start_at_first,
  start_behind, start_of, send_start,
}

after_last_newline-le : (xs : List ℕ) (k : ℕ) → after_last_newline xs ≡ some k → k ≤ length xs
unfolding after_last_newline
after_last_newline-le [] k e = cc
after_last_newline-le (x ∷ xs) k e = ground (arith, after_last_newline-le xs k)

start_at_first-le :
    (b : Buffers) (pc : Option ℕ) (k : ℕ) → start_at_first b pc ≡ some k → k ≤ b.oldcnt
unfolding start_at_first
start_at_first-le b none k e = cc
start_at_first-le b (some pc) k e = ground arith

start_behind-le :
    (b : Buffers) (pc : ℕ) (old : Option ℕ)
    → ((k : ℕ) → old ≡ some k → k ≤ b.oldcnt)
    → start_behind b pc old ≤ b.oldcnt
unfolding start_behind
start_behind-le b pc none h = ground arith
start_behind-le b pc (some k) h = ground (arith, h k refl)

start_of-le :
    (b : Buffers) (wanted : ℕ) (scan : ℕ × Option ℕ) (k : ℕ)
    → start_of b wanted scan ≡ some k
    → k ≤ b.oldcnt
unfolding start_of
start_of-le b wanted (newlines, none) k e =
    ground (arith, start_at_first-le b (strchr_newline 0 b.rawbuf) k)
start_of-le b wanted (newlines, some pc) k e = ground (
  arith,
  start_behind-le b pc (after_last_newline old) λ j found. omega (
    arith,
    after_last_newline-le old j found,
    length-reverse (take b.oldcnt b.rawbuf),
    length-take b.oldcnt b.rawbuf,
  ),
)
  where
    old : List ℕ
    old = reverse (take b.oldcnt b.rawbuf)

-- Whatever the lookback, the output begins in the old data or right behind it, so that it holds all
-- of the new data.
pub send_start-le-oldcnt :
    (lookback : ℕ) (b : Buffers) (k : ℕ) → send_start lookback b ≡ some k → k ≤ b.oldcnt
unfolding send_start
send_start-le-oldcnt lookback b k e = elim (Bool-cases (lookback == 0)) [
  | inl off ↦ ground (arith)
  | inr on ↦
      start_of-le b (lines_wanted lookback (reverse b.rawbuf))
        (scan_back (lines_wanted lookback (reverse b.rawbuf)) 0 (reverse b.rawbuf)) k (rw on at e)
]

unfoldable pub newlines_in : List ℕ → ℕ
newlines_in [] = 0
newlines_in (x ∷ xs) = (if x == newline then 1 else 0) + newlines_in xs

newlines_in-append : (xs ys : List ℕ) → newlines_in (xs ++ ys) ≡ newlines_in xs + newlines_in ys
unfolding newlines_in
newlines_in-append [] ys = omega arith
newlines_in-append (x ∷ xs) ys = omega (arith, newlines_in-append xs ys)

newlines_in-reverse : (xs : List ℕ) → newlines_in (reverse xs) ≡ newlines_in xs
unfolding newlines_in
newlines_in-reverse [] = refl
newlines_in-reverse (x ∷ xs) =
    ap newlines_in (reverse-append (x ∷ []) xs)
    ∙ omega (arith, newlines_in-append (reverse xs) (x ∷ []), newlines_in-reverse xs)

-- A scan for more newlines than there are counts them all.
scan_back_few :
    (wanted k : ℕ) (xs : List ℕ)
    → k + newlines_in xs < wanted
    → scan_back wanted k xs ≡ (k + newlines_in xs, none)
unfolding scan_back newlines_in
scan_back_few wanted k [] h = ground arith
scan_back_few wanted k (x ∷ xs) h =
    ground (arith, scan_back_few wanted k xs, scan_back_few wanted (k + 1) xs)

scan_back_all :
    (wanted k n : ℕ) (xs : List ℕ) → scan_back wanted k xs ≡ (n, none) → n ≡ k + newlines_in xs
unfolding scan_back newlines_in
scan_back_all wanted k n [] h = ground arith
scan_back_all wanted k n (x ∷ xs) h =
    ground (arith, scan_back_all wanted k n xs, scan_back_all wanted (k + 1) n xs)

-- strchr finds a newline that no NUL precedes.
strchr_newline-none :
    (i : ℕ) (xs : List ℕ) → All (λ x. x ≢ 0) xs → strchr_newline i xs ≡ none → newlines_in xs ≡ 0
unfolding strchr_newline newlines_in
strchr_newline-none i [] h e = refl
strchr_newline-none i (x ∷ xs) h e = ground (arith, strchr_newline-none (i + 1) xs h.1)

strchr_newline_nul :
    (i : ℕ) (xs ys : List ℕ) → All (λ x. x ≢ newline) xs → strchr_newline i (xs ++ 0 ∷ ys) ≡ none
unfolding strchr_newline
strchr_newline_nul i [] ys h = refl
strchr_newline_nul i (x ∷ xs) ys h = ground (arith, strchr_newline_nul (i + 1) xs ys h.1)

start_of-some :
    (b : Buffers) (wanted : ℕ) (scan : ℕ × Option ℕ)
    → All (λ x. x ≢ 0) b.rawbuf
    → scan_back wanted 0 (reverse b.rawbuf) ≡ scan
    → start_of b wanted scan ≢ none
unfolding start_of start_at_first
start_of-some b wanted (newlines, none) nonzero e = ground (
  arith,
  strchr_newline-none 0 b.rawbuf nonzero,
  scan_back_all wanted 0 newlines (reverse b.rawbuf) e,
  newlines_in-reverse b.rawbuf,
)
start_of-some b wanted (newlines, some pc) nonzero e = cc

-- While the raw buffer holds no NUL byte, serv_pass finds a place to begin, for every lookback.
pub send_start-ne-none :
    (lookback : ℕ) (b : Buffers) → All (λ x. x ≢ 0) b.rawbuf → send_start lookback b ≢ none
unfolding send_start
send_start-ne-none lookback b nonzero e = elim (Bool-cases (lookback == 0)) [
  | inl off ↦ ground arith
  | inr on ↦
      start_of-some b (lines_wanted lookback (reverse b.rawbuf))
        (scan_back (lines_wanted lookback (reverse b.rawbuf)) 0 (reverse b.rawbuf)) nonzero refl
        (rw on at e)
]

-- Once the raw buffer has lost data: if a NUL byte stands before its first newline, and it has
-- newlines, but fewer than the lookback asks for, then strchr returns NULL, the test `pc < g.rawnew`
-- takes it for an old newline, and the output would begin at address 1.
pub send_start-nul :
    (lookback : ℕ) (b : Buffers) (before after : List ℕ)
    → 0 < b.rawoffset
    → b.rawbuf ≡ before ++ 0 ∷ after
    → All (λ x. x ≢ newline) before
    → 0 < newlines_in b.rawbuf
    → newlines_in b.rawbuf < lookback
    → send_start lookback b ≡ none
unfolding send_start start_of start_at_first
send_start-nul lookback b before after lost bytes clean some_lines few =
    let wanted = lines_wanted lookback (reverse b.rawbuf) in
    let counted =
      scan_back_few wanted 0 (reverse b.rawbuf) (ground (arith, newlines_in-reverse b.rawbuf)) in
    let stuck : strchr_newline 0 b.rawbuf ≡ none =
      rw bytes (strchr_newline_nul 0 before after clean) in
    let asked : (lookback == 0) ≡ false = ground arith in
    rw (asked, counted) (ground (arith, stuck, newlines_in-reverse b.rawbuf))
