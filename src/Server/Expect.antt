-- ===== src/Server/Expect.antt =====
-- Matching the expect buffer (server.c, expect_exact, expect_glob, expect_ere, serv_expect,
-- exp_timed_out).
use sexpect.Base.{
  ℕ, zero, suc, ◌+◌, ◌-◌, ◌*◌, Bool, true, false, not, ◌&&◌, Option, none, some, List, [], ◌∷◌,
  ◌==◌, ltb, leb, if◌then◌else◌, length, take, drop, map, c_string,
}
use sexpect.Base.Int.{ℤ, pos, negsuc}
use sexpect.Tags.{
  has_flag, pass_expect_exact, pass_expect_glob, pass_expect_ere, pass_expect_icase,
  pass_expect_nosub, pass_expect_newline,
}
use sexpect.Server.State.{Server}

-- regcomp and regexec: the pattern, whether case is ignored, whether newlines are special, and the
-- subject. `none` is an error or no match; a match gives the start and the end of each of the ten
-- groups that took part.
abbrev pub Regex : Type 0
Regex = List ℕ → Bool → Bool → List ℕ → Option (List (Option (ℕ × ℕ)))

unfoldable pub is_prefix : (ℕ → ℕ) → List ℕ → List ℕ → Bool
is_prefix fold [] ys = true
is_prefix fold (x ∷ xs) [] = false
is_prefix fold (x ∷ xs) (y ∷ ys) = (fold x == fold y) && is_prefix fold xs ys

-- strstr and strcasestr: the index of the first occurrence.
unfoldable pub strstr : (ℕ → ℕ) → List ℕ → List ℕ → Option ℕ
unfolding is_prefix
strstr fold [] needle = if is_prefix fold needle [] then some 0 else none
strstr fold (x ∷ xs) needle =
    let later = strstr fold xs needle in
    if is_prefix fold needle (x ∷ xs)
    then some 0
    else elim later [ none ↦ none | some i ↦ some (i + 1) ]

-- tolower in the C locale.
abbrev pub to_lower : ℕ → ℕ
to_lower c = if leb b'A' c && leb c b'Z' then c + 32 else c

abbrev pub same : ℕ → ℕ
same c = c

-- What is left of the expect buffer behind a match that ends at `index`. It is copied as a C string.
abbrev pub consume : ℕ → Server → Server
consume index s = record s {
  buffers = record (s.buffers) { expbuf = c_string (drop index s.buffers.expbuf) };
}

-- `g.expout[0] = ...` in an array that free_expect_out has cleared.
abbrev pub only_first : List ℕ → List (Option (List ℕ))
only_first text = some text ∷ none ∷ none ∷ none ∷ none ∷ none ∷ none ∷ none ∷ none ∷ none ∷ []

unfoldable pub exact_found : List ℕ → Server → Option ℕ → Option Server
exact_found pattern s none = none
exact_found pattern s (some i) =
    some (record (consume (i + length pattern) s) { expout = only_first pattern })

unfoldable pub expect_exact : List ℕ → Server → Option Server
unfolding strstr exact_found
expect_exact pattern s = exact_found pattern s (
    strstr (if has_flag s.conn.expflags pass_expect_icase then to_lower else same) s.buffers.expbuf
      pattern)

-- Each group's text, from its offsets.
abbrev pub group_text : List ℕ → Option (ℕ × ℕ) → Option (List ℕ)
group_text subject none = none
group_text subject (some (from, to)) = some (take (to - from) (drop from subject))

-- `matches[0].rm_eo`
abbrev pub match_end : List (Option (ℕ × ℕ)) → ℕ
match_end (some (from, to) ∷ groups) = to
match_end groups = 0

unfoldable pub ere_found : Server → Option (List (Option (ℕ × ℕ))) → Option Server
ere_found s none = none
ere_found s (some groups) = some (
    consume (match_end groups) (
      if has_flag s.conn.expflags pass_expect_nosub
      then s
      else record s { expout = map (group_text s.buffers.expbuf) groups }))

unfoldable pub expect_ere : Regex → List ℕ → Server → Option Server
unfolding ere_found
expect_ere regex pattern s = ere_found s (
    regex pattern (has_flag s.conn.expflags pass_expect_icase)
      (has_flag s.conn.expflags pass_expect_newline) s.buffers.expbuf)

-- serv_expect: the server after a match, `none` for false. A pattern of kind glob never arrives.
unfoldable pub serv_expect : Regex → List ℕ → Server → Option Server
unfolding expect_exact expect_ere
serv_expect regex pattern s =
    if (length s.buffers.expbuf == 0) && not s.ptm_open
    then none
    else if has_flag s.conn.expflags pass_expect_exact
    then expect_exact pattern s
    else if has_flag s.conn.expflags pass_expect_glob
    then none
    else if has_flag s.conn.expflags pass_expect_ere
    then expect_ere regex pattern s
    else none

-- Nanoseconds in a second, and Clock_diff as a distance of two times.
abbrev pub seconds : ℕ → ℕ
seconds n = n * 1000000000

abbrev pub clock_diff : ℕ → ℕ → ℕ
clock_diff a b = (a - b) + (b - a)

-- `Clock_diff(& t, NULL) > limit`
abbrev pub elapsed : ℕ → ℕ → ℤ → Bool
elapsed since now (pos limit) = ltb (seconds limit) (clock_diff since now)
elapsed since now (negsuc n) = true

abbrev timed_out : ℤ → ℕ → ℕ → Bool
timed_out (negsuc n) since now = false
timed_out (pos zero) since now = true
timed_out (pos (suc n)) since now = elapsed since now (pos (suc n))

unfoldable pub exp_timed_out : Server → Bool
exp_timed_out s = timed_out s.conn.timeout s.conn.startime s.env.now
