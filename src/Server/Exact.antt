-- ===== src/Server/Exact.antt =====
-- Proofs on what `expect -exact` finds (server.c, expect_exact).
use sexpect.Base.{
  ℕ, zero, suc, ◌+◌, ◌<◌, ◌≡◌, ◌≢◌, refl, ap, sym, ◌∙◌, subst, true, false, Option, none, some,
  List, [], ◌∷◌, ◌++◌, if◌then◌else◌, length, take, drop, map, arith, inl, inr, Bool-cases,
  append_assoc, take-append-drop, drop-append, drop-nil, drop-drop,
}
use sexpect.Tags.{has_flag, pass_expect_icase}
use sexpect.Server.Buffers.{without_nul}
use sexpect.Server.State.{Server}
use sexpect.Server.Expect.{is_prefix, strstr, same, to_lower, exact_found, expect_exact}
use sexpect.Server.TrackCopy.{c_string-drop}
use sexpect.Server.TrackPass.{Holding}

-- The text with the folding of case.
module _ (fold : ℕ → ℕ) where
  is_prefix-take :
      (xs ys : List ℕ) → is_prefix fold xs ys ≡ true → map fold (take (length xs) ys) ≡ map fold xs
  unfolding is_prefix
  is_prefix-take [] ys h = refl
  is_prefix-take (x ∷ xs) [] h = absurd (ground (arith, h))
  is_prefix-take (x ∷ xs) (y ∷ ys) h = ground (arith, h, is_prefix-take xs ys)

  -- Conversely, a text that begins with the other is found to.
  is_prefix-append :
      (xs ys rest : List ℕ) → map fold xs ≡ map fold ys → is_prefix fold xs (ys ++ rest) ≡ true
  unfolding is_prefix
  is_prefix-append [] ys rest h = refl
  is_prefix-append (x ∷ xs) [] rest h = absurd (ground (arith, h))
  is_prefix-append (x ∷ xs) (y ∷ ys) rest h = ground (arith, h, is_prefix-append xs ys rest)

  -- Where strstr finds the text, and where it finds none.
  data FirstAt (text needle : List ℕ) : Option ℕ → Type 0 where
    first :
        {i : ℕ}
        → is_prefix fold needle (drop i text) ≡ true
        → ((j : ℕ) → j < i → is_prefix fold needle (drop j text) ≡ false)
        → FirstAt text needle (some i)
    nowhere : ((j : ℕ) → is_prefix fold needle (drop j text) ≡ false) → FirstAt text needle none

  earlier :
      (x : ℕ) (xs needle : List ℕ) (i : ℕ)
      → is_prefix fold needle (x ∷ xs) ≡ false
      → ((j : ℕ) → j < i → is_prefix fold needle (drop j xs) ≡ false)
      → (j : ℕ) → j < suc i
      → is_prefix fold needle (drop j (x ∷ xs)) ≡ false
  earlier x xs needle i miss e zero low = miss
  earlier x xs needle i miss e (suc j) low = e j (omega (arith, low))

  anywhere :
      (x : ℕ) (xs needle : List ℕ)
      → is_prefix fold needle (x ∷ xs) ≡ false
      → ((j : ℕ) → is_prefix fold needle (drop j xs) ≡ false)
      → (j : ℕ) → is_prefix fold needle (drop j (x ∷ xs)) ≡ false
  anywhere x xs needle miss e zero = miss
  anywhere x xs needle miss e (suc j) = e j

  later :
      (x : ℕ) (xs needle : List ℕ) {o : Option ℕ}
      → is_prefix fold needle (x ∷ xs) ≡ false
      → FirstAt xs needle o
      → FirstAt (x ∷ xs) needle (elim o [ none ↦ none | some i ↦ some (i + 1) ])
  later x xs needle miss (nowhere h) = nowhere (anywhere x xs needle miss h)
  later x xs needle miss (first {i} h e) =
      subst (λ k. FirstAt (x ∷ xs) needle (some k)) (omega arith)
        (first {i = suc i} h (earlier x xs needle i miss e))

  strstr-FirstAt : (text needle : List ℕ) → FirstAt text needle (strstr fold text needle)
  unfolding strstr
  strstr-FirstAt [] needle = elim (Bool-cases (is_prefix fold needle [])) [
    | inl e ↦ rw e (first e (λ j low. absurd (omega (arith, low))))
    | inr e ↦ rw e (nowhere (λ j. rw (drop-nil j) e))
  ]
  strstr-FirstAt (x ∷ xs) needle = elim (Bool-cases (is_prefix fold needle (x ∷ xs))) [
    | inl e ↦ rw e (first e (λ j low. absurd (omega (arith, low))))
    | inr e ↦ rw e (later x xs needle e (strstr-FirstAt xs needle))
  ]

-- The pattern, with the case folded, stands nowhere before `i` in the text.
abbrev pub NotBefore : (ℕ → ℕ) → List ℕ → List ℕ → ℕ → Type 0
NotBefore fold pattern text i =
    (before found behind : List ℕ)
    → length before < i
    → before ++ (found ++ behind) ≡ text
    → map fold found ≢ map fold pattern

missed :
    (fold : ℕ → ℕ) (pattern text before found behind : List ℕ)
    → is_prefix fold pattern (drop (length before) text) ≡ false
    → before ++ (found ++ behind) ≡ text
    → map fold found ≢ map fold pattern
missed fold pattern text before found behind no_prefix split fits =
    let there : drop (length before) text ≡ found ++ behind =
      ap (drop (length before)) (sym split)
      ∙ drop-append (length before) before (found ++ behind) refl in
    let prefix = is_prefix-append fold pattern found behind (sym fits) in
    absurd (ground (arith, prefix, rw there at no_prefix))

-- What `expect -exact` does to a server whose buffers hold what they should of the output `h`. A
-- match is an occurrence of the pattern in the output less its NUL bytes, with the case folded; it
-- is the first that begins in the expect buffer, and what follows it stays there. Where there is no
-- match, the pattern occurs nowhere in the expect buffer.
pub data Expects (fold : ℕ → ℕ) (h pattern : List ℕ) (s : Server) : Option Server → Type 0 where
  hit :
      {s' : Server} (before found : List ℕ)
      → before ++ (found ++ s'.buffers.expbuf) ≡ without_nul (take s.buffers.expoffset h)
      → map fold found ≡ map fold pattern
      → (i : ℕ) → s'.buffers.expbuf ≡ drop (i + length pattern) s.buffers.expbuf
      → NotBefore fold pattern s.buffers.expbuf i
      → Expects fold h pattern s (some s')
  miss : ((i : ℕ) → NotBefore fold pattern s.buffers.expbuf i) → Expects fold h pattern s none

split_at : (i n : ℕ) (xs : List ℕ) → take i xs ++ (take n (drop i xs) ++ drop (i + n) xs) ≡ xs
split_at i n xs =
    ap (λ l. take i xs ++ (take n (drop i xs) ++ l)) (sym (drop-drop i n (i + n) xs refl))
    ∙ (ap (λ l. take i xs ++ l) (take-append-drop n (drop i xs)) ∙ take-append-drop i xs)

exact_found-Expects :
    (fold : ℕ → ℕ) (h pattern : List ℕ) (s : Server) {o : Option ℕ}
    → Holding h s
    → FirstAt fold s.buffers.expbuf pattern o
    → Expects fold h pattern s (exact_found pattern s o)
unfolding exact_found
exact_found-Expects fold h pattern s t (nowhere e) =
    miss
      (λ i before found behind low. missed fold pattern _ before found behind (e (length before)))
exact_found-Expects fold h pattern s t (first {i} e early) =
    let n = length pattern in
    let buf = s.buffers.expbuf in
    let same_rest = c_string-drop (i + n) t in
    hit (t.seen ++ take i buf) (take n (drop i buf))
      (ap (λ l. (t.seen ++ take i buf) ++ (take n (drop i buf) ++ l)) same_rest
        ∙ (append_assoc t.seen (take i buf) (take n (drop i buf) ++ drop (i + n) buf)
            ∙ (ap (λ l. t.seen ++ l) (split_at i n buf) ∙ t.exp)))
      (is_prefix-take fold pattern (drop i buf) e) i same_rest
      (λ before found behind low.
        missed fold pattern buf before found behind (early (length before) low))

-- expect_exact finds the first occurrence of its pattern in the expect buffer, or says that there
-- is none. What it finds is part of the output, with its NUL bytes left out, and what it leaves in
-- the expect buffer is what follows there. The buffers have to be those of the output so far.
pub expect_exact-Expects :
    (h pattern : List ℕ) (s : Server)
    → Holding h s
    → Expects
        (if has_flag s.conn.expflags pass_expect_icase then to_lower else same)
        h
        pattern
        s
        (expect_exact pattern s)
unfolding expect_exact
expect_exact-Expects h pattern s t =
    exact_found-Expects _ h pattern s t (strstr-FirstAt _ s.buffers.expbuf pattern)
