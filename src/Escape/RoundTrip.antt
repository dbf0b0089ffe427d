-- ===== src/Escape/RoundTrip.antt =====
-- Proofs on cli_dump_cstring and strunesc together (client.c, common.c).
use sexpect.Base.{
  ◌+◌, inl, inr, Bool-cases, ◌≤◌, ==_iff, ℕ, zero, suc, ◌<◌, ◌≡◌, refl, Bool, true, false, ◌&&◌,
  Option, none, some, List, [], ◌∷◌, ◌++◌, ◌==◌, length, arith, All,
}
use sexpect.Proto.Wire.{IsByte}
use sexpect.Escape.Defs.{step, escape, unescape, strunesc, dump_char, dump_cstring}

-- The first round reads a dumped byte, whatever follows.
abbrev reads : List ℕ → ℕ → Bool
reads rest c = elim (step (dump_char c ++ rest)) [
  | none ↦ false
  | some (byte, used) ↦ (byte == c) && (used == length (dump_char c))
]

-- A test at `n` numbers in a row.
passes : (ℕ → Bool) → ℕ → ℕ → Bool
passes test zero from = true
passes test (suc n) from = test from && passes test n (from + 1)

passes-within :
    (test : ℕ → Bool) (n from c : ℕ)
    → passes test n from ≡ true
    → from ≤ c
    → c < from + n
    → test c ≡ true
unfolding passes
passes-within test zero from c run low high = absurd (omega arith)
passes-within test (suc n) from c run low high = elim (Bool-cases (c == from)) [
  | inl here ↦ ground (arith, (==_iff c from).0 here)
  | inr later ↦ passes-within test n (from + 1) c (ground arith) (ground arith) (omega arith)
]

at_bytes : (test : ℕ → Bool) (c : ℕ) → passes test 256 0 ≡ true → IsByte c → test c ≡ true
at_bytes test c run byte = passes-within test 256 0 c run (omega arith) (omega arith)

reads_table : (rest : List ℕ) → passes (reads rest) 256 0 ≡ true
unfolding passes step escape dump_char
reads_table rest = refl

step-dump_char :
    (c : ℕ) (rest : List ℕ) → c < 256 → step (dump_char c ++ rest) ≡ some (c, length (dump_char c))
step-dump_char c rest h =
    read (step (dump_char c ++ rest)) (at_bytes (reads rest) c (reads_table rest) h)
  where
    read :
        (r : Option (ℕ × ℕ))
        → (elim r [
          | none ↦ false
          | some (byte, used) ↦ (byte == c) && (used == length (dump_char c))
        ])
          ≡ true
        → r ≡ some (c, length (dump_char c))
    read r e = ground arith

-- Skipping what was read.
unescape_skip : (xs rest : List ℕ) → unescape (length xs) (xs ++ rest) ≡ unescape 0 rest
unfolding unescape
unescape_skip [] rest = refl
unescape_skip (x ∷ xs) rest = unescape_skip xs rest

abbrev is_cons : List ℕ → Bool
is_cons [] = false
is_cons (x ∷ xs) = true

dump_char_table : passes (λ c. is_cons (dump_char c)) 256 0 ≡ true
unfolding passes dump_char
dump_char_table = refl

-- A round that reads the text `d` as one byte.
unescape-step :
    (d rest : List ℕ) (c : ℕ) (out : List ℕ)
    → is_cons d ≡ true
    → step (d ++ rest) ≡ some (c, length d)
    → unescape 0 rest ≡ some out
    → unescape 0 (d ++ rest) ≡ some (c ∷ out)
unfolding unescape
unescape-step [] rest c out n s e = absurd (ground arith)
unescape-step (x ∷ xs) rest c out n s e = ground (arith, s, unescape_skip xs rest, e)

-- cli_dump_cstring and strunesc are inverse on all bytes: strunesc reads the text that is printed for
-- any list of bytes, and returns exactly these bytes.
pub strunesc-dump_cstring : (bs : List ℕ) → All IsByte bs → strunesc (dump_cstring bs) ≡ some bs
unfolding strunesc unescape dump_cstring
strunesc-dump_cstring [] h = refl
strunesc-dump_cstring (c ∷ cs) (h, hs) =
    unescape-step (dump_char c) (dump_cstring cs) c cs
      (at_bytes (λ x. is_cons (dump_char x)) c dump_char_table h)
      (step-dump_char c (dump_cstring cs) h) (strunesc-dump_cstring cs hs)
