-- ===== src/Server/TrackCopy.antt =====
-- Proofs on copying and matching, with the whole output of the child in view (server.c).
use sexpect.Base.{
  ℕ, zero, suc, ◌+◌, ◌-◌, ◌≤◌, ◌≡◌, ◌≢◌, refl, ap, sym, ◌∙◌, true, some, List, [], ◌∷◌, ◌++◌, ◌==◌,
  length, take, drop, arith, length-append, length-drop, take-append-drop, append_assoc, take_all,
  Bool-cases, inl, inr, All, All-drop, c_string, leb, subst,
}
use sexpect.Server.Buffers.{Buffers, size_raw_buf, without_nul, copy_new, buf_raw2expect}
use sexpect.Server.Invariant.{length-without_nul}
use sexpect.Server.Track.{
  Tracks, Tracks-length, catch_up-Tracks, drop_exp-Tracks, drop-append-ge, without_nul-append,
}

module _ {h : List ℕ} {b : Buffers} where
  -- What the raw buffer has behind `expoffset` is the output from there on.
  unseen :
      Tracks h b
      → b.rawoffset ≤ b.expoffset
      → drop (b.oldcnt + b.newcnt - (b.ntotal - b.expoffset)) b.rawbuf ≡ drop b.expoffset h
  unseen t near = sym (
      ap (drop b.expoffset) (sym t.raw)
      ∙ drop-append-ge b.expoffset (b.oldcnt + b.newcnt - (b.ntotal - b.expoffset)) t.gone b.rawbuf
          (omega (arith, t.gone_size, near, t.valid)))

  copy_new-Tracks :
      {c : Buffers} → Tracks h b → b.rawoffset ≤ b.expoffset → copy_new b ≡ some c → Tracks h c
  unfolding copy_new
  copy_new-Tracks {c} t near e =
      elim (Bool-cases (leb (length b.expbuf + (b.ntotal - b.expoffset)) size_raw_buf)) [
        | inr over ↦ absurd (ground (arith, e, over))
        | inl fits ↦
            let new = drop (b.oldcnt + b.newcnt - (b.ntotal - b.expoffset)) b.rawbuf in
            let d : Buffers = record b {
              expoffset = b.ntotal;
              expbuf = b.expbuf ++ without_nul new;
            } in
            let same : d ≡ c = ground (arith, e, fits) in
            let all : take b.ntotal h ≡ h = take_all b.ntotal h (omega (arith, Tracks-length t)) in
            subst (Tracks h) (same) (record {
              valid = omega (
                arith,
                t.valid,
                length-append b.expbuf (without_nul new),
                length-without_nul new,
                length-drop (b.oldcnt + b.newcnt - (b.ntotal - b.expoffset)) b.rawbuf,
                fits_le fits,
              );
              gone = t.gone;
              gone_size = t.gone_size;
              raw = t.raw;
              seen = t.seen;
              exp =
                  sym (append_assoc t.seen b.expbuf (without_nul new))
                  ∙ (ap (λ l. l ++ without_nul new) t.exp
                      ∙ (ap (λ l. without_nul (take b.expoffset h) ++ without_nul l) (unseen t near)
                          ∙ (sym (without_nul-append (take b.expoffset h) (drop b.expoffset h))
                              ∙ ap without_nul (take-append-drop b.expoffset h ∙ sym all))));
            })
      ]
    where
      fits_le :
          leb (length b.expbuf + (b.ntotal - b.expoffset)) size_raw_buf ≡ true
          → length b.expbuf + (b.ntotal - b.expoffset) ≤ size_raw_buf
      fits_le f = ground (arith, f)

pub buf_raw2expect-Tracks :
    {h : List ℕ} {b c : Buffers} → Tracks h b → buf_raw2expect b ≡ some c → Tracks h c
unfolding buf_raw2expect
buf_raw2expect-Tracks t e = let (u, near) = catch_up-Tracks t in copy_new-Tracks u near e

without_nul-All : (xs : List ℕ) → All (λ x. x ≢ 0) (without_nul xs)
unfolding without_nul
without_nul-All [] = tt
without_nul-All (x ∷ xs) = elim (Bool-cases (x == 0)) [
  | inl e ↦ rw e (without_nul-All xs)
  | inr e ↦ rw e (ground (arith, e), without_nul-All xs)
]

All-behind : (P : ℕ → Type 0) (xs ys : List ℕ) → All P (xs ++ ys) → All P ys
All-behind P [] ys h = h
All-behind P (x ∷ xs) ys h = All-behind P xs ys h.1

c_string-same : (xs : List ℕ) → All (λ x. x ≢ 0) xs → c_string xs ≡ xs
unfolding c_string
c_string-same [] h = refl
c_string-same (zero ∷ xs) h = absurd (h.0 refl)
c_string-same (suc x ∷ xs) h = ap (λ l. suc x ∷ l) (c_string-same xs h.1)

-- The expect buffer holds no NUL byte that would cut it short.
pub c_string-drop :
    {h : List ℕ} {b : Buffers} (n : ℕ) → Tracks h b → c_string (drop n b.expbuf) ≡ drop n b.expbuf
c_string-drop {h} {b} n t = c_string-same (drop n b.expbuf) (All-drop (λ x. x ≢ 0) n b.expbuf clean)
  where
    clean : All (λ x. x ≢ 0) b.expbuf
    clean =
        All-behind (λ x. x ≢ 0) t.seen b.expbuf
          (subst (All (λ x. x ≢ 0)) (sym t.exp) (without_nul-All (take b.expoffset h)))

-- What is left behind a match is the end of the expect buffer.
pub consumed-Tracks :
    {h : List ℕ} {b : Buffers} (n : ℕ)
    → Tracks h b
    → Tracks h (record b { expbuf = c_string (drop n b.expbuf) })
consumed-Tracks {h} {b} n t =
    rw (c_string-drop n t) (drop_exp-Tracks n t (omega (arith, t.valid, length-drop n b.expbuf)))
