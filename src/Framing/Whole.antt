-- ===== src/Framing/Whole.antt =====
-- Proofs on short reads, short writes and interrupts (common.c, readn and writen).
use sexpect.Base.{
  take-drop, drop-drop, ℕ, zero, suc, ◌+◌, ◌-◌, ◌≤◌, ◌<◌, ◌≡◌, ◌∙◌, sym, subst, refl, ap, Bool,
  true, false, List, [], ◌∷◌, ◌++◌, ◌==◌, if◌then◌else◌, length, take, drop, min, All, arith,
  length-drop, take-append-drop,
}
use sexpect.Framing.Defs.{
  Answer, interrupted, failed, moves, Reading, got, behind, readn, Writing, wrote, after, writen,
}

-- A call that does not fail, and moves something when it returns a number.
abbrev pub IsWilling : Answer → Type 0
IsWilling interrupted = Unit
IsWilling failed = ⊥
IsWilling (moves k) = 0 < k

-- How many calls move bytes.
unfoldable pub moving : List Answer → ℕ
moving [] = 0
moving (interrupted ∷ answers) = moving answers
moving (failed ∷ answers) = moving answers
moving (moves k ∷ answers) = suc (moving answers)

-- `n` bytes were read, or all there were if that is less, and the stream is behind them. Of the
-- `most` returns that moved bytes, `n` at most are used.
pub data Reads (n : ℕ) (stream : List ℕ) (most : ℕ) : Reading → Type 0 where
  reads :
      (left : List Answer)
      → All IsWilling left
      → most ≤ n + moving left
      → Reads n stream most (got (take n stream) (drop n stream) left)

-- Nothing is left to read: nothing was asked for, or the stream has ended.
Reads-none :
    (n : ℕ) (stream : List ℕ) (most : ℕ) (left : List Answer)
    → All IsWilling left
    → most ≤ n + moving left
    → min n (length stream) ≡ 0
    → Reads n stream most (got [] stream left)
Reads-none zero stream most left w h e = reads left w h
Reads-none (suc n) [] most left w h e = reads left w h
Reads-none (suc n) (x ∷ xs) most left w h e = absurd (omega (arith, e))

Reads-more :
    (m n : ℕ) (stream : List ℕ) (most : ℕ) (r : Reading)
    → m ≤ n
    → 0 < m
    → Reads (n - m) (drop m stream) most r
    → Reads n stream (suc most) (behind (take m stream) r)
Reads-more m n stream most r h pos (reads left w enough) =
    subst (Reads n stream (suc most))
      (ap (λ bs. got bs (drop n stream) left) (sym (take-drop m (n - m) n stream (omega arith)))
        ∙ ap (λ rest. got (take m stream ++ take (n - m) (drop m stream)) rest left)
            (sym (drop-drop m (n - m) n stream (omega arith))))
      (reads left w (omega (arith, enough)))

Reads-if :
    (b : Bool) (n : ℕ) (stream : List ℕ) (most : ℕ) (r q : Reading)
    → (b ≡ true → Reads n stream most r)
    → (b ≡ false → Reads n stream most q)
    → Reads n stream most (if b then r else q)
Reads-if true n stream most r q f g = f refl
Reads-if false n stream most r q f g = g refl

-- readn, with more returns of read that move something than bytes are asked for, none of which fails:
-- it reads what was asked for, or all that the stream has if that is less, however read splits it up,
-- and uses at most one of them for each byte that was asked for.
pub readn_lem :
    (answers : List Answer) (n : ℕ) (stream : List ℕ)
    → All IsWilling answers
    → n < moving answers
    → Reads n stream (moving answers) (readn answers n stream)
unfolding readn moving
readn_lem [] n stream w h = absurd (omega arith)
readn_lem (interrupted ∷ answers) n stream w h =
    Reads-if (n == 0) n stream (moving answers) _ _
      (λ e.
        Reads-none n stream (moving answers) (interrupted ∷ answers) w (omega arith) (ground arith))
      (λ _. readn_lem answers n stream w.1 h)
readn_lem (failed ∷ answers) n stream w h = absurd w.0
readn_lem (moves k ∷ answers) n stream w h =
    let m = min k (min n (length stream)) in
    Reads-if (n == 0) n stream (suc (moving answers)) _ _
      (λ e.
        Reads-none n stream (suc (moving answers)) (moves k ∷ answers) w (omega arith)
          (ground arith))
      λ some_asked.
        Reads-if (m == 0) n stream (suc (moving answers)) _ _
          (λ e.
            Reads-none n stream (suc (moving answers)) answers w.1 (ground arith)
              (ground (arith, w.0)))
          λ some_read.
            Reads-more m n stream (moving answers) (readn answers (n - m) (drop m stream))
              (omega arith) (ground arith)
              (readn_lem answers (n - m) (drop m stream) w.1 (ground arith))

-- All of a buffer was written, and each byte cost at most one of the `most` returns that moved bytes.
pub data Writes (bs : List ℕ) (most : ℕ) : Writing → Type 0 where
  writes :
      (left : List Answer)
      → All IsWilling left
      → most ≤ length bs + moving left
      → Writes bs most (wrote bs left)

Writes-if :
    (b : Bool) (bs : List ℕ) (most : ℕ) (r q : Writing)
    → (b ≡ true → Writes bs most r)
    → (b ≡ false → Writes bs most q)
    → Writes bs most (if b then r else q)
Writes-if true bs most r q f g = f refl
Writes-if false bs most r q f g = g refl

Writes-none :
    (bs : List ℕ) (left : List Answer)
    → All IsWilling left
    → (length bs == 0) ≡ true
    → Writes bs (moving left) (wrote [] left)
Writes-none [] left w e = writes left w (omega arith)
Writes-none (x ∷ xs) left w e = absurd (ground arith)

Writes-more :
    (m most : ℕ) (bs : List ℕ) (r : Writing)
    → 0 < m
    → m ≤ length bs
    → Writes (drop m bs) most r
    → Writes bs (suc most) (after (take m bs) r)
Writes-more m most bs r some_moved h (writes left w enough) =
    subst (Writes bs (suc most)) (ap (λ ys. wrote ys left) (sym (take-append-drop m bs)))
      (writes left w (omega (arith, enough, length-drop m bs)))

-- writen, with as many returns of write that move something as there are bytes, none of which fails:
-- it writes the whole buffer, however write splits it up, and uses at most one of them for each byte.
pub writen_lem :
    (answers : List Answer) (bs : List ℕ)
    → All IsWilling answers
    → length bs ≤ moving answers
    → Writes bs (moving answers) (writen answers bs)
unfolding writen moving
writen_lem [] bs w h =
    Writes-if (length bs == 0) bs 0 _ _ (Writes-none bs [] tt) (λ e. absurd (ground arith))
writen_lem (interrupted ∷ answers) bs w h =
    Writes-if (length bs == 0) bs (moving answers) _ _ (Writes-none bs (interrupted ∷ answers) w)
      (λ _. writen_lem answers bs w.1 h)
writen_lem (failed ∷ answers) bs w h = absurd w.0
writen_lem (moves k ∷ answers) bs w h =
    let m = min k (length bs) in
    Writes-if (length bs == 0) bs (suc (moving answers)) _ _ (Writes-none bs (moves k ∷ answers) w)
      λ some_left.
        Writes-more m (moving answers) bs (writen answers (drop m bs)) (ground (arith, w.0))
          (omega arith) (writen_lem answers (drop m bs) w.1 (ground (arith, w.0, length-drop m bs)))
