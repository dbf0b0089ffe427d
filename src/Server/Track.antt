-- ===== src/Server/Track.antt =====
-- What the buffers hold of the whole output of the child (server.c).
use sexpect.Base.{
  ℕ, zero, suc, ◌+◌, ◌-◌, ◌≤◌, ◌≡◌, refl, ap, sym, ◌∙◌, List, [], ◌∷◌, ◌++◌, length, take, drop,
  arith, length-append, length-take, length-drop, take-append-drop, append_assoc, append-nil,
  Bool-cases, inl, inr, ltb→lt, ltb,
}
use sexpect.Server.Buffers.{
  Buffers, max_old_data, serv_init, room, receive, drop_old_raw, drop_old_exp, without_nul,
  catch_up, nonblock_drop, mark_sent, skip_expect, discard_expect,
}
use sexpect.Server.Invariant.{
  IsValid, serv_init-IsValid, receive-IsValid, nonblock_drop-IsValid, mark_sent-IsValid,
  skip_expect-IsValid, discard_expect-IsValid,
}

-- The buffers behind the output `h`: the raw buffer is its end, from `rawoffset` on, and the expect
-- buffer is the end of its first `expoffset` bytes, less their NUL bytes.
pub record Tracks (h : List ℕ) (b : Buffers) : Type 0 where
  pub valid : IsValid b
  pub gone : List ℕ
  pub gone_size : length gone ≡ b.rawoffset
  pub raw : gone ++ b.rawbuf ≡ h
  pub seen : List ℕ
  pub exp : seen ++ b.expbuf ≡ without_nul (take b.expoffset h)

pub Tracks-length : {h : List ℕ} {b : Buffers} → Tracks h b → length h ≡ b.ntotal
Tracks-length {h} {b} t =
    ap length (sym t.raw) ∙ omega (arith, length-append t.gone b.rawbuf, t.gone_size, t.valid)

pub serv_init-Tracks : Tracks [] serv_init
unfolding serv_init without_nul
serv_init-Tracks = record {
  valid = serv_init-IsValid;
  gone = [];
  gone_size = refl;
  raw = refl;
  seen = [];
  exp = refl;
}

take-append-le : (n : ℕ) (xs ys : List ℕ) → n ≤ length xs → take n (xs ++ ys) ≡ take n xs
take-append-le zero xs ys h = refl
take-append-le (suc n) [] ys h = absurd (omega arith)
take-append-le (suc n) (x ∷ xs) ys h = ap (λ zs. x ∷ zs) (take-append-le n xs ys (omega arith))

pub drop-append-ge : (n k : ℕ) (xs ys : List ℕ) → n ≡ length xs + k → drop n (xs ++ ys) ≡ drop k ys
drop-append-ge n k [] ys e = ap (λ i. drop i ys) (omega (arith, e))
drop-append-ge zero k (x ∷ xs) ys e = absurd (omega (arith, e))
drop-append-ge (suc n) k (x ∷ xs) ys e = drop-append-ge n k xs ys (omega (arith, e))

pub without_nul-append :
    (xs ys : List ℕ) → without_nul (xs ++ ys) ≡ without_nul xs ++ without_nul ys
unfolding without_nul
without_nul-append [] ys = refl
without_nul-append (x ∷ xs) ys = ground (arith, without_nul-append xs ys)

module _ {h : List ℕ} {b : Buffers} where
  pub receive-Tracks :
      (bs : List ℕ) → Tracks h b → length bs ≤ room b → Tracks (h ++ bs) (receive b bs)
  unfolding receive
  receive-Tracks bs t fits = record {
    valid = unfold receive in receive-IsValid bs t.valid fits;
    gone = t.gone;
    gone_size = t.gone_size;
    raw = sym (append_assoc t.gone b.rawbuf bs) ∙ ap (λ l. l ++ bs) t.raw;
    seen = t.seen;
    exp =
        t.exp
        ∙ ap without_nul (
            sym (
              take-append-le b.expoffset h bs
                (omega (arith, Tracks-length t, t.valid.exp_behind))));
  }

  -- The beginning of the expect buffer goes.
  pub drop_exp-Tracks :
      (n : ℕ)
      → Tracks h b
      → IsValid (record b { expbuf = drop n b.expbuf })
      → Tracks h (record b { expbuf = drop n b.expbuf })
  drop_exp-Tracks n t v = record {
    valid = v;
    gone = t.gone;
    gone_size = t.gone_size;
    raw = t.raw;
    seen = t.seen ++ take n b.expbuf;
    exp =
        append_assoc t.seen (take n b.expbuf) (drop n b.expbuf)
        ∙ (ap (λ l. t.seen ++ l) (take-append-drop n b.expbuf) ∙ t.exp);
  }

  -- A step that touches neither the bytes nor the offsets.
  same_bytes :
      (c : Buffers)
      → Tracks h b
      → IsValid c
      → c.rawbuf ≡ b.rawbuf
      → c.rawoffset ≡ b.rawoffset
      → c.expbuf ≡ b.expbuf
      → c.expoffset ≡ b.expoffset
      → Tracks h c
  same_bytes c t v raw rawoffset expbuf expoffset = record {
    valid = v;
    gone = t.gone;
    gone_size = t.gone_size ∙ sym rawoffset;
    raw = rw raw t.raw;
    seen = t.seen;
    exp = rw (expbuf, expoffset) t.exp;
  }

  -- The expect buffer starts anew, somewhere in the output.
  pub fresh :
      (c : Buffers)
      → Tracks h b
      → IsValid c
      → c.rawbuf ≡ b.rawbuf
      → c.rawoffset ≡ b.rawoffset
      → c.expbuf ≡ []
      → Tracks h c
  fresh c t v raw rawoffset empty = record {
    valid = v;
    gone = t.gone;
    gone_size = t.gone_size ∙ sym rawoffset;
    raw = rw raw t.raw;
    seen = without_nul (take c.expoffset h);
    exp = rw empty (append-nil (without_nul (take c.expoffset h)));
  }

  pub drop_old_raw-Tracks : Tracks h b → Tracks h (drop_old_raw b)
  unfolding drop_old_raw
  drop_old_raw-Tracks t = elim (Bool-cases (ltb max_old_data b.oldcnt)) [
    | inr e ↦ rw e t
    | inl e ↦
        let n = b.oldcnt - max_old_data in
        let over = ltb→lt max_old_data b.oldcnt e in
        rw e (record {
          valid = omega (arith, t.valid, length-drop n b.rawbuf, over);
          gone = t.gone ++ take n b.rawbuf;
          gone_size =
              length-append t.gone (take n b.rawbuf)
              ∙ omega (arith, length-take n b.rawbuf, t.gone_size, t.valid.filled, over);
          raw =
              append_assoc t.gone (take n b.rawbuf) (drop n b.rawbuf)
              ∙ (ap (λ l. t.gone ++ l) (take-append-drop n b.rawbuf) ∙ t.raw);
          seen = t.seen;
          exp = t.exp;
        })
  ]

  pub nonblock_drop-Tracks : Tracks h b → Tracks h (nonblock_drop b)
  unfolding nonblock_drop
  nonblock_drop-Tracks t =
      same_bytes (nonblock_drop b) t (nonblock_drop-IsValid t.valid) (ground arith) (ground arith)
        (ground arith) (ground arith)

  pub mark_sent-Tracks : Tracks h b → Tracks h (mark_sent b)
  unfolding mark_sent
  mark_sent-Tracks t = same_bytes (mark_sent b) t (mark_sent-IsValid t.valid) refl refl refl refl

  pub skip_expect-Tracks : Tracks h b → Tracks h (skip_expect b)
  unfolding skip_expect
  skip_expect-Tracks t = fresh (skip_expect b) t (skip_expect-IsValid t.valid) refl refl refl

  pub discard_expect-Tracks : Tracks h b → Tracks h (discard_expect b)
  unfolding discard_expect
  discard_expect-Tracks t =
      fresh (discard_expect b) t (discard_expect-IsValid t.valid) refl refl refl

  pub catch_up-Tracks :
      Tracks h b → Tracks h (catch_up b) × ((catch_up b).rawoffset ≤ (catch_up b).expoffset)
  unfolding catch_up
  catch_up-Tracks t = elim (Bool-cases (ltb b.expoffset b.rawoffset)) [
    | inl e ↦ rw e (fresh _ t (omega (arith, t.valid)) refl refl refl, omega arith)
    | inr e ↦ rw e (t, ground (arith, e))
  ]

pub drop_old_exp-Tracks : {h : List ℕ} {b : Buffers} → Tracks h b → Tracks h (drop_old_exp b)
unfolding drop_old_exp
drop_old_exp-Tracks {h} {b} t = elim (Bool-cases (ltb max_old_data (length b.expbuf))) [
  | inr e ↦ rw e t
  | inl e ↦
      let n = length b.expbuf - max_old_data in
      rw e (drop_exp-Tracks n t (omega (arith, t.valid, length-drop n b.expbuf)))
]
