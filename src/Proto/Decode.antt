-- ===== src/Proto/Decode.antt =====
-- Decoding (proto.c, ttlv_valid_len, ttlv_valid_pad, ttlv_value_ntoh, ttlv_decode).
use sexpect.Base.{
  ℕ, zero, suc, ◌/◌, ◌%◌, ◌^◌, ◌<◌, ◌≡◌, refl, Bool, true, not, List, [], ◌∷◌, ◌==◌, ltb, leb,
  if◌then◌else◌, length, take, drop, arith, ◌||◌,
}
use sexpect.Proto.Wire.{net_get32, net_get64}
use sexpect.Proto.Message.{
  Value, Ttlv, null, node, v_none, v_int, v_long, v_raw, round8, ttype_int, ttype_long, ttype_bool,
  ttype_text, ttype_raw, ttype_struct, ttype_end,
}
use sexpect.Proto.Encode.{tag_hdr_size}

-- `failed` is a negative result. `out_of_fuel` has no counterpart in the code.
pub data Decoded {ℓ} (A : Type ℓ) : Type ℓ where
  ok : A → Decoded A
  failed out_of_fuel : Decoded A

infixl 5 ◌>>=◌
abbrev pub ◌>>=◌ {ℓ κ} : {A : Type ℓ} {B : Type κ} → Decoded A → (A → Decoded B) → Decoded B
ok a >>= f = f a
failed >>= f = failed
out_of_fuel >>= f = out_of_fuel

unfoldable pub ttlv_valid_len : ℕ → ℕ → Bool
ttlv_valid_len type length =
    if type == ttype_struct
    then length % 8 == 0
    else if type == ttype_int
    then length == 4
    else if type == ttype_bool
    then length == 4
    else if type == ttype_long
    then length == 8
    else true

abbrev pub ttlv_valid_pad : ℕ → ℕ → List ℕ → Bool
ttlv_valid_pad type length bytes = true

-- ttlv_value_ntoh: the value stored and the number of bytes used, `failed` for a negative result.
unfoldable pub ttlv_value_ntoh : ℕ → ℕ → List ℕ → Decoded (Value × ℕ)
ttlv_value_ntoh type len buf =
    if type == ttype_struct
    then ok (v_none, 0)
    else if type == ttype_int
    then int_field
    else if type == ttype_bool
    then int_field
    else if type == ttype_long
    then long_field
    else if type == ttype_text
    then raw_field
    else if type == ttype_raw
    then raw_field
    else failed
  where
    int_field : Decoded (Value × ℕ)
    int_field = if ltb (length buf) 8 then failed else ok (v_int (net_get32 buf), 8)

    long_field : Decoded (Value × ℕ)
    long_field = if ltb (length buf) 8 then failed else ok (v_long (net_get64 buf), 8)

    raw_field : Decoded (Value × ℕ)
    raw_field =
        if ltb (length buf) (round8 len) then failed else ok (v_raw (take len buf), round8 len)

-- What a round of the loop reads before the value, and the bytes behind it.
pub record Header : Type 0 where
  pub tag : ℕ
  pub type : ℕ
  pub len : ℕ
  pub rest : List ℕ

-- The checks of the loop body behind the one for a whole header, in their order, given the two
-- numbers of the header and the bytes behind it. ttlv_valid_len is called with `tagtype`.
unfoldable pub check_header : ℕ → ℕ → List ℕ → Decoded Header
check_header tagtype len rest =
    if (tagtype % 2 ^ 8 == 0) || leb ttype_end (tagtype % 2 ^ 8)
    then failed
    else if not (ttlv_valid_len tagtype len)
    then failed
    else if ltb (length rest) len
    then failed
    else if not (ttlv_valid_pad tagtype len rest)
    then failed
    else ok (record { tag = tagtype / 2 ^ 8; type = tagtype % 2 ^ 8; len = len; rest = rest })

unfoldable pub read_header : List ℕ → Decoded Header
read_header buf =
    if ltb (length buf) tag_hdr_size
    then failed
    else check_header (net_get32 buf) (net_get32 (drop 4 buf)) (drop 8 buf)

-- The rest of a round and the rounds behind it, given ttlv_decode for a shorter buffer. A structure
-- is decoded from exactly `len` bytes, and its new node has the length 0.
unfoldable pub decode_node : (List ℕ → Decoded Ttlv) → Header → Decoded Ttlv
decode_node self h = if h.type == ttype_struct then structure else plain
  where
    structure : Decoded Ttlv
    structure = do
      child ← self (take h.len h.rest)
      next ← self (drop h.len h.rest)
      ok (node h.tag ttype_struct 0 v_none child next)

    plain : Decoded Ttlv
    plain = do
      field ← ttlv_value_ntoh h.type h.len h.rest
      next ← self (drop field.1 h.rest)
      ok (node h.tag h.type h.len field.0 null next)

-- ttlv_decode. A round uses eight bytes at least, and both the children and the following rounds
-- take the fuel that is left.
unfoldable pub decode : ℕ → List ℕ → Decoded Ttlv
unfolding read_header check_header ttlv_valid_len ttlv_value_ntoh net_get32 decode_node
decode zero buf = out_of_fuel
decode (suc f) [] = ok null
decode (suc f) (b ∷ bs) = do h ← read_header (b ∷ bs); decode_node (decode f) h

-- The result is an int: from 2 ^ 31 bytes on it is negative, which is a failure. (A value or a
-- structure of so many bytes is part of a buffer that has as many.)
unfoldable pub ttlv_decode : List ℕ → Decoded Ttlv
unfolding decode
ttlv_decode buf =
    decode (suc (length buf)) buf >>= λ head. if ltb (length buf) (2 ^ 31) then ok head else failed

-- A buffer that is not empty has a first round.
pub decode_round :
    (f : ℕ) (buf : List ℕ)
    → 0 < length buf
    → decode (suc f) buf ≡ (read_header buf >>= decode_node (decode f))
decode_round f [] h = absurd (omega arith)
decode_round f (b ∷ bs) h = unfold decode in refl
