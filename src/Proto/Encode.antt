-- ===== src/Proto/Encode.antt =====
-- Encoding (proto.c, ttlv_calc_size_ex, ttlv_value_hton, ttlv_encode).
use sexpect.Base.{
  ℕ, ◌+◌, ◌-◌, ◌*◌, ◌/◌, ◌%◌, ◌^◌, ◌≤◌, ◌<◌, ◌≡◌, refl, Bool, true, false, Option, none, some, List,
  [], ◌∷◌, ◌++◌, ◌==◌, ltb, if◌then◌else◌, length, take, replicate, arith,
}
use sexpect.Proto.Wire.{net_put32, net_put64}
use sexpect.Proto.Message.{
  Value, Ttlv, null, node, get_int, get_long, get_raw, round8, ttype_int, ttype_long, ttype_bool,
  ttype_text, ttype_raw, ttype_struct,
}

infixl 5 ◌>>=◌
abbrev pub ◌>>=◌ {ℓ κ} : {A : Type ℓ} {B : Type κ} → Option A → (A → Option B) → Option B
none >>= f = none
some a >>= f = f a

-- TAG_HDR_SIZE
abbrev pub tag_hdr_size : ℕ
tag_hdr_size = 8

-- `int + uint32_t` and `int + int`, kept as a bit pattern.
abbrev add_int : ℕ → ℕ → ℕ
add_int a b = (a + b) % 2 ^ 32

-- ttlv_calc_size_ex. The loop ends behind the first node if `cur_tag_only` is set.
unfoldable pub ttlv_calc_size_ex : Ttlv → Bool → ℕ
ttlv_calc_size_ex null cur_tag_only = 0
ttlv_calc_size_ex (node tag type length v child next) cur_tag_only =
    let nested = ttlv_calc_size_ex child false in
    let later = ttlv_calc_size_ex next false in
    let size = add_int tag_hdr_size (if type == ttype_struct then nested else round8 length) in
    if cur_tag_only then size else add_int size later

unfoldable pub ttlv_calc_size : Ttlv → ℕ
unfolding ttlv_calc_size_ex
ttlv_calc_size head = ttlv_calc_size_ex head false

-- The zeros behind a value of `length` bytes.
unfoldable pub pad_size : ℕ → ℕ
pad_size length = if length % 8 == 0 then 0 else 8 - length % 8

-- The result of a function that returns a number of bytes as an int: from 2 ^ 31 bytes on it is
-- negative, which is a failure. (No buffer has 2 ^ 32 bytes or more.)
abbrev pub as_int : Option (List ℕ) → Option (List ℕ)
as_int none = none
as_int (some bytes) = if ltb (length bytes) (2 ^ 31) then some bytes else none

-- ttlv_value_hton: the bytes written, `none` for a negative result. The caller handles structures.
unfoldable pub ttlv_value_hton : ℕ → ℕ → Value → ℕ → Option (List ℕ)
ttlv_value_hton type length v buf_len =
    if type == ttype_struct
    then some []
    else if type == ttype_int
    then int_field
    else if type == ttype_bool
    then int_field
    else if type == ttype_long
    then long_field
    else if type == ttype_text
    then raw_field
    else if type == ttype_raw
    then raw_field
    else none
  where
    int_field : Option (List ℕ)
    int_field = if ltb buf_len 8 then none else some (net_put32 (get_int v) ++ (0 ∷ 0 ∷ 0 ∷ 0 ∷ []))

    long_field : Option (List ℕ)
    long_field = if ltb buf_len 8 then none else some (net_put64 (get_long v))

    raw_field : Option (List ℕ)
    raw_field =
        if ltb buf_len (round8 length)
        then none
        else as_int (some (take length (get_raw v) ++ replicate (pad_size length) 0))

-- `(p->tag << 8) | p->type`, for a tag of 24 bits and a type of 8.
abbrev pub tagtype : ℕ → ℕ → ℕ
tagtype tag type = tag * 2 ^ 8 + type

-- One round of the loop of ttlv_encode, given the encoding of the children in the space behind the
-- header. For a structure the length field is what the children took.
unfoldable pub encode_item : ℕ → ℕ → ℕ → Value → Option (List ℕ) → ℕ → Option (List ℕ)
encode_item tag type length v child space =
    if ltb space tag_hdr_size then none else if type == ttype_struct then structure else plain
  where
    structure : Option (List ℕ)
    structure = do
      bytes ← child
      some (net_put32 (tagtype tag type) ++ (net_put32 (sexpect.Base.length bytes) ++ bytes))

    plain : Option (List ℕ)
    plain = do
      bytes ← ttlv_value_hton type length v (space - tag_hdr_size)
      some (net_put32 (tagtype tag type) ++ (net_put32 length ++ bytes))

-- The loop of ttlv_encode. The call for the children returns an int.
unfoldable pub encode_items : Ttlv → ℕ → Option (List ℕ)
encode_items null buf_len = some []
encode_items (node tag type len v child next) buf_len = do
  item ← encode_item tag type len v (as_int (encode_items child (buf_len - tag_hdr_size))) buf_len
  rest ← encode_items next (buf_len - length item)
  some (item ++ rest)

-- ttlv_encode into a buffer of `buf_len` bytes: what it writes, `none` for a negative result.
unfoldable pub ttlv_encode : Ttlv → ℕ → Option (List ℕ)
unfolding encode_items
ttlv_encode head buf_len = as_int (encode_items head buf_len)
