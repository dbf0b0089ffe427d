-- ===== src/Proto/Size.antt =====
-- How many bytes ttlv_encode writes, against ttlv_calc_size and the sizes of the format.
use sexpect.Base.{
  ℕ, ◌+◌, ◌-◌, ◌*◌, ◌/◌, ◌%◌, ◌^◌, ◌≤◌, ◌<◌, ◌≡◌, refl, false, Option, none, some, List, ◌++◌, ◌==◌,
  ltb, if◌then◌else◌, length, replicate, arith, length-append, take_all, append-nil, sym, ◌∙◌, ◌⊎◌,
  inl, inr, Bool-cases,
}
use sexpect.Proto.Wire.{net_put32}
use sexpect.Proto.Message.{
  Value, Ttlv, null, node, get_int, get_long, get_raw, round8, ttype_struct, v_none, v_int, v_long,
  v_raw,
}
use sexpect.Proto.Valid.{IsItem, IsWf}
use sexpect.Proto.Encode.{
  ttlv_calc_size_ex, ttlv_calc_size, ttlv_value_hton, encode_item, ◌>>=◌, as_int, encode_items,
  ttlv_encode, pad_size, tagtype,
}
use sexpect.Proto.Format.{
  value_size, wire_size, round8_lem, value_bytes, length-value_bytes, wire_item, wire, length-wire,
  wire-IsItem, value_of_struct,
}

-- What a call writes into `space` bytes where `bytes` are to be written: these, or nothing where
-- they do not fit or their number is no int.
pub data Written (space : ℕ) (bytes : List ℕ) : Option (List ℕ) → Type 0 where
  fitted : length bytes ≤ space → Written space bytes (some bytes)
  refused : (space < length bytes) ⊎ (2 ^ 31 ≤ length bytes) → Written space bytes none

as_int-Written :
    (space : ℕ) (bytes : List ℕ) {o : Option (List ℕ)}
    → Written space bytes o
    → Written space bytes (as_int o)
as_int-Written space bytes (fitted h) = elim (Bool-cases (ltb (length bytes) (2 ^ 31))) [
  | inl e ↦ rw e (fitted h)
  | inr e ↦ rw e (refused (inr (ground arith)))
]
as_int-Written space bytes (refused h) = refused h

Written-checked :
    (space size : ℕ) (bytes : List ℕ)
    → length bytes ≡ size
    → Written space bytes (if ltb space size then none else some bytes)
Written-checked space size bytes n = elim (Bool-cases (ltb space size)) [
  | inl e ↦ rw e (refused (inl (ground (arith, n))))
  | inr e ↦ rw e (fitted (ground (arith, n)))
]

raw_field-Written :
    (len : ℕ) (bs : List ℕ) (space : ℕ)
    → len ≡ length bs
    → length bs + 8 ≤ 2 ^ 32
    → Written space
        (value_bytes (v_raw bs))
        (if ltb space (round8 len) then none else as_int (some (bs ++ replicate (pad_size len) 0)))
unfolding value_bytes
raw_field-Written len bs space e small = rw e (elim (Bool-cases (ltb space (round8 (length bs)))) [
  | inl short ↦ rw short (refused (inl (ground (arith, size, round8_lem (length bs) small))))
  | inr long ↦
      rw long
        (as_int-Written space bytes (fitted (ground (arith, size, round8_lem (length bs) small))))
])
  where
    bytes : List ℕ
    bytes = bs ++ replicate (pad_size (length bs)) 0

    size : length bytes ≡ (length bs + 7) / 8 * 8
    size = unfold value_bytes in length-value_bytes (v_raw bs)

-- ttlv_value_hton of a well-formed value.
pub value_hton-Written :
    (type len : ℕ) (v : Value) (child : Ttlv) (space : ℕ)
    → IsItem type len v child
    → Written space (value_bytes v) (ttlv_value_hton type len v space)
unfolding ttlv_value_hton get_int get_long get_raw value_bytes
value_hton-Written type len v_none child space h = rw h.0 (fitted (omega arith))
value_hton-Written type len (v_int n) child space (inl t, h, r, s) =
    rw t (Written-checked space 8 _ (length-value_bytes (v_int n)))
value_hton-Written type len (v_int n) child space (inr t, h, r, s) =
    rw t (Written-checked space 8 _ (length-value_bytes (v_int n)))
value_hton-Written type len (v_long n) child space h =
    rw h.0 (Written-checked space 8 _ (length-value_bytes (v_long n)))
value_hton-Written type len (v_raw bs) child space (inl t, h, r0, r1, r2) =
    rw (t, take_all len bs (omega (arith, h))) (raw_field-Written len bs space h r0)
value_hton-Written type len (v_raw bs) child space (inr t, h, r0, r1, r2) =
    rw (t, take_all len bs (omega (arith, h))) (raw_field-Written len bs space h r0)

-- Eight bytes in front of what is written into the space behind them.
Written-behind :
    (space : ℕ) (bytes : List ℕ) (front : List ℕ → List ℕ) {o : Option (List ℕ)}
    → ((l : List ℕ) → length (front l) ≡ 8 + length l)
    → Written (space - 8) bytes o
    → Written space (front bytes) (if ltb space 8 then none else (o >>= λ l. some (front l)))
Written-behind space bytes front n w = elim (Bool-cases (ltb space 8)) [
  | inl e ↦ rw e (refused (inl (ground (arith, n bytes))))
  | inr e ↦ rw e (placed w (ground arith))
]
  where
    placed :
        {o : Option (List ℕ)}
        → Written (space - 8) bytes o
        → 8 ≤ space
        → Written space (front bytes) (o >>= λ l. some (front l))
    placed (fitted h) r = fitted (omega (arith, n bytes))
    placed (refused (inl h)) r = refused (inl (omega (arith, n bytes)))
    placed (refused (inr h)) r = refused (inr (omega (arith, n bytes)))

-- One part behind another.
Written-append :
    (space : ℕ) (first second : List ℕ) {o p : Option (List ℕ)}
    → Written space first o
    → Written (space - length first) second p
    → (f : List ℕ → Option (List ℕ)) → f first ≡ p
    → Written space (first ++ second) (o >>= λ a. f a >>= λ b. some (a ++ b))
Written-append space first second (fitted h) (fitted k) f e =
    rw e (fitted (omega (arith, length-append first second)))
Written-append space first second (fitted h) (refused (inl k)) f e =
    rw e (refused (inl (omega (arith, length-append first second))))
Written-append space first second (fitted h) (refused (inr k)) f e =
    rw e (refused (inr (omega (arith, length-append first second))))
Written-append space first second (refused (inl h)) w f e =
    refused (inl (omega (arith, length-append first second)))
Written-append space first second (refused (inr h)) w f e =
    refused (inr (omega (arith, length-append first second)))

encode_item-Written :
    (tag type len : ℕ) (v : Value) (child : Ttlv) (space : ℕ) {o : Option (List ℕ)}
    → IsItem type len v child
    → Written (space - 8) (wire child) o
    → Written space (wire_item tag type len v (wire child)) (encode_item tag type len v o space)
unfolding encode_item wire_item
encode_item-Written tag type len v child space h w = elim (Bool-cases (type == ttype_struct)) [
  | inl e ↦
      rw (e, value_of_struct type len v child h e)
        (unfold value_bytes in
          Written-behind space (wire child)
            (λ l. net_put32 (tagtype tag type) ++ (net_put32 (length l) ++ l))
            (λ l. unfold net_put32 in omega arith) w)
  | inr e ↦
      rw (e, wire-IsItem type len v child h e)
        (unfold wire in
          rw (append-nil (value_bytes v)) (
            Written-behind space (value_bytes v)
              (λ l. net_put32 (tagtype tag type) ++ (net_put32 len ++ l))
              (λ l. unfold net_put32 in omega arith)
              (value_hton-Written type len v child (space - 8) h)))
]

encode_items-Written :
    (m : Ttlv) (space : ℕ) → IsWf m → Written space (wire m) (encode_items m space)
unfolding encode_items wire
encode_items-Written null space h = fitted (omega arith)
encode_items-Written (node tag type len v child next) space h =
    Written-append space (wire_item tag type len v (wire child)) (wire next)
      (encode_item-Written tag type len v child space h.1
        (as_int-Written (space - 8) (wire child) (encode_items-Written child (space - 8) h.2)))
      (encode_items-Written next (space - length (wire_item tag type len v (wire child))) h.3)
      (λ item. encode_items next (space - length item)) refl

-- What a well-formed message of `size` bytes leaves: nothing where it is larger than the buffer or
-- where an int cannot hold its size.
abbrev pub when_fits : ℕ → ℕ → List ℕ → Option (List ℕ)
when_fits space size bytes =
    if ltb space size then none else if ltb size (2 ^ 31) then some bytes else none

-- ttlv_encode of a well-formed message into any buffer: the bytes of the format, or a negative
-- result if the message is larger than the buffer or has 2 ^ 31 bytes or more.
pub ttlv_encode_lem :
    (m : Ttlv) (buf_len : ℕ)
    → IsWf m
    → ttlv_encode m buf_len ≡ when_fits buf_len (wire_size m) (wire m)
unfolding ttlv_encode
ttlv_encode_lem m buf_len h = checked (encode_items-Written m buf_len h)
  where
    checked :
        {o : Option (List ℕ)}
        → Written buf_len (wire m) o
        → as_int o ≡ when_fits buf_len (wire_size m) (wire m)
    checked (fitted k) = ground (arith, length-wire m)
    checked (refused (inl k)) = ground (arith, length-wire m)
    checked (refused (inr k)) = ground (arith, length-wire m)

pub wire_size-mod : (m : Ttlv) → wire_size m % 8 ≡ 0
unfolding wire_size
wire_size-mod null = refl
wire_size-mod (node tag type len v child next) =
    omega (arith, wire_size-mod child, wire_size-mod next, value_size-mod v)
  where
    value_size-mod : (v : Value) → value_size v % 8 ≡ 0
    value_size-mod v_none = refl
    value_size-mod (v_int n) = refl
    value_size-mod (v_long n) = refl
    value_size-mod (v_raw bs) = omega arith

-- The space that ttlv_calc_size_ex counts for a value and the children of its node.
unfoldable pub payload_size : ℕ → ℕ → ℕ → ℕ
payload_size type len nested = if type == ttype_struct then nested else round8 len

pub payload_size_lem :
    (type len : ℕ) (v : Value) (child : Ttlv)
    → IsItem type len v child
    → payload_size type len (wire_size child) ≡ value_size v + wire_size child
unfolding payload_size wire_size
payload_size_lem type len v_none child h = ground arith
payload_size_lem type len (v_int n) child h =
    ground (arith, wire-IsItem type len (v_int n) child h, round8_lem len)
payload_size_lem type len (v_long n) child h =
    ground (arith, wire-IsItem type len (v_long n) child h, round8_lem len)
payload_size_lem type len (v_raw bs) child h =
    ground (arith, wire-IsItem type len (v_raw bs) child h, round8_lem len)

-- Where the size of the message is below 2 ^ 32, ttlv_calc_size computes it.
pub ttlv_calc_size_ex_lem :
    (m : Ttlv) → IsWf m → wire_size m < 2 ^ 32 → ttlv_calc_size_ex m false ≡ wire_size m
unfolding ttlv_calc_size_ex wire_size payload_size
ttlv_calc_size_ex_lem null h fits = refl
ttlv_calc_size_ex_lem (node tag type len v child next) h fits =
    rw (ttlv_calc_size_ex_lem child h.2 (omega arith), ttlv_calc_size_ex_lem next h.3 (omega arith))
      (omega (arith, payload_size_lem type len v child h.1))

-- msg_send counts on this: for a well-formed message below 2 ^ 32 bytes there are as many bytes as
-- ttlv_calc_size says, and these are what ttlv_encode puts into any buffer that holds them; for a
-- smaller one, or from 2 ^ 31 bytes on, its result is negative.
pub ttlv_encode-ttlv_calc_size :
    (m : Ttlv) (buf_len : ℕ)
    → IsWf m
    → wire_size m < 2 ^ 32
    → (bytes : List ℕ) × (length bytes ≡ ttlv_calc_size m)
      × (ttlv_encode m buf_len ≡ when_fits buf_len (ttlv_calc_size m) bytes)
unfolding ttlv_calc_size
ttlv_encode-ttlv_calc_size m buf_len h small =
    let counted = ttlv_calc_size_ex_lem m h small in
    (wire m, length-wire m ∙ sym counted, rw counted (ttlv_encode_lem m buf_len h))
