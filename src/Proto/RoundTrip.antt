-- ===== src/Proto/RoundTrip.antt =====
-- Proofs on encoding and decoding together (proto.c, ttlv_encode and ttlv_decode).
use sexpect.Base.{
  ℕ, zero, suc, ◌^◌, ◌≤◌, ◌<◌, ◌≡◌, refl, true, false, List, ◌++◌, ◌==◌, ltb, if◌then◌else◌, length,
  take, drop, arith, some, length-append, take-append, drop-append, append_assoc, append-nil, sym,
  ◌∙◌,
}
use sexpect.Proto.Wire.{net_put32, net_get32, net_get64, net_get32-net_put32, net_get64-net_put64}
use sexpect.Proto.Message.{
  Value, Ttlv, null, node, v_none, v_int, v_long, v_raw, ttype_struct, ttype_end,
}
use sexpect.Proto.Valid.{IsItem, IsWf}
use sexpect.Proto.Encode.{tagtype, ttlv_encode}
use sexpect.Proto.Format.{
  value_size, wire_size, value_bytes, wire_item, wire, length-wire, length-value_bytes, round8_lem,
  wire-IsItem,
}
use sexpect.Proto.Size.{ttlv_encode_lem, when_fits, wire_size-mod}
use sexpect.Proto.Decode.{
  Decoded, ok, ttlv_valid_len, ttlv_value_ntoh, Header, read_header, check_header, decode,
  decode_node, decode_round, ttlv_decode,
}

-- A header that passes the checks.
check_header_lem :
    (tag type len : ℕ) (rest : List ℕ)
    → 0 < type
    → type < ttype_end
    → ttlv_valid_len (tagtype tag type) len ≡ true
    → len ≤ length rest
    → check_header (tagtype tag type) len rest
      ≡ ok (record { tag = tag; type = type; len = len; rest = rest })
unfolding check_header
check_header_lem tag type len rest h0 h7 valid fits = ground arith

pub read_header_lem :
    (tag type len : ℕ) (rest : List ℕ)
    → tag < 2 ^ 24
    → 0 < type
    → type < ttype_end
    → len < 2 ^ 32
    → ttlv_valid_len (tagtype tag type) len ≡ true
    → len ≤ length rest
    → read_header (net_put32 (tagtype tag type) ++ (net_put32 len ++ rest))
      ≡ ok (record { tag = tag; type = type; len = len; rest = rest })
read_header_lem tag type len rest ht h0 h7 hl valid fits =
    let word = net_put32 (tagtype tag type) in
    let behind = net_put32 len ++ rest in
    let tail : drop 8 (word ++ behind) ≡ rest = unfold net_put32 in refl in
    let second : drop 4 (word ++ behind) ≡ behind = unfold net_put32 in refl in
    let size : ltb (length (word ++ behind)) 8 ≡ false = unfold net_put32 in ground arith in
    unfold read_header in
    rw (size, tail, second, net_get32-net_put32 len rest hl)
      (rw (net_get32-net_put32 (tagtype tag type) behind (omega arith))
        (check_header_lem tag type len rest h0 h7 valid fits))

-- The checks of ttlv_valid_len hold of a well-formed node, also at `tagtype`.
valid_len_lem :
    (tag type len : ℕ) (v : Value) (child : Ttlv)
    → IsItem type len v child
    → ttlv_valid_len (tagtype tag type) (if type == ttype_struct then wire_size child else len)
      ≡ true
unfolding ttlv_valid_len
valid_len_lem tag type len v_none child h = ground (arith, wire_size-mod child)
valid_len_lem tag type len (v_int n) child h = ground arith
valid_len_lem tag type len (v_long n) child h = ground arith
valid_len_lem tag type len (v_raw bs) child h = ground arith

-- ttlv_value_ntoh reads back what ttlv_value_hton wrote.
value_ntoh_lem :
    (type len : ℕ) (v : Value) (child : Ttlv) (rest : List ℕ)
    → IsItem type len v child
    → (type == ttype_struct) ≡ false
    → ttlv_value_ntoh type len (value_bytes v ++ rest) ≡ ok (v, value_size v)
unfolding ttlv_value_ntoh
value_ntoh_lem type len v_none child rest h e = ground arith
value_ntoh_lem type len (v_int n) child rest h e =
    let number : net_get32 (value_bytes (v_int n) ++ rest) ≡ n =
      unfold value_bytes in rw append_assoc (net_get32-net_put32 n _ h.2) in
    ground (arith, number, length-append (value_bytes (v_int n)) rest, length-value_bytes (v_int n))
value_ntoh_lem type len (v_long n) child rest h e =
    let number : net_get64 (value_bytes (v_long n) ++ rest) ≡ n =
      unfold value_bytes in net_get64-net_put64 n rest h.2 in
    ground
      (arith, number, length-append (value_bytes (v_long n)) rest, length-value_bytes (v_long n))
value_ntoh_lem type len (v_raw bs) child rest h e =
    let bytes : take len (value_bytes (v_raw bs) ++ rest) ≡ bs =
      unfold value_bytes in rw append_assoc (take-append len bs _ h.1) in
    ground (
      arith,
      bytes,
      round8_lem len,
      length-append (value_bytes (v_raw bs)) rest,
      length-value_bytes (v_raw bs),
    )

-- The header of a well-formed node, with the length that ttlv_encode writes.
abbrev header_of : ℕ → ℕ → ℕ → Value → Ttlv → List ℕ → Header
header_of tag type len v child rest = record {
  tag = tag;
  type = type;
  len = if type == ttype_struct then wire_size child else len;
  rest = (value_bytes v ++ wire child) ++ rest;
}

decode_node_plain :
    (self : List ℕ → Decoded Ttlv) (tag type len : ℕ) (v : Value) (child : Ttlv) (rest : List ℕ)
    (next : Ttlv)
    → IsItem type len v child
    → (type == ttype_struct) ≡ false
    → self rest ≡ ok next
    → decode_node self (header_of tag type len v child rest) ≡ ok (node tag type len v child next)
decode_node_plain self tag type len v child rest next h e dn =
    unfold decode_node wire in
    rw (
      e,
      wire-IsItem type len v child h e,
      append-nil,
      value_ntoh_lem type len v child rest h e,
      drop-append (value_size v) (value_bytes v) rest (sym (length-value_bytes v)),
      dn,
    )

-- The rest of a round behind the header of a well-formed node.
decode_node_lem :
    (self : List ℕ → Decoded Ttlv) (tag type len : ℕ) (v : Value) (child : Ttlv) (rest : List ℕ)
    (next : Ttlv)
    → IsItem type len v child
    → self (wire child) ≡ ok child
    → self rest ≡ ok next
    → decode_node self (header_of tag type len v child rest) ≡ ok (node tag type len v child next)
decode_node_lem self tag type len v_none child rest next h dc dn =
    unfold decode_node value_bytes in
    rw (
      h.0,
      h.1,
      take-append (wire_size child) (wire child) rest (sym (length-wire child)),
      drop-append (wire_size child) (wire child) rest (sym (length-wire child)),
      dc,
      dn,
    )
decode_node_lem self tag type len (v_int n) child rest next h dc dn =
    decode_node_plain self tag type len (v_int n) child rest next h (ground arith) dn
decode_node_lem self tag type len (v_long n) child rest next h dc dn =
    decode_node_plain self tag type len (v_long n) child rest next h (ground arith) dn
decode_node_lem self tag type len (v_raw bs) child rest next h dc dn =
    decode_node_plain self tag type len (v_raw bs) child rest next h (ground arith) dn

-- A node of each kind has a type in range, and a length that its header can hold.
pub item_header :
    (type len : ℕ) (v : Value) (child : Ttlv)
    → IsItem type len v child
    → wire_size child < 2 ^ 32
    → (0 < type)
      × (type < ttype_end)
      × ((if type == ttype_struct then wire_size child else len) < 2 ^ 32)
      × ((if type == ttype_struct then wire_size child else len)
          ≤ length (value_bytes v ++ wire child))
item_header type len v_none child h fits =
    ground (arith, length-append (value_bytes v_none) (wire child), length-wire child)
item_header type len (v_int n) child h fits =
    ground (arith, length-append (value_bytes (v_int n)) (wire child), length-value_bytes (v_int n))
item_header type len (v_long n) child h fits =
    ground
      (arith, length-append (value_bytes (v_long n)) (wire child), length-value_bytes (v_long n))
item_header type len (v_raw bs) child h fits =
    ground
      (arith, length-append (value_bytes (v_raw bs)) (wire child), length-value_bytes (v_raw bs))

-- Reading an item and what follows it, given how the children and the following nodes are read.
decode-wire_item :
    (f tag type len : ℕ) (v : Value) (child : Ttlv) (rest : List ℕ) (next : Ttlv)
    → tag < 2 ^ 24
    → IsItem type len v child
    → wire_size child < 2 ^ 32
    → decode f (wire child) ≡ ok child
    → decode f rest ≡ ok next
    → decode (suc f) (wire_item tag type len v (wire child) ++ rest)
      ≡ ok (node tag type len v child next)
decode-wire_item f tag type len v child rest next ht h fits dc dn =
    let (h0, h7, hl, hf) = item_header type len v child h fits in
    let size = if type == ttype_struct then wire_size child else len in
    let payload = (value_bytes v ++ wire child) ++ rest in
    let bytes : wire_item tag type len v (wire child) ++ rest
        ≡ net_put32 (tagtype tag type) ++ (net_put32 size ++ payload) =
      unfold wire_item in rw (append_assoc, append_assoc, length-wire) in
    let room : size ≤ length payload =
      omega (arith, hf, length-append (value_bytes v ++ wire child) rest) in
    let header =
      read_header_lem tag type size payload ht h0 h7 hl (valid_len_lem tag type len v child h)
        room in
    rw
      (
        bytes,
        decode_round f (net_put32 (tagtype tag type) ++ (net_put32 size ++ payload))
            (unfold net_put32 in omega arith),
        header,
      )
      (decode_node_lem (decode f) tag type len v child rest next h dc dn)

decode-wire :
    (m : Ttlv) (f : ℕ) → IsWf m → wire_size m < 2 ^ 32 → wire_size m < f → decode f (wire m) ≡ ok m
unfolding wire_size wire
decode-wire m zero h fits fuel = absurd (omega arith)
decode-wire null (suc f) h fits fuel = unfold decode in refl
decode-wire (node tag type len v child next) (suc f) h fits fuel =
    decode-wire_item f tag type len v child (wire next) next h.0 h.1 (omega arith)
      (decode-wire child f h.2 (omega arith) (omega arith))
      (decode-wire next f h.3 (omega arith) (omega arith))

-- A well-formed message that ttlv_encode puts into a buffer of less than 2 ^ 32 bytes is read back
-- by ttlv_decode, from exactly the bytes written.
pub ttlv_decode-ttlv_encode :
    (m : Ttlv) (buf_len : ℕ) (bytes : List ℕ)
    → IsWf m
    → buf_len < 2 ^ 32
    → ttlv_encode m buf_len ≡ some bytes
    → ttlv_decode bytes ≡ ok m
ttlv_decode-ttlv_encode m buf_len bytes h small e =
    let written : when_fits buf_len (wire_size m) (wire m) ≡ some bytes =
      sym (ttlv_encode_lem m buf_len h) ∙ e in
    let same : wire m ≡ bytes = ground arith in
    let size : wire_size m ≤ buf_len = ground arith in
    let int : ltb (length (wire m)) (2 ^ 31) ≡ true = ground (arith, length-wire m) in
    rw (← same) (
      unfold ttlv_decode in
      rw
        (decode-wire m (suc (length (wire m))) h (omega arith) (omega (arith, length-wire m)), int))
