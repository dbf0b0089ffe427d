-- ===== src/Proto/Format.antt =====
-- The bytes of the format and their number (proto.c, ttlv_encode; proto.h, ttlv_t).
use sexpect.Base.{
  ℕ, ◌+◌, ◌*◌, ◌/◌, ◌^◌, ◌≤◌, ◌≡◌, refl, true, false, List, [], ◌∷◌, ◌++◌, ◌==◌, if◌then◌else◌,
  length, replicate, arith, length-append, length-replicate,
}
use sexpect.Proto.Wire.{net_put32, net_put64, length-net_put64}
use sexpect.Proto.Message.{
  Value, Ttlv, null, node, round8, ttype_struct, v_none, v_int, v_long, v_raw,
}
use sexpect.Proto.Valid.{IsItem}
use sexpect.Proto.Encode.{pad_size, tagtype}

-- The size of a value on the wire: whole groups of eight bytes.
abbrev pub value_size : Value → ℕ
value_size v_none = 0
value_size (v_int n) = 8
value_size (v_long n) = 8
value_size (v_raw bs) = (length bs + 7) / 8 * 8

-- The size of a message on the wire.
unfoldable pub wire_size : Ttlv → ℕ
wire_size null = 0
wire_size (node tag type len v child next) = 8 + value_size v + wire_size child + wire_size next

-- Without a wrap ROUND8 is the next multiple of eight.
pub round8_lem : (n : ℕ) → n + 8 ≤ 2 ^ 32 → round8 n ≡ (n + 7) / 8 * 8
unfolding round8
round8_lem n h = omega arith

pub add-pad_size : (n : ℕ) → n + pad_size n ≡ (n + 7) / 8 * 8
unfolding pad_size
add-pad_size n = ground arith

-- The bytes of a value that fits.
unfoldable pub value_bytes : Value → List ℕ
value_bytes v_none = []
value_bytes (v_int n) = net_put32 n ++ (0 ∷ 0 ∷ 0 ∷ 0 ∷ [])
value_bytes (v_long n) = net_put64 n
value_bytes (v_raw bs) = bs ++ replicate (pad_size (length bs)) 0

pub length-value_bytes : (v : Value) → length (value_bytes v) ≡ value_size v
unfolding value_bytes
length-value_bytes v_none = refl
length-value_bytes (v_int n) = unfold net_put32 in refl
length-value_bytes (v_long n) = length-net_put64 n
length-value_bytes (v_raw bs) = omega (
  arith,
  length-append bs (replicate (pad_size (length bs)) 0),
  length-replicate {A = ℕ} (pad_size (length bs)) 0,
  add-pad_size (length bs),
)

-- The bytes of a message, with no buffer in the way.
unfoldable pub wire_item : ℕ → ℕ → ℕ → Value → List ℕ → List ℕ
wire_item tag type len v children =
    net_put32 (tagtype tag type)
    ++ (net_put32 (if type == ttype_struct then length children else len)
        ++ (value_bytes v ++ children))

unfoldable pub wire : Ttlv → List ℕ
wire null = []
wire (node tag type len v child next) = wire_item tag type len v (wire child) ++ wire next

pub length-wire_item :
    (tag type len : ℕ) (v : Value) (children : List ℕ)
    → length (wire_item tag type len v children) ≡ 8 + value_size v + length children
unfolding wire_item net_put32
length-wire_item tag type len v children =
    omega (arith, length-append (value_bytes v) children, length-value_bytes v)

pub length-wire : (m : Ttlv) → length (wire m) ≡ wire_size m
unfolding wire wire_size
length-wire null = refl
length-wire (node tag type len v child next) = omega (
  arith,
  length-append (wire_item tag type len v (wire child)) (wire next),
  length-wire_item tag type len v (wire child),
  length-wire child,
  length-wire next,
)

-- Only a structure has children.
pub wire-IsItem :
    (type len : ℕ) (v : Value) (child : Ttlv)
    → IsItem type len v child
    → (type == ttype_struct) ≡ false
    → child ≡ null
wire-IsItem type len v_none child h e = ground arith
wire-IsItem type len (v_int n) null h e = refl
wire-IsItem type len (v_int n) (node t ty l w c x) h e = absurd (h.3)
wire-IsItem type len (v_long n) null h e = refl
wire-IsItem type len (v_long n) (node t ty l w c x) h e = absurd (h.3)
wire-IsItem type len (v_raw bs) null h e = refl
wire-IsItem type len (v_raw bs) (node t ty l w c x) h e = absurd (h.4)

pub value_of_struct :
    (type len : ℕ) (v : Value) (child : Ttlv)
    → IsItem type len v child
    → (type == ttype_struct) ≡ true
    → v ≡ v_none
value_of_struct type len v_none child h e = refl
value_of_struct type len (v_int n) child h e = ground arith
value_of_struct type len (v_long n) child h e = ground arith
value_of_struct type len (v_raw bs) child h e = ground arith
