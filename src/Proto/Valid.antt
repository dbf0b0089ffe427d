-- ===== src/Proto/Valid.antt =====
-- Well-formed messages: the type, the length, the value and the children of each node agree (proto.h,
-- ttlv_t).
use sexpect.Base.{ℕ, ◌+◌, ◌^◌, ◌≤◌, ◌<◌, ◌≡◌, ◌⊎◌, length, All}
use sexpect.Proto.Wire.{IsByte}
use sexpect.Proto.Message.{
  Value, Ttlv, null, node, v_none, v_int, v_long, v_raw, IsNull, ttype_int, ttype_long, ttype_bool,
  ttype_text, ttype_raw, ttype_struct,
}

-- The type, the length, the value and the children of a node agree.
abbrev pub IsItem : ℕ → ℕ → Value → Ttlv → Type 0
IsItem type len v_none child = (type ≡ ttype_struct) × (len ≡ 0)
IsItem type len (v_int n) child =
    ((type ≡ ttype_int) ⊎ (type ≡ ttype_bool)) × (len ≡ 4) × (n < 2 ^ 32) × IsNull child
IsItem type len (v_long n) child = (type ≡ ttype_long) × (len ≡ 8) × (n < 2 ^ 64) × IsNull child
IsItem type len (v_raw bs) child =
    ((type ≡ ttype_text) ⊎ (type ≡ ttype_raw))
    × (len ≡ length bs)
    × (length bs + 8 ≤ 2 ^ 32)
    × All IsByte bs
    × IsNull child

abbrev pub IsWf : Ttlv → Type 0
IsWf null = Unit
IsWf (node tag type len v child next) =
    (tag < 2 ^ 24) × IsItem type len v child × IsWf child × IsWf next
