-- ===== src/Proto/Message.antt =====
-- The message tree (proto.h, ttlv_t; proto.c, ttlv_new_*, ttlv_append*, ttlv_find_*).
use sexpect.Base.{
  ℕ, ◌+◌, ◌*◌, ◌/◌, ◌%◌, ◌^◌, Bool, false, List, [], ◌∷◌, ◌++◌, ◌==◌, if◌then◌else◌, length, take,
}

-- ttlv_type_t
abbrev pub ttype_int : ℕ
ttype_int = 1

abbrev pub ttype_long : ℕ
ttype_long = 2

abbrev pub ttype_bool : ℕ
ttype_bool = 3

abbrev pub ttype_text : ℕ
ttype_text = 4

abbrev pub ttype_raw : ℕ
ttype_raw = 5

abbrev pub ttype_struct : ℕ
ttype_struct = 6

abbrev pub ttype_end : ℕ
ttype_end = 7

-- ROUND8 on an uint32_t: `(n + 7) & ~7`, where the sum wraps.
unfoldable pub round8 : ℕ → ℕ
round8 n = (n + 7) % 2 ^ 32 / 8 * 8

-- The union of ttlv_t, by the member that was stored last. `v_int` is also v_uint and v_bool, and
-- `v_long` also v_ulong: a bit pattern below 2 ^ 32 or 2 ^ 64. `v_raw` is also v_text: the bytes
-- before the NUL that is stored behind them.
pub data Value : Type 0 where
  v_none : Value
  v_int : ℕ → Value
  v_long : ℕ → Value
  v_raw : List ℕ → Value

-- struct ttlv: a pointer that may be NULL, with the fields `child` and `next` last.
pub data Ttlv : Type 0 where
  null : Ttlv
  node : (tag type length : ℕ) → Value → (child next : Ttlv) → Ttlv

-- `msg->tag`
abbrev pub tag_of : Ttlv → ℕ
tag_of null = 0
tag_of (node tag type len v child next) = tag

-- Reading a member of the union. Where another member was stored the bytes of that one are read,
-- on a little-endian host; a byte that was never stored reads as 0.
abbrev le_bytes : List ℕ → ℕ
le_bytes (a ∷ b ∷ c ∷ d ∷ rest) = a + b * 2 ^ 8 + c * 2 ^ 16 + d * 2 ^ 24
le_bytes (a ∷ b ∷ c ∷ []) = a + b * 2 ^ 8 + c * 2 ^ 16
le_bytes (a ∷ b ∷ []) = a + b * 2 ^ 8
le_bytes (a ∷ []) = a
le_bytes [] = 0

unfoldable pub get_int : Value → ℕ
get_int v_none = 0
get_int (v_int n) = n
get_int (v_long n) = n % 2 ^ 32
get_int (v_raw bs) = le_bytes bs

unfoldable pub get_long : Value → ℕ
get_long (v_long n) = n
get_long v = get_int v

unfoldable pub get_raw : Value → List ℕ
get_raw v_none = []
get_raw (v_int n) = n % 2 ^ 8 ∷ n / 2 ^ 8 % 2 ^ 8 ∷ n / 2 ^ 16 % 2 ^ 8 ∷ n / 2 ^ 24 % 2 ^ 8 ∷ []
get_raw (v_long n) =
    (n % 2 ^ 8 ∷ n / 2 ^ 8 % 2 ^ 8 ∷ n / 2 ^ 16 % 2 ^ 8 ∷ n / 2 ^ 24 % 2 ^ 8 ∷ [])
    ++ (n / 2 ^ 32 % 2 ^ 8 ∷ n / 2 ^ 40 % 2 ^ 8 ∷ n / 2 ^ 48 % 2 ^ 8 ∷ n / 2 ^ 56 % 2 ^ 8 ∷ [])
get_raw (v_raw bs) = bs

-- ttlv_new: calloc clears the pointers and the union.
unfoldable pub ttlv_new : ℕ → ℕ → ℕ → Ttlv
ttlv_new tag type length = node tag type length v_none null null

-- The bytes that ttlv_new allocates for the union, the one of the NUL included.
unfoldable pub union_size : ℕ → ℕ → ℕ
union_size type length =
    if type == ttype_text then length + 1 else if type == ttype_raw then length + 1 else length

unfoldable pub ttlv_new_int : ℕ → ℕ → Ttlv
ttlv_new_int tag value = node tag ttype_int 4 (v_int value) null null

unfoldable pub ttlv_new_long : ℕ → ℕ → Ttlv
ttlv_new_long tag value = node tag ttype_long 8 (v_long value) null null

-- The C code stores `!! value`.
unfoldable pub ttlv_new_bool : ℕ → ℕ → Ttlv
ttlv_new_bool tag value = node tag ttype_bool 4 (v_int (if value == 0 then 0 else 1)) null null

unfoldable pub ttlv_new_text : ℕ → ℕ → List ℕ → Ttlv
ttlv_new_text tag len bytes = node tag ttype_text len (v_raw (take len bytes)) null null

unfoldable pub ttlv_new_raw : ℕ → ℕ → List ℕ → Ttlv
ttlv_new_raw tag len bytes = node tag ttype_raw len (v_raw (take len bytes)) null null

unfoldable pub ttlv_new_struct : ℕ → Ttlv
ttlv_new_struct tag = node tag ttype_struct 0 v_none null null

-- ttlv_append: `p` becomes the last of the list. The C code requires a head that is not NULL.
unfoldable pub ttlv_append : Ttlv → Ttlv → Ttlv
ttlv_append null p = p
ttlv_append (node tag type length v child next) p =
    node tag type length v child (ttlv_append next p)

-- ttlv_append_child: each of the arguments up to NULL is linked behind the last child.
unfoldable pub append_children : Ttlv → List Ttlv → Ttlv
append_children child [] = child
append_children child (c ∷ cs) = append_children (ttlv_append child c) cs

unfoldable pub ttlv_append_child : Ttlv → List Ttlv → Ttlv
ttlv_append_child null cs = null
ttlv_append_child (node tag type length v child next) cs =
    node tag type length v (append_children child cs) next

-- ttlv_find_sibling begins behind `first`.
unfoldable pub find_from : Ttlv → ℕ → Ttlv
find_from null tag = null
find_from (node t type length v child next) tag =
    let later = find_from next tag in if t == tag then node t type length v child next else later

unfoldable pub ttlv_find_sibling : Ttlv → ℕ → Ttlv
ttlv_find_sibling null tag = null
ttlv_find_sibling (node t type length v child next) tag = find_from next tag

abbrev has_tag : Ttlv → ℕ → Bool
has_tag null tag = false
has_tag (node t type length v child next) tag = t == tag

abbrev find_in_children : Ttlv → ℕ → Ttlv
find_in_children child tag = if has_tag child tag then child else ttlv_find_sibling child tag

unfoldable pub ttlv_find_child : Ttlv → ℕ → Ttlv
unfolding ttlv_find_sibling find_from
ttlv_find_child null tag = null
ttlv_find_child (node t type length v child next) tag = find_in_children child tag

-- The empty list.
abbrev pub IsNull : Ttlv → Type 0
IsNull null = Unit
IsNull (node tag type length v child next) = ⊥
