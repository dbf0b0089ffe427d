-- ===== src/Proto/Sound.antt =====
-- Proofs on decoding any buffer (proto.c, ttlv_decode).
use sexpect.Base.{
  ℕ, zero, suc, ◌+◌, ◌/◌, ◌%◌, ◌^◌, ◌≤◌, ◌<◌, ◌≡◌, refl, Bool, true, false, not, List, [], ◌∷◌, ◌≢◌,
  ◌⊎◌, ◌==◌, ltb, leb, if◌then◌else◌, length, take, drop, arith, ◌||◌, length-take, length-drop,
  ltb→le, subst, inl, inr, All, All-take, All-drop,
}
use sexpect.Proto.Wire.{IsByte, net_get32, net_get64, net_get32-lt, net_get64-lt}
use sexpect.Proto.Message.{
  Value, Ttlv, null, node, v_none, v_int, v_long, v_raw, round8, ttype_int, ttype_long, IsNull,
  ttype_bool, ttype_text, ttype_raw, ttype_struct, ttype_end,
}
use sexpect.Proto.Format.{value_size, wire_size, round8_lem}
use sexpect.Proto.Decode.{
  Decoded, ok, failed, out_of_fuel, ◌>>=◌, ttlv_valid_len, ttlv_value_ntoh, Header, read_header,
  check_header, decode, decode_node, ttlv_decode,
}

-- The type, the value and the children of a node agree, and its length too if it holds bytes.
abbrev pub IsShape : ℕ → ℕ → Value → Ttlv → Type 0
IsShape type len v_none child = (type ≡ ttype_struct) × (len ≡ 0)
IsShape type len (v_int n) child =
    ((type ≡ ttype_int) ⊎ (type ≡ ttype_bool)) × (n < 2 ^ 32) × IsNull child
IsShape type len (v_long n) child = (type ≡ ttype_long) × (n < 2 ^ 64) × IsNull child
IsShape type len (v_raw bs) child =
    ((type ≡ ttype_text) ⊎ (type ≡ ttype_raw)) × (len ≡ length bs) × All IsByte bs × IsNull child

abbrev pub IsShaped : Ttlv → Type 0
IsShaped null = Unit
IsShaped (node tag type len v child next) =
    (tag < 2 ^ 24) × IsShape type len v child × IsShaped child × IsShaped next

-- A run that did not lack fuel, and whose value meets `P` if it has one.
pub data Ends {A : Type 0} (P : A → Type 0) : Decoded A → Type 0 where
  returns : {a : A} → P a → Ends P (ok a)
  fails : Ends P failed

module _ {A : Type 0} {P : A → Type 0} where
  Ends-bind :
      {B : Type 0} {Q : B → Type 0} {r : Decoded A} {f : A → Decoded B}
      → Ends P r
      → ((a : A) → P a → Ends Q (f a))
      → Ends Q (r >>= f)
  Ends-bind (returns {a} h) k = k a h
  Ends-bind fails k = fails

  Ends-if :
      (b : Bool) {r s : Decoded A}
      → (b ≡ true → Ends P r)
      → (b ≡ false → Ends P s)
      → Ends P (if b then r else s)
  Ends-if true h k = h refl
  Ends-if false h k = k refl

  -- A check that fails, and what is left behind it.
  Ends-check :
      (b : Bool) {r : Decoded A} → (b ≡ false → Ends P r) → Ends P (if b then failed else r)
  Ends-check b k = Ends-if b (λ _. fails) k

  pub Ends-ok : {r : Decoded A} {a : A} → Ends P r → r ≡ ok a → P a
  Ends-ok (returns h) e = subst P (cc) h
  Ends-ok fails e = cc

  pub Ends-out_of_fuel : {r : Decoded A} → Ends P r → r ≢ out_of_fuel
  Ends-out_of_fuel (returns h) = cc
  Ends-out_of_fuel fails = cc

record HeaderOf (buf : List ℕ) (h : Header) : Type 0 where
  whole : 8 ≤ length buf
  behind : h.rest ≡ drop 8 buf
  inside : h.len ≤ length h.rest
  tag_small : h.tag < 2 ^ 24
  known : h.type < ttype_end

check_header-Ends :
    (tagtype len : ℕ) (buf : List ℕ)
    → 8 ≤ length buf
    → tagtype < 2 ^ 32
    → Ends (HeaderOf buf) (check_header tagtype len (drop 8 buf))
unfolding check_header
check_header-Ends tagtype len buf whole small =
    Ends-check ((tagtype % 2 ^ 8 == 0) || leb ttype_end (tagtype % 2 ^ 8)) λ e₁.
      Ends-check (not (ttlv_valid_len tagtype len)) λ e₂.
        Ends-check (ltb (length (drop 8 buf)) len) λ e₃.
          returns
            {a = record {
              tag = tagtype / 2 ^ 8;
              type = tagtype % 2 ^ 8;
              len = len;
              rest = drop 8 buf;
            }}
            (record {
              whole = whole;
              behind = refl;
              inside = ltb→le (length (drop 8 buf)) len e₃;
              tag_small = omega arith;
              known = ground arith;
            })

read_header-Ends : (buf : List ℕ) → All IsByte buf → Ends (HeaderOf buf) (read_header buf)
unfolding read_header
read_header-Ends buf bytes = Ends-check (ltb (length buf) 8) λ e.
    check_header-Ends (net_get32 buf) (net_get32 (drop 4 buf)) buf (ground arith)
      (net_get32-lt buf bytes)

-- A value that is read from the bytes `buf` behind the header, and the bytes that it uses.
record FieldOf (type len : ℕ) (buf : List ℕ) (field : Value × ℕ) : Type 0 where
  shape : IsShape type len field.0 null
  used : field.1 ≡ value_size field.0
  room : field.1 ≤ length buf

value_ntoh-Ends :
    (type len : ℕ) (buf : List ℕ)
    → All IsByte buf
    → (type == ttype_struct) ≡ false
    → len ≤ length buf
    → length buf + 8 ≤ 2 ^ 32
    → Ends (FieldOf type len buf) (ttlv_value_ntoh type len buf)
unfolding ttlv_value_ntoh
value_ntoh-Ends type len buf bytes plain inside small = rw plain (
    Ends-if (type == ttype_int) (λ e. int_ok (inl (ground arith)))
      λ _.
        Ends-if (type == ttype_bool) (λ e. int_ok (inr (ground arith)))
          λ _. Ends-if (type == ttype_long) long_ok λ _.
            Ends-if (type == ttype_text) (λ e. raw_ok (inl (ground arith)))
              λ _. Ends-if (type == ttype_raw) (λ e. raw_ok (inr (ground arith))) λ _. fails)
  where
    int_ok :
        (type ≡ ttype_int) ⊎ (type ≡ ttype_bool)
        → Ends
            (FieldOf type len buf)
            (if ltb (length buf) 8 then failed else ok (v_int (net_get32 buf), 8))
    int_ok e = Ends-check (ltb (length buf) 8) λ short.
        returns {a = (v_int (net_get32 buf), 8)} (record {
          shape = (e, net_get32-lt buf bytes, tt);
          used = refl;
          room = ltb→le (length buf) 8 short;
        })

    long_ok :
        (type == ttype_long) ≡ true
        → Ends
            (FieldOf type len buf)
            (if ltb (length buf) 8 then failed else ok (v_long (net_get64 buf), 8))
    long_ok e = Ends-check (ltb (length buf) 8) λ short.
        returns {a = (v_long (net_get64 buf), 8)} (record {
          shape = (ground arith, net_get64-lt buf bytes, tt);
          used = refl;
          room = ltb→le (length buf) 8 short;
        })

    raw_ok :
        (type ≡ ttype_text) ⊎ (type ≡ ttype_raw)
        → Ends (FieldOf type len buf) (
            if ltb (length buf) (round8 len) then failed else ok (v_raw (take len buf), round8 len))
    raw_ok e = Ends-check (ltb (length buf) (round8 len)) λ short.
        returns {a = (v_raw (take len buf), round8 len)} (record {
          shape = (e, omega (arith, length-take len buf), All-take IsByte len buf bytes, tt);
          used = omega (arith, length-take len buf, round8_lem len);
          room = ltb→le (length buf) (round8 len) short;
        })

-- A message that was built from the whole of `buf`.
record Built (buf : List ℕ) (m : Ttlv) : Type 0 where
  shaped : IsShaped m
  exact : wire_size m ≡ length buf

abbrev Decodes : (List ℕ → Decoded Ttlv) → ℕ → Type 0
Decodes self size =
    (buf : List ℕ) → All IsByte buf → length buf < size → Ends (Built buf) (self buf)

decode_node-Ends :
    (self : List ℕ → Decoded Ttlv) (buf : List ℕ) (h : Header)
    → All IsByte buf
    → length buf + 8 ≤ 2 ^ 32
    → HeaderOf buf h
    → Decodes self (length buf)
    → Ends (Built buf) (decode_node self h)
unfolding decode_node
decode_node-Ends self buf h bytes small ho dec = Ends-if (h.type == ttype_struct) structure plain
  where
    rest_bytes : All IsByte h.rest
    rest_bytes = rw ho.behind (All-drop IsByte 8 buf bytes)

    rest_size : length h.rest + 8 ≡ length buf
    rest_size = rw ho.behind (omega (arith, length-drop 8 buf, ho.whole))

    structure :
        (h.type == ttype_struct) ≡ true
        → Ends (Built buf) (
            self (take h.len h.rest) >>= λ child.
            self (drop h.len h.rest) >>= λ next. ok (node h.tag ttype_struct 0 v_none child next))
    structure e =
        Ends-bind
          (dec (take h.len h.rest) (All-take IsByte h.len h.rest rest_bytes)
            (omega (arith, length-take h.len h.rest, rest_size)))
          λ child cb.
            Ends-bind
              (dec (drop h.len h.rest) (All-drop IsByte h.len h.rest rest_bytes)
                (omega (arith, length-drop h.len h.rest, rest_size)))
              λ next nb. returns (record {
                shaped = (ho.tag_small, (refl, refl), cb.shaped, nb.shaped);
                exact =
                    unfold wire_size in
                    omega (
                      arith,
                      cb.exact,
                      nb.exact,
                      ho.inside,
                      length-take h.len h.rest,
                      length-drop h.len h.rest,
                      rest_size,
                    );
              })

    plain :
        (h.type == ttype_struct) ≡ false
        → Ends (Built buf) (
            ttlv_value_ntoh h.type h.len h.rest >>= λ field.
            self (drop field.1 h.rest) >>= λ next. ok (node h.tag h.type h.len field.0 null next))
    plain e =
        Ends-bind
          (value_ntoh-Ends h.type h.len h.rest rest_bytes e ho.inside (omega (arith, rest_size)))
          λ field fo.
            Ends-bind
              (dec (drop field.1 h.rest) (All-drop IsByte field.1 h.rest rest_bytes)
                (omega (arith, length-drop field.1 h.rest, rest_size)))
              λ next nb. returns (record {
                shaped = (ho.tag_small, fo.shape, tt, nb.shaped);
                exact =
                    unfold wire_size in
                    omega
                      (arith, fo.used, fo.room, nb.exact, length-drop field.1 h.rest, rest_size);
              })

decode-Ends :
    (f : ℕ) (buf : List ℕ)
    → All IsByte buf
    → length buf + 8 ≤ 2 ^ 32
    → length buf < f
    → Ends (Built buf) (decode f buf)
unfolding decode
decode-Ends zero buf bytes small fuel = absurd (omega arith)
decode-Ends (suc f) [] bytes small fuel =
    returns {a = null} (record { shaped = tt; exact = unfold wire_size in refl })
decode-Ends (suc f) (b ∷ bs) bytes small fuel = Ends-bind (read_header-Ends (b ∷ bs) bytes) λ h ho.
    decode_node-Ends (decode f) (b ∷ bs) h bytes small ho
      λ shorter sb lt. decode-Ends f shorter sb (omega arith) (omega arith)

ttlv_decode-Ends :
    (buf : List ℕ) → All IsByte buf → length buf + 8 ≤ 2 ^ 32 → Ends (Built buf) (ttlv_decode buf)
unfolding ttlv_decode
ttlv_decode-Ends buf bytes small =
    Ends-bind (decode-Ends (suc (length buf)) buf bytes small (omega arith))
      λ m b. Ends-if (ltb (length buf) (2 ^ 31)) (λ _. returns b) (λ _. fails)

-- ttlv_decode ends on every buffer of bytes, short of 2 ^ 32 - 8 bytes: the loop and the recursion
-- never need more rounds than there are bytes.
pub ttlv_decode-ne-out_of_fuel :
    (buf : List ℕ) → All IsByte buf → length buf + 8 ≤ 2 ^ 32 → ttlv_decode buf ≢ out_of_fuel
ttlv_decode-ne-out_of_fuel buf bytes small = Ends-out_of_fuel (ttlv_decode-Ends buf bytes small)

-- A message that ttlv_decode accepts accounts for every byte of the buffer, and each of its nodes
-- has a tag of 24 bits, one of the known types, and the value and children of that type.
pub ttlv_decode_sound :
    (buf : List ℕ) (m : Ttlv)
    → All IsByte buf
    → length buf + 8 ≤ 2 ^ 32
    → ttlv_decode buf ≡ ok m
    → IsShaped m × (wire_size m ≡ length buf)
ttlv_decode_sound buf m bytes small e =
    let built = Ends-ok (ttlv_decode-Ends buf bytes small) e in (built.shaped, built.exact)
