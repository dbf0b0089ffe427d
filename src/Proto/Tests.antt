-- ===== src/Proto/Tests.antt =====
-- A request in the wire format, on concrete bytes (proto.c).
use sexpect.Base.{ℕ, ◌≡◌, ◌≢◌, refl, inl, false, some, List, [], ◌∷◌, All, length, arith}
use sexpect.Proto.Wire.{IsByte, net_put32}
use sexpect.Proto.Message.{
  Ttlv, null, node, v_none, v_int, v_raw, ttype_int, ttype_text, ttype_struct, find_from, IsNull,
  round8, get_raw, get_int, union_size,
}
use sexpect.Proto.Encode.{encode_item, ttlv_value_hton, pad_size, ttlv_encode, ttlv_calc_size}
use sexpect.Proto.Decode.{ok, out_of_fuel, ttlv_decode, ttlv_valid_len}
use sexpect.Proto.Valid.{IsWf}
use sexpect.Proto.Format.{wire_size, wire}
use sexpect.Proto.Size.{when_fits, ttlv_encode_lem, ttlv_encode-ttlv_calc_size}
use sexpect.Proto.RoundTrip.{ttlv_decode-ttlv_encode}
use sexpect.Proto.Sound.{IsShaped, ttlv_decode-ne-out_of_fuel, ttlv_decode_sound}
use sexpect.Proto.Lengths.{int_with_length, ttlv_decode-skips_valid_len}

-- A structure with a number and a text.
abbrev text_child : Ttlv
text_child = node 6 ttype_text 2 (v_raw (b'h' ∷ b'i' ∷ [])) null null

abbrev int_child : Ttlv
int_child = node 5 ttype_int 4 (v_int 7) null text_child

abbrev request : Ttlv
request = node 3 ttype_struct 0 v_none int_child null

abbrev request_bytes : List ℕ
request_bytes =
    0 ∷ 0 ∷ 3 ∷ 6 ∷ 0 ∷ 0 ∷ 0 ∷ 32 ∷ 0 ∷ 0 ∷ 5 ∷ 1 ∷ 0 ∷ 0 ∷ 0 ∷ 4 ∷ 0 ∷ 0 ∷ 0 ∷ 7 ∷ 0 ∷ 0 ∷ 0 ∷ 0
    ∷ 0 ∷ 0 ∷ 6 ∷ 4 ∷ 0 ∷ 0 ∷ 0 ∷ 2 ∷ 104 ∷ 105 ∷ 0 ∷ 0 ∷ 0 ∷ 0 ∷ 0 ∷ 0 ∷ []

request-IsWf : IsWf request
request-IsWf = (
  omega arith,
  (refl, refl),
  (
    omega arith,
    (inl refl, refl, omega arith, tt),
    tt,
    (omega arith, (inl refl, refl, omega arith, (omega arith, (omega arith, tt)), tt), tt, tt),
  ),
  tt,
)

bytes-IsByte : All IsByte request_bytes
bytes-IsByte = omega arith

request_encoded : ttlv_encode request 64 ≡ some request_bytes
unfolding ttlv_encode encode_item ttlv_value_hton net_put32 round8 get_raw get_int pad_size
request_encoded = refl

ttlv_decode-ttlv_encode_example : ttlv_decode request_bytes ≡ ok request
ttlv_decode-ttlv_encode_example =
    ttlv_decode-ttlv_encode request 64 request_bytes request-IsWf (omega arith) request_encoded

ttlv_decode_sound_example : IsShaped request × (wire_size request ≡ length request_bytes)
ttlv_decode_sound_example =
    ttlv_decode_sound request_bytes request bytes-IsByte (omega arith)
      ttlv_decode-ttlv_encode_example

ttlv_decode-ne-out_of_fuel_example : ttlv_decode request_bytes ≢ out_of_fuel
ttlv_decode-ne-out_of_fuel_example =
    ttlv_decode-ne-out_of_fuel request_bytes bytes-IsByte (omega arith)

ttlv_encode-ttlv_calc_size_example :
    (bytes : List ℕ) × (length bytes ≡ ttlv_calc_size request)
    × (ttlv_encode request 64 ≡ when_fits 64 (ttlv_calc_size request) bytes)
ttlv_encode-ttlv_calc_size_example =
    ttlv_encode-ttlv_calc_size request 64 request-IsWf (unfold wire_size in omega arith)

ttlv_encode_lem_example : ttlv_encode request 39 ≡ when_fits 39 (wire_size request) (wire request)
ttlv_encode_lem_example = ttlv_encode_lem request 39 request-IsWf

ttlv_decode-skips_valid_len_example :
    (ttlv_valid_len ttype_int 1 ≡ false)
    × (ttlv_decode (int_with_length 5 1 7) ≡ ok (node 5 ttype_int 1 (v_int 7) null null))
    × (union_size ttype_int 1 ≡ 1)
ttlv_decode-skips_valid_len_example =
    ttlv_decode-skips_valid_len 5 1 7 (omega arith) (omega arith) (omega arith) (omega arith)
      (omega arith)

int_not_held : IsNull (find_from int_child 9)
unfolding find_from
int_not_held = tt
