-- ===== src/Proto/Lengths.antt =====
-- The check of the length of numbers in ttlv_decode (proto.c).
use sexpect.Base.{ℕ, suc, ◌≤◌, ◌<◌, ◌^◌, ◌≡◌, ◌≢◌, refl, false, List, [], ◌∷◌, ◌++◌, length, arith}
use sexpect.Proto.Wire.{net_put32, net_get32-net_put32}
use sexpect.Proto.Message.{null, node, v_int, ttype_int, union_size}
use sexpect.Proto.Encode.{tagtype}
use sexpect.Proto.RoundTrip.{read_header_lem}
use sexpect.Proto.Decode.{
  ok, ttlv_valid_len, ttlv_value_ntoh, decode_node, decode_round, decode, ttlv_decode,
}

-- An int node as it is sent, with any number in its length field.
abbrev pub int_with_length : ℕ → ℕ → ℕ → List ℕ
int_with_length tag len n =
    net_put32 (tagtype tag ttype_int) ++ (net_put32 len ++ (net_put32 n ++ (0 ∷ 0 ∷ 0 ∷ 0 ∷ [])))

decode_node_int :
    (f tag len n : ℕ)
    → n < 2 ^ 32
    → decode_node (decode (suc f)) (record {
      tag = tag;
      type = ttype_int;
      len = len;
      rest = net_put32 n ++ (0 ∷ 0 ∷ 0 ∷ 0 ∷ []);
    })
      ≡ ok (node tag ttype_int len (v_int n) null null)
unfolding decode_node ttlv_value_ntoh
decode_node_int f tag len n small =
    rw (net_get32-net_put32 n (0 ∷ 0 ∷ 0 ∷ 0 ∷ []) small) (unfold decode net_put32 in refl)

-- For a tag other than 0 no length is refused: an int with a length of 8 or less other than 4 fails
-- ttlv_valid_len for its type, ttlv_decode accepts it, and the union that ttlv_new allocates for the
-- four bytes of the number has as many bytes as the length field says.
pub ttlv_decode-skips_valid_len :
    (tag len n : ℕ)
    → 0 < tag
    → tag < 2 ^ 24
    → len ≤ 8
    → len ≢ 4
    → n < 2 ^ 32
    → (ttlv_valid_len ttype_int len ≡ false)
      × (ttlv_decode (int_with_length tag len n) ≡ ok (node tag ttype_int len (v_int n) null null))
      × (union_size ttype_int len ≡ len)
unfolding ttlv_valid_len union_size
ttlv_decode-skips_valid_len tag len n h0 ht hl h4 hn = (ground arith, accepted, refl)
  where
    payload : List ℕ
    payload = net_put32 n ++ (0 ∷ 0 ∷ 0 ∷ 0 ∷ [])

    size : length (int_with_length tag len n) ≡ 16
    size = unfold net_put32 in refl

    accepted :
        ttlv_decode (int_with_length tag len n) ≡ ok (node tag ttype_int len (v_int n) null null)
    accepted =
        unfold ttlv_decode in
        rw
          (
            decode_round (length (int_with_length tag len n)) (int_with_length tag len n)
                (omega (arith, size)),
            read_header_lem tag ttype_int len payload ht (omega arith) (omega arith) (omega arith)
                (ground arith) (unfold net_put32 in omega arith),
            size,
          )
          (rw (decode_node_int 15 tag len n hn) refl)
