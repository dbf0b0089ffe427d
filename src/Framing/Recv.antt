-- ===== src/Framing/Recv.antt =====
-- common.c, msg_recv, and what ttlv_decode (proto.c) leaves behind when it fails.
use sexpect.Base.{
  ℕ, zero, suc, ◌+◌, ◌%◌, ◌^◌, not, Option, none, some, List, [], ◌∷◌, ◌++◌, ◌==◌, ltb,
  if◌then◌else◌, length, take, drop,
}
use sexpect.Proto.Wire.{net_get32}
use sexpect.Proto.Message.{Value, Ttlv, null, node, v_none, round8, ttype_struct}
use sexpect.Proto.Decode.{
  Decoded, ok, failed, out_of_fuel, Header, read_header, ttlv_value_ntoh, decode, ttlv_decode,
}
use sexpect.Framing.Defs.{Answer, Reading, waits, broke, got, readn, pass_magic, pass_max_msg}

abbrev pub linked : (Ttlv → Ttlv) → Option Ttlv → Option Ttlv
linked f none = none
linked f (some t) = some (f t)

-- The rest of a failing round: a failure of ttlv_value_ntoh keeps what was linked before.
abbrev pub kept_value : Header → Decoded (Value × ℕ) → (ℕ → Option Ttlv) → Option Ttlv
kept_value h (ok (v, used)) later = linked (node h.tag h.type h.len v null) (later used)
kept_value h failed later = some null
kept_value h out_of_fuel later = none

abbrev pub kept_child : Header → Decoded Ttlv → Option Ttlv → Option Ttlv
kept_child h (ok child) later = linked (node h.tag ttype_struct 0 v_none child) later
kept_child h failed later = none
kept_child h out_of_fuel later = none

abbrev pub kept_round :
    (List ℕ → Decoded Ttlv) → (List ℕ → Option Ttlv) → Decoded Header → Option Ttlv
kept_round self later (ok h) =
    if h.type == ttype_struct
    then kept_child h (self (take h.len h.rest)) (later (drop h.len h.rest))
    else kept_value h (ttlv_value_ntoh h.type h.len h.rest) (λ used. later (drop used h.rest))
kept_round self later failed = none
kept_round self later out_of_fuel = none

-- The list that `*head` holds after ttlv_decode has returned -1; `none` where it was freed.
unfoldable pub kept : ℕ → List ℕ → Option Ttlv
unfolding read_header ttlv_value_ntoh decode
kept zero buf = none
kept (suc f) [] = none
kept (suc f) (b ∷ bs) = kept_round (decode f) (kept f) (read_header (b ∷ bs))

-- How msg_recv ends: a call of read does not return; NULL; readn is asked for more than the buffer
-- holds; or a message, with the bytes and the returns that are left.
pub data Received : Type 0 where
  pending refused overruns : Received
  message : Ttlv → List ℕ → List Answer → Received

-- `return msg`, which is NULL where nothing is kept.
abbrev pub returned : Option Ttlv → List ℕ → List Answer → Received
returned none stream answers = refused
returned (some null) stream answers = refused
returned (some (node tag type len v child next)) stream answers =
    message (node tag type len v child next) stream answers

-- The last test compares -1 as an unsigned number, so that a failure of ttlv_decode passes it.
-- `out_of_fuel` does not occur.
abbrev pub decoded : List ℕ → Decoded Ttlv → List ℕ → List Answer → Received
decoded buf (ok msg) stream answers = returned (some msg) stream answers
decoded buf failed stream answers = returned (kept (suc (length buf)) buf) stream answers
decoded buf out_of_fuel stream answers = refused

unfoldable pub decode_buffer : List ℕ → List ℕ → List Answer → Received
unfolding ttlv_decode kept
decode_buffer buf stream answers = decoded buf (ttlv_decode buf) stream answers

-- What is decoded: the bytes received, and behind them what the static buffer held before.
abbrev pub stored : List ℕ → List ℕ → ℕ → List ℕ
stored old new size = take size (new ++ drop (length new) old)

-- The value behind the header. `ret < taglen` is a comparison of unsigned numbers, so that a
-- failure of readn passes it.
abbrev pub body_read : List ℕ → List ℕ → ℕ → Reading → Received
body_read old header taglen waits = pending
body_read old header taglen (broke bs) =
    decode_buffer (stored old (header ++ bs) (8 + taglen)) [] []
body_read old header taglen (got bs stream answers) =
    if ltb (length bs) taglen
    then refused
    else decode_buffer (stored old (header ++ bs) (8 + taglen)) stream answers

-- The test of the size is made on 32 bits.
unfoldable pub read_body : List ℕ → List ℕ → ℕ → List ℕ → List Answer → Received
unfolding readn decode_buffer
read_body old header taglen stream answers =
    if ltb pass_max_msg ((taglen + 8) % 2 ^ 32)
    then refused
    else if ltb pass_max_msg (taglen + 8)
    then overruns
    else body_read old header taglen (readn answers taglen stream)

abbrev pub header_read : List ℕ → Reading → Received
header_read old waits = pending
header_read old (broke bs) = refused
header_read old (got bs stream answers) =
    if ltb (length bs) 8
    then refused
    else read_body old bs (round8 (net_get32 (drop 4 bs))) stream answers

abbrev pub magic_read : List ℕ → Reading → Received
magic_read old waits = pending
magic_read old (broke bs) = refused
magic_read old (got bs stream answers) =
    if ltb (length bs) 4
    then refused
    else if not (net_get32 bs == pass_magic)
    then refused
    else header_read old (readn answers 8 stream)

-- msg_recv: the returns of read, what the static buffer holds, and the bytes of the stream.
unfoldable pub msg_recv : List Answer → List ℕ → List ℕ → Received
unfolding readn read_body round8 net_get32
msg_recv answers old stream = magic_read old (readn answers 4 stream)
