-- ===== src/Framing/Deliver.antt =====
-- Proofs on receiving a message (common.c, msg_recv and msg_send).
use sexpect.Base.{
  ℕ, ◌+◌, ◌%◌, ◌^◌, ◌≤◌, ◌<◌, ◌≡◌, ◌∙◌, sym, subst, refl, ap, List, [], ◌++◌, ◌==◌, if◌then◌else◌,
  length, drop, All, arith, append_assoc, append-nil, length-append, take-append, drop-append,
  le→ltb, Bool-cases, inl, inr,
}
use sexpect.Proto.Wire.{net_put32, net_get32, net_get32-net_put32}
use sexpect.Proto.Message.{
  Value, Ttlv, null, node, v_none, v_int, v_long, v_raw, round8, ttype_struct,
}
use sexpect.Proto.Decode.{ok, ttlv_decode}
use sexpect.Proto.Encode.{tagtype}
use sexpect.Proto.Valid.{IsWf}
use sexpect.Proto.Format.{
  wire, wire_size, wire_item, value_size, value_bytes, length-value_bytes, length-wire, round8_lem,
}
use sexpect.Proto.Size.{payload_size, payload_size_lem, ttlv_encode_lem}
use sexpect.Proto.RoundTrip.{ttlv_decode-ttlv_encode, item_header}
use sexpect.Framing.Defs.{Answer, Reading, readn, pass_magic, pass_max_msg}
use sexpect.Framing.Whole.{IsWilling, moving, Reads, reads, readn_lem}
use sexpect.Framing.Recv.{
  Received, message, decode_buffer, body_read, read_body, header_read, magic_read, msg_recv, stored,
}

-- The message came, and `rest` is behind it.
pub data Delivers (m : Ttlv) (rest : List ℕ) : Received → Type 0 where
  delivers : (left : List Answer) → Delivers m rest (message m rest left)

ttlv_decode-wire : (m : Ttlv) → IsWf m → wire_size m < 2 ^ 31 → ttlv_decode (wire m) ≡ ok m
ttlv_decode-wire m h small =
    ttlv_decode-ttlv_encode m (wire_size m) (wire m) h (omega arith)
      (rw (ttlv_encode_lem m (wire_size m) h) (ground arith))

-- A whole message is handed to ttlv_decode.
data Decodes (buf rest : List ℕ) : Received → Type 0 where
  decodes : (left : List Answer) → Decodes buf rest (decode_buffer buf rest left)

the_whole :
    (old header body : List ℕ)
    → length header ≡ 8
    → stored old (header ++ body) (8 + length body) ≡ header ++ body
the_whole old header body h8 =
    take-append (8 + length body) (header ++ body) (drop (length (header ++ body)) old)
      (omega (arith, length-append header body, h8))

body_read-Decodes :
    (old header body rest : List ℕ) (most : ℕ) (r : Reading)
    → length header ≡ 8
    → Reads (length body) (body ++ rest) most r
    → Decodes (header ++ body) rest (body_read old header (length body) r)
body_read-Decodes old header body rest most r h8 (reads left w enough) =
    rw
      (
        take-append (length body) body rest refl,
        drop-append (length body) body rest refl,
        (the_whole old header body h8),
        le→ltb (length body) (length body) (omega arith),
      )
      (decodes left)

read_body-Decodes :
    (old header body rest : List ℕ) (answers : List Answer)
    → length header ≡ 8
    → 8 + length body ≤ pass_max_msg
    → All IsWilling answers
    → length body < moving answers
    → Decodes (header ++ body) rest (read_body old header (length body) (body ++ rest) answers)
unfolding read_body
read_body-Decodes old header body rest answers h8 fits w enough =
    rw
      (
        le→ltb pass_max_msg ((length body + 8) % 2 ^ 32) (omega arith),
        le→ltb pass_max_msg (length body + 8) (omega arith),
      )
      (body_read-Decodes old header body rest (moving answers)
        (readn answers (length body) (body ++ rest)) h8
        (readn_lem answers (length body) (body ++ rest) w enough))

header_read-Decodes :
    (old header body rest : List ℕ) (most : ℕ) (r : Reading)
    → length header ≡ 8
    → round8 (net_get32 (drop 4 header)) ≡ length body
    → 8 + length body ≤ pass_max_msg
    → 8 + length body < most
    → Reads 8 (header ++ (body ++ rest)) most r
    → Decodes (header ++ body) rest (header_read old r)
header_read-Decodes old header body rest most r h8 size fits enough (reads left w used) =
    rw
      (
        take-append 8 header (body ++ rest) (sym h8),
        drop-append 8 header (body ++ rest) (sym h8),
        h8,
        size,
      )
      (read_body-Decodes old header body rest left h8 fits w (omega (arith, enough, used)))

magic_read-Decodes :
    (old header body rest : List ℕ) (most : ℕ) (r : Reading)
    → length header ≡ 8
    → round8 (net_get32 (drop 4 header)) ≡ length body
    → 8 + length body ≤ pass_max_msg
    → 12 + length body < most
    → Reads 4 (net_put32 pass_magic ++ (header ++ (body ++ rest))) most r
    → Decodes (header ++ body) rest (magic_read old r)
unfolding net_put32 net_get32
magic_read-Decodes old header body rest most r h8 size fits enough (reads left w used) =
    header_read-Decodes old header body rest (moving left) (readn left 8 (header ++ (body ++ rest)))
      h8 size fits (omega (arith, enough, used))
      (readn_lem left 8 (header ++ (body ++ rest)) w (omega (arith, enough, used)))

msg_recv-Decodes :
    (answers : List Answer) (old header body rest : List ℕ)
    → length header ≡ 8
    → round8 (net_get32 (drop 4 header)) ≡ length body
    → 8 + length body ≤ pass_max_msg
    → All IsWilling answers
    → 12 + length body < moving answers
    → Decodes
        (header ++ body)
        rest
        (msg_recv answers old (net_put32 pass_magic ++ (header ++ (body ++ rest))))
unfolding msg_recv
msg_recv-Decodes answers old header body rest h8 size fits w enough =
    magic_read-Decodes old header body rest (moving answers) _ h8 size fits enough (
      readn_lem answers 4 (net_put32 pass_magic ++ (header ++ (body ++ rest))) w
        (omega (arith, enough)))

wire_size-mod : (m : Ttlv) → wire_size m % 8 ≡ 0
unfolding wire_size
wire_size-mod null = refl
wire_size-mod (node tag type len v_none child next) =
    omega (arith, wire_size-mod child, wire_size-mod next)
wire_size-mod (node tag type len (v_int n) child next) =
    omega (arith, wire_size-mod child, wire_size-mod next)
wire_size-mod (node tag type len (v_long n) child next) =
    omega (arith, wire_size-mod child, wire_size-mod next)
wire_size-mod (node tag type len (v_raw bs) child next) =
    omega (arith, wire_size-mod child, wire_size-mod next)

-- A node on the wire: its header, whose length field counts what follows, and the value.
header_size :
    (tag type len : ℕ) (v : Value) (child : Ttlv)
    → IsWf (node tag type len v child null)
    → wire_size (node tag type len v child null) ≤ pass_max_msg
    → round8 (if type == ttype_struct then length (wire child) else len)
      ≡ length (value_bytes v ++ wire child)
unfolding wire_size
header_size tag type len v child h fits =
    let counted : (if type == ttype_struct then wire_size child else round8 len)
        ≡ value_size v + wire_size child =
      unfold payload_size in payload_size_lem type len v child h.1 in
    let body = length-append (value_bytes v) (wire child) in
    elim (Bool-cases (type == ttype_struct)) [
      | inl e ↦
          let nested = rw e at counted in
          rw e (
            omega (
              arith,
              nested,
              body,
              length-value_bytes v,
              length-wire child,
              round8_lem (length (wire child)) (omega (arith, length-wire child)),
              wire_size-mod child,
            ))
      | inr e ↦
          let plain = rw e at counted in
          rw e (omega (arith, plain, body, length-value_bytes v, length-wire child))
    ]

-- The bytes of one node, cut behind the header.
abbrev node_header : ℕ → ℕ → ℕ → Ttlv → List ℕ
node_header tag type len child =
    net_put32 (tagtype tag type)
    ++ net_put32 (if type == ttype_struct then length (wire child) else len)

wire-node :
    (tag type len : ℕ) (v : Value) (child : Ttlv)
    → wire (node tag type len v child null)
      ≡ node_header tag type len child ++ (value_bytes v ++ wire child)
unfolding wire wire_item net_put32
wire-node tag type len v child = rw append-nil refl

length-node_header : (tag type len : ℕ) (child : Ttlv) → length (node_header tag type len child) ≡ 8
unfolding net_put32
length-node_header tag type len child = refl

node_header_size :
    (tag type len : ℕ) (v : Value) (child : Ttlv)
    → IsWf (node tag type len v child null)
    → wire_size (node tag type len v child null) ≤ pass_max_msg
    → round8 (net_get32 (drop 4 (node_header tag type len child)))
      ≡ length (value_bytes v ++ wire child)
unfolding net_put32 wire_size
node_header_size tag type len v child h fits =
    let size = if type == ttype_struct then length (wire child) else len in
    let (h0, h7, hl, hf) = item_header type len v child h.1 (omega arith) in
    ap round8 (
      net_get32-net_put32 size [] (
        subst (λ n. (if type == ttype_struct then n else len) < 2 ^ 32) (sym (length-wire child))
          hl))
    ∙ header_size tag type len v child h fits

Decodes-Delivers :
    (tag type len : ℕ) (v : Value) (child next : Ttlv) (buf rest : List ℕ) {r : Received}
    → ttlv_decode buf ≡ ok (node tag type len v child next)
    → Decodes buf rest r
    → Delivers (node tag type len v child next) rest r
unfolding decode_buffer
Decodes-Delivers tag type len v child next buf rest e (decodes left) = rw e (delivers left)

-- The stream, cut where readn cuts it.
stream_cut :
    (header body rest bs : List ℕ)
    → bs ≡ header ++ body
    → net_put32 pass_magic ++ (header ++ (body ++ rest)) ≡ (net_put32 pass_magic ++ bs) ++ rest
unfolding net_put32
stream_cut header body rest bs e = rw (e, append_assoc header body rest) refl

-- msg_recv, given as many returns of read as the message and its magic number have bytes and one
-- more, none of which fails: it returns a well-formed message of at most 64 KB that stands in the
-- stream behind its magic number, and leaves what follows it, however read splits up the bytes.
pub msg_recv-wire :
    (answers : List Answer) (old rest : List ℕ) (tag type len : ℕ) (v : Value) (child : Ttlv)
    → IsWf (node tag type len v child null)
    → wire_size (node tag type len v child null) ≤ pass_max_msg
    → All IsWilling answers
    → 4 + wire_size (node tag type len v child null) < moving answers
    → Delivers (node tag type len v child null) rest (
        msg_recv answers old
          ((net_put32 pass_magic ++ wire (node tag type len v child null)) ++ rest))
msg_recv-wire answers old rest tag type len v child h fits w enough =
    let m = node tag type len v child null in
    let header = node_header tag type len child in
    let body = value_bytes v ++ wire child in
    let whole = wire-node tag type len v child in
    let counted : 8 + length body ≡ wire_size m = omega (
      arith,
      length-wire m,
      ap length whole,
      length-append header body,
      length-node_header tag type len child,
    ) in
    let came =
      msg_recv-Decodes answers old header body rest (length-node_header tag type len child)
        (node_header_size tag type len v child h fits) (omega (arith, counted)) w
        (omega (arith, counted, enough)) in
    subst (λ bs. Delivers m rest (msg_recv answers old bs))
      (stream_cut header body rest (wire m) whole)
      (Decodes-Delivers tag type len v child null (header ++ body) rest
        (rw (← whole) (ttlv_decode-wire m h (omega arith))) came)
