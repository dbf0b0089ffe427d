-- ===== src/Framing/Together.antt =====
-- Proofs on msg_send and msg_recv together, and on the tests of msg_recv (common.c).
use sexpect.Base.{
  ℕ, ◌+◌, ◌%◌, ◌*◌, ◌/◌, ◌^◌, ◌≤◌, ◌<◌, ◌≡◌, sym, refl, List, [], ◌++◌, length, All, arith,
  length-append, take-append, drop-append, le→ltb, lt→ltb,
}
use sexpect.Proto.Wire.{net_put32, net_get32, net_get32-net_put32, length-net_put32}
use sexpect.Proto.Message.{Value, Ttlv, null, node, round8}
use sexpect.Proto.Valid.{IsWf}
use sexpect.Proto.Format.{wire, wire_size}
use sexpect.Framing.Defs.{
  Answer, Reading, wrote, readn, Sending, wrote_out, msg_send, pass_magic, pass_max_msg,
}
use sexpect.Framing.Whole.{IsWilling, moving, Reads, reads, readn_lem}
use sexpect.Framing.Send.{Sends, sends, msg_send-wire}
use sexpect.Framing.Recv.{Received, overruns, read_body, header_read, magic_read, msg_recv}
use sexpect.Framing.Deliver.{Delivers, msg_recv-wire}

-- msg_send writes a well-formed message of at most 64 KB so that msg_recv, with anything behind it in
-- the stream, returns this message and leaves what is behind, however write and read split up the
-- bytes. Neither call may fail, and each has as many returns that move something as the message and
-- its magic number have bytes, read one more.
pub msg_recv-msg_send :
    (writes reads : List Answer) (old rest : List ℕ) (tag type len : ℕ) (v : Value) (child : Ttlv)
    → IsWf (node tag type len v child null)
    → wire_size (node tag type len v child null) ≤ pass_max_msg
    → All IsWilling writes
    → All IsWilling reads
    → 4 + wire_size (node tag type len v child null) ≤ moving writes
    → 4 + wire_size (node tag type len v child null) < moving reads
    → (out : List ℕ) × (left : List Answer) × (msg_send writes (node tag type len v child null)
        ≡ wrote_out (wrote out left))
      × Delivers (node tag type len v child null) rest (msg_recv reads old (out ++ rest))
msg_recv-msg_send ws rs old rest tag type len v child h fits ww wr ew er =
    let m = node tag type len v child null in sent (msg_send ws m) (msg_send-wire ws m h fits ww ew)
  where
    sent :
        (r : Sending)
        → Sends (net_put32 pass_magic ++ wire (node tag type len v child null)) r
        → (out : List ℕ) × (left : List Answer) × (r ≡ wrote_out (wrote out left))
          × Delivers (node tag type len v child null) rest (msg_recv rs old (out ++ rest))
    sent r (sends left) = (
      net_put32 pass_magic ++ wire (node tag type len v child null),
      left,
      refl,
      msg_recv-wire rs old rest tag type len v child h fits wr er,
    )

-- The magic number is read and accepted.
pub data Accepts (old stream : List ℕ) (most : ℕ) : Received → Type 0 where
  accepts :
      (left : List Answer)
      → All IsWilling left
      → most ≤ 4 + moving left
      → Accepts old stream most (header_read old (readn left 8 stream))

magic_read-Accepts :
    (old stream : List ℕ) (most : ℕ) (r : Reading)
    → Reads 4 (net_put32 pass_magic ++ stream) most r
    → Accepts old stream most (magic_read old r)
unfolding net_put32 net_get32
magic_read-Accepts old stream most r (reads left w used) = accepts left w used

msg_recv-Accepts :
    (answers : List Answer) (old stream : List ℕ)
    → All IsWilling answers
    → 4 < moving answers
    → Accepts old stream (moving answers) (msg_recv answers old (net_put32 pass_magic ++ stream))
unfolding msg_recv
msg_recv-Accepts answers old stream w enough =
    magic_read-Accepts old stream (moving answers)
      (readn answers 4 (net_put32 pass_magic ++ stream))
      (readn_lem answers 4 (net_put32 pass_magic ++ stream) w enough)

header_read-overruns :
    (old tagtype rest : List ℕ) (len most : ℕ) (r : Reading)
    → length tagtype ≡ 4
    → 2 ^ 32 ≤ len + 15
    → len + 8 ≤ 2 ^ 32
    → Reads 8 ((tagtype ++ net_put32 len) ++ rest) most r
    → header_read old r ≡ overruns
unfolding read_body round8
header_read-overruns old tagtype rest len most r h4 low high (reads left w used) =
    let h8 : 8 ≡ length (tagtype ++ net_put32 len) =
      omega (arith, length-append tagtype (net_put32 len), length-net_put32 len, h4) in
    rw
      (
        take-append 8 (tagtype ++ net_put32 len) rest h8,
        sym h8,
        drop-append 4 tagtype (net_put32 len) (sym h4),
        net_len,
        le→ltb pass_max_msg (((len + 7) % 2 ^ 32 / 8 * 8 + 8) % 2 ^ 32) (omega arith),
        lt→ltb pass_max_msg ((len + 7) % 2 ^ 32 / 8 * 8 + 8) (omega arith),
      )
      refl
  where
    net_len : net_get32 (net_put32 len) ≡ len
    net_len = unfold net_put32 in net_get32-net_put32 len [] (omega arith)

-- A length field of 0xfffffff1 to 0xfffffff8, in a header that readn gets whole: the sum of taglen
-- and the size of the header wraps to 0, the test passes, and readn is asked for more than the
-- buffer of 64 KB holds.
pub msg_recv-overruns :
    (answers : List Answer) (old tagtype rest : List ℕ) (len : ℕ)
    → length tagtype ≡ 4
    → 2 ^ 32 ≤ len + 15
    → len + 8 ≤ 2 ^ 32
    → All IsWilling answers
    → 12 < moving answers
    → msg_recv answers old (net_put32 pass_magic ++ ((tagtype ++ net_put32 len) ++ rest)) ≡ overruns
msg_recv-overruns answers old tagtype rest len h4 low high w enough =
    header (msg_recv answers old (net_put32 pass_magic ++ ((tagtype ++ net_put32 len) ++ rest)))
      (msg_recv-Accepts answers old ((tagtype ++ net_put32 len) ++ rest) w (omega (arith, enough)))
  where
    header :
        (r : Received)
        → Accepts old ((tagtype ++ net_put32 len) ++ rest) (moving answers) r
        → r ≡ overruns
    header r (accepts left v used) =
        header_read-overruns old tagtype rest len (moving left)
          (readn left 8 ((tagtype ++ net_put32 len) ++ rest)) h4 low high
          (readn_lem left 8 ((tagtype ++ net_put32 len) ++ rest) v (omega (arith, enough, used)))
