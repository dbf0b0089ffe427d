-- ===== src/Framing/Send.antt =====
-- Proofs on sending a message (common.c, msg_send).
use sexpect.Base.{ℕ, ◌+◌, ◌^◌, ◌≤◌, ◌<◌, ◌≡◌, sym, subst, List, ◌++◌, length, All, arith}
use sexpect.Proto.Wire.{net_put32, length-net_put32}
use sexpect.Proto.Message.{Ttlv}
use sexpect.Proto.Encode.{ttlv_calc_size}
use sexpect.Proto.Valid.{IsWf}
use sexpect.Proto.Format.{wire, wire_size, length-wire}
use sexpect.Proto.Size.{ttlv_encode_lem, ttlv_calc_size_ex_lem}
use sexpect.Framing.Defs.{
  Answer, Writing, wrote, after, writen, Sending, refused, wrote_out, write_body, msg_send,
  pass_magic, pass_max_msg,
}
use sexpect.Framing.Whole.{IsWilling, moving, Writes, writes, writen_lem}

-- The whole message went out.
pub data Sends (bs : List ℕ) : Sending → Type 0 where
  sends : (left : List Answer) → Sends bs (wrote_out (wrote bs left))

write_body-Sends :
    (magic bs : List ℕ) (most : ℕ) (r : Writing)
    → Writes magic most r
    → length magic + length bs ≤ most
    → Sends (magic ++ bs) (wrote_out (write_body bs r))
write_body-Sends magic bs most r (writes left w enough) h =
    body (writen left bs) (writen_lem left bs w (omega (arith, enough)))
  where
    body :
        (q : Writing) → Writes bs (moving left) q → Sends (magic ++ bs) (wrote_out (after magic q))
    body q (writes rest v more) = sends rest

-- A message that fits the buffer is encoded in full.
msg_send_fits :
    (answers : List Answer) (m : Ttlv)
    → IsWf m
    → wire_size m ≤ pass_max_msg
    → msg_send answers m ≡ wrote_out (write_body (wire m) (writen answers (net_put32 pass_magic)))
unfolding msg_send ttlv_calc_size
msg_send_fits answers m h fits =
    rw (ttlv_calc_size_ex_lem m h (omega arith), ttlv_encode_lem m pass_max_msg h)
      (ground (arith, length-wire m))

-- msg_send of a well-formed message of at most 64 KB, with as many returns of write that move
-- something as there are bytes in the message and its magic number, none of which fails: the magic
-- number and then the message go out, whole, however write splits them up.
pub msg_send-wire :
    (answers : List Answer) (m : Ttlv)
    → IsWf m
    → wire_size m ≤ pass_max_msg
    → All IsWilling answers
    → 4 + wire_size m ≤ moving answers
    → Sends (net_put32 pass_magic ++ wire m) (msg_send answers m)
unfolding msg_send ttlv_calc_size
msg_send-wire answers m h fits w enough =
    subst (Sends (net_put32 pass_magic ++ wire m)) (sym (msg_send_fits answers m h fits)) (
      write_body-Sends (net_put32 pass_magic) (wire m) (moving answers)
        (writen answers (net_put32 pass_magic))
        (writen_lem answers (net_put32 pass_magic) w
          (omega (arith, enough, length-net_put32 pass_magic)))
        (omega (arith, enough, length-net_put32 pass_magic, length-wire m)))

-- msg_send of a well-formed message that is larger than 64 KB and below 2 ^ 31 bytes: nothing is written.
pub msg_send-refused :
    (answers : List Answer) (m : Ttlv)
    → IsWf m
    → pass_max_msg < wire_size m
    → wire_size m < 2 ^ 31
    → msg_send answers m ≡ refused
unfolding msg_send ttlv_calc_size
msg_send-refused answers m h large small =
    rw (ttlv_calc_size_ex_lem m h (omega arith)) (ground arith)
