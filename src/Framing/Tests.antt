-- ===== src/Framing/Tests.antt =====
-- A stream read and a message sent in pieces (common.c).
use sexpect.Base.{
  ℕ, ◌≡◌, ◌++◌, refl, sym, inr, List, [], ◌∷◌, All, arith, codes, length, replicate,
  length-replicate, All-replicate,
}
use sexpect.Proto.Wire.{IsByte, net_put32}
use sexpect.Proto.Message.{Ttlv, null, node, v_none, v_raw, ttype_struct, ttype_raw}
use sexpect.Proto.Valid.{IsWf}
use sexpect.Proto.Format.{wire_size}
use sexpect.Framing.Defs.{readn, wrote_out, wrote, Answer, interrupted, moves, msg_send, pass_magic}
use sexpect.Framing.Whole.{IsWilling, moving, Reads, readn_lem}
use sexpect.Framing.Together.{msg_recv-msg_send, msg_recv-overruns}
use sexpect.Framing.Recv.{msg_recv, overruns}
use sexpect.Framing.Deliver.{Delivers}

-- One byte at a time, but for an interrupt and a longer piece.
abbrev pieces : List Answer
pieces =
    moves 1
    ∷ interrupted
    ∷ moves 2
    ∷ moves 1
    ∷ moves 1
    ∷ moves 1
    ∷ moves 1
    ∷ moves 1
    ∷ moves 1
    ∷ moves 1
    ∷ moves 1
    ∷ moves 1
    ∷ moves 1
    ∷ []

pieces-IsWilling : All IsWilling pieces
pieces-IsWilling = omega arith

abbrev ack : Ttlv
ack = node 9 ttype_struct 0 v_none null null

ack-IsWf : IsWf ack
ack-IsWf = (omega arith, (refl, refl), tt, tt)

ack_fits : wire_size ack ≡ 8
unfolding wire_size
ack_fits = refl

abbrev flood : List ℕ
flood = replicate 65536 b'a'

abbrev large : Ttlv
large = node 3 ttype_raw 65536 (v_raw flood) null null

large-IsWf : IsWf large
large-IsWf =
    let size = length-replicate {A = ℕ} 65536 b'a' in
    (
      omega arith,
      (inr refl, sym size, omega (arith, size), All-replicate IsByte 65536 b'a' (omega arith), tt),
      tt,
      tt,
    )

raw_size :
    (bs : List ℕ)
    → length bs ≡ 65536
    → wire_size (node 3 ttype_raw 65536 (v_raw bs) null null) ≡ 65544
unfolding wire_size
raw_size bs e = omega (arith, e)

large_size : wire_size large ≡ 65544
large_size = raw_size flood (length-replicate {A = ℕ} 65536 b'a')

read_pieces-IsWilling : All IsWilling (moves 1 ∷ pieces)
read_pieces-IsWilling = omega arith

msg_recv-msg_send_example :
    (out : List ℕ) × (left : List Answer) × (msg_send pieces ack ≡ wrote_out (wrote out left))
    × Delivers ack (codes "behind") (msg_recv (moves 1 ∷ pieces) [] (out ++ codes "behind"))
msg_recv-msg_send_example =
    msg_recv-msg_send pieces (moves 1 ∷ pieces) [] (codes "behind") 9 ttype_struct 0 v_none null
      ack-IsWf (omega (arith, ack_fits)) pieces-IsWilling read_pieces-IsWilling
      (unfold moving in omega (arith, ack_fits)) (unfold moving in omega (arith, ack_fits))

msg_recv-overruns_example :
    msg_recv
      (moves 1 ∷ pieces)
      []
      (net_put32 pass_magic ++ (((0 ∷ 0 ∷ 3 ∷ 6 ∷ []) ++ net_put32 0xfffffff8) ++ codes "x"))
    ≡ overruns
msg_recv-overruns_example =
    msg_recv-overruns (moves 1 ∷ pieces) [] (0 ∷ 0 ∷ 3 ∷ 6 ∷ []) (codes "x") 0xfffffff8 refl
      (omega arith) (omega arith) read_pieces-IsWilling (unfold moving in omega arith)

readn_lem_example : Reads 4 (codes "abcdef") (moving pieces) (readn pieces 4 (codes "abcdef"))
readn_lem_example =
    readn_lem pieces 4 (codes "abcdef") pieces-IsWilling (unfold moving in omega arith)
