-- ===== src/Framing/Defs.antt =====
-- common.c, readn, writen and msg_send. The system calls are given by what they return, one after
-- the other.
use sexpect.Base.{
  ℕ, ◌-◌, ◌&&◌, not, Option, none, some, List, [], ◌∷◌, ◌++◌, ◌==◌, ltb, if◌then◌else◌, length,
  take, drop, min, ◌^◌,
}
use sexpect.Proto.Wire.{net_put32}
use sexpect.Proto.Message.{Ttlv}
use sexpect.Proto.Encode.{ttlv_calc_size, ttlv_encode}

-- One return of read(2) or write(2): EINTR, another error, or a number of bytes, which is cut to
-- what was asked for and to what there is.
pub data Answer : Type 0 where
  interrupted failed : Answer
  moves : ℕ → Answer

-- How readn ends: a call of read does not return; -1, with the bytes read so far; or the bytes read,
-- what the stream has left, and the returns that are left.
pub data Reading : Type 0 where
  waits : Reading
  broke : List ℕ → Reading
  got : List ℕ → List ℕ → List Answer → Reading

abbrev pub behind : List ℕ → Reading → Reading
behind bs waits = waits
behind bs (broke more) = broke (bs ++ more)
behind bs (got more stream answers) = got (bs ++ more) stream answers

-- readn of `n` bytes from a stream that ends where the list ends.
unfoldable pub readn : List Answer → ℕ → List ℕ → Reading
readn [] n stream = if n == 0 then got [] stream [] else waits
readn (interrupted ∷ answers) n stream =
    let again = readn answers n stream in
    if n == 0 then got [] stream (interrupted ∷ answers) else again
readn (failed ∷ answers) n stream = if n == 0 then got [] stream (failed ∷ answers) else broke []
readn (moves k ∷ answers) n stream =
    let nread = min k (min n (length stream)) in
    let more = readn answers (n - nread) (drop nread stream) in
    if n == 0
    then got [] stream (moves k ∷ answers)
    else if nread == 0
    then got [] stream answers
    else behind (take nread stream) more

-- How writen ends: a call of write does not return, -1, or all the bytes are written. The first two
-- and the third name the bytes that went out.
pub data Writing : Type 0 where
  stuck broken : List ℕ → Writing
  wrote : List ℕ → List Answer → Writing

abbrev pub after : List ℕ → Writing → Writing
after bs (stuck more) = stuck (bs ++ more)
after bs (broken more) = broken (bs ++ more)
after bs (wrote more answers) = wrote (bs ++ more) answers

-- writen of all of a buffer.
unfoldable pub writen : List Answer → List ℕ → Writing
writen [] bs = if length bs == 0 then wrote [] [] else stuck []
writen (interrupted ∷ answers) bs =
    let again = writen answers bs in
    if length bs == 0 then wrote [] (interrupted ∷ answers) else again
writen (failed ∷ answers) bs = if length bs == 0 then wrote [] (failed ∷ answers) else broken []
writen (moves k ∷ answers) bs =
    let nwritten = min k (length bs) in
    let more = writen answers (drop nwritten bs) in
    if length bs == 0 then wrote [] (moves k ∷ answers) else after (take nwritten bs) more

-- PASS_MAGIC and PASS_MAX_MSG
abbrev pub pass_magic : ℕ
pass_magic = 0x4a55575a

abbrev pub pass_max_msg : ℕ
pass_max_msg = 65536

-- How msg_send ends: -1 before anything is written, or as the calls of writen do.
pub data Sending : Type 0 where
  refused : Sending
  wrote_out : Writing → Sending

-- The magic number, then the message.
abbrev pub write_body : List ℕ → Writing → Writing
write_body bs (stuck out) = stuck out
write_body bs (broken out) = broken out
write_body bs (wrote out answers) = after out (writen answers bs)

abbrev pub send_encoded : List Answer → ℕ → Option (List ℕ) → Sending
send_encoded answers size none = refused
send_encoded answers size (some bs) =
    if not (size == length bs)
    then refused
    else wrote_out (write_body bs (writen answers (net_put32 pass_magic)))

-- msg_send. The size is kept in an int: from 2 ^ 31 on it passes for a negative number.
unfoldable pub msg_send : List Answer → Ttlv → Sending
unfolding readn writen ttlv_calc_size ttlv_encode net_put32
msg_send answers msg =
    let size = ttlv_calc_size msg in
    if ltb size (2 ^ 31) && ltb pass_max_msg size
    then refused
    else send_encoded answers size (ttlv_encode msg pass_max_msg)
