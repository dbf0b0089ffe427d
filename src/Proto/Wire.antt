-- ===== src/Proto/Wire.antt =====
-- Numbers on the wire (proto.h, the net_get and net_put macros; proto.c, _htonll and _ntohll).
use sexpect.Base.{
  ℕ, ◌+◌, ◌*◌, ◌/◌, ◌%◌, ◌^◌, ◌<◌, ◌≡◌, refl, List, [], ◌∷◌, ◌++◌, arith, All, length,
}

-- A byte is a number below 256.
abbrev pub IsByte : ℕ → Type 0
IsByte b = b < 256

-- What `net_put32` stores: four bytes, the most significant one first.
unfoldable pub net_put32 : ℕ → List ℕ
net_put32 n = (n / 2 ^ 24 % 256) ∷ (n / 2 ^ 16 % 256) ∷ (n / 2 ^ 8 % 256) ∷ (n % 256) ∷ []

-- What `net_get32` reads at the start of a buffer. The callers have checked that there are four
-- bytes.
unfoldable pub net_get32 : List ℕ → ℕ
net_get32 (a ∷ b ∷ c ∷ d ∷ rest) = a * 2 ^ 24 + b * 2 ^ 16 + c * 2 ^ 8 + d
net_get32 bs = 0

unfoldable pub net_put64 : ℕ → List ℕ
unfolding net_put32
net_put64 n = net_put32 (n / 2 ^ 32) ++ net_put32 (n % 2 ^ 32)

unfoldable pub net_get64 : List ℕ → ℕ
unfolding net_get32
net_get64 (a ∷ b ∷ c ∷ d ∷ rest) = net_get32 (a ∷ b ∷ c ∷ d ∷ []) * 2 ^ 32 + net_get32 rest
net_get64 bs = 0

pub length-net_put32 : (n : ℕ) → length (net_put32 n) ≡ 4
unfolding net_put32
length-net_put32 n = refl

pub length-net_put64 : (n : ℕ) → length (net_put64 n) ≡ 8
unfolding net_put64
length-net_put64 n = refl

pub net_get32-net_put32 : (n : ℕ) (rest : List ℕ) → n < 2 ^ 32 → net_get32 (net_put32 n ++ rest) ≡ n
unfolding net_get32 net_put32
net_get32-net_put32 n rest h = omega arith

pub net_get64-net_put64 : (n : ℕ) (rest : List ℕ) → n < 2 ^ 64 → net_get64 (net_put64 n ++ rest) ≡ n
unfolding net_get64 net_put64
net_get64-net_put64 n rest h = omega arith

pub net_put32-All : (n : ℕ) → All IsByte (net_put32 n)
unfolding net_put32
net_put32-All n = omega arith

pub net_get32-lt : (bs : List ℕ) → All IsByte bs → net_get32 bs < 2 ^ 32
unfolding net_get32
net_get32-lt (a ∷ b ∷ c ∷ d ∷ rest) h = omega arith
net_get32-lt (a ∷ b ∷ c ∷ []) h = omega arith
net_get32-lt (a ∷ b ∷ []) h = omega arith
net_get32-lt (a ∷ []) h = omega arith
net_get32-lt [] h = omega arith

pub net_get64-lt : (bs : List ℕ) → All IsByte bs → net_get64 bs < 2 ^ 64
unfolding net_get64
net_get64-lt (a ∷ b ∷ c ∷ d ∷ rest) h = omega (arith, net_get32-lt rest h.1.1.1.1)
net_get64-lt (a ∷ b ∷ c ∷ []) h = omega arith
net_get64-lt (a ∷ b ∷ []) h = omega arith
net_get64-lt (a ∷ []) h = omega arith
net_get64-lt [] h = omega arith
