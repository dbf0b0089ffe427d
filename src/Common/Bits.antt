-- ===== src/Common/Bits.antt =====
-- The number of ones of an unsigned int (common.c, count1bits).
use sexpect.Base.{ℕ, zero, suc, ◌+◌, ◌-◌, Option, none, some, ◌==◌, if◌then◌else◌}
use Prim.Native.Nat.{bit_and}

-- The loop of count1bits, with the rounds that are left; `none` where there are too few.
unfoldable pub count_from : ℕ → ℕ → ℕ → Option ℕ
count_from zero cnt n = if n == 0 then some cnt else none
count_from (suc rounds) cnt n =
    let later = count_from rounds (cnt + 1) (bit_and n (n - 1)) in
    if n == 0 then some cnt else later

-- count1bits, for an int of 32 bits.
unfoldable pub count1bits : ℕ → Option ℕ
unfolding count_from
count1bits n = count_from 32 0 n
