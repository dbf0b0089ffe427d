-- ===== src/Common/OneClock.antt =====
-- Proofs on Clock_gettime (common.c).
use sexpect.Base.{Bool, true, false, ◌&&◌, List, [], ◌∷◌, All, ◌≡◌, refl, if◌then◌else◌}
use sexpect.Common.Clock.{ClockId, realtime, monotonic, first_clocks, clock_gettime, clock_reads}

later_reads :
    (has_monotonic : Bool) (works : List Bool) (clock : ClockId)
    → All
        (λ read. read ≡ clock)
        (clock_reads has_monotonic works (record { firstime = false; clock = clock }))
unfolding clock_reads clock_gettime
later_reads has_monotonic [] clock = tt
later_reads has_monotonic (w ∷ works) clock = (refl, later_reads has_monotonic works clock)

-- All times of a process come from one clock, so that their differences mean something: the
-- monotonic one if it is defined and worked at the first call, else the real time.
pub clock_reads-same :
    (has_monotonic first : Bool) (later : List Bool)
    → All
        (λ read. read ≡ (if has_monotonic && first then monotonic else realtime))
        (clock_reads has_monotonic (first ∷ later) first_clocks)
unfolding clock_reads clock_gettime
clock_reads-same true true later = (refl, later_reads true later monotonic)
clock_reads-same true false later = (refl, later_reads true later realtime)
clock_reads-same false first later = (refl, later_reads false later realtime)
