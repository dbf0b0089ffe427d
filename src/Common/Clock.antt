-- ===== src/Common/Clock.antt =====
-- The clock, and matching against a regular expression (common.c, Clock_gettime, strmatch_ex,
-- strmatch, strcasematch).
use sexpect.Base.{Bool, true, false, ◌&&◌, Option, none, some, List, [], ◌∷◌, ℕ, if◌then◌else◌}

-- The clocks of clock_gettime that the program uses.
pub data ClockId : Type 0 where
  realtime monotonic : ClockId

-- The static variables of Clock_gettime.
pub record Clocks : Type 0 where
  pub firstime : Bool
  pub clock : ClockId

abbrev pub first_clocks : Clocks
first_clocks = record { firstime = true; clock = realtime }

-- Clock_gettime: the clock that gave the time, and the static variables. `has_monotonic` says
-- whether CLOCK_MONOTONIC is defined, `works` whether clock_gettime reads it now.
unfoldable pub clock_gettime : Bool → Bool → Clocks → ClockId × Clocks
clock_gettime has_monotonic works c =
    if c.firstime && (has_monotonic && works)
    then (monotonic, record { firstime = false; clock = monotonic })
    else (c.clock, record c { firstime = false })

-- The clocks that the calls of one process read, given whether the monotonic one works at each.
unfoldable pub clock_reads : Bool → List Bool → Clocks → List ClockId
unfolding clock_gettime
clock_reads has_monotonic [] c = []
clock_reads has_monotonic (works ∷ rest) c =
    let (read, d) = clock_gettime has_monotonic works c in read ∷ clock_reads has_monotonic rest d

-- regcomp with REG_EXTENDED, and REG_ICASE if asked, and regexec of what it compiled.
abbrev pub Matching : Type 0
Matching = List ℕ → Bool → Option (List ℕ → Bool)

abbrev pub matches : Option (List ℕ → Bool) → List ℕ → Bool
matches none s = false
matches (some regexec) s = regexec s

unfoldable pub strmatch_ex : Matching → List ℕ → List ℕ → Bool → Bool
strmatch_ex regcomp s pattern icase = matches (regcomp pattern icase) s

unfoldable pub strmatch : Matching → List ℕ → List ℕ → Bool
unfolding strmatch_ex
strmatch regcomp s pattern = strmatch_ex regcomp s pattern false

unfoldable pub strcasematch : Matching → List ℕ → List ℕ → Bool
unfolding strmatch_ex
strcasematch regcomp s pattern = strmatch_ex regcomp s pattern true
