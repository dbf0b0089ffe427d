-- ===== src/Common/Tests.antt =====
-- The small helpers at concrete inputs.
use sexpect.Base.{◌≡◌, refl, true, false, none, some, if◌then◌else◌, arith, codes}
use sexpect.Base.Int.{pos, negsuc}
use sexpect.Tags.{tag_send}
use sexpect.Args.Result.{ok}
use sexpect.Common.Names.{common_init, v2n_error, v2n_tag, written}
use sexpect.Common.Bits.{count1bits}
use sexpect.Common.Ones.{ones, count1bits-ones}
use sexpect.Common.Clock.{strmatch, strcasematch, Matching}

tables_complete : common_init ≡ ok tt
unfolding common_init
tables_complete = refl

no_name : v2n_error (negsuc 4) (some 32) ≡ written (codes "ERROR -5")
unfolding v2n_error
no_name = refl

-- A small buffer gets a part of the name.
cut_name : v2n_tag (pos tag_send) (some 6) ≡ written (codes "TAG_S")
unfolding v2n_tag
cut_name = refl

count1bits-ones_example : count1bits 0xf0a1 ≡ some (ones 32 0xf0a1)
count1bits-ones_example = count1bits-ones 0xf0a1 (omega arith)

seven_ones : count1bits 0xf0a1 ≡ some 7
unfolding count1bits
seven_ones = refl

-- A matcher that knows one pattern.
abbrev only_digits : Matching
only_digits pattern icase = if icase then none else some (λ s. true)

icase_apart : strcasematch only_digits (codes "7") (codes "^[0-9]+$") ≡ false
unfolding strcasematch
icase_apart = refl

plain_match : strmatch only_digits (codes "7") (codes "^[0-9]+$") ≡ true
unfolding strmatch
plain_match = refl
