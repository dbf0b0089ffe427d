-- ===== src/Glob/Tests.antt =====
-- Globs as expressions (common.c, glob2re).
use sexpect.Base.{◌≡◌, ◌≤◌, ◌+◌, ◌*◌, ℕ, refl, some, none, List, All, arith, length, codes}
use sexpect.Glob.Defs.{glob2re}
use sexpect.Glob.Bounds.{length-glob2re}
use sexpect.Glob.Plain.{IsPlain}

abbrev script_glob : List ℕ
script_glob = codes "[!]a]*.c$?"

script_re : glob2re script_glob ≡ some (codes "[^]a].*[.]c[$].")
unfolding glob2re
script_re = refl

class_refused : glob2re (codes "[[:digit:]]") ≡ none
unfolding glob2re
class_refused = refl

length-glob2re_example : length (codes "[^]a].*[.]c[$].") + 1 ≤ 3 * length script_glob + 1
length-glob2re_example = length-glob2re script_glob (codes "[^]a].*[.]c[$].") script_re

abbrev word : List ℕ
word = codes "ok"

word-IsPlain : All IsPlain word
unfolding IsPlain
word-IsPlain = ground arith
