-- ===== src/Proto/Lookup.antt =====
-- Looking children up by tag (proto.c, ttlv_find_child and ttlv_append_child).
use sexpect.Base.{ℕ, ◌≡◌, refl, Bool-cases, ◌==◌, arith, inl, inr}
use sexpect.Proto.Message.{Value, Ttlv, null, node, IsNull, find_from, ttlv_append, ttlv_find_child}

-- ttlv_find_child looks through the whole list of children.
pub ttlv_find_child-find_from :
    (tag type length : ℕ) (v : Value) (child next : Ttlv) (wanted : ℕ)
    → ttlv_find_child (node tag type length v child next) wanted ≡ find_from child wanted
unfolding ttlv_find_child find_from
ttlv_find_child-find_from tag type length v null next wanted = refl
ttlv_find_child-find_from tag type length v (node t ty l w c n) next wanted = ground arith

-- A tag that a list does not hold is found in the part that ttlv_append adds.
pub find_from-ttlv_append :
    (list p : Ttlv) (tag : ℕ)
    → IsNull (find_from list tag)
    → find_from (ttlv_append list p) tag ≡ find_from p tag
unfolding find_from ttlv_append
find_from-ttlv_append null p tag h = refl
find_from-ttlv_append (node t ty l w c n) p tag h = elim (Bool-cases (t == tag)) [
  | inl e ↦ absurd (rw (e) at h)
  | inr e ↦ rw e (find_from-ttlv_append n p tag (rw e at h))
]
