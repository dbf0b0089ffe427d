-- ===== src/Args/Signal.antt =====
-- Signal names (common.c, name2sig).
use sexpect.Base.{
  ℕ, ◌-◌, Bool, ◌&&◌, Option, none, some, List, [], ◌∷◌, ◌++◌, map, streq, codes, leb,
  if◌then◌else◌, take,
}

abbrev to_upper : ℕ → ℕ
to_upper c = if leb b'a' c && leb c b'z' then c - 32 else c

-- strcasecmp(s, t) == 0
unfoldable pub strcaseeq : List ℕ → List ℕ → Bool
unfolding streq
strcaseeq s t = streq (map to_upper s) (map to_upper t)

-- num2name
abbrev pub signal_names : List (List ℕ)
signal_names =
    codes "SIGCONT"
    ∷ codes "SIGHUP"
    ∷ codes "SIGINT"
    ∷ codes "SIGKILL"
    ∷ codes "SIGQUIT"
    ∷ codes "SIGSTOP"
    ∷ codes "SIGTERM"
    ∷ codes "SIGUSR1"
    ∷ codes "SIGUSR2"
    ∷ []

-- The system's number of the first name that agrees.
unfoldable pub find_signal : (List ℕ → ℕ) → List (List ℕ) → List ℕ → Option ℕ
unfolding strcaseeq
find_signal number [] longname = none
find_signal number (name ∷ names) longname =
    let later = find_signal number names longname in
    if strcaseeq name longname then some (number name) else later

-- `longname` holds 31 characters.
abbrev pub long_name : List ℕ → List ℕ
long_name name =
    take 31 (if strcaseeq (take 3 name) (codes "SIG") then name else codes "SIG" ++ name)

-- name2sig, `none` for -1. The numbers of the signals are the system's.
unfoldable pub name2sig : (List ℕ → ℕ) → List ℕ → Option ℕ
unfolding find_signal
name2sig number name = find_signal number signal_names (long_name name)
