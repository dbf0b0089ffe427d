-- ===== src/Pty/Raw.antt =====
-- Proofs on the terminal in raw mode (pty.c).
use sexpect.Base.{
  ◌≡◌, refl, ◌⊎◌, Bool, true, false, Option, none, some, List, [], ◌∷◌, arith, Bool-cases, inl, inr,
}
use sexpect.Pty.Tty.{
  cs8, Termios, Tty, Driver, raw_settings, partly_changed, Switched, set_to, got, give_up, verified,
  changed, fetched, tty_raw, tty_reset,
}

-- Bytes go through the terminal one at a time, eight bits each, as they are.
pub record IsRaw (t : Termios) : Type 0 where
  pub unechoed : t.echo ≡ false
  pub no_lines : (t.icanon ≡ false) × (t.iexten ≡ false)
  pub no_signals : (t.isig ≡ false) × (t.brkint ≡ false)
  pub input_kept : (t.icrnl ≡ false) × (t.inpck ≡ false) × (t.istrip ≡ false) × (t.ixon ≡ false)
  pub eight_bits : (t.csize ≡ cs8) × (t.parenb ≡ false)
  pub output_kept : t.opost ≡ false
  pub at_once : (t.vmin ≡ 1) × (t.vtime ≡ 0)

-- A driver that can go back to the settings that the terminal had.
abbrev pub CanRestore : Driver → Termios → Type 0
CanRestore d old = (now : Termios) → d now old ≡ some old

partly_changed-IsRaw : (t : Termios) → partly_changed t ≡ false → IsRaw t
partly_changed-IsRaw t h = ground arith

-- How tty_raw ends on a terminal that had the settings `old`.
abbrev pub RawOrSame : Termios → Switched → Type 0
RawOrSame old r =
    ((r.ok ≡ true) × IsRaw r.tty.settings × (r.saved ≡ some old))
    ⊎ ((r.ok ≡ false) × (r.tty.settings ≡ old))

module _ (d : Driver) {old : Termios} (restores : CanRestore d old) where
  give_up-RawOrSame : (t : Tty) → RawOrSame old (give_up d old t)
  give_up-RawOrSame t = rw (restores t.settings) (inr (refl, refl))

  verified-RawOrSame :
      (t : Tty) (buf : Option Termios)
      → ((now : Termios) → buf ≡ some now → t.settings ≡ now)
      → RawOrSame old (verified d old (t, buf))
  verified-RawOrSame t none h = give_up-RawOrSame t
  verified-RawOrSame t (some buf) h = elim (Bool-cases (partly_changed buf)) [
    | inl e ↦ rw e (give_up-RawOrSame t)
    | inr e ↦ rw e (inl (refl, rw (h buf refl) (partly_changed-IsRaw buf e), refl))
  ]

  read-RawOrSame : (t : Tty) (gets : List Bool) → RawOrSame old (verified d old (got gets t))
  read-RawOrSame t [] = verified-RawOrSame t (some t.settings) (λ now e. ground arith)
  read-RawOrSame t (true ∷ rest) =
      verified-RawOrSame (record t { gets = rest }) (some t.settings) (λ now e. ground arith)
  read-RawOrSame t (false ∷ rest) =
      verified-RawOrSame (record t { gets = rest }) none (λ now e. absurd (ground arith))

  changed-RawOrSame :
      (t : Tty) (now : Option Termios)
      → t.settings ≡ old
      → RawOrSame old (changed d old (set_to now t))
  changed-RawOrSame t none same = inr (refl, same)
  changed-RawOrSame t (some now) same = read-RawOrSame (record t { settings = now }) t.gets

-- tty_raw returns 0 only with the terminal in raw mode, checked after the change, and with the
-- settings that it had in `save_termios`. In every other case, a change that was made in part
-- included, the terminal has the settings that it had before, if the driver can go back to them.
pub tty_raw-RawOrSame :
    (d : Driver) (t : Tty) → CanRestore d t.settings → RawOrSame t.settings (tty_raw d t)
unfolding tty_raw
tty_raw-RawOrSame d t restores = on t.gets refl
  where
    on : (gets : List Bool) → t.gets ≡ gets → RawOrSame t.settings (fetched d (got gets t))
    on [] e = changed-RawOrSame d restores t _ refl
    on (true ∷ rest) e = changed-RawOrSame d restores (record t { gets = rest }) _ refl
    on (false ∷ rest) e = inr (refl, refl)

-- tty_reset with what tty_raw saved gives the terminal the settings that it had, if the driver can
-- go back to them.
pub tty_reset-tty_raw :
    (d : Driver) (t : Tty) (saved : Termios)
    → CanRestore d t.settings
    → (tty_raw d t).ok ≡ true
    → (tty_raw d t).saved ≡ some saved
    → (((tty_reset d saved (tty_raw d t).tty).0).settings ≡ t.settings)
      × ((tty_reset d saved (tty_raw d t).tty).1 ≡ true)
unfolding tty_reset
tty_reset-tty_raw d t saved restores ok given = elim (tty_raw-RawOrSame d t restores) [
  | inl (yes_ok, raw, kept) ↦
      let same : saved ≡ t.settings = ground (arith, kept, given) in
      rw (same, restores (tty_raw d t).tty.settings) (refl, refl)
  | inr (not_ok, same) ↦ absurd (ground (arith, ok, not_ok))
]

-- A driver that makes every change lets tty_raw succeed, and the terminal then differs from
-- before in the named settings alone.
pub tty_raw-raw_settings :
    (d : Driver) (t : Tty)
    → ((now wanted : Termios) → d now wanted ≡ some wanted)
    → t.gets ≡ []
    → tty_raw d t ≡ record {
      tty = record t { settings = raw_settings t.settings };
      saved = some t.settings;
      ok = true;
    }
unfolding tty_raw
tty_raw-raw_settings d t obeys gets = rw (gets, obeys t.settings (raw_settings t.settings)) refl
