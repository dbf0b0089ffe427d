-- ===== src/Pty/Tty.antt =====
-- The terminal in raw mode (pty.c, tty_raw, tty_reset).
use sexpect.Base.{
  ℕ, Bool, true, false, not, ◌&&◌, ◌||◌, Option, none, some, List, [], ◌∷◌, ◌==◌, if◌then◌else◌,
}

-- The values of CSIZE.
pub data CharSize : Type 0 where
  cs5 cs6 cs7 cs8 : CharSize

-- struct termios: the flags that pty.c names, and `others` for all the rest.
pub record Termios : Type 0 where
  pub echo : Bool
  pub icanon : Bool
  pub iexten : Bool
  pub isig : Bool
  pub brkint : Bool
  pub icrnl : Bool
  pub inpck : Bool
  pub istrip : Bool
  pub ixon : Bool
  pub csize : CharSize
  pub parenb : Bool
  pub opost : Bool
  pub vmin : ℕ
  pub vtime : ℕ
  pub others : List ℕ

-- A terminal: its settings, and whether the next calls of tcgetattr succeed (they do where the
-- script has ended).
pub record Tty : Type 0 where
  pub settings : Termios
  pub gets : List Bool

-- The terminal's driver: what tcsetattr makes of the settings in force and those it is given, or
-- `none` where it fails. It may succeed with a part of the changes.
abbrev pub Driver : Type 0
Driver = Termios → Termios → Option Termios

abbrev pub got : List Bool → Tty → Tty × Option Termios
got [] t = (t, some t.settings)
got (ok ∷ rest) t = (record t { gets = rest }, if ok then some t.settings else none)

abbrev pub tcgetattr : Tty → Tty × Option Termios
tcgetattr t = got t.gets t

abbrev pub set_to : Option Termios → Tty → Tty × Bool
set_to none t = (t, false)
set_to (some settings) t = (record t { settings = settings }, true)

abbrev pub tcsetattr : Driver → Termios → Tty → Tty × Bool
tcsetattr d wanted t = set_to (d t.settings wanted) t

-- The changes that tty_raw makes to `buf`.
abbrev pub raw_settings : Termios → Termios
raw_settings buf = record buf {
  echo = false;
  icanon = false;
  iexten = false;
  isig = false;
  brkint = false;
  icrnl = false;
  inpck = false;
  istrip = false;
  ixon = false;
  csize = cs8;
  parenb = false;
  opost = false;
  vmin = 1;
  vtime = 0;
}

abbrev pub is_cs8 : CharSize → Bool
is_cs8 cs8 = true
is_cs8 _ = false

-- The test that only some of the changes were made.
abbrev pub partly_changed : Termios → Bool
partly_changed buf =
    (buf.echo || (buf.icanon || (buf.iexten || buf.isig)))
    || ((buf.brkint || (buf.icrnl || (buf.inpck || (buf.istrip || buf.ixon))))
        || (not (is_cs8 buf.csize && not buf.parenb)
            || (buf.opost || (not (buf.vmin == 1) || not (buf.vtime == 0)))))

-- What tty_raw leaves: the terminal, `save_termios` if it was written, and whether it returned 0.
pub record Switched : Type 0 where
  pub tty : Tty
  pub saved : Option Termios
  pub ok : Bool

abbrev pub give_up : Driver → Termios → Tty → Switched
give_up d saved t = record { tty = (tcsetattr d saved t).0; saved = some saved; ok = false }

abbrev pub verified : Driver → Termios → Tty × Option Termios → Switched
verified d saved (t, none) = give_up d saved t
verified d saved (t, some buf) =
    if partly_changed buf
    then give_up d saved t
    else record { tty = t; saved = some saved; ok = true }

abbrev pub changed : Driver → Termios → Tty × Bool → Switched
changed d saved (t, false) = record { tty = t; saved = some saved; ok = false }
changed d saved (t, true) = verified d saved (tcgetattr t)

abbrev pub fetched : Driver → Tty × Option Termios → Switched
fetched d (t, none) = record { tty = t; saved = none; ok = false }
fetched d (t, some buf) = changed d buf (tcsetattr d (raw_settings buf) t)

unfoldable pub tty_raw : Driver → Tty → Switched
tty_raw d t = fetched d (tcgetattr t)

-- tty_reset: whether it returned 0.
unfoldable pub tty_reset : Driver → Termios → Tty → Tty × Bool
tty_reset d termio t = tcsetattr d termio t
