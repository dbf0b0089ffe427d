-- ===== src/System.antt =====
-- A process of the program as the system sees it, and how it ends (common.c, fatal, fatal_sys,
-- sig_handle).
use sexpect.Base.{ℕ, Bool, true, false, Option, none, some, List, ◌==◌, if◌then◌else◌, streq}
use sexpect.Tags.{error_sys}

-- What a descriptor stands for. `other` is anything that the program got from outside.
pub data File : Type 0 where
  null_device master slave stream client_stream logfile : File
  other : ℕ → File

-- What stands at a path: nothing, the socket of a server that is gone, that of a server that runs,
-- that of this program, a file that was created or emptied for the log, or another file.
pub data Entry : Type 0 where
  absent stale live log_file other_file : Entry
  bound : (mode : ℕ) (listening : Bool) → Entry

-- What fork(2) returns in this process.
pub data Fork : Type 0 where
  failed child : Fork
  parent : ℕ → Fork

-- The state that the system keeps for the process: its descriptors, the file system, whether the
-- working directory is the root, the mask of new files, whether it leads a session, its terminal's
-- size, the signals it ignores, whether SIGCHLD has its handler, and the variables it has set.
pub record Proc : Type 0 where
  pub table : ℕ → Option File
  pub disk : List ℕ → Entry
  pub at_root : Bool
  pub umask : ℕ
  pub leads : Bool
  pub winsize : Option (ℕ × ℕ)
  pub sighup_ignored : Bool
  pub sigpipe_ignored : Bool
  pub sigchld_handled : Bool
  pub term : Option (List ℕ)
  pub sockfile_set : Bool

-- How the process ends: with a code, as another program, or by an array that overflows or an assert
-- that fails.
pub data End : Type 0 where
  exited : ℕ → End
  executed : List (List ℕ) → End
  overflowed aborted : End

pub data Out {ℓ} (A : Type ℓ) : Type ℓ where
  ok : A → Out A
  ends : End → Proc → Out A

infixl 5 ◌>>=◌
abbrev pub ◌>>=◌ {ℓ κ} : {A : Type ℓ} {B : Type κ} → Out A → (A → Out B) → Out B
ok a >>= f = f a
ends e p >>= f = ends e p

-- fatal
abbrev pub fatal : {A : Type 0} → ℕ → Proc → Out A
fatal rcode p = ends (exited rcode) p

-- fatal_sys
abbrev pub fatal_sys : {A : Type 0} → Proc → Out A
fatal_sys p = fatal error_sys p

-- A call that fails ends the program by fatal_sys.
abbrev pub or_fatal : Bool → Proc → Out Proc
or_fatal succeeds p = if succeeds then ok p else fatal_sys p

-- A call that gives a value, or fails.
abbrev pub value_or_fatal : {A : Type 0} → Option A → Proc → Out A
value_or_fatal none p = fatal_sys p
value_or_fatal (some a) p = ok a

-- The descriptor table after open, close and dup2.
abbrev pub with_file : ℕ → Option File → (ℕ → Option File) → ℕ → Option File
with_file fd file table = λ n. if n == fd then file else table n

abbrev pub open_fd : ℕ → File → Proc → Proc
open_fd fd file p = record p { table = with_file fd (some file) p.table }

abbrev pub close_fd : ℕ → Proc → Proc
close_fd fd p = record p { table = with_file fd none p.table }

abbrev pub dup2 : ℕ → ℕ → Proc → Proc
dup2 fd onto p = record p { table = with_file onto (p.table fd) p.table }

-- A file's entry after bind, listen and unlink.
abbrev pub with_entry : List ℕ → Entry → (List ℕ → Entry) → List ℕ → Entry
with_entry path entry disk = λ q. if streq q path then entry else disk q

-- dup2, where its failure ends the program.
abbrev pub dup2_or_fatal : Bool → ℕ → ℕ → Proc → Out Proc
dup2_or_fatal succeeds fd onto p = if succeeds then ok (dup2 fd onto p) else fatal_sys p

-- What holds where a part of the program comes to its end, and where it ends the process.
pub data Holds {ℓ} {A : Type ℓ} (P : A → Type 0) (Q : End → Proc → Type 0) : Out A → Type ℓ where
  came : {a : A} → P a → Holds P Q (ok a)
  ended : {e : End} {p : Proc} → Q e p → Holds P Q (ends e p)

pub Holds-bind :
    {A B : Type 0} {P : A → Type 0} {R : B → Type 0} {Q : End → Proc → Type 0} (m : Out A)
    {f : A → Out B}
    → Holds P Q m
    → ((a : A) → P a → Holds R Q (f a))
    → Holds R Q (m >>= f)
Holds-bind (ok a) (came h) k = k a h
Holds-bind (ends e p) (ended h) k = ended h

-- What holds where a part of the program comes to its end.
abbrev pub IfOk {ℓ} : {A : Type ℓ} → (A → Type 0) → Out A → Type ℓ
IfOk P m = Holds P (λ e p. Unit) m

-- The same with less asked.
pub Holds-map :
    {A : Type 0} {P R : A → Type 0} {Q S : End → Proc → Type 0} {m : Out A}
    → ((a : A) → P a → R a)
    → ((e : End) (p : Proc) → Q e p → S e p)
    → Holds P Q m
    → Holds R S m
Holds-map f g (came {a} h) = came (f a h)
Holds-map f g (ended {e} {p} h) = ended (g e p h)

pub Holds-if :
    {A : Type 0} {P : A → Type 0} {Q : End → Proc → Type 0} (b : Bool) {x y : Out A}
    → Holds P Q x
    → Holds P Q y
    → Holds P Q (if b then x else y)
Holds-if true h k = h
Holds-if false h k = k

pub Holds-and :
    {A : Type 0} {P R : A → Type 0} {Q S : End → Proc → Type 0} {m : Out A}
    → Holds P Q m
    → Holds R S m
    → Holds (λ a. P a × R a) (λ e p. Q e p × S e p) m
Holds-and (came h) (came k) = came (h, k)
Holds-and (ended h) (ended k) = ended (h, k)
