-- ===== src/Args/Runnable.antt =====
-- Proofs on the checks that end getargs (main.c).
use sexpect.Base.{
  ℕ, ◌^◌, ◌<◌, ◌≤◌, ◌≡◌, ◌≢◌, refl, Bool, true, false, not, ◌&&◌, ◌||◌, Option, none, some, List,
  [], ◌∷◌, if◌then◌else◌, ltb, arith, length, codes, subst, sym,
}
use sexpect.Tags.{
  has_flag, pass_expect_glob, pass_expect_ere, pass_expect_newline, pass_subcmd_interact,
  pass_subcmd_expect, error_usage,
}
use sexpect.Args.Result.{Result, ok, exits}
use sexpect.Args.Options.{
  no_options, Command, help, version, close, chkerr, expect, interact, wait, expect_out, get, kill,
  send, set, spawn, unknown, PassOpts, SendOpts, SpawnOpts,
}
use sexpect.Args.Step.{set_flag, clear_flag}
use sexpect.Args.Other.{max_send}
use sexpect.Args.Scan.{scan}
use sexpect.Glob.Defs.{glob2re}
use sexpect.Args.Finish.{
  Sys, SockFile, absent, unreadable, socket, other, kinds, finish_expect, finish_interact,
  finish_pattern, kind_of_pattern, with_re, plain_pattern, finish_send, source_text, stripped,
  checked_size, finish_spawn, finish_command, is_chkerr, check_file, check_sock, first_given,
  is_given, finish, getargs,
}
use sexpect.Args.StartNumbers.{IsSpawning}
use sexpect.Args.Accepted.{IsSound}
use sexpect.Args.PassNumbers.{IsPass}
use sexpect.Args.Scanned.{Gives, gives, quit, Gives-bind, IsBetween, scan-Gives}

-- A pattern that is not a glob any more.
abbrev pub IsNoGlob : ℕ → Option (List ℕ) → Type 0
IsNoGlob flags none = Unit
IsNoGlob flags (some pattern) = has_flag flags pass_expect_glob ≡ false

-- What `expect` asks: one kind of pattern at most.
pub record IsExpect (st : PassOpts) : Type 0 where
  pub numbers : IsPass pass_subcmd_expect st
  pub one_kind : kinds st.expflags ≤ 1
  pub no_glob : IsNoGlob st.expflags st.pattern

-- A text that a message to the server can carry.
abbrev pub IsPayload : Option (List ℕ) → Type 0
IsPayload none = ⊥
IsPayload (some text) = length text ≤ max_send

-- The options that the client starts with.
abbrev pub IsRunnable : Command → Type 0
IsRunnable help = ⊥
IsRunnable version = ⊥
IsRunnable (expect st) = IsExpect st
IsRunnable (send st) = IsPayload st.payload
IsRunnable (spawn st) = IsSpawning st × (st.argv ≢ [])
IsRunnable c = IsSound c

to_ere-kinds :
    (flags : ℕ)
    → flags < 2 ^ 8
    → has_flag flags pass_expect_glob ≡ true
    → kinds flags ≤ 1
    → kinds (set_flag pass_expect_ere (clear_flag pass_expect_glob flags)) ≤ 1
to_ere-kinds flags h g k = ground arith

to_ere-no_glob :
    (flags : ℕ)
    → flags < 2 ^ 8
    → has_flag (set_flag pass_expect_ere (clear_flag pass_expect_glob flags)) pass_expect_glob
      ≡ false
to_ere-no_glob flags h = ground arith

to_ere-lt :
    (flags : ℕ)
    → flags < 2 ^ 8
    → set_flag pass_expect_ere (clear_flag pass_expect_glob flags) < 2 ^ 8
to_ere-lt flags h = ground arith

-- What is left behind a check that ends the program.
Gives-unless :
    {A : Type 0} {P : A → Type 0} (b : Bool) (code : ℕ) {r : Result A}
    → (b ≡ false → Gives P r)
    → Gives P (if b then exits code else r)
Gives-unless true code h = quit
Gives-unless false code h = h refl

module _ {st : PassOpts} (p : IsPass pass_subcmd_expect st) (k : kinds st.expflags ≤ 1) where
  with_re-Gives :
      has_flag st.expflags pass_expect_glob ≡ true
      → (re : Option (List ℕ)) → Gives IsExpect (with_re st re)
  with_re-Gives g none = quit
  with_re-Gives g (some re) = gives (record {
    numbers = record {
      sub = p.sub;
      timeout = p.timeout;
      lookback = p.lookback;
      flags = to_ere-lt st.expflags p.flags;
    };
    one_kind = to_ere-kinds st.expflags p.flags g k;
    no_glob = to_ere-no_glob st.expflags p.flags;
  })

  kind_of_pattern-Gives : (pattern : List ℕ) → Gives IsExpect (kind_of_pattern st pattern)
  unfolding kind_of_pattern
  kind_of_pattern-Gives pattern = on (has_flag st.expflags pass_expect_glob) refl
    where
      on :
          (b : Bool)
          → has_flag st.expflags pass_expect_glob ≡ b
          → Gives IsExpect (
              if b then with_re st (glob2re pattern) else ok (record st { pattern = some pattern }))
      on true g = with_re-Gives g (glob2re pattern)
      on false g = gives (record {
        numbers = record {
          sub = p.sub;
          timeout = p.timeout;
          lookback = p.lookback;
          flags = p.flags;
        };
        one_kind = k;
        no_glob = g;
      })

ltb_no : (m n : ℕ) → ltb m n ≡ false → n ≤ m
ltb_no m n e = ground arith

Gives-any : {A : Type 0} (r : Result A) → Gives (λ a. Unit) r
Gives-any (ok a) = gives tt
Gives-any (exits code) = quit

finish_pattern-Gives :
    {P : PassOpts → Type 0} (st : PassOpts) (pattern : Option (List ℕ))
    (f : List ℕ → Result PassOpts)
    → (pattern ≡ none → P st)
    → ((text : List ℕ) → Gives P (f text))
    → Gives P (finish_pattern st pattern f)
finish_pattern-Gives st none f h k = gives (h refl)
finish_pattern-Gives st (some pattern) f h k =
    Gives-bind (plain_pattern st.cstring pattern) (Gives-any _) (λ text u. k text)

finish_expect-Gives :
    (st : PassOpts) → IsPass pass_subcmd_expect st → Gives IsExpect (finish_expect st)
unfolding finish_expect
finish_expect-Gives st p = Gives-unless (ltb 1 (kinds st.expflags)) error_usage λ few.
    Gives-unless
      (has_flag st.expflags pass_expect_newline && not (has_flag st.expflags pass_expect_ere))
      error_usage
      λ line.
        finish_pattern-Gives st st.pattern (kind_of_pattern st)
          (λ e. record { numbers = p; one_kind = ltb_no _ _ few; no_glob = rw e tt })
          (λ text. kind_of_pattern-Gives p (ltb_no _ _ few) text)

finish_interact-Gives :
    (st : PassOpts)
    → IsPass pass_subcmd_interact st
    → Gives (IsPass pass_subcmd_interact) (finish_interact st)
unfolding finish_interact
finish_interact-Gives st p =
    finish_pattern-Gives st st.pattern _ (λ e. p)
      (λ text.
        gives (record { sub = p.sub; timeout = p.timeout; lookback = p.lookback; flags = p.flags }))

checked_size-Gives :
    (st : SendOpts) (text : List ℕ) → Gives (λ s. IsPayload s.payload) (checked_size st text)
checked_size-Gives st text =
    Gives-unless (ltb max_send (length text)) error_usage λ fits. gives (ltb_no _ _ fits)

finish_send-Gives :
    (sys : Sys) (st : SendOpts) → Gives (λ s. IsPayload s.payload) (finish_send sys st)
unfolding finish_send
finish_send-Gives sys st = Gives-unless (ltb 1 st.sources) error_usage λ one.
    Gives-unless (st.cstring && not (is_given st.payload)) error_usage λ given.
      Gives-unless (st.strip && not (is_given st.filename || st.has_fd)) error_usage λ source.
        Gives-bind (source_text sys st st.payload st.envvar st.filename) (Gives-any _)
          (λ text u. checked_size-Gives st (stripped st.strip text))

cons-ne-nil : {word : List ℕ} {words : List (List ℕ)} → word ∷ words ≢ []
cons-ne-nil h = absurd (ground arith)

finish_spawn-Gives :
    (st : SpawnOpts) (argv : List (List ℕ))
    → st.argv ≡ argv
    → IsSpawning st
    → Gives IsRunnable (finish_spawn st argv)
finish_spawn-Gives st [] e p = quit
finish_spawn-Gives st (word ∷ words) e p = gives (p, subst (λ a. a ≢ []) (sym e) cons-ne-nil)

finish_command-Gives :
    (sys : Sys) (c : Command) → IsSound c → Gives IsRunnable (finish_command sys c)
unfolding finish_command
finish_command-Gives sys help s = quit
finish_command-Gives sys version s = quit
finish_command-Gives sys close s = gives s
finish_command-Gives sys (chkerr st) s = gives s
finish_command-Gives sys (expect st) s =
    Gives-bind (finish_expect st) (finish_expect-Gives st s) (λ p h. gives h)
finish_command-Gives sys (interact st) s =
    Gives-bind (finish_interact st) (finish_interact-Gives st s) (λ p h. gives h)
finish_command-Gives sys (wait st) s = gives s
finish_command-Gives sys (expect_out index) s = gives s
finish_command-Gives sys (get st) s = gives s
finish_command-Gives sys (kill signal) s = gives s
finish_command-Gives sys (send st) s =
    Gives-bind (finish_send sys st) (finish_send-Gives sys st) (λ p h. gives h)
finish_command-Gives sys (set st) s = gives s
finish_command-Gives sys (spawn st) s = finish_spawn-Gives st st.argv refl s
finish_command-Gives sys (unknown word) s = gives s

abbrev pub IsReady : Command × Option (List ℕ) → Type 0
IsReady r = IsRunnable r.0

check_file-Gives :
    (f : SockFile) (c : Command) (path : List ℕ)
    → IsRunnable c
    → Gives IsReady (check_file f c path)
check_file-Gives absent c path h = gives h
check_file-Gives socket c path h = gives h
check_file-Gives unreadable c path h = quit
check_file-Gives other c path h = quit

check_sock-Gives :
    (sys : Sys) (c : Command) (path : Option (List ℕ))
    → IsRunnable c
    → Gives IsReady (check_sock sys c path)
check_sock-Gives sys c (some path) h = check_file-Gives (sys.sock_file path) c path h
check_sock-Gives sys c none h = on (is_chkerr c)
  where
    on : (b : Bool) → Gives IsReady (if b then ok (c, none) else exits error_usage)
    on true = gives h
    on false = quit

finish-Gives :
    (sys : Sys) (path : Option (List ℕ)) (c : Option Command)
    → IsBetween c
    → Gives IsReady (finish sys path c)
finish-Gives sys path none b = quit
finish-Gives sys path (some c) b =
    Gives-bind (finish_command sys c) (finish_command-Gives sys c b)
      (λ d h. check_sock-Gives sys d (first_given path (sys.getenv (codes "SEXPECT_SOCKFILE"))) h)

-- The command that getargs leaves is one that the program can run: a timeout is an int that is -1
-- or more; the times after which a server ends are ints that are not negative, but for that of a
-- zombie, which is any int; a lookback and an index are ints that are not negative; a signal and the
-- code of `chkerr` are ints; `get` shows 4096 bytes of the buffer at most; `expect` asks for at most one kind of pattern and its
-- pattern is not a glob any more; what `send` sends is there and no longer than the limit; `spawn`
-- names a program to start. The numbers of signals have to fit an int.
pub getargs-IsRunnable :
    (sys : Sys) (argv : List (List ℕ))
    → ((name : List ℕ) → sys.signal_number name < 2 ^ 31)
    → Gives IsReady (getargs sys argv)
unfolding getargs
getargs-IsRunnable sys argv small =
    Gives-bind (scan sys.signal_number false argv no_options)
      (scan-Gives sys.signal_number small false argv _ (record { sound = tt }))
      (λ o b. finish-Gives sys o.sockpath o.cmd b.sound)
