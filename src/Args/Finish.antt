-- ===== src/Args/Finish.antt =====
-- The checks of getargs behind its loop, and reading what is to be sent (main.c; common.c,
-- str_rstrip).
use sexpect.Base.{
  ℕ, ◌+◌, Bool, true, false, ◌||◌, ◌&&◌, not, Option, none, some, List, [], ◌∷◌, ◌==◌, ltb,
  if◌then◌else◌, streq, codes, length, take, c_string,
}
use sexpect.Tags.{
  error_usage, error_sys, error_general, has_flag, pass_expect_exact, pass_expect_glob,
  pass_expect_ere, pass_expect_eof, pass_expect_newline,
}
use sexpect.Escape.Defs.{strunesc}
use sexpect.Glob.Defs.{glob2re}
use sexpect.Args.Options.{
  no_options, Command, help, version, chkerr, expect, interact, send, spawn, PassOpts, SendOpts,
  SpawnOpts,
}
use sexpect.Args.Result.{Result, ok, exits, ◌>>=◌}
use sexpect.Args.Number.{is_space}
use sexpect.Args.Step.{set_flag, clear_flag, is_empty}
use sexpect.Args.Other.{max_send}
use sexpect.Args.Scan.{scan}

-- What stands at the path of the socket.
pub data SockFile : Type 0 where
  absent unreadable socket other : SockFile

-- What the system tells: the numbers of signals, the environment, whether a file is a regular one
-- and its size, what opening a file and reading at most so many bytes of it gives, what reading a
-- file number gives, and the file at a path.
pub record Sys : Type 0 where
  pub signal_number : List ℕ → ℕ
  pub getenv : List ℕ → Option (List ℕ)
  pub stat : List ℕ → Option (Bool × ℕ)
  pub read_file : List ℕ → ℕ → Option (List ℕ)
  pub read_fd : ℕ → ℕ → Option (List ℕ)
  pub sock_file : List ℕ → SockFile

-- strlen(pattern) != len
unfoldable pub has_nul : List ℕ → Bool
has_nul [] = false
has_nul (c ∷ cs) = (c == 0) || has_nul cs

abbrev pub without_escapes : Option (List ℕ) → Result (List ℕ)
without_escapes none = exits error_usage
without_escapes (some p) = if has_nul p then exits error_usage else ok p

abbrev pub not_empty : List ℕ → Result (List ℕ)
not_empty p = if is_empty p then exits error_usage else ok p

-- The pattern behind -cstring, which must not be empty.
unfoldable pub plain_pattern : Bool → List ℕ → Result (List ℕ)
unfolding strunesc has_nul
plain_pattern cstring p = do q ← if cstring then without_escapes (strunesc p) else ok p; not_empty q

abbrev pub with_re : PassOpts → Option (List ℕ) → Result PassOpts
with_re st none = exits error_usage
with_re st (some re) = ok (record st {
  pattern = some re;
  expflags = set_flag pass_expect_ere (clear_flag pass_expect_glob st.expflags);
})

-- A glob becomes a regular expression.
unfoldable pub kind_of_pattern : PassOpts → List ℕ → Result PassOpts
unfolding glob2re
kind_of_pattern st p =
    if has_flag st.expflags pass_expect_glob
    then with_re st (glob2re p)
    else ok (record st { pattern = some p })

abbrev pub finish_pattern :
    PassOpts → Option (List ℕ) → (List ℕ → Result PassOpts) → Result PassOpts
finish_pattern st none f = ok st
finish_pattern st (some p) f = do q ← plain_pattern st.cstring p; f q

abbrev pub one_if : Bool → ℕ
one_if b = if b then 1 else 0

-- count1bits of the flags for eof, exact, ere and glob.
abbrev pub kinds : ℕ → ℕ
kinds flags =
    one_if (has_flag flags pass_expect_eof)
    + one_if (has_flag flags pass_expect_exact)
    + one_if (has_flag flags pass_expect_ere)
    + one_if (has_flag flags pass_expect_glob)

unfoldable pub finish_expect : PassOpts → Result PassOpts
unfolding plain_pattern kind_of_pattern
finish_expect st =
    if ltb 1 (kinds st.expflags)
    then exits error_usage
    else if has_flag st.expflags pass_expect_newline && not (has_flag st.expflags pass_expect_ere)
    then exits error_usage
    else finish_pattern st st.pattern (kind_of_pattern st)

unfoldable pub finish_interact : PassOpts → Result PassOpts
unfolding plain_pattern
finish_interact st = finish_pattern st st.pattern (λ p. ok (record st { pattern = some p }))

-- readfd
abbrev pub readfd : Option (List ℕ) → ℕ → Result (List ℕ)
readfd none limit = if limit == 0 then exits error_usage else exits error_sys
readfd (some text) limit = if limit == 0 then exits error_usage else ok (take limit text)

-- The limit of readfile for a file without one, from its size.
abbrev pub size_limit : Option (Bool × ℕ) → Result ℕ
size_limit none = exits error_sys
size_limit (some (regular, size)) =
    if not regular
    then exits error_usage
    else if ltb max_send size
    then exits error_usage
    else ok size

abbrev pub is_stdin : List ℕ → Bool
is_stdin fname = streq fname (codes "-")

-- What reading finds; a file is opened first.
abbrev pub read_named : Sys → List ℕ → ℕ → Result (List ℕ)
read_named sys fname limit =
    if is_stdin fname
    then readfd (sys.read_fd 0 limit) limit
    else opened (sys.read_file fname limit)
  where
    opened : Option (List ℕ) → Result (List ℕ)
    opened none = exits error_sys
    opened (some text) = readfd (some text) limit

unfoldable pub readfile : Sys → List ℕ → ℕ → Result (List ℕ)
unfolding streq
readfile sys fname limit = do
  n ←
      if limit == 0
      then (if is_stdin fname then exits error_usage else size_limit (sys.stat fname))
      else ok limit
  read_named sys fname n

abbrev pub put_char : ℕ → List ℕ → List ℕ
put_char c [] = if is_space c then [] else c ∷ []
put_char c (d ∷ ds) = c ∷ d ∷ ds

-- str_rstrip of a C string: white space at its end goes.
unfoldable pub str_rstrip : List ℕ → List ℕ
str_rstrip [] = []
str_rstrip (c ∷ cs) = put_char c (str_rstrip cs)

abbrev pub escaped : Bool → List ℕ → Result (List ℕ)
escaped true text = unescaped (strunesc text)
  where
    unescaped : Option (List ℕ) → Result (List ℕ)
    unescaped none = exits error_usage
    unescaped (some bs) = ok bs
escaped false text = ok text

abbrev pub env_text : Option (List ℕ) → Result (Option (List ℕ))
env_text none = exits error_usage
env_text (some text) = ok (some text)

abbrev pub is_given : Option (List ℕ) → Bool
is_given none = false
is_given (some text) = true

abbrev pub some_of : Result (List ℕ) → Result (Option (List ℕ))
some_of r = r >>= (λ text. ok (some text))

-- The data, from the source that is given.
abbrev pub source_text :
    Sys → SendOpts → Option (List ℕ) → Option (List ℕ) → Option (List ℕ) → Result (Option (List ℕ))
source_text sys st (some text) envvar filename = some_of (escaped st.cstring text)
source_text sys st none (some var) filename = env_text (sys.getenv var)
source_text sys st none none (some fname) = some_of (readfile sys fname st.limit)
source_text sys st none none none =
    if not st.has_fd
    then ok none
    else if st.limit == 0
    then exits error_usage
    else some_of (readfd (sys.read_fd st.fd st.limit) st.limit)

abbrev pub stripped : Bool → Option (List ℕ) → List ℕ
stripped strip none = []
stripped strip (some text) = if strip then str_rstrip (c_string text) else text

abbrev pub checked_size : SendOpts → List ℕ → Result SendOpts
checked_size st text =
    if ltb max_send (length text) then exits error_usage else ok (record st { payload = some text })

unfoldable pub finish_send : Sys → SendOpts → Result SendOpts
unfolding strunesc readfile str_rstrip
finish_send sys st =
    if ltb 1 st.sources
    then exits error_usage
    else if st.cstring && not (is_given st.payload)
    then exits error_usage
    else if st.strip && not (is_given st.filename || st.has_fd)
    then exits error_usage
    else source_text sys st st.payload st.envvar st.filename
      >>= (λ text. checked_size st (stripped st.strip text))

abbrev pub finish_spawn : SpawnOpts → List (List ℕ) → Result Command
finish_spawn st [] = exits error_usage
finish_spawn st (word ∷ words) = ok (spawn st)

-- The checks that a command has of its own. `help` and `version` print and exit.
unfoldable pub finish_command : Sys → Command → Result Command
unfolding finish_expect finish_interact finish_send
finish_command sys help = exits 0
finish_command sys version = exits 0
finish_command sys (expect st) = finish_expect st >>= (λ p. ok (expect p))
finish_command sys (interact st) = finish_interact st >>= (λ p. ok (interact p))
finish_command sys (send st) = finish_send sys st >>= (λ p. ok (send p))
finish_command sys (spawn st) = finish_spawn st st.argv
finish_command sys c = ok c

abbrev pub first_given : Option (List ℕ) → Option (List ℕ) → Option (List ℕ)
first_given none b = b
first_given (some a) b = some a

abbrev pub is_chkerr : Command → Bool
is_chkerr (chkerr st) = true
is_chkerr c = false

-- A file that exists at the path has to be a socket.
abbrev pub check_file : SockFile → Command → List ℕ → Result (Command × Option (List ℕ))
check_file absent c path = ok (c, some path)
check_file socket c path = ok (c, some path)
check_file unreadable c path = exits error_sys
check_file other c path = exits error_general

abbrev pub check_sock : Sys → Command → Option (List ℕ) → Result (Command × Option (List ℕ))
check_sock sys c none = if is_chkerr c then ok (c, none) else exits error_usage
check_sock sys c (some path) = check_file (sys.sock_file path) c path

abbrev pub finish : Sys → Option (List ℕ) → Option Command → Result (Command × Option (List ℕ))
finish sys path none = exits error_usage
finish sys path (some c) = do
  d ← finish_command sys c
  check_sock sys d (first_given path (sys.getenv (codes "SEXPECT_SOCKFILE")))

-- getargs: the command with its options, and the path of the socket.
unfoldable pub getargs : Sys → List (List ℕ) → Result (Command × Option (List ℕ))
unfolding scan finish_command
getargs sys argv = do o ← scan sys.signal_number false argv no_options; finish sys o.sockpath o.cmd
