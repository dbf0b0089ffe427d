-- ===== src/Args/Other.antt =====
-- The arguments of the other commands (main.c, getargs).
use sexpect.Base.{
  ℕ, ◌+◌, Bool, true, false, ◌||◌, Option, none, some, List, [], ◌∷◌, ◌==◌, ltb, if◌then◌else◌,
  str1of, codes,
}
use sexpect.Base.Int.{ℤ, pos, negsuc}
use sexpect.Tags.{error_usage}
use sexpect.Args.Options.{ChkerrOpts, GetOpts, SendOpts, SetOpts, SpawnOpts}
use sexpect.Args.Result.{Result, ok, exits}
use sexpect.Args.Number.{unsigned, arg2int, arg2uint}
use sexpect.Args.Signal.{name2sig}
use sexpect.Args.Step.{
  choose, Step, more, more_next, stop, quits, unexpected, nextarg, next_int, next_uint,
  at_least_minus_one, at_least_zero, is_option, is_empty, opt_timeout, opt_autowait, opt_nonblock,
  opt_idle, opt_ttl,
}

unfoldable pub chkerr_arg : List ℕ → List (List ℕ) → ChkerrOpts → Step ChkerrOpts
unfolding next_uint
chkerr_arg arg rest st =
    choose arg
      ((
        (codes "-errno" ∷ codes "-err" ∷ codes "-no" ∷ codes "-code" ∷ []),
        next_uint rest (λ n. record st { errcode = pos n }),
      )
        ∷ ((codes "-is" ∷ []), nextarg rest (λ next. more_next (record st { cmpto = some next })))
        ∷ [])
      (unexpected)

unfoldable pub expout_arg : List ℕ → List (List ℕ) → ℕ → Step ℕ
unfolding next_uint
expout_arg arg rest index =
    choose arg (((codes "-index" ∷ codes "-i" ∷ []), next_uint rest (λ n. n)) ∷ []) (unexpected)

-- MAX_EXPBUF_PEEK
abbrev pub max_peek : ℕ
max_peek = 4096

abbrev pub peek : GetOpts → Result ℤ → Step GetOpts
peek st (exits code) = quits code
peek st (ok (negsuc n)) = quits error_usage
peek st (ok (pos n)) =
    if (n == 0) || ltb max_peek n then quits error_usage else more_next (record st { n_expbuf = n })

-- One option of `get`, which clears `get_all`.
unfoldable pub get_one : List ℕ → List (List ℕ) → GetOpts → Step GetOpts
unfolding arg2int
get_one arg rest st =
    choose arg
      (((codes "-pid" ∷ []), more (record st { get_pid = true }))
        ∷ ((codes "-ppid" ∷ []), more (record st { get_ppid = true }))
        ∷ ((codes "-tty" ∷ codes "-pty" ∷ codes "-pts" ∷ []), more (record st { get_tty = true }))
        ∷ (opt_timeout, more (record st { get_timeout = true }))
        ∷ (opt_nonblock, more (record st { get_nonblock = true }))
        ∷ (opt_autowait, more (record st { get_autowait = true }))
        ∷ (opt_ttl, more (record st { get_ttl = true }))
        ∷ (opt_idle, more (record st { get_idle = true }))
        ∷ (
          (codes "-expect-buf" ∷ codes "-expbuf" ∷ []),
          nextarg rest (λ next. peek st (arg2int next)),
        )
        ∷ [])
      (unexpected)

unfoldable pub get_arg : List ℕ → List (List ℕ) → GetOpts → Step GetOpts
unfolding get_one
get_arg arg rest st =
    if st.got_one
    then quits error_usage
    else choose arg
        (((codes "-all" ∷ codes "-a" ∷ []), more (record st { got_one = true; get_all = true }))
          ∷ [])
        (get_one arg rest (record st { got_one = true; get_all = false }))

-- The regular expression ^-[0-9]+$, and the number behind the dash.
abbrev pub dash_number : List ℕ → Option ℕ
dash_number [] = none
dash_number (c ∷ cs) = if c == b'-' then unsigned cs else none

abbrev pub behind_dash : List ℕ → List ℕ
behind_dash [] = []
behind_dash (c ∷ cs) = cs

abbrev pub kill_number : Result ℕ → Step ℤ
kill_number (ok n) = more (pos n)
kill_number (exits code) = quits code

abbrev pub kill_name : Option ℕ → Step ℤ
kill_name none = quits error_usage
kill_name (some n) = more (pos n)

abbrev pub kill_option : (List ℕ → ℕ) → List ℕ → Option ℕ → Step ℤ
kill_option number arg (some n) = kill_number (arg2uint (behind_dash arg))
kill_option number arg none =
    if is_option arg then kill_name (name2sig number (behind_dash arg)) else unexpected

unfoldable pub kill_arg : (List ℕ → ℕ) → List ℕ → List (List ℕ) → ℤ → Step ℤ
unfolding unsigned arg2uint name2sig
kill_arg number arg rest signal = kill_option number arg (dash_number arg)

-- PASS_MAX_SEND
abbrev pub max_send : ℕ
max_send = 1024

abbrev pub set_limit : SendOpts → Result ℕ → Step SendOpts
set_limit st (exits code) = quits code
set_limit st (ok n) =
    if (n == 0) || ltb max_send n then quits error_usage else more_next (record st { limit = n })

abbrev pub one_source : SendOpts → SendOpts
one_source st = record st { sources = st.sources + 1 }

abbrev pub with_payload : List ℕ → SendOpts → SendOpts
with_payload text st = record (one_source st) { payload = some text }

-- What follows `--`: one argument at most.
abbrev pub behind_dashes : SendOpts → List (List ℕ) → Step SendOpts
behind_dashes st [] = stop (one_source st)
behind_dashes st (text ∷ []) = stop (with_payload text st)
behind_dashes st (text ∷ other ∷ rest) = unexpected

abbrev pub send_text : List ℕ → SendOpts → Option (List ℕ) → Step SendOpts
send_text arg st none = stop (with_payload arg st)
send_text arg st (some text) = unexpected

-- The text to send ends the loop: what follows it is not looked at.
unfoldable pub send_arg : List ℕ → List (List ℕ) → SendOpts → Step SendOpts
unfolding next_uint arg2uint
send_arg arg rest st =
    choose arg
      (((codes "-cstring" ∷ codes "-cstr" ∷ codes "-c" ∷ []), more (record st { cstring = true }))
        ∷ ((codes "-cr" ∷ codes "-enter" ∷ []), more (record st { enter = true }))
        ∷ ((codes "-strip" ∷ []), more (record st { strip = true }))
        ∷ (
          (codes "-env" ∷ codes "-var" ∷ []),
          nextarg rest (λ next. more_next (record (one_source st) { envvar = some next })),
        )
        ∷ (
          (codes "-file" ∷ codes "-f" ∷ []),
          nextarg rest (λ next. more_next (record (one_source st) { filename = some next })),
        )
        ∷ (
          (codes "-fd" ∷ []),
          next_uint rest (λ n. record (one_source st) { has_fd = true; fd = n }),
        )
        ∷ ((codes "-limit" ∷ []), nextarg rest (λ next. set_limit st (arg2uint next)))
        ∷ ((codes "--" ∷ []), behind_dashes st rest)
        ∷ [])
      (if is_option arg then quits error_usage else send_text arg st st.payload)

abbrev pub true_words : List (List ℕ)
true_words = codes "1" ∷ codes "on" ∷ codes "yes" ∷ codes "y" ∷ codes "true" ∷ []

abbrev pub false_words : List (List ℕ)
false_words = codes "0" ∷ codes "off" ∷ codes "no" ∷ codes "n" ∷ codes "false" ∷ []

unfoldable pub next_bool {ℓ} : {A : Type ℓ} → List (List ℕ) → (Bool → A) → Step A
unfolding str1of
next_bool rest f = nextarg rest (λ next.
    if str1of next true_words
    then more_next (f true)
    else if str1of next false_words
    then more_next (f false)
    else unexpected)

unfoldable pub set_arg : List ℕ → List (List ℕ) → SetOpts → Step SetOpts
unfolding next_int next_bool
set_arg arg rest st =
    choose arg
      ((opt_autowait, next_bool rest (λ b. record st { set_autowait = true; autowait = b }))
        ∷ (opt_nonblock, next_bool rest (λ b. record st { set_nonblock = true; nonblock = b }))
        ∷ (
          opt_timeout,
          next_int rest (λ n. record st { set_timeout = true; timeout = at_least_minus_one n }),
        )
        ∷ (opt_ttl, next_int rest (λ n. record st { set_ttl = true; ttl = at_least_zero n }))
        ∷ (opt_idle, next_int rest (λ n. record st { set_idle = true; idle = at_least_zero n }))
        ∷ [])
      (unexpected)

abbrev pub set_term : SpawnOpts → List ℕ → Step SpawnOpts
set_term st next =
    if is_empty next then quits error_usage else more_next (record st { term = some next })

-- The first word that is no option begins the command to run.
unfoldable pub spawn_arg : List ℕ → List (List ℕ) → SpawnOpts → Step SpawnOpts
unfolding next_int
spawn_arg arg rest st =
    choose arg
      (((codes "-nohup" ∷ []), more (record st { nohup = true }))
        ∷ (opt_autowait, more (record st { autowait = true }))
        ∷ (opt_nonblock, more (record st { nonblock = true }))
        ∷ ((codes "-close-on-exit" ∷ codes "-cloexit" ∷ []), more (record st { cloexit = true }))
        ∷ ((codes "-term" ∷ codes "-T" ∷ []), nextarg rest (set_term st))
        ∷ (opt_timeout, next_int rest (λ n. record st { def_timeout = at_least_minus_one n }))
        ∷ (opt_ttl, next_int rest (λ n. record st { ttl = at_least_zero n }))
        ∷ (opt_idle, next_int rest (λ n. record st { idle = at_least_zero n }))
        ∷ (
          (codes "-logfile" ∷ codes "-logf" ∷ codes "-log" ∷ []),
          nextarg rest (λ next. more_next (record st { logfile = some next })),
        )
        ∷ ((codes "-append" ∷ []), more (record st { append = true }))
        ∷ (
          (codes "-zombie-idle"
              ∷ codes "-z-idle"
              ∷ codes "-z"
              ∷ codes "-zombie-ttl"
              ∷ codes "-zttl"
              ∷ []),
          next_int rest (λ n. record st { zombie_idle = n }),
        )
        ∷ [])
      (if is_option arg then quits error_usage else stop (record st { argv = arg ∷ rest }))
