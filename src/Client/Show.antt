-- ===== src/Client/Show.antt =====
-- What `get` shows of the server's answer (client.c, cli_loop, cli_dump_cstring).
use sexpect.Base.{
  ℕ, zero, suc, ◌+◌, ◌-◌, ◌/◌, ◌%◌, Bool, ◌||◌, Option, none, some, List, [], ◌∷◌, ◌++◌, ltb,
  if◌then◌else◌, length, drop, take, codes, min,
}
use sexpect.Base.Int.{ℤ, pos, negsuc, signed32}
use sexpect.Tags.{
  tag_ptsname, tag_pid, tag_ppid, tag_ttl, tag_idletime, tag_exp_timeout, tag_autowait,
  tag_nonblock, tag_zombie_ttl, tag_expbuf,
}
use sexpect.Proto.Message.{Ttlv, null, node, get_raw, ttlv_find_child}
use sexpect.Escape.Defs.{dump_cstring}
use sexpect.Args.Options.{GetOpts}
use sexpect.Server.Process.{int_of, text_of}

-- `%d`, of at most ten digits.
unfoldable pub digits_of : ℕ → ℕ → List ℕ → List ℕ
digits_of zero n behind = behind
digits_of (suc fuel) n behind =
    let more = digits_of fuel (n / 10) ((b'0' + n % 10) ∷ behind) in
    if ltb n 10 then (b'0' + n) ∷ behind else more

unfoldable pub decimal : ℤ → List ℕ
unfolding digits_of
decimal (pos n) = digits_of 10 n []
decimal (negsuc n) = b'-' ∷ digits_of 10 (n + 1) []

-- One line, behind its label if everything is shown. `none` is a NULL pointer that is followed.
abbrev pub line : Bool → List ℕ → Option (List ℕ) → Option (List ℕ)
line labelled label none = none
line labelled label (some text) = some ((if labelled then label else []) ++ (text ++ (b'\n' ∷ [])))

abbrev pub number_line : Bool → List ℕ → Option ℕ → Option (List ℕ)
number_line labelled label none = none
number_line labelled label (some n) = line labelled label (some (decimal (signed32 n)))

-- A line that is asked for, in front of the later ones.
abbrev pub then_lines : Option (List ℕ) → Option (List ℕ) → Option (List ℕ)
then_lines none later = none
then_lines (some text) none = none
then_lines (some text) (some later) = some (text ++ later)

abbrev pub line_if : Bool → Option (List ℕ) → Option (List ℕ) → Option (List ℕ)
line_if asked text later = if asked then then_lines text later else later

-- cli_dump_cstring
abbrev pub cli_dump_cstring : List ℕ → List ℕ
cli_dump_cstring bytes =
    codes "-cstring -exact '"
    ++ (dump_cstring bytes ++ (codes "' # len=" ++ (decimal (pos (length bytes)) ++ (b'\n' ∷ []))))

-- The last bytes of the expect buffer, as many as were asked for.
abbrev pub last_bytes : ℕ → Ttlv → Option (List ℕ)
last_bytes asked null = none
last_bytes asked (node tag type len v child next) =
    let num = min asked len in some (cli_dump_cstring (take num (drop (len - num) (get_raw v))))

unfoldable pub show_info : GetOpts → Ttlv → Option (List ℕ)
unfolding decimal dump_cstring ttlv_find_child
show_info st msg =
    line_if (st.get_all || st.get_tty)
      (line st.get_all (codes "       TTY: ") (text_of (ttlv_find_child msg tag_ptsname)))
      (line_if (st.get_all || st.get_pid)
        (number_line st.get_all (codes " Child PID: ") (int_of (ttlv_find_child msg tag_pid)))
        (line_if (st.get_all || st.get_ppid)
          (number_line st.get_all (codes "Parent PID: ") (int_of (ttlv_find_child msg tag_ppid)))
          (line_if (st.get_all || st.get_ttl)
            (number_line st.get_all (codes "       TTL: ") (int_of (ttlv_find_child msg tag_ttl)))
            (line_if (st.get_all || st.get_idle)
              (number_line st.get_all (codes "      Idle: ")
                (int_of (ttlv_find_child msg tag_idletime)))
              (line_if (st.get_all || st.get_timeout)
                (number_line st.get_all (codes "   Timeout: ")
                  (int_of (ttlv_find_child msg tag_exp_timeout)))
                (line_if (st.get_all || st.get_autowait)
                  (number_line st.get_all (codes "  Autowait: ")
                    (int_of (ttlv_find_child msg tag_autowait)))
                  (line_if (st.get_all || st.get_nonblock)
                    (number_line st.get_all (codes "  Nonblock: ")
                      (int_of (ttlv_find_child msg tag_nonblock)))
                    (line_if st.get_all
                      (number_line st.get_all (codes "ZombieIdle: ")
                        (int_of (ttlv_find_child msg tag_zombie_ttl)))
                      (line_if (ltb 0 st.n_expbuf)
                        (last_bytes st.n_expbuf (ttlv_find_child msg tag_expbuf)) (some []))))))))))
