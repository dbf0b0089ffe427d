-- ===== src/Client/Get.antt =====
-- Proofs on what `get` shows of the server's settings (client.c, cli_loop; server.c,
-- serv_process_msg).
use sexpect.Base.{
  ℕ, ◌-◌, ◌^◌, ◌<◌, ◌≤◌, ◌≡◌, refl, Bool, true, false, ◌||◌, Option, some, List, [], ◌∷◌, ◌++◌, ltb,
  ◌==◌, if◌then◌else◌, arith, length, take, drop, c_string, codes, ap, ◌∙◌, take_all, drop-drop,
  append-nil, length-drop, min,
}
use sexpect.Base.Int.{ℤ, pos, signed32, pattern32}
use sexpect.Proto.Message.{
  get_int, get_raw, ttlv_new_int, ttlv_new_bool, ttlv_new_text, ttlv_new_raw, ttlv_new_struct,
  ttlv_append, ttlv_append_child, append_children, find_from, ttlv_find_sibling, ttlv_find_child,
}
use sexpect.Args.Options.{GetOpts}
use sexpect.Args.Number.{is_int}
use sexpect.Server.State.{Server}
use sexpect.Server.Process.{info, from_bool, max_expbuf_peek}
use sexpect.Client.Agree.{signed32-pattern32}
use sexpect.Client.Show.{decimal, line, number_line, line_if, cli_dump_cstring, show_info}

-- The values fit an int, and the terminal has a name without NUL bytes.
pub record IsShowable (s : Server) : Type 0 where
  pub ptsname : c_string s.env.ptsname ≡ s.env.ptsname
  pub pid : s.env.pid < 2 ^ 31
  pub ppid : s.env.ppid < 2 ^ 31
  pub ttl : is_int s.spawn.ttl ≡ true
  pub idle : is_int s.spawn.idle ≡ true
  pub timeout : is_int s.spawn.def_timeout ≡ true
  pub zombie_idle : is_int s.spawn.zombie_idle ≡ true

-- One line with a value.
abbrev pub value_line : Bool → Bool → List ℕ → List ℕ → List ℕ
value_line asked labelled label text =
    if asked then (if labelled then label else []) ++ (text ++ (b'\n' ∷ [])) else []

-- The last bytes of the expect buffer, as many as were asked for, and 4 KB at most.
abbrev pub tail_line : ℕ → List ℕ → List ℕ
tail_line asked expbuf =
    let num = min asked (min (length expbuf) max_expbuf_peek) in
    if ltb 0 asked then cli_dump_cstring (drop (length expbuf - num) expbuf) else []

-- What `get` is to show.
abbrev pub settings_text : GetOpts → Server → List ℕ
settings_text st s =
    value_line (st.get_all || st.get_tty) st.get_all (codes "       TTY: ") s.env.ptsname
    ++ (value_line (st.get_all || st.get_pid) st.get_all (codes " Child PID: ")
          (decimal (pos s.env.pid))
        ++ (value_line (st.get_all || st.get_ppid) st.get_all (codes "Parent PID: ")
              (decimal (pos s.env.ppid))
            ++ (value_line (st.get_all || st.get_ttl) st.get_all (codes "       TTL: ")
                  (decimal s.spawn.ttl)
                ++ (value_line (st.get_all || st.get_idle) st.get_all (codes "      Idle: ")
                      (decimal s.spawn.idle)
                    ++ (value_line (st.get_all || st.get_timeout) st.get_all (codes "   Timeout: ")
                          (decimal s.spawn.def_timeout)
                        ++ (value_line (st.get_all || st.get_autowait) st.get_all
                              (codes "  Autowait: ") (decimal (pos (from_bool s.spawn.autowait)))
                            ++ (value_line (st.get_all || st.get_nonblock) st.get_all
                                  (codes "  Nonblock: ")
                                  (decimal (pos (from_bool s.spawn.nonblock)))
                                ++ (value_line st.get_all st.get_all (codes "ZombieIdle: ")
                                      (decimal s.spawn.zombie_idle)
                                    ++ tail_line st.n_expbuf s.buffers.expbuf))))))))

text_line :
    (asked labelled : Bool) (label text : List ℕ) {o later : Option (List ℕ)} {rest : List ℕ}
    → o ≡ some text
    → later ≡ some rest
    → line_if asked (line labelled label o) later
      ≡ some (value_line asked labelled label text ++ rest)
text_line true labelled label text e f = rw (e, f) refl
text_line false labelled label text e f = f

int_text :
    (labelled : Bool) (label : List ℕ) (n : ℤ) (m : ℕ)
    → signed32 m ≡ n
    → number_line labelled label (some m) ≡ line labelled label (some (decimal n))
int_text labelled label n m g = ap (λ x. line labelled label (some (decimal x))) g

int_line :
    (asked labelled : Bool) (label : List ℕ) (n : ℤ) (m : ℕ) {o : Option ℕ}
    {later : Option (List ℕ)} {rest : List ℕ}
    → o ≡ some m
    → signed32 m ≡ n
    → later ≡ some rest
    → line_if asked (number_line labelled label o) later
      ≡ some (value_line asked labelled label (decimal n) ++ rest)
int_line asked labelled label n m {later = later} e g f =
    ap (λ p. line_if asked (number_line labelled label p) later) e
    ∙ (ap (λ t. line_if asked t later) (int_text labelled label n m g)
        ∙ text_line asked labelled label (decimal n) refl f)

stored_bool : (b : Bool) → (if from_bool b == 0 then 0 else 1) ≡ from_bool b
stored_bool true = refl
stored_bool false = refl

signed_bool : (b : Bool) → signed32 (from_bool b) ≡ pos (from_bool b)
signed_bool true = refl
signed_bool false = refl

signed_small : (n : ℕ) → n < 2 ^ 31 → signed32 n ≡ pos n
signed_small n h = ground arith

-- The end of what the server sends of the end of its expect buffer.
end_of_end :
    (m n : ℕ) (xs : List ℕ)
    → m ≤ n
    → n ≤ length xs
    → take m (drop (n - m) (take n (drop (length xs - n) xs))) ≡ drop (length xs - m) xs
end_of_end m n xs h k =
    ap (λ ys. take m (drop (n - m) ys))
      (take_all n (drop (length xs - n) xs) (omega (arith, length-drop (length xs - n) xs)))
    ∙ (ap (take m) (drop-drop (length xs - n) (n - m) (length xs - m) xs (omega arith))
        ∙ take_all m (drop (length xs - m) xs) (omega (arith, length-drop (length xs - m) xs)))

last_line :
    (asked : Bool) {t text : List ℕ}
    → t ≡ text
    → line_if asked (some (cli_dump_cstring t)) (some [])
      ≡ some (if asked then cli_dump_cstring text else [])
last_line true {text = text} e = rw e (ap some (append-nil (cli_dump_cstring text)))
last_line false e = refl

-- `get` shows the server's values as they are, each on a line of its own behind its label if all are
-- asked for, and the last bytes of the expect buffer, as many as were asked for and 4 KB at most:
-- what the client prints of the server's answer, for values that an int holds.
pub show_info-info :
    (st : GetOpts) (s : Server) → IsShowable s → show_info st (info s) ≡ some (settings_text st s)
unfolding show_info info ttlv_append_child append_children ttlv_append ttlv_new_int ttlv_new_text
    ttlv_new_bool ttlv_new_raw ttlv_new_struct ttlv_find_child ttlv_find_sibling find_from get_int
    get_raw
show_info-info st s k =
    text_line (st.get_all || st.get_tty) st.get_all (codes "       TTY: ") s.env.ptsname
      (ap some
        (ap c_string (take_all (length s.env.ptsname) s.env.ptsname (omega arith)) ∙ k.ptsname))
      (int_line (st.get_all || st.get_pid) st.get_all (codes " Child PID: ") (pos s.env.pid)
        s.env.pid refl (signed_small s.env.pid k.pid)
        (int_line (st.get_all || st.get_ppid) st.get_all (codes "Parent PID: ") (pos s.env.ppid)
          s.env.ppid refl (signed_small s.env.ppid k.ppid)
          (int_line (st.get_all || st.get_ttl) st.get_all (codes "       TTL: ") s.spawn.ttl
            (pattern32 s.spawn.ttl) refl (signed32-pattern32 s.spawn.ttl k.ttl)
            (int_line (st.get_all || st.get_idle) st.get_all (codes "      Idle: ") s.spawn.idle
              (pattern32 s.spawn.idle) refl (signed32-pattern32 s.spawn.idle k.idle)
              (int_line (st.get_all || st.get_timeout) st.get_all (codes "   Timeout: ")
                s.spawn.def_timeout (pattern32 s.spawn.def_timeout) refl
                (signed32-pattern32 s.spawn.def_timeout k.timeout)
                (int_line (st.get_all || st.get_autowait) st.get_all (codes "  Autowait: ")
                  (pos (from_bool s.spawn.autowait)) (from_bool s.spawn.autowait)
                  (ap some (stored_bool s.spawn.autowait)) (signed_bool s.spawn.autowait)
                  (int_line (st.get_all || st.get_nonblock) st.get_all (codes "  Nonblock: ")
                    (pos (from_bool s.spawn.nonblock)) (from_bool s.spawn.nonblock)
                    (ap some (stored_bool s.spawn.nonblock)) (signed_bool s.spawn.nonblock)
                    (int_line st.get_all st.get_all (codes "ZombieIdle: ") s.spawn.zombie_idle
                      (pattern32 s.spawn.zombie_idle) refl
                      (signed32-pattern32 s.spawn.zombie_idle k.zombie_idle)
                      (last_line (ltb 0 st.n_expbuf) (
                        end_of_end (min st.n_expbuf (min (length s.buffers.expbuf) max_expbuf_peek))
                          (min (length s.buffers.expbuf) max_expbuf_peek) s.buffers.expbuf
                          (omega arith) (omega arith)))))))))))
