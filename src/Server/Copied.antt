-- ===== src/Server/Copied.antt =====
-- Proofs on the buffers while serv_pass sends and matches (server.c, serv_pass, serv_expect).
use sexpect.Base.{
  length-c_string, ℕ, ◌+◌, ◌-◌, ◌≤◌, ◌≡◌, ◌≢◌, refl, Bool, true, false, not, ◌&&◌, ◌||◌, Option,
  none, some, List, ◌==◌, ltb, if◌then◌else◌, length, drop, arith, inl, inr, sym, ap, Bool-cases,
  c_string, subst, length-drop,
}
use sexpect.Proto.Message.{Ttlv, ttlv_new_raw}
use sexpect.Tags.{
  has_flag, pass_subcmd_interact, pass_subcmd_wait, tag_output, pass_expect_exact, pass_expect_glob,
  pass_expect_ere, pass_expect_nosub,
}
use sexpect.Server.Buffers.{Buffers, mark_sent}
use sexpect.Server.Invariant.{IsValid, IsReady}
use sexpect.Server.Lookback.{send_start}
use sexpect.Server.State.{Server, Conn, serv_msg_send}
use sexpect.Server.Expect.{
  Regex, serv_expect, expect_exact, expect_ere, consume, exact_found, ere_found, match_end,
}
use sexpect.Server.Pass.{Flow, go, done, crash, ◌>>=◌, send_from, send_if, send_output}

-- A part that did not crash: `P` where it goes on, `Q` where it returns.
pub data Runs (P Q : Server → Type 0) : Flow → Type 0 where
  goes : {s : Server} → P s → Runs P Q (go s)
  stops : {s : Server} → Q s → Runs P Q (done s)

module _ {P Q : Server → Type 0} where
  pub Runs-bind :
      {R : Server → Type 0} {m : Flow} {f : Server → Flow}
      → Runs P Q m
      → ((s : Server) → P s → Runs R Q (f s))
      → Runs R Q (m >>= f)
  Runs-bind (goes {s} h) k = k s h
  Runs-bind (stops h) k = stops h

  pub Runs-if :
      (b : Bool) {m n : Flow}
      → (b ≡ true → Runs P Q m)
      → (b ≡ false → Runs P Q n)
      → Runs P Q (if b then m else n)
  Runs-if true h k = h refl
  Runs-if false h k = k refl

  Runs-ne-crash : {m : Flow} → Runs P Q m → m ≢ crash
  Runs-ne-crash (goes h) = cc
  Runs-ne-crash (stops h) = cc

-- All old data was copied.
pub record IsSeen (b : Buffers) : Type 0 where
  pub valid : IsValid b
  pub seen : b.rawoffset + b.oldcnt ≤ b.expoffset

abbrev is_some : Option (List ℕ) → Bool
is_some none = false
is_some (some x) = true

-- The connection has a pattern, or is one of `interact` and `wait`.
abbrev pub copies : Conn → Bool
copies c =
    is_some c.pattern || ((c.subcmd == pass_subcmd_interact) || (c.subcmd == pass_subcmd_wait))

-- Before the output is copied: the buffers at the head of the round, whether or not it was sent.
pub data IsUncopied : Buffers → Type 0 where
  unsent : {b : Buffers} → IsReady b → IsUncopied b
  was_sent : {b : Buffers} → IsReady b → IsUncopied (mark_sent b)

pub record Uncopied (s : Server) : Type 0 where
  pub buffers : IsUncopied s.buffers
  pub conn : copies s.conn ≡ true

abbrev pub Seen : Server → Type 0
Seen s = IsSeen s.buffers

-- serv_msg_send leaves the buffers and the request alone.
pub serv_msg_send-keeps :
    (msg : Ttlv) (s : Server)
    → ((serv_msg_send msg s).0.buffers ≡ s.buffers)
      × ((serv_msg_send msg s).0.conn.pattern ≡ s.conn.pattern)
      × ((serv_msg_send msg s).0.conn.subcmd ≡ s.conn.subcmd)
unfolding serv_msg_send
serv_msg_send-keeps msg s = ground arith

pub IsReady-IsSeen : {b : Buffers} → IsReady b → IsSeen b
IsReady-IsSeen s = record { valid = s.valid; seen = s.seen }

send_from-Runs :
    (start : ℕ) (s : Server)
    → IsReady s.buffers
    → copies s.conn ≡ true
    → Runs Uncopied Seen (send_from start s)
unfolding send_from
send_from-Runs start s synced c =
    Runs-if (ltb 0 size)
      (λ h.
        Runs-if went
          (λ ok. goes (record {
            buffers = subst (λ b. IsUncopied (mark_sent b)) (sym keep) (was_sent synced);
            conn = ground (arith, serv_msg_send-keeps msg s);
          }))
          (λ failed. stops (subst IsSeen (sym keep) (IsReady-IsSeen synced))))
      (λ h. goes (record { buffers = unsent synced; conn = c }))
  where
    size : ℕ
    size = s.buffers.oldcnt + s.buffers.newcnt - start

    msg : Ttlv
    msg = ttlv_new_raw tag_output size (drop start s.buffers.rawbuf)

    went : Bool
    went = (serv_msg_send msg s).1

    keep : (serv_msg_send msg s).0.buffers ≡ s.buffers
    keep = (serv_msg_send-keeps msg s).0

pub send_output-Runs :
    (s : Server)
    → IsReady s.buffers
    → copies s.conn ≡ true
    → send_start s.conn.lookback s.buffers ≢ none
    → Runs Uncopied Seen (send_output s)
unfolding send_output
send_output-Runs s synced c begins = started (send_start s.conn.lookback s.buffers) begins
  where
    started : (o : Option ℕ) → o ≢ none → Runs Uncopied Seen (send_if o s)
    started none h = absurd (h refl)
    started (some start) h =
        send_from-Runs start (record s { conn = record (s.conn) { lookback = 0 } }) synced c

-- A shorter expect buffer is as sound.
pub consume-IsSeen :
    {b : Buffers} (rest : List ℕ)
    → IsSeen b
    → length rest ≤ length b.expbuf
    → IsSeen (record b { expbuf = rest })
consume-IsSeen {b} rest s le = omega (arith, s.valid, s.valid.kept, s.seen)

length-consume : (index : ℕ) (xs : List ℕ) → length (c_string (drop index xs)) ≤ length xs
length-consume index xs = omega (arith, length-c_string (drop index xs), length-drop index xs)

-- What a match leaves: the buffers but for a part of the expect buffer.
pub record Matched (s s' : Server) : Type 0 where
  pub rest : List ℕ
  pub shorter : length rest ≤ length s.buffers.expbuf
  pub left : s'.buffers ≡ record (s.buffers) { expbuf = rest }
  pub index : ℕ
  pub behind : rest ≡ c_string (drop index s.buffers.expbuf)

pub data MatchedIf (s : Server) : Option Server → Type 0 where
  no_match : MatchedIf s none
  match : {s' : Server} → Matched s s' → MatchedIf s (some s')

consume-Matched :
    (index : ℕ) (s s' : Server) → s'.buffers ≡ s.buffers → Matched s (consume index s')
consume-Matched index s s' e = record {
  rest = c_string (drop index s'.buffers.expbuf);
  shorter = rw e (length-consume index s.buffers.expbuf);
  left = ap (λ (b : Buffers). record b { expbuf = c_string (drop index s'.buffers.expbuf) }) e;
  index = index;
  behind = rw e refl;
}

exact_found-MatchedIf :
    (pattern : List ℕ) (s : Server) (found : Option ℕ) → MatchedIf s (exact_found pattern s found)
unfolding exact_found
exact_found-MatchedIf pattern s none = no_match
exact_found-MatchedIf pattern s (some i) = match (record {
  rest = c_string (drop (i + length pattern) s.buffers.expbuf);
  shorter = length-consume (i + length pattern) s.buffers.expbuf;
  left = refl;
  index = i + length pattern;
  behind = refl;
})

ere_found-MatchedIf :
    (s : Server) (groups : Option (List (Option (ℕ × ℕ)))) → MatchedIf s (ere_found s groups)
unfolding ere_found
ere_found-MatchedIf s none = no_match
ere_found-MatchedIf s (some groups) =
    match (elim (Bool-cases (has_flag s.conn.expflags pass_expect_nosub)) [
      | inl e ↦ rw e (consume-Matched (match_end groups) s s refl)
      | inr e ↦ rw e (consume-Matched (match_end groups) s _ refl)
    ])

MatchedIf-if :
    {s : Server} (b : Bool) {x y : Option Server}
    → MatchedIf s x
    → MatchedIf s y
    → MatchedIf s (if b then x else y)
MatchedIf-if true h k = h
MatchedIf-if false h k = k

pub serv_expect-MatchedIf :
    (regex : Regex) (pattern : List ℕ) (s : Server) → MatchedIf s (serv_expect regex pattern s)
unfolding serv_expect expect_exact expect_ere
serv_expect-MatchedIf regex pattern s =
    MatchedIf-if ((length s.buffers.expbuf == 0) && not s.ptm_open) no_match (
      MatchedIf-if (has_flag s.conn.expflags pass_expect_exact) (exact_found-MatchedIf pattern s _)
        (MatchedIf-if (has_flag s.conn.expflags pass_expect_glob) no_match (
          MatchedIf-if (has_flag s.conn.expflags pass_expect_ere) (ere_found-MatchedIf s _)
            no_match)))
