-- ===== src/Startup/Ends.antt =====
-- Proofs on serv_main as a whole (server.c).
use sexpect.Base.{
  ℕ, ◌≡◌, ◌≢◌, ◌≤◌, refl, Bool, true, false, some, List, [], ◌∷◌, if◌then◌else◌, arith, streq, All,
  Bool-cases, inl, inr, subst, ap, ◌∙◌, length, le→ltb,
}
use sexpect.Args.Options.{SpawnOpts}
use sexpect.System.{
  absent, bound, Entry, Proc, End, exited, aborted, overflowed, Out, ok, ends, Holds, came,
  client_stream, stream, open_fd,
}
use sexpect.Server.Buffers.{serv_init}
use sexpect.Server.Invariant.{serv_init-IsValid}
use sexpect.Server.State.{Server, Env}
use sexpect.Server.Expect.{Regex}
use sexpect.Server.AtHead.{IsPlainReady, AtHead}
use sexpect.Server.LoopSafe.{serv_loop-ne-crashed}
use sexpect.Server.Loop.{Ready, Round, next, left, crashed, serv_loop}
use sexpect.Startup.Defs.{
  Calls, Started, first_server, start_server, behind_loop, serv_main, set_entry, log_opened,
  unlinked,
}
use sexpect.Startup.Serving.{Serving, logged, start_server-Serving}

Holds-ok :
    {A : Type 0} {P : A → Type 0} {Q : End → Proc → Type 0} (m : Out A) (a : A)
    → m ≡ ok a
    → Holds P Q m
    → P a
Holds-ok {A} {P} (ok b) a e (came h) = let same : b ≡ a = cc in subst P (same) h
Holds-ok (ends x p) a e h = absurd (ground arith)

first_server-AtHead :
    (c : Calls) (env : Env) (st : SpawnOpts) → st.nonblock ≡ false → AtHead (first_server c env st)
unfolding first_server serv_init
first_server-AtHead c env st blocking = record {
  synced = record { valid = serv_init-IsValid; seen = omega arith; trimmed = omega arith };
  clean = tt;
  copying = λ p. absurd (ground (arith, p));
  blocking = blocking;
}

behind_loop-aborted :
    (c : Calls) (s : Started) (r : Round) (q : Proc)
    → behind_loop c s r ≡ ends aborted q
    → r ≡ crashed
behind_loop-aborted c s (next l) q e = absurd (ground (arith, e))
behind_loop-aborted c s (left server) q e = absurd (ground (arith, e))
behind_loop-aborted c s crashed q e = refl

streq_sound : (s t : List ℕ) → streq s t ≡ true → s ≡ t
unfolding streq
streq_sound [] [] e = refl
streq_sound [] (y ∷ t) e = absurd (ground arith)
streq_sound (x ∷ s) [] e = absurd (ground arith)
streq_sound (x ∷ s) (y ∷ t) e = let rest = streq_sound s t in ground (arith, rest)

streq-disk : (disk : List ℕ → Entry) (a b : List ℕ) → streq a b ≡ true → disk a ≡ disk b
streq-disk disk a b e = ap disk (streq_sound a b e)

module _ (c : Calls) (regex : Regex) (rounds : List Ready) (env : Env) (debug : Bool)
    (path : List ℕ) (st : SpawnOpts) (p : Proc) where
  -- A server whose loop comes to its end exits with code 0. Its socket is gone, or still there if
  -- the last unlink fails; every other path is as it was before the server started, but the
  -- logfile's, which was created or emptied if it was asked for without -append and opened. realpath
  -- has to give the name of the same file, and the process has not yet gone to the root when it
  -- starts.
  pub serv_main-left :
      (s : Started) (server : Server)
      → p.at_root ≡ false
      → ((full : List ℕ) → c.realpath ≡ some full → full ≡ c.names path)
      → start_server c env debug path st p ≡ ok s
      → serv_loop regex rounds (next (record { server = s.server; exits = 0 })) ≡ left server
      → (q : Proc) × (serv_main c regex rounds env debug path st p ≡ ends (exited 0) q)
        × ((file : List ℕ)
            → q.disk file ≡ (
                if streq file (c.names path)
                then (if c.removes then absent else bound 448 true)
                else logged c st p.disk file))
  unfolding serv_main
  serv_main-left s server here names starts leaves =
      let h =
        Holds-ok (start_server c env debug path st p) s starts
          (start_server-Serving c env debug path st p here) in
      (
        if c.removes then set_entry c s.sockpath absent s.proc else s.proc,
        rw (starts, leaves) refl,
        λ file. removed h file c.removes,
      )
    where
      removed :
          Serving c env path st (logged c st p.disk) s
          → (file : List ℕ) (removes : Bool)
          → (if removes then set_entry c s.sockpath absent s.proc else s.proc).disk file ≡ (
              if streq file (c.names path)
              then (if removes then absent else bound 448 true)
              else logged c st p.disk file)
      removed h file true = elim (Bool-cases (streq file (c.names path))) [
        | inl e ↦ rw (h.at_root, names s.sockpath h.full, e) refl
        | inr e ↦ rw (h.at_root, names s.sockpath h.full, e) (h.others file e)
      ]
      removed h file false = elim (Bool-cases (streq file (c.names path))) [
        | inl e ↦ rw e (streq-disk s.proc.disk file (c.names path) e ∙ h.mine)
        | inr e ↦ rw e (h.others file e)
      ]

  -- A server that was not started with -nonblock and gets to its loop never fails an assert there,
  -- if the child writes no NUL bytes and the requests are plain.
  pub serv_main-ne-aborted :
      (s : Started)
      → p.at_root ≡ false
      → st.nonblock ≡ false
      → All IsPlainReady rounds
      → start_server c env debug path st p ≡ ok s
      → (q : Proc) → serv_main c regex rounds env debug path st p ≢ ends aborted q
  unfolding serv_main
  serv_main-ne-aborted s here blocking plain starts q h =
      let at_loop =
        Holds-ok (start_server c env debug path st p) s starts
          (start_server-Serving c env debug path st p here) in
      serv_loop-ne-crashed regex rounds (record { server = s.server; exits = 0 }) plain
        (rw at_loop.first (first_server-AtHead c env st blocking))
        (behind_loop-aborted c s _ q (rw starts at h))

-- A path that does not fit sun_path overflows it, once no server answers there and a socket is
-- made.
pub start_server-overflowed :
    (c : Calls) (env : Env) (debug : Bool) (path : List ℕ) (st : SpawnOpts) (p : Proc)
    (fd listening : ℕ)
    → c.connects ≡ false
    → c.probe ≡ some fd
    → c.socket ≡ some listening
    → c.sun_path ≤ length path
    → (q : Proc) × (start_server c env debug path st p ≡ ends overflowed q)
unfolding start_server
start_server-overflowed c env debug path st p fd listening quiet probe socket long = (
  unlinked c path
      (open_fd listening stream (log_opened c st.append st.logfile (open_fd fd client_stream p)).1),
  rw (quiet, probe, socket, le→ltb (length path) c.sun_path long) refl,
)
