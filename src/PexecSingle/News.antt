-- ===== src/PexecSingle/News.antt =====
-- When the callback of the signal pipe returns, and that it stops the loop once the child has ended.
use pexec.Base.{
  ℕ, zero, suc, ◌+◌, ◌-◌, ◌≤◌, ◌<◌, Bytes, Bool, true, false, Option, none, some, [], ◌++◌, ◌==◌,
  ◌≡◌, ◌≢◌, ◌⊎◌, refl, sym, ◌∙◌, ap, ap₂, arith, Bool-cases, inl, inr, length, length-append,
  same_bytes, same_bytes_refl, if◌then◌else◌,
}
use pexec.ProcStatus.Wait.{IsWait}
use pexec.Run.{Run, Returns, Returns-bind, Returns-when}
use pexec.SelectEvent.{EventReturn, stop_loop, skip_other_fd, nothing}
use pexec.System.{ReadResult, got, read_failed, was_read, selects}
use pexec.PexecSingle.State.{Pexec, emit}
use pexec.PexecSingle.Signals.{handle_sigchld}
use pexec.PexecSingle.Loop.{Setting, after_signal, read_signal, signal_read, on_signal}
use pexec.PexecSingle.Ending.{Cooperates, Later, was_read-Later, process_error-Later}
use pexec.PexecSingle.Reaping.{Killed, handle_sigchld-Returns}

module _ (c : Setting) (sig control n limit : ℕ) (h : Cooperates c sig control n limit)
    (waits : IsWait c.macros) where
  open c use {os, macros, buffer_size, sigchld, fuel}

  after_signal-Returns :
      (r : ReadResult) (read : Bytes) (s t : Pexec) (again : Bytes → Run (Option Bytes × Pexec))
      → Later sig s t
      → ((bytes : Bytes)
          → r ≡ got bytes
          → (length (read ++ bytes) == length sigchld) ≡ false
          → Returns (λ (r : Option Bytes × Pexec). Later sig s r.1) (again (read ++ bytes)))
      → Returns
          (λ (r : Option Bytes × Pexec). Later sig s r.1)
          (after_signal c r read (length sigchld) t again)
  unfolding after_signal
  after_signal-Returns (read_failed e) read s t again w a = process_error-Later sig s _ t w
  after_signal-Returns (got bytes) read s t again w a =
      elim (Bool-cases (length (read ++ bytes) == length sigchld)) [
        | inl e ↦ rw (e, after_signal) w
        | inr e ↦ rw (e, after_signal) (a bytes refl e)
      ]

  -- Each read brings the buffer nearer to its end.
  read_signal-Returns :
      (k : ℕ) (read : Bytes) (s t : Pexec)
      → Later sig s t
      → length read < length sigchld
      → length sigchld ≤ k + length read
      → Returns (λ (r : Option Bytes × Pexec). Later sig s r.1) (read_signal c k read t)
  unfolding read_signal
  read_signal-Returns zero read s t w b f = absurd (omega (arith, b, f))
  read_signal-Returns (suc k) read s t w b f =
      let fd = t.pipe_signal.read_end in
      let size = length sigchld - length read in
      let r = os.read t.log fd size in
      let w1 = was_read-Later sig s fd r t w in
      after_signal-Returns r read s (emit (was_read fd r) t) _ w1 λ bytes e g.
        let (least, most) = h.some_bytes t.log fd size bytes (omega (arith, b)) e in
        let sum = length-append read bytes in
        read_signal-Returns k (read ++ bytes) s (emit (was_read fd r) t) w1
          (ground (arith, sum, least, most, b, g)) (omega (arith, sum, least, f))

  abbrev Sent : Option Bytes × Pexec → Type 0
  Sent r = (r.0 ≡ none) ⊎ (r.0 ≡ some sigchld)

  first_read :
      (r : ReadResult) (t : Pexec) (again : Bytes → Run (Option Bytes × Pexec))
      → ((bytes : Bytes) → r ≡ got bytes → bytes ≡ sigchld)
      → Returns Sent (after_signal c r [] (length sigchld) t again)
  unfolding after_signal
  first_read (read_failed e) t again a = inl refl
  first_read (got bytes) t again a =
      let same = a bytes refl in
      let whole : (length bytes == length sigchld) ≡ true =
        ground (arith, ap (λ b. length b) same) in
      rw (whole, after_signal) (inr (ap some same))

  -- In time, the first read gives the whole `int`, or fails.
  read_signal-Sent :
      (k : ℕ) (t : Pexec)
      → t.pipe_signal.read_end ≡ some sig
      → n ≤ selects t.log
      → 0 < k
      → Returns Sent (read_signal c k [] t)
  unfolding read_signal
  read_signal-Sent zero t at late z = absurd (omega (arith, z))
  read_signal-Sent (suc k) t at late z =
      let fd = t.pipe_signal.read_end in
      let r = os.read t.log fd (length sigchld - 0) in
      let t1 = emit (was_read fd r) t in
      first_read r t1 (λ bytes. read_signal c k bytes t1)
        λ bytes e.
          let size : length sigchld - 0 ≡ length sigchld = omega arith in
          h.signal_sent t.log bytes late (sym (ap₂ (λ o k. os.read t.log o k) at size) ∙ e)

  unfoldable pub Signalled : Pexec → EventReturn × Pexec → Type 0
  Signalled s r = (r.0 ≢ skip_other_fd) × Later sig s r.1 × (n ≤ selects s.log → r.0 ≡ stop_loop)

  stop_or_nothing : (b : Bool) → (if b then stop_loop else nothing) ≢ skip_other_fd
  stop_or_nothing true e = cc
  stop_or_nothing false e = cc

  other_bytes :
      (bytes : Bytes)
      → same_bytes bytes sigchld ≡ false
      → (some bytes ≡ none) ⊎ (some bytes ≡ some sigchld)
      → ⊥
  other_bytes bytes e (inl q) = cc
  other_bytes bytes e (inr q) = cc (same_bytes_refl sigchld)

  signal_read-Returns :
      (o : Option Bytes) (s t : Pexec)
      → Later sig s t
      → 0 < fuel
      → (n ≤ selects s.log → (o ≡ none) ⊎ (o ≡ some sigchld))
      → Returns (Signalled s) (signal_read c o t)
  unfolding signal_read Signalled
  signal_read-Returns none s t w z g = (λ e. cc, w, λ _. refl)
  signal_read-Returns (some bytes) s t w z g = elim (Bool-cases (same_bytes bytes sigchld)) [
    | inl e ↦
        rw (e, signal_read)
          (Returns-bind (Killed c sig control n limit h waits s) (Signalled s)
            (handle_sigchld os macros buffer_size fuel t) _
            (handle_sigchld-Returns c sig control n limit h waits fuel s t z w)
            λ t1 k. (
              stop_or_nothing t1.proc_killed,
              k.later,
              λ late. ap (λ b. if b then stop_loop else nothing) (k.killed late),
            ))
    | inr e ↦
        rw (e, signal_read)
          (stop_or_nothing t.proc_killed, w, λ late. absurd (other_bytes bytes e (g late)))
  ]

  pub on_signal-Returns :
      (s : Pexec)
      → Later sig s s
      → length sigchld ≤ fuel
      → 0 < length sigchld
      → Returns (Signalled s) (on_signal c s)
  unfolding on_signal
  on_signal-Returns s w f z =
      let returns = read_signal-Returns fuel [] s s w z (omega (arith, f)) in
      Returns-bind _ (Signalled s) (read_signal c fuel [] s) _
        (Returns-when (n ≤ selects s.log) _ Sent (read_signal c fuel [] s) returns
          λ late. read_signal-Sent fuel s w.at_signal late (omega (arith, f, z)))
        λ r q. signal_read-Returns r.0 s r.1 q.0 (omega (arith, f, z)) q.1
