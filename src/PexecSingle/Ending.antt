-- ===== src/PexecSingle/Ending.antt =====
-- When the callbacks of a blocking call return, and that news of the child's end stops the loop: the
-- promises of the system on which it rests, and each callback in turn.
use pexec.Base.{
  ℕ, zero, suc, ◌+◌, ◌-◌, ◌≤◌, ◌<◌, Bytes, Bool, true, ◌||◌, Option, some, [], ◌∷◌, ◌≡◌, ◌≢◌, refl,
  sym, ap, subst, arith, leq-cases, inl, inr, length,
}
use pexec.Error.{Error}
use pexec.Run.{Run, Returns}
use pexec.SelectEvent.{EventReturn, stop_loop, skip_other_fd}
use pexec.System.{
  Event, Log, ReadResult, got, read_failed, Errno, eintr, eagain, echild, other_errno, reaped,
  wait_failed, ready, select_failed, was_read, selects, interrupted,
}
use pexec.PexecSingle.State.{Pexec, blocking, emit, process_error}
use pexec.PexecSingle.Reading.{
  read_failure, close_seen, after_close, read_close, after_read, read_std,
}
use pexec.PexecSingle.Loop.{Setting}

-- What the system promises about the signal pipe `sig` and the loop's control pipe `control`: a call
-- is interrupted at most `limit` times in a row, `waitpid` with WNOHANG never is; a read of something
-- gives between one byte and what was asked for, since the object keeps the write ends of its pipes
-- open; a read of the control pipe fails only when interrupted; and the child ends: once `select`
-- has been called `n` times, the byte string of SIGCHLD is in the signal pipe, `select` says so, and
-- `waitpid` tells of the end of a process if it tells of a change.
pub record Cooperates (c : Setting) (sig control n limit : ℕ) : Type 0 where
  pub patient_read :
      (log : Log) (fd : Option ℕ) (size : ℕ)
      → limit ≤ interrupted log
      → c.os.read log fd size ≢ read_failed eintr
  pub patient_select : (log : Log) → limit ≤ interrupted log → c.os.select log ≢ select_failed eintr
  pub patient_wait : (log : Log) (pid : Option ℕ) → c.os.waitpid log pid ≢ wait_failed eintr
  pub some_bytes :
      (log : Log) (fd : Option ℕ) (size : ℕ) (bytes : Bytes)
      → 0 < size
      → c.os.read log fd size ≡ got bytes
      → (0 < length bytes) × (length bytes ≤ size)
  pub control_read :
      (log : Log) (e : Errno) → c.os.read log (some control) 1 ≡ read_failed e → e ≡ eintr
  pub signal_reported :
      (log : Log) (s : ℕ → Bool) → n ≤ selects log → c.os.select log ≡ ready s → s sig ≡ true
  pub signal_sent :
      (log : Log) (bytes : Bytes)
      → n ≤ selects log
      → c.os.read log (some sig) (length c.sigchld) ≡ got bytes
      → bytes ≡ c.sigchld
  pub child_ended :
      (log : Log) (pid : Option ℕ) (who status : ℕ)
      → n ≤ selects log
      → c.os.waitpid log pid ≡ reaped who status
      → (c.macros.wifsignaled status || c.macros.wifexited status) ≡ true

-- A blocking object whose signal pipe is read at `sig`, later than `s`.
pub record Later (sig : ℕ) (s t : Pexec) : Type 0 where
  pub is_blocking : t.type ≡ blocking
  pub at_signal : t.pipe_signal.read_end ≡ some sig
  pub not_less : selects s.log ≤ selects t.log

module _ (sig : ℕ) (s : Pexec) where
  pub was_read-Later :
      (fd : Option ℕ) (r : ReadResult) (t : Pexec)
      → Later sig s t
      → Later sig s (emit (was_read fd r) t)
  was_read-Later fd r t w = ground arith

  pub process_error-Later :
      (e : Error) (t : Pexec) → Later sig s t → Later sig s (process_error e t)
  unfolding process_error
  process_error-Later e t w = ground arith

module _ (c : Setting) (sig control n limit : ℕ) (h : Cooperates c sig control n limit) where
  open c use {os, macros, buffer_size, sigchld, fuel}

  -- An interrupted read leaves an attempt.
  pub left :
      (k : ℕ) (fd : Option ℕ) (size : ℕ) (log : Log)
      → os.read log fd size ≡ read_failed eintr
      → limit < suc k + interrupted log
      → (0 < k) × (limit < k + interrupted (was_read fd (os.read log fd size) ∷ log))
  left k fd size log e f = elim (leq-cases limit (interrupted log)) [
    | inl y ↦ absurd (h.patient_read log fd size y e)
    | inr y ↦
        let one = ap (λ r. interrupted (was_read fd r ∷ log)) e in
        (omega (arith, y, f), omega (arith, f, one))
  ]

  -- The loop goes on with the other descriptors, or stops.
  abbrev pub Result : Pexec → EventReturn × Pexec → Type 0
  Result s r = (r.0 ≢ skip_other_fd) × Later sig s r.1

  failed : (e : Error) (s t : Pexec) → Later sig s t → Result s (read_failure t.type e t)
  unfolding read_failure
  failed e s t w =
      subst (λ kind. Result s (read_failure kind e t)) (sym w.is_blocking)
        (blocked_failure, process_error-Later sig s e t w)
    where
      blocked_failure : stop_loop ≢ skip_other_fd
      blocked_failure e = cc

  after_close-Returns :
      (r : ReadResult) (s : Pexec) (t : Pexec) (again : Run (EventReturn × Pexec))
      → Later sig s t
      → (r ≡ read_failed eintr → Returns (Result s) again)
      → Returns (Result s) (after_close os buffer_size r t again)
  unfolding after_close close_seen
  after_close-Returns (got bytes) s t again w a =
      subst (λ kind. Result s (close_seen kind t)) (sym w.is_blocking) (λ e. cc, w)
  after_close-Returns (read_failed eintr) s t again w a = a refl
  after_close-Returns (read_failed eagain) s t again w a = failed _ s t w
  after_close-Returns (read_failed echild) s t again w a = failed _ s t w
  after_close-Returns (read_failed other_errno) s t again w a = failed _ s t w

  -- `read_close`
  pub read_close-Returns :
      (k : ℕ) (s t : Pexec)
      → Later sig s t
      → 0 < k
      → limit < k + interrupted t.log
      → Returns (Result s) (read_close os buffer_size k t)
  unfolding read_close
  read_close-Returns zero s t w z f = absurd (omega (arith, z))
  read_close-Returns (suc k) s t w z f =
      let fd = t.pipe_close_watch.read_end in
      after_close-Returns (os.read t.log fd (buffer_size - 1)) s _ _ (was_read-Later sig s fd _ t w)
        λ e.
          let (z1, f1) = left k fd (buffer_size - 1) t.log e f in
          read_close-Returns k s _ (was_read-Later sig s fd _ t w) z1 f1

  after_read-Returns :
      (r : ReadResult) (cb : Bytes → Event) (err : Error) (s t : Pexec)
      (again : Run (EventReturn × Pexec))
      → Later sig s t
      → ((bytes : Bytes) → r ≡ got bytes → 0 < length bytes)
      → ((bytes : Bytes) → selects (cb bytes ∷ t.log) ≡ selects t.log)
      → (r ≡ read_failed eintr → Returns (Result s) again)
      → Returns (Result s) (after_read os buffer_size r cb err t again)
  unfolding after_read
  after_read-Returns (got []) cb err s t again w b q a = absurd (omega (arith, b [] refl))
  after_read-Returns (got (x ∷ xs)) cb err s t again w b q a = (
    λ e. cc,
    record {
      is_blocking = w.is_blocking;
      at_signal = w.at_signal;
      not_less = omega (arith, q (x ∷ xs), w.not_less);
    },
  )
  after_read-Returns (read_failed eintr) cb err s t again w b q a = a refl
  after_read-Returns (read_failed eagain) cb err s t again w b q a = failed _ s t w
  after_read-Returns (read_failed echild) cb err s t again w b q a = failed _ s t w
  after_read-Returns (read_failed other_errno) cb err s t again w b q a = failed _ s t w

  -- `read_std`
  pub read_std-Returns :
      (k : ℕ) (fd : Option ℕ) (cb : Bytes → Event) (err : Error) (s t : Pexec)
      → 1 < buffer_size
      → ((log : Log) (bytes : Bytes) → selects (cb bytes ∷ log) ≡ selects log)
      → Later sig s t
      → 0 < k
      → limit < k + interrupted t.log
      → Returns (Result s) (read_std os buffer_size k fd cb err t)
  unfolding read_std
  read_std-Returns zero fd cb err s t m q w z f = absurd (omega (arith, z))
  read_std-Returns (suc k) fd cb err s t m q w z f =
      let r = os.read t.log fd (buffer_size - 1) in
      after_read-Returns r cb err s (emit (was_read fd r) t) _ (was_read-Later sig s fd r t w)
        (λ bytes e. (h.some_bytes t.log fd (buffer_size - 1) bytes (omega (arith, m)) e).0)
        (λ bytes. q (was_read fd r ∷ t.log) bytes)
        λ e.
          let (z1, f1) = left k fd (buffer_size - 1) t.log e f in
          read_std-Returns k fd cb err s (emit (was_read fd r) t) m q
            (was_read-Later sig s fd r t w) z1 f1
