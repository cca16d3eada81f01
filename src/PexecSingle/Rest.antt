-- ===== src/PexecSingle/Rest.antt =====
-- `read_std_rest`: which reads it does, and what becomes of the last of them.
use pexec.Base.{ℕ, zero, suc, ◌-◌, ◌<◌, arith, Bytes, Option, [], ◌∷◌, ◌≡◌, ◌≢◌, refl, sym, subst}
use pexec.Error.{Error, stdout_pipe_read_rest_error, stderr_pipe_read_rest_error}
use pexec.PexecSingle.Reading.{after_rest, read_std_rest, loop_rest_io}
use pexec.PexecSingle.State.{Pexec, emit, process_error}
use pexec.Run.{Run, Ensures, Ensures-bind, Ensures-imp, Returns, Returns-bind}
use pexec.System.{
  Event, Log, Os, Pipe, ReadResult, got, read_failed, eintr, eagain, echild, other_errno, was_read,
  on_error, on_stdout, on_stderr,
}

-- The log behind `n` reads that have returned nothing.
abbrev pub empties : Option ℕ → ℕ → Log → Log
empties fd zero log = log
empties fd (suc n) log = empties fd n (was_read fd (got []) ∷ log)

-- The log behind a read, with what the user is told of its answer: its bytes, an error, or nothing.
abbrev pub told : (Bytes → Event) → Error → ReadResult → Log → Log
told cb err (got bytes) log = cb bytes ∷ log
told cb err (read_failed eintr) log = log
told cb err (read_failed eagain) log = log
told cb err (read_failed echild) log = on_error err ∷ log
told cb err (read_failed other_errno) log = on_error err ∷ log

module _ (os : Os) (buffer_size : ℕ) where
  -- From the first log to the second: reads of `fd` that return nothing, one that returns something
  -- or fails, and what the user is told of that one.
  abbrev pub RestOf : Option ℕ → (Bytes → Event) → Error → Log → Log → Type 0
  RestOf fd cb err log log1 =
      (n : ℕ) × (r : ReadResult) × (os.read (empties fd n log) fd (buffer_size - 1) ≡ r)
      × (r ≢ got [])
      × (log1 ≡ told cb err r (was_read fd r ∷ empties fd n log))

  abbrev Read : Option ℕ → (Bytes → Event) → Error → Pexec → Pexec → Type 0
  Read fd cb err s t = RestOf fd cb err s.log t.log × (t.pipe_stderr ≡ s.pipe_stderr)

  after_rest-Read :
      (fd : Option ℕ) (cb : Bytes → Event) (err : Error) (r : ReadResult) (s : Pexec)
      (again : Run Pexec)
      → os.read s.log fd (buffer_size - 1) ≡ r
      → (r ≡ got [] → Ensures (Read fd cb err (emit (was_read fd (got [])) s)) again)
      → Ensures
          (Read fd cb err s)
          (after_rest os buffer_size r cb err (emit (was_read fd r) s) again)
  unfolding after_rest process_error
  after_rest-Read fd cb err (read_failed eintr) s again e k =
      ((0, read_failed eintr, e, λ h. cc, refl), refl)
  after_rest-Read fd cb err (read_failed eagain) s again e k =
      ((0, read_failed eagain, e, λ h. cc, refl), refl)
  after_rest-Read fd cb err (read_failed echild) s again e k =
      ((0, read_failed echild, e, λ h. cc, refl), refl)
  after_rest-Read fd cb err (read_failed other_errno) s again e k =
      ((0, read_failed other_errno, e, λ h. cc, refl), refl)
  after_rest-Read fd cb err (got (b ∷ bs)) s again e k = ((0, got (b ∷ bs), e, λ h. cc, refl), refl)
  after_rest-Read fd cb err (got []) s again e k =
      Ensures-imp (Read fd cb err (emit (was_read fd (got [])) s)) (Read fd cb err s) again (k refl)
        (λ t ((n, r, q, h, l), p). ((suc n, r, q, h, l), p))

  read_std_rest-Read :
      (fuel : ℕ) (fd : Option ℕ) (cb : Bytes → Event) (err : Error) (s : Pexec)
      → Ensures (Read fd cb err s) (read_std_rest os buffer_size fuel fd cb err s)
  unfolding read_std_rest
  read_std_rest-Read zero fd cb err s = tt
  read_std_rest-Read (suc fuel) fd cb err s =
      let r = os.read s.log fd (buffer_size - 1) in
      after_rest-Read fd cb err r s
        (read_std_rest os buffer_size fuel fd cb err (emit (was_read fd r) s)) refl
        (λ e.
          subst
            (λ r.
              Ensures (Read fd cb err (emit (was_read fd (got [])) s))
                (read_std_rest os buffer_size fuel fd cb err (emit (was_read fd r) s)))
            (sym e) (read_std_rest-Read fuel fd cb err (emit (was_read fd (got [])) s)))

  loop_rest_io-Rest :
      (fuel : ℕ) (s : Pexec)
      → Ensures
          (λ t.
            (log : Log) × RestOf s.pipe_stdout.read_end on_stdout stdout_pipe_read_rest_error s.log
              log
            × RestOf s.pipe_stderr.read_end on_stderr stderr_pipe_read_rest_error log t.log)
          (loop_rest_io os buffer_size fuel s)
  unfolding loop_rest_io
  loop_rest_io-Rest fuel s =
      Ensures-bind (Read s.pipe_stdout.read_end on_stdout stdout_pipe_read_rest_error s) _ _ _
        (read_std_rest-Read fuel s.pipe_stdout.read_end on_stdout stdout_pipe_read_rest_error s)
        λ t (a, p).
          Ensures-imp (Read t.pipe_stderr.read_end on_stderr stderr_pipe_read_rest_error t) _ _
            (read_std_rest-Read fuel t.pipe_stderr.read_end on_stderr stderr_pipe_read_rest_error t)
            λ u (b, q). (
              t.log,
              a,
              subst
                  (λ (w : Pipe).
                    RestOf w.read_end on_stderr stderr_pipe_read_rest_error t.log u.log)
                  p b,
            )

  -- Of any reads of a descriptor in a row, one of the first `fuel` returns something or fails.
  abbrev pub HasRest : ℕ → Type 0
  HasRest fuel =
      (fd : Option ℕ) (log : Log)
      → (n : ℕ) × (n < fuel) × (os.read (empties fd n log) fd (buffer_size - 1) ≢ got [])

  after_rest-Returns :
      (cb : Bytes → Event) (err : Error) (r : ReadResult) (s : Pexec) (again : Run Pexec)
      → (r ≡ got [] → Returns (λ _. Unit {0}) again)
      → Returns (λ _. Unit {0}) (after_rest os buffer_size r cb err s again)
  unfolding after_rest
  after_rest-Returns cb err (read_failed eintr) s again k = tt
  after_rest-Returns cb err (read_failed eagain) s again k = tt
  after_rest-Returns cb err (read_failed echild) s again k = tt
  after_rest-Returns cb err (read_failed other_errno) s again k = tt
  after_rest-Returns cb err (got (b ∷ bs)) s again k = tt
  after_rest-Returns cb err (got []) s again k = k refl

  read_std_rest-Returns :
      (fuel n : ℕ) (fd : Option ℕ) (cb : Bytes → Event) (err : Error) (s : Pexec)
      → n < fuel
      → os.read (empties fd n s.log) fd (buffer_size - 1) ≢ got []
      → Returns (λ _. Unit {0}) (read_std_rest os buffer_size fuel fd cb err s)
  unfolding read_std_rest
  read_std_rest-Returns zero n fd cb err s f q = absurd (omega (arith, f))
  read_std_rest-Returns (suc fuel) zero fd cb err s f q =
      let r = os.read s.log fd (buffer_size - 1) in
      after_rest-Returns cb err r (emit (was_read fd r) s)
        (read_std_rest os buffer_size fuel fd cb err (emit (was_read fd r) s)) (λ e. absurd (q e))
  read_std_rest-Returns (suc fuel) (suc n) fd cb err s f q =
      let r = os.read s.log fd (buffer_size - 1) in
      after_rest-Returns cb err r (emit (was_read fd r) s)
        (read_std_rest os buffer_size fuel fd cb err (emit (was_read fd r) s))
        (λ e.
          subst
            (λ r.
              Returns (λ _. Unit {0})
                (read_std_rest os buffer_size fuel fd cb err (emit (was_read fd r) s)))
            (sym e)
            (read_std_rest-Returns fuel n fd cb err (emit (was_read fd (got [])) s)
              (omega (arith, f)) q))

  loop_rest_io-Returns :
      (fuel : ℕ) (s : Pexec)
      → HasRest fuel
      → Returns (λ _. Unit {0}) (loop_rest_io os buffer_size fuel s)
  unfolding loop_rest_io
  loop_rest_io-Returns fuel s h =
      let (n, f, q) = h s.pipe_stdout.read_end s.log in
      Returns-bind (λ _. Unit {0}) (λ _. Unit {0}) _ _
        (read_std_rest-Returns fuel n s.pipe_stdout.read_end on_stdout stdout_pipe_read_rest_error s
          f q)
        λ t u.
          let (k, g, p) = h t.pipe_stderr.read_end t.log in
          read_std_rest-Returns fuel k t.pipe_stderr.read_end on_stderr stderr_pipe_read_rest_error
            t g p

  -- When the process has ended, what is read of the rest of its output, if the reads return: first
  -- standard output, then standard error; of each, reads that return nothing are repeated, and the
  -- first that returns something or fails is the last. The user gets the bytes that this one has
  -- returned as one piece, an error for a failure other than EINTR and EAGAIN, and nothing for
  -- those. However much the system holds, no pipe is read until it is empty. The reads return if of
  -- any reads of a descriptor in a row one of the first `fuel` returns something or fails.
  pub loop_rest_io_once :
      (fuel : ℕ) (s : Pexec)
      → Ensures
          (λ t.
            (log : Log) × RestOf s.pipe_stdout.read_end on_stdout stdout_pipe_read_rest_error s.log
              log
            × RestOf s.pipe_stderr.read_end on_stderr stderr_pipe_read_rest_error log t.log)
          (loop_rest_io os buffer_size fuel s)
        × (HasRest fuel → Returns (λ _. Unit {0}) (loop_rest_io os buffer_size fuel s))
  loop_rest_io_once fuel s = (loop_rest_io-Rest fuel s, λ h. loop_rest_io-Returns fuel s h)
