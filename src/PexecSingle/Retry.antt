-- ===== src/PexecSingle/Retry.antt =====
-- The retries of a read that is interrupted.
use pexec.Base.{
  ℕ, zero, suc, ◌+◌, ◌-◌, ◌≤◌, Bytes, Option, [], ◌∷◌, ◌≡◌, ◌≢◌, ◌⊎◌, inl, inr, ap, refl, arith,
}
use pexec.Error.{Error}
use pexec.Run.{Run, done}
use pexec.SelectEvent.{EventReturn, stop_loop, skip_other_fd, nothing}
use pexec.System.{
  Event, Log, Os, ReadResult, got, read_failed, Errno, eintr, eagain, echild, other_errno, was_read,
  interrupted,
}
use pexec.PexecSingle.State.{Pexec, ExecType, blocking, nonblocking, emit}
use pexec.PexecSingle.Reading.{read_failure, after_read, read_std}

-- What a read that was not interrupted makes the loop do.
pub outcome : ExecType → ReadResult → EventReturn
outcome blocking (read_failed e) = stop_loop
outcome nonblocking (read_failed e) = nothing
outcome kind (got []) = skip_other_fd
outcome kind (got (b ∷ bytes)) = nothing

-- What it does to the object.
pub delivered : (Bytes → Event) → Error → ReadResult → Pexec → Pexec
delivered cb throw_err (read_failed e) s = (read_failure s.type throw_err s).1
delivered cb throw_err (got []) s = s
delivered cb throw_err (got (b ∷ bytes)) s = emit (cb (b ∷ bytes)) s

-- The log after `k` more reads that were interrupted.
pub retried : ℕ → Option ℕ → Log → Log
retried zero fd log = log
retried (suc k) fd log = retried k fd (was_read fd (read_failed eintr) ∷ log)

failure :
    (kind : ExecType) (e : Errno) (err : Error) (t : Pexec)
    → read_failure kind err t ≡ (outcome kind (read_failed e), (read_failure kind err t).1)
unfolding outcome read_failure
failure blocking e err t = refl
failure nonblocking e err t = refl

module _ (os : Os) (buffer_size : ℕ) where
  -- The system lets a read through after `limit` interruptions in a row.
  abbrev pub IsPatient : ℕ → Type 0
  IsPatient limit =
      (log : Log) (fd : Option ℕ) (size : ℕ)
      → limit ≤ interrupted log
      → os.read log fd size ≢ read_failed eintr

  uninterrupted :
      (r : ReadResult) (cb : Bytes → Event) (err : Error) (t : Pexec)
      (again : Run (EventReturn × Pexec))
      → r ≢ read_failed eintr
      → after_read os buffer_size r cb err t again ≡ done (outcome t.type r, delivered cb err r t)
  unfolding after_read delivered outcome
  uninterrupted (got []) cb err t again n = refl
  uninterrupted (got (b ∷ bs)) cb err t again n = refl
  uninterrupted (read_failed eintr) cb err t again n = absurd (n refl)
  uninterrupted (read_failed eagain) cb err t again n = ap done (failure t.type eagain err t)
  uninterrupted (read_failed echild) cb err t again n = ap done (failure t.type echild err t)
  uninterrupted (read_failed other_errno) cb err t again n =
      ap done (failure t.type other_errno err t)

  -- It returns, and does what the first read that was not interrupted, after `k` that were, says.
  pub Answers : Option ℕ → (Bytes → Event) → Error → Pexec → ℕ → Run (EventReturn × Pexec) → Type 0
  Answers fd cb err s k run =
      let log = retried k fd s.log in
      let r = os.read log fd (buffer_size - 1) in
      (r ≢ read_failed eintr)
      × (run ≡ done (outcome s.type r, delivered cb err r (record s { log = was_read fd r ∷ log })))

  is_eintr : (r : ReadResult) → (r ≡ read_failed eintr) ⊎ (r ≢ read_failed eintr)
  is_eintr (got b) = inr λ e. cc
  is_eintr (read_failed eintr) = inl refl
  is_eintr (read_failed eagain) = inr λ e. cc
  is_eintr (read_failed echild) = inr λ e. cc
  is_eintr (read_failed other_errno) = inr λ e. cc

  first :
      (fuel : ℕ) (fd : Option ℕ) (cb : Bytes → Event) (err : Error) (s : Pexec)
      → os.read s.log fd (buffer_size - 1) ≢ read_failed eintr
      → Answers fd cb err s 0 (read_std os buffer_size (suc fuel) fd cb err s)
  unfolding read_std Answers retried
  first fuel fd cb err s n = (n, uninterrupted (os.read s.log fd (buffer_size - 1)) cb err _ _ n)

  next :
      (k fuel : ℕ) (fd : Option ℕ) (cb : Bytes → Event) (err : Error) (s : Pexec)
      → os.read s.log fd (buffer_size - 1) ≡ read_failed eintr
      → Answers fd cb err
          (emit (was_read fd (read_failed eintr)) s)
          k
          (read_std os buffer_size fuel fd cb err (emit (was_read fd (read_failed eintr)) s))
      → Answers fd cb err s (suc k) (read_std os buffer_size (suc fuel) fd cb err s)
  unfolding read_std Answers retried after_read
  next k fuel fd cb err s e (n, r) = (n, rw (e, read_std) r)

  retry :
      (limit fuel : ℕ) (fd : Option ℕ) (cb : Bytes → Event) (err : Error) (s : Pexec)
      → IsPatient limit
      → limit ≤ fuel + interrupted s.log
      → (k : ℕ) × (k ≤ fuel)
        × Answers fd cb err s k (read_std os buffer_size (suc fuel) fd cb err s)
  retry limit zero fd cb err s p h =
      (0, omega arith, first zero fd cb err s (p s.log fd (buffer_size - 1) (omega arith)))
  retry limit (suc fuel) fd cb err s p h = elim (is_eintr (os.read s.log fd (buffer_size - 1))) [
    | inr n ↦ (0, omega arith, first (suc fuel) fd cb err s n)
    | inl e ↦
        let (k, b, a) =
          retry limit fuel fd cb err (emit (was_read fd (read_failed eintr)) s) p (omega arith) in
        (suc k, omega arith, next k (suc fuel) fd cb err s e a)
  ]

  -- If the system lets a read through after `limit` interruptions in a row, a read of the child's
  -- output returns within `limit` + 1 attempts: it repeats the read while it is interrupted, and
  -- then tells the loop and the user what the first other answer calls for.
  pub read_std-Answers :
      (limit : ℕ) (fd : Option ℕ) (cb : Bytes → Event) (err : Error) (s : Pexec)
      → IsPatient limit
      → (k : ℕ) × (k ≤ limit)
        × Answers fd cb err s k (read_std os buffer_size (suc limit) fd cb err s)
  read_std-Answers limit fd cb err s p = retry limit limit fd cb err s p (omega arith)
