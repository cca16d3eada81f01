-- ===== src/PexecSingle/Quiet.antt =====
-- The balance of descriptors and ends while a blocking call watches its process, and the reads.
use pexec.Base.{ℕ, zero, suc, ◌+◌, ◌-◌, Bytes, Option, List, [], ◌∷◌, ◌≡◌, refl, arith}
use pexec.Error.{Error}
use pexec.Run.{Run, Ensures, Ensures-bind}
use pexec.SelectEvent.{EventReturn}
use pexec.System.{
  Event, Os, ReadResult, got, read_failed, eintr, eagain, echild, other_errno, was_read, on_stdout,
  on_stderr,
}
use pexec.System.Ledger.{opens, closes, finals}
use pexec.PexecSingle.State.{Pexec, ExecType, blocking, nonblocking, emit, process_error}
use pexec.PexecSingle.Reading.{
  read_failure, close_seen, after_rest, read_std_rest, loop_rest_io, after_close, read_close,
  after_read, read_std,
}
use pexec.PexecSingle.Closing.{held}

-- From a blocking `s`: what was opened is closed, held, or one of `extra` descriptors held elsewhere.
pub record Watched (n : ℕ) (s : Pexec) (extra : ℕ) (t : Pexec) : Type 0 where
  pub owns : opens n t.log ≡ closes n t.log + held n t + extra
  pub is_blocking : t.type ≡ blocking
  pub same_finals : finals t.log ≡ finals s.log

-- An entry of the log that says nothing of this.
abbrev pub IsSilent : Event → Type 0
IsSilent e =
    (n : ℕ) (log : List Event)
    → (opens n (e ∷ log) ≡ opens n log)
      × (closes n (e ∷ log) ≡ closes n log)
      × (finals (e ∷ log) ≡ finals log)

module _ (n : ℕ) (s : Pexec) (extra : ℕ) where
  abbrev pub W : Pexec → Type 0
  W = Watched n s extra

  abbrev pub Wr : EventReturn × Pexec → Type 0
  Wr r = W r.1

  pub emit-Watched : (e : Event) (t : Pexec) → IsSilent e → W t → W (emit e t)
  emit-Watched e t q w = ground (arith, q n t.log)

  pub process_error-Watched : (err : Error) (t : Pexec) → W t → W (process_error err t)
  unfolding process_error
  process_error-Watched err t w = ground arith

  read_failure-Watched :
      (kind : ExecType) (err : Error) (t : Pexec)
      → kind ≡ blocking
      → W t
      → Wr (read_failure kind err t)
  unfolding read_failure
  read_failure-Watched blocking err t e w = process_error-Watched err t w
  read_failure-Watched nonblocking err t e w = cc

  close_seen-Watched :
      (kind : ExecType) (t : Pexec) → kind ≡ blocking → W t → Wr (close_seen kind t)
  unfolding close_seen
  close_seen-Watched blocking t e w = w
  close_seen-Watched nonblocking t e w = cc

  module _ (os : Os) (buffer_size : ℕ) where
    after_rest-Watched :
        (r : ReadResult) (cb : Bytes → Event) (err : Error) (t : Pexec) (again : Run Pexec)
        → ((b : Bytes) → IsSilent (cb b))
        → W t
        → Ensures W again
        → Ensures W (after_rest os buffer_size r cb err t again)
    unfolding after_rest
    after_rest-Watched (read_failed eintr) cb err t again q w a = w
    after_rest-Watched (read_failed eagain) cb err t again q w a = w
    after_rest-Watched (read_failed echild) cb err t again q w a = process_error-Watched err t w
    after_rest-Watched (read_failed other_errno) cb err t again q w a =
        process_error-Watched err t w
    after_rest-Watched (got []) cb err t again q w a = a
    after_rest-Watched (got (b ∷ bs)) cb err t again q w a =
        emit-Watched (cb (b ∷ bs)) t (q (b ∷ bs)) w

    read_std_rest-Watched :
        (fuel : ℕ) (fd : Option ℕ) (cb : Bytes → Event) (err : Error) (t : Pexec)
        → ((b : Bytes) → IsSilent (cb b))
        → W t
        → Ensures W (read_std_rest os buffer_size fuel fd cb err t)
    unfolding read_std_rest
    read_std_rest-Watched zero fd cb err t q w = tt
    read_std_rest-Watched (suc fuel) fd cb err t q w =
        let r = os.read t.log fd (buffer_size - 1) in
        let w1 = emit-Watched (was_read fd r) t (λ n log. (refl, refl, refl)) w in
        after_rest-Watched r cb err (emit (was_read fd r) t) _ q w1
          (read_std_rest-Watched fuel fd cb err (emit (was_read fd r) t) q w1)

    pub loop_rest_io-Watched :
        (fuel : ℕ) (t : Pexec) → W t → Ensures W (loop_rest_io os buffer_size fuel t)
    unfolding loop_rest_io
    loop_rest_io-Watched fuel t w =
        Ensures-bind W W _ _
          (read_std_rest-Watched fuel t.pipe_stdout.read_end on_stdout _ t
            (λ b n log. (refl, refl, refl)) w)
          λ t1 w1.
            read_std_rest-Watched fuel t1.pipe_stderr.read_end on_stderr _ t1
              (λ b n log. (refl, refl, refl)) w1

    after_close-Watched :
        (r : ReadResult) (t : Pexec) (again : Run (EventReturn × Pexec))
        → W t
        → Ensures Wr again
        → Ensures Wr (after_close os buffer_size r t again)
    unfolding after_close
    after_close-Watched (read_failed eintr) t again w a = a
    after_close-Watched (read_failed eagain) t again w a =
        read_failure-Watched t.type _ t w.is_blocking w
    after_close-Watched (read_failed echild) t again w a =
        read_failure-Watched t.type _ t w.is_blocking w
    after_close-Watched (read_failed other_errno) t again w a =
        read_failure-Watched t.type _ t w.is_blocking w
    after_close-Watched (got bytes) t again w a = close_seen-Watched t.type t w.is_blocking w

    pub read_close-Watched :
        (fuel : ℕ) (t : Pexec) → W t → Ensures Wr (read_close os buffer_size fuel t)
    unfolding read_close
    read_close-Watched zero t w = tt
    read_close-Watched (suc fuel) t w =
        let r = os.read t.log t.pipe_close_watch.read_end (buffer_size - 1) in
        let e = was_read t.pipe_close_watch.read_end r in
        let w1 = emit-Watched e t (λ n log. (refl, refl, refl)) w in
        after_close-Watched r (emit e t) _ w1 (read_close-Watched fuel (emit e t) w1)

    after_read-Watched :
        (r : ReadResult) (cb : Bytes → Event) (err : Error) (t : Pexec)
        (again : Run (EventReturn × Pexec))
        → ((b : Bytes) → IsSilent (cb b))
        → W t
        → Ensures Wr again
        → Ensures Wr (after_read os buffer_size r cb err t again)
    unfolding after_read
    after_read-Watched (read_failed eintr) cb err t again q w a = a
    after_read-Watched (read_failed eagain) cb err t again q w a =
        read_failure-Watched t.type _ t w.is_blocking w
    after_read-Watched (read_failed echild) cb err t again q w a =
        read_failure-Watched t.type _ t w.is_blocking w
    after_read-Watched (read_failed other_errno) cb err t again q w a =
        read_failure-Watched t.type _ t w.is_blocking w
    after_read-Watched (got []) cb err t again q w a = w
    after_read-Watched (got (b ∷ bs)) cb err t again q w a =
        emit-Watched (cb (b ∷ bs)) t (q (b ∷ bs)) w

    pub read_std-Watched :
        (fuel : ℕ) (fd : Option ℕ) (cb : Bytes → Event) (err : Error) (t : Pexec)
        → ((b : Bytes) → IsSilent (cb b))
        → W t
        → Ensures Wr (read_std os buffer_size fuel fd cb err t)
    unfolding read_std
    read_std-Watched zero fd cb err t q w = tt
    read_std-Watched (suc fuel) fd cb err t q w =
        let r = os.read t.log fd (buffer_size - 1) in
        let w1 = emit-Watched (was_read fd r) t (λ n log. (refl, refl, refl)) w in
        after_read-Watched r cb err (emit (was_read fd r) t) _ q w1
          (read_std-Watched fuel fd cb err (emit (was_read fd r) t) q w1)
