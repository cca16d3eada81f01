-- ===== src/PexecSingle/Complete.antt =====
-- A blocking call of `exec`, from its beginning to its end.
use pexec.Base.{
  ℕ, zero, suc, ◌-◌, ◌<◌, Bytes, Bool, true, false, Option, [], ◌∷◌, ◌≡◌, refl, sym, subst, arith,
  length, if◌then◌else◌,
}
use pexec.Error.{Error}
use pexec.ProcStatus.Wait.{IsWait}
use pexec.Run.{Run, done, Ensures, Returns, Returns-bind, Returns-done}
use pexec.System.{
  Event, Log, ReadResult, got, read_failed, eintr, eagain, echild, other_errno, on_stdout,
  on_stderr, was_read,
}
use pexec.System.Ledger.{opens, closes, finals}
use pexec.PexecSingle.State.{Pexec, blocking, new_pexec, emit}
use pexec.PexecSingle.Reading.{after_rest, read_std_rest, loop_rest_io, stopped}
use pexec.PexecSingle.Signals.{reset_sigchld_signal_handler}
use pexec.PexecSingle.Loop.{Setting, loop_io}
use pexec.PexecSingle.Exec.{prepare, announce, finish, supervise, start, exec}
use pexec.PexecSingle.Closing.{IsClosed}
use pexec.PexecSingle.Ending.{Cooperates}
use pexec.PexecSingle.Ends.{Reads, loop_io-Returns}
use pexec.PexecSingle.Failure.{begun}
use pexec.PexecSingle.NoLeak.{exec-no_leak}
use pexec.PexecSingle.Prompt.{Suffices}

module _ (c : Setting) (sig control n limit : ℕ) (h : Cooperates c sig control n limit)
    (f : Suffices c n limit) (waits : IsWait c.macros) where
  open c use {os, macros, buffer_size, sigchld, slot, fuel}

  abbrev Any : Pexec → Type 0
  Any t = Unit

  after_rest-Returns :
      (r : ReadResult) (cb : Bytes → Event) (err : Error) (t : Pexec) (again : Run Pexec)
      → ((bytes : Bytes) → r ≡ got bytes → 0 < length bytes)
      → Returns Any (after_rest os buffer_size r cb err t again)
  unfolding after_rest
  after_rest-Returns (got []) cb err t again b = absurd (omega (arith, b [] refl))
  after_rest-Returns (got (x ∷ xs)) cb err t again b = tt
  after_rest-Returns (read_failed eintr) cb err t again b = tt
  after_rest-Returns (read_failed eagain) cb err t again b = tt
  after_rest-Returns (read_failed echild) cb err t again b = tt
  after_rest-Returns (read_failed other_errno) cb err t again b = tt

  -- A last read is not repeated, since no read is empty.
  read_std_rest-Returns :
      (k : ℕ) (fd : Option ℕ) (cb : Bytes → Event) (err : Error) (t : Pexec)
      → 0 < k
      → Returns Any (read_std_rest os buffer_size k fd cb err t)
  unfolding read_std_rest
  read_std_rest-Returns zero fd cb err t z = absurd (omega (arith, z))
  read_std_rest-Returns (suc k) fd cb err t z =
      let r = os.read t.log fd (buffer_size - 1) in
      after_rest-Returns r cb err (emit (was_read fd r) t) _
        λ bytes e. (h.some_bytes t.log fd (buffer_size - 1) bytes (omega (arith, f.buffer)) e).0

  stopped-Returns : (t : Pexec) → Returns Any (stopped os buffer_size fuel t)
  unfolding stopped loop_rest_io
  stopped-Returns t =
      let z : 0 < fuel = omega (arith, f.for_table) in
      Returns-bind Any Any (loop_rest_io os buffer_size fuel t) _
        (Returns-bind Any Any _ _
          (read_std_rest-Returns fuel t.pipe_stdout.read_end on_stdout _ t z)
          λ t1 _. read_std_rest-Returns fuel t1.pipe_stderr.read_end on_stderr _ t1 z)
        λ t2 _. tt

  finish-Returns : (t : Pexec) → Returns Any (finish c t)
  unfolding finish
  finish-Returns t = choose t.user_stopped _ _ (stopped-Returns t)
    where
      choose :
          (b : Bool) (t : Pexec) (run : Run Pexec)
          → Returns Any run
          → Returns Any (if b then done t else run)
      choose true t run r = tt
      choose false t run r = r

  start-Returns :
      (s : Pexec) (at_close out err : ℕ)
      → Reads c (announce s) control at_close out err sig
      → Returns Any (start c (s, true))
  unfolding start supervise
  start-Returns s at_close out err reads =
      subst (λ kind. Returns Any (supervise c kind (announce s))) (sym reads.blocks)
        (Returns-bind (λ t. t.type ≡ blocking) Any (loop_io c (announce s)) _
          (loop_io-Returns c sig control n limit h f waits (announce s) at_close out err reads)
          λ t _. finish-Returns (reset_sigchld_signal_handler os t))

  holds_of : (P : Pexec → Type 0) (r : Run Pexec) (t : Pexec) → Ensures P r → r ≡ done t → P t
  holds_of P r t e q = subst (Ensures P) q e

  -- A blocking `exec` of a new object ends, whatever the order in which the descriptors become ready,
  -- and whatever calls fail within these promises: if the preparation succeeds, the five descriptors that it reads
  -- differ, the system keeps its promises (bounded interruptions, no empty read, and from the n-th
  -- `select` on the signal of the child's end), and the fuel covers these bounds, then it returns;
  -- the log, if it opened and closed a descriptor equally often, still does, the pipes hold none,
  -- and one end has been reported.
  pub exec_ends :
      (arg : Bytes) (log : Log) (s : Pexec) (at_close out err k : ℕ)
      → prepare os (begun arg blocking log) ≡ (s, true)
      → Reads c (announce s) control at_close out err sig
      → opens k log ≡ closes k log
      → (t : Pexec) × (exec c arg (new_pexec blocking log) ≡ done t)
        × IsClosed t
        × (opens k t.log ≡ closes k t.log)
        × (finals t.log ≡ suc (finals log))
  unfolding exec
  exec_ends arg log s at_close out err k ready reads e =
      let run : Returns Any (exec c arg (new_pexec blocking log)) =
        subst (λ r. Returns Any (start c r)) (sym ready) (start-Returns s at_close out err reads) in
      let (t, q, _) = Returns-done Any _ run in
      let over = holds_of _ _ t (exec-no_leak c k arg log e) q in (t, q, over.0, over.1, over.2)
