-- ===== src/PexecSingle/Reaping.antt =====
-- `handle_sigchld` returns, and takes the process for ended once the child has ended.
use pexec.Base.{
  ℕ, zero, suc, ◌≤◌, ◌<◌, Bool, true, false, not, ◌||◌, none, ◌∷◌, ◌≡◌, ◌≢◌, refl, ◌∙◌, ap, arith,
  if◌then◌else◌,
}
use pexec.Error.{Error}
use pexec.ProcStatus as Proc
use pexec.ProcStatus.{ProcStatus}
use pexec.ProcStatus.Wait.{IsWait}
use pexec.ProcStatus.Update.{update_status-running}
use pexec.Run.{Run, done, Returns, Returns-bind}
use pexec.System.{
  eintr, eagain, echild, other_errno, WaitResult, reaped, not_ready, wait_failed, waited, selects,
  unblocked,
}
use pexec.PexecSingle.State.{
  Pexec, ExecType, blocking, nonblocking, emit, process_error, call_state,
}
use pexec.PexecSingle.Signals.{
  handle_proc_return_code, block_sigchld, unblock_sigchld, after_waitpid, wait_child, process_ended,
  update_status, handle_sigchld,
}
use pexec.PexecSingle.Loop.{Setting}
use pexec.PexecSingle.Ending.{Cooperates, Later, process_error-Later}

module _ (c : Setting) (sig control n limit : ℕ) (h : Cooperates c sig control n limit)
    (waits : IsWait c.macros) where
  open c use {os, macros, buffer_size, sigchld, fuel}

  -- The status tells of the end of the process.
  abbrev Ended : ℕ → Type 0
  Ended status = (macros.wifsignaled status || macros.wifexited status) ≡ true

  zero_ended : Ended 0
  zero_ended = ground (arith, waits.zero_exited)

  -- Not less than the state before; from `n` calls of `select` on, the child has ended.
  record Heard (s t : Pexec) : Type 0 where
    pub later : Later sig s t
    pub ended : n ≤ selects s.log → Ended t.status

  pub record Killed (s t : Pexec) : Type 0 where
    pub later : Later sig s t
    pub killed : n ≤ selects s.log → t.proc_killed ≡ true

  -- `if(… == -1) process_error(…);`
  guarded :
      (ok : Bool) (err : Error) (s t : Pexec)
      → Later sig s t
      → Later sig s (if ok then t else process_error err t)
  guarded true err s t w = w
  guarded false err s t w = process_error-Later sig s err t w

  guarded_status :
      (ok : Bool) (err : Error) (t : Pexec)
      → (if ok then t else process_error err t).status ≡ t.status
  unfolding process_error
  guarded_status true err t = refl
  guarded_status false err t = refl

  block-Later : (s t : Pexec) → Later sig s t → Later sig s (block_sigchld os t)
  unfolding block_sigchld
  block-Later s t w = guarded (os.sigprocmask t.log) _ s _ (ground arith)

  unblock-Heard : (s t : Pexec) → Heard s t → Heard s (unblock_sigchld os t)
  unfolding unblock_sigchld
  unblock-Heard s t w =
      let t1 : Pexec = emit (unblocked (os.sigprocmask t.log)) t in
      let w1 : Later sig s t1 = ground (arith, w.later) in
      record {
        later = guarded (os.sigprocmask t.log) _ s t1 w1;
        ended = λ late. rw guarded_status (w.ended late);
      }

  after_waitpid-Returns :
      (r : WaitResult) (s t : Pexec) (again : Run Pexec)
      → r ≢ wait_failed eintr
      → Later sig s t
      → t.status ≡ 0
      → ((who status : ℕ) → r ≡ reaped who status → n ≤ selects s.log → Ended status)
      → Returns (Heard s) (after_waitpid os r t again)
  unfolding after_waitpid process_error
  after_waitpid-Returns (reaped who status) s t again ne w z e = record {
    later = ground arith;
    ended = e who status refl;
  }
  after_waitpid-Returns not_ready s t again ne w z e = record {
    later = ground arith;
    ended = λ late. rw z zero_ended;
  }
  after_waitpid-Returns (wait_failed eintr) s t again ne w z e = absurd (ne refl)
  after_waitpid-Returns (wait_failed eagain) s t again ne w z e = record {
    later = ground arith;
    ended = λ late. rw z zero_ended;
  }
  after_waitpid-Returns (wait_failed echild) s t again ne w z e = record {
    later = ground arith;
    ended = λ late. rw z zero_ended;
  }
  after_waitpid-Returns (wait_failed other_errno) s t again ne w z e = record {
    later = ground arith;
    ended = λ late. rw z zero_ended;
  }

  wait_child-Returns :
      (k : ℕ) (s t : Pexec) → 0 < k → Later sig s t → Returns (Heard s) (wait_child os k t)
  unfolding wait_child
  wait_child-Returns zero s t z w = absurd (omega (arith, z))
  wait_child-Returns (suc k) s t z w =
      let r = os.waitpid t.log t.proc_pid in
      let t1 : Pexec = record t { status = 0; log = waited r ∷ t.log } in
      let w1 : Later sig s t1 = ground arith in
      after_waitpid-Returns r s t1 _ (h.patient_wait t.log t.proc_pid) w1 refl λ who status e late.
        h.child_ended t.log t.proc_pid who status (omega (arith, late, w.not_less)) e

  handle_proc_return_code-Killed : (s t : Pexec) → Killed s t → Killed s (handle_proc_return_code t)
  unfolding handle_proc_return_code process_error
  handle_proc_return_code-Killed s t w = ground (arith, w.later, w.killed)

  process_ended-Returns :
      (k : ℕ) (kind : ExecType) (s t : Pexec)
      → kind ≡ blocking
      → Killed s t
      → Returns (Killed s) (process_ended os macros buffer_size k kind t)
  unfolding process_ended
  process_ended-Returns k blocking s t e w = w
  process_ended-Returns k nonblocking s t e w = absurd (mixed e)
    where
      mixed : nonblocking ≡ blocking → ⊥
      mixed e = cc

  -- Of an ended process, the flag is down.
  running_ended :
      (p : ProcStatus) (status : ℕ)
      → Ended status
      → (Proc.update_status macros p status).running ≡ false
  running_ended p status e = update_status-running macros p status ∙ ap not e

  choose :
      (s : Pexec) (running : Bool) (t : Pexec) (ended : Run Pexec)
      → Later sig s t
      → (n ≤ selects s.log → running ≡ false)
      → Returns (Killed s) ended
      → Returns (Killed s) (if not running then ended else done t)
  choose s false t ended w f e = e
  choose s true t ended w f e = record { later = w; killed = λ late. absurd (up (f late)) }
    where
      up : true ≡ false → ⊥
      up e = cc

  update_status-Returns :
      (k : ℕ) (s t : Pexec)
      → Heard s t
      → Returns (Killed s) (update_status os macros buffer_size k t.status t)
  unfolding update_status call_state
  update_status-Returns k s t w =
      let p = Proc.update_status macros t.proc t.status in
      let t2 : Pexec = call_state Proc.State.signaled (record t { proc = p }) in
      let t3 : Pexec = record t2 { proc = record p { stdin_fd = none }; proc_killed = true } in
      let w3 : Killed s t3 = record { later = ground (arith, w.later); killed = λ late. refl } in
      choose s p.running t2 _ (ground (arith, w.later))
        (λ late. running_ended t.proc t.status (w.ended late))
        (process_ended-Returns k t3.type s (handle_proc_return_code t3) w.later.is_blocking
          (handle_proc_return_code-Killed s t3 w3))

  pub handle_sigchld-Returns :
      (k : ℕ) (s t : Pexec)
      → 0 < k
      → Later sig s t
      → Returns (Killed s) (handle_sigchld os macros buffer_size k t)
  unfolding handle_sigchld
  handle_sigchld-Returns k s t z w =
      Returns-bind (Heard s) (Killed s) _ _
        (wait_child-Returns k s (block_sigchld os t) z (block-Later s t w))
        λ t1 w1. update_status-Returns k s (unblock_sigchld os t1) (unblock-Heard s t1 w1)
