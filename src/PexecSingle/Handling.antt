-- ===== src/PexecSingle/Handling.antt =====
-- The same balance through the handling of SIGCHLD and the callback of the signal pipe.
use pexec.Base.{
  ℕ, zero, suc, ◌-◌, Bytes, Bool, true, false, not, Option, none, some, [], ◌∷◌, ◌++◌, ◌==◌, ◌≡◌,
  refl, arith, Bool-cases, inl, inr, length, same_bytes, if◌then◌else◌,
}
use pexec.Error.{Error, waitpid_error}
use pexec.ProcStatus as Proc
use pexec.ProcStatus.Wait.{WaitMacros}
use pexec.Run.{Run, done, Ensures, Ensures-bind, Ensures-if}
use pexec.System.{
  Os, ReadResult, got, read_failed, eintr, eagain, echild, other_errno, WaitResult, reaped,
  not_ready, wait_failed, was_read, waited, blocked, unblocked, on_state, handler_restored,
}
use pexec.PexecSingle.State.{
  Pexec, ExecType, blocking, nonblocking, emit, process_error, call_state,
}
use pexec.PexecSingle.Signals.{
  handle_proc_return_code, block_sigchld, unblock_sigchld, after_waitpid, wait_child, process_ended,
  update_status, handle_sigchld, reset_sigchld_signal_handler,
}
use pexec.PexecSingle.Loop.{Setting, after_signal, read_signal, signal_read, on_signal}
use pexec.PexecSingle.Quiet.{Watched, Wr, emit-Watched, process_error-Watched}

module _ (n : ℕ) (s : Pexec) (extra : ℕ) where
  abbrev V : Pexec → Type 0
  V = Watched n s extra

  -- `if(… == -1) process_error(…);`
  guarded : (ok : Bool) (err : Error) (t : Pexec) → V t → V (if ok then t else process_error err t)
  guarded true err t w = w
  guarded false err t w = process_error-Watched n s extra err t w

  unguarded :
      (ok : Bool) (err : Error) (t : Pexec) → V t → V (if ok then process_error err t else t)
  unguarded false err t w = w
  unguarded true err t w = process_error-Watched n s extra err t w

  handle_proc_return_code-Watched : (t : Pexec) → V t → V (handle_proc_return_code t)
  unfolding handle_proc_return_code process_error
  handle_proc_return_code-Watched t w = ground arith

  module _ (os : Os) where
    block-Watched : (t : Pexec) → V t → V (block_sigchld os t)
    unfolding block_sigchld
    block-Watched t w =
        guarded (os.sigprocmask t.log) _ _ (
          emit-Watched n s extra (blocked (os.sigprocmask t.log)) t (λ n log. (refl, refl, refl)) w)

    unblock-Watched : (t : Pexec) → V t → V (unblock_sigchld os t)
    unfolding unblock_sigchld
    unblock-Watched t w = guarded (os.sigprocmask t.log) _ _ (
        emit-Watched n s extra (unblocked (os.sigprocmask t.log)) t (λ n log. (refl, refl, refl)) w)

    pub reset-Watched : (t : Pexec) → V t → V (reset_sigchld_signal_handler os t)
    unfolding reset_sigchld_signal_handler
    reset-Watched t w = guarded (os.sigaction t.log) _ _ (
        emit-Watched n s extra (handler_restored (os.sigaction t.log)) t
          (λ n log. (refl, refl, refl)) w)

    after_waitpid-Watched :
        (r : WaitResult) (t : Pexec) (again : Run Pexec)
        → V t
        → Ensures V again
        → Ensures V (after_waitpid os r t again)
    unfolding after_waitpid
    after_waitpid-Watched (reaped pid st) t again w a = ground arith
    after_waitpid-Watched not_ready t again w a = process_error-Watched n s extra _ t w
    after_waitpid-Watched (wait_failed eintr) t again w a = a
    after_waitpid-Watched (wait_failed eagain) t again w a = process_error-Watched n s extra _ t w
    after_waitpid-Watched (wait_failed echild) t again w a = process_error-Watched n s extra _ t w
    after_waitpid-Watched (wait_failed other_errno) t again w a =
        process_error-Watched n s extra _ t w

    wait_child-Watched : (fuel : ℕ) (t : Pexec) → V t → Ensures V (wait_child os fuel t)
    unfolding wait_child
    wait_child-Watched zero t w = tt
    wait_child-Watched (suc fuel) t w =
        let r = os.waitpid t.log t.proc_pid in
        let t1 : Pexec = record t { status = 0; log = waited r ∷ t.log } in
        let w1 : V t1 = ground arith in
        after_waitpid-Watched r t1 _ w1 (
          wait_child-Watched fuel (process_error waitpid_error t1)
            (process_error-Watched n s extra waitpid_error t1 w1))

    module _ (m : WaitMacros) (buffer_size : ℕ) where
      process_ended-Watched :
          (fuel : ℕ) (kind : ExecType) (t : Pexec)
          → kind ≡ blocking
          → V t
          → Ensures V (process_ended os m buffer_size fuel kind t)
      unfolding process_ended
      process_ended-Watched fuel blocking t e w = w
      process_ended-Watched fuel nonblocking t e w = cc

      update_status-Watched :
          (fuel status : ℕ) (t : Pexec)
          → V t
          → Ensures V (update_status os m buffer_size fuel status t)
      unfolding update_status call_state
      update_status-Watched fuel status t w =
          let p = Proc.update_status m t.proc status in
          let t2 : Pexec = record t {
            status = status;
            proc = p;
            log = on_state Proc.State.signaled p ∷ t.log;
          } in
          let t3 : Pexec = record t2 { proc = record p { stdin_fd = none }; proc_killed = true } in
          let w2 : V t2 = ground arith in
          let w3 : V t3 = ground arith in
          let ended = process_ended os m buffer_size fuel t3.type (handle_proc_return_code t3) in
          Ensures-if V (not p.running) ended (done t2)
            (process_ended-Watched fuel t3.type _ w3.is_blocking
              (handle_proc_return_code-Watched t3 w3))
            w2

      handle_sigchld-Watched :
          (fuel : ℕ) (t : Pexec) → V t → Ensures V (handle_sigchld os m buffer_size fuel t)
      unfolding handle_sigchld
      handle_sigchld-Watched fuel t w =
          Ensures-bind V V _ _ (wait_child-Watched fuel (block_sigchld os t) (block-Watched t w))
            λ t1 w1.
              update_status-Watched fuel (unblock_sigchld os t1).status (unblock_sigchld os t1)
                (unblock-Watched t1 w1)

-- The callbacks of the loop keep the balance, whatever the control pipe holds.
module _ (c : Setting) (n : ℕ) (s : Pexec) (extra : ℕ) where
  open c use {os, macros, buffer_size, sigchld, fuel}

  after_signal-Watched :
      (r : ReadResult) (read : Bytes) (want : ℕ) (t : Pexec)
      (again : Bytes → Run (Option Bytes × Pexec))
      → V n s extra t
      → ((b : Bytes) → Ensures (λ (r : Option Bytes × Pexec). V n s extra r.1) (again b))
      → Ensures (λ (r : Option Bytes × Pexec). V n s extra r.1) (after_signal c r read want t again)
  unfolding after_signal
  after_signal-Watched (read_failed e) read want t again w a = process_error-Watched n s extra _ t w
  after_signal-Watched (got bytes) read want t again w a =
      Ensures-if (λ (r : Option Bytes × Pexec). V n s extra r.1) (length (read ++ bytes) == want)
        (done (some (read ++ bytes), t)) _ w (a (read ++ bytes))

  read_signal-Watched :
      (k : ℕ) (read : Bytes) (t : Pexec)
      → V n s extra t
      → Ensures (λ (r : Option Bytes × Pexec). V n s extra r.1) (read_signal c k read t)
  unfolding read_signal
  read_signal-Watched zero read t w = tt
  read_signal-Watched (suc k) read t w =
      let r = os.read t.log t.pipe_signal.read_end (length sigchld - length read) in
      let e = was_read t.pipe_signal.read_end r in
      let w1 = emit-Watched n s extra e t (λ n log. (refl, refl, refl)) w in
      after_signal-Watched r read (length sigchld) (emit e t) _ w1
        (λ b. read_signal-Watched k b (emit e t) w1)

  signal_read-Watched :
      (o : Option Bytes) (t : Pexec) → V n s extra t → Ensures (Wr n s extra) (signal_read c o t)
  unfolding signal_read
  signal_read-Watched none t w = w
  signal_read-Watched (some bytes) t w = elim (Bool-cases (same_bytes bytes sigchld)) [
    | inl e ↦
        rw (e, signal_read)
          (Ensures-bind (V n s extra) _ _ _
            (handle_sigchld-Watched n s extra os macros buffer_size fuel t w) (λ t1 w1. w1))
    | inr e ↦ rw (e, signal_read) w
  ]

  pub on_signal-Watched : (t : Pexec) → V n s extra t → Ensures (Wr n s extra) (on_signal c t)
  unfolding on_signal
  on_signal-Watched t w =
      Ensures-bind (λ (r : Option Bytes × Pexec). V n s extra r.1) _ _ _
        (read_signal-Watched fuel [] t w) λ r w1. signal_read-Watched r.0 r.1 w1
