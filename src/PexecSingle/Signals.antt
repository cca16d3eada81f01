-- ===== src/PexecSingle/Signals.antt =====
-- What the parent does about SIGCHLD: the handler, the mask, ::waitpid, and the new status.
use pexec.Base.{ℕ, zero, suc, Bool, true, not, none, ◌∷◌, ◌==◌, if◌then◌else◌}
use pexec.Error.{
  sigaction_set_error, sigaction_reset_error, sig_block_error, sig_unblock_error, waitpid_error,
  fork_exec_error, fork_stdin_nonblock_error, fork_stdout_nonblock_error,
  fork_stderr_nonblock_error, fork_dup2_stdin_error, fork_dup2_stdout_error, fork_dup2_stderr_error,
}
use pexec.ProcStatus as Proc
use pexec.ProcStatus.{ProcStatus}
use pexec.ProcStatus.Wait.{WaitMacros}
use pexec.Run.{Run, done, timeout, ◌>>=◌}
use pexec.System.{
  Os, WaitResult, reaped, not_ready, wait_failed, eintr, handler_installed, handler_restored,
  blocked, unblocked, waited,
}
use pexec.PexecSingle.State.{
  Pexec, ExecType, blocking, nonblocking, emit, process_error, call_state,
}
use pexec.PexecSingle.Pipes.{give_up}
use pexec.PexecSingle.Reading.{stopped}

-- `handle_proc_return_code`
unfoldable pub handle_proc_return_code : Pexec → Pexec
handle_proc_return_code s =
    if code == 100
    then process_error fork_exec_error s
    else if code == 101
    then process_error fork_stdin_nonblock_error s
    else if code == 102
    then process_error fork_stdout_nonblock_error s
    else if code == 103
    then process_error fork_stderr_nonblock_error s
    else if code == 104
    then process_error fork_dup2_stdin_error s
    else if code == 105
    then process_error fork_dup2_stdout_error s
    else if code == 106
    then process_error fork_dup2_stderr_error s
    else s
  where
    code : ℕ
    code = s.proc.return_code

module _ (os : Os) where
  -- `set_sigchld_signal_handler`
  unfoldable pub set_sigchld_signal_handler : Pexec → Pexec × Bool
  set_sigchld_signal_handler s =
      let ok = os.sigaction s.log in
      let s1 = emit (handler_installed ok) s in
      if ok then (s1, true) else give_up sigaction_set_error s1

  -- `reset_sigchld_signal_handler`; its result is not used.
  unfoldable pub reset_sigchld_signal_handler : Pexec → Pexec
  reset_sigchld_signal_handler s =
      let ok = os.sigaction s.log in
      let s1 = emit (handler_restored ok) s in
      if ok then s1 else process_error sigaction_reset_error s1

  -- `block_sigchld`, `unblock_sigchld`
  unfoldable pub block_sigchld : Pexec → Pexec
  block_sigchld s =
      let ok = os.sigprocmask s.log in
      let s1 = emit (blocked ok) s in if ok then s1 else process_error sig_block_error s1

  unfoldable pub unblock_sigchld : Pexec → Pexec
  unblock_sigchld s =
      let ok = os.sigprocmask s.log in
      let s1 = emit (unblocked ok) s in if ok then s1 else process_error sig_unblock_error s1

  -- One round of the loop in `handle_sigchld`: any result but a pid is an error, `EINTR` too.
  unfoldable pub after_waitpid : WaitResult → Pexec → Run Pexec → Run Pexec
  after_waitpid (reaped pid st) s again = done (record s { status = st })
  after_waitpid not_ready s again = done (process_error waitpid_error s)
  after_waitpid (wait_failed eintr) s again = again
  after_waitpid (wait_failed e) s again = done (process_error waitpid_error s)

  -- `again` starts from the state that `EINTR` leaves, with the error reported.
  unfoldable pub wait_child : ℕ → Pexec → Run Pexec
  unfolding after_waitpid
  wait_child zero s = timeout
  wait_child (suc fuel) s =
      let r = os.waitpid s.log s.proc_pid in
      let s1 = record s { status = 0; log = waited r ∷ s.log } in
      let again = wait_child fuel (process_error waitpid_error s1) in after_waitpid r s1 again

  module _ (m : WaitMacros) (buffer_size : ℕ) where
    -- What `update_status` does when the process has ended.
    unfoldable pub process_ended : ℕ → ExecType → Pexec → Run Pexec
    process_ended fuel nonblocking s = stopped os buffer_size fuel s
    process_ended fuel blocking s = done s

    -- `update_status`
    unfoldable pub update_status : ℕ → ℕ → Pexec → Run Pexec
    unfolding process_ended
    update_status fuel status s =
        let s1 = record s { status = status; proc = Proc.update_status m s.proc status } in
        let s2 = call_state Proc.State.signaled s1 in
        let s3 = record s2 { proc = record s2.proc { stdin_fd = none }; proc_killed = true } in
        let ended = process_ended fuel s3.type (handle_proc_return_code s3) in
        if not s2.proc.running then ended else done s2

    -- `handle_sigchld`
    unfoldable pub handle_sigchld : ℕ → Pexec → Run Pexec
    unfolding update_status wait_child
    handle_sigchld fuel s = do
      s1 ← wait_child fuel (block_sigchld s)
      let s2 = unblock_sigchld s1
      update_status fuel s2.status s2
