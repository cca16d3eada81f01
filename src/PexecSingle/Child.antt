-- ===== src/PexecSingle/Child.antt =====
-- The exit codes with which the child reports that it could not start the program.
use pexec.Base.{◌<◌, not, ◌∷◌, ◌≡◌, ◌⊎◌, arith, if◌then◌else◌}
use pexec.Error.{
  Error, fork_exec_error, fork_stdin_nonblock_error, fork_stdout_nonblock_error,
  fork_stderr_nonblock_error, fork_dup2_stdin_error, fork_dup2_stdout_error, fork_dup2_stderr_error,
}
use pexec.System.{on_error}
use pexec.PexecSingle.State.{Pexec, process_error}
use pexec.PexecSingle.Signals.{handle_proc_return_code}
use pexec.PexecSingle.Exec.{ChildCalls, is_fd, child_exit_code}

-- The first of the child's calls that failed, and otherwise `execvp`, which has returned.
pub first_failure : ChildCalls → Error
unfolding is_fd
first_failure c =
    if not c.unset_stdin
    then fork_stdin_nonblock_error
    else if not c.unset_stdout
    then fork_stdout_nonblock_error
    else if not c.unset_stderr
    then fork_stderr_nonblock_error
    else if not (is_fd 0 c.dup2_stdin)
    then fork_dup2_stdin_error
    else if not (is_fd 1 c.dup2_stdout)
    then fork_dup2_stdout_error
    else if not (is_fd 2 c.dup2_stderr)
    then fork_dup2_stderr_error
    else fork_exec_error

-- When a child that could not start the program has exited, the parent reports the one error that
-- names the call that failed, and remembers it.
pub handle-child_exit_code :
    (c : ChildCalls) (s : Pexec)
    → s.proc.return_code ≡ child_exit_code c
    → ((handle_proc_return_code s).state ≡ first_failure c)
      × ((handle_proc_return_code s).log ≡ on_error (first_failure c) ∷ s.log)
unfolding handle_proc_return_code child_exit_code first_failure process_error
handle-child_exit_code c s h = ground arith

-- A program that ran and exited with a code outside 100 to 106 causes no report.
pub handle_other :
    (s : Pexec)
    → (s.proc.return_code < 100) ⊎ (106 < s.proc.return_code)
    → handle_proc_return_code s ≡ s
unfolding handle_proc_return_code
handle_other s h = ground arith
