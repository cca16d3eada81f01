-- ===== src/PexecSingle/Exec.antt =====
-- `spawn_proc` and `exec`.
use pexec.Base.{ℕ, Bytes, Bool, true, false, not, Option, none, some, if◌then◌else◌, ◌==◌, ◌∷◌}
use pexec.Error.{no_error, fork_error}
use pexec.ProcStatus as Proc
use pexec.Run.{Run, done, ◌>>=◌}
use pexec.System.{Os, forked}
use pexec.PexecSingle.State.{Pexec, ExecType, blocking, nonblocking, call_state, ◌>>?◌}
use pexec.PexecSingle.Pipes.{give_up, prepare_args, prepare_fork_pipes}
use pexec.PexecSingle.Reading.{user_stopped, stopped}
use pexec.PexecSingle.Signals.{set_sigchld_signal_handler, reset_sigchld_signal_handler}
use pexec.PexecSingle.Loop.{Setting, loop_io}

-- `struct pexec_fds`
pub record PexecFds : Type 0 where
  pub stdout_read_fd : Option ℕ
  pub stderr_read_fd : Option ℕ
  pub stdin_write_fd : Option ℕ
  pub watch_close_write_fd : Option ℕ  -- the end that is read, whatever its name says

-- `get_fds`
unfoldable pub get_fds : Pexec → PexecFds
get_fds s = record {
  stdout_read_fd = s.pipe_stdout.read_end;
  stderr_read_fd = s.pipe_stderr.read_end;
  stdin_write_fd = s.pipe_stdin.write_end;
  watch_close_write_fd = s.pipe_close_watch.read_end;
}

-- What the calls of the child answer, up to `execvp`: whether each descriptor could be made
-- blocking, and what each `dup2` returned (`none` is -1).
pub record ChildCalls : Type 0 where
  pub unset_stdin : Bool
  pub unset_stdout : Bool
  pub unset_stderr : Bool
  pub dup2_stdin : Option ℕ
  pub dup2_stdout : Option ℕ
  pub dup2_stderr : Option ℕ

unfoldable pub is_fd : ℕ → Option ℕ → Bool
is_fd n none = false
is_fd n (some fd) = fd == n

-- The child's side of `spawn_proc`, if `execvp` returns: the code with which it exits.
unfoldable pub child_exit_code : ChildCalls → ℕ
unfolding is_fd
child_exit_code c =
    if not c.unset_stdin
    then 101
    else if not c.unset_stdout
    then 102
    else if not c.unset_stderr
    then 103
    else if not (is_fd 0 c.dup2_stdin)
    then 104
    else if not (is_fd 1 c.dup2_stdout)
    then 105
    else if not (is_fd 2 c.dup2_stderr)
    then 106
    else 100

module _ (os : Os) where
  -- The parent's side of `spawn_proc`.
  unfoldable pub spawn_proc : Pexec → Pexec × Bool
  spawn_proc s =
      let r = os.fork s.log in
      let s1 = record s { proc_pid = r; log = forked r ∷ s.log } in
      elim r [ none ↦ give_up fork_error s1 | some pid ↦ (s1, true) ]

  unfoldable pub set_handler : ExecType → Pexec → Pexec × Bool
  set_handler blocking s = set_sigchld_signal_handler os s
  set_handler nonblocking s = (s, true)

  -- `exec` up to the fork, which can end it early.
  unfoldable pub prepare : Pexec → Pexec × Bool
  unfolding set_handler
  prepare s =
      prepare_args s >>? prepare_fork_pipes os >>? (λ s. set_handler s.type s) >>? spawn_proc

-- `pid_t` as a pid, once the fork has succeeded.
unfoldable pub pid_of : Option ℕ → ℕ
pid_of none = 0
pid_of (some pid) = pid

-- `proc_` is filled in, and the user told.
unfoldable pub announce : Pexec → Pexec
unfolding pid_of
announce s = call_state Proc.State.started (record s {
  proc = record s.proc {
    pid = pid_of s.proc_pid;
    stdin_fd = s.pipe_stdin.write_end;
    running = true;
    user_stop_fd = s.pipe_close_watch.write_end;
  };
})

module _ (c : Setting) where
  open c use {os, buffer_size, fuel}

  -- After the loop.
  unfoldable pub finish : Pexec → Run Pexec
  finish s =
      let ended = stopped os buffer_size fuel s in
      if s.user_stopped then done (user_stopped s) else ended

  unfoldable pub supervise : ExecType → Pexec → Run Pexec
  unfolding finish
  supervise blocking s = do s1 ← loop_io c s; finish (reset_sigchld_signal_handler os s1)
  supervise nonblocking s = done s

  unfoldable pub start : Pexec × Bool → Run Pexec
  unfolding supervise
  start (s, false) = done s
  start (s, true) = let s1 = announce s in supervise s1.type s1

  unfoldable pub exec : Bytes → Pexec → Run Pexec
  unfolding start
  exec spawn_arg s =
      start (prepare os (record s { spawn_process_arg = spawn_arg; state = no_error }))
