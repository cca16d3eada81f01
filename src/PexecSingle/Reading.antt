-- ===== src/PexecSingle/Reading.antt =====
-- Reading the child's output and the pipe that ends the watching. `fuel` bounds the attempts of one
-- loop, which the source does not bound.
use pexec.Base.{ℕ, zero, suc, ◌-◌, Bytes, true, Option, none, [], ◌∷◌}
use pexec.Error.{
  Error, stdout_pipe_read_error, stderr_pipe_read_error, stdout_pipe_read_rest_error,
  stderr_pipe_read_rest_error, watch_pipe_read_error,
}
use pexec.ProcStatus as Proc
use pexec.Run.{Run, done, timeout, ◌>>=◌}
use pexec.SelectEvent.{EventReturn, stop_loop, skip_other_fd, nothing}
use pexec.System.{
  Event, Os, ReadResult, got, read_failed, eintr, eagain, was_read, on_stdout, on_stderr,
}
use pexec.PexecSingle.State.{
  Pexec, ExecType, blocking, nonblocking, emit, process_error, call_state,
}
use pexec.PexecSingle.Pipes.{close_fork_pipes, fail_stopped}

-- `user_stopped`
unfoldable pub user_stopped : Pexec → Pexec
user_stopped s =
    let s1 = record s { user_stopped = true } in
    let s2 = record s1 { proc = record s1.proc { user_stop_fd = none } } in
    call_state Proc.State.user_stopped (close_fork_pipes s2)

-- What a failed `read_close` or `read_std` does: a watched process is given up at once.
unfoldable pub read_failure : ExecType → Error → Pexec → EventReturn × Pexec
read_failure nonblocking err s = (nothing, fail_stopped (process_error err s))
read_failure blocking err s = (stop_loop, process_error err s)

-- The end of `read_close`.
unfoldable pub close_seen : ExecType → Pexec → EventReturn × Pexec
close_seen nonblocking s = (nothing, user_stopped s)
close_seen blocking s = (nothing, s)

module _ (os : Os) (buffer_size : ℕ) where
  -- One round of the loop in `read_std_rest`, `again` being the next. A failed read leaves the loop,
  -- an empty one goes round again, and any other is the last.
  unfoldable pub after_rest : ReadResult → (Bytes → Event) → Error → Pexec → Run Pexec → Run Pexec
  after_rest (read_failed eintr) cb throw_err s again = done s
  after_rest (read_failed eagain) cb throw_err s again = done s
  after_rest (read_failed e) cb throw_err s again = done (process_error throw_err s)
  after_rest (got []) cb throw_err s again = again
  after_rest (got (b ∷ bytes)) cb throw_err s again = done (emit (cb (b ∷ bytes)) s)

  -- `read_std_rest`; the callback gets the bytes that were read.
  unfoldable pub read_std_rest : ℕ → Option ℕ → (Bytes → Event) → Error → Pexec → Run Pexec
  unfolding after_rest
  read_std_rest zero fd cb throw_err s = timeout
  read_std_rest (suc fuel) fd cb throw_err s =
      let r = os.read s.log fd (buffer_size - 1) in
      let s1 = emit (was_read fd r) s in
      let again = read_std_rest fuel fd cb throw_err s1 in after_rest r cb throw_err s1 again

  -- `loop_rest_io`
  unfoldable pub loop_rest_io : ℕ → Pexec → Run Pexec
  unfolding read_std_rest
  loop_rest_io fuel s = do
    s1 ← read_std_rest fuel s.pipe_stdout.read_end on_stdout stdout_pipe_read_rest_error s
    read_std_rest fuel s1.pipe_stderr.read_end on_stderr stderr_pipe_read_rest_error s1

  -- `stopped`
  unfoldable pub stopped : ℕ → Pexec → Run Pexec
  unfolding loop_rest_io
  stopped fuel s = do
    s1 ← loop_rest_io fuel s
    done (call_state Proc.State.stopped (close_fork_pipes s1))

  unfoldable pub after_close :
      ReadResult → Pexec → Run (EventReturn × Pexec) → Run (EventReturn × Pexec)
  after_close (read_failed eintr) s again = again
  after_close (read_failed e) s again = done (read_failure s.type watch_pipe_read_error s)
  after_close (got bytes) s again = done (close_seen s.type s)

  -- `read_close`
  unfoldable pub read_close : ℕ → Pexec → Run (EventReturn × Pexec)
  unfolding after_close
  read_close zero s = timeout
  read_close (suc fuel) s =
      let r = os.read s.log s.pipe_close_watch.read_end (buffer_size - 1) in
      let s1 = emit (was_read s.pipe_close_watch.read_end r) s in
      let again = read_close fuel s1 in after_close r s1 again

  -- After the loop of `read_std` a failure has returned, so `rc` is not -1 any more.
  unfoldable pub after_read :
      ReadResult
      → (Bytes → Event)
      → Error
      → Pexec
      → Run (EventReturn × Pexec)
      → Run (EventReturn × Pexec)
  after_read (read_failed eintr) cb throw_err s again = again
  after_read (read_failed e) cb throw_err s again = done (read_failure s.type throw_err s)
  after_read (got []) cb throw_err s again = done (skip_other_fd, s)
  after_read (got (b ∷ bytes)) cb throw_err s again = done (nothing, emit (cb (b ∷ bytes)) s)

  -- `read_std`
  unfoldable pub read_std :
      ℕ → Option ℕ → (Bytes → Event) → Error → Pexec → Run (EventReturn × Pexec)
  unfolding after_read
  read_std zero fd cb throw_err s = timeout
  read_std (suc fuel) fd cb throw_err s =
      let r = os.read s.log fd (buffer_size - 1) in
      let s1 = emit (was_read fd r) s in
      let again = read_std fuel fd cb throw_err s1 in after_read r cb throw_err s1 again

  -- `read_stdout`, `read_stderr`
  unfoldable pub read_stdout : ℕ → Pexec → Run (EventReturn × Pexec)
  read_stdout fuel s = read_std fuel s.pipe_stdout.read_end on_stdout stdout_pipe_read_error s

  unfoldable pub read_stderr : ℕ → Pexec → Run (EventReturn × Pexec)
  read_stderr fuel s = read_std fuel s.pipe_stderr.read_end on_stderr stderr_pipe_read_error s
