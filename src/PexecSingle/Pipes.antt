-- ===== src/PexecSingle/Pipes.antt =====
-- The pipes of a process: making them, closing them, and giving up.
use pexec.Base.{Bool, true, false, none, some, is_empty, ltb, length, if◌then◌else◌}
use pexec.ArgumentParser.{str2arg}
use pexec.Error.{
  Error, stdin_pipe_error, stdout_pipe_error, stderr_pipe_error, signal_pipe_error,
  watch_pipe_error, arg_parse_error, arg_parse_c_error,
}
use pexec.ProcStatus as Proc
use pexec.System.{Os, Log, Pipe, opened, open_failed}
use pexec.Util.{close_pipe, arg2argc}
use pexec.PexecSingle.State.{
  Pexec, ExecType, blocking, nonblocking, emit, process_error, call_state, ◌>>?◌,
}

unfoldable pub close_signal_pipe : ExecType → Log → Pipe → Pipe × Log
close_signal_pipe blocking log p = close_pipe log p
close_signal_pipe nonblocking log p = (p, log)

-- `close_fork_pipes`
unfoldable pub close_fork_pipes : Pexec → Pexec
unfolding close_signal_pipe
close_fork_pipes s =
    let (p_in, log1) = close_pipe s.log s.pipe_stdin in
    let (p_out, log2) = close_pipe log1 s.pipe_stdout in
    let (p_err, log3) = close_pipe log2 s.pipe_stderr in
    let (p_signal, log4) = close_signal_pipe s.type log3 s.pipe_signal in
    let (p_watch, log5) = close_pipe log4 s.pipe_close_watch in
    record s {
      pipe_stdin = p_in;
      pipe_stdout = p_out;
      pipe_stderr = p_err;
      pipe_signal = p_signal;
      pipe_close_watch = p_watch;
      log = log5;
    }

-- `fail_stopped`
unfoldable pub fail_stopped : Pexec → Pexec
fail_stopped s = call_state Proc.State.fail_stopped (close_fork_pipes s)

-- `process_error(…); fail_stopped(); return false;`
unfoldable pub give_up : Error → Pexec → Pexec × Bool
give_up err s = (fail_stopped (process_error err s), false)

abbrev pub put_stdin : Pipe → Pexec → Pexec
put_stdin p s = record s { pipe_stdin = p }

abbrev pub put_stdout : Pipe → Pexec → Pexec
put_stdout p s = record s { pipe_stdout = p }

abbrev pub put_stderr : Pipe → Pexec → Pexec
put_stderr p s = record s { pipe_stderr = p }

abbrev pub put_signal : Pipe → Pexec → Pexec
put_signal p s = record s { pipe_signal = p }

abbrev pub put_close_watch : Pipe → Pexec → Pexec
put_close_watch p s = record s { pipe_close_watch = p }

module _ (os : Os) where
  -- One of the guarded calls of `pipe2`; `put` is the member that it fills.
  unfoldable pub make_pipe : Error → (Pipe → Pexec → Pexec) → Pexec → Pexec × Bool
  make_pipe err put s = elim (os.pipe2 s.log) [
    | none ↦ give_up err (emit open_failed s)
    | some (r, w) ↦
        (put (record { read_end = some r; write_end = some w }) (emit (opened r w) s), true)
  ]

  unfoldable pub make_signal_pipe : ExecType → Pexec → Pexec × Bool
  make_signal_pipe blocking s = make_pipe signal_pipe_error put_signal s
  make_signal_pipe nonblocking s = (s, true)

  -- `prepare_fork_pipes`
  unfoldable pub prepare_fork_pipes : Pexec → Pexec × Bool
  unfolding make_signal_pipe
  prepare_fork_pipes s =
      make_pipe stdin_pipe_error put_stdin s
      >>? make_pipe stdout_pipe_error put_stdout
      >>? make_pipe stderr_pipe_error put_stderr
      >>? (λ s. make_signal_pipe s.type s)
      >>? make_pipe watch_pipe_error put_close_watch

-- `prepare_args`
unfoldable pub prepare_args : Pexec → Pexec × Bool
prepare_args s =
    let s1 = record s { args = str2arg s.spawn_process_arg } in
    let s2 = record s1 { args_c = arg2argc s1.args } in
    if is_empty s1.args
    then give_up arg_parse_error s1
    else if ltb (length s2.args_c) 2
    then give_up arg_parse_c_error s2
    else (s2, true)
