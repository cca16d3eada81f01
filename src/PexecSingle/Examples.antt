-- ===== src/PexecSingle/Examples.antt =====
-- Runs of a whole call, and an instance of each theorem on `pexec`.
use pexec.Base.{
  suc, not, is_empty, ℕ, ◌+◌, ◌*◌, ◌≤◌, Bytes, Bool, true, false, Option, none, some, [], ◌∷◌, ◌==◌,
  codes, same_bytes, ◌≡◌, refl, arith, if◌then◌else◌, length, ◌⊎◌,
}
use pexec.ArgumentParser.{str2arg}
use pexec.Util.{arg2argc, close_pipe}
use pexec.SelectEvent.{loop, create, advance, dispatch, destroy, add_read_event}
use pexec.Error.{
  arg_parse_error, stdout_pipe_read_error, stdout_pipe_read_rest_error, stderr_pipe_read_rest_error,
}
use pexec.ProcStatus as Proc
use pexec.ProcStatus.Wait.{linux, linux-IsWait}
use pexec.Run.{Run, done, Ensures, Returns}
use pexec.System.{
  Log, Os, ReadResult, got, read_failed, eintr, eagain, interrupted, on_stdout, on_stderr, reaped,
  not_ready, ready, on_error, on_state,
}
use pexec.System.Ledger.{opens, closes, finals}
use pexec.PexecSingle.State.{Pexec, blocking, nonblocking, new_pexec, call_state}
use pexec.PexecSingle.Pipes.{give_up, prepare_args, prepare_fork_pipes, make_pipe, close_fork_pipes}
use pexec.PexecSingle.Reading.{stopped, loop_rest_io, read_std, read_stdout}
use pexec.PexecSingle.Signals.{
  set_sigchld_signal_handler, reset_sigchld_signal_handler, unblock_sigchld,
  handle_proc_return_code, block_sigchld, handle_sigchld,
}
use pexec.PexecSingle.Loop.{Setting, loop_io}
use pexec.PexecSingle.Exec.{
  ChildCalls, exec, announce, prepare, spawn_proc, set_handler, child_exit_code,
}
use pexec.PexecSingle.Closing.{IsClosed}
use pexec.PexecSingle.Ready.{Failed}
use pexec.PexecSingle.Failure.{begun, exec_unprepared, prepare_args_lem}
use pexec.PexecSingle.HandlerLeft.{installs, restores, set_up, exec_fork_failed}
use pexec.PexecSingle.NoLeak.{exec-no_leak}
use pexec.PexecSingle.Child.{first_failure, handle-child_exit_code}
use pexec.PexecSingle.Nonblocking.{Running, exec_nonblocking, exec_no_argument}
use pexec.PexecSingle.Retry.{IsPatient, Answers, read_std-Answers}
use pexec.PexecSingle.Rest.{RestOf, HasRest, loop_rest_io_once}
use pexec.PexecSingle.Reports.{TakenForEnded, handle_sigchld_not_ready}

-- How many pieces of output the user was given.
abbrev pub pieces : Log → ℕ
pieces [] = 0
pieces (on_stdout b ∷ log) = suc (pieces log)
pieces (on_stderr b ∷ log) = suc (pieces log)
pieces (_ ∷ log) = pieces log

abbrev sigchld_bytes : Bytes
sigchld_bytes = 17 ∷ 0 ∷ 0 ∷ 0 ∷ []

-- The n-th event of a call is the (n+1)-st descriptor pair. The child writes once and exits.
abbrev answer_read : Log → Option ℕ → ReadResult
answer_read log none = read_failed eagain
answer_read log (some fd) =
    if fd == 9
    then got sigchld_bytes
    else if fd == 5
    then (if pieces log == 0 then got (codes "hi") else read_failed eagain)
    else read_failed eagain

abbrev pub machine : Os
machine = record {
  pipe2 = λ log. some (3 + 2 * length log, 4 + 2 * length log);
  read = λ log fd size. answer_read log fd;
  get_flags = λ log fd. 2;
  set_flags = λ log fd flags. true;
  sigaction = λ log. true;
  sigprocmask = λ log. true;
  fork = λ log. some 77;
  waitpid = λ log pid. reaped 77 0;
  select = λ log. ready (λ fd. if fd == 5 then true else fd == 9);
  errno = λ log. 0;
}

abbrev pub setting : Setting
setting = record {
  os = machine;
  macros = linux;
  buffer_size = 1024;
  sigchld = sigchld_bytes;
  slot = λ cbs fd. length cbs;
  fuel = 12;
}

-- Whether it returned, with output once and one end.
abbrev returned : Run Pexec → Bool
returned (done t) = if pieces t.log == 1 then finals t.log == 1 else false
returned _ = false

whole_call : returned (exec setting (codes "ls -l") (new_pexec blocking [])) ≡ true
unfolding exec prepare prepare_args str2arg arg2argc prepare_fork_pipes make_pipe
    set_sigchld_signal_handler spawn_proc announce call_state loop_io loop create add_read_event
    advance dispatch read_stdout read_std handle_sigchld block_sigchld unblock_sigchld
    Proc.update_status handle_proc_return_code destroy reset_sigchld_signal_handler stopped
    close_fork_pipes close_pipe same_bytes
whole_call = refl

-- So it did return.
returned_done : (r : Run Pexec) → returned r ≡ true → (t : Pexec) × (r ≡ done t)
returned_done (done t) h = (t, refl)
returned_done Run.fault h = cc
returned_done Run.timeout h = cc

pub whole_call_done : (t : Pexec) × (exec setting (codes "ls -l") (new_pexec blocking []) ≡ done t)
whole_call_done = returned_done (exec setting (codes "ls -l") (new_pexec blocking [])) whole_call

exec-no_leak_example :
    Ensures
      (λ t. IsClosed t × (opens 5 t.log ≡ closes 5 t.log) × (finals t.log ≡ 1))
      (exec setting (codes "ls -l") (new_pexec blocking []))
exec-no_leak_example = exec-no_leak setting 5 (codes "ls -l") [] refl

exec_nonblocking_example :
    (t : Pexec) × (exec setting (codes "ls -l") (new_pexec nonblocking []) ≡ done t)
    × (Failed 5 (new_pexec nonblocking []) t ⊎ Running setting 5 (new_pexec nonblocking []) t)
exec_nonblocking_example = exec_nonblocking setting 5 (codes "ls -l") [] refl

no_words : str2arg (codes "  ") ≡ []
unfolding str2arg
no_words = refl

exec_no_argument_example :
    (t : Pexec) × (exec setting (codes "  ") (new_pexec blocking []) ≡ done t)
    × (t.log ≡ on_state Proc.State.fail_stopped Proc.new ∷ on_error arg_parse_error ∷ [])
    × (t.state ≡ arg_parse_error)
exec_no_argument_example = exec_no_argument setting (codes "  ") blocking [] no_words

-- A child whose second `dup2` fails.
abbrev second_dup2 : ChildCalls
second_dup2 = record {
  unset_stdin = true;
  unset_stdout = true;
  unset_stderr = true;
  dup2_stdin = some 0;
  dup2_stdout = none;
  dup2_stderr = some 2;
}

abbrev has_exited : Pexec
has_exited = record (new_pexec blocking []) { proc = record Proc.new { return_code = 105 } }

second_code : 105 ≡ child_exit_code second_dup2
unfolding child_exit_code
second_code = refl

handle-child_exit_code_example :
    ((handle_proc_return_code has_exited).state ≡ first_failure second_dup2)
    × ((handle_proc_return_code has_exited).log ≡ on_error (first_failure second_dup2) ∷ [])
handle-child_exit_code_example = handle-child_exit_code second_dup2 has_exited second_code

-- Both pipes hold more than one read returns.
abbrev talking : Os
talking = record machine { read = λ log fd size. got (codes "hi") }

abbrev two_pipes : Pexec
two_pipes = record (new_pexec blocking []) {
  pipe_stdout = record { read_end = some 4; write_end = some 5 };
  pipe_stderr = record { read_end = some 6; write_end = some 7 };
}

loop_rest_io_once_example :
    Ensures
      (λ t.
        (log : Log) × RestOf talking 1024 (some 4) on_stdout stdout_pipe_read_rest_error [] log
        × RestOf talking 1024 (some 6) on_stderr stderr_pipe_read_rest_error log t.log)
      (loop_rest_io talking 1024 12 two_pipes)
    × (HasRest talking 1024 12 → Returns (λ _. Unit {0}) (loop_rest_io talking 1024 12 two_pipes))
loop_rest_io_once_example = loop_rest_io_once talking 1024 12 two_pipes

talking-HasRest : HasRest talking 1024 12
talking-HasRest fd log = (0, omega arith, λ e. cc)

talking_returns : Returns (λ _. Unit {0}) (loop_rest_io talking 1024 12 two_pipes)
talking_returns = (loop_rest_io_once talking 1024 12 two_pipes).1 talking-HasRest

-- The system without news of the child.
abbrev silent : Os
silent = record machine { waitpid = λ log pid. not_ready }

handle_sigchld_not_ready_example :
    (t : Pexec) × (handle_sigchld silent linux 1024 2 (new_pexec blocking []) ≡ done t)
    × TakenForEnded silent 1024 t
handle_sigchld_not_ready_example =
    handle_sigchld_not_ready silent 1024 linux 1 (new_pexec blocking []) linux-IsWait refl refl

-- Each first read is interrupted.
abbrev jumpy : Os
jumpy = record machine {
  read = λ log fd size. if interrupted log == 0 then read_failed eintr else got (codes "hi");
}

jumpy-IsPatient : IsPatient jumpy 1024 1
jumpy-IsPatient log fd size h = ground arith

read_std-Answers_example :
    (k : ℕ) × (k ≤ 1)
    × Answers jumpy 1024
        (some 5)
        on_stdout
        stdout_pipe_read_error
        has_exited
        k
        (read_std jumpy 1024 2 (some 5) on_stdout stdout_pipe_read_error has_exited)
read_std-Answers_example =
    read_std-Answers jumpy 1024 1 (some 5) on_stdout stdout_pipe_read_error has_exited
      jumpy-IsPatient

-- The system that cannot fork.
abbrev full : Setting
full = record setting { os = record machine { fork = λ log. none } }

cannot_fork : (prepare full.os (begun (codes "ls") blocking [])).1 ≡ false
unfolding prepare prepare_args str2arg arg2argc prepare_fork_pipes make_pipe
    set_sigchld_signal_handler spawn_proc give_up
cannot_fork = refl

exec_unprepared_example :
    (t : Pexec) × (exec full (codes "ls") (new_pexec blocking []) ≡ done t)
    × Failed 5 (new_pexec blocking []) t
exec_unprepared_example = exec_unprepared full 5 (codes "ls") blocking [] refl cannot_fork

ls_prepared :
    ((prepare_args (begun (codes "ls") blocking [])).1 ≡ not (is_empty (str2arg (codes "ls"))))
    × ((prepare_args (begun (codes "ls") blocking [])).1 ≡ false
        → (prepare_args (begun (codes "ls") blocking [])).0.state ≡ arg_parse_error)
ls_prepared = prepare_args_lem (begun (codes "ls") blocking [])

came_to_fork : (set_up full.os (begun (codes "ls") blocking [])).1 ≡ true
unfolding prepare_args str2arg arg2argc prepare_fork_pipes make_pipe set_handler
    set_sigchld_signal_handler
came_to_fork = refl

exec_fork_failed_example :
    (t : Pexec) × (exec full (codes "ls") (new_pexec blocking []) ≡ done t)
    × (installs t.log ≡ suc (restores t.log))
exec_fork_failed_example = exec_fork_failed full (codes "ls") [] refl came_to_fork refl
