-- ===== src/PexecSingle/CompleteExamples.antt =====
-- A system that keeps its promises, and a blocking call on it.
use pexec.Base.{
  ℕ, ◌+◌, ◌*◌, Bytes, Bool, true, false, some, [], ◌∷◌, ◌==◌, ◌||◌, ltb, codes, ◌≡◌, refl, sym, ◌∙◌,
  ap, arith, ◌≤◌, if◌then◌else◌, length,
}
use pexec.ArgumentParser.{str2arg}
use pexec.Util.{arg2argc}
use pexec.ProcStatus.Wait.{linux, linux-IsWait}
use pexec.Run.{done}
use pexec.System.{
  Log, Os, got, read_failed, eintr, interrupted, reaped, SelectResult, ready, select_failed,
  selects,
}
use pexec.System.Ledger.{opens, closes, finals}
use pexec.PexecSingle.State.{Pexec, blocking, new_pexec, call_state}
use pexec.PexecSingle.Pipes.{prepare_fork_pipes, prepare_args, make_pipe}
use pexec.PexecSingle.Signals.{set_sigchld_signal_handler}
use pexec.PexecSingle.Loop.{Setting}
use pexec.PexecSingle.Exec.{prepare, spawn_proc, announce, exec, set_handler}
use pexec.PexecSingle.Closing.{IsClosed}
use pexec.PexecSingle.Complete.{exec_ends}
use pexec.PexecSingle.Ending.{Cooperates}
use pexec.PexecSingle.Ends.{Reads}
use pexec.PexecSingle.Failure.{begun}
use pexec.PexecSingle.Prompt.{Suffices}

abbrev sigchld_bytes : Bytes
sigchld_bytes = 17 ∷ 0 ∷ 0 ∷ 0 ∷ []

-- Output is read bytewise, each time after one interruption. The child ends during the first
-- `select`.
abbrev loyal : Os
loyal = record {
  pipe2 = λ log. some (3 + 2 * length log, 4 + 2 * length log);
  read = λ log fd size.
      if size == 4
      then got sigchld_bytes
      else if interrupted log == 0
      then read_failed eintr
      else got (codes "h");
  get_flags = λ log fd. 2;
  set_flags = λ log fd flags. true;
  sigaction = λ log. true;
  sigprocmask = λ log. true;
  fork = λ log. some 77;
  waitpid = λ log pid. reaped 77 0;
  select = λ log. ready (λ fd. (fd == 5) || ltb 0 (selects log));
  errno = λ log. 0;
}

abbrev setting : Setting
setting = record {
  os = loyal;
  macros = linux;
  buffer_size = 1024;
  sigchld = sigchld_bytes;
  slot = λ cbs fd. length cbs;
  fuel = 6;
}

-- What an answer of `select` says of a descriptor.
reported : SelectResult → ℕ → Bool
reported (ready s) fd = s fd
reported (select_failed e) fd = false

late : (log : Log) → 1 ≤ selects log → ((9 == 5) || ltb 0 (selects log)) ≡ true
late log h = ground arith

loyal-Cooperates : Cooperates setting 9 19 1 1
unfolding reported
loyal-Cooperates = record {
  patient_read = λ log fd size h. ground arith;
  patient_select = λ log h. cc;
  patient_wait = λ log pid. cc;
  some_bytes = λ log fd size bytes z e. ground arith;
  control_read = λ log e h. ground arith;
  signal_reported = λ log s h e. sym (ap (λ r. reported r 9) e) ∙ late log h;
  signal_sent = λ log bytes h e. ground arith;
  child_ended = λ log pid who status h e. ground arith;
}

fuel-Suffices : Suffices setting 1 1
fuel-Suffices = record {
  buffer = omega arith;
  int_bytes = omega arith;
  for_bytes = omega arith;
  for_table = omega arith;
  for_interrupts = omega arith;
  for_rounds = omega arith;
}

abbrev at_fork : Pexec
at_fork = (prepare loyal (begun (codes "ls") blocking [])).0

prepared : prepare loyal (begun (codes "ls") blocking []) ≡ (at_fork, true)
unfolding prepare prepare_args str2arg arg2argc prepare_fork_pipes make_pipe
    set_sigchld_signal_handler spawn_proc set_handler
prepared = refl

at_fork-Reads : Reads setting (announce at_fork) 19 11 5 7 9
unfolding prepare prepare_args str2arg arg2argc prepare_fork_pipes make_pipe
    set_sigchld_signal_handler spawn_proc set_handler announce call_state
at_fork-Reads = record {
  blocks = refl;
  reads_close = refl;
  reads_out = refl;
  reads_err = refl;
  reads_sig = refl;
  next_pipe = (20, refl);
  control_close = refl;
  control_out = refl;
  control_err = refl;
  control_sig = refl;
  close_out = refl;
  close_err = refl;
  close_sig = refl;
  out_err = refl;
  out_sig = refl;
  err_sig = refl;
}

exec_ends_example :
    (t : Pexec) × (exec setting (codes "ls") (new_pexec blocking []) ≡ done t)
    × IsClosed t
    × (opens 5 t.log ≡ closes 5 t.log)
    × (finals t.log ≡ 1)
exec_ends_example =
    exec_ends setting 9 19 1 1 loyal-Cooperates fuel-Suffices linux-IsWait (codes "ls") [] at_fork
      11 5 7 5 prepared at_fork-Reads refl
