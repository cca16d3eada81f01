-- ===== src/PexecMulti/Examples.antt =====
-- An instance of each theorem on `pexec_multi`, on a system on which every call succeeds.
use pexec.Base.{
  ℕ, ◌+◌, Bytes, true, false, Option, none, some, List, [], ◌∷◌, codes, length, is_empty, ◌≡◌, ◌≢◌,
  refl, ◌⊎◌, inl,
}
use pexec.ArgumentParser.{str2arg}
use pexec.Error.{no_error, arg_parse_error}
use pexec.PexecMulti.Acting.{do_action-IsLive}
use pexec.PexecMulti.Again.{start_sigchld_again}
use pexec.PexecMulti.Handle.{PexecHandle, new_handle, is_stop, hear_new, has_end}
use pexec.PexecMulti.Jobs.{
  exec_handle, with_process, watch_process, proc_stopped, dispatch_job, do_job, job_nullptr_stop,
  cleanup, by_flag, handle_stop,
}
use pexec.PexecMulti.Kill.{kills, entries, dispatch-kills}
use pexec.PexecMulti.Live.{has_null}
use pexec.PexecMulti.NoArgument.{dispatch_no_argument}
use pexec.PexecMulti.Phase.{Allowed, phase, dispatch_job-Allowed}
use pexec.PexecMulti.Serve.{
  run, new_multi, act, read_control, after_control, after_event, do_action, start_sigchld,
}
use pexec.PexecMulti.State.{
  stop_user, get, remove, remove_read_event, send_job, Multi, Table, external, wired, stop_kill,
  Job, stop, spawn, fd_key, control_action, close_action,
}
use pexec.PexecMulti.External.{Served, Unserved, run_external}
use pexec.PexecMulti.UserStop.{bytes_to, with_fd, dispatch-tells}
use pexec.PexecMulti.Watch.{watch-proc_stopped}
use pexec.PexecMulti.Result.{hear_new-gather}
use pexec.ExecHelper.{gather, new_status}
use pexec.ProcStatus as Proc
use pexec.PexecMulti.Steady.{Lost}
use pexec.PexecMulti.Stop.{taken, Reach, running, acted, until_stop, reach-until_stop}
use pexec.PexecSingle.Examples.{machine, setting}
use pexec.PexecSingle.Loop.{Setting}
use pexec.PexecSingle.Reading.{read_close, close_seen, user_stopped}
use pexec.PexecSingle.State.{call_state}
use pexec.PexecSingle.Pipes.{close_fork_pipes}
use pexec.QueueBuffer as Buffer
use pexec.Run.{◌>>=◌, Run, done, fault, Ensures}
use pexec.SelectEvent.{nothing}
use pexec.System.{
  Log, Os, got, was_read, fd_added, fd_removed, on_error, on_stdout, on_state, stop_told,
}
use pexec.System.Ledger.{opens, closes, holds}
use pexec.Util.{close_pipe}
use pexec.Util.Close.{no_pipe}

-- The byte of a job, or of a close pipe, can be read at once.
abbrev ready_machine : Os
ready_machine = record machine { read = λ log fd size. got (0 ∷ []) }

abbrev ready_setting : Setting
ready_setting = record setting { os = ready_machine }

abbrev place : Table → ℕ → ℕ
place t fd = length t

abbrev with_jobs : List (Option Job) → Multi → Multi
with_jobs jobs m = record m { buffer = record m.buffer { buffer = jobs } }

-- Process 77, which a handle with the number 0 watches by the close pipe 8; the null job waits.
abbrev watched_handle : PexecHandle
watched_handle = record (new_handle (codes "ls") false false false true) { stopped_pid = some 77 }

abbrev one_process : Multi
one_process = record (with_jobs (none ∷ []) (new_multi 3 4 external [])) {
  active_procs = (77, 0) ∷ [];
  handles = λ k. watched_handle;
  registered = (fd_key (some 3), control_action) ∷ (fd_key (some 8), close_action 0) ∷ [];
}

-- The same, when the processes have been told to stop.
abbrev being_stopped : Multi
being_stopped = record one_process { stopping = true }

do_action-IsLive_example :
    Ensures
      (λ m1.
        m1.stopping ≡ true
        → (is_empty m1.active_procs ≡ false) ⊎ (has_null m1.buffer.buffer ≡ true))
      (do_action ready_setting place 3 being_stopped)
    × (being_stopped.stopping ≡ true
        → Ensures
            (λ m1.
              (m1.stopping ≡ true)
              ⊎ ((m2 : Multi) × (handle_stop m2 ≡ done m1)
                  × ((is_empty m2.active_procs ≡ true) ⊎ Lost ready_setting place 3 being_stopped)))
            (do_action ready_setting place 3 being_stopped))
do_action-IsLive_example = do_action-IsLive ready_setting place 3 being_stopped (λ h. inl refl)

abbrev two_jobs : Multi
two_jobs = with_jobs (some (stop stop_kill (some 9)) ∷ none ∷ []) one_process

dispatch-kills_example :
    (m1 : Multi) × (dispatch_job setting place two_jobs ≡ done (nothing, m1))
    × (m1.stopping ≡ true)
    × (kills 77 (some 9) m1.log ≡ entries 77 two_jobs.active_procs + kills 77 (some 9) two_jobs.log)
    × (length m1.log ≡ length two_jobs.active_procs + length two_jobs.log)
dispatch-kills_example =
    dispatch-kills setting place 77 (some 9) (none ∷ []) two_jobs refl refl refl

-- A job that nobody has started.
abbrev one_job : Bytes → Multi
one_job args = record (with_jobs (some (spawn 0) ∷ []) (new_multi 3 4 external [])) {
  handles = λ k. new_handle args false false false true;
  made = 1;
}

dispatch_job-Allowed_example :
    Ensures
      (λ (r, m1). Allowed (phase (one_job (codes "ls"))) (some (spawn 0)) r (phase m1))
      (dispatch_job setting place (one_job (codes "ls")))
dispatch_job-Allowed_example =
    dispatch_job-Allowed setting place (some (spawn 0)) [] (one_job (codes "ls")) refl
      (λ id e. refl)

only_spaces : str2arg (codes "  ") ≡ []
unfolding str2arg
only_spaces = refl

dispatch_no_argument_example :
    (m1 : Multi) × (exec_handle setting 0 (taken [] (one_job (codes "  "))) ≡ done m1)
    × (m1.log
        ≡ stop_told 0
          ∷ on_state Proc.State.fail_stopped Proc.new
          ∷ on_error arg_parse_error
          ∷ (one_job (codes "  ")).log)
    × ((m1.handles 0).ret.state ≡ Proc.State.fail_stopped)
    × ((m1.handles 0).ret.err
        ≡ record {
          pexec_error = arg_parse_error;
          error_code = setting.os.errno (one_job (codes "  ")).log;
        }
          ∷ [])
    × (dispatch_job setting place (one_job (codes "  ")) ≡ fault)
dispatch_no_argument_example =
    dispatch_no_argument setting place 0 (codes "  ") false false false true []
      (one_job (codes "  ")) refl refl refl only_spaces

-- An object that was run once.
abbrev run_once : Multi
run_once = record (new_multi 3 4 external []) { sigchld = wired }

start_sigchld_again_example :
    (opens 5 (start_sigchld setting place run_once).log
      ≡ holds 5 (record { read_end = some 5; write_end = some 6 }) + opens 5 run_once.log)
    × (closes 5 (start_sigchld setting place run_once).log
        ≡ holds 5 (record { read_end = some 5; write_end = some 6 }) + closes 5 run_once.log)
    × ((start_sigchld setting place run_once).handler.err ≡ no_error)
    × ((start_sigchld setting place run_once).handler.pipe_signal ≡ no_pipe)
    × ((start_sigchld setting place run_once).handler.active ≡ false)
start_sigchld_again_example =
    start_sigchld_again setting place 5 5 6 run_once refl (λ log. refl) refl

-- The null job is taken, and then the process is no longer watched.
abbrev stopping_process : Multi
stopping_process = record (with_jobs [] one_process) {
  stopping = true;
  log = was_read (some 3) (got (0 ∷ [])) ∷ one_process.log;
}

job_taken : do_action ready_setting place 3 one_process ≡ done stopping_process
unfolding do_action act read_control after_control dispatch_job Buffer.remove Buffer.take_front
    Buffer.notify do_job job_nullptr_stop cleanup by_flag after_event get
job_taken = refl

abbrev state_of : Run Multi → Multi
state_of (done m) = m
state_of _ = one_process

abbrev last : Multi
last = state_of (do_action ready_setting place 8 stopping_process)

-- The facts on `last` that a run of it shows.
process_left :
    (do_action ready_setting place 8 stopping_process ≡ done last)
    × (last.stopping ≡ true)
    × (last.active_procs ≡ [])
unfolding do_action act get with_process read_close has_end close_seen user_stopped call_state
    close_fork_pipes close_pipe hear_new remove_read_event remove send_job Buffer.add
process_left = (refl, refl, refl)

reached : Reach ready_setting place last
reached = acted (acted (running refl) 3 job_taken) 8 process_left.0

reach-until_stop_example :
    (m1 : Multi) × (until_stop ready_setting place (length last.buffer.buffer) last ≡ done m1)
    × (m1.log ≡ last.log)
reach-until_stop_example =
    reach-until_stop ready_setting place reached process_left.1 process_left.2

-- The same process, with the pipe that leaves it to the user.
abbrev user_job : Multi
user_job = record (with_jobs (some (stop stop_user none) ∷ []) one_process) {
  handles = λ k. record watched_handle {
    ret = record watched_handle.ret {
      proc = record watched_handle.ret.proc { user_stop_fd = some 9 };
    };
  };
}

dispatch-tells_example :
    (m1 : Multi) × (dispatch_job setting place user_job ≡ done (nothing, m1))
    × (m1.stopping ≡ true)
    × (bytes_to 9 m1.log
        ≡ with_fd 9 user_job.handles user_job.active_procs + bytes_to 9 user_job.log)
    × (length m1.log ≡ length user_job.active_procs + length user_job.log)
dispatch-tells_example =
    dispatch-tells setting place 9 none [] user_job refl refl refl ((9, refl), tt)

abbrev told_of : Multi
told_of = record (new_multi 3 4 external []) { registers = true }

five : (r w : ℕ) → machine.pipe2 told_of.log ≡ some (r, w) → told_of.control_pipe.read_end ≢ some r
five r w e f = cc

run_external_example :
    (m1 : Multi) × (run setting place told_of ≡ done m1)
    × (Served setting place told_of m1 ⊎ Unserved setting place told_of m1)
run_external_example = run_external setting place told_of (refl, refl) refl refl five

-- A process that runs, with the descriptors 5, 7 and 9.
abbrev running_process : Multi
running_process = record told_of {
  handles = λ k. record watched_handle {
    fds = record {
      stdout_read_fd = some 5;
      stderr_read_fd = some 7;
      stdin_write_fd = some 6;
      watch_close_write_fd = some 9;
    };
  };
}

watch-proc_stopped_example :
    (m1 : Multi) × ((watch_process setting place 77 0 running_process >>= proc_stopped 77 0)
      ≡ done m1)
    × (m1.active_procs ≡ [])
    × (m1.registered ≡ [])
    × (m1.log
        ≡ fd_removed (some 7)
          ∷ fd_removed (some 5)
          ∷ fd_removed (some 9)
          ∷ fd_added (some 7)
          ∷ fd_added (some 5)
          ∷ fd_added (some 9)
          ∷ running_process.log)
unfolding get
watch-proc_stopped_example =
    watch-proc_stopped setting place 77 0 running_process (refl, refl) refl refl refl refl refl
      (λ e. cc) (λ e. cc) (λ e. cc)

-- A process that has written and reported an error.
abbrev told_log : Log
told_log = on_error no_error ∷ on_stdout (codes "hi") ∷ []

is_end_state : is_stop Proc.State.stopped ≡ true
unfolding is_stop
is_end_state = refl

hear_new-gather_example :
    let all : Log = on_state Proc.State.stopped Proc.new ∷ told_log in
    (hear_new (λ log. 0) (length all) all (new_handle (codes "ls") false false false true)).ret
    ≡ gather (λ log. 0) all (new_status (codes "ls"))
hear_new-gather_example =
    hear_new-gather (λ log. 0) (codes "ls") Proc.State.stopped Proc.new told_log true is_end_state
