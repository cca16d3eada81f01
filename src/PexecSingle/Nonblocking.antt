-- ===== src/PexecSingle/Nonblocking.antt =====
-- `exec` of a non-blocking process, which `pexec_multi` uses, and of a blocking one up to the fork.
use pexec.Base.{ℕ, ◌+◌, Bytes, Bool, true, false, [], ◌∷◌, ◌≡◌, ◌∙◌, refl, ◌⊎◌, inl, inr, arith}
use pexec.ArgumentParser.{str2arg}
use pexec.Error.{no_error, arg_parse_error}
use pexec.ProcStatus as Proc
use pexec.Run.{done}
use pexec.System.{Log, on_error, on_state}
use pexec.System.Ledger.{opens, closes, finals}
use pexec.Util.{close_pipe}
use pexec.PexecSingle.State.{
  Pexec, ExecType, blocking, nonblocking, new_pexec, process_error, call_state,
}
use pexec.PexecSingle.Pipes.{
  prepare_args, give_up, fail_stopped, close_fork_pipes, close_signal_pipe,
}
use pexec.PexecSingle.Loop.{Setting}
use pexec.PexecSingle.Exec.{announce, prepare, supervise, start, exec}
use pexec.PexecSingle.Closing.{held}
use pexec.PexecSingle.Ready.{Failed, Stage, prepare-Stage}
use pexec.PexecSingle.NoLeak.{fresh-Ready}

module _ (c : Setting) (n : ℕ) where
  -- The process runs: every descriptor opened and not closed is in the object's pipes, and the user
  -- has both ends that are for him.
  pub record Running (s t : Pexec) : Type 0 where
    pub owns : opens n t.log ≡ closes n t.log + held n t
    pub is_running : t.proc.running ≡ true
    pub write_end : t.proc.stdin_fd ≡ t.pipe_stdin.write_end
    pub stop_end : t.proc.user_stop_fd ≡ t.pipe_close_watch.write_end
    pub untold : finals t.log ≡ finals s.log

  start-cases :
      (s : Pexec) (r : Pexec × Bool)
      → s.type ≡ nonblocking
      → Stage n s 5 r
      → (t : Pexec) × (start c r ≡ done t) × (Failed n s t ⊎ Running s t)
  unfolding start supervise announce call_state
  start-cases s (t, false) b h = (t, refl, inl (h.on_failed refl))
  start-cases s (t, true) b h =
      let ready = h.on_ready refl in
      (announce t, kinds t.type (ready.same_type ∙ b), inr (ground arith))
    where
      kinds :
          (kind : ExecType) → kind ≡ nonblocking → supervise c kind (announce t) ≡ done (announce t)
      kinds nonblocking e = refl
      kinds blocking e = cc

  -- From a log that opens and closes a descriptor equally often, a non-blocking `exec` of a new
  -- object returns: either it has failed, all that it opened is closed and one end has been
  -- reported, or the process runs, the object holds what is open, and no end has been reported.
  pub exec_nonblocking :
      (arg : Bytes) (log : Log)
      → opens n log ≡ closes n log
      → (t : Pexec) × (exec c arg (new_pexec nonblocking log) ≡ done t)
        × (Failed n (new_pexec nonblocking log) t ⊎ Running (new_pexec nonblocking log) t)
  unfolding exec
  exec_nonblocking arg log h =
      let s = new_pexec nonblocking log in
      start-cases s (prepare c.os (record s { spawn_process_arg = arg; state = no_error })) refl
        (prepare-Stage c.os n s _ (fresh-Ready c n arg nonblocking log h))

abbrev ended : Bytes → ExecType → Log → Pexec
ended arg kind log = record (new_pexec kind log) {
  state = arg_parse_error;
  spawn_process_arg = arg;
  log = on_state Proc.State.fail_stopped Proc.new ∷ on_error arg_parse_error ∷ log;
}

-- A command line with no argument opens nothing: the error and the end are reported, in this order,
-- and `exec` returns, in either mode.
pub exec_no_argument :
    (c : Setting) (arg : Bytes) (kind : ExecType) (log : Log)
    → str2arg arg ≡ []
    → (t : Pexec) × (exec c arg (new_pexec kind log) ≡ done t)
      × (t.log ≡ on_state Proc.State.fail_stopped Proc.new ∷ on_error arg_parse_error ∷ log)
      × (t.state ≡ arg_parse_error)
unfolding exec start prepare prepare_args give_up fail_stopped close_fork_pipes close_signal_pipe
    close_pipe process_error call_state
exec_no_argument c arg blocking log h = (ended arg blocking log, rw h, refl, refl)
exec_no_argument c arg nonblocking log h = (ended arg nonblocking log, rw h, refl, refl)
