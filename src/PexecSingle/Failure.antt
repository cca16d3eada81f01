-- ===== src/PexecSingle/Failure.antt =====
-- The error paths of `exec` up to the fork, in both modes.
use pexec.Base.{ℕ, Bytes, Bool, true, false, not, is_empty, arith, List, [], ◌∷◌, ◌≡◌, refl}
use pexec.Error.{no_error, arg_parse_error}
use pexec.Run.{done}
use pexec.System.{Log}
use pexec.System.Ledger.{opens, closes}
use pexec.PexecSingle.State.{Pexec, ExecType, new_pexec, process_error, call_state}
use pexec.ArgumentParser.{str2arg}
use pexec.Util.Close.{length-arg2argc}
use pexec.PexecSingle.Pipes.{prepare_args, give_up, fail_stopped, close_fork_pipes}
use pexec.PexecSingle.Loop.{Setting}
use pexec.PexecSingle.Exec.{prepare, start, exec}
use pexec.PexecSingle.Ready.{Failed, Stage, prepare-Stage}
use pexec.PexecSingle.NoLeak.{fresh-Ready}

-- The object with which the preparation starts.
abbrev pub begun : Bytes → ExecType → Log → Pexec
begun arg kind log = record (new_pexec kind log) { spawn_process_arg = arg; state = no_error }

module _ (c : Setting) (n : ℕ) where
  start-Failed :
      (s : Pexec) (r : Pexec × Bool)
      → r.1 ≡ false
      → Stage n s 5 r
      → (t : Pexec) × (start c r ≡ done t) × Failed n s t
  unfolding start
  start-Failed s (t, false) e h = (t, refl, h.on_failed refl)
  start-Failed s (t, true) e h = cc

  -- From a log that opens and closes a descriptor equally often, in either mode: when the
  -- arguments, a pipe, the handler or the fork fails, `exec` of a new object returns: all that it
  -- opened is closed, its pipes hold no descriptor, and one end is reported.
  pub exec_unprepared :
      (arg : Bytes) (kind : ExecType) (log : Log)
      → opens n log ≡ closes n log
      → (prepare c.os (begun arg kind log)).1 ≡ false
      → (t : Pexec) × (exec c arg (new_pexec kind log) ≡ done t) × Failed n (new_pexec kind log) t
  unfolding exec
  exec_unprepared arg kind log h e =
      start-Failed (new_pexec kind log) (prepare c.os (begun arg kind log)) e (
        prepare-Stage c.os n (new_pexec kind log) (begun arg kind log)
          (fresh-Ready c n arg kind log h))

-- The preparation of the arguments fails exactly when the command line has none, and then the error
-- is ARG_PARSE_ERROR: ARG_PARSE_C_ERROR is never reported.
pub prepare_args_lem :
    (s : Pexec)
    → ((prepare_args s).1 ≡ not (is_empty (str2arg s.spawn_process_arg)))
      × ((prepare_args s).1 ≡ false → (prepare_args s).0.state ≡ arg_parse_error)
unfolding prepare_args give_up fail_stopped close_fork_pipes process_error call_state
prepare_args_lem s = go (str2arg s.spawn_process_arg) refl
  where
    go :
        (args : List Bytes)
        → str2arg s.spawn_process_arg ≡ args
        → ((prepare_args s).1 ≡ not (is_empty args))
          × ((prepare_args s).1 ≡ false → (prepare_args s).0.state ≡ arg_parse_error)
    go [] e = unfold prepare_args in ground (arith, e)
    go (a ∷ args) e = unfold prepare_args in ground (arith, e, length-arg2argc (a ∷ args))
