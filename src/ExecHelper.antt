-- ===== src/ExecHelper.antt =====
-- src/pexec/exec.cpp, pexec_status.h and pexec_status.cpp: `exec`, which runs a blocking call and
-- gathers what its callbacks are told. The callbacks are run where the log has their events.
pub mod Output
mod Examples
use pexec.Base.{ℕ, Bytes, Bool, List, [], ◌∷◌, ◌++◌, is_empty}
use pexec.Error.{Error, Perror}
use pexec.ProcStatus as Proc
use pexec.ProcStatus.{ProcStatus}
use pexec.Run.{Run, done, ◌>>=◌}
use pexec.System.{Event, Log, on_error, on_state, on_stdout, on_stderr}
use pexec.Util.{c_str}
use pexec.PexecSingle.State.{Pexec, blocking, new_pexec}
use pexec.PexecSingle.Loop.{Setting}
use pexec.PexecSingle.Exec as Single

-- `struct pexec_status`
pub record PexecStatus : Type 0 where
  pub proc_out : Bytes
  pub proc_err : Bytes
  pub args : Bytes
  pub state : Proc.State
  pub proc : ProcStatus
  pub err : List Perror

-- `pexec_status ret{}; ret.args = arg;`, whose state is the first of its enumeration.
abbrev pub new_status : Bytes → PexecStatus
new_status arg = record {
  proc_out = [];
  proc_err = [];
  args = arg;
  state = Proc.State.started;
  proc = Proc.new;
  err = [];
}

-- `pexec_status::valid`
unfoldable pub valid : PexecStatus → Bool
valid s = is_empty s.err

-- The four callbacks; `errno` is its value when the callback is called. `oss << data` takes `data`
-- for a C string.
unfoldable pub hear : ℕ → Event → PexecStatus → PexecStatus
unfolding c_str
hear errno (on_error e) s = record s {
  err = s.err ++ record { pexec_error = e; error_code = errno } ∷ [];
}
hear errno (on_stdout bytes) s = record s { proc_out = s.proc_out ++ c_str bytes }
hear errno (on_stderr bytes) s = record s { proc_err = s.proc_err ++ c_str bytes }
hear errno (on_state st p) s = record s { proc = p; state = st }
hear errno e s = s

-- After the events of a log.
unfoldable pub gather : (Log → ℕ) → Log → PexecStatus → PexecStatus
unfolding hear
gather errno [] s = s
gather errno (e ∷ log) s = hear (errno log) e (gather errno log s)

-- `exec`
unfoldable pub exec : Setting → Bytes → Run PexecStatus
unfolding gather
exec c arg = do
  t ← Single.exec c arg (new_pexec blocking [])
  done (gather c.os.errno t.log (new_status arg))
