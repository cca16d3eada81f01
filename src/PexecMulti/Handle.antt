-- ===== src/PexecMulti/Handle.antt =====
-- `pexec_multi_handle`: a process with what it has told so far. Its callbacks are run where the log
-- has their events. The callback for an end of the process is the last thing that a method of `pexec`
-- does; the others change the handle's own record only, which the methods do not read.
use pexec.Base.{
  ℕ, zero, suc, Bytes, Bool, false, ◌||◌, Option, none, some, [], ◌∷◌, ◌++◌, ◌==◌, if◌then◌else◌,
}
use pexec.ExecHelper.{PexecStatus, new_status}
use pexec.ProcStatus as Proc
use pexec.PexecSingle.Exec.{PexecFds}
use pexec.PexecSingle.State.{Pexec, nonblocking, new_pexec}
use pexec.System.{Event, Log, on_error, on_state, on_stdout, on_stderr}
use pexec.System.Ledger.{is_final}
use pexec.Util.{c_str}

-- Whether each callback of the user's is set; what it is told is in the log. `stopped_pid` is the
-- pid that `on_proc_stopped_cb_` has captured, `none` while it is not set.
pub record PexecHandle : Type 0 where
  pub proc : Pexec
  pub fds : PexecFds
  pub has_stdout_cb : Bool
  pub has_stderr_cb : Bool
  pub has_error_cb : Bool
  pub has_on_stop : Bool
  pub stopped_pid : Option ℕ
  pub ret : PexecStatus
  pub stdout_oss : Bytes
  pub stderr_oss : Bytes

-- The constructor, with the callbacks set that the user sets before the job is sent.
abbrev pub new_handle : Bytes → Bool → Bool → Bool → Bool → PexecHandle
new_handle args has_stdout_cb has_stderr_cb has_error_cb has_on_stop =
    let p = new_pexec nonblocking [] in
    record {
      proc = p;
      fds = record {
        stdout_read_fd = some 0;
        stderr_read_fd = some 0;
        stdin_write_fd = some 0;
        watch_close_write_fd = some 0;
      };
      has_stdout_cb = has_stdout_cb;
      has_stderr_cb = has_stderr_cb;
      has_error_cb = has_error_cb;
      has_on_stop = has_on_stop;
      stopped_pid = none;
      ret = new_status args;
      stdout_oss = [];
      stderr_oss = [];
    }

-- `set_stdout_cb`, `set_stderr_cb`, `set_error_cb`, `on_stop`: whether the function that is given is
-- not empty. What `set_state_cb` is given is only told.
abbrev pub set_stdout_cb : Bool → PexecHandle → PexecHandle
set_stdout_cb cb h = record h { has_stdout_cb = cb }

abbrev pub set_stderr_cb : Bool → PexecHandle → PexecHandle
set_stderr_cb cb h = record h { has_stderr_cb = cb }

abbrev pub set_state_cb : Bool → PexecHandle → PexecHandle
set_state_cb cb h = h

abbrev pub set_error_cb : Bool → PexecHandle → PexecHandle
set_error_cb cb h = record h { has_error_cb = cb }

abbrev pub on_stop : Bool → PexecHandle → PexecHandle
on_stop cb h = record h { has_on_stop = cb }

-- `on_proc_stopped`, for a function that has captured `pid`.
abbrev pub on_proc_stopped : ℕ → PexecHandle → PexecHandle
on_proc_stopped pid h = record h { stopped_pid = some pid }

-- `pid`
unfoldable pub pid : PexecHandle → ℕ
pid h = h.ret.proc.pid

-- The three final states: STOPPED, USER_STOPPED, FAIL_STOPPED.
unfoldable pub is_stop : Proc.State → Bool
is_stop st = is_final st == 1

-- `ret_` as the user of `on_stop` gets it.
unfoldable pub with_output : PexecHandle → PexecHandle
with_output h = record h { ret = record h.ret { proc_out = h.stdout_oss; proc_err = h.stderr_oss } }

-- The callbacks that the constructor registers, up to `on_stop_cb_`.
unfoldable pub hear : ℕ → Event → PexecHandle → PexecHandle
unfolding is_stop with_output c_str
hear errno (on_error e) h = if h.has_error_cb then h else record h {
  ret = record h.ret { err = h.ret.err ++ record { pexec_error = e; error_code = errno } ∷ [] };
}
hear errno (on_stdout bytes) h =
    if h.has_stdout_cb then h else record h { stdout_oss = h.stdout_oss ++ c_str bytes }
hear errno (on_stderr bytes) h =
    if h.has_stderr_cb then h else record h { stderr_oss = h.stderr_oss ++ c_str bytes }
hear errno (on_state st p) h =
    let h1 : PexecHandle = record h { ret = record h.ret { proc = p; state = st } } in
    if is_stop st then with_output h1 else h1
hear errno e h = h

-- The `k` newest events of a log, the oldest of them first.
unfoldable pub hear_new : (Log → ℕ) → ℕ → Log → PexecHandle → PexecHandle
unfolding hear
hear_new errno zero log h = h
hear_new errno (suc k) [] h = h
hear_new errno (suc k) (e ∷ log) h = hear (errno log) e (hear_new errno k log h)

unfoldable pub is_end : Event → Bool
unfolding is_stop
is_end (on_state st p) = is_stop st
is_end _ = false

-- Whether one of the `k` newest events is an end of the process.
unfoldable pub has_end : ℕ → Log → Bool
unfolding is_end
has_end zero log = false
has_end (suc k) [] = false
has_end (suc k) (e ∷ log) = is_end e || has_end k log
