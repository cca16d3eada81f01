-- ===== src/ProcStatus.antt =====
-- src/pexec/proc_status.h and proc_status.cpp: what is known of a child process.
pub mod Wait
pub mod Update
pub mod Print
mod Examples
use pexec.Base.{
  ℕ, Bytes, Bool, true, false, not, ◌||◌, Option, none, some, [], ◌∷◌, ◌++◌, ◌==◌, if◌then◌else◌,
  codes,
}
use Wait.{WaitMacros}

-- `enum class state`
pub data State : Type 0 where
  started signaled stopped user_stopped fail_stopped : State

-- The `switch` covers the enumeration, so the missing `return` behind it is never reached.
unfoldable pub state2str : State → Bytes
state2str started = codes "STARTED"
state2str signaled = codes "SIGNALED"
state2str stopped = codes "STOPPED"
state2str user_stopped = codes "USER_STOPPED"
state2str fail_stopped = codes "FAIL_STOPPED"

-- `struct proc_status`. A descriptor is `none` where the source has -1, its only negative value.
pub record ProcStatus : Type 0 where
  pub user_stop_fd : Option ℕ
  pub pid : ℕ
  pub stdin_fd : Option ℕ
  pub running : Bool
  pub wstatus : ℕ
  pub exited : Bool
  pub return_code : ℕ
  pub signaled : Bool
  pub signaled_signal : ℕ
  pub generated_core_dump : Bool
  pub stopped : Bool
  pub stopped_signal : Bool  -- declared `bool` in the source
  pub continued : Bool

-- The member initialisers.
abbrev pub new : ProcStatus
new = record {
  user_stop_fd = none;
  pid = 0;
  stdin_fd = none;
  running = false;
  wstatus = 0;
  exited = false;
  return_code = 0;
  signaled = false;
  signaled_signal = 0;
  generated_core_dump = false;
  stopped = false;
  stopped_signal = false;
  continued = false;
}

-- An `int` assigned to a `bool`.
abbrev to_bool : ℕ → Bool
to_bool n = not (n == 0)

module _ (m : WaitMacros) where
  open m use {
    wifexited, wexitstatus, wifsignaled, wtermsig, wcoredump, wifstopped, wstopsig, wifcontinued,
  }

  set_exited : ℕ → ProcStatus → ProcStatus
  set_exited status p =
      let q = record p { exited = wifexited status } in
      if q.exited then record q { return_code = wexitstatus status } else q

  set_signaled : ℕ → ProcStatus → ProcStatus
  set_signaled status p =
      let q = record p { signaled = wifsignaled status } in
      if q.signaled
      then record q { signaled_signal = wtermsig status; generated_core_dump = wcoredump status }
      else q

  set_stopped : ℕ → ProcStatus → ProcStatus
  set_stopped status p =
      let q = record p { stopped = wifstopped status } in
      if q.stopped then record q { stopped_signal = to_bool (wstopsig status) } else q

  set_running : ℕ → ProcStatus → ProcStatus
  set_running status p =
      let q = record p { continued = wifcontinued status } in
      record q { running = not (q.signaled || q.exited) }

  unfoldable pub update_status : ProcStatus → ℕ → ProcStatus
  unfolding set_exited set_signaled set_stopped set_running
  update_status p status =
      set_running status (
        set_stopped status
          (set_signaled status (set_exited status (record p { wstatus = status }))))
