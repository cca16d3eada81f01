-- ===== src/System.antt =====
-- The operating system under the library, none of which is in the repository: what its calls can
-- answer, and the log of all that was called. The system is a parameter, `Os`: each answer is an
-- arbitrary function of the log so far, so a statement for every `Os` holds for every behaviour of
-- the system. The calls of the user's callbacks are events of the same log.
pub mod Ledger
use pexec.Base.{ℕ, suc, ◌≤◌, ◌≢◌, Bytes, Bool, Option, List, [], ◌∷◌, length}
use pexec.Error.{Error}
use pexec.ProcStatus.{ProcStatus, State}

-- The values of `errno` that the code tells apart.
pub data Errno : Type 0 where
  eintr eagain echild other_errno : Errno

-- ::read: the bytes (none at the end of the file), or -1.
pub data ReadResult : Type 0 where
  got : Bytes → ReadResult
  read_failed : Errno → ReadResult

-- ::waitpid with WNOHANG: a pid with its status, 0, or -1.
pub data WaitResult : Type 0 where
  reaped : ℕ → ℕ → WaitResult
  not_ready : WaitResult
  wait_failed : Errno → WaitResult

-- ::select: the descriptors that are ready, or -1.
pub data SelectResult : Type 0 where
  ready : (ℕ → Bool) → SelectResult
  select_failed : Errno → SelectResult

-- A descriptor variable holds `none` for -1. Actions come with what the system answered.
pub data Event : Type 0 where
  opened : ℕ → ℕ → Event  -- pipe2, pipe
  open_failed : Event
  closed : ℕ → Event
  was_read : Option ℕ → ReadResult → Event
  wrote : Option ℕ → Bytes → Event
  got_flags : ℕ → Event  -- fcntl(fd, F_GETFL)
  set_flags : ℕ → ℕ → Bool → Event  -- fcntl(fd, F_SETFL, flags), and whether it succeeded
  handler_installed handler_restored : Bool → Event  -- sigaction
  blocked unblocked : Bool → Event  -- sigprocmask
  forked : Option ℕ → Event
  waited : WaitResult → Event
  selected : SelectResult → Event
  killed : ℕ → Option ℕ → Event  -- kill(pid, signal)
  on_error : Error → Event  -- from here on: the user's callbacks
  on_state : State → ProcStatus → Event
  on_stdout on_stderr : Bytes → Event
  stop_told : ℕ → Event  -- `on_stop` of the job with this number
  fd_added fd_removed : Option ℕ → Event  -- the function given to `register_event`

-- Newest first.
abbrev pub Log : Type 0
Log = List Event

pub record Os : Type 0 where
  pub pipe2 : Log → Option (ℕ × ℕ)
  pub read : Log → Option ℕ → ℕ → ReadResult
  pub get_flags : Log → ℕ → ℕ
  pub set_flags : Log → ℕ → ℕ → Bool
  pub sigaction : Log → Bool
  pub sigprocmask : Log → Bool
  pub fork : Log → Option ℕ
  pub waitpid : Log → Option ℕ → WaitResult
  pub select : Log → SelectResult
  pub errno : Log → ℕ

-- `int p[2]`
pub record Pipe : Type 0 where
  pub read_end : Option ℕ
  pub write_end : Option ℕ

-- How many calls in a row `EINTR` has interrupted.
abbrev pub interrupted : Log → ℕ
interrupted (was_read fd (read_failed eintr) ∷ log) = suc (interrupted log)
interrupted (waited (wait_failed eintr) ∷ log) = suc (interrupted log)
interrupted (selected (select_failed eintr) ∷ log) = suc (interrupted log)
interrupted _ = 0

-- How many times `select` has been called.
abbrev pub selects : Log → ℕ
selects (selected r ∷ log) = suc (selects log)
selects (e ∷ log) = selects log
selects [] = 0
