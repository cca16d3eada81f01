-- ===== src/PexecSingle/State.antt =====
-- The members of `pexec<BUFFER_SIZE>`, and the two ways in which it reports to its user.
use pexec.Base.{ℕ, Bytes, Bool, false, Option, some, List, [], ◌∷◌}
use pexec.Error.{Error, no_error}
use pexec.ProcStatus as Proc
use pexec.ProcStatus.{ProcStatus}
use pexec.System.{Event, Log, Pipe, on_error, on_state}
use pexec.Util.Close.{no_pipe}

-- `enum type`
pub data ExecType : Type 0 where
  blocking nonblocking : ExecType

-- The class's members, the global `sigchld_blocking_pipe_signal` (`pipe_signal`) and the log of what
-- was called. `none` is -1. The read buffer is filled and handed on within one function.
pub record Pexec : Type 0 where
  pub type : ExecType
  pub state : Error
  pub pipe_stdin : Pipe
  pub pipe_stdout : Pipe
  pub pipe_stderr : Pipe
  pub pipe_signal : Pipe
  pub pipe_close_watch : Pipe
  pub args : List Bytes
  pub args_c : List (Option Bytes)
  pub proc : ProcStatus
  pub proc_killed : Bool
  pub user_stopped : Bool
  pub status : ℕ
  pub proc_pid : Option ℕ
  pub spawn_process_arg : Bytes
  pub log : Log

-- The member initialisers, for a log of earlier calls.
abbrev pub new_pexec : ExecType → Log → Pexec
new_pexec t log = record {
  type = t;
  state = no_error;
  pipe_stdin = no_pipe;
  pipe_stdout = no_pipe;
  pipe_stderr = no_pipe;
  pipe_signal = no_pipe;
  pipe_close_watch = no_pipe;
  args = [];
  args_c = [];
  proc = Proc.new;
  proc_killed = false;
  user_stopped = false;
  status = 0;
  proc_pid = some 0;
  spawn_process_arg = [];
  log = log;
}

abbrev pub emit : Event → Pexec → Pexec
emit e s = record s { log = e ∷ s.log }

-- `set_type`
abbrev pub set_type : ExecType → Pexec → Pexec
set_type t s = record s { type = t }

-- `process_error`
unfoldable pub process_error : Error → Pexec → Pexec
process_error st s = record s { log = on_error st ∷ s.log; state = st }

-- `call_state`
unfoldable pub call_state : Proc.State → Pexec → Pexec
call_state st s = record s { log = on_state st s.proc ∷ s.log }

-- `if(!…()) return …;`: what follows a step that may fail.
infixl 5 ◌>>?◌
abbrev pub ◌>>?◌ : Pexec × Bool → (Pexec → Pexec × Bool) → Pexec × Bool
(s, Bool.true) >>? f = f s
(s, Bool.false) >>? f = (s, false)
