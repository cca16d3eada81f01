-- ===== src/PexecMulti/State.antt =====
-- The members of `pexec_multi`, the tables, and the sending of jobs.
use pexec.Base.{ℕ, suc, ◌-◌, ◌^◌, Bool, Option, none, some, List, [], ◌∷◌, ◌==◌, if◌then◌else◌}
use pexec.Error.{Error}
use pexec.PexecMulti.Handle.{PexecHandle}
use pexec.QueueBuffer.{Queue, add}
use pexec.Run.{Run, done, fault, timeout, ◌>>=◌}
use pexec.SelectEvent
use pexec.SelectEvent.{Callback, Loop, interrupt_event}
use pexec.SigchldHandler.{Handler}
use pexec.System.{Event, Log, Pipe, on_error, wrote, fd_added, fd_removed}

-- `enum class loop_type`
pub data LoopType : Type 0 where
  default external : LoopType

-- `enum class stop_flag`
pub data StopFlag : Type 0 where
  stop_wait stop_user stop_kill : StopFlag

-- `pexec_job` with its two subclasses. A handle is known by its number, and -1 is `none`.
pub data Job : Type 0 where
  stop : StopFlag → Option ℕ → Job
  spawn : ℕ → Job

-- The functions of `registered_fd_`: the two of `run`, and the three of `job_spawn_proc`.
pub data Action : Type 0 where
  signal_action control_action : Action
  close_action stdout_action stderr_action : ℕ → Action

-- All functions that `run` gives to the loop are the same: `do_action`.
abbrev pub Table : Type 0
Table = List (ℕ × Callback (Unit {0}))

-- The `sigchld` pointer: null, or to an object of which the callbacks are not set or set.
pub data Sigchld : Type 0 where
  no_handler mute wired : Sigchld

-- `handler` has the handler object's error and the globals behind it, `has_loop` is whether `loop` is
-- not null.
-- `handles` are the objects made so far, of which there are `made`. `registers` is whether
-- `register_event` was called. A job of `none` is the null pointer.
pub record Multi : Type 0 where
  pub control_pipe : Pipe
  pub kind : LoopType
  pub sigchld : Sigchld
  pub handler : Handler
  pub loop : Loop (Unit {0})
  pub has_loop : Bool
  pub buffer : Queue (Option Job)
  pub active_procs : List (ℕ × ℕ)
  pub handles : ℕ → PexecHandle
  pub made : ℕ
  pub err : Error
  pub registered : List (ℕ × Action)
  pub registers : Bool
  pub stop_flag : StopFlag
  pub stop_signum : Option ℕ
  pub stopping : Bool
  pub log : Log

abbrev pub emit : Event → Multi → Multi
emit e m = record m { log = e ∷ m.log }

-- `set_type`
abbrev pub set_type : LoopType → Multi → Multi
set_type kind m = record m { kind = kind }

-- `register_event`: whether the function that is given is not empty.
abbrev pub register_event : Bool → Multi → Multi
register_event cb m = record m { registers = cb }

-- `last_error`
abbrev pub last_error : Multi → Error
last_error m = m.err

-- `process_error`
unfoldable pub process_error : Error → Multi → Multi
process_error err m = record m { err = err; log = on_error err ∷ m.log }

-- An `unordered_map` as a list in its order of iteration; where a new key stands is not said, and
-- nothing here depends on it.
module _ {A : Type 0} where
  unfoldable pub get : ℕ → List (ℕ × A) → Option A
  get k [] = none
  get k ((j, a) ∷ t) = if k == j then some a else get k t

  -- `t[k] = a`
  unfoldable pub put : ℕ → A → List (ℕ × A) → List (ℕ × A)
  put k a [] = (k, a) ∷ []
  put k a ((j, b) ∷ t) = if k == j then (k, a) ∷ t else (j, b) ∷ put k a t

  -- `it = t.find(k); if(it != t.end()) t.erase(it);`
  unfoldable pub remove : ℕ → List (ℕ × A) → List (ℕ × A)
  remove k [] = []
  remove k ((j, a) ∷ t) = if k == j then t else (j, a) ∷ remove k t

abbrev pub set_handle : ℕ → PexecHandle → Multi → Multi
set_handle id h m = record m { handles = λ k. if k == id then h else m.handles k }

abbrev pub queue_size : ℕ
queue_size = 2 ^ 64 - 1

-- `interrupt`
unfoldable pub interrupt : Multi → Multi
interrupt m = emit (wrote m.control_pipe.write_end (0 ∷ [])) m

-- `send_job`: a thread that waits for room in the buffer does not go on.
unfoldable pub send_job : Option Job → Multi → Run Multi
unfolding interrupt
send_job job m = elim (add queue_size job m.buffer) [
  | none ↦ timeout
  | some buffer ↦ done (interrupt (record m { buffer = buffer }))
]

-- The key of a descriptor in `registered_fd_`: -1 is one too.
abbrev pub fd_key : Option ℕ → ℕ
fd_key none = 0
fd_key (some fd) = suc fd

-- `if(register_function_cb_) …;`, for a function of the user's.
abbrev pub tell_user : Event → Multi → Multi
tell_user e m = if m.registers then emit e m else m

-- `place` says where the loop's table puts a new key.
module _ (place : Table → ℕ → ℕ) where
  -- `register_function_cb_(fd, fd_action::ADD_EVENT, …)`. `select` cannot watch a descriptor of -1.
  unfoldable pub register : LoopType → Option ℕ → Multi → Run Multi
  register default none m = fault
  register default (some fd) m = do
    l ← SelectEvent.add_read_event place fd (Callback.client tt) m.loop
    done (record m { loop = l })
  register external fd m = done (tell_user (fd_added fd) m)

  -- `add_read_event`
  unfoldable pub add_read_event : Option ℕ → Action → Multi → Run Multi
  unfolding register
  add_read_event fd a m =
      register m.kind fd (record m { registered = put (fd_key fd) a m.registered })

-- `register_function_cb_(fd, fd_action::REMOVE_EVENT, …)`. A descriptor of -1 is not in the table.
unfoldable pub unregister : LoopType → Option ℕ → Multi → Run Multi
unregister default none m = fault
unregister default (some fd) m = do
  l ← SelectEvent.remove_read_event fd m.loop
  done (record m { loop = l })
unregister external fd m = done (tell_user (fd_removed fd) m)

-- `remove_read_event`
unfoldable pub remove_read_event : Option ℕ → Multi → Run Multi
unfolding unregister
remove_read_event fd m =
    unregister m.kind fd (record m { registered = remove (fd_key fd) m.registered })
