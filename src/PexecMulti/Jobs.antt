-- ===== src/PexecMulti/Jobs.antt =====
-- The jobs: spawning and stopping, and the end of a process.
use pexec.Base.{
  ℕ, suc, ◌-◌, Bytes, Bool, true, false, not, ◌&&◌, Option, none, some, List, [], ◌∷◌, length, ltb,
  is_empty, if◌then◌else◌,
}
use pexec.PexecMulti.Handle.{
  PexecHandle, new_handle, on_stop, on_proc_stopped, pid, hear_new, has_end,
}
use pexec.PexecMulti.State.{
  Multi, Table, LoopType, default, external, StopFlag, stop_wait, stop_user, stop_kill, Job, stop,
  spawn, close_action, stdout_action, stderr_action, emit, put, remove, set_handle, send_job,
  add_read_event, remove_read_event,
}
use pexec.PexecSingle.Exec as Single
use pexec.PexecSingle.Exec.{get_fds}
use pexec.PexecSingle.Loop.{Setting}
use pexec.PexecSingle.State.{Pexec}
use pexec.ProcStatus.{ProcStatus}
use pexec.QueueBuffer as Buffer
use pexec.Run.{Run, done, fault, timeout, ◌>>=◌, assert_then}
use pexec.SelectEvent.{EventReturn, stop_loop, nothing, interrupt_event}
use pexec.SigchldHandler.{get_read_fd}
use pexec.System.{killed, wrote, stop_told}

-- `on_proc_stopped`, for the process `pid` of the handle `id`.
unfoldable pub proc_stopped : ℕ → ℕ → Multi → Run Multi
proc_stopped pid id m = do
  let fds = (m.handles id).fds
  m1 ← remove_read_event fds.watch_close_write_fd m
  m2 ← remove_read_event fds.stdout_read_fd m1
  m3 ← remove_read_event fds.stderr_read_fd m2
  let m4 = record m3 { active_procs = remove pid m3.active_procs }
  let stopped = send_job none m4
  if m4.stopping && is_empty m4.active_procs then stopped else done m4

-- `if(on_proc_stopped_cb_) on_proc_stopped_cb_();`
unfoldable pub call_stopped : Option ℕ → ℕ → Multi → Run Multi
unfolding proc_stopped
call_stopped none id m = done m
call_stopped (some pid) id m = proc_stopped pid id m

-- `if(on_stop_cb_) on_stop_cb_(ret_);`, and the internal callback.
unfoldable pub told_stopped : ℕ → Multi → Run Multi
unfolding call_stopped
told_stopped id m =
    let h = m.handles id in
    call_stopped h.stopped_pid id (if h.has_on_stop then emit (stop_told id) m else m)

-- `proc_status::user_stop`
unfoldable pub user_stop : ProcStatus → Multi → Run Multi
user_stop p m = elim p.user_stop_fd [
  | none ↦ fault
  | some fd ↦ done (emit (wrote (some fd) (0 ∷ [])) m)
]

-- The loops of `cleanup`, over the active processes.
unfoldable pub user_stop_all : List (ℕ × ℕ) → Multi → Run Multi
unfolding user_stop
user_stop_all [] m = done m
user_stop_all ((pid, id) ∷ procs) m = do
  m1 ← user_stop (m.handles id).ret.proc m
  user_stop_all procs m1

unfoldable pub kill_all : List (ℕ × ℕ) → Multi → Multi
kill_all [] m = m
kill_all ((pid, id) ∷ procs) m = kill_all procs (emit (killed pid m.stop_signum) m)

unfoldable pub by_flag : StopFlag → Multi → Run Multi
unfolding user_stop_all kill_all
by_flag stop_user m = user_stop_all m.active_procs m
by_flag stop_kill m = done (kill_all m.active_procs m)
by_flag stop_wait m = done m

-- `cleanup`
unfoldable pub cleanup : Multi → Run Multi
unfolding by_flag
cleanup m = by_flag m.stop_flag (record m { stopping = true })

-- `job_nullptr_stop`
unfoldable pub job_nullptr_stop : Multi → Run (EventReturn × Multi)
unfolding cleanup
job_nullptr_stop m =
    let cleaned : Run (EventReturn × Multi) = (do m1 ← cleanup m; done (nothing, m1)) in
    if not m.stopping && not (is_empty m.active_procs)
    then cleaned
    else done (if is_empty m.active_procs then stop_loop else nothing, m)

-- `job_stop`
unfoldable pub job_stop : StopFlag → Option ℕ → Multi → Run (EventReturn × Multi)
unfolding job_nullptr_stop
job_stop flag signum m =
    let stopped = job_nullptr_stop (record m { stop_flag = flag; stop_signum = signum }) in
    if m.stopping then done (nothing, m) else stopped

module _ (c : Setting) where
  open c use {os}

  -- What follows from the new state of a process, and from what it has told on the way.
  unfoldable pub heard : ℕ → Pexec → Multi → Run Multi
  unfolding told_stopped
  heard id p m =
      let k = length p.log - length m.log in
      let h = hear_new os.errno k p.log (record (m.handles id) { proc = p }) in
      let m1 = set_handle id h (record m { log = p.log }) in
      let ended = told_stopped id m1 in if has_end k p.log then ended else done m1

  -- A method of the process of the handle `id`.
  unfoldable pub with_process : ℕ → (Pexec → Run Pexec) → Multi → Run Multi
  unfolding heard
  with_process id method m = do
    p ← method (record (m.handles id).proc { log = m.log })
    heard id p m

  -- `pexec_multi_handle::exec`
  unfoldable pub exec_handle : ℕ → Multi → Run Multi
  unfolding with_process
  exec_handle id m = do
    m1 ← with_process id (λ p. Single.exec c (m.handles id).ret.args p) m
    let h = m1.handles id
    done (set_handle id (record h { fds = get_fds h.proc }) m1)

  module _ (place : Table → ℕ → ℕ) where
    -- The rest of `job_spawn_proc`, once the pid is known.
    unfoldable pub watch_process : ℕ → ℕ → Multi → Run Multi
    watch_process pid id m = do
      let h = m.handles id
      let m1 = record m { active_procs = put pid id m.active_procs }
      let m2 = set_handle id (on_proc_stopped pid h) m1
      m3 ← add_read_event place h.fds.watch_close_write_fd (close_action id) m2
      m4 ← add_read_event place h.fds.stdout_read_fd (stdout_action id) m3
      add_read_event place h.fds.stderr_read_fd (stderr_action id) m4

    -- `job_spawn_proc` when not stopping.
    unfoldable pub spawn_job : ℕ → Multi → Run Multi
    unfolding exec_handle watch_process
    spawn_job id m = do
      m1 ← exec_handle id m
      let p = pid (m1.handles id)
      assert_then (ltb 0 p) (watch_process p id m1)

    -- `job_spawn_proc`
    unfoldable pub job_spawn_proc : ℕ → Multi → Run (EventReturn × Multi)
    unfolding spawn_job
    job_spawn_proc id m =
        let spawned : Run (EventReturn × Multi) = (do m1 ← spawn_job id m; done (nothing, m1)) in
        if m.stopping then done (nothing, m) else spawned

  module _ (place : Table → ℕ → ℕ) where
    -- One job of the buffer. The inner `none` is the null pointer, the outer one an empty buffer, at
    -- which the loop waits.
    unfoldable pub do_job : Option (Option Job) → Multi → Run (EventReturn × Multi)
    unfolding job_nullptr_stop job_stop job_spawn_proc
    do_job none m = timeout
    do_job (some none) m = job_nullptr_stop m
    do_job (some (some (stop flag signum))) m = job_stop flag signum m
    do_job (some (some (spawn id))) m = job_spawn_proc place id m

    -- `dispatch_job`
    unfoldable pub dispatch_job : Multi → Run (EventReturn × Multi)
    unfolding do_job
    dispatch_job m =
        let (job, buffer) = Buffer.remove m.buffer in do_job job (record m { buffer = buffer })

-- `exec`, with the callbacks that the caller has set, and `stop`; any thread can call them. What
-- `make_shared` returns is never null, so the branches for a null pointer are not taken.
unfoldable pub exec : PexecHandle → Multi → Run Multi
exec h m = send_job (some (spawn m.made)) (set_handle m.made h (record m { made = suc m.made }))

-- `exec(args, status_cb)`: whether there is a callback.
unfoldable pub exec_status : Bytes → Bool → Multi → Run Multi
unfolding exec
exec_status args cb m = exec (on_stop cb (new_handle args false false false false)) m

-- `exec(args, proc_cb)`: what the callback sets.
unfoldable pub exec_proc : Bytes → (PexecHandle → PexecHandle) → Multi → Run Multi
unfolding exec
exec_proc args cb m = exec (cb (new_handle args false false false false)) m

unfoldable pub stop_all : StopFlag → Option ℕ → Multi → Run Multi
stop_all flag signum m = send_job (some (stop flag signum)) m

-- `if(type == loop_type::DEFAULT) loop->interrupt();`
unfoldable pub interrupt_loop : LoopType → Multi → Multi
interrupt_loop default m = emit (interrupt_event m.loop) m
interrupt_loop external m = m

-- `handle_stop`
unfoldable pub handle_stop : Multi → Run Multi
unfolding interrupt_loop
handle_stop m = do
  m1 ← remove_read_event (get_read_fd m.handler) m
  m2 ← remove_read_event m1.control_pipe.read_end m1
  let m3 = record m2 { stop_flag = stop_wait; stop_signum = none; stopping = false }
  done (interrupt_loop m3.kind m3)
