-- ===== src/PexecMulti/Rule.antt =====
-- The rule for invariants of the two tables of `pexec_multi`: what `add_read_event` and
-- `remove_read_event` keep, every operation keeps.
use pexec.Base.{
  ℕ, ◌-◌, Bool, true, false, not, ◌&&◌, Option, none, some, List, [], ◌∷◌, length, is_empty,
  Option-cases, inl, inr, if◌then◌else◌,
}
use pexec.PexecMulti.Handle.{pid, has_end, hear_new}
use pexec.PexecMulti.Jobs.{
  proc_stopped, call_stopped, told_stopped, user_stop, user_stop_all, kill_all, by_flag, cleanup,
  job_nullptr_stop, job_stop, heard, with_process, interrupt_loop, handle_stop,
}
use pexec.PexecMulti.State.{
  Multi, Table, LoopType, default, external, StopFlag, stop_wait, stop_user, stop_kill, Job, Action,
  emit, remove, set_handle, queue_size, interrupt, send_job, add_read_event, remove_read_event,
}
use pexec.PexecSingle.Loop.{Setting}
use pexec.PexecSingle.State.{Pexec}
use pexec.QueueBuffer.{add}
use pexec.Run.{Run, done, Ensures, Ensures-bind, Ensures-if, Ensures-any}
use pexec.SelectEvent.{EventReturn, nothing, Loop}
use pexec.SigchldHandler.{get_read_fd}
use pexec.System.{killed, stop_told}

-- `holds` speaks of the members that the tables stand in.
module _ (holds : LoopType → Bool → List (ℕ × Action) → Loop (Unit {0}) → Type 0)
    (place : Table → ℕ → ℕ) where
  abbrev pub P : Multi → Type 0
  P m = holds m.kind m.registers m.registered m.loop

  pub record KeepsTables : Type 0 where
    pub kept_add :
        (fd : Option ℕ) (a : Action) (m : Multi) → P m → Ensures P (add_read_event place fd a m)
    pub kept_remove : (fd : Option ℕ) (m : Multi) → P m → Ensures P (remove_read_event fd m)

  module _ (h : KeepsTables) where
    abbrev pub Pr : EventReturn × Multi → Type 0
    Pr r = P r.1

    send_job-kept : (job : Option Job) (m : Multi) → P m → Ensures P (send_job job m)
    unfolding send_job interrupt
    send_job-kept job m p = elim (Option-cases (add queue_size job m.buffer)) [
      | inl e ↦ rw (e, send_job) tt
      | inr (q, e) ↦ rw (e, send_job) p
    ]

    pub proc_stopped-kept : (pid id : ℕ) (m : Multi) → P m → Ensures P (proc_stopped pid id m)
    unfolding proc_stopped
    proc_stopped-kept pid id m p =
        let fds = (m.handles id).fds in
        Ensures-bind P P (remove_read_event fds.watch_close_write_fd m) _ (h.kept_remove _ m p)
          λ m1 p1.
            Ensures-bind P P (remove_read_event fds.stdout_read_fd m1) _ (h.kept_remove _ m1 p1)
              λ m2 p2.
                Ensures-bind P P (remove_read_event fds.stderr_read_fd m2) _ (h.kept_remove _ m2 p2)
                  λ m3 p3.
                    let m4 : Multi = record m3 { active_procs = remove pid m3.active_procs } in
                    Ensures-if P (m4.stopping && is_empty m4.active_procs) (send_job none m4)
                      (done m4) (send_job-kept none m4 p3) p3

    call_stopped-kept : (o : Option ℕ) (id : ℕ) (m : Multi) → P m → Ensures P (call_stopped o id m)
    unfolding call_stopped
    call_stopped-kept none id m p = p
    call_stopped-kept (some pid) id m p = proc_stopped-kept pid id m p

    chosen : (b : Bool) (m m1 : Multi) → P m → P m1 → P (if b then m else m1)
    chosen true m m1 p q = p
    chosen false m m1 p q = q

    told_stopped-kept : (id : ℕ) (m : Multi) → P m → Ensures P (told_stopped id m)
    unfolding told_stopped
    told_stopped-kept id m p =
        call_stopped-kept (m.handles id).stopped_pid id _
          (chosen (m.handles id).has_on_stop (emit (stop_told id) m) m p p)

    user_stop-kept : (id : ℕ) (m : Multi) → P m → Ensures P (user_stop (m.handles id).ret.proc m)
    unfolding user_stop
    user_stop-kept id m p = elim (Option-cases (m.handles id).ret.proc.user_stop_fd) [
      | inl e ↦ rw (e, user_stop) tt
      | inr (fd, e) ↦ rw (e, user_stop) p
    ]

    user_stop_all-kept :
        (procs : List (ℕ × ℕ)) (m : Multi) → P m → Ensures P (user_stop_all procs m)
    unfolding user_stop_all
    user_stop_all-kept [] m p = p
    user_stop_all-kept ((pid, id) ∷ procs) m p =
        Ensures-bind P P (user_stop (m.handles id).ret.proc m) _ (user_stop-kept id m p)
          (user_stop_all-kept procs)

    kill_all-kept : (procs : List (ℕ × ℕ)) (m : Multi) → P m → P (kill_all procs m)
    unfolding kill_all
    kill_all-kept [] m p = p
    kill_all-kept ((pid, id) ∷ procs) m p =
        kill_all-kept procs (emit (killed pid m.stop_signum) m) p

    by_flag-kept : (flag : StopFlag) (m : Multi) → P m → Ensures P (by_flag flag m)
    unfolding by_flag
    by_flag-kept stop_user m p = user_stop_all-kept m.active_procs m p
    by_flag-kept stop_kill m p = kill_all-kept m.active_procs m p
    by_flag-kept stop_wait m p = p

    pub job_nullptr_stop-kept : (m : Multi) → P m → Ensures Pr (job_nullptr_stop m)
    unfolding job_nullptr_stop cleanup
    job_nullptr_stop-kept m p =
        Ensures-if Pr (not m.stopping && not (is_empty m.active_procs)) _ _
          (Ensures-bind P Pr (cleanup m) _
            (by_flag-kept m.stop_flag (record m { stopping = true }) p) λ m1 q. q)
          p

    pub job_stop-kept :
        (flag : StopFlag) (signum : Option ℕ) (m : Multi)
        → P m
        → Ensures Pr (job_stop flag signum m)
    unfolding job_stop
    job_stop-kept flag signum m p =
        Ensures-if Pr m.stopping (done (nothing, m)) _ p
          (job_nullptr_stop-kept (record m { stop_flag = flag; stop_signum = signum }) p)

    interrupt_loop-kept : (kind : LoopType) (m : Multi) → P m → P (interrupt_loop kind m)
    unfolding interrupt_loop
    interrupt_loop-kept default m p = p
    interrupt_loop-kept external m p = p

    pub handle_stop-kept : (m : Multi) → P m → Ensures P (handle_stop m)
    unfolding handle_stop
    handle_stop-kept m p =
        Ensures-bind P P (remove_read_event (get_read_fd m.handler) m) _ (h.kept_remove _ m p)
          λ m1 p1.
            Ensures-bind P P (remove_read_event m1.control_pipe.read_end m1) _
              (h.kept_remove _ m1 p1) λ m2 p2. interrupt_loop-kept m2.kind _ p2

    module _ (c : Setting) where
      open c use {os, macros, buffer_size, sigchld, fuel}

      heard-kept : (id : ℕ) (proc : Pexec) (m : Multi) → P m → Ensures P (heard c id proc m)
      unfolding heard
      heard-kept id proc m p =
          let k = length proc.log - length m.log in
          let h1 = hear_new os.errno k proc.log (record (m.handles id) { proc = proc }) in
          let m1 = set_handle id h1 (record m { log = proc.log }) in
          Ensures-if P (has_end k proc.log) (told_stopped id m1) (done m1)
            (told_stopped-kept id m1 p) p

      pub with_process-kept :
          (id : ℕ) (method : Pexec → Run Pexec) (m : Multi)
          → P m
          → Ensures P (with_process c id method m)
      unfolding with_process
      with_process-kept id method m p =
          Ensures-bind (λ _. Unit {0}) P (method (record (m.handles id).proc { log = m.log })) _
            (Ensures-any (method (record (m.handles id).proc { log = m.log })))
            λ proc _. heard-kept id proc m p
