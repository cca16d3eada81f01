-- ===== src/PexecMulti/RuleActs.antt =====
-- The same rule through a job, and through what a ready descriptor does.
use pexec.Base.{
  ℕ, zero, suc, Bool, true, false, Option, none, some, List, ltb, Option-cases, inl, inr,
}
use pexec.PexecMulti.Handle.{pid, on_proc_stopped}
use pexec.PexecMulti.Jobs.{
  with_process, exec_handle, watch_process, spawn_job, job_spawn_proc, do_job, dispatch_job,
}
use pexec.PexecMulti.Serve.{
  update_found, child_changed, owner, after_control, read_control, after_event, act, do_action,
}
use pexec.PexecMulti.State.{
  Multi, Table, LoopType, Job, stop, spawn, Action, signal_action, control_action, close_action,
  stdout_action, stderr_action, emit, process_error, get, put, set_handle, fd_key, add_read_event,
}
use pexec.PexecSingle.Exec as Single
use pexec.PexecSingle.Exec.{get_fds}
use pexec.PexecSingle.Loop.{Setting}
use pexec.PexecSingle.Signals as Signals
use pexec.QueueBuffer as Buffer
use pexec.QueueBuffer.{add}
use pexec.Run.{Run, done, assert_then, Ensures, Ensures-bind, Ensures-if}
use pexec.SelectEvent.{EventReturn, stop_loop, skip_other_fd, nothing, Loop}
use pexec.SigchldHandler as Sigchld
use pexec.SigchldHandler.{get_read_fd}
use pexec.SigchldHandler.Kept.{IsKept, read_signal-Kept}
use pexec.System.{ReadResult, got, read_failed, eintr, eagain, echild, other_errno, was_read}
use pexec.PexecMulti.Rule.{
  P, KeepsTables, job_nullptr_stop-kept, job_stop-kept, handle_stop-kept, with_process-kept,
}

module _ (holds : LoopType → Bool → List (ℕ × Action) → Loop (Unit {0}) → Type 0)
    (place : Table → ℕ → ℕ) (h : KeepsTables holds place) (c : Setting) where
  open c use {os, macros, buffer_size, sigchld, fuel}

  abbrev Q : Multi → Type 0
  Q m = P holds place m

  abbrev Qr : EventReturn × Multi → Type 0
  Qr r = Q r.1

  exec_handle-kept : (id : ℕ) (m : Multi) → Q m → Ensures Q (exec_handle c id m)
  unfolding exec_handle
  exec_handle-kept id m p =
      Ensures-bind Q Q (with_process c id (λ p. Single.exec c (m.handles id).ret.args p) m) _
        (with_process-kept holds place h c id (λ p. Single.exec c (m.handles id).ret.args p) m p)
        λ m1 q. q

  watch_process-kept : (pid id : ℕ) (m : Multi) → Q m → Ensures Q (watch_process c place pid id m)
  unfolding watch_process
  watch_process-kept pid id m p =
      let fds = (m.handles id).fds in
      let m1 : Multi = record m { active_procs = put pid id m.active_procs } in
      let m2 : Multi = set_handle id (on_proc_stopped pid (m.handles id)) m1 in
      Ensures-bind Q Q (add_read_event place fds.watch_close_write_fd (close_action id) m2) _
        (h.kept_add _ _ m2 p)
        λ m3 p3.
          Ensures-bind Q Q (add_read_event place fds.stdout_read_fd (stdout_action id) m3) _
            (h.kept_add _ _ m3 p3) λ m4 p4. h.kept_add fds.stderr_read_fd (stderr_action id) m4 p4

  assert_then-kept : (b : Bool) (r : Run Multi) → Ensures Q r → Ensures Q (assert_then b r)
  assert_then-kept true r p = p
  assert_then-kept false r p = tt

  spawn_job-kept : (id : ℕ) (m : Multi) → Q m → Ensures Q (spawn_job c place id m)
  unfolding spawn_job
  spawn_job-kept id m p = Ensures-bind Q Q (exec_handle c id m) _ (exec_handle-kept id m p) λ m1 p1.
      assert_then-kept (ltb 0 (pid (m1.handles id))) _
        (watch_process-kept (pid (m1.handles id)) id m1 p1)

  job_spawn_proc-kept : (id : ℕ) (m : Multi) → Q m → Ensures Qr (job_spawn_proc c place id m)
  unfolding job_spawn_proc
  job_spawn_proc-kept id m p =
      Ensures-if Qr m.stopping (done (nothing, m)) _ p
        (Ensures-bind Q Qr (spawn_job c place id m) _ (spawn_job-kept id m p) λ m1 q. q)

  do_job-kept : (job : Option (Option Job)) (m : Multi) → Q m → Ensures Qr (do_job c place job m)
  unfolding do_job
  do_job-kept none m p = tt
  do_job-kept (some none) m p = job_nullptr_stop-kept holds place h m p
  do_job-kept (some (some (stop flag signum))) m p = job_stop-kept holds place h flag signum m p
  do_job-kept (some (some (spawn id))) m p = job_spawn_proc-kept id m p

  pub dispatch_job-kept : (m : Multi) → Q m → Ensures Qr (dispatch_job c place m)
  unfolding dispatch_job
  dispatch_job-kept m p =
      let (job, buffer) = Buffer.remove m.buffer in do_job-kept job (record m { buffer = buffer }) p

  after_event-kept : (r : EventReturn) (m : Multi) → Q m → Ensures Q (after_event c r m)
  unfolding after_event
  after_event-kept stop_loop m p = handle_stop-kept holds place h m p
  after_event-kept skip_other_fd m p = p
  after_event-kept nothing m p = p

  update_found-kept :
      (status : ℕ) (o : Option ℕ) (m : Multi) → Q m → Ensures Q (update_found c status o m)
  unfolding update_found
  update_found-kept status none m p = p
  update_found-kept status (some id) m p =
      with_process-kept holds place h c id
        (λ p. Signals.update_status os macros buffer_size fuel status p) m p

  owner-kept : IsKept Q (owner c)
  unfolding owner child_changed Sigchld.tell_signal Sigchld.tell_error process_error
  owner-kept = record {
    put = λ log m p. p;
    signal = λ pid status m p. update_found-kept status (get pid m.active_procs) m p;
    error = λ err m p. p;
  }

  after_control-kept :
      (r : ReadResult) (m : Multi) (again : Run Multi)
      → Q m
      → Ensures Q again
      → Ensures Q (after_control c r m again)
  unfolding after_control
  after_control-kept (got bytes) m again p l = p
  after_control-kept (read_failed eintr) m again p l = l
  after_control-kept (read_failed eagain) m again p l = tt
  after_control-kept (read_failed echild) m again p l = tt
  after_control-kept (read_failed other_errno) m again p l = tt

  read_control-kept : (n fd : ℕ) (m : Multi) → Q m → Ensures Q (read_control c n fd m)
  unfolding read_control
  read_control-kept zero fd m p = tt
  read_control-kept (suc n) fd m p =
      let r = os.read m.log (some fd) 1 in
      let m1 = emit (was_read (some fd) r) m in
      after_control-kept r m1 (read_control c n fd m1) p (read_control-kept n fd m1 p)

  act-kept : (a : Action) (fd : ℕ) (m : Multi) → Q m → Ensures Q (act c place a fd m)
  unfolding act
  act-kept signal_action fd m p =
      Ensures-bind (λ r. Q r.2) Q (Sigchld.read_signal (owner c) os sigchld fuel m.handler m)
        (λ r. after_event c r.0 (record r.2 { handler = r.1 }))
        (read_signal-Kept Q (owner c) owner-kept os sigchld fuel m.handler m p)
        (λ r l. after_event-kept r.0 (record r.2 { handler = r.1 }) l)
  act-kept control_action fd m p =
      Ensures-bind Q Q (read_control c fuel fd m) _ (read_control-kept fuel fd m p) λ m1 p1.
        Ensures-bind Qr Q (dispatch_job c place m1) (λ r. after_event c r.0 r.1)
          (dispatch_job-kept m1 p1) (λ r l. after_event-kept r.0 r.1 l)
  act-kept (close_action id) fd m p = with_process-kept holds place h c id _ m p
  act-kept (stdout_action id) fd m p = with_process-kept holds place h c id _ m p
  act-kept (stderr_action id) fd m p = with_process-kept holds place h c id _ m p

  pub do_action-kept : (fd : ℕ) (m : Multi) → Q m → Ensures Q (do_action c place fd m)
  unfolding do_action
  do_action-kept fd m p = elim (Option-cases (get (fd_key (some fd)) m.registered)) [
    | inl e ↦ rw (e, do_action) tt
    | inr (a, e) ↦ rw (e, do_action) (act-kept a fd m p)
  ]
