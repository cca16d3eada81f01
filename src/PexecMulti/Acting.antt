-- ===== src/PexecMulti/Acting.antt =====
-- `do_action` keeps the stop protocol, whichever registered function it calls.
use pexec.Base.{
  ℕ, zero, suc, true, false, Option, none, some, is_empty, ◌≡◌, ◌⊎◌, inl, inr, Option-cases,
}
use pexec.PexecMulti.Jobs.{dispatch_job, interrupt_loop, handle_stop}
use pexec.PexecMulti.Live.{has_null, IsLive, with_process-IsLive}
use pexec.PexecMulti.Dispatch.{Goes, dispatch_job-Goes}
use pexec.PexecMulti.Serve.{
  update_found, child_changed, owner, after_control, read_control, after_event, act, do_action,
}
use pexec.PexecMulti.State.{
  Multi, Table, LoopType, default, external, stop_wait, Action, signal_action, control_action,
  close_action, stdout_action, stderr_action, emit, process_error, get, remove_read_event, fd_key,
}
use pexec.PexecSingle.Loop.{Setting}
use pexec.PexecSingle.Signals as Signals
use pexec.PexecMulti.Steady.{Lost, do_action-StillOrEnded}
use pexec.Run.{Run, done, Ensures, Ensures-bind, Ensures-any}
use pexec.SelectEvent.{EventReturn, stop_loop, skip_other_fd, nothing}
use pexec.SigchldHandler as Sigchld
use pexec.SigchldHandler.{get_read_fd}
use pexec.System.{ReadResult, got, read_failed, eintr, eagain, echild, other_errno, was_read}
use pexec.SigchldHandler.Kept.{IsKept, read_signal-Kept}

interrupt_loop-IsLive : (kind : LoopType) (m : Multi) → IsLive m → IsLive (interrupt_loop kind m)
unfolding interrupt_loop
interrupt_loop-IsLive default m live = live
interrupt_loop-IsLive external m live = live

handle_stop-IsLive : (m : Multi) → Ensures IsLive (handle_stop m)
unfolding handle_stop
handle_stop-IsLive m =
    Ensures-bind (λ _. Unit {0}) IsLive (remove_read_event (get_read_fd m.handler) m) _
      (Ensures-any (remove_read_event (get_read_fd m.handler) m))
      (λ m1 _.
        Ensures-bind (λ _. Unit {0}) IsLive (remove_read_event m1.control_pipe.read_end m1) _
          (Ensures-any (remove_read_event m1.control_pipe.read_end m1))
          (λ m2 _.
            let m3 : Multi = record m2 {
              stop_flag = stop_wait;
              stop_signum = none;
              stopping = false;
            } in
            interrupt_loop-IsLive m3.kind m3 (λ h. cc)))

module _ (c : Setting) where
  open c use {os, macros, buffer_size, sigchld, fuel}

  after_event-IsLive :
      (r : EventReturn) (m : Multi) → Goes (r, m) → Ensures IsLive (after_event c r m)
  unfolding after_event
  after_event-IsLive stop_loop m g = handle_stop-IsLive m
  after_event-IsLive skip_other_fd m (inl e) = cc
  after_event-IsLive skip_other_fd m (inr live) = live
  after_event-IsLive nothing m (inl e) = cc
  after_event-IsLive nothing m (inr live) = live

  update_found-IsLive :
      (status : ℕ) (o : Option ℕ) (m : Multi)
      → IsLive m
      → Ensures IsLive (update_found c status o m)
  unfolding update_found
  update_found-IsLive status none m live = live
  update_found-IsLive status (some id) m live =
      with_process-IsLive c id (λ p. Signals.update_status os macros buffer_size fuel status p) m
        live

  owner-IsKept : IsKept IsLive (owner c)
  unfolding owner child_changed Sigchld.tell_signal Sigchld.tell_error process_error
  owner-IsKept = record {
    put = λ log m live. live;
    signal = λ pid status m live. update_found-IsLive status (get pid m.active_procs) m live;
    error = λ err m live. live;
  }

  after_control-IsLive :
      (r : ReadResult) (m : Multi) (again : Run Multi)
      → IsLive m
      → Ensures IsLive again
      → Ensures IsLive (after_control c r m again)
  unfolding after_control
  after_control-IsLive (got bytes) m again live l = live
  after_control-IsLive (read_failed eintr) m again live l = l
  after_control-IsLive (read_failed eagain) m again live l = tt
  after_control-IsLive (read_failed echild) m again live l = tt
  after_control-IsLive (read_failed other_errno) m again live l = tt

  read_control-IsLive : (n fd : ℕ) (m : Multi) → IsLive m → Ensures IsLive (read_control c n fd m)
  unfolding read_control
  read_control-IsLive zero fd m live = tt
  read_control-IsLive (suc n) fd m live =
      let r = os.read m.log (some fd) 1 in
      let m1 = emit (was_read (some fd) r) m in
      after_control-IsLive r m1 (read_control c n fd m1) live (read_control-IsLive n fd m1 live)

  module _ (place : Table → ℕ → ℕ) where
    act-IsLive : (a : Action) (fd : ℕ) (m : Multi) → IsLive m → Ensures IsLive (act c place a fd m)
    unfolding act
    act-IsLive signal_action fd m live =
        Ensures-bind (λ r. IsLive r.2) IsLive
          (Sigchld.read_signal (owner c) os sigchld fuel m.handler m)
          (λ r. after_event c r.0 (record r.2 { handler = r.1 }))
          (read_signal-Kept IsLive (owner c) owner-IsKept os sigchld fuel m.handler m live)
          (λ r l. after_event-IsLive r.0 (record r.2 { handler = r.1 }) (inr l))
    act-IsLive control_action fd m live =
        Ensures-bind IsLive IsLive (read_control c fuel fd m) _ (read_control-IsLive fuel fd m live)
          (λ m1 l.
            Ensures-bind Goes IsLive (dispatch_job c place m1) (λ r. after_event c r.0 r.1)
              (dispatch_job-Goes c place m1 l) (λ r g. after_event-IsLive r.0 r.1 g))
    act-IsLive (close_action id) fd m live = with_process-IsLive c id _ m live
    act-IsLive (stdout_action id) fd m live = with_process-IsLive c id _ m live
    act-IsLive (stderr_action id) fd m live = with_process-IsLive c id _ m live

    registered-IsLive : (fd : ℕ) (m : Multi) → IsLive m → Ensures IsLive (do_action c place fd m)
    unfolding do_action
    registered-IsLive fd m live = elim (Option-cases (get (fd_key (some fd)) m.registered)) [
      | inl e ↦ rw (e, do_action) tt
      | inr (a, e) ↦ rw (e, do_action) (act-IsLive a fd m live)
    ]

    -- Whatever a ready descriptor does, with its signals, jobs and ends of processes, if it returns:
    -- if the object was such that while it is stopping a process is active or a null job waits in the
    -- buffer, then it is so again; and an object that was stopping still is, unless `handle_stop` was
    -- called, and that in a state in which no process was active or because the descriptor is the one
    -- for signals and the read of the signal failed.
    pub do_action-IsLive :
        (fd : ℕ) (m : Multi)
        → (m.stopping ≡ true
            → (is_empty m.active_procs ≡ false) ⊎ (has_null m.buffer.buffer ≡ true))
        → Ensures
            (λ m1.
              m1.stopping ≡ true
              → (is_empty m1.active_procs ≡ false) ⊎ (has_null m1.buffer.buffer ≡ true))
            (do_action c place fd m)
          × (m.stopping ≡ true
              → Ensures
                  (λ m1.
                    (m1.stopping ≡ true)
                    ⊎ ((m2 : Multi) × (handle_stop m2 ≡ done m1)
                        × ((is_empty m2.active_procs ≡ true) ⊎ Lost c place fd m)))
                  (do_action c place fd m))
    do_action-IsLive fd m live =
        (registered-IsLive fd m live, λ h. do_action-StillOrEnded c place fd m h)
