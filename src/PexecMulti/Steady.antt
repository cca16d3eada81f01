-- ===== src/PexecMulti/Steady.antt =====
-- What resets the flag of a stop: the end of the loop, and nothing else.
use pexec.Base.{
  ℕ, zero, suc, ◌-◌, Bool, true, false, not, ◌&&◌, Option, none, some, is_empty, length, ◌≡◌, refl,
  ◌∙◌, sym, ap, subst, ◌⊎◌, inl, inr, Option-cases, if◌then◌else◌,
}
use pexec.PexecMulti.Handle.{hear_new, has_end}
use pexec.PexecMulti.Jobs.{
  proc_stopped, call_stopped, told_stopped, heard, with_process, cleanup, job_nullptr_stop,
  job_stop, job_spawn_proc, spawn_job, do_job, dispatch_job, handle_stop,
}
use pexec.PexecMulti.Live.{send_job-adds}
use pexec.PexecMulti.Same.{Same, remove-Same}
use pexec.PexecMulti.Serve.{
  update_found, child_changed, owner, after_control, read_control, after_event, act, do_action,
}
use pexec.PexecMulti.State.{
  Multi, Table, StopFlag, Job, stop, spawn, Action, signal_action, control_action, close_action,
  stdout_action, stderr_action, emit, remove, set_handle, process_error, get, send_job,
  remove_read_event, fd_key,
}
use pexec.PexecSingle.Exec as Single
use pexec.PexecSingle.Loop.{Setting}
use pexec.PexecSingle.Signals as Signals
use pexec.PexecSingle.State.{Pexec}
use pexec.QueueBuffer as Buffer
use pexec.Run.{
  Run, done, ◌>>=◌, Ensures, Ensures-bind, Ensures-if, Ensures-imp, Ensures-any, Ensures-value,
  fault,
}
use pexec.SelectEvent.{EventReturn, stop_loop, skip_other_fd, nothing}
use pexec.SigchldHandler as Sigchld
use pexec.SigchldHandler.Kept.{IsKept, read_signal-Kept}
use pexec.System.{
  ReadResult, got, read_failed, eintr, eagain, echild, other_errno, stop_told, was_read,
}

abbrev Stopping : Multi → Type 0
Stopping m = m.stopping ≡ true

-- Still stopping; or the loop has ended, when no process was left or for the reason `F`.
abbrev pub StillOrEnded : Type 0 → Multi → Type 0
StillOrEnded F m1 =
    (m1.stopping ≡ true)
    ⊎ ((m : Multi) × (handle_stop m ≡ done m1) × ((is_empty m.active_procs ≡ true) ⊎ F))

remove-Stopping :
    (fd : Option ℕ) (m : Multi) → Stopping m → Ensures Stopping (remove_read_event fd m)
remove-Stopping fd m h =
    Ensures-imp (Same m) Stopping (remove_read_event fd m) (remove-Same fd m)
      (λ m1 (s, a, b). s ∙ h)

send_job-Stopping : (job : Option Job) (m : Multi) → Stopping m → Ensures Stopping (send_job job m)
send_job-Stopping job m h =
    Ensures-imp _ Stopping (send_job job m) (send_job-adds job m) (λ m1 (s, a, b). s ∙ h)

proc_stopped-Stopping :
    (pid id : ℕ) (m : Multi) → Stopping m → Ensures Stopping (proc_stopped pid id m)
unfolding proc_stopped
proc_stopped-Stopping pid id m h =
    let fds : Single.PexecFds = (m.handles id).fds in
    Ensures-bind Stopping Stopping (remove_read_event fds.watch_close_write_fd m) _
      (remove-Stopping fds.watch_close_write_fd m h)
      (λ m1 h1.
        Ensures-bind Stopping Stopping (remove_read_event fds.stdout_read_fd m1) _
          (remove-Stopping fds.stdout_read_fd m1 h1)
          (λ m2 h2.
            Ensures-bind Stopping Stopping (remove_read_event fds.stderr_read_fd m2) _
              (remove-Stopping fds.stderr_read_fd m2 h2)
              (λ m3 h3.
                let m4 : Multi = record m3 { active_procs = remove pid m3.active_procs } in
                Ensures-if Stopping (m4.stopping && is_empty m4.active_procs) (send_job none m4)
                  (done m4) (send_job-Stopping none m4 h3) h3)))

call_stopped-Stopping :
    (o : Option ℕ) (id : ℕ) (m : Multi) → Stopping m → Ensures Stopping (call_stopped o id m)
unfolding call_stopped
call_stopped-Stopping none id m h = h
call_stopped-Stopping (some pid) id m h = proc_stopped-Stopping pid id m h

Stopping-if :
    (b : Bool) (m1 m2 : Multi) → Stopping m1 → Stopping m2 → Stopping (if b then m1 else m2)
Stopping-if true m1 m2 a b = a
Stopping-if false m1 m2 a b = b

told_stopped-Stopping : (id : ℕ) (m : Multi) → Stopping m → Ensures Stopping (told_stopped id m)
unfolding told_stopped
told_stopped-Stopping id m h =
    let b = (m.handles id).has_on_stop in
    call_stopped-Stopping (m.handles id).stopped_pid id (if b then emit (stop_told id) m else m)
      (Stopping-if b (emit (stop_told id) m) m h h)

-- A dispatch ends the loop only when no process is left, and resets nothing.
abbrev Dispatched : EventReturn × Multi → Type 0
Dispatched (r, m) = Stopping m × (r ≡ stop_loop → is_empty m.active_procs ≡ true)

nothing_done : (m : Multi) → Stopping m → Dispatched (nothing, m)
nothing_done m h = (h, λ e. cc)

job_nullptr_stop-Dispatched : (m : Multi) → Stopping m → Ensures Dispatched (job_nullptr_stop m)
unfolding job_nullptr_stop
job_nullptr_stop-Dispatched m h = by m.stopping (is_empty m.active_procs) h refl
  where
    by :
        (a b : Bool)
        → a ≡ true
        → is_empty m.active_procs ≡ b
        → Ensures Dispatched (
            if not a && not b
            then (do m1 ← cleanup m; done (nothing, m1))
            else done (if b then stop_loop else nothing, m))
    by true true e f = (h, λ g. f)
    by true false e f = (h, λ g. cc)
    by false b e f = cc

job_stop-Dispatched :
    (flag : StopFlag) (signum : Option ℕ) (m : Multi)
    → Stopping m
    → Ensures Dispatched (job_stop flag signum m)
unfolding job_stop
job_stop-Dispatched flag signum m h =
    let m1 : Multi = record m { stop_flag = flag; stop_signum = signum } in
    Ensures-if Dispatched m.stopping (done (nothing, m)) (job_nullptr_stop m1) (nothing_done m h)
      (job_nullptr_stop-Dispatched m1 h)

module _ (c : Setting) where
  open c use {os, macros, buffer_size, sigchld, fuel}

  heard-Stopping : (id : ℕ) (p : Pexec) (m : Multi) → Stopping m → Ensures Stopping (heard c id p m)
  unfolding heard
  heard-Stopping id p m h =
      let k = length p.log - length m.log in
      let h1 = hear_new os.errno k p.log (record (m.handles id) { proc = p }) in
      let m1 = set_handle id h1 (record m { log = p.log }) in
      Ensures-if Stopping (has_end k p.log) (told_stopped id m1) (done m1)
        (told_stopped-Stopping id m1 h) h

  with_process-Stopping :
      (id : ℕ) (method : Pexec → Run Pexec) (m : Multi)
      → Stopping m
      → Ensures Stopping (with_process c id method m)
  unfolding with_process
  with_process-Stopping id method m h =
      let r = method (record (m.handles id).proc { log = m.log }) in
      Ensures-bind (λ _. Unit {0}) Stopping r (λ p. heard c id p m) (Ensures-any r)
        (λ p _. heard-Stopping id p m h)

  after_event-StillOrEnded :
      (F : Type 0) (r : EventReturn) (m : Multi)
      → Stopping m
      → (r ≡ stop_loop → (is_empty m.active_procs ≡ true) ⊎ F)
      → Ensures (StillOrEnded F) (after_event c r m)
  unfolding after_event
  after_event-StillOrEnded F stop_loop m h e =
      Ensures-imp (λ m1. Unit {0} × (handle_stop m ≡ done m1)) (StillOrEnded F) (handle_stop m)
        (Ensures-value (λ _. Unit {0}) (handle_stop m) (Ensures-any (handle_stop m)))
        (λ m1 (u, q). inr (m, q, e refl))
  after_event-StillOrEnded F skip_other_fd m h e = inl h
  after_event-StillOrEnded F nothing m h e = inl h

  -- The read of the signal has failed, which ends the loop too.
  abbrev pub SignalLost : Multi → Type 0
  SignalLost m =
      (r : EventReturn × Sigchld.Handler × Multi) × (Sigchld.read_signal (owner c) os sigchld fuel
          m.handler m
        ≡ done r)
      × (r.0 ≡ stop_loop)

  update_found-Stopping :
      (status : ℕ) (o : Option ℕ) (m : Multi)
      → Stopping m
      → Ensures Stopping (update_found c status o m)
  unfolding update_found
  update_found-Stopping status none m h = h
  update_found-Stopping status (some id) m h =
      with_process-Stopping id (λ p. Signals.update_status os macros buffer_size fuel status p) m h

  owner-IsKept : IsKept Stopping (owner c)
  unfolding owner child_changed Sigchld.tell_signal Sigchld.tell_error process_error
  owner-IsKept = record {
    put = λ log m h. h;
    signal = λ pid status m h. update_found-Stopping status (get pid m.active_procs) m h;
    error = λ err m h. h;
  }

  after_control-Stopping :
      (r : ReadResult) (m : Multi) (again : Run Multi)
      → Stopping m
      → Ensures Stopping again
      → Ensures Stopping (after_control c r m again)
  unfolding after_control
  after_control-Stopping (got bytes) m again h l = h
  after_control-Stopping (read_failed eintr) m again h l = l
  after_control-Stopping (read_failed eagain) m again h l = tt
  after_control-Stopping (read_failed echild) m again h l = tt
  after_control-Stopping (read_failed other_errno) m again h l = tt

  read_control-Stopping :
      (n fd : ℕ) (m : Multi) → Stopping m → Ensures Stopping (read_control c n fd m)
  unfolding read_control
  read_control-Stopping zero fd m h = tt
  read_control-Stopping (suc n) fd m h =
      let r = os.read m.log (some fd) 1 in
      let m1 = emit (was_read (some fd) r) m in
      after_control-Stopping r m1 (read_control c n fd m1) h (read_control-Stopping n fd m1 h)

  module _ (place : Table → ℕ → ℕ) where
    do_job-Dispatched :
        (job : Option (Option Job)) (m : Multi)
        → Stopping m
        → Ensures Dispatched (do_job c place job m)
    unfolding do_job job_spawn_proc
    do_job-Dispatched none m h = tt
    do_job-Dispatched (some none) m h = job_nullptr_stop-Dispatched m h
    do_job-Dispatched (some (some (stop flag signum))) m h = job_stop-Dispatched flag signum m h
    do_job-Dispatched (some (some (spawn id))) m h = by m.stopping h
      where
        by :
            (b : Bool)
            → b ≡ true
            → Ensures Dispatched (
                if b
                then done (nothing, m)
                else (do m1 ← spawn_job c place id m; done (nothing, m1)))
        by true e = nothing_done m h
        by false e = cc

    dispatch_job-Dispatched : (m : Multi) → Stopping m → Ensures Dispatched (dispatch_job c place m)
    unfolding dispatch_job
    dispatch_job-Dispatched m h =
        do_job-Dispatched (Buffer.remove m.buffer).0
          (record m { buffer = (Buffer.remove m.buffer).1 }) h

    still : (F : Type 0) (r : Run Multi) → Ensures Stopping r → Ensures (StillOrEnded F) r
    still F r h = Ensures-imp Stopping (StillOrEnded F) r h (λ m e. inl e)

    act-StillOrEnded :
        (F : Type 0) (a : Action) (fd : ℕ) (m : Multi)
        → (a ≡ signal_action → SignalLost m → F)
        → Stopping m
        → Ensures (StillOrEnded F) (act c place a fd m)
    unfolding act
    act-StillOrEnded F signal_action fd m k h =
        let run = Sigchld.read_signal (owner c) os sigchld fuel m.handler m in
        let kept = read_signal-Kept Stopping (owner c) owner-IsKept os sigchld fuel m.handler m h in
        Ensures-bind (λ r. Stopping r.2 × (run ≡ done r)) (StillOrEnded F) run
          (λ r. after_event c r.0 (record r.2 { handler = r.1 }))
          (Ensures-value (λ (r : EventReturn × Sigchld.Handler × Multi). Stopping r.2) run kept)
          (λ r (l, q).
            after_event-StillOrEnded F r.0 (record r.2 { handler = r.1 }) l
              (λ e. inr (k refl (r, q, e))))
    act-StillOrEnded F control_action fd m k h =
        Ensures-bind Stopping (StillOrEnded F) (read_control c fuel fd m) _
          (read_control-Stopping fuel fd m h)
          (λ m1 l.
            Ensures-bind Dispatched (StillOrEnded F) (dispatch_job c place m1)
              (λ r. after_event c r.0 r.1) (dispatch_job-Dispatched m1 l)
              (λ r (g, e). after_event-StillOrEnded F r.0 r.1 g (λ q. inl (e q))))
    act-StillOrEnded F (close_action id) fd m k h = still F _ (with_process-Stopping id _ m h)
    act-StillOrEnded F (stdout_action id) fd m k h = still F _ (with_process-Stopping id _ m h)
    act-StillOrEnded F (stderr_action id) fd m k h = still F _ (with_process-Stopping id _ m h)

    -- The reason besides the last process for which the descriptor can end the loop.
    abbrev pub Lost : ℕ → Multi → Type 0
    Lost fd m = (get (fd_key (some fd)) m.registered ≡ some signal_action) × SignalLost m

    pub do_action-StillOrEnded :
        (fd : ℕ) (m : Multi)
        → m.stopping ≡ true
        → Ensures (StillOrEnded (Lost fd m)) (do_action c place fd m)
    unfolding do_action
    do_action-StillOrEnded fd m h = elim (Option-cases (get (fd_key (some fd)) m.registered)) [
      | inl e ↦ rw (e, do_action) tt
      | inr (a, e) ↦
          let lost : a ≡ signal_action → SignalLost m → Lost fd m = λ q l. (e ∙ ap some q, l) in
          subst
            (λ o.
              Ensures (StillOrEnded (Lost fd m))
                (elim o [ none ↦ fault | some a ↦ act c place a fd m ]))
            (sym e) (act-StillOrEnded (Lost fd m) a fd m lost h)
    ]
