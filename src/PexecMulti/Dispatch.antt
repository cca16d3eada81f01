-- ===== src/PexecMulti/Dispatch.antt =====
-- `dispatch_job` ends the loop or keeps the stop protocol.
use pexec.Base.{
  ℕ, Bool, true, false, not, ◌&&◌, Option, none, some, List, [], ◌∷◌, ◌==◌, ltb, is_empty, ◌≡◌,
  refl, ◌∙◌, ap, ◌⊎◌, inl, inr, Bool-cases, Option-cases, if◌then◌else◌,
}
use pexec.PexecMulti.Handle.{PexecHandle, pid}
use pexec.PexecMulti.Jobs.{
  with_process, exec_handle, watch_process, spawn_job, job_spawn_proc, user_stop, user_stop_all,
  kill_all, by_flag, cleanup, job_nullptr_stop, job_stop, do_job, dispatch_job,
}
use pexec.PexecMulti.Live.{has_null, IsLive, notify-buffer, with_process-IsLive}
use pexec.PexecMulti.Same.{Same, add-Same, Same-then}
use pexec.PexecMulti.State.{
  Multi, Table, StopFlag, stop_wait, stop_user, stop_kill, Job, stop, spawn, close_action,
  stdout_action, stderr_action, put, set_handle, add_read_event,
}
use pexec.PexecSingle.Exec as Single
use pexec.PexecSingle.Exec.{get_fds}
use pexec.PexecSingle.Loop.{Setting}
use pexec.ProcStatus.{ProcStatus}
use pexec.QueueBuffer as Buffer
use pexec.Run.{
  Run, done, ◌>>=◌, assert_then, Ensures, Ensures-bind, Ensures-if, Ensures-imp, Ensures-any,
}
use pexec.SelectEvent.{EventReturn, stop_loop, nothing}

put-is_empty : (k id : ℕ) (procs : List (ℕ × ℕ)) → is_empty (put k id procs) ≡ false
unfolding put
put-is_empty k id [] = refl
put-is_empty k id ((j, a) ∷ procs) = elim (Bool-cases (k == j)) [
  | inl e ↦ rw e refl
  | inr e ↦ rw e refl
]

-- What `cleanup` does to the members, whatever it sends to the processes.
user_stop-Same : (p : ProcStatus) (m : Multi) → Ensures (Same m) (user_stop p m)
unfolding user_stop
user_stop-Same p m = elim (Option-cases p.user_stop_fd) [
  | inl e ↦ rw (e, user_stop) tt
  | inr (fd, e) ↦ rw (e, user_stop) (refl, refl, refl)
]

user_stop_all-Same : (procs : List (ℕ × ℕ)) (m : Multi) → Ensures (Same m) (user_stop_all procs m)
unfolding user_stop_all
user_stop_all-Same [] m = (refl, refl, refl)
user_stop_all-Same ((pid, id) ∷ procs) m =
    Same-then m (user_stop (m.handles id).ret.proc m) (λ m1. user_stop_all procs m1)
      (user_stop-Same (m.handles id).ret.proc m) (λ m1. user_stop_all-Same procs m1)

kill_all-Same : (procs : List (ℕ × ℕ)) (m : Multi) → Same m (kill_all procs m)
unfolding kill_all
kill_all-Same [] m = (refl, refl, refl)
kill_all-Same ((pid, id) ∷ procs) m = kill_all-Same procs _

by_flag-Same : (flag : StopFlag) (m : Multi) → Ensures (Same m) (by_flag flag m)
unfolding by_flag
by_flag-Same stop_user m = user_stop_all-Same m.active_procs m
by_flag-Same stop_kill m = kill_all-Same m.active_procs m
by_flag-Same stop_wait m = (refl, refl, refl)

pub cleanup-Same : (m : Multi) → Ensures (Same (record m { stopping = true })) (cleanup m)
unfolding cleanup
cleanup-Same m = by_flag-Same m.stop_flag (record m { stopping = true })

-- A result that ends the loop, or leaves the protocol kept.
abbrev pub Goes : EventReturn × Multi → Type 0
Goes (r, m) = (r ≡ stop_loop) ⊎ IsLive m

job_nullptr_stop-Goes : (m : Multi) → Ensures Goes (job_nullptr_stop m)
unfolding job_nullptr_stop cleanup
job_nullptr_stop-Goes m = by m.stopping (is_empty m.active_procs) refl
  where
    cleaned : Run (EventReturn × Multi)
    cleaned = (do m1 ← cleanup m; done (nothing, m1))

    by :
        (a b : Bool)
        → is_empty m.active_procs ≡ b
        → Ensures Goes
            (if not a && not b then cleaned else done (if b then stop_loop else nothing, m))
    by true true e = inl refl
    by false true e = inl refl
    by true false e = inr (λ _. inl e)
    by false false e =
        Ensures-bind (Same (record m { stopping = true })) Goes (cleanup m)
          (λ m1. done (nothing, m1)) (cleanup-Same m)
          (λ m1 (s, p, q). inr (λ _. inl (ap is_empty p ∙ e)))

job_stop-Goes :
    (flag : StopFlag) (signum : Option ℕ) (m : Multi)
    → IsLive m
    → Ensures Goes (job_stop flag signum m)
unfolding job_stop
job_stop-Goes flag signum m live =
    let m1 : Multi = record m { stop_flag = flag; stop_signum = signum } in
    Ensures-if Goes m.stopping (done (nothing, m)) (job_nullptr_stop m1) (inr live)
      (job_nullptr_stop-Goes m1)

module _ (c : Setting) where
  open c use {os, macros, buffer_size, sigchld, fuel}

  exec_handle-IsLive : (id : ℕ) (m : Multi) → IsLive m → Ensures IsLive (exec_handle c id m)
  unfolding exec_handle
  exec_handle-IsLive id m live =
      Ensures-bind IsLive IsLive
        (with_process c id (λ p. Single.exec c (m.handles id).ret.args p) m) _
        (with_process-IsLive c id (λ p. Single.exec c (m.handles id).ret.args p) m live) (λ m1 l. l)

  module _ (place : Table → ℕ → ℕ) where
    -- Behind the three functions of the tables.
    pub watch_process-Same :
        (pid id : ℕ) (m : Multi)
        → Ensures
            (Same (record m { active_procs = put pid id m.active_procs }))
            (watch_process c place pid id m)
    unfolding watch_process
    watch_process-Same pid id m =
        Same-then m1 (add_read_event place fds.watch_close_write_fd (close_action id) m2) _
          (add-Same place fds.watch_close_write_fd (close_action id) m2)
          (λ m3.
            Same-then m3 (add_read_event place fds.stdout_read_fd (stdout_action id) m3) _
              (add-Same place fds.stdout_read_fd (stdout_action id) m3)
              (λ m4. add-Same place fds.stderr_read_fd (stderr_action id) m4))
      where
        fds : Single.PexecFds
        fds = (m.handles id).fds

        h : PexecHandle
        h = m.handles id

        m1 : Multi
        m1 = record m { active_procs = put pid id m.active_procs }

        m2 : Multi
        m2 = set_handle id (record h { stopped_pid = some pid }) m1

    spawn_job-IsLive : (id : ℕ) (m : Multi) → Ensures IsLive (spawn_job c place id m)
    unfolding spawn_job
    spawn_job-IsLive id m =
        Ensures-bind (λ _. Unit {0}) IsLive (exec_handle c id m) _
          (Ensures-any (exec_handle c id m))
          (λ m1 _. by (ltb 0 (pid (m1.handles id))) m1 (pid (m1.handles id)))
      where
        by :
            (b : Bool) (m1 : Multi) (p : ℕ)
            → Ensures IsLive (assert_then b (watch_process c place p id m1))
        by false m1 p = tt
        by true m1 p =
            Ensures-imp (Same (record m1 { active_procs = put p id m1.active_procs })) IsLive
              (watch_process c place p id m1) (watch_process-Same p id m1)
              (λ m2 (s, a, b) _. inl (ap is_empty a ∙ put-is_empty p id m1.active_procs))

    job_spawn-Goes : (id : ℕ) (m : Multi) → IsLive m → Ensures Goes (job_spawn_proc c place id m)
    unfolding job_spawn_proc
    job_spawn-Goes id m live =
        let spawned : Run (EventReturn × Multi) = (do
          m1 ← spawn_job c place id m
          done (nothing, m1)) in
        Ensures-if Goes m.stopping (done (nothing, m)) spawned (inr live) (
          Ensures-bind IsLive Goes (spawn_job c place id m) (λ m1. done (nothing, m1))
            (spawn_job-IsLive id m) (λ m1 l. inr l))

    -- What is known of the state behind the taking of a job.
    abbrev Taken : Option (Option Job) → Multi → Type 0
    Taken none m = Unit
    Taken (some none) m = Unit
    Taken (some (some job)) m = IsLive m

    do_job-Goes :
        (job : Option (Option Job)) (m : Multi) → Taken job m → Ensures Goes (do_job c place job m)
    unfolding do_job
    do_job-Goes none m t = tt
    do_job-Goes (some none) m t = job_nullptr_stop-Goes m
    do_job-Goes (some (some (stop flag signum))) m t = job_stop-Goes flag signum m t
    do_job-Goes (some (some (spawn id))) m t = job_spawn-Goes id m t

    take_front-Taken :
        (jobs : List (Option Job)) (m : Multi)
        → (m.stopping ≡ true → (is_empty m.active_procs ≡ false) ⊎ (has_null jobs ≡ true))
        → let (job, buffer) = Buffer.take_front jobs m.buffer in
          Taken job (record m { buffer = buffer })
    unfolding Buffer.take_front has_null
    take_front-Taken [] m live = tt
    take_front-Taken (none ∷ jobs) m live = tt
    take_front-Taken (some job ∷ jobs) m live = λ h. elim (live h) [
      | inl e ↦ inl e
      | inr e ↦ inr (ap has_null (notify-buffer (record m.buffer { buffer = jobs })) ∙ e)
    ]

    pub dispatch_job-Goes : (m : Multi) → IsLive m → Ensures Goes (dispatch_job c place m)
    unfolding dispatch_job Buffer.remove
    dispatch_job-Goes m live =
        let (job, buffer) = Buffer.take_front m.buffer.buffer m.buffer in
        do_job-Goes job (record m { buffer = buffer }) (take_front-Taken m.buffer.buffer m live)
