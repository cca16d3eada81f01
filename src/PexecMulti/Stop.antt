-- ===== src/PexecMulti/Stop.antt =====
-- How a stop ends.
use pexec.Base.{
  ℕ, zero, suc, true, false, Option, none, some, List, [], ◌∷◌, length, is_empty, ◌≡◌, refl, ap,
  subst, inl, inr, if◌then◌else◌,
}
use pexec.PexecMulti.Acting.{do_action-IsLive}
use pexec.PexecMulti.Handle.{PexecHandle}
use pexec.PexecMulti.Jobs.{
  job_nullptr_stop, job_stop, spawn_job, job_spawn_proc, do_job, dispatch_job, exec, stop_all,
}
use pexec.PexecMulti.Live.{has_null, IsLive, notify-buffer, send_job-IsLive}
use pexec.PexecMulti.Serve.{do_action}
use pexec.PexecMulti.State.{Multi, Table, StopFlag, Job, stop, spawn}
use pexec.PexecSingle.Loop.{Setting}
use pexec.QueueBuffer as Buffer
use pexec.QueueBuffer.{Queue, notify}
use pexec.Run.{Run, done, timeout, ◌>>=◌, Ensures}
use pexec.SelectEvent.{stop_loop, skip_other_fd, nothing}

-- The state behind the taking of the first job.
abbrev pub taken : List (Option Job) → Multi → Multi
taken rest m = record m { buffer = notify (record m.buffer { buffer = rest }) }

module _ (c : Setting) (place : Table → ℕ → ℕ) where
  pub dispatch-front :
      (job : Option Job) (rest : List (Option Job)) (m : Multi)
      → m.buffer.buffer ≡ job ∷ rest
      → dispatch_job c place m ≡ do_job c place (some job) (taken rest m)
  unfolding dispatch_job Buffer.remove Buffer.take_front
  dispatch-front job rest m e = rw (e, Buffer.take_front) refl

  -- The states of an object from one that is not stopping, while its loop runs and other threads
  -- send jobs.
  pub data Reach : Multi → Type 0 where
    running : {m : Multi} → m.stopping ≡ false → Reach m
    acted : {m m1 : Multi} → Reach m → (fd : ℕ) → do_action c place fd m ≡ done m1 → Reach m1
    started : {m m1 : Multi} → Reach m → (h : PexecHandle) → exec h m ≡ done m1 → Reach m1
    stopped :
        {m m1 : Multi}
        → Reach m
        → (flag : StopFlag) (signum : Option ℕ) → stop_all flag signum m ≡ done m1
        → Reach m1

  reach-IsLive : {m : Multi} → Reach m → IsLive m
  unfolding exec stop_all
  reach-IsLive (running e) = λ h. cc
  reach-IsLive (acted {m} r fd e) =
      subst (Ensures IsLive) e (do_action-IsLive c place fd m (reach-IsLive r)).0
  reach-IsLive (started {m} r h e) =
      subst (Ensures IsLive) e (send_job-IsLive (some (spawn m.made)) _ (reach-IsLive r))
  reach-IsLive (stopped {m} r flag signum e) =
      subst (Ensures IsLive) e (send_job-IsLive (some (stop flag signum)) m (reach-IsLive r))

  -- The jobs of at most `n` dispatches, until one ends the loop.
  unfoldable pub until_stop : ℕ → Multi → Run Multi
  until_stop zero m = timeout
  until_stop (suc n) m = do
    (r, m1) ← dispatch_job c place m
    elim r [ stop_loop ↦ done m1 | skip_other_fd ↦ timeout | nothing ↦ until_stop n m1 ]

  -- While it is stopping, a job but the null one changes nothing.
  pub refused :
      (job : Job) (m : Multi)
      → m.stopping ≡ true
      → do_job c place (some (some job)) m ≡ done (nothing, m)
  unfolding do_job job_stop job_spawn_proc
  refused (stop flag signum) m s =
      ap
        (λ b.
          if b
          then done (nothing, m)
          else job_nullptr_stop (record m { stop_flag = flag; stop_signum = signum }))
        s
  refused (spawn id) m s =
      ap
        (λ b. if b then done (nothing, m) else (do m1 ← spawn_job c place id m; done (nothing, m1)))
        s

  drained :
      (jobs : List (Option Job)) (m : Multi)
      → m.buffer.buffer ≡ jobs
      → m.stopping ≡ true
      → m.active_procs ≡ []
      → has_null jobs ≡ true
      → (m1 : Multi) × (until_stop (length jobs) m ≡ done m1) × (m1.log ≡ m.log)
  unfolding until_stop has_null do_job job_nullptr_stop
  drained [] m e s a h = cc
  drained (none ∷ rest) m e s a h =
      (taken rest m, rw (dispatch-front none rest m e, s, a) refl, refl)
  drained (some job ∷ rest) m e s a h =
      let (m1, r, l) =
        drained rest (taken rest m) (notify-buffer (record m.buffer { buffer = rest })) s a h in
      (m1, rw (dispatch-front (some job) rest m e, refused job (taken rest m) s) r, l)

  -- From a state that is not stopping, while ready descriptors are handled and other threads send
  -- jobs: whenever the object is stopping and its last process has ended, the jobs in the buffer are
  -- enough for the loop to end. The dispatches up to that one return, start nothing, and make no call
  -- of the system or the user.
  pub reach-until_stop :
      {m : Multi}
      → Reach m
      → m.stopping ≡ true
      → m.active_procs ≡ []
      → (m1 : Multi) × (until_stop (length m.buffer.buffer) m ≡ done m1) × (m1.log ≡ m.log)
  reach-until_stop {m} r s a = elim (reach-IsLive r s) [
    | inl e ↦ absurd (let f : is_empty m.active_procs ≡ true = ap is_empty a in cc)
    | inr h ↦ drained m.buffer.buffer m refl s a h
  ]
