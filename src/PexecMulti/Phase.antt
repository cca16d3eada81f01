-- ===== src/PexecMulti/Phase.antt =====
-- `dispatch_job` against what the stop protocol is: an automaton on the active pids and on whether
-- the object is stopping.
use pexec.Base.{
  ℕ, ◌<◌, Bool, true, false, not, ◌&&◌, Option, none, some, List, [], ◌∷◌, ◌==◌, ltb, is_empty, ◌≡◌,
  ◌≢◌, refl, ◌∙◌, sym, ap, ap₂, subst, ◌⊎◌, inl, inr, arith, Bool-cases, if◌then◌else◌,
}
use pexec.PexecMulti.Dispatch.{watch_process-Same, cleanup-Same}
use pexec.PexecMulti.Fresh.{exec_handle-Same}
use pexec.PexecMulti.Handle.{pid}
use pexec.PexecMulti.Jobs.{
  exec_handle, watch_process, spawn_job, job_spawn_proc, cleanup, job_nullptr_stop, job_stop,
  do_job, dispatch_job,
}
use pexec.PexecMulti.Same.{Same}
use pexec.PexecMulti.State.{Multi, Table, StopFlag, Job, stop, spawn, put}
use pexec.PexecMulti.Stop.{taken, dispatch-front, refused}
use pexec.PexecSingle.Loop.{Setting}
use pexec.Run.{Run, done, ◌>>=◌, assert_then, Ensures, Ensures-bind, Ensures-imp}
use pexec.SelectEvent.{EventReturn, stop_loop, nothing}

pub record Phase : Type 0 where
  pub stopping : Bool
  pub pids : List ℕ

abbrev keys : List (ℕ × ℕ) → List ℕ
keys [] = []
keys ((pid, id) ∷ procs) = pid ∷ keys procs

abbrev pub phase : Multi → Phase
phase m = record { stopping = m.stopping; pids = keys m.active_procs }

-- A pid that is there already stays where it is.
abbrev with_pid : ℕ → List ℕ → List ℕ
with_pid pid [] = pid ∷ []
with_pid pid (p ∷ pids) = if pid == p then pid ∷ pids else p ∷ with_pid pid pids

-- What a job may do: the null one and a stop end the loop if no process is active, and else begin to
-- stop; while it is stopping, any other job is dropped; a spawn adds a pid.
pub data Allowed (s : Phase) : Option Job → EventReturn → Phase → Type 0 where
  null_ends : s.pids ≡ [] → Allowed s none stop_loop s
  null_waits : s.pids ≢ [] → Allowed s none nothing (record s { stopping = true })
  stop_ends :
      (flag : StopFlag) (signum : Option ℕ)
      → s.stopping ≡ false
      → s.pids ≡ []
      → Allowed s (some (stop flag signum)) stop_loop s
  stop_waits :
      (flag : StopFlag) (signum : Option ℕ)
      → s.stopping ≡ false
      → s.pids ≢ []
      → Allowed s (some (stop flag signum)) nothing (record s { stopping = true })
  drops : (job : Job) → s.stopping ≡ true → Allowed s (some job) nothing s
  spawns :
      (id pid : ℕ)
      → s.stopping ≡ false
      → 0 < pid
      → Allowed s (some (spawn id)) nothing (record s { pids = with_pid pid s.pids })

keys-put : (pid id : ℕ) (procs : List (ℕ × ℕ)) → keys (put pid id procs) ≡ with_pid pid (keys procs)
unfolding put
keys-put pid id [] = refl
keys-put pid id ((p, i) ∷ procs) = elim (Bool-cases (pid == p)) [
  | inl e ↦ rw e refl
  | inr e ↦ rw (e, keys-put pid id procs) refl
]

keys-is_empty : (procs : List (ℕ × ℕ)) → is_empty procs ≡ false → keys procs ≢ []
keys-is_empty [] e f = cc
keys-is_empty ((pid, id) ∷ procs) e f = cc

keys-empty : (procs : List (ℕ × ℕ)) → is_empty procs ≡ true → keys procs ≡ []
keys-empty [] e = refl
keys-empty ((pid, id) ∷ procs) e = cc

Same-phase : (m m1 : Multi) → Same m m1 → phase m1 ≡ phase m
Same-phase m m1 (s, p, q) = ap₂ (λ b procs. record { stopping = b; pids = keys procs }) s p

-- The result of a job that was taken in the state `m`.
abbrev Does : Option Job → Multi → EventReturn × Multi → Type 0
Does job m (r, m1) = Allowed (phase m) job r (phase m1)

-- `job_nullptr_stop`, for either job that calls it.
null_stop :
    (job : Option Job) (m : Multi)
    → (keys m.active_procs ≡ [] → Allowed (phase m) job stop_loop (phase m))
    → (keys m.active_procs ≢ []
        → Allowed (phase m) job nothing (record (phase m) { stopping = true }))
    → Ensures (Does job m) (job_nullptr_stop m)
unfolding job_nullptr_stop
null_stop job m ends waits = by m.stopping (is_empty m.active_procs) refl refl
  where
    cleaned : Run (EventReturn × Multi)
    cleaned = (do m1 ← cleanup m; done (nothing, m1))

    m2 : Multi
    m2 = record m { stopping = true }

    by :
        (a b : Bool)
        → m.stopping ≡ a
        → is_empty m.active_procs ≡ b
        → Ensures
            (Does job m)
            (if not a && not b then cleaned else done (if b then stop_loop else nothing, m))
    by true true s e = ends (keys-empty m.active_procs e)
    by false true s e = ends (keys-empty m.active_procs e)
    by true false s e =
        subst (λ b. Allowed (phase m) job nothing (record (phase m) { stopping = b })) (sym s)
          (waits (keys-is_empty m.active_procs e))
    by false false s e =
        Ensures-bind (Same m2) (Does job m) (cleanup m) (λ m1. done (nothing, m1)) (cleanup-Same m)
          (λ m1 t.
            subst (Allowed (phase m) job nothing) (sym (Same-phase m2 m1 t))
              (waits (keys-is_empty m.active_procs e)))

module _ (c : Setting) (place : Table → ℕ → ℕ) where
  spawned :
      (id : ℕ) (m : Multi)
      → m.stopping ≡ false
      → (m.handles id).stopped_pid ≡ none
      → Ensures
          (λ m1. Allowed (phase m) (some (spawn id)) nothing (phase m1))
          (spawn_job c place id m)
  unfolding spawn_job
  spawned id m s e =
      Ensures-bind (Same m) Good (exec_handle c id m) _ (exec_handle-Same c id m e)
        (λ m1 t. by m1 t (pid (m1.handles id)) (Bool-cases (ltb 0 (pid (m1.handles id)))))
    where
      Good : Multi → Type 0
      Good m1 = Allowed (phase m) (some (spawn id)) nothing (phase m1)

      by :
          (m1 : Multi)
          → Same m m1
          → (p : ℕ) → (ltb 0 p ≡ true) ⊎ (ltb 0 p ≡ false)
          → Ensures Good (assert_then (ltb 0 p) (watch_process c place p id m1))
      by m1 t p (inr f) = rw f tt
      by m1 (st, pr, bu) p (inl f) =
          let m2 : Multi = record m1 { active_procs = put p id m1.active_procs } in
          rw f (
            Ensures-imp (Same m2) Good (watch_process c place p id m1)
              (watch_process-Same c place p id m1)
              (λ m3 t.
                subst (Allowed (phase m) (some (spawn id)) nothing)
                  (sym (
                    Same-phase m2 m3 t
                    ∙ ap₂ (λ b pids. record { stopping = b; pids = pids }) st
                        (ap (λ procs. keys (put p id procs)) pr ∙ keys-put p id m.active_procs)))
                  (spawns id p s (ground (arith, f)))))

  stopped :
      (flag : StopFlag) (signum : Option ℕ) (m : Multi)
      → m.stopping ≡ false
      → Ensures (Does (some (stop flag signum)) m) (job_stop flag signum m)
  unfolding job_stop
  stopped flag signum m s =
      let m1 : Multi = record m { stop_flag = flag; stop_signum = signum } in
      subst (Ensures (Does (some (stop flag signum)) m))
        (sym (ap (λ b. if b then done (nothing, m) else job_nullptr_stop m1) s))
        (null_stop (some (stop flag signum)) m1 (stop_ends flag signum s)
          (stop_waits flag signum s))

  -- The branches of `do_job`, for a job that was taken from the buffer.
  do_job-Does :
      (job : Option Job) (m : Multi)
      → ((id : ℕ) → job ≡ some (spawn id) → (m.handles id).stopped_pid ≡ none)
      → Ensures (Does job m) (do_job c place (some job) m)
  unfolding do_job job_spawn_proc
  do_job-Does none m fresh = null_stop none m null_ends null_waits
  do_job-Does (some job) m fresh = elim (Bool-cases m.stopping) [
    | inl s ↦ subst (Ensures (Does (some job) m)) (sym (refused c place job m s)) (drops job s)
    | inr s ↦ by job fresh s
  ]
    where
      by :
          (job : Job)
          → ((id : ℕ) → some job ≡ some (spawn id) → (m.handles id).stopped_pid ≡ none)
          → m.stopping ≡ false
          → Ensures (Does (some job) m) (do_job c place (some (some job)) m)
      by (stop flag signum) fresh s = stopped flag signum m s
      by (spawn id) fresh s =
          let run : Run (EventReturn × Multi) = (do
            m1 ← spawn_job c place id m
            done (nothing, m1)) in
          subst (Ensures (Does (some (spawn id)) m))
            (sym (ap (λ b. if b then done (nothing, m) else run) s))
            (Ensures-bind (λ m1. Does (some (spawn id)) m (nothing, m1)) (Does (some (spawn id)) m)
              (spawn_job c place id m) (λ m1. done (nothing, m1)) (spawned id m s (fresh id refl))
              (λ m1 a. a))

  -- For a job at the front of the buffer that was not started before: if `dispatch_job` returns, then
  -- on the active pids and on whether the object is stopping it has done what the automaton allows
  -- for this job, with the result that the automaton gives.
  pub dispatch_job-Allowed :
      (job : Option Job) (rest : List (Option Job)) (m : Multi)
      → m.buffer.buffer ≡ job ∷ rest
      → ((id : ℕ) → job ≡ some (spawn id) → (m.handles id).stopped_pid ≡ none)
      → Ensures (λ (r, m1). Allowed (phase m) job r (phase m1)) (dispatch_job c place m)
  dispatch_job-Allowed job rest m e fresh =
      subst (Ensures (Does job m)) (sym (dispatch-front c place job rest m e))
        (do_job-Does job (taken rest m) fresh)
