-- ===== src/PexecMulti/Live.antt =====
-- The stop protocol: while `pexec_multi` is stopping, a process is active or a null job waits.
use pexec.Base.{
  ℕ, zero, suc, ◌-◌, Bool, true, false, ◌&&◌, Option, none, some, List, [], ◌∷◌, ◌++◌, length, ltb,
  is_empty, ◌≡◌, refl, ◌∙◌, sym, ap, ◌⊎◌, inl, inr, Option-cases, if◌then◌else◌,
}
use pexec.PexecMulti.Handle.{pid, hear_new, has_end}
use pexec.PexecMulti.Jobs.{proc_stopped, call_stopped, told_stopped, heard, with_process}
use pexec.PexecMulti.State.{
  Multi, Job, emit, remove, set_handle, queue_size, interrupt, send_job, remove_read_event,
}
use pexec.PexecSingle.Exec as Single
use pexec.PexecSingle.Loop.{Setting}
use pexec.PexecSingle.State.{Pexec}
use pexec.QueueBuffer.{Queue, add, notify}
use pexec.Run.{Run, done, Ensures, Ensures-bind, Ensures-if, Ensures-imp, Ensures-any}
use pexec.System.{stop_told}

-- Whether a null job waits.
unfoldable pub has_null : List (Option Job) → Bool
has_null [] = false
has_null (none ∷ jobs) = true
has_null (some job ∷ jobs) = has_null jobs

abbrev pub IsLive : Multi → Type 0
IsLive m = m.stopping ≡ true → (is_empty m.active_procs ≡ false) ⊎ (has_null m.buffer.buffer ≡ true)

has_null-append :
    (jobs : List (Option Job)) (job : Option Job)
    → has_null jobs ≡ true
    → has_null (jobs ++ job ∷ []) ≡ true
unfolding has_null
has_null-append [] job h = cc
has_null-append (none ∷ jobs) job h = refl
has_null-append (some j ∷ jobs) job h = has_null-append jobs job h

has_null-last : (jobs : List (Option Job)) → has_null (jobs ++ none ∷ []) ≡ true
unfolding has_null
has_null-last [] = refl
has_null-last (none ∷ jobs) = refl
has_null-last (some j ∷ jobs) = has_null-last jobs

pub notify-buffer : {A : Type 0} (q : Queue A) → (notify q).buffer ≡ q.buffer
unfolding notify
notify-buffer {A} q = by q.asleep
  where
    by :
        (n : ℕ)
        → let q1 : Queue A = elim n [
          | zero ↦ q
          | suc k ↦ record q { asleep = k; woken = suc q.woken }
        ] in
          q1.buffer ≡ q.buffer
    by zero = refl
    by (suc n) = refl

add-buffer :
    (job : Option Job) (q r : Queue (Option Job))
    → add queue_size job q ≡ some r
    → r.buffer ≡ q.buffer ++ job ∷ []
unfolding add
add-buffer job q r h = by (ltb (length q.buffer) queue_size) h
  where
    q1 : Queue (Option Job)
    q1 = record q { buffer = q.buffer ++ job ∷ [] }

    by :
        (b : Bool)
        → (if b then some (notify q1) else none) ≡ some r
        → r.buffer ≡ q.buffer ++ job ∷ []
    by true e = let f : r ≡ notify q1 = cc in ap (λ x. x.buffer) f ∙ notify-buffer q1
    by false e = cc

-- What `send_job` leaves, if it does not wait.
pub send_job-adds :
    (job : Option Job) (m : Multi)
    → Ensures
        (λ m1.
          (m1.stopping ≡ m.stopping)
          × (m1.active_procs ≡ m.active_procs)
          × (m1.buffer.buffer ≡ m.buffer.buffer ++ job ∷ []))
        (send_job job m)
unfolding send_job interrupt
send_job-adds job m = elim (Option-cases (add queue_size job m.buffer)) [
  | inl e ↦ rw (e, send_job) tt
  | inr (q, e) ↦ rw (e, send_job) (refl, refl, add-buffer job m.buffer q e)
]

pub send_job-IsLive : (job : Option Job) (m : Multi) → IsLive m → Ensures IsLive (send_job job m)
send_job-IsLive job m live =
    Ensures-imp
      (λ m1.
        (m1.stopping ≡ m.stopping)
        × (m1.active_procs ≡ m.active_procs)
        × (m1.buffer.buffer ≡ m.buffer.buffer ++ job ∷ []))
      IsLive (send_job job m) (send_job-adds job m)
      (λ m1 (s, a, b) h. elim (live (sym s ∙ h)) [
        | inl e ↦ inl (ap is_empty a ∙ e)
        | inr e ↦ inr (ap has_null b ∙ has_null-append m.buffer.buffer job e)
      ])

send_null-IsLive : (m : Multi) → Ensures IsLive (send_job none m)
send_null-IsLive m =
    Ensures-imp
      (λ m1.
        (m1.stopping ≡ m.stopping)
        × (m1.active_procs ≡ m.active_procs)
        × (m1.buffer.buffer ≡ m.buffer.buffer ++ none ∷ []))
      IsLive (send_job none m) (send_job-adds none m)
      (λ m1 (s, a, b) h. inr (ap has_null b ∙ has_null-last m.buffer.buffer))

-- The end of `on_proc_stopped`, for what is left of the active processes.
after_erase :
    (m : Multi)
    → Ensures IsLive
        (let r = send_job none m in if m.stopping && is_empty m.active_procs then r else done m)
after_erase m = by m.stopping (is_empty m.active_procs) refl refl
  where
    by :
        (a b : Bool)
        → m.stopping ≡ a
        → is_empty m.active_procs ≡ b
        → Ensures IsLive (let r = send_job none m in if a && b then r else done m)
    by true true e f = send_null-IsLive m
    by true false e f = λ _. inl f
    by false b e f = λ h. cc

proc_stopped-IsLive : (pid id : ℕ) (m : Multi) → Ensures IsLive (proc_stopped pid id m)
unfolding proc_stopped
proc_stopped-IsLive pid id m =
    Ensures-bind (λ _. Unit {0}) IsLive (remove_read_event fds.watch_close_write_fd m) _
      (Ensures-any (remove_read_event fds.watch_close_write_fd m))
      (λ m1 _.
        Ensures-bind (λ _. Unit {0}) IsLive (remove_read_event fds.stdout_read_fd m1) _
          (Ensures-any (remove_read_event fds.stdout_read_fd m1))
          (λ m2 _.
            Ensures-bind (λ _. Unit {0}) IsLive (remove_read_event fds.stderr_read_fd m2) _
              (Ensures-any (remove_read_event fds.stderr_read_fd m2))
              (λ m3 _. after_erase (record m3 { active_procs = remove pid m3.active_procs }))))
  where
    fds : Single.PexecFds
    fds = (m.handles id).fds

call_stopped-IsLive :
    (o : Option ℕ) (id : ℕ) (m : Multi) → IsLive m → Ensures IsLive (call_stopped o id m)
unfolding call_stopped
call_stopped-IsLive none id m live = live
call_stopped-IsLive (some pid) id m live = proc_stopped-IsLive pid id m

IsLive-if : (b : Bool) (m1 m2 : Multi) → IsLive m1 → IsLive m2 → IsLive (if b then m1 else m2)
IsLive-if true m1 m2 a b = a
IsLive-if false m1 m2 a b = b

told_stopped-IsLive : (id : ℕ) (m : Multi) → IsLive m → Ensures IsLive (told_stopped id m)
unfolding told_stopped
told_stopped-IsLive id m live =
    let h = m.handles id in
    call_stopped-IsLive h.stopped_pid id (if h.has_on_stop then emit (stop_told id) m else m)
      (IsLive-if h.has_on_stop (emit (stop_told id) m) m live live)

module _ (c : Setting) where
  open c use {os}

  heard-IsLive : (id : ℕ) (p : Pexec) (m : Multi) → IsLive m → Ensures IsLive (heard c id p m)
  unfolding heard
  heard-IsLive id p m live =
      let k = length p.log - length m.log in
      let h = hear_new os.errno k p.log (record (m.handles id) { proc = p }) in
      let m1 = set_handle id h (record m { log = p.log }) in
      Ensures-if IsLive (has_end k p.log) (told_stopped id m1) (done m1)
        (told_stopped-IsLive id m1 live) live

  pub with_process-IsLive :
      (id : ℕ) (method : Pexec → Run Pexec) (m : Multi)
      → IsLive m
      → Ensures IsLive (with_process c id method m)
  unfolding with_process
  with_process-IsLive id method m live =
      Ensures-bind (λ _. Unit {0}) IsLive (method (record (m.handles id).proc { log = m.log }))
        (λ p. heard c id p m) (Ensures-any (method (record (m.handles id).proc { log = m.log })))
        (λ p _. heard-IsLive id p m live)
