-- ===== src/PexecMulti/UserStop.antt =====
-- A stop with STOP_USER: whom it tells.
use pexec.Base.{
  ℕ, ◌+◌, ◌*◌, true, false, not, ◌&&◌, Option, some, List, [], ◌∷◌, length, is_empty, ◌≡◌, refl,
  ◌∙◌, ap, arith, if◌then◌else◌, All,
}
use pexec.PexecMulti.Handle.{PexecHandle}
use pexec.PexecMulti.Jobs.{
  user_stop, user_stop_all, by_flag, cleanup, job_nullptr_stop, job_stop, do_job, dispatch_job,
}
use pexec.PexecMulti.State.{Multi, Table, stop_user, Job, stop, emit}
use pexec.PexecMulti.Stop.{taken, dispatch-front}
use pexec.PexecSingle.Loop.{Setting}
use pexec.Run.{Run, done, ◌>>=◌}
use pexec.SelectEvent.{EventReturn, stop_loop, nothing}
use pexec.System.{Log, wrote}
use pexec.System.Ledger.{at_fd}

-- The bytes written to a descriptor.
abbrev pub bytes_to : ℕ → Log → ℕ
bytes_to n [] = 0
bytes_to n (wrote fd bytes ∷ log) = at_fd n fd * length bytes + bytes_to n log
bytes_to n (_ ∷ log) = bytes_to n log

-- The pipe by which a process is left to the user.
abbrev pub stop_fd : (ℕ → PexecHandle) → ℕ × ℕ → Option ℕ
stop_fd handles (pid, id) = (handles id).ret.proc.user_stop_fd

-- How many of the processes have the descriptor for that pipe.
abbrev pub with_fd : ℕ → (ℕ → PexecHandle) → List (ℕ × ℕ) → ℕ
with_fd n handles [] = 0
with_fd n handles (p ∷ procs) = at_fd n (stop_fd handles p) + with_fd n handles procs

abbrev pub HasFd : (ℕ → PexecHandle) → ℕ × ℕ → Type 0
HasFd handles p = (fd : ℕ) × (stop_fd handles p ≡ some fd)

user_stop_all-bytes :
    (n : ℕ) (procs : List (ℕ × ℕ)) (m : Multi)
    → All (HasFd m.handles) procs
    → (m1 : Multi) × (user_stop_all procs m ≡ done m1)
      × (bytes_to n m1.log ≡ with_fd n m.handles procs + bytes_to n m.log)
      × (length m1.log ≡ length procs + length m.log)
      × (m1.stopping ≡ m.stopping)
unfolding user_stop_all user_stop
user_stop_all-bytes n [] m h = (m, refl, omega arith, omega arith, refl)
user_stop_all-bytes n ((pid, id) ∷ procs) m ((fd, e), h) =
    let m1 = emit (wrote (some fd) (0 ∷ [])) m in
    let (m2, r, b, l, s) = user_stop_all-bytes n procs m1 h in
    let same = ap (at_fd n) e in
    (m2, rw (e, user_stop) r, omega (arith, b, same), omega (arith, l), s)

module _ (c : Setting) (place : Table → ℕ → ℕ) where
  -- A stop with STOP_USER, taken from the buffer while processes are active, each of them with the
  -- pipe that ends its watching: the loop goes on, the object is stopping, and one byte was written
  -- to each of these pipes, with no other call of the system or the user.
  pub dispatch-tells :
      (n : ℕ) (signum : Option ℕ) (rest : List (Option Job)) (m : Multi)
      → m.buffer.buffer ≡ some (stop stop_user signum) ∷ rest
      → m.stopping ≡ false
      → is_empty m.active_procs ≡ false
      → All (HasFd m.handles) m.active_procs
      → (m1 : Multi) × (dispatch_job c place m ≡ done (nothing, m1))
        × (m1.stopping ≡ true)
        × (bytes_to n m1.log ≡ with_fd n m.handles m.active_procs + bytes_to n m.log)
        × (length m1.log ≡ length m.active_procs + length m.log)
  unfolding do_job job_stop job_nullptr_stop cleanup by_flag
  dispatch-tells n signum rest m e s a h =
      let m1 : Multi = record (taken rest m) { stop_flag = stop_user; stop_signum = signum } in
      let m2 : Multi = record m1 { stopping = true } in
      let (m3, r, b, l, t) = user_stop_all-bytes n m.active_procs m2 h in
      let cleaned : Run (EventReturn × Multi) = (do
        m3 ← user_stop_all m.active_procs m2
        done (nothing, m3)) in
      let left : Run (EventReturn × Multi) =
        done (if is_empty m.active_procs then stop_loop else nothing, m1) in
      let f : not m.stopping && not (is_empty m.active_procs) ≡ true = rw (s, a) refl in
      (
        m3,
        dispatch-front c place (some (stop stop_user signum)) rest m e
            ∙ ap (λ b. if b then done (nothing, taken rest m) else job_nullptr_stop m1) s
            ∙ ap (λ b. if b then cleaned else left) f
            ∙ ap (λ r. r >>= (λ m3. done (nothing, m3))) r,
        t,
        b,
        l,
      )
