-- ===== src/PexecMulti/Kill.antt =====
-- A stop with STOP_KILL: whom it signals.
use pexec.Base.{
  ℕ, ◌+◌, Bool, true, false, not, ◌&&◌, Option, none, some, List, [], ◌∷◌, ◌==◌, length, is_empty,
  ◌≡◌, refl, ◌∙◌, ap, arith, if◌then◌else◌,
}
use pexec.PexecMulti.Jobs.{
  kill_all, by_flag, cleanup, job_nullptr_stop, job_stop, do_job, dispatch_job,
}
use pexec.PexecMulti.State.{Multi, Table, stop_kill, Job, stop, emit}
use pexec.PexecMulti.Stop.{taken, dispatch-front}
use pexec.PexecSingle.Loop.{Setting}
use pexec.Run.{Run, done}
use pexec.SelectEvent.{EventReturn, stop_loop, nothing}
use pexec.System.{Log, killed}

abbrev same_signal : Option ℕ → Option ℕ → Bool
same_signal none none = true
same_signal (some a) (some b) = a == b
same_signal _ _ = false

abbrev one_if : Bool → ℕ
one_if true = 1
one_if false = 0

one_if-and : (a b : Bool) → b ≡ true → one_if (a && b) ≡ one_if a
one_if-and true b e = ap one_if e
one_if-and false b e = refl

-- How often `kill` sent the signal to the process.
abbrev pub kills : ℕ → Option ℕ → Log → ℕ
kills pid signum [] = 0
kills pid signum (killed p s ∷ log) =
    one_if (p == pid && same_signal s signum) + kills pid signum log
kills pid signum (_ ∷ log) = kills pid signum log

-- How often a process is in the table.
abbrev pub entries : ℕ → List (ℕ × ℕ) → ℕ
entries pid [] = 0
entries pid ((p, id) ∷ procs) = one_if (p == pid) + entries pid procs

same_signal_refl : (s : Option ℕ) → same_signal s s ≡ true
same_signal_refl none = refl
same_signal_refl (some a) = ground arith

kill_all-kills :
    (pid : ℕ) (procs : List (ℕ × ℕ)) (m : Multi)
    → (kills pid m.stop_signum (kill_all procs m).log
        ≡ entries pid procs + kills pid m.stop_signum m.log)
      × (length (kill_all procs m).log ≡ length procs + length m.log)
      × ((kill_all procs m).stopping ≡ m.stopping)
unfolding kill_all
kill_all-kills pid [] m = (omega arith, omega arith, refl)
kill_all-kills pid ((p, id) ∷ procs) m =
    let m1 = emit (killed p m.stop_signum) m in
    let (a, b, s) = kill_all-kills pid procs m1 in
    let one =
      one_if-and (p == pid) (same_signal m.stop_signum m.stop_signum)
        (same_signal_refl m.stop_signum) in
    (omega (arith, a, one), omega (arith, b), s)

module _ (c : Setting) (place : Table → ℕ → ℕ) where
  -- A stop with STOP_KILL, taken from the buffer while processes are active: the loop goes on, the
  -- object is stopping, and the signal was sent once for each entry of the table of active processes,
  -- to its process, with no other call of the system or the user.
  pub dispatch-kills :
      (pid : ℕ) (signum : Option ℕ) (rest : List (Option Job)) (m : Multi)
      → m.buffer.buffer ≡ some (stop stop_kill signum) ∷ rest
      → m.stopping ≡ false
      → is_empty m.active_procs ≡ false
      → (m1 : Multi) × (dispatch_job c place m ≡ done (nothing, m1))
        × (m1.stopping ≡ true)
        × (kills pid signum m1.log ≡ entries pid m.active_procs + kills pid signum m.log)
        × (length m1.log ≡ length m.active_procs + length m.log)
  unfolding do_job job_stop job_nullptr_stop cleanup by_flag
  dispatch-kills pid signum rest m e s a =
      let m1 : Multi = record (taken rest m) { stop_flag = stop_kill; stop_signum = signum } in
      let m2 : Multi = record m1 { stopping = true } in
      let m3 = kill_all m.active_procs m2 in
      let cleaned : Run (EventReturn × Multi) = done (nothing, m3) in
      let left : Run (EventReturn × Multi) =
        done (if is_empty m.active_procs then stop_loop else nothing, m1) in
      let f : not m.stopping && not (is_empty m.active_procs) ≡ true = rw (s, a) refl in
      let (k, l, t) = kill_all-kills pid m.active_procs m2 in
      (
        m3,
        dispatch-front c place (some (stop stop_kill signum)) rest m e
            ∙ ap (λ b. if b then done (nothing, taken rest m) else job_nullptr_stop m1) s
            ∙ ap (λ b. if b then cleaned else left) f,
        t,
        k,
        l,
      )
