-- ===== src/PexecMulti/Fresh.antt =====
-- `pexec_multi_handle::exec` for a job that was not started before.
use pexec.Base.{
  same_if, ℕ, zero, suc, ◌-◌, Bool, true, false, none, [], ◌∷◌, ◌==◌, length, ◌≡◌, refl, ◌∙◌, sym,
  ap, subst, arith, if◌then◌else◌,
}
use pexec.PexecMulti.Handle.{PexecHandle, hear, hear_new, has_end, is_stop, with_output}
use pexec.PexecMulti.Jobs.{call_stopped, told_stopped, heard, with_process, exec_handle}
use pexec.PexecMulti.Same.{Same}
use pexec.PexecMulti.State.{Multi, emit, set_handle}
use pexec.PexecSingle.Exec as Single
use pexec.PexecSingle.Exec.{get_fds}
use pexec.PexecSingle.Loop.{Setting}
use pexec.PexecSingle.State.{Pexec}
use pexec.Run.{Run, done, Ensures, Ensures-bind, Ensures-if, Ensures-any}
use pexec.System.{Event, Log, on_error, on_stdout, on_stderr, on_state, stop_told}

-- A process of which the end is not watched yet stays so while it is heard.
hear-stopped_pid :
    (errno : ℕ) (e : Event) (h : PexecHandle) → (hear errno e h).stopped_pid ≡ h.stopped_pid
unfolding hear is_stop with_output
hear-stopped_pid errno (on_error err) h =
    same_if (λ h. h.stopped_pid) h.has_error_cb h _ h.stopped_pid refl refl
hear-stopped_pid errno (on_stdout bytes) h =
    same_if (λ h. h.stopped_pid) h.has_stdout_cb h _ h.stopped_pid refl refl
hear-stopped_pid errno (on_stderr bytes) h =
    same_if (λ h. h.stopped_pid) h.has_stderr_cb h _ h.stopped_pid refl refl
hear-stopped_pid errno (on_state st p) h =
    let h1 : PexecHandle = record h { ret = record h.ret { proc = p; state = st } } in
    same_if (λ h. h.stopped_pid) (is_stop st) (with_output h1) h1 h.stopped_pid refl refl
hear-stopped_pid errno e h = refl

pub hear_new-stopped_pid :
    (errno : Log → ℕ) (k : ℕ) (log : Log) (h : PexecHandle)
    → (hear_new errno k log h).stopped_pid ≡ h.stopped_pid
unfolding hear_new
hear_new-stopped_pid errno zero log h = refl
hear_new-stopped_pid errno (suc k) [] h = refl
hear_new-stopped_pid errno (suc k) (e ∷ log) h =
    hear-stopped_pid (errno log) e (hear_new errno k log h) ∙ hear_new-stopped_pid errno k log h

Same-if : (b : Bool) (m m1 m2 : Multi) → Same m m1 → Same m m2 → Same m (if b then m1 else m2)
Same-if true m m1 m2 a b = a
Same-if false m m1 m2 a b = b

told_stopped-Same :
    (id : ℕ) (m : Multi) → (m.handles id).stopped_pid ≡ none → Ensures (Same m) (told_stopped id m)
unfolding told_stopped call_stopped
told_stopped-Same id m e =
    let h = m.handles id in
    let m1 = if h.has_on_stop then emit (stop_told id) m else m in
    subst (λ o. Ensures (Same m) (call_stopped o id m1)) (sym e)
      (Same-if h.has_on_stop m (emit (stop_told id) m) m (refl, refl, refl) (refl, refl, refl))

pub handle-set : (id : ℕ) (h : PexecHandle) (m : Multi) → (set_handle id h m).handles id ≡ h
handle-set id h m =
    let e : (id == id) ≡ true = ground arith in ap (λ b. if b then h else m.handles id) e

module _ (c : Setting) where
  open c use {os}

  pub exec_handle-Same :
      (id : ℕ) (m : Multi)
      → (m.handles id).stopped_pid ≡ none
      → Ensures (Same m) (exec_handle c id m)
  unfolding exec_handle with_process heard
  exec_handle-Same id m e =
      Ensures-bind (Same m) (Same m) (with_process c id method m) _
        (Ensures-bind (λ _. Unit {0}) (Same m) (method p0) (λ p. heard c id p m)
          (Ensures-any (method p0)) (λ p _. told p))
        (λ m1 s. s)
    where
      method : Pexec → Run Pexec
      method p = Single.exec c (m.handles id).ret.args p

      p0 : Pexec
      p0 = record (m.handles id).proc { log = m.log }

      told : (p : Pexec) → Ensures (Same m) (heard c id p m)
      told p =
          let k = length p.log - length m.log in
          let h0 : PexecHandle = record (m.handles id) { proc = p } in
          let h = hear_new os.errno k p.log h0 in
          let m1 = set_handle id h (record m { log = p.log }) in
          let f : (m1.handles id).stopped_pid ≡ none =
            ap (λ h. h.stopped_pid) (handle-set id h (record m { log = p.log }))
            ∙ hear_new-stopped_pid os.errno k p.log h0
            ∙ e in
          Ensures-if (Same m) (has_end k p.log) (told_stopped id m1) (done m1)
            (told_stopped-Same id m1 f) (refl, refl, refl)
