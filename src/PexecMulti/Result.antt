-- ===== src/PexecMulti/Result.antt =====
-- The result that `on_stop` is given against that of the function `exec`.
use pexec.Base.{
  same_if, ℕ, Bytes, Bool, true, false, [], ◌∷◌, ◌++◌, length, ◌≡◌, refl, ◌∙◌, sym, ap,
  if◌then◌else◌,
}
use pexec.ExecHelper as Helper
use pexec.ExecHelper.{PexecStatus, new_status, gather}
use pexec.PexecMulti.Handle.{PexecHandle, new_handle, is_stop, with_output, hear, hear_new}
use pexec.ProcStatus as Proc
use pexec.ProcStatus.{ProcStatus}
use pexec.System.{Event, Log, on_error, on_state, on_stdout, on_stderr}
use pexec.Util.{c_str}

-- Which of the three callbacks that replace the gathering are set.
abbrev callbacks : PexecHandle → Bool × Bool × Bool
callbacks h = (h.has_stdout_cb, h.has_stderr_cb, h.has_error_cb)

hear-callbacks :
    (errno : ℕ) (e : Event) (h : PexecHandle) → callbacks (hear errno e h) ≡ callbacks h
unfolding hear is_stop with_output
hear-callbacks errno (on_error e) h = same_if callbacks h.has_error_cb h _ (callbacks h) refl refl
hear-callbacks errno (on_stdout bytes) h =
    same_if callbacks h.has_stdout_cb h _ (callbacks h) refl refl
hear-callbacks errno (on_stderr bytes) h =
    same_if callbacks h.has_stderr_cb h _ (callbacks h) refl refl
hear-callbacks errno (on_state st p) h =
    let h1 : PexecHandle = record h { ret = record h.ret { proc = p; state = st } } in
    same_if callbacks (is_stop st) (with_output h1) h1 (callbacks h) refl refl
hear-callbacks errno e h = refl

-- The result that would be given now.
abbrev result : PexecHandle → PexecStatus
result h = (with_output h).ret

hear-result :
    (errno : ℕ) (e : Event) (h : PexecHandle)
    → callbacks h ≡ (false, false, false)
    → result (hear errno e h) ≡ Helper.hear errno e (result h)
unfolding hear Helper.hear is_stop with_output
hear-result errno (on_error e) h q =
    let b : h.has_error_cb ≡ false = ap (λ q. q.2) q in
    ap
      (λ b. result (
        if b then h else record h {
          ret = record h.ret {
            err = h.ret.err ++ record { pexec_error = e; error_code = errno } ∷ [];
          };
        }))
      b
hear-result errno (on_stdout bytes) h q =
    let b : h.has_stdout_cb ≡ false = ap (λ q. q.0) q in
    ap (λ b. result (if b then h else record h { stdout_oss = h.stdout_oss ++ c_str bytes })) b
hear-result errno (on_stderr bytes) h q =
    let b : h.has_stderr_cb ≡ false = ap (λ q. q.1) q in
    ap (λ b. result (if b then h else record h { stderr_oss = h.stderr_oss ++ c_str bytes })) b
hear-result errno (on_state st p) h q =
    let h1 : PexecHandle = record h { ret = record h.ret { proc = p; state = st } } in
    same_if result (is_stop st) (with_output h1) h1 (result h1) refl refl
hear-result errno e h q = refl

gathered :
    (errno : Log → ℕ) (log : Log) (h : PexecHandle)
    → callbacks h ≡ (false, false, false)
    → (callbacks (hear_new errno (length log) log h) ≡ (false, false, false))
      × (result (hear_new errno (length log) log h) ≡ gather errno log (result h))
unfolding hear_new gather
gathered errno [] h q = (q, refl)
gathered errno (e ∷ log) h q =
    let (c, r) = gathered errno log h q in
    let g = hear_new errno (length log) log h in
    (
      hear-callbacks (errno log) e g ∙ c,
      hear-result (errno log) e g c ∙ ap (Helper.hear (errno log) e) r,
    )

-- A job with none of its callbacks for output and errors set: at the end of its process, after
-- whatever events, `on_stop` is given the result that the function `exec` gathers from the same
-- events.
pub hear_new-gather :
    (errno : Log → ℕ) (args : Bytes) (st : Proc.State) (p : ProcStatus) (log : Log)
    (has_on_stop : Bool)
    → is_stop st ≡ true
    → let all : Log = on_state st p ∷ log in
      (hear_new errno (length all) all (new_handle args false false false has_on_stop)).ret
      ≡ gather errno all (new_status args)
unfolding hear_new hear with_output
hear_new-gather errno args st p log has_on_stop e =
    let h = new_handle args false false false has_on_stop in
    let g = hear_new errno (length log) log h in
    let h1 : PexecHandle = record g { ret = record g.ret { proc = p; state = st } } in
    ap (λ b. (if b then with_output h1 else h1).ret) e
    ∙ ap (λ b. result (if b then with_output h1 else h1)) (sym e)
    ∙ (gathered errno (on_state st p ∷ log) h refl).1
