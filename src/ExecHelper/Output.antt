-- ===== src/ExecHelper/Output.antt =====
-- What `exec` returns of the output and the errors.
use pexec.Base.{ℕ, zero, suc, Bytes, List, [], ◌∷◌, ◌++◌, is_empty, ◌≡◌, refl, sym, ◌∙◌, ap, Lacks}
use pexec.Error.{Error, Perror}
use pexec.Run.{done}
use pexec.System.{Log, on_error, on_state, on_stdout, on_stderr}
use pexec.Util.{c_str}
use pexec.PexecSingle.State.{Pexec, blocking, new_pexec}
use pexec.PexecSingle.Loop.{Setting}
use pexec.PexecSingle.Exec as Single
use pexec.ExecHelper.{PexecStatus, new_status, valid, gather, exec}

-- All that the child wrote to its output and that was read.
abbrev pub written : Log → Bytes
written [] = []
written (on_stdout bytes ∷ log) = written log ++ bytes
written (_ ∷ log) = written log

-- The errors that were reported, in order.
abbrev pub reported : Log → List Error
reported [] = []
reported (on_error e ∷ log) = reported log ++ e ∷ []
reported (_ ∷ log) = reported log

abbrev pub codes_of : List Perror → List Error
codes_of [] = []
codes_of (p ∷ ps) = p.pexec_error ∷ codes_of ps

-- No piece of output has a NUL.
abbrev pub IsText : Log → Type 0
IsText [] = Unit
IsText (on_stdout bytes ∷ log) = Lacks 0 bytes × IsText log
IsText (_ ∷ log) = IsText log

c_str_lem : (p : Bytes) → Lacks 0 p → c_str p ≡ p
unfolding c_str
c_str_lem [] h = refl
c_str_lem (zero ∷ p) h = absurd (h.0 refl)
c_str_lem (suc b ∷ p) h = ap (λ q. suc b ∷ q) (c_str_lem p h.1)

c_str-append : (p q : Bytes) → Lacks 0 p → c_str (p ++ 0 ∷ q) ≡ p
unfolding c_str
c_str-append [] q h = refl
c_str-append (zero ∷ p) q h = absurd (h.0 refl)
c_str-append (suc b ∷ p) q h = ap (λ q. suc b ∷ q) (c_str-append p q h.1)

codes_of-append :
    (ps : List Perror) (p : Perror) → codes_of (ps ++ p ∷ []) ≡ codes_of ps ++ p.pexec_error ∷ []
codes_of-append [] p = refl
codes_of-append (q ∷ ps) p = ap (λ es. q.pexec_error ∷ es) (codes_of-append ps p)

module _ (errno : Log → ℕ) where
  out-written :
      (log : Log) (arg : Bytes)
      → IsText log
      → (gather errno log (new_status arg)).proc_out ≡ written log
  unfolding gather
  out-written [] arg h = refl
  out-written (on_stdout bytes ∷ log) arg h = cc (out-written log arg h.1, c_str_lem bytes h.0)
  out-written (_ ∷ log) arg h = out-written log arg h

  codes_of-reported :
      (log : Log) (arg : Bytes) → codes_of (gather errno log (new_status arg)).err ≡ reported log
  unfolding gather
  codes_of-reported [] arg = refl
  codes_of-reported (on_error e ∷ log) arg =
      codes_of-append (gather errno log (new_status arg)).err
        (record { pexec_error = e; error_code = errno log })
      ∙ ap (λ es. es ++ e ∷ []) (codes_of-reported log arg)
  codes_of-reported (_ ∷ log) arg = codes_of-reported log arg

  args-same : (log : Log) (arg : Bytes) → (gather errno log (new_status arg)).args ≡ arg
  unfolding gather
  args-same [] arg = refl
  args-same (on_error _ ∷ log) arg = args-same log arg
  args-same (on_stdout _ ∷ log) arg = args-same log arg
  args-same (on_stderr _ ∷ log) arg = args-same log arg
  args-same (on_state _ _ ∷ log) arg = args-same log arg
  args-same (_ ∷ log) arg = args-same log arg

is_empty-codes_of : (ps : List Perror) → is_empty (codes_of ps) ≡ is_empty ps
is_empty-codes_of [] = refl
is_empty-codes_of (p ∷ ps) = refl

-- When the call it makes returns, so does `exec`: the command line is kept, the errors are those
-- that were reported, in order, the result is valid exactly if there was none, and the output is all
-- that was read of it, in order, if no piece has a NUL.
pub exec_reports :
    (c : Setting) (arg : Bytes) (t : Pexec)
    → Single.exec c arg (new_pexec blocking []) ≡ done t
    → (r : PexecStatus) × (exec c arg ≡ done r)
      × (r.args ≡ arg)
      × (codes_of r.err ≡ reported t.log)
      × (valid r ≡ is_empty (reported t.log))
      × (IsText t.log → r.proc_out ≡ written t.log)
unfolding exec valid
exec_reports c arg t h =
    let r = gather c.os.errno t.log (new_status arg) in
    let e = codes_of-reported c.os.errno t.log arg in
    (
      r,
      rw h refl,
      args-same c.os.errno t.log arg,
      e,
      sym (is_empty-codes_of r.err) ∙ ap is_empty e,
      out-written c.os.errno t.log arg,
    )

-- A piece of output is cut at its first NUL: what the child wrote behind it is not in the result.
pub gather_cut :
    (errno : Log → ℕ) (log : Log) (s : PexecStatus) (p q : Bytes)
    → Lacks 0 p
    → (gather errno (on_stdout (p ++ 0 ∷ q) ∷ log) s).proc_out ≡ (gather errno log s).proc_out ++ p
unfolding gather
gather_cut errno log s p q h = ap (λ b. (gather errno log s).proc_out ++ b) (c_str-append p q h)
