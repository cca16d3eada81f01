-- ===== src/PexecSingle/Reports.antt =====
-- `handle_sigchld`: what the user hears of the end when `waitpid` has no news.
use pexec.Base.{
  ℕ, suc, Bool, true, false, not, none, ◌∷◌, ◌≡◌, refl, ◌∙◌, ap, arith, if◌then◌else◌, inl,
}
use pexec.Error.{waitpid_error}
use pexec.ProcStatus as Proc
use pexec.ProcStatus.Update.{update_status-zero}
use pexec.ProcStatus.Wait.{WaitMacros, IsWait}
use pexec.Run.{Run, done, ◌>>=◌}
use pexec.System.{Os, not_ready, waited, on_state}
use pexec.PexecSingle.Child.{handle_other}
use pexec.PexecSingle.State.{Pexec, ExecType, blocking, nonblocking, process_error, call_state}
use pexec.PexecSingle.Signals.{
  handle_proc_return_code, block_sigchld, unblock_sigchld, after_waitpid, wait_child, process_ended,
  update_status, handle_sigchld,
}

module _ (os : Os) (buffer_size : ℕ) where
  -- The state in which a blocking object takes its process for ended with exit code 0.
  pub record TakenForEnded (t : Pexec) : Type 0 where
    pub killed : t.proc_killed ≡ true
    pub not_running : t.proc.running ≡ false
    pub has_exited : t.proc.exited ≡ true
    pub code_zero : t.proc.return_code ≡ 0

  if_not {ℓ} : {A : Type ℓ} (b : Bool) (x y : A) → b ≡ false → (if not b then x else y) ≡ x
  if_not false x y e = refl
  if_not true x y e = cc

  process_ended_blocking :
      (m : WaitMacros) (fuel : ℕ) (kind : ExecType) (t : Pexec)
      → kind ≡ blocking
      → process_ended os m buffer_size fuel kind t ≡ done t
  unfolding process_ended
  process_ended_blocking m fuel blocking t e = refl
  process_ended_blocking m fuel nonblocking t e = cc

  -- What the blocking object becomes.
  abbrev after_zero : WaitMacros → Pexec → Pexec
  after_zero m s =
      let p = Proc.update_status m s.proc 0 in
      record s {
        status = 0;
        proc = record p { stdin_fd = none };
        proc_killed = true;
        log = on_state Proc.State.signaled p ∷ s.log;
      }

  update_status_zero :
      (m : WaitMacros) (fuel : ℕ) (s : Pexec)
      → IsWait m
      → s.type ≡ blocking
      → (update_status os m buffer_size fuel 0 s ≡ done (after_zero m s))
        × TakenForEnded (after_zero m s)
  unfolding update_status call_state
  update_status_zero m fuel s w b =
      let (r, x, z) = update_status-zero m s.proc w in
      let t = after_zero m s in
      (
        if_not (Proc.update_status m s.proc 0).running _ _ r
            ∙ process_ended_blocking m fuel s.type (handle_proc_return_code t) b
            ∙ ap done (handle_other t (inl (omega (arith, z)))),
        record { killed = refl; not_running = r; has_exited = x; code_zero = z },
      )

  unblock-same :
      (s : Pexec)
      → ((unblock_sigchld os s).status ≡ s.status) × ((unblock_sigchld os s).type ≡ s.type)
  unfolding unblock_sigchld process_error
  unblock-same s = ground arith

  -- The state after the failed `waitpid`.
  no_news : Pexec → Pexec
  no_news t = process_error waitpid_error (record t { status = 0; log = waited not_ready ∷ t.log })

  no_news-same :
      (s : Pexec)
      → ((no_news (block_sigchld os s)).status ≡ 0) × ((no_news (block_sigchld os s)).type ≡ s.type)
  unfolding no_news process_error block_sigchld
  no_news-same s = ground arith

  wait_child_not_ready :
      (fuel : ℕ) (t : Pexec)
      → os.waitpid t.log t.proc_pid ≡ not_ready
      → wait_child os (suc fuel) t ≡ done (no_news t)
  unfolding wait_child after_waitpid no_news
  wait_child_not_ready fuel t h = rw (h, wait_child) refl

  -- A SIGCHLD for which `waitpid` has no news of the process, such as one that another child of the
  -- program caused, makes a blocking object take its process for ended with exit code 0.
  pub handle_sigchld_not_ready :
      (m : WaitMacros) (fuel : ℕ) (s : Pexec)
      → IsWait m
      → s.type ≡ blocking
      → os.waitpid (block_sigchld os s).log (block_sigchld os s).proc_pid ≡ not_ready
      → (t : Pexec) × (handle_sigchld os m buffer_size (suc fuel) s ≡ done t) × TakenForEnded t
  unfolding handle_sigchld
  handle_sigchld_not_ready m fuel s w b h =
      let s1 = no_news (block_sigchld os s) in
      let s2 = unblock_sigchld os s1 in
      let kind : s2.type ≡ blocking = (unblock-same s1).1 ∙ (no_news-same s).1 ∙ b in
      let (e, p) = update_status_zero m (suc fuel) s2 w kind in
      let k : Pexec → Run Pexec = λ s1.
        update_status os m buffer_size (suc fuel) (unblock_sigchld os s1).status
          (unblock_sigchld os s1) in
      (
        after_zero m s2,
        ap (λ r. r >>= k) (wait_child_not_ready fuel (block_sigchld os s) h)
            ∙ ap (λ n. update_status os m buffer_size (suc fuel) n s2)
                ((unblock-same s1).0 ∙ (no_news-same s).0)
            ∙ e,
        p,
      )
