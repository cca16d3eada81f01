-- ===== src/ProcStatus/Update.antt =====
-- `proc_status::update_status`.
use pexec.Base.{
  ℕ, Bool, true, false, not, ◌||◌, List, [], ◌∷◌, ◌≡◌, ◌≢◌, refl, arith, if◌then◌else◌,
}
use pexec.ProcStatus.{ProcStatus, update_status}
use pexec.ProcStatus.Wait.{WaitMacros, IsWait}

module _ (m : WaitMacros) where
  open m use {wifexited, wexitstatus, wifsignaled, wifstopped, wstopsig}

  -- The statuses of one process, in the order in which `waitpid` returned them.
  pub update_all : ProcStatus → List ℕ → ProcStatus
  update_all p [] = p
  update_all p (s ∷ ss) = update_all (update_status m p s) ss

  -- The code of the last exit that the statuses report, `code` if they report none.
  pub exit_code : ℕ → List ℕ → ℕ
  exit_code code [] = code
  exit_code code (s ∷ ss) = exit_code (if wifexited s then wexitstatus s else code) ss

  -- Whether the last status leaves the process alive.
  pub alive : Bool → List ℕ → Bool
  alive b [] = b
  alive b (s ∷ ss) = alive (not (wifsignaled s || wifexited s)) ss

  -- Whatever statuses arrive, the return code is that of the last exit, `running` is decided by the
  -- last status, and the pid and the descriptors stay.
  pub update_all_lem :
      (p : ProcStatus) (ss : List ℕ)
      → ((update_all p ss).return_code ≡ exit_code p.return_code ss)
        × ((update_all p ss).running ≡ alive p.running ss)
        × ((update_all p ss).pid ≡ p.pid)
        × ((update_all p ss).stdin_fd ≡ p.stdin_fd)
        × ((update_all p ss).user_stop_fd ≡ p.user_stop_fd)
  unfolding update_all exit_code alive update_status
  update_all_lem p [] = (refl, refl, refl, refl, refl)
  update_all_lem p (s ∷ ss) = ground (arith, update_all_lem (update_status m p s) ss)

  pub update_status-running :
      (p : ProcStatus) (s : ℕ) → (update_status m p s).running ≡ not (wifsignaled s || wifexited s)
  unfolding update_status
  update_status-running p s = ground arith

  -- A stop by any signal is recorded alike: for two statuses that report a stop by a signal other
  -- than 0, the records differ at most in the raw status.
  pub stop_signal_lost :
      (p : ProcStatus) (s t : ℕ)
      → IsWait m
      → wifstopped s ≡ true
      → wifstopped t ≡ true
      → wstopsig s ≢ 0
      → wstopsig t ≢ 0
      → record (update_status m p s) { wstatus = 0 } ≡ record (update_status m p t) { wstatus = 0 }
  unfolding update_status
  stop_signal_lost p s t w hs ht ns nt = ground (
    arith,
    w.exited_only s,
    w.exited_only t,
    w.signaled_only s,
    w.signaled_only t,
    w.stopped_only s,
    w.stopped_only t,
  )

  -- The status 0, which is that of a process that exited with code 0.
  pub update_status-zero :
      (p : ProcStatus)
      → IsWait m
      → ((update_status m p 0).running ≡ false)
        × ((update_status m p 0).exited ≡ true)
        × ((update_status m p 0).return_code ≡ 0)
  unfolding update_status
  update_status-zero p w = ground (arith, w.zero_exited, w.zero_code, w.exited_only 0)
