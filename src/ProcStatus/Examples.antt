-- ===== src/ProcStatus/Examples.antt =====
-- Instances of the theorems on a Linux wait status: 256 * code for an exit, 19 * 256 + 127 for a
-- stop by signal 19.
use pexec.Base.{[], ◌∷◌, ◌≡◌, refl, arith}
use pexec.ProcStatus.{new, update_status}
use pexec.ProcStatus.Wait.{linux, linux-IsWait}
use pexec.ProcStatus.Update.{update_all, exit_code, alive, update_all_lem, stop_signal_lost}

update_all_lem_example :
    ((update_all linux new (4991 ∷ 768 ∷ [])).return_code ≡ exit_code linux 0 (4991 ∷ 768 ∷ []))
    × ((update_all linux new (4991 ∷ 768 ∷ [])).running ≡ alive linux new.running (4991 ∷ 768 ∷ []))
    × ((update_all linux new (4991 ∷ 768 ∷ [])).pid ≡ 0)
    × ((update_all linux new (4991 ∷ 768 ∷ [])).stdin_fd ≡ new.stdin_fd)
    × ((update_all linux new (4991 ∷ 768 ∷ [])).user_stop_fd ≡ new.user_stop_fd)
update_all_lem_example = update_all_lem linux new (4991 ∷ 768 ∷ [])

stop_signal_lost_example :
    record (update_status linux new 4991) { wstatus = 0 }
    ≡ record (update_status linux new 5503) { wstatus = 0 }
stop_signal_lost_example =
    stop_signal_lost linux new 4991 5503 linux-IsWait refl refl (omega arith) (omega arith)

killed : (update_status linux new 137).signaled_signal ≡ 9
unfolding update_status
killed = refl
