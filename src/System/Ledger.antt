-- ===== src/System/Ledger.antt =====
-- Counting in a log how often a descriptor was opened and closed.
use pexec.Base.{ℕ, ◌+◌, ◌==◌, if◌then◌else◌, Option, none, some, [], ◌∷◌}
use pexec.ProcStatus.{State}
use pexec.System.{Log, Pipe, opened, closed, on_state}

-- 1 if the descriptor is `n`.
pub at : ℕ → ℕ → ℕ
at n fd = if n == fd then 1 else 0

abbrev pub at_fd : ℕ → Option ℕ → ℕ
at_fd n none = 0
at_fd n (some fd) = at n fd

abbrev pub opens : ℕ → Log → ℕ
opens n [] = 0
opens n (opened r w ∷ log) = at n r + at n w + opens n log
opens n (_ ∷ log) = opens n log

abbrev pub closes : ℕ → Log → ℕ
closes n [] = 0
closes n (closed fd ∷ log) = at n fd + closes n log
closes n (_ ∷ log) = closes n log

-- How often the two variables hold `n`.
abbrev pub holds : ℕ → Pipe → ℕ
holds n p = at_fd n p.read_end + at_fd n p.write_end

-- How often the user was told that a process is no longer watched.
abbrev pub is_final : State → ℕ
is_final State.started = 0
is_final State.signaled = 0
is_final State.stopped = 1
is_final State.user_stopped = 1
is_final State.fail_stopped = 1

abbrev pub finals : Log → ℕ
finals [] = 0
finals (on_state st p ∷ log) = is_final st + finals log
finals (_ ∷ log) = finals log
