-- ===== src/ProcStatus/Wait.antt =====
-- The macros of <sys/wait.h> that read a wait status. They are not the repository's: a parameter.
use pexec.Base.{ℕ, ◌/◌, ◌%◌, ◌≤◌, Bool, true, false, ◌&&◌, ◌||◌, not, ◌==◌, ◌≡◌, arith}

pub record WaitMacros : Type 0 where
  pub wifexited : ℕ → Bool
  pub wexitstatus : ℕ → ℕ
  pub wifsignaled : ℕ → Bool
  pub wtermsig : ℕ → ℕ
  pub wcoredump : ℕ → Bool
  pub wifstopped : ℕ → Bool
  pub wstopsig : ℕ → ℕ
  pub wifcontinued : ℕ → Bool

-- What wait(2) documents: a status tells of one kind of change, 0 is a normal exit with code 0, and
-- an exit code has 8 bits.
pub record IsWait (m : WaitMacros) : Type 0 where
  pub exited_only :
      (s : ℕ)
      → m.wifexited s ≡ true
      → (m.wifsignaled s || m.wifstopped s || m.wifcontinued s) ≡ false
  pub signaled_only :
      (s : ℕ) → m.wifsignaled s ≡ true → (m.wifstopped s || m.wifcontinued s) ≡ false
  pub stopped_only : (s : ℕ) → m.wifstopped s ≡ true → m.wifcontinued s ≡ false
  pub exit_code : (s : ℕ) → m.wexitstatus s ≤ 255
  pub zero_exited : m.wifexited 0 ≡ true
  pub zero_code : m.wexitstatus 0 ≡ 0

-- The encoding of Linux, for examples.
abbrev pub linux : WaitMacros
linux = record {
  wifexited = λ s. s % 128 == 0;
  wexitstatus = λ s. s / 256 % 256;
  wifsignaled = λ s. not (s % 128 == 0) && not (s % 128 == 127);
  wtermsig = λ s. s % 128;
  wcoredump = λ s. not (s / 128 % 2 == 0);
  wifstopped = λ s. s % 256 == 127;
  wstopsig = λ s. s / 256 % 256;
  wifcontinued = λ s. s == 65535;
}

pub linux-IsWait : IsWait linux
linux-IsWait = record {
  exited_only = λ s h. ground arith;
  signaled_only = λ s h. ground arith;
  stopped_only = λ s h. ground arith;
  exit_code = λ s. omega arith;
  zero_exited = ground arith;
  zero_code = ground arith;
}
