-- ===== src/ProcStatus/Print.antt =====
-- `operator<<` of a process's record. How numbers are printed, and the names of signals, are the C++
-- and C libraries'.
use pexec.Base.{
  ℕ, Bytes, Bool, true, false, Option, none, some, [], ◌++◌, codes, ◌==◌, if◌then◌else◌, ◌≡◌, refl,
}
use pexec.ProcStatus.{ProcStatus, new}

-- `1` or `0`, as for a stream without `boolalpha`.
number_of : Bool → ℕ
number_of true = 1
number_of false = 0

module _ (print_int : ℕ → Bytes) (strsignal : ℕ → Bytes) where
  -- `"name: " << value << "\n"`
  line : Bytes → Bytes → Bytes
  line name value = name ++ codes ": " ++ value ++ codes "\n"

  pub print_fd : Option ℕ → Bytes
  print_fd none = codes "-1"
  print_fd (some fd) = print_int fd

  print_bool : Bool → Bytes
  unfolding number_of
  print_bool b = print_int (number_of b)

  -- A number of a signal, with its name.
  with_name : ℕ → Bytes
  with_name n = print_int n ++ codes " (" ++ strsignal n ++ codes ")"

  pub print_proc_status : ProcStatus → Bytes
  unfolding line print_fd print_bool with_name
  print_proc_status p =
      line (codes "pid") (print_int p.pid)
      ++ line (codes "running") (print_bool p.running)
      ++ line (codes "status") (print_int p.wstatus)
      ++ (if p.running then line (codes "stdin_fd") (print_fd p.stdin_fd) else [])
      ++ (if p.exited
          then line (codes "exited") (print_bool p.exited)
            ++ line (codes "return_code") (print_int p.return_code)
          else [])
      ++ (if p.signaled
          then line (codes "signaled") (print_bool p.signaled)
            ++ line (codes "signaled_signal") (with_name p.signaled_signal)
            ++ line (codes "generated_core_dump") (print_bool p.generated_core_dump)
          else [])
      ++ (if p.stopped
          then line (codes "stopped") (print_bool p.stopped)
            ++ line (codes "stopped_signal") (with_name (number_of p.stopped_signal))
          else [])
      ++ (if p.continued then line (codes "continued") (print_bool p.continued) else [])

abbrev if_one : ℕ → Bytes
if_one n = if n == 1 then codes "Hangup" else codes "other"

-- A child stopped by any signal is printed as stopped by signal 1.
printed :
    print_proc_status (λ n. codes "#") if_one (record new { stopped = true; stopped_signal = true })
    ≡ codes "pid: #\nrunning: #\nstatus: #\nstopped: #\nstopped_signal: # (Hangup)\n"
unfolding print_proc_status
printed = refl
