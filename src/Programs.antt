-- ===== src/Programs.antt =====
-- src/example: the programs that use the library. What they print on the way stands for the events
-- of the log that it tells of; the text of a result is written out.
pub mod Libevent
pub mod Print
pub mod Entries
mod Examples
use pexec.Base.{
  ℕ, suc, Bytes, Bool, true, not, none, List, [], ◌∷◌, ◌++◌, ◌==◌, codes, is_empty, length,
  if◌then◌else◌,
}
use pexec.Error.{error2string, print_perror}
use pexec.ExecHelper as Helper
use pexec.ExecHelper.{PexecStatus, valid}
use pexec.PexecMulti.Handle.{PexecHandle, set_stdout_cb, set_stderr_cb, set_state_cb, set_error_cb}
use pexec.PexecMulti.Jobs.{exec_status, exec_proc, stop_all}
use pexec.PexecMulti.Serve.{construct, run, destruct}
use pexec.PexecMulti.State.{Multi, Table, default, stop_wait}
use pexec.PexecSingle.Loop.{Setting}
use pexec.ProcStatus.{state2str}
use pexec.ProcStatus.Print.{print_fd, print_proc_status}
use pexec.Run.{Run, done, ◌>>=◌}
use pexec.System.{Event, Log, on_error, on_state, on_stdout, on_stderr}

-- The loop of `operator<<` for a vector of `size` elements, from the element `i` on.
module _ {A : Type 0} (show : A → Bytes) where
  unfoldable pub print_from : ℕ → ℕ → List A → Bytes
  print_from size i [] = []
  print_from size i (x ∷ xs) =
      show x ++ (if suc i == size then [] else codes " ") ++ print_from size (suc i) xs

  -- `operator<<`
  unfoldable pub print_vec : List A → Bytes
  unfolding print_from
  print_vec xs = print_from (length xs) 0 xs

-- Printing a number, `strerror` and `strsignal` are the C library's.
module _ (print_int strerror strsignal : ℕ → Bytes) where
  abbrev error_line : PexecStatus → Bytes
  error_line ret =
      codes "error: " ++ print_vec (print_perror print_int strerror) ret.err ++ codes "\n"

  -- single.cpp, behind the call of `exec`.
  unfoldable pub single_report : PexecStatus → Bytes
  unfolding print_vec
  single_report ret =
      (if not (valid ret) then error_line ret else [])
      ++ codes "stdout(size="
      ++ print_int (length ret.proc_out)
      ++ codes "): \n"
      ++ ret.proc_out
      ++ codes "\n"
      ++ codes "stderr(size="
      ++ print_int (length ret.proc_err)
      ++ codes "): \n"
      ++ ret.proc_err
      ++ codes "\n"

  -- `main` of single.cpp: what it prints.
  unfoldable pub single : Setting → Run Bytes
  unfolding single_report
  single c = do ret ← Helper.exec c (codes "ls -la"); done (single_report ret)

  -- A part that is printed if the output is not empty.
  abbrev output_part : Bytes → Bytes → Bytes
  output_part name out =
      if is_empty out
      then []
      else name ++ codes "(size=" ++ print_int (length out) ++ codes "): \n" ++ out ++ codes "\n"

  -- multi_test.cpp: the callback of `exec`. The last test names `proc_err` twice.
  unfoldable pub test_report : PexecStatus → Bytes
  unfolding print_vec
  test_report ret =
      print_proc_status print_int strsignal ret.proc
      ++ codes "args: "
      ++ ret.args
      ++ codes "\n"
      ++ codes "state: "
      ++ state2str ret.state
      ++ codes "\n"
      ++ (if not (valid ret) then error_line ret else [])
      ++ output_part (codes "stdout") ret.proc_out
      ++ output_part (codes "stderr") ret.proc_err
      ++ (if is_empty ret.proc_err then codes "\n" else [])

  -- What the four callbacks of a process print; `with_pid` is for multi_libevent2.cpp.
  unfoldable pub detail_text : Bool → Event → Bytes
  detail_text with_pid (on_error e) = codes "process error: " ++ error2string e ++ codes "\n"
  detail_text with_pid (on_stdout bytes) =
      codes "process stdout(" ++ print_int (length bytes) ++ codes ")" ++ bytes ++ codes "\n"
  detail_text with_pid (on_stderr bytes) =
      codes "process stderr(" ++ print_int (length bytes) ++ codes ")" ++ bytes ++ codes "\n"
  detail_text with_pid (on_state st p) =
      codes "process "
      ++ state2str st
      ++ codes "\n"
      ++ (if with_pid then codes "pid " ++ print_int p.pid ++ codes "\n" else [])
      ++ codes "stdin_fd: "
      ++ print_fd print_int strsignal p.stdin_fd
      ++ codes "\n"
  detail_text with_pid e = []

  -- All that they print, for a log.
  unfoldable pub detail_out : Bool → Log → Bytes
  unfolding detail_text
  detail_out with_pid [] = []
  detail_out with_pid (e ∷ log) = detail_out with_pid log ++ detail_text with_pid e

-- multi.cpp: the callback of `exec`.
unfoldable pub status_text : PexecStatus → Bytes
status_text status = status.proc_out ++ codes "\n"

-- The function that the programs give to `exec`: it sets the four callbacks of a handle.
unfoldable pub detailed : PexecHandle → PexecHandle
detailed h = set_state_cb true (set_stderr_cb true (set_stdout_cb true (set_error_cb true h)))

module _ (c : Setting) (place : Table → ℕ → ℕ) where
  -- `main` of multi_detail.cpp.
  unfoldable pub multi_detail : Log → Run Multi
  unfolding detailed
  multi_detail log = do
    procs ← construct c default log
    m1 ← exec_proc (codes "ls -la") detailed procs
    m2 ← stop_all stop_wait none m1
    m3 ← run c place m2
    done (destruct c place m3)

  -- `main` of multi.cpp.
  unfoldable pub multi : Log → Run Multi
  unfolding detailed
  multi log = do
    procs ← construct c default log
    m1 ← exec_status (codes "w") true procs
    m2 ← exec_status (codes "whoami") true m1
    m3 ← exec_status (codes "uname") true m2
    m4 ← stop_all stop_wait none m3
    m5 ← run c place m4
    m6 ← exec_proc (codes "dasdasd") detailed m5
    m7 ← stop_all stop_wait none m6
    m8 ← run c place m7
    done (destruct c place m8)

  -- multi_test.cpp: the block of `main`.
  unfoldable pub multi_test : Log → Run Multi
  multi_test log = do
    procs ← construct c default log
    m1 ← exec_status (codes "ls -la") true procs
    m2 ← stop_all stop_wait none m1
    m3 ← run c place m2
    done (destruct c place m3)
