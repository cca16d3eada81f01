-- ===== src/Error.antt =====
-- src/pexec/error.h and error.cpp: the error codes, their names, and an error with its `errno`.
pub mod Names
mod Examples
use pexec.Base.{ℕ, Bytes, ◌∷◌, ◌++◌, codes}

-- `enum class error`
pub data Error : Type 0 where
  no_error sigaction_set_error sigaction_reset_error : Error
  stdin_pipe_error stderr_pipe_error stdout_pipe_error fork_error : Error
  arg_parse_error arg_parse_c_error signal_pipe_error watch_pipe_error : Error
  sig_block_error sig_unblock_error select_error : Error
  stdout_pipe_read_error stderr_pipe_read_error : Error
  stdout_pipe_read_rest_error stderr_pipe_read_rest_error : Error
  signal_pipe_read_error watch_pipe_read_error waitpid_error : Error
  fork_exec_error : Error
  fork_stdin_nonblock_error fork_stdout_nonblock_error fork_stderr_nonblock_error : Error
  fork_dup2_stdin_error fork_dup2_stdout_error fork_dup2_stderr_error : Error
  exec_allocation_error : Error

pub Error-discrete : Discrete Error
Error-discrete = hlevel

unfoldable pub error2string : Error → Bytes
error2string no_error = codes "NO_ERROR"
error2string sigaction_set_error = codes "SIGACTION_SET_ERROR"
error2string sigaction_reset_error = codes "SIGACTION_RESET_ERROR"
error2string stdin_pipe_error = codes "STDIN_PIPE_ERROR"
error2string stderr_pipe_error = codes "STDERR_PIPE_ERROR"
error2string stdout_pipe_error = codes "STDOUT_PIPE_ERROR"
error2string fork_error = codes "FORK_ERROR"
error2string arg_parse_error = codes "ARG_PARSE_ERROR"
error2string arg_parse_c_error = codes "ARG_PARSE_C_ERROR"
error2string signal_pipe_error = codes "SIGNAL_PIPE_ERROR"
error2string watch_pipe_error = codes "WATCH_PIPE_ERROR"
error2string sig_block_error = codes "SIG_BLOCK_ERROR"
error2string sig_unblock_error = codes "SIG_UNBLOCK_ERROR"
error2string select_error = codes "SELECT_ERROR"
error2string stdout_pipe_read_error = codes "STDOUT_PIPE_READ_ERROR"
error2string stderr_pipe_read_error = codes "STDERR_PIPE_READ_ERROR"
error2string stdout_pipe_read_rest_error = codes "STDOUT_PIPE_READ_REST_ERROR"
error2string stderr_pipe_read_rest_error = codes "STDERR_PIPE_READ_REST_ERROR"
error2string signal_pipe_read_error = codes "SIGNAL_PIPE_READ_ERROR"
error2string watch_pipe_read_error = codes "WATCH_PIPE_READ_ERROR"
error2string waitpid_error = codes "WAITPID_ERROR"
error2string fork_exec_error = codes "FORK_EXEC_ERROR"
error2string fork_stdin_nonblock_error = codes "FORK_STDIN_NONBLOCK_ERROR"
error2string fork_stdout_nonblock_error = codes "FORK_STDOUT_NONBLOCK_ERROR"
error2string fork_stderr_nonblock_error = codes "FORK_STDERR_NONBLOCK_ERROR"
error2string fork_dup2_stdin_error = codes "FORK_DUP2_STDIN_ERROR"
error2string fork_dup2_stdout_error = codes "FORK_DUP2_STDOUT_ERROR"
error2string fork_dup2_stderr_error = codes "FORK_DUP2_STDERR_ERROR"
error2string exec_allocation_error = codes "EXEC_ALLOCATION_ERROR"

-- `struct perror`
pub record Perror : Type 0 where
  pub pexec_error : Error
  pub error_code : ℕ

-- `operator<<`; printing a number and `strerror` are the C library's.
module _ (print_int : ℕ → Bytes) (strerror : ℕ → Bytes) where
  unfoldable pub print_perror : Perror → Bytes
  print_perror err =
      error2string err.pexec_error
      ++ codes ", ("
      ++ print_int err.error_code
      ++ codes ") "
      ++ strerror err.error_code
