-- ===== src/Error/Names.antt =====
-- The names of the error codes, read back.
use pexec.Base.{same_bytes, Bytes, List, [], ◌∷◌, if◌then◌else◌, ◌≡◌, refl, Option, none, some}
use pexec.Error.{
  Error, no_error, sigaction_set_error, sigaction_reset_error, stdin_pipe_error, stderr_pipe_error,
  stdout_pipe_error, fork_error, arg_parse_error, arg_parse_c_error, signal_pipe_error,
  watch_pipe_error, sig_block_error, sig_unblock_error, select_error, stdout_pipe_read_error,
  stderr_pipe_read_error, stdout_pipe_read_rest_error, stderr_pipe_read_rest_error,
  signal_pipe_read_error, watch_pipe_read_error, waitpid_error, fork_exec_error,
  fork_stdin_nonblock_error, fork_stdout_nonblock_error, fork_stderr_nonblock_error,
  fork_dup2_stdin_error, fork_dup2_stdout_error, fork_dup2_stderr_error, exec_allocation_error,
  error2string,
}

abbrev all_errors : List Error
all_errors =
    no_error ∷ sigaction_set_error ∷ sigaction_reset_error ∷ stdin_pipe_error ∷ stderr_pipe_error
    ∷ stdout_pipe_error ∷ fork_error ∷ arg_parse_error ∷ arg_parse_c_error ∷ signal_pipe_error
    ∷ watch_pipe_error ∷ sig_block_error ∷ sig_unblock_error ∷ select_error ∷ stdout_pipe_read_error
    ∷ stderr_pipe_read_error ∷ stdout_pipe_read_rest_error ∷ stderr_pipe_read_rest_error
    ∷ signal_pipe_read_error ∷ watch_pipe_read_error ∷ waitpid_error ∷ fork_exec_error
    ∷ fork_stdin_nonblock_error ∷ fork_stdout_nonblock_error ∷ fork_stderr_nonblock_error
    ∷ fork_dup2_stdin_error ∷ fork_dup2_stdout_error ∷ fork_dup2_stderr_error
    ∷ exec_allocation_error ∷ []

find_name : Bytes → List Error → Option Error
find_name name [] = none
find_name name (e ∷ es) = if same_bytes (error2string e) name then some e else find_name name es

read_name : Bytes → Option Error
unfolding find_name same_bytes
read_name name = find_name name all_errors

read_name-error2string : (e : Error) → read_name (error2string e) ≡ some e
unfolding read_name error2string
read_name-error2string no_error = refl
read_name-error2string _ = refl

-- Two codes with the same name are the same code: no name is used twice.
pub error2string-injective : (e f : Error) → error2string e ≡ error2string f → e ≡ f
error2string-injective e f h = cc (read_name-error2string e, read_name-error2string f)
