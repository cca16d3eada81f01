-- ===== src/Util.antt =====
-- src/pexec/util.cpp: closing descriptors, and the argument vector of `execvp`. A function takes the
-- log of system calls and returns the longer one.
pub mod Close
pub mod Apple
mod Examples
use pexec.Base.{ℕ, zero, suc, Bytes, Option, none, some, List, [], ◌∷◌}
use pexec.System.{Log, Pipe, closed}

-- `close_fd`
unfoldable pub close_fd : Log → Option ℕ → Option ℕ × Log
close_fd log none = (none, log)
close_fd log (some fd) = (none, closed fd ∷ log)

-- `close_pipe`
unfoldable pub close_pipe : Log → Pipe → Pipe × Log
unfolding close_fd
close_pipe log pipe =
    let (r, log1) = close_fd log pipe.read_end in
    let (w, log2) = close_fd log1 pipe.write_end in (record { read_end = r; write_end = w }, log2)

-- The value of a C string: the bytes before the first NUL.
unfoldable pub c_str : Bytes → Bytes
c_str [] = []
c_str (suc c ∷ s) = suc c ∷ c_str s
c_str (zero ∷ s) = []

-- `arg2argc`; a `char*` is `none` for the null pointer, else the C string that it points to.
unfoldable pub arg2argc : List Bytes → List (Option Bytes)
unfolding c_str
arg2argc [] = none ∷ []
arg2argc (arg ∷ args) = some (c_str arg) ∷ arg2argc args
