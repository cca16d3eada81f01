-- ===== src/Util/Close.antt =====
-- `close_pipe` and `arg2argc` of util.cpp.
use pexec.Base.{ℕ, ◌+◌, Option, none, some, List, [], ◌∷◌, ◌≡◌, refl, arith, length}
use pexec.System.{Log, Pipe}
use pexec.System.Ledger.{opens, closes, holds}
use pexec.Util.{close_pipe, arg2argc}

abbrev pub no_pipe : Pipe
no_pipe = record { read_end = none; write_end = none }

abbrev Closes : ℕ → Log → Pipe → Type 0
Closes n log p =
    (closes n (close_pipe log p).1 ≡ holds n p + closes n log)
    × (opens n (close_pipe log p).1 ≡ opens n log)
    × ((close_pipe log p).0 ≡ no_pipe)
    × (close_pipe (close_pipe log p).1 (close_pipe log p).0 ≡ close_pipe log p)

-- `close_pipe` closes each descriptor exactly as often as the pipe's two variables hold it, opens
-- none, and leaves both variables at -1, so that closing again does nothing.
pub close_pipe_lem :
    (n : ℕ) (log : Log) (p : Pipe)
    → (closes n (close_pipe log p).1 ≡ holds n p + closes n log)
      × (opens n (close_pipe log p).1 ≡ opens n log)
      × ((close_pipe log p).0 ≡ no_pipe)
      × (close_pipe (close_pipe log p).1 (close_pipe log p).0 ≡ close_pipe log p)
unfolding close_pipe
close_pipe_lem n log p = both n log p.read_end p.write_end
  where
    both :
        (n : ℕ) (log : Log) (r w : Option ℕ) → Closes n log (record { read_end = r; write_end = w })
    both n log none none = (omega arith, refl, refl, refl)
    both n log (some r) none = (omega arith, refl, refl, refl)
    both n log none (some w) = (omega arith, refl, refl, refl)
    both n log (some r) (some w) = (omega arith, refl, refl, refl)

-- The argument vector has one place more than the arguments, so a command with an argument always
-- passes the test `args_c_.size() < 2`.
pub length-arg2argc : (args : List (List ℕ)) → length (arg2argc args) ≡ length args + 1
unfolding arg2argc
length-arg2argc [] = refl
length-arg2argc (arg ∷ args) = omega (arith, length-arg2argc args)
