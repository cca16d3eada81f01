-- ===== src/Util/Examples.antt =====
-- An instance of each theorem on pipes: the system hands out descriptors 3 and 4, and the second
-- end cannot be made non-blocking.
use pexec.Base.{ℕ, ◌⊎◌, ◌∷◌, ◌+◌, Bool, true, false, none, some, [], ◌==◌, not, ◌≡◌}
use pexec.System.{Log, Os, Pipe, got, not_ready, ready, open_failed}
use pexec.System.Ledger.{at, opens, closes, holds}
use pexec.Util.{close_pipe}
use pexec.Util.Close.{no_pipe, close_pipe_lem}
use pexec.Util.Apple.{pipe2, pipe2_lem}

abbrev stubborn : Os
stubborn = record {
  pipe2 = λ log. some (3, 4);
  read = λ log fd size. got [];
  get_flags = λ log fd. 2;
  set_flags = λ log fd flags. not (fd == 4);
  sigaction = λ log. true;
  sigprocmask = λ log. true;
  fork = λ log. none;
  waitpid = λ log pid. not_ready;
  select = λ log. ready (λ fd. false);
  errno = λ log. 0;
}

abbrev half : Pipe
half = record { read_end = some 3; write_end = none }

closes_both :
    (closes 3 (close_pipe [] half).1 ≡ holds 3 half + 0)
    × (opens 3 (close_pipe [] half).1 ≡ 0)
    × ((close_pipe [] half).0 ≡ no_pipe)
    × (close_pipe (close_pipe [] half).1 (close_pipe [] half).0 ≡ close_pipe [] half)
closes_both = close_pipe_lem 3 [] half

abbrev old : Pipe
old = record { read_end = some 5; write_end = some 6 }

abbrev answer : Pipe × Log × Bool
answer = pipe2 stubborn 4 8 [] old 12

pipe2_lem_example :
    ((stubborn.pipe2 [] ≡ none) × (answer ≡ (old, open_failed ∷ [], false)))
    ⊎ ((r : ℕ) × (w : ℕ) × (stubborn.pipe2 [] ≡ some (r, w))
        × (opens 3 answer.1 ≡ 0 + at 3 r + at 3 w)
        × (opens 3 answer.1 + 0 ≡ 0 + closes 3 answer.1 + holds 3 answer.0)
        × (answer.2 ≡ true → answer.0 ≡ record { read_end = some r; write_end = some w })
        × (answer.2 ≡ false → answer.0 ≡ no_pipe))
pipe2_lem_example = pipe2_lem stubborn 4 8 [] old 12 3
