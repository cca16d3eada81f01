-- ===== src/PexecSingle/Closing.antt =====
-- What an object holds, and `close_fork_pipes`.
use pexec.Base.{ℕ, ◌+◌, Option, none, some, ◌≡◌, refl, ◌∙◌, arith}
use pexec.System.{Log, Pipe}
use pexec.System.Ledger.{opens, closes, holds, finals}
use pexec.Util.{close_pipe}
use pexec.Util.Close.{no_pipe, close_pipe_lem}
use pexec.PexecSingle.State.{Pexec, ExecType, blocking, nonblocking}
use pexec.PexecSingle.Pipes.{close_signal_pipe, close_fork_pipes}

-- How often the five pipes hold `n`.
abbrev pub held : ℕ → Pexec → ℕ
held n s =
    holds n s.pipe_stdin
    + holds n s.pipe_stdout
    + holds n s.pipe_stderr
    + holds n s.pipe_signal
    + holds n s.pipe_close_watch

pub record IsClosed (s : Pexec) : Type 0 where
  pub closed_stdin : s.pipe_stdin ≡ no_pipe
  pub closed_stdout : s.pipe_stdout ≡ no_pipe
  pub closed_stderr : s.pipe_stderr ≡ no_pipe
  pub closed_signal : s.pipe_signal ≡ no_pipe
  pub closed_watch : s.pipe_close_watch ≡ no_pipe

pub finals-close_pipe : (log : Log) (p : Pipe) → finals (close_pipe log p).1 ≡ finals log
finals-close_pipe log p = both log p.read_end p.write_end
  where
    both :
        (log : Log) (r w : Option ℕ)
        → finals (close_pipe log (record { read_end = r; write_end = w })).1 ≡ finals log
    both log none none = unfold close_pipe in refl
    both log (some r) none = unfold close_pipe in refl
    both log none (some w) = unfold close_pipe in refl
    both log (some r) (some w) = unfold close_pipe in refl

-- What closing one pipe of the object does to the log.
record Closed (n : ℕ) (p : Pipe) (log log1 : Log) : Type 0 where
  more : closes n log1 ≡ holds n p + closes n log
  same : opens n log1 ≡ opens n log
  final : finals log1 ≡ finals log

close_pipe-Closed : (n : ℕ) (log : Log) (p : Pipe) → Closed n p log (close_pipe log p).1
close_pipe-Closed n log p =
    let (more, same, _, _) = close_pipe_lem n log p in
    record { more = more; same = same; final = finals-close_pipe log p }

close_signal_pipe-Closed :
    (t : ExecType) (n : ℕ) (log : Log) (p : Pipe)
    → (t ≡ nonblocking → p ≡ no_pipe)
    → Closed n p log (close_signal_pipe t log p).1 × ((close_signal_pipe t log p).0 ≡ no_pipe)
unfolding close_signal_pipe
close_signal_pipe-Closed blocking n log p h =
    (close_pipe-Closed n log p, (close_pipe_lem n log p).2)
close_signal_pipe-Closed nonblocking n log p h =
    (record { more = rw (h refl) (omega arith); same = refl; final = refl }, h refl)

-- Every descriptor that the object holds is closed, as often as it is held, and forgotten; nothing
-- is opened and nobody is told. The signal pipe must be the object's own or empty.
pub record Forgets (n : ℕ) (s t : Pexec) : Type 0 where
  pub all_closed : IsClosed t
  pub closes_held : closes n t.log ≡ closes n s.log + held n s
  pub opens_none : opens n t.log ≡ opens n s.log
  pub finals_same : finals t.log ≡ finals s.log
  pub same_type : t.type ≡ s.type

pub close_fork_pipes-Forgets :
    (n : ℕ) (s : Pexec)
    → (s.type ≡ nonblocking → s.pipe_signal ≡ no_pipe)
    → Forgets n s (close_fork_pipes s)
unfolding close_fork_pipes
close_fork_pipes-Forgets n s h =
    let log1 = (close_pipe s.log s.pipe_stdin).1 in
    let log2 = (close_pipe log1 s.pipe_stdout).1 in
    let log3 = (close_pipe log2 s.pipe_stderr).1 in
    let log4 = (close_signal_pipe s.type log3 s.pipe_signal).1 in
    let c1 = close_pipe-Closed n s.log s.pipe_stdin in
    let c2 = close_pipe-Closed n log1 s.pipe_stdout in
    let c3 = close_pipe-Closed n log2 s.pipe_stderr in
    let (c4, e4) = close_signal_pipe-Closed s.type n log3 s.pipe_signal h in
    let c5 = close_pipe-Closed n log4 s.pipe_close_watch in
    record {
      all_closed = record {
        closed_stdin = (close_pipe_lem n s.log s.pipe_stdin).2;
        closed_stdout = (close_pipe_lem n log1 s.pipe_stdout).2;
        closed_stderr = (close_pipe_lem n log2 s.pipe_stderr).2;
        closed_signal = e4;
        closed_watch = (close_pipe_lem n log4 s.pipe_close_watch).2;
      };
      closes_held = omega (arith, c1.more, c2.more, c3.more, c4.more, c5.more);
      opens_none = c5.same ∙ c4.same ∙ c3.same ∙ c2.same ∙ c1.same;
      finals_same = c5.final ∙ c4.final ∙ c3.final ∙ c2.final ∙ c1.final;
      same_type = refl;
    }
