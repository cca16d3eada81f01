-- ===== src/PexecSingle/HandlerLeft.antt =====
-- The SIGCHLD handler when `fork` fails.
use pexec.Base.{
  ℕ, suc, Bytes, Bool, true, false, Option, none, some, [], ◌∷◌, ◌≡◌, refl, ap, ◌∙◌, arith,
  Option-cases, Bool-cases, inl, inr,
}
use pexec.Run.{done}
use pexec.Error.{Error, fork_error}
use pexec.System.{Log, Os, Pipe, opened, forked, on_error, handler_installed, handler_restored}
use pexec.Util.{close_pipe}
use pexec.PexecSingle.State.{
  Pexec, ExecType, blocking, nonblocking, new_pexec, emit, process_error, call_state, ◌>>?◌,
}
use pexec.PexecSingle.Pipes.{
  put_stdin, put_stdout, put_stderr, put_signal, put_close_watch, prepare_args, prepare_fork_pipes,
  make_pipe, make_signal_pipe, give_up, fail_stopped, close_fork_pipes, close_signal_pipe,
}
use pexec.PexecSingle.Signals.{set_sigchld_signal_handler}
use pexec.PexecSingle.Loop.{Setting}
use pexec.PexecSingle.Exec.{set_handler, spawn_proc, prepare, start, exec}
use pexec.PexecSingle.Failure.{begun}

-- How often the handler was put in place, and how often the previous one was put back.
abbrev pub installs : Log → ℕ
installs [] = 0
installs (handler_installed true ∷ log) = suc (installs log)
installs (_ ∷ log) = installs log

abbrev pub restores : Log → ℕ
restores [] = 0
restores (handler_restored ok ∷ log) = suc (restores log)
restores (_ ∷ log) = restores log

close_pipe-counts :
    (log : Log) (p : Pipe)
    → (installs (close_pipe log p).1 ≡ installs log)
      × (restores (close_pipe log p).1 ≡ restores log)
unfolding close_pipe
close_pipe-counts log p = go p.read_end p.write_end
  where
    go :
        (r w : Option ℕ)
        → (installs (close_pipe log (record { read_end = r; write_end = w })).1 ≡ installs log)
          × (restores (close_pipe log (record { read_end = r; write_end = w })).1 ≡ restores log)
    go none none = unfold close_pipe in (refl, refl)
    go none (some w) = unfold close_pipe in (refl, refl)
    go (some r) none = unfold close_pipe in (refl, refl)
    go (some r) (some w) = unfold close_pipe in (refl, refl)

abbrev SameLog : Log → Log → Type 0
SameLog log log1 = (installs log1 ≡ installs log) × (restores log1 ≡ restores log)

signal_pipe-SameLog :
    (kind : ExecType) (log : Log) (p : Pipe) → SameLog log (close_signal_pipe kind log p).1
unfolding close_signal_pipe
signal_pipe-SameLog blocking log p = close_pipe-counts log p
signal_pipe-SameLog nonblocking log p = (refl, refl)

give_up-SameLog : (err : Error) (s : Pexec) → SameLog s.log (give_up err s).0.log
unfolding give_up fail_stopped close_fork_pipes process_error call_state
give_up-SameLog err s =
    let log0 : Log = on_error err ∷ s.log in
    let log1 = (close_pipe log0 s.pipe_stdin).1 in
    let log2 = (close_pipe log1 s.pipe_stdout).1 in
    let log3 = (close_pipe log2 s.pipe_stderr).1 in
    let log4 = (close_signal_pipe s.type log3 s.pipe_signal).1 in
    let c1 = close_pipe-counts log0 s.pipe_stdin in
    let c2 = close_pipe-counts log1 s.pipe_stdout in
    let c3 = close_pipe-counts log2 s.pipe_stderr in
    let c4 = signal_pipe-SameLog s.type log3 s.pipe_signal in
    let c5 = close_pipe-counts log4 s.pipe_close_watch in
    (c5.0 ∙ c4.0 ∙ c3.0 ∙ c2.0 ∙ c1.0, c5.1 ∙ c4.1 ∙ c3.1 ∙ c2.1 ∙ c1.1)

-- A step that went well has left the handler and the type alone.
abbrev Goes : Pexec → Pexec × Bool → Type 0
Goes s r = r.1 ≡ true → SameLog s.log r.0.log × (r.0.type ≡ s.type)

Goes-then :
    (s : Pexec) (r : Pexec × Bool) (f : Pexec → Pexec × Bool)
    → Goes s r
    → ((t : Pexec) → Goes t (f t))
    → Goes s (r >>? f)
Goes-then s (t, false) f h k e = cc
Goes-then s (t, true) f h k e =
    let ((a, b), c) = h refl in let ((a1, b1), c1) = k t e in ((a1 ∙ a, b1 ∙ b), c1 ∙ c)

module _ (os : Os) where
  -- `put` fills a member, and leaves the log and the type alone.
  make_pipe-Goes :
      (err : Error) (put : Pipe → Pexec → Pexec)
      → ((p : Pipe) (t : Pexec) → ((put p t).log ≡ t.log) × ((put p t).type ≡ t.type))
      → (s : Pexec) → Goes s (make_pipe os err put s)
  unfolding make_pipe give_up
  make_pipe-Goes err put h s = elim (Option-cases (os.pipe2 s.log)) [
    | inl e ↦ rw (e, make_pipe) λ q. cc
    | inr ((r, w), e) ↦
        rw (e, make_pipe)
          λ _.
            let t = emit (opened r w) s in
            let (a, b) = h (record { read_end = some r; write_end = some w }) t in
            ((ap installs a, ap restores a), b)
  ]

  signal-Goes : (kind : ExecType) (s : Pexec) → Goes s (make_signal_pipe os kind s)
  unfolding make_signal_pipe
  signal-Goes blocking s = make_pipe-Goes _ put_signal (λ p t. (refl, refl)) s
  signal-Goes nonblocking s = λ _. ((refl, refl), refl)

  pipes-Goes : (s : Pexec) → Goes s (prepare_fork_pipes os s)
  unfolding prepare_fork_pipes
  pipes-Goes s =
      Goes-then s _ _
        (Goes-then s _ _
          (Goes-then s _ _
            (Goes-then s _ _ (make_pipe-Goes _ put_stdin (λ p t. (refl, refl)) s)
              (make_pipe-Goes _ put_stdout (λ p t. (refl, refl))))
            (make_pipe-Goes _ put_stderr (λ p t. (refl, refl))))
          (λ t. signal-Goes t.type t))
        (make_pipe-Goes _ put_close_watch (λ p t. (refl, refl)))

args-Goes : (s : Pexec) → Goes s (prepare_args s)
unfolding prepare_args give_up
args-Goes s = ground arith

-- `exec` up to the fork, without it.
abbrev pub set_up : Os → Pexec → Pexec × Bool
set_up os s = prepare_args s >>? prepare_fork_pipes os >>? (λ s. set_handler os s.type s)

module _ (os : Os) where
  handler_set :
      (kind : ExecType) (t : Pexec)
      → kind ≡ blocking
      → (set_handler os kind t).1 ≡ true
      → (installs (set_handler os kind t).0.log ≡ suc (installs t.log))
        × (restores (set_handler os kind t).0.log ≡ restores t.log)
  unfolding set_handler set_sigchld_signal_handler give_up
  handler_set nonblocking t k e = cc
  handler_set blocking t k e = elim (Bool-cases (os.sigaction t.log)) [
    | inl h ↦ rw (h, set_handler) (refl, refl)
    | inr h ↦ let f : false ≡ true = rw (h, set_handler) at e in cc
  ]

  after_handler :
      (s : Pexec) (r : Pexec × Bool)
      → s.type ≡ blocking
      → Goes s r
      → (r >>? (λ s. set_handler os s.type s)).1 ≡ true
      → (installs (r >>? (λ s. set_handler os s.type s)).0.log ≡ suc (installs s.log))
        × (restores (r >>? (λ s. set_handler os s.type s)).0.log ≡ restores s.log)
  after_handler s (t, false) b g e = cc
  after_handler s (t, true) b g e =
      let ((i, r), k) = g refl in
      let (i1, r1) = handler_set t.type t (k ∙ b) e in (i1 ∙ ap suc i, r1 ∙ r)

  spawn_none :
      (s : Pexec)
      → os.fork s.log ≡ none
      → spawn_proc os s
        ≡ give_up fork_error (record s { proc_pid = none; log = forked none ∷ s.log })
  unfolding spawn_proc
  spawn_none s h =
      rw (h, spawn_proc)
        (ap (λ o. give_up fork_error (record s { proc_pid = o; log = forked o ∷ s.log })) h)

module _ (c : Setting) where
  fork_none :
      (r : Pexec × Bool)
      → r.1 ≡ true
      → c.os.fork r.0.log ≡ none
      → (t : Pexec) × (start c (r >>? spawn_proc c.os) ≡ done t) × SameLog r.0.log t.log
  unfolding start
  fork_none (s, false) e h = cc
  fork_none (s, true) e h =
      let s1 : Pexec = record s { proc_pid = none; log = forked none ∷ s.log } in
      (
        (give_up fork_error s1).0,
        ap (start c) (spawn_none c.os s h) ∙ given_up s1,
        give_up-SameLog fork_error s1,
      )
    where
      given_up : (s : Pexec) → start c (give_up fork_error s) ≡ done (give_up fork_error s).0
      given_up s = unfold give_up in refl

  -- If a blocking call of a new object has come as far as `fork` and that fails, `exec` returns, and
  -- has put its SIGCHLD handler in place once more than it has put the previous one back.
  pub exec_fork_failed :
      (arg : Bytes) (log : Log)
      → installs log ≡ restores log
      → (set_up c.os (begun arg blocking log)).1 ≡ true
      → c.os.fork (set_up c.os (begun arg blocking log)).0.log ≡ none
      → (t : Pexec) × (exec c arg (new_pexec blocking log) ≡ done t)
        × (installs t.log ≡ suc (restores t.log))
  unfolding exec prepare
  exec_fork_failed arg log h e f =
      let s = begun arg blocking log in
      let (t, r, (i, p)) = fork_none (set_up c.os s) e f in
      let (j, q) =
        after_handler c.os s (prepare_args s >>? prepare_fork_pipes c.os) refl
          (Goes-then s _ _ (args-Goes s) (pipes-Goes c.os)) e in
      (t, r, omega (arith, i, j, p, q, h))
