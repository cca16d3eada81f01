-- ===== src/PexecSingle/Ready.antt =====
-- The way to the fork: what holds after each step that went well, and after each that did not.
use pexec.Base.{
  ℕ, suc, ◌+◌, ◌≤◌, Bool, true, false, some, ◌≡◌, refl, ◌∙◌, arith, Option-cases, Bool-cases, inl,
  inr, ◌∷◌, is_empty, ltb, length,
}
use pexec.ArgumentParser.{str2arg}
use pexec.Error.{Error}
use pexec.System.{Os, Pipe, opened, open_failed, handler_installed, forked}
use pexec.System.Ledger.{opens, closes, finals}
use pexec.Util.{arg2argc}
use pexec.Util.Close.{no_pipe}
use pexec.PexecSingle.State.{
  Pexec, ExecType, blocking, nonblocking, emit, process_error, call_state, ◌>>?◌,
}
use pexec.PexecSingle.Pipes.{
  fail_stopped, give_up, make_pipe, make_signal_pipe, prepare_fork_pipes, prepare_args, put_stdin,
  put_stdout, put_stderr, put_signal, put_close_watch,
}
use pexec.PexecSingle.Signals.{set_sigchld_signal_handler}
use pexec.PexecSingle.Exec.{spawn_proc, set_handler, prepare}
use pexec.PexecSingle.Closing.{held, IsClosed, close_fork_pipes-Forgets}

-- From `s`, the first `k` pipes have been made, and the rest of the five are empty.
pub record Ready (n : ℕ) (s : Pexec) (k : ℕ) (t : Pexec) : Type 0 where
  pub owns : opens n t.log ≡ closes n t.log + held n t
  pub same_type : t.type ≡ s.type
  pub same_finals : finals t.log ≡ finals s.log
  pub no_stdin : k ≤ 0 → t.pipe_stdin ≡ no_pipe
  pub no_stdout : k ≤ 1 → t.pipe_stdout ≡ no_pipe
  pub no_stderr : k ≤ 2 → t.pipe_stderr ≡ no_pipe
  pub no_signal : k ≤ 3 → t.pipe_signal ≡ no_pipe
  pub no_watch : k ≤ 4 → t.pipe_close_watch ≡ no_pipe
  pub signal_type : t.type ≡ nonblocking → t.pipe_signal ≡ no_pipe

-- Nothing is held, all that was opened has been closed, and the user has been told once more.
pub record Failed (n : ℕ) (s t : Pexec) : Type 0 where
  pub all_closed : IsClosed t
  pub balanced : opens n t.log ≡ closes n t.log
  pub told : finals t.log ≡ suc (finals s.log)
  pub same_type : t.type ≡ s.type

pub record Stage (n : ℕ) (s : Pexec) (k : ℕ) (r : Pexec × Bool) : Type 0 where
  pub on_ready : r.1 ≡ true → Ready n s k r.0
  pub on_failed : r.1 ≡ false → Failed n s r.0

fail_stopped-Failed : (n : ℕ) (s t : Pexec) {k : ℕ} → Ready n s k t → Failed n s (fail_stopped t)
unfolding fail_stopped call_state
fail_stopped-Failed n s t h =
    let f = close_fork_pipes-Forgets n t h.signal_type in
    record {
      all_closed = record {
        closed_stdin = f.all_closed.closed_stdin;
        closed_stdout = f.all_closed.closed_stdout;
        closed_stderr = f.all_closed.closed_stderr;
        closed_signal = f.all_closed.closed_signal;
        closed_watch = f.all_closed.closed_watch;
      };
      balanced = omega (arith, f.closes_held, f.opens_none, h.owns);
      told = omega (arith, f.finals_same, h.same_finals);
      same_type = f.same_type ∙ h.same_type;
    }

-- A step may log what is neither an opening, a closing nor a final state.
process_error-Ready :
    (n : ℕ) (s t : Pexec) (k : ℕ) (err : Error) → Ready n s k t → Ready n s k (process_error err t)
unfolding process_error
process_error-Ready n s t k err h = record {
  owns = h.owns;
  same_type = h.same_type;
  same_finals = h.same_finals;
  no_stdin = h.no_stdin;
  no_stdout = h.no_stdout;
  no_stderr = h.no_stderr;
  no_signal = h.no_signal;
  no_watch = h.no_watch;
  signal_type = h.signal_type;
}

give_up-Stage :
    (n : ℕ) (s t : Pexec) (j k : ℕ) (err : Error) → Ready n s j t → Stage n s k (give_up err t)
unfolding give_up
give_up-Stage n s t j k err h = record {
  on_ready = λ e. cc;
  on_failed =
      λ _. fail_stopped-Failed n s (process_error err t) (process_error-Ready n s t j err h);
}

>>?-Stage :
    (n : ℕ) (s : Pexec) (j k : ℕ) (r : Pexec × Bool) (f : Pexec → Pexec × Bool)
    → Stage n s j r
    → ((t : Pexec) → Ready n s j t → Stage n s k (f t))
    → Stage n s k (r >>? f)
>>?-Stage n s j k (t, true) f h g = g t (h.on_ready refl)
>>?-Stage n s j k (t, false) f h g = record { on_ready = λ e. cc; on_failed = h.on_failed }

-- An entry of the log that neither opens, closes nor reports an end.
emit_failed-Ready : (n : ℕ) (s t : Pexec) (k : ℕ) → Ready n s k t → Ready n s k (emit open_failed t)
emit_failed-Ready n s t k h = ground arith

module _ (os : Os) (n : ℕ) (s : Pexec) where
  -- `put` fills the place of pipe `k`.
  make_pipe-Stage :
      (k : ℕ) (err : Error) (put : Pipe → Pexec → Pexec) (t : Pexec)
      → ((r w : ℕ)
          → Ready n s
              (suc k)
              (put (record { read_end = some r; write_end = some w }) (emit (opened r w) t)))
      → Ready n s k t
      → Stage n s (suc k) (make_pipe os err put t)
  unfolding make_pipe
  make_pipe-Stage k err put t filled h = elim (Option-cases (os.pipe2 t.log)) [
    | inl e ↦
        rw (e, make_pipe)
          (give_up-Stage n s (emit open_failed t) k (suc k) err (emit_failed-Ready n s t k h))
    | inr ((r, w), e) ↦
        rw (e, make_pipe) (record { on_ready = λ _. filled r w; on_failed = λ e. cc })
  ]

  make_stdin-Stage :
      (err : Error) (t : Pexec) → Ready n s 0 t → Stage n s 1 (make_pipe os err put_stdin t)
  make_stdin-Stage err t h =
      make_pipe-Stage 0 err put_stdin t (λ r w. ground (arith, h.no_stdin (omega arith))) h

  make_stdout-Stage :
      (err : Error) (t : Pexec) → Ready n s 1 t → Stage n s 2 (make_pipe os err put_stdout t)
  make_stdout-Stage err t h =
      make_pipe-Stage 1 err put_stdout t (λ r w. ground (arith, h.no_stdout (omega arith))) h

  make_stderr-Stage :
      (err : Error) (t : Pexec) → Ready n s 2 t → Stage n s 3 (make_pipe os err put_stderr t)
  make_stderr-Stage err t h =
      make_pipe-Stage 2 err put_stderr t (λ r w. ground (arith, h.no_stderr (omega arith))) h

  make_signal-Stage :
      (kind : ExecType) (t : Pexec)
      → t.type ≡ kind
      → Ready n s 3 t
      → Stage n s 4 (make_signal_pipe os kind t)
  unfolding make_signal_pipe
  make_signal-Stage blocking t e h =
      make_pipe-Stage 3 _ put_signal t (λ r w. ground (arith, h.no_signal (omega arith))) h
  make_signal-Stage nonblocking t e h = record { on_ready = λ _. ground arith; on_failed = λ e. cc }

  make_watch-Stage :
      (err : Error) (t : Pexec) → Ready n s 4 t → Stage n s 5 (make_pipe os err put_close_watch t)
  make_watch-Stage err t h =
      make_pipe-Stage 4 err put_close_watch t (λ r w. ground (arith, h.no_watch (omega arith))) h

  pub prepare_fork_pipes-Stage : (t : Pexec) → Ready n s 0 t → Stage n s 5 (prepare_fork_pipes os t)
  unfolding prepare_fork_pipes
  prepare_fork_pipes-Stage t h =
      >>?-Stage n s 4 5 _ _
        (>>?-Stage n s 3 4 _ _
          (>>?-Stage n s 2 3 _ _
            (>>?-Stage n s 1 2 _ _ (make_stdin-Stage _ t h) (make_stdout-Stage _))
            (make_stderr-Stage _))
          (λ t. make_signal-Stage t.type t refl))
        (make_watch-Stage _)

  prepare_args-Stage : (t : Pexec) → Ready n s 0 t → Stage n s 0 (prepare_args t)
  unfolding prepare_args
  prepare_args-Stage t h =
      let s1 : Pexec = record t { args = str2arg t.spawn_process_arg } in
      let s2 : Pexec = record s1 { args_c = arg2argc s1.args } in
      let h1 : Ready n s 0 s1 = ground arith in
      let h2 : Ready n s 0 s2 = ground arith in
      elim (Bool-cases (is_empty s1.args)) [
        | inl e ↦ rw (e, prepare_args) (give_up-Stage n s s1 0 0 _ h1)
        | inr e ↦ elim (Bool-cases (ltb (length s2.args_c) 2)) [
          | inl f ↦ rw (e, f, prepare_args) (give_up-Stage n s s2 0 0 _ h2)
          | inr f ↦ rw (e, f, prepare_args) (record { on_ready = λ _. h2; on_failed = λ e. cc })
        ]
      ]

  set_handler-Stage :
      (kind : ExecType) (t : Pexec) → Ready n s 5 t → Stage n s 5 (set_handler os kind t)
  unfolding set_handler set_sigchld_signal_handler
  set_handler-Stage nonblocking t h = record { on_ready = λ _. h; on_failed = λ e. cc }
  set_handler-Stage blocking t h = elim (Bool-cases (os.sigaction t.log)) [
    | inl e ↦ rw e (record { on_ready = λ _. ground arith; on_failed = λ e. cc })
    | inr e ↦ rw e (give_up-Stage n s (emit (handler_installed false) t) 5 5 _ (ground arith))
  ]

  spawn_proc-Stage : (t : Pexec) → Ready n s 5 t → Stage n s 5 (spawn_proc os t)
  unfolding spawn_proc
  spawn_proc-Stage t h = elim (Option-cases (os.fork t.log)) [
    | inl e ↦
        rw (e, spawn_proc)
          (give_up-Stage n s
            (record t { proc_pid = os.fork t.log; log = forked (os.fork t.log) ∷ t.log }) 5 5 _
            (ground arith))
    | inr (pid, e) ↦
        rw (e, spawn_proc) (record { on_ready = λ _. ground arith; on_failed = λ e. cc })
  ]

  -- `prepare` either makes all five pipes, or closes every pipe that it made and tells the user.
  pub prepare-Stage : (t : Pexec) → Ready n s 0 t → Stage n s 5 (prepare os t)
  unfolding prepare
  prepare-Stage t h =
      >>?-Stage n s 5 5 _ _
        (>>?-Stage n s 5 5 _ _
          (>>?-Stage n s 0 5 _ _ (prepare_args-Stage t h) prepare_fork_pipes-Stage)
          (λ t. set_handler-Stage t.type t))
        spawn_proc-Stage
