-- ===== src/PexecSingle/NoLeak.antt =====
-- The descriptors and the reports of a whole blocking call of `exec` on a new object.
use pexec.Base.{ℕ, suc, Bytes, Bool, true, false, none, ◌≡◌, refl, sym, ◌∙◌, arith}
use pexec.Error.{no_error}
use pexec.ProcStatus as Proc
use pexec.Run.{done, Ensures, Ensures-bind, Ensures-if, Ensures-imp}
use pexec.System.{Log}
use pexec.System.Ledger.{opens, closes, is_final, finals}
use pexec.PexecSingle.State.{Pexec, ExecType, blocking, nonblocking, call_state, new_pexec}
use pexec.PexecSingle.Pipes.{close_fork_pipes}
use pexec.PexecSingle.Reading.{user_stopped, stopped}
use pexec.PexecSingle.Signals.{reset_sigchld_signal_handler}
use pexec.PexecSingle.Loop.{Setting}
use pexec.PexecSingle.Exec.{announce, prepare, finish, supervise, start, exec}
use pexec.PexecSingle.Closing.{IsClosed, Forgets, close_fork_pipes-Forgets}
use pexec.PexecSingle.Quiet.{Watched, loop_rest_io-Watched}
use pexec.PexecSingle.Handling.{reset-Watched}
use pexec.PexecSingle.Watching.{loop_io-Watched}
use pexec.PexecSingle.Ready.{Ready, Failed, Stage, prepare-Stage}

module _ (c : Setting) (n : ℕ) (s : Pexec) where
  open c use {os, buffer_size, fuel}

  -- The end of a blocking call: closed, and told once.
  Forgets-Failed :
      (t t1 : Pexec)
      → s.type ≡ blocking
      → Watched n s 0 t
      → Forgets n t t1
      → (st : Proc.State) → is_final st ≡ 1
      → Failed n s (call_state st t1)
  unfolding call_state
  Forgets-Failed t t1 b w f st h = record {
    all_closed = record {
      closed_stdin = f.all_closed.closed_stdin;
      closed_stdout = f.all_closed.closed_stdout;
      closed_stderr = f.all_closed.closed_stderr;
      closed_signal = f.all_closed.closed_signal;
      closed_watch = f.all_closed.closed_watch;
    };
    balanced = omega (arith, f.closes_held, f.opens_none, w.owns);
    told = omega (arith, f.finals_same, w.same_finals);
    same_type = f.same_type ∙ w.is_blocking ∙ sym b;
  }

  user_stopped-Failed :
      (t : Pexec) → s.type ≡ blocking → Watched n s 0 t → Failed n s (user_stopped t)
  unfolding user_stopped
  user_stopped-Failed t b w =
      let t1 : Pexec = record t {
        user_stopped = true;
        proc = record t.proc { user_stop_fd = none };
      } in
      let w1 : Watched n s 0 t1 = ground arith in
      Forgets-Failed t1 (close_fork_pipes t1) b w1 (close_fork_pipes-Forgets n t1 (λ e. cc))
        Proc.State.user_stopped refl

  stopped-Failed :
      (t : Pexec)
      → s.type ≡ blocking
      → Watched n s 0 t
      → Ensures (Failed n s) (stopped os buffer_size fuel t)
  unfolding stopped
  stopped-Failed t b w =
      Ensures-bind (Watched n s 0) (Failed n s) _ _
        (loop_rest_io-Watched n s 0 os buffer_size fuel t w)
        λ t1 w1.
          Forgets-Failed t1 (close_fork_pipes t1) b w1
            (close_fork_pipes-Forgets n t1 (λ e. absurd (mixed t1 w1 e))) Proc.State.stopped refl
    where
      mixed : (t1 : Pexec) → Watched n s 0 t1 → t1.type ≡ nonblocking → ⊥
      mixed t1 w1 e = cc (w1.is_blocking)

  finish-Failed :
      (t : Pexec) → s.type ≡ blocking → Watched n s 0 t → Ensures (Failed n s) (finish c t)
  unfolding finish
  finish-Failed t b w =
      Ensures-if (Failed n s) t.user_stopped (done (user_stopped t)) _ (user_stopped-Failed t b w)
        (stopped-Failed t b w)

  supervise-Failed :
      (kind : ExecType) (t : Pexec)
      → kind ≡ blocking
      → s.type ≡ blocking
      → Watched n s 0 t
      → Ensures (Failed n s) (supervise c kind t)
  unfolding supervise
  supervise-Failed nonblocking t e b w = cc
  supervise-Failed blocking t e b w =
      Ensures-bind (Watched n s 0) (Failed n s) _ _ (loop_io-Watched c n s t w)
        λ t1 w1. finish-Failed (reset_sigchld_signal_handler os t1) b (reset-Watched n s 0 os t1 w1)

  announce-Watched : (t : Pexec) → s.type ≡ blocking → Ready n s 5 t → Watched n s 0 (announce t)
  unfolding announce call_state
  announce-Watched t b h = ground arith

  start-Failed :
      (r : Pexec × Bool) → s.type ≡ blocking → Stage n s 5 r → Ensures (Failed n s) (start c r)
  unfolding start
  start-Failed (t, false) b h = h.on_failed refl
  start-Failed (t, true) b h =
      let w = announce-Watched t b (h.on_ready refl) in
      supervise-Failed (announce t).type (announce t) w.is_blocking b w

module _ (c : Setting) (n : ℕ) where
  abbrev Over : Pexec → Pexec → Type 0
  Over s t = IsClosed t × (opens n t.log ≡ closes n t.log) × (finals t.log ≡ suc (finals s.log))

  pub fresh-Ready :
      (arg : Bytes) (kind : ExecType) (log : Log)
      → opens n log ≡ closes n log
      → Ready n
          (new_pexec kind log)
          0
          (record (new_pexec kind log) { spawn_process_arg = arg; state = no_error })
  fresh-Ready arg kind log h = ground arith

  -- From a log that opens and closes a descriptor equally often: if a blocking `exec` of a new
  -- object returns, whatever the system answered and at whatever call it failed: each descriptor
  -- has been closed as often as it was opened, the five pipes hold none, and exactly one of
  -- STOPPED, USER_STOPPED and FAIL_STOPPED has been reported.
  pub exec-no_leak :
      (arg : Bytes) (log : Log)
      → opens n log ≡ closes n log
      → Ensures (Over (new_pexec blocking log)) (exec c arg (new_pexec blocking log))
  unfolding exec
  exec-no_leak arg log h =
      let s = new_pexec blocking log in
      let r = prepare c.os (record s { spawn_process_arg = arg; state = no_error }) in
      Ensures-imp (Failed n s) (Over s) (start c r)
        (start-Failed c n s r refl (prepare-Stage c.os n s _ (fresh-Ready arg blocking log h)))
        λ t f. (f.all_closed, f.balanced, f.told)
