-- ===== src/PexecMulti/Serve.antt =====
-- `run`, the functions that it registers, the constructor and the destructor.
use pexec.Base.{ℕ, zero, suc, true, false, Option, none, some, [], ◌∷◌, if◌then◌else◌}
use pexec.Error.{Error, no_error, select_error}
use pexec.PexecMulti.Handle.{new_handle}
use pexec.PexecMulti.Jobs.{with_process, dispatch_job, handle_stop}
use pexec.PexecMulti.State.{
  Multi, Table, Sigchld, no_handler, mute, wired, LoopType, default, external, stop_wait, Action,
  signal_action, control_action, close_action, stdout_action, stderr_action, emit, process_error,
  get, fd_key, add_read_event, register_event,
}
use pexec.PexecSingle.Loop.{Setting}
use pexec.PexecSingle.Reading.{read_close, read_stdout, read_stderr}
use pexec.PexecSingle.Signals as Signals
use pexec.QueueBuffer.{empty}
use pexec.Run.{Run, done, fault, timeout, ◌>>=◌}
use pexec.SelectEvent
use pexec.SelectEvent.{EventReturn, stop_loop, skip_other_fd, nothing, Loop, Client}
use pexec.SigchldHandler as Sigchld
use pexec.SigchldHandler.{Owner, Handler, new_handler, get_read_fd}
use pexec.System.{ReadResult, got, read_failed, eintr, Log, opened, was_read}
use pexec.Util.{close_pipe}
use pexec.Util.Close.{no_pipe}

-- The handler's owner while the handler is made: no callback is set.
abbrev pub mute_owner : Owner Multi
mute_owner = record {
  log_of = λ m. m.log;
  put_log = λ log m. record m { log = log };
  on_signal = none;
  on_error = none;
}

-- The members of a new object, `pipe2` having opened a pipe.
abbrev pub new_multi : ℕ → ℕ → LoopType → Log → Multi
new_multi r w kind log = record {
  control_pipe = record { read_end = some r; write_end = some w };
  kind = kind;
  sigchld = no_handler;
  handler = new_handler;
  loop = record {
    control_pipe = no_pipe;
    cbs = [];
    actual_iterator = none;
    actual_iterator_deleted = false;
    recompute_max_fds = true;
    max_fd = none;
  };
  has_loop = false;
  buffer = empty;
  active_procs = [];
  handles = λ k. new_handle [] false false false false;
  made = 0;
  err = no_error;
  registered = [];
  registers = false;
  stop_flag = stop_wait;
  stop_signum = some 0;
  stopping = false;
  log = opened r w ∷ log;
}

module _ (c : Setting) where
  open c use {os, macros, buffer_size, sigchld, fuel}

  -- The constructor, and `set_type`.
  unfoldable pub construct : LoopType → Log → Run Multi
  construct kind log = elim (os.pipe2 log) [
    | none ↦ fault
    | some (r, w) ↦ done (new_multi r w kind log)
  ]

  -- What the lambda given to `on_signal` does for the process that it has found.
  unfoldable pub update_found : ℕ → Option ℕ → Multi → Run Multi
  update_found status none m = done m
  update_found status (some id) m =
      with_process c id (λ p. Signals.update_status os macros buffer_size fuel status p) m

  -- The lambda given to `on_signal`.
  unfoldable pub child_changed : ℕ → ℕ → Multi → Run Multi
  unfolding get update_found
  child_changed pid status m = update_found status (get pid m.active_procs) m

  unfoldable pub owner : Owner Multi
  unfolding child_changed process_error
  owner = record {
    log_of = λ m. m.log;
    put_log = λ log m. record m { log = log };
    on_signal = some child_changed;
    on_error = some process_error;
  }

  -- `while (errno == EINTR)`, then `assert(ret >= 0)`.
  unfoldable pub after_control : ReadResult → Multi → Run Multi → Run Multi
  after_control (got bytes) m again = done m
  after_control (read_failed eintr) m again = again
  after_control (read_failed e) m again = fault

  unfoldable pub read_control : ℕ → ℕ → Multi → Run Multi
  unfolding after_control
  read_control zero fd m = timeout
  read_control (suc n) fd m =
      let r = os.read m.log (some fd) 1 in
      let m1 = emit (was_read (some fd) r) m in
      let again = read_control n fd m1 in after_control r m1 again

  -- `if(event_ret == event_return::STOP_LOOP) handle_stop();`
  unfoldable pub after_event : EventReturn → Multi → Run Multi
  unfolding handle_stop
  after_event stop_loop m = handle_stop m
  after_event skip_other_fd m = done m
  after_event nothing m = done m

  module _ (place : Table → ℕ → ℕ) where
    -- The registered functions, for the descriptor `fd`.
    unfoldable pub act : Action → ℕ → Multi → Run Multi
    unfolding owner read_control after_event
    act signal_action fd m = do
      (r, h, m1) ← Sigchld.read_signal owner os sigchld fuel m.handler m
      after_event r (record m1 { handler = h })
    act control_action fd m = do
      m1 ← read_control fuel fd m
      (r, m2) ← dispatch_job c place m1
      after_event r m2
    act (close_action id) fd m =
        with_process c id (λ p. (do (r, p1) ← read_close os buffer_size fuel p; done p1)) m
    act (stdout_action id) fd m =
        with_process c id (λ p. (do (r, p1) ← read_stdout os buffer_size fuel p; done p1)) m
    act (stderr_action id) fd m =
        with_process c id (λ p. (do (r, p1) ← read_stderr os buffer_size fuel p; done p1)) m

    -- `do_action`. A descriptor without a function gets an empty one, whose call throws.
    unfoldable pub do_action : ℕ → Multi → Run Multi
    unfolding act
    do_action fd m = elim (get (fd_key (some fd)) m.registered) [
      | none ↦ fault
      | some a ↦ act a fd m
    ]

    -- The callbacks of the loop that `run` makes.
    unfoldable pub client : Client Multi (Unit {0})
    unfolding do_action process_error
    client = record {
      log_of = λ m. m.log;
      emit = emit;
      call =
          λ k fd l m. (do m1 ← do_action fd (record m { loop = l }); done (nothing, m1.loop, m1));
      on_interrupt = λ m. (stop_loop, m);
      on_error = process_error select_error;
      slot = place;
    }

    -- `loop.reset()`
    unfoldable pub reset_loop : Multi → Multi
    unfolding client
    reset_loop m =
        if m.has_loop
        then record m { has_loop = false; log = SelectEvent.destroy os client m.loop m }
        else m

    -- The first `if` of `run`. A loop that an earlier run has left is deleted behind the new one.
    unfoldable pub start_loop : LoopType → Multi → Run Multi
    unfolding client reset_loop
    start_loop external m = done m
    start_loop default m = do
      (l, m1) ← SelectEvent.create os client m
      done (register_event true (record (reset_loop m1) { loop = l; has_loop = true }))

    -- The destructor of the handler, with the callbacks that it has.
    unfoldable pub delete_handler : Sigchld → Multi → Multi
    unfolding owner
    delete_handler no_handler m = m
    delete_handler mute m =
        let (h, m1) = Sigchld.destroy mute_owner os m.handler m in
        record m1 { handler = h; sigchld = no_handler }
    delete_handler wired m =
        let (h, m1) = Sigchld.destroy owner os m.handler m in
        record m1 { handler = h; sigchld = no_handler }

    -- `sigchld = std::unique_ptr<sigchld_handler>(new sigchld_handler);` The old handler is deleted
    -- behind the making of the new one, and both use the same globals.
    unfoldable pub start_sigchld : Multi → Multi
    unfolding delete_handler
    start_sigchld m =
        let (h, m1) = Sigchld.create mute_owner os m.handler m in
        let m2 =
          delete_handler m.sigchld (record m1 { handler = record h { err = m.handler.err } }) in
        record m2 { handler = record m2.handler { err = h.err }; sigchld = mute }

    -- The last `if` of `run`.
    unfoldable pub serve : LoopType → Multi → Run Multi
    unfolding client reset_loop delete_handler
    serve external m = done m
    serve default m = do
      (l, m1) ← SelectEvent.loop os client fuel fuel m.loop m
      let m2 = reset_loop (record m1 { loop = l })
      done (delete_handler m2.sigchld m2)

    -- The rest of `run` for a handler that is valid.
    unfoldable pub run_valid : Multi → Run Multi
    unfolding serve add_read_event
    run_valid m = do
      m1 ← add_read_event place (get_read_fd m.handler) signal_action (record m { sigchld = wired })
      m2 ← add_read_event place m1.control_pipe.read_end control_action m1
      serve m2.kind m2

    unfoldable pub check_valid : Error → Multi → Run Multi
    unfolding run_valid process_error
    check_valid no_error m = run_valid m
    check_valid err m = done (process_error err m)

    -- `run`
    unfoldable pub run : Multi → Run Multi
    unfolding start_loop start_sigchld check_valid
    run m = do m1 ← start_loop m.kind m; let m2 = start_sigchld m1; check_valid m2.handler.err m2

    -- The destructor, then those of the members that it has.
    unfoldable pub destruct : Multi → Multi
    unfolding reset_loop delete_handler
    destruct m =
        let (p, log) = close_pipe m.log m.control_pipe in
        let m1 = reset_loop (record m { control_pipe = p; log = log }) in
        delete_handler m1.sigchld m1
