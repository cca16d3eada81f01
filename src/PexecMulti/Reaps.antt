-- ===== src/PexecMulti/Reaps.antt =====
-- The callbacks that `pexec_multi` gives to the SIGCHLD handler reap no child themselves.
use pexec.Base.{
  ℕ, zero, suc, ◌-◌, ◌&&◌, Bytes, Bool, true, false, not, Option, none, some, List, [], ◌∷◌, ◌≡◌,
  refl, ◌∙◌, is_empty, length, arith, Option-cases, Bool-cases, inl, inr, if◌then◌else◌,
}
use pexec.Error.{
  Error, fork_exec_error, fork_stdin_nonblock_error, fork_stdout_nonblock_error,
  fork_stderr_nonblock_error, fork_dup2_stdin_error, fork_dup2_stdout_error, fork_dup2_stderr_error,
}
use pexec.PexecMulti.Handle.{hear_new, has_end}
use pexec.PexecMulti.Jobs.{proc_stopped, call_stopped, told_stopped, heard, with_process}
use pexec.PexecMulti.Serve.{update_found, child_changed, owner}
use pexec.PexecMulti.State.{
  Multi, LoopType, default, external, Job, emit, get, remove, set_handle, queue_size, interrupt,
  send_job, unregister, remove_read_event, process_error,
}
use pexec.PexecSingle.Exec as Single
use pexec.PexecSingle.Loop.{Setting}
use pexec.PexecSingle.Pipes.{close_signal_pipe, close_fork_pipes}
use pexec.PexecSingle.Reading.{after_rest, read_std_rest, loop_rest_io, stopped}
use pexec.PexecSingle.Signals.{handle_proc_return_code, process_ended, update_status}
use pexec.PexecSingle.State as State
use pexec.PexecSingle.State.{Pexec, ExecType, blocking, nonblocking, call_state}
use pexec.ProcStatus as Proc
use pexec.QueueBuffer.{add}
use pexec.Run.{Run, done, Ensures, Ensures-bind, Ensures-if, Ensures-any}
use pexec.SelectEvent
use pexec.SigchldHandler as Sigchld
use pexec.SigchldHandler.Children.{is_reap}
use pexec.System.{
  Event, Log, Os, Pipe, ReadResult, got, read_failed, eintr, eagain, echild, other_errno, was_read,
  closed, on_error, on_state, on_stdout, on_stderr, stop_told, fd_removed,
}
use pexec.Util.{close_fd, close_pipe}

-- A reading of the log that only a reaped child changes.
module _ (read : Log → List (ℕ × ℕ))
    (quiet : (e : Event) (log : Log) → is_reap e ≡ false → read (e ∷ log) ≡ read log) where
  close_fd-read : (log : Log) (fd : Option ℕ) → read (close_fd log fd).1 ≡ read log
  unfolding close_fd
  close_fd-read log none = refl
  close_fd-read log (some fd) = quiet (closed fd) log refl

  close_pipe-read : (log : Log) (p : Pipe) → read (close_pipe log p).1 ≡ read log
  unfolding close_pipe
  close_pipe-read log p = close_fd-read _ p.write_end ∙ close_fd-read log p.read_end

  close_signal-read :
      (kind : ExecType) (log : Log) (p : Pipe) → read (close_signal_pipe kind log p).1 ≡ read log
  unfolding close_signal_pipe
  close_signal-read blocking log p = close_pipe-read log p
  close_signal-read nonblocking log p = refl

  close_fork_pipes-read : (s : Pexec) → read (close_fork_pipes s).log ≡ read s.log
  unfolding close_fork_pipes
  close_fork_pipes-read s =
      close_pipe-read _ s.pipe_close_watch
      ∙ close_signal-read s.type _ s.pipe_signal
      ∙ close_pipe-read _ s.pipe_stderr
      ∙ close_pipe-read _ s.pipe_stdout
      ∙ close_pipe-read s.log s.pipe_stdin

  module _ (z : List (ℕ × ℕ)) where
    abbrev Reads : Pexec → Type 0
    Reads s = read s.log ≡ z

    after_rest-Reads :
        (os : Os) (buffer_size : ℕ) (r : ReadResult) (cb : Bytes → Event) (err : Error) (s : Pexec)
        (again : Run Pexec)
        → ((b : Bytes) → is_reap (cb b) ≡ false)
        → Reads s
        → Ensures Reads again
        → Ensures Reads (after_rest os buffer_size r cb err s again)
    unfolding after_rest State.process_error
    after_rest-Reads os n (read_failed eintr) cb err s again q h a = h
    after_rest-Reads os n (read_failed eagain) cb err s again q h a = h
    after_rest-Reads os n (read_failed echild) cb err s again q h a =
        quiet (on_error err) s.log refl ∙ h
    after_rest-Reads os n (read_failed other_errno) cb err s again q h a =
        quiet (on_error err) s.log refl ∙ h
    after_rest-Reads os n (got []) cb err s again q h a = a
    after_rest-Reads os n (got (b ∷ bs)) cb err s again q h a =
        quiet (cb (b ∷ bs)) s.log (q (b ∷ bs)) ∙ h

    read_std_rest-Reads :
        (os : Os) (buffer_size fuel : ℕ) (fd : Option ℕ) (cb : Bytes → Event) (err : Error)
        (s : Pexec)
        → ((b : Bytes) → is_reap (cb b) ≡ false)
        → Reads s
        → Ensures Reads (read_std_rest os buffer_size fuel fd cb err s)
    unfolding read_std_rest
    read_std_rest-Reads os n zero fd cb err s q h = tt
    read_std_rest-Reads os n (suc fuel) fd cb err s q h =
        let r = os.read s.log fd (n - 1) in
        let s1 = State.emit (was_read fd r) s in
        let h1 = quiet (was_read fd r) s.log refl ∙ h in
        after_rest-Reads os n r cb err s1 _ q h1 (read_std_rest-Reads os n fuel fd cb err s1 q h1)

    stopped-Reads :
        (os : Os) (buffer_size fuel : ℕ) (s : Pexec)
        → Reads s
        → Ensures Reads (stopped os buffer_size fuel s)
    unfolding stopped loop_rest_io call_state
    stopped-Reads os n fuel s h =
        Ensures-bind Reads Reads (loop_rest_io os n fuel s) _
          (Ensures-bind Reads Reads (read_std_rest os n fuel s.pipe_stdout.read_end on_stdout _ s) _
            (read_std_rest-Reads os n fuel s.pipe_stdout.read_end on_stdout _ s (λ b. refl) h)
            (λ t h1.
              read_std_rest-Reads os n fuel t.pipe_stderr.read_end on_stderr _ t (λ b. refl) h1))
          (λ t h1. quiet _ (close_fork_pipes t).log refl ∙ close_fork_pipes-read t ∙ h1)

    return_code-Reads : (s : Pexec) → Reads s → Reads (handle_proc_return_code s)
    unfolding handle_proc_return_code State.process_error
    return_code-Reads s h =
        let q : (e : Error) → read (on_error e ∷ s.log) ≡ z =
          λ e. quiet (on_error e) s.log refl ∙ h in
        ground (
          arith,
          h,
          q fork_exec_error,
          q fork_stdin_nonblock_error,
          q fork_stdout_nonblock_error,
          q fork_stderr_nonblock_error,
          q fork_dup2_stdin_error,
          q fork_dup2_stdout_error,
          q fork_dup2_stderr_error,
        )

    process_ended-Reads :
        (c : Setting) (kind : ExecType) (s : Pexec)
        → Reads s
        → Ensures Reads (process_ended c.os c.macros c.buffer_size c.fuel kind s)
    unfolding process_ended
    process_ended-Reads c nonblocking s h = stopped-Reads c.os c.buffer_size c.fuel s h
    process_ended-Reads c blocking s h = h

    update_status-Reads :
        (c : Setting) (status : ℕ) (s : Pexec)
        → Reads s
        → Ensures Reads (update_status c.os c.macros c.buffer_size c.fuel status s)
    unfolding update_status call_state
    update_status-Reads c status s h =
        let p = Proc.update_status c.macros s.proc status in
        let h1 = quiet (on_state Proc.State.signaled p) s.log refl ∙ h in
        Ensures-if Reads (not p.running) _ _
          (process_ended-Reads c s.type _ (return_code-Reads _ h1)) h1

    abbrev Read : Multi → Type 0
    Read m = read m.log ≡ z

    unregister-Read :
        (kind : LoopType) (fd : Option ℕ) (m : Multi) → Read m → Ensures Read (unregister kind fd m)
    unfolding unregister
    unregister-Read default none m h = tt
    unregister-Read default (some fd) m h =
        Ensures-bind (λ _. Unit {0}) Read (SelectEvent.remove_read_event fd m.loop)
          (λ l. done (record m { loop = l }))
          (Ensures-any (SelectEvent.remove_read_event fd m.loop)) (λ l _. h)
    unregister-Read external fd m h = elim (Bool-cases m.registers) [
      | inl e ↦ rw e (quiet (fd_removed fd) m.log refl ∙ h)
      | inr e ↦ rw e h
    ]

    remove-Read : (fd : Option ℕ) (m : Multi) → Read m → Ensures Read (remove_read_event fd m)
    unfolding remove_read_event
    remove-Read fd m h = unregister-Read m.kind fd _ h

    send_job-Read : (job : Option Job) (m : Multi) → Read m → Ensures Read (send_job job m)
    unfolding send_job interrupt
    send_job-Read job m h = elim (Option-cases (add queue_size job m.buffer)) [
      | inl e ↦ rw (e, send_job) tt
      | inr (q, e) ↦ rw (e, send_job) (quiet _ m.log refl ∙ h)
    ]

    proc_stopped-Read : (pid id : ℕ) (m : Multi) → Read m → Ensures Read (proc_stopped pid id m)
    unfolding proc_stopped
    proc_stopped-Read pid id m h =
        let fds : Single.PexecFds = (m.handles id).fds in
        Ensures-bind Read Read (remove_read_event fds.watch_close_write_fd m) _
          (remove-Read fds.watch_close_write_fd m h)
          (λ m1 h1.
            Ensures-bind Read Read (remove_read_event fds.stdout_read_fd m1) _
              (remove-Read fds.stdout_read_fd m1 h1)
              (λ m2 h2.
                Ensures-bind Read Read (remove_read_event fds.stderr_read_fd m2) _
                  (remove-Read fds.stderr_read_fd m2 h2)
                  (λ m3 h3.
                    let m4 : Multi = record m3 { active_procs = remove pid m3.active_procs } in
                    Ensures-if Read (m4.stopping && is_empty m4.active_procs) (send_job none m4)
                      (done m4) (send_job-Read none m4 h3) h3)))

    call_stopped-Read :
        (o : Option ℕ) (id : ℕ) (m : Multi) → Read m → Ensures Read (call_stopped o id m)
    unfolding call_stopped
    call_stopped-Read none id m h = h
    call_stopped-Read (some pid) id m h = proc_stopped-Read pid id m h

    Read-if : (b : Bool) (m1 m2 : Multi) → Read m1 → Read m2 → Read (if b then m1 else m2)
    Read-if true m1 m2 a b = a
    Read-if false m1 m2 a b = b

    told_stopped-Read : (id : ℕ) (m : Multi) → Read m → Ensures Read (told_stopped id m)
    unfolding told_stopped
    told_stopped-Read id m h =
        let b = (m.handles id).has_on_stop in
        call_stopped-Read (m.handles id).stopped_pid id (if b then emit (stop_told id) m else m)
          (Read-if b (emit (stop_told id) m) m (quiet (stop_told id) m.log refl ∙ h) h)

    update_found-Read :
        (c : Setting) (status : ℕ) (o : Option ℕ) (m : Multi)
        → Read m
        → Ensures Read (update_found c status o m)
    unfolding update_found with_process heard
    update_found-Read c status none m h = h
    update_found-Read c status (some id) m h =
        let s : Pexec = record (m.handles id).proc { log = m.log } in
        Ensures-bind Reads Read (update_status c.os c.macros c.buffer_size c.fuel status s)
          (λ p. heard c id p m) (update_status-Reads c status s h)
          (λ p h1.
            let k = length p.log - length m.log in
            let x = hear_new c.os.errno k p.log (record (m.handles id) { proc = p }) in
            let m1 = set_handle id x (record m { log = p.log }) in
            Ensures-if Read (has_end k p.log) (told_stopped id m1) (done m1)
              (told_stopped-Read id m1 h1) h1)

  -- Neither callback changes what is read of the log.
  pub owner-read :
      (c : Setting) (pid status : ℕ) (m : Multi)
      → Ensures
          (λ m1. read m1.log ≡ read m.log)
          (Sigchld.tell_signal (owner c) (owner c).on_signal pid status m)
  unfolding owner child_changed Sigchld.tell_signal
  owner-read c pid status m =
      update_found-Read (read m.log) c status (get pid m.active_procs) m refl

  pub owner-error-read :
      (c : Setting) (err : Error) (m : Multi)
      → read (Sigchld.tell_error (owner c) (owner c).on_error err m).log ≡ read m.log
  unfolding owner Sigchld.tell_error process_error
  owner-error-read c err m = quiet (on_error err) m.log refl
