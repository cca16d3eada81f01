-- ===== src/PexecSingle/Loop.antt =====
-- `loop_io`: the event loop of a blocking call.
use pexec.Base.{
  ℕ, zero, suc, ◌-◌, Bytes, true, false, Option, none, some, List, [], ◌++◌, ◌==◌, length,
  same_bytes, if◌then◌else◌,
}
use pexec.Error.{signal_pipe_read_error, select_error}
use pexec.ProcStatus.Wait.{WaitMacros}
use pexec.Run.{Run, done, fault, timeout, ◌>>=◌}
use pexec.SelectEvent
use pexec.SelectEvent.{
  EventReturn, stop_loop, skip_other_fd, nothing, Callback, Client, add_read_event, create, destroy,
  interrupt_event,
}
use pexec.System.{Os, ReadResult, got, read_failed, was_read}
use pexec.PexecSingle.State.{Pexec, emit, process_error}
use pexec.PexecSingle.Reading.{read_close, read_stdout, read_stderr}
use pexec.PexecSingle.Signals.{handle_sigchld}

-- The four lambdas that `loop_io` registers.
pub data Watch : Type 0 where
  close_watch out_watch err_watch signal_watch : Watch

-- The constants of the platform and of the template, and a bound for the loops.
pub record Setting : Type 0 where
  pub os : Os
  pub macros : WaitMacros
  pub buffer_size : ℕ
  pub sigchld : Bytes  -- the bytes of an `int` that holds SIGCHLD
  pub slot : List (ℕ × Callback Watch) → ℕ → ℕ
  pub fuel : ℕ

module _ (c : Setting) where
  open c use {os, macros, buffer_size, sigchld, slot, fuel}

  unfoldable pub after_signal :
      ReadResult
      → Bytes
      → ℕ
      → Pexec
      → (Bytes → Run (Option Bytes × Pexec))
      → Run (Option Bytes × Pexec)
  after_signal (read_failed e) read want s again =
      done (none, process_error signal_pipe_read_error s)
  after_signal (got bytes) read want s again =
      let more = again (read ++ bytes) in
      if length (read ++ bytes) == want then done (some (read ++ bytes), s) else more

  -- The loop that fills the `int`: `none` if a read failed. `read` holds the bytes so far.
  unfoldable pub read_signal : ℕ → Bytes → Pexec → Run (Option Bytes × Pexec)
  unfolding after_signal
  read_signal zero read s = timeout
  read_signal (suc n) read s =
      let want = length sigchld in
      let r = os.read s.log s.pipe_signal.read_end (want - length read) in
      after_signal r read want (emit (was_read s.pipe_signal.read_end r) s)
        (λ bytes. read_signal n bytes (emit (was_read s.pipe_signal.read_end r) s))

  -- `if(proc_killed_) return STOP_LOOP; return NOTHING;`
  abbrev pub by_killed : Pexec → EventReturn
  by_killed s = if s.proc_killed then stop_loop else nothing

  -- The rest of the lambda for the signal pipe, after the loop.
  unfoldable pub signal_read : Option Bytes → Pexec → Run (EventReturn × Pexec)
  signal_read none s = done (stop_loop, s)
  signal_read (some bytes) s = elim (same_bytes bytes sigchld) [
    | true ↦ do s1 ← handle_sigchld os macros buffer_size fuel s; done (by_killed s1, s1)
    | false ↦ done (by_killed s, s)
  ]

  -- The lambda for the signal pipe.
  unfoldable pub on_signal : Pexec → Run (EventReturn × Pexec)
  unfolding read_signal signal_read
  on_signal s = do (o, s1) ← read_signal fuel [] s; signal_read o s1

  -- The lambda for the close pipe: `if(ret == NOTHING) loop.interrupt();`
  unfoldable pub interrupt_after : SelectEvent.Loop Watch → EventReturn → Pexec → Pexec
  interrupt_after l nothing s = emit (interrupt_event l) s
  interrupt_after l _ s = s

  unfoldable pub call :
      Watch
      → ℕ
      → SelectEvent.Loop Watch
      → Pexec
      → Run (EventReturn × SelectEvent.Loop Watch × Pexec)
  unfolding on_signal interrupt_after
  call close_watch fd l s = do
    (r, s1) ← read_close os buffer_size fuel s
    done (r, l, interrupt_after l r s1)
  call out_watch fd l s = do (r, s1) ← read_stdout os buffer_size fuel s; done (r, l, s1)
  call err_watch fd l s = do (r, s1) ← read_stderr os buffer_size fuel s; done (r, l, s1)
  call signal_watch fd l s = do (r, s1) ← on_signal s; done (r, l, s1)

  unfoldable pub watcher : Client Pexec Watch
  unfolding call
  watcher = record {
    log_of = λ s. s.log;
    emit = emit;
    call = call;
    on_interrupt = λ s. (stop_loop, record s { user_stopped = true });
    on_error = process_error select_error;
    slot = slot;
  }

  -- A descriptor of -1 cannot be watched.
  unfoldable pub watch : Option ℕ → Watch → SelectEvent.Loop Watch → Run (SelectEvent.Loop Watch)
  watch none k l = fault
  watch (some fd) k l = add_read_event slot fd (SelectEvent.Callback.client k) l

  unfoldable pub loop_io : Pexec → Run Pexec
  unfolding watch watcher
  loop_io s = do
    (l, s1) ← create os watcher (record s { proc_killed = false; user_stopped = false; status = 0 })
    l1 ← watch s1.pipe_close_watch.read_end close_watch l
    l2 ← watch s1.pipe_stdout.read_end out_watch l1
    l3 ← watch s1.pipe_stderr.read_end err_watch l2
    l4 ← watch s1.pipe_signal.read_end signal_watch l3
    (l5, s2) ← SelectEvent.loop os watcher fuel fuel l4 s1
    done (record s2 { log = destroy os watcher l5 s2 })
