-- ===== src/PexecSingle/Prompt.antt =====
-- The four callbacks of a blocking call and the loop's own: each returns, and the loop over them does.
use pexec.Base.{ℕ, ◌≤◌, ◌<◌, true, some, List, ◌≡◌, ◌≢◌, refl, sym, subst, arith, length}
use pexec.ProcStatus.Wait.{IsWait}
use pexec.Run.{Run, done, ◌>>=◌, Returns, Returns-bind}
use pexec.SelectEvent
use pexec.SelectEvent.{
  EventReturn, stop_loop, skip_other_fd, nothing, Callback, Client, find, dispatch, interrupt_event,
}
use pexec.SelectEvent.Control.{CanRead, dispatch-control-Returns}
use pexec.SelectEvent.Ends.{Awaited, Good, Prompt}
use pexec.SelectEvent.Table.{IsDistinct}
use pexec.System.{on_stdout, on_stderr}
use pexec.PexecSingle.State.{Pexec}
use pexec.PexecSingle.Reading.{read_close, read_stdout, read_stderr}
use pexec.PexecSingle.Loop.{
  Setting, Watch, close_watch, out_watch, err_watch, signal_watch, interrupt_after, on_signal, call,
  watcher,
}
use pexec.PexecSingle.Ending.{
  Cooperates, Later, was_read-Later, process_error-Later, Result, read_close-Returns,
  read_std-Returns,
}
use pexec.PexecSingle.News.{Signalled, on_signal-Returns}

-- The constants allow what the promises of the system ask for.
pub record Suffices (c : Setting) (n limit : ℕ) : Type 0 where
  pub buffer : 1 < c.buffer_size
  pub int_bytes : 0 < length c.sigchld
  pub for_bytes : length c.sigchld ≤ c.fuel
  pub for_table : 5 < c.fuel
  pub for_interrupts : limit < c.fuel
  pub for_rounds : n < c.fuel

module _ (c : Setting) (sig control n limit : ℕ) (h : Cooperates c sig control n limit)
    (f : Suffices c n limit) (waits : IsWait c.macros) where
  open c use {os, macros, buffer_size, sigchld, fuel}

  -- What `loop_io` waits for, with the table `cbs`.
  abbrev pub awaited : List (ℕ × Callback Watch) → Awaited Pexec Watch
  awaited cbs = record {
    os = os;
    c = watcher c;
    holds = λ s. Later sig s s;
    cbs = cbs;
    tries = fuel;
    fd0 = sig;
    n = n;
    limit = limit;
  }

  -- The table holds the five callbacks.
  pub record IsTable (cbs : List (ℕ × Callback Watch)) : Type 0 where
    pub distinct : IsDistinct cbs
    pub five : length cbs ≡ 5
    pub at_control : (fd : ℕ) → find fd cbs ≡ some Callback.control → fd ≡ control
    pub at_signal : find sig cbs ≡ some (Callback.client signal_watch)

  renew : (s t : Pexec) → Later sig s t → Later sig t t
  renew s t w = record {
    is_blocking = w.is_blocking;
    at_signal = w.at_signal;
    not_less = omega arith;
  }

  module _ (cbs : List (ℕ × Callback Watch)) (table : IsTable cbs) where
    abbrev Fine :
        ℕ → SelectEvent.Loop Watch → Pexec → EventReturn × SelectEvent.Loop Watch × Pexec → Type 0
    Fine = Good (awaited cbs)

    -- A callback of another descriptor than the awaited one.
    other :
        (fd : ℕ) (l : SelectEvent.Loop Watch) (s t : Pexec) (r : EventReturn)
        → fd ≢ sig
        → r ≢ skip_other_fd
        → Later sig s t
        → Fine fd l s (r, l, t)
    unfolding watcher
    other fd l s t r ne k w = record {
      same_loop = refl;
      kept = renew s t w;
      not_less = w.not_less;
      no_skip = k;
      stops = λ e. absurd (ne e);
    }

    not_awaited :
        (fd : ℕ) (k : Watch) → k ≢ signal_watch → find fd cbs ≡ some (Callback.client k) → fd ≢ sig
    not_awaited fd k ne e q = ne (cc (e, q, table.at_signal))

    interrupt_after-Later :
        (l : SelectEvent.Loop Watch) (r : EventReturn) (s t : Pexec)
        → Later sig s t
        → Later sig s (interrupt_after c l r t)
    unfolding interrupt_after interrupt_event
    interrupt_after-Later l nothing s t w = ground arith
    interrupt_after-Later l stop_loop s t w = w
    interrupt_after-Later l skip_other_fd s t w = w

    signalled :
        (fd : ℕ) (l : SelectEvent.Loop Watch) (s : Pexec) (r : EventReturn) (t : Pexec)
        → Signalled c sig control n limit h waits s (r, t)
        → Fine fd l s (r, l, t)
    unfolding Signalled watcher
    signalled fd l s r t q = record {
      same_loop = refl;
      kept = renew s t q.1;
      not_less = q.1.not_less;
      no_skip = q.0;
      stops = λ _. q.2;
    }

    read_callback-Returns :
        (fd : ℕ) (l : SelectEvent.Loop Watch) (s : Pexec) (run : Run (EventReturn × Pexec))
        (after : EventReturn → Pexec → Pexec)
        → fd ≢ sig
        → Returns (Result c sig control n limit h s) run
        → ((r : EventReturn) (t : Pexec) → Later sig s t → Later sig s (after r t))
        → Returns (Fine fd l s) (do (r, t) ← run; done (r, l, after r t))
    read_callback-Returns fd l s run after ne w k =
        Returns-bind (Result c sig control n limit h s) (Fine fd l s) run _ w
          λ r q. other fd l s (after r.0 r.1) r.0 ne q.0 (k r.0 r.1 q.1)

    call-Returns :
        (k : Watch) (fd : ℕ) (l : SelectEvent.Loop Watch) (s : Pexec)
        → find fd cbs ≡ some (Callback.client k)
        → Later sig s s
        → Returns (Fine fd l s) (call c k fd l s)
    unfolding call read_stdout read_stderr
    call-Returns close_watch fd l s e w =
        read_callback-Returns fd l s (read_close os buffer_size fuel s) (interrupt_after c l)
          (not_awaited fd close_watch (λ q. cc) e)
          (read_close-Returns c sig control n limit h fuel s s w (omega (arith, f.for_table))
            (omega (arith, f.for_interrupts)))
          (λ r t. interrupt_after-Later l r s t)
    call-Returns out_watch fd l s e w =
        read_callback-Returns fd l s (read_stdout os buffer_size fuel s) (λ r t. t)
          (not_awaited fd out_watch (λ q. cc) e)
          (read_std-Returns c sig control n limit h fuel s.pipe_stdout.read_end on_stdout _ s s
            f.buffer (λ log b. refl) w (omega (arith, f.for_table))
            (omega (arith, f.for_interrupts)))
          (λ r t k. k)
    call-Returns err_watch fd l s e w =
        read_callback-Returns fd l s (read_stderr os buffer_size fuel s) (λ r t. t)
          (not_awaited fd err_watch (λ q. cc) e)
          (read_std-Returns c sig control n limit h fuel s.pipe_stderr.read_end on_stderr _ s s
            f.buffer (λ log b. refl) w (omega (arith, f.for_table))
            (omega (arith, f.for_interrupts)))
          (λ r t k. k)
    call-Returns signal_watch fd l s e w =
        Returns-bind (Signalled c sig control n limit h waits s) (Fine fd l s) (on_signal c s) _
          (on_signal-Returns c sig control n limit h waits s w f.for_bytes f.int_bytes)
          λ r q. signalled fd l s r.0 r.1 q

    stopped_by_user : (s t : Pexec) → Later sig s t → Later sig s (record t { user_stopped = true })
    stopped_by_user s t k = ground (arith, k)

    runs :
        (cb : Callback Watch) (fd : ℕ) (l : SelectEvent.Loop Watch) (s : Pexec)
        → find fd cbs ≡ some cb
        → Later sig s s
        → Returns (Fine fd l s) (dispatch os (watcher c) fuel cb fd l s)
    unfolding dispatch watcher
    runs (Callback.client k) fd l s e w = call-Returns k fd l s e w
    runs Callback.control fd l s e w =
        subst (λ fd. Returns (Fine fd l s) (dispatch os (watcher c) fuel Callback.control fd l s))
          (sym (table.at_control fd e))
          (dispatch-control-Returns os (watcher c) (Later sig s) control limit at_pipe fuel l s
            (Fine control l s) w f.for_interrupts
            λ t k. record {
              same_loop = refl;
              kept = renew s _ (stopped_by_user s t k);
              not_less = k.not_less;
              no_skip = λ q. cc;
              stops = λ _ _. refl;
            })
      where
        at_pipe : CanRead Pexec Watch os (watcher c) (Later sig s) control limit
        at_pipe = record {
          emits = λ e x. refl;
          kept_read = λ r x. was_read-Later sig s (some control) r x;
          patient = λ log. h.patient_read log (some control) 1;
          only_eintr = h.control_read;
        }

    -- So the loop over the table returns.
    pub awaited-Prompt : Prompt (awaited cbs)
    unfolding watcher
    awaited-Prompt = record {
      emits = λ e x. refl;
      kept_select = λ r x w. ground (arith, w);
      kept_error = λ x w. renew x _ (process_error-Later sig x _ x w);
      patient = h.patient_select;
      reported = h.signal_reported;
      runs = runs;
      distinct = table.distinct;
      present = λ e. cc (e, table.at_signal);
      small = omega (arith, table.five, f.for_table);
      enough = f.for_interrupts;
    }
