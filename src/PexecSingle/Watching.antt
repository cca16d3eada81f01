-- ===== src/PexecSingle/Watching.antt =====
-- The same balance through the event loop of a blocking call, with its own control pipe.
use pexec.Base.{
  ℕ, false, Option, none, some, [], ◌∷◌, ◌≡◌, refl, ◌∙◌, arith, Option-cases, inl, inr,
}
use pexec.Run.{Ensures, Ensures-bind, Ensures-imp}
use pexec.SelectEvent
use pexec.SelectEvent.{
  EventReturn, stop_loop, skip_other_fd, nothing, Callback, Client, add_read_event, create, destroy,
  interrupt_event, is_none, find, control,
}
use pexec.SelectEvent.Rule.{Frame, IsKept, control_pipe-add_read_event, loop-kept}
use pexec.System.{Pipe, opened, was_read, selected, wrote, on_stdout, on_stderr}
use pexec.System.Ledger.{holds}
use pexec.Util.Close.{close_pipe_lem}
use pexec.PexecSingle.State.{Pexec, emit}
use pexec.PexecSingle.Reading.{read_stdout, read_stderr}
use pexec.PexecSingle.Loop.{
  Watch, close_watch, out_watch, err_watch, signal_watch, Setting, interrupt_after, call, watcher,
  watch, loop_io,
}
use pexec.PexecSingle.Closing.{finals-close_pipe}
use pexec.PexecSingle.Quiet.{
  Watched, Wr, emit-Watched, process_error-Watched, read_close-Watched, read_std-Watched,
}
use pexec.PexecSingle.Handling.{on_signal-Watched}

module _ (c : Setting) (n : ℕ) (s : Pexec) where
  open c use {os, buffer_size, fuel, slot}

  -- With the loop's control pipe `q` open as well.
  abbrev Beside : Pipe → Pexec → Type 0
  Beside q = Watched n s (holds n q)

  interrupt-Watched :
      (extra : ℕ) (l : SelectEvent.Loop Watch) (r : EventReturn) (t : Pexec)
      → Watched n s extra t
      → Watched n s extra (interrupt_after c l r t)
  unfolding interrupt_after interrupt_event
  interrupt-Watched extra l nothing t w =
      emit-Watched n s extra (wrote l.control_pipe.write_end (0 ∷ [])) t
        (λ n log. (refl, refl, refl)) w
  interrupt-Watched extra l stop_loop t w = w
  interrupt-Watched extra l skip_other_fd t w = w

  abbrev AfterCall : EventReturn × SelectEvent.Loop Watch × Pexec → Type 0
  AfterCall r = Beside r.1.control_pipe r.2

  call-Watched :
      (k : Watch) (fd : ℕ) (l : SelectEvent.Loop Watch) (t : Pexec)
      → Beside l.control_pipe t
      → Ensures AfterCall (call c k fd l t)
  unfolding call read_stdout read_stderr
  call-Watched close_watch fd l t w =
      let q = holds n l.control_pipe in
      Ensures-bind (Wr n s q) AfterCall _ _ (read_close-Watched n s q os buffer_size fuel t w)
        λ r w1. interrupt-Watched q l r.0 r.1 w1
  call-Watched out_watch fd l t w =
      let q = holds n l.control_pipe in
      Ensures-bind (Wr n s q) AfterCall _ _
        (read_std-Watched n s q os buffer_size fuel t.pipe_stdout.read_end on_stdout _ t
          (λ b n log. (refl, refl, refl)) w)
        λ r w1. w1
  call-Watched err_watch fd l t w =
      let q = holds n l.control_pipe in
      Ensures-bind (Wr n s q) AfterCall _ _
        (read_std-Watched n s q os buffer_size fuel t.pipe_stderr.read_end on_stderr _ t
          (λ b n log. (refl, refl, refl)) w)
        λ r w1. w1
  call-Watched signal_watch fd l t w =
      let q = holds n l.control_pipe in
      Ensures-bind (Wr n s q) AfterCall _ _ (on_signal-Watched c n s q t w) λ r w1. w1

  abbrev InFrame : Frame Watch → Pexec → Type 0
  InFrame fr t = Beside fr.0 t

  watcher-IsKept : IsKept os (watcher c) InFrame
  unfolding watcher
  watcher-IsKept = record {
    kept_read = λ q fd r t w.
        emit-Watched n s (holds n q.0) (was_read fd r) t (λ n log. (refl, refl, refl)) w;
    kept_select =
        λ q r t w. emit-Watched n s (holds n q.0) (selected r) t (λ n log. (refl, refl, refl)) w;
    kept_interrupt = λ q t w. ground arith;
    kept_error = λ q t w. process_error-Watched n s (holds n q.0) _ t w;
    kept_call = call-Watched;
  }

  opened-Beside :
      (r k : ℕ) (t : Pexec)
      → Watched n s 0 t
      → Beside (record { read_end = some r; write_end = some k }) (emit (opened r k) t)
  opened-Beside r k t w = ground arith

  create-Beside :
      (t : Pexec)
      → Watched n s 0 t
      → Ensures
          (λ (r : SelectEvent.Loop Watch × Pexec). Beside r.0.control_pipe r.1)
          (create os (watcher c) t)
  unfolding create watcher
  create-Beside t w = elim (Option-cases (os.pipe2 t.log)) [
    | inl e ↦ rw (e, create) tt
    | inr ((r, k), e) ↦
        rw (e, create)
          (let q : Pipe = record { read_end = some r; write_end = some k } in
            Ensures-bind (λ (l : SelectEvent.Loop Watch). l.control_pipe ≡ q) _ _ _
              (control_pipe-add_read_event slot r control _) λ l h. rw h (opened-Beside r k t w))
  ]

  watch-Beside :
      (o : Option ℕ) (k : Watch) (l : SelectEvent.Loop Watch) (t : Pexec)
      → Beside l.control_pipe t
      → Ensures (λ (l1 : SelectEvent.Loop Watch). Beside l1.control_pipe t) (watch c o k l)
  unfolding watch
  watch-Beside none k l t w = tt
  watch-Beside (some fd) k l t w =
      Ensures-imp (λ (l1 : SelectEvent.Loop Watch). l1.control_pipe ≡ l.control_pipe) _ _
        (control_pipe-add_read_event slot fd (Callback.client k) l) λ l1 h. rw h w

  destroy-Watched :
      (l : SelectEvent.Loop Watch) (t : Pexec)
      → Beside l.control_pipe t
      → Watched n s 0 (record t { log = destroy os (watcher c) l t })
  unfolding destroy watcher
  destroy-Watched l t w =
      let (more, same, _, _) = close_pipe_lem n t.log l.control_pipe in
      let f = finals-close_pipe t.log l.control_pipe in
      record {
        owns = omega (arith, more, same, w.owns);
        is_blocking = w.is_blocking;
        same_finals = f ∙ w.same_finals;
      }

  pub loop_io-Watched : (t : Pexec) → Watched n s 0 t → Ensures (Watched n s 0) (loop_io c t)
  unfolding loop_io
  loop_io-Watched t w =
      let t0 : Pexec = record t { proc_killed = false; user_stopped = false; status = 0 } in
      let w0 : Watched n s 0 t0 = ground arith in
      Ensures-bind _ _ _ _ (create-Beside t0 w0) λ (l, t1) w1.
        Ensures-bind _ _ _ _ (watch-Beside t1.pipe_close_watch.read_end close_watch l t1 w1)
          λ l1 w2.
            Ensures-bind _ _ _ _ (watch-Beside t1.pipe_stdout.read_end out_watch l1 t1 w2) λ l2 w3.
              Ensures-bind _ _ _ _ (watch-Beside t1.pipe_stderr.read_end err_watch l2 t1 w3)
                λ l3 w4.
                  Ensures-bind _ _ _ _ (watch-Beside t1.pipe_signal.read_end signal_watch l3 t1 w4)
                    λ l4 w5.
                      Ensures-bind _ _ _ _
                        (loop-kept os (watcher c) InFrame watcher-IsKept fuel fuel l4 t1 w5)
                        λ (l5, t2) w6. destroy-Watched l5 t2 w6
