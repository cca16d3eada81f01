-- ===== src/PexecSingle/Ends.antt =====
-- A blocking call of `exec` returns.
use pexec.Base.{
  ℕ, true, false, Option, none, some, [], ◌==◌, ◌≡◌, refl, sym, ◌∙◌, ap, subst, arith, length,
}
use pexec.ProcStatus.Wait.{IsWait}
use pexec.Run.{Returns, Returns-bind, Returns-imp}
use pexec.SelectEvent
use pexec.SelectEvent.{Callback, Client, find, create, add_read_event, loop}
use pexec.SelectEvent.Ends.{Idle}
use pexec.SelectEvent.Insert.{Added, find-nil, absent, add_read_event-Returns}
use pexec.SelectEvent.Rounds.{loop-Returns}
use pexec.SelectEvent.Table.{IsDistinct}
use pexec.System.{Event, opened}
use pexec.PexecSingle.State.{Pexec, blocking, emit}
use pexec.PexecSingle.Loop.{
  Setting, Watch, close_watch, out_watch, err_watch, signal_watch, watcher, watch, loop_io,
}
use pexec.PexecSingle.Ending.{Cooperates, Later}
use pexec.PexecSingle.Prompt.{Suffices, IsTable, awaited, awaited-Prompt}

-- Where a blocking object reads, and where its loop's control pipe will be read: five descriptors.
pub record Reads (c : Setting) (s : Pexec) (control at_close out err sig : ℕ) : Type 0 where
  pub blocks : s.type ≡ blocking
  pub reads_close : s.pipe_close_watch.read_end ≡ some at_close
  pub reads_out : s.pipe_stdout.read_end ≡ some out
  pub reads_err : s.pipe_stderr.read_end ≡ some err
  pub reads_sig : s.pipe_signal.read_end ≡ some sig
  pub next_pipe : (w : ℕ) × (c.os.pipe2 s.log ≡ some (control, w))
  pub control_close : (at_close == control) ≡ false
  pub control_out : (out == control) ≡ false
  pub control_err : (err == control) ≡ false
  pub control_sig : (sig == control) ≡ false
  pub close_out : (out == at_close) ≡ false
  pub close_err : (err == at_close) ≡ false
  pub close_sig : (sig == at_close) ≡ false
  pub out_err : (err == out) ≡ false
  pub out_sig : (sig == out) ≡ false
  pub err_sig : (sig == err) ≡ false

module _ (c : Setting) (sig control n limit : ℕ) (h : Cooperates c sig control n limit)
    (f : Suffices c n limit) (waits : IsWait c.macros) (s : Pexec) (at_close out err : ℕ)
    (reads : Reads c s control at_close out err sig) where
  open c use {os, macros, buffer_size, sigchld, slot, fuel}

  -- The table after the five calls of `add_read_event`.
  five-IsTable :
      (l0 l1 l2 l3 l4 l5 : SelectEvent.Loop Watch)
      → l0.cbs ≡ []
      → Added control Callback.control l0 l1
      → Added at_close (Callback.client close_watch) l1 l2
      → Added out (Callback.client out_watch) l2 l3
      → Added err (Callback.client err_watch) l3 l4
      → Added sig (Callback.client signal_watch) l4 l5
      → IsTable c sig control n limit h f waits l5.cbs
  five-IsTable l0 l1 l2 l3 l4 l5 e a1 a2 a3 a4 a5 = record {
    distinct = a5.distinct;
    five =
        omega (arith, ap (λ t. length t) e, a1.longer, a2.longer, a3.longer, a4.longer, a5.longer);
    at_control = λ fd q. ground (
      arith,
      q,
      ap (λ t. find fd t) e,
      find-nil {K = Watch} fd,
      a1.found fd,
      a2.found fd,
      a3.found fd,
      a4.found fd,
      a5.found fd,
    );
    at_signal = ground (arith, a5.found sig);
  }

  watch-Returns :
      (o : Option ℕ) (fd : ℕ) (k : Watch) (l : SelectEvent.Loop Watch)
      → o ≡ some fd
      → IsDistinct l.cbs
      → find fd l.cbs ≡ none
      → Returns (Added fd (Callback.client k) l) (watch c o k l)
  unfolding watch
  watch-Returns o fd k l e d m =
      subst (λ o. Returns (Added fd (Callback.client k) l) (watch c o k l)) (sym e)
        (add_read_event-Returns slot fd (Callback.client k) l d m)

  -- The loop with no callback yet.
  abbrev Empty : SelectEvent.Loop Watch → Type 0
  Empty l = (l.cbs ≡ []) × (l.actual_iterator_deleted ≡ false) × (l.recompute_max_fds ≡ true)

  abbrev empty : ℕ → SelectEvent.Loop Watch
  empty w = record {
    control_pipe = record { read_end = some control; write_end = some w };
    cbs = [];
    actual_iterator = none;
    actual_iterator_deleted = false;
    recompute_max_fds = true;
    max_fd = none;
  }

  -- The loop with its own callback, and the pipe in the log.
  abbrev Created : Pexec → SelectEvent.Loop Watch × Pexec → Type 0
  Created t r =
      (l0 : SelectEvent.Loop Watch) × Empty l0
      × Added control Callback.control l0 r.0
      × (w : ℕ) × (r.1 ≡ emit (opened control w) t)

  create-Returns : (t : Pexec) → t.log ≡ s.log → Returns (Created t) (create os (watcher c) t)
  unfolding create watcher
  create-Returns t e =
      let (w, next) = reads.next_pipe in
      let made : os.pipe2 t.log ≡ some (control, w) = ap os.pipe2 e ∙ next in
      rw (made, create)
        (Returns-bind (Added control Callback.control (empty w)) (Created t)
          (add_read_event slot control Callback.control (empty w)) _
          (add_read_event-Returns slot control Callback.control (empty w) tt (find-nil control))
          λ l a. (empty w, (refl, refl, refl), a, w, refl))

  -- Before the loop runs.
  begin : Pexec
  begin = record s { proc_killed = false; user_stopped = false; status = 0 }

  -- The same descriptors as at the beginning.
  record Begun (t : Pexec) : Type 0 where
    pub later : Later sig t t
    pub same_close : t.pipe_close_watch.read_end ≡ some at_close
    pub same_out : t.pipe_stdout.read_end ≡ some out
    pub same_err : t.pipe_stderr.read_end ≡ some err

  emit-Begun : (e : Event) → Begun (emit e begin)
  unfolding begin
  emit-Begun e = record {
    later = record {
      is_blocking = reads.blocks;
      at_signal = reads.reads_sig;
      not_less = omega arith;
    };
    same_close = reads.reads_close;
    same_out = reads.reads_out;
    same_err = reads.reads_err;
  }

  -- The table is full: the loop runs.
  full-Returns :
      (l0 l1 l2 l3 l4 l5 : SelectEvent.Loop Watch) (t : Pexec)
      → Empty l0
      → Added control Callback.control l0 l1
      → Added at_close (Callback.client close_watch) l1 l2
      → Added out (Callback.client out_watch) l2 l3
      → Added err (Callback.client err_watch) l3 l4
      → Added sig (Callback.client signal_watch) l4 l5
      → Begun t
      → Returns
          (λ (r : SelectEvent.Loop Watch × Pexec). r.1.type ≡ blocking)
          (loop os (watcher c) fuel fuel l5 t)
  full-Returns l0 l1 l2 l3 l4 l5 t e a1 a2 a3 a4 a5 b =
      let table = five-IsTable l0 l1 l2 l3 l4 l5 e.0 a1 a2 a3 a4 a5 in
      let idle : Idle (awaited c sig control n limit h f waits l5.cbs) l5 = record {
        table = refl;
        flag_down = a5.same_flag ∙ a4.same_flag ∙ a3.same_flag ∙ a2.same_flag ∙ a1.same_flag ∙ e.1;
        recompute =
            a5.same_recompute ∙ a4.same_recompute ∙ a3.same_recompute ∙ a2.same_recompute
            ∙ a1.same_recompute ∙ e.2;
      } in
      Returns-imp (λ (r : SelectEvent.Loop Watch × Pexec). Later sig r.1 r.1)
        (λ (r : SelectEvent.Loop Watch × Pexec). r.1.type ≡ blocking)
        (loop os (watcher c) fuel fuel l5 t)
        (loop-Returns (awaited c sig control n limit h f waits l5.cbs)
          (awaited-Prompt c sig control n limit h f waits l5.cbs table) fuel l5 t idle b.later
          (omega (arith, f.for_table)) (omega (arith, f.for_rounds)))
        λ r w. w.is_blocking

  pub loop_io-Returns : Returns (λ t. t.type ≡ blocking) (loop_io c s)
  unfolding loop_io begin
  loop_io-Returns =
      Returns-bind (Created begin) B (create os (watcher c) begin) _ (create-Returns begin refl)
        λ (l1, s1) (l0, e, a1, w, q).
          let none0 : (g : ℕ) → find g l0.cbs ≡ none = λ g. ap (λ t. find g t) e.0 ∙ find-nil g in
          let b : Begun s1 = subst Begun (sym q) (emit-Begun (opened control w)) in
          Returns-bind (Added at_close (Callback.client close_watch) l1) B _ _
            (watch-Returns _ at_close close_watch l1 b.same_close a1.distinct
              (absent at_close control _ l0 l1 a1 reads.control_close (none0 at_close)))
            λ l2 a2.
              Returns-bind (Added out (Callback.client out_watch) l2) B _ _
                (watch-Returns _ out out_watch l2 b.same_out a2.distinct (
                  absent out at_close _ l1 l2 a2 reads.close_out
                    (absent out control _ l0 l1 a1 reads.control_out (none0 out))))
                λ l3 a3.
                  Returns-bind (Added err (Callback.client err_watch) l3) B _ _
                    (watch-Returns _ err err_watch l3 b.same_err a3.distinct (
                      absent err out _ l2 l3 a3 reads.out_err (
                        absent err at_close _ l1 l2 a2 reads.close_err
                          (absent err control _ l0 l1 a1 reads.control_err (none0 err)))))
                    λ l4 a4.
                      Returns-bind (Added sig (Callback.client signal_watch) l4) B _ _
                        (watch-Returns _ sig signal_watch l4 b.later.at_signal a4.distinct (
                          absent sig err _ l3 l4 a4 reads.err_sig (
                            absent sig out _ l2 l3 a3 reads.out_sig (
                              absent sig at_close _ l1 l2 a2 reads.close_sig
                                (absent sig control _ l0 l1 a1 reads.control_sig (none0 sig))))))
                        λ l5 a5.
                          Returns-bind (λ (r : SelectEvent.Loop Watch × Pexec). r.1.type ≡ blocking)
                            B (loop os (watcher c) fuel fuel l5 s1) _
                            (full-Returns l0 l1 l2 l3 l4 l5 s1 e a1 a2 a3 a4 a5 b) λ r k. k
    where
      B : Pexec → Type 0
      B t = t.type ≡ blocking
