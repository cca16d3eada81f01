-- ===== src/SelectEvent/Rounds.antt =====
-- The wait for the next round, and all rounds: the rule by which `loop` returns.
use pexec.Base.{
  refl, arith, ap, ap₂, sym, ◌∙◌, ◌≡◌, ◌≢◌, ◌≤◌, ◌<◌, ◌+◌, ℕ, zero, suc, Bool, true, false, ◌&&◌,
  not, Option, none, some, List, [], ◌∷◌, is_empty, leq-cases, inl, inr, subst,
}
use pexec.Run.{Run, done, Returns, Returns-bind, Returns-imp}
use pexec.System.{
  Errno, eintr, eagain, echild, other_errno, SelectResult, ready, select_failed, selected, selects,
  interrupted,
}
use pexec.SelectEvent.{
  Loop, Callback, find, first_key, after_select, after_wait, pass, wait_ready, loop, get_max_fd,
  is_none, watched,
}
use pexec.SelectEvent.MaxFd.{get_max_fd-watched}
use pexec.SelectEvent.Sweep.{Standing, find-first_key}
use pexec.SelectEvent.Table.{from, from-first_key}
use pexec.SelectEvent.Ends.{Awaited, Prompt, Idle, Passed, pass-Returns}

module _ {X K : Type 0} (aw : Awaited X K) where
  open aw use {os, c, holds, cbs, tries, fd0, n, limit}

  -- What waiting leaves: one more call of `select` at least, and the awaited descriptor reported if
  -- the time had come.
  record Waited (x : X) (r : Option (ℕ → Bool) × Loop K × X) : Type 0 where
    pub idle : Idle aw r.1
    pub kept : holds r.2
    pub more : (f : ℕ → Bool) → r.0 ≡ some f → suc (selects (c.log_of x)) ≤ selects (c.log_of r.2)
    pub up : n ≤ selects (c.log_of x) → (f : ℕ → Bool) → r.0 ≡ some f → f fd0 ≡ true

  -- What waiting takes as ready includes the awaited descriptor.
  Reports : Option (ℕ → Bool) → Type 0
  Reports none = Unit
  Reports (some f) = f fd0 ≡ true

  get_max_fd-Idle : (l : Loop K) → Idle aw l → Idle aw (get_max_fd l).1
  unfolding get_max_fd
  get_max_fd-Idle l i = ground (arith, i.table, i.flag_down, i.recompute)

  -- Of the descriptors that `select` reports, the awaited one is taken as ready.
  watched_awaited :
      (s : ℕ → Bool) (l : Loop K)
      → Idle aw l
      → find fd0 cbs ≢ none
      → s fd0 ≡ true
      → watched s (get_max_fd l).0 (get_max_fd l).1.cbs fd0 ≡ true
  watched_awaited s l i there up =
      let j = get_max_fd-Idle l i in
      let same : (get_max_fd l).1.cbs ≡ l.cbs = j.table ∙ sym i.table in
      let in_table : not (is_none (find fd0 l.cbs)) ≡ true =
        rw i.table (is_some (find fd0 cbs) there) in
      ap (λ es. watched s (get_max_fd l).0 es fd0) same
      ∙ get_max_fd-watched s l fd0 i.recompute
      ∙ ap₂ (λ a b. a && b) up in_table
    where
      is_some : (o : Option (Callback K)) → o ≢ none → not (is_none o) ≡ true
      is_some none h = absurd (h refl)
      is_some (some cb) h = unfold is_none in refl

  module _ (p : Prompt aw) where
    once :
        (r : SelectResult) (x : X)
        → selects (c.log_of (c.emit (selected r) x)) ≡ suc (selects (c.log_of x))
    once r x = ap selects (p.emits (selected r) x)

    failed :
        (e : Errno) (l : Loop K) (x : X)
        → Idle aw l
        → holds x
        → Waited x (none, (get_max_fd l).1, c.on_error (c.emit (selected (select_failed e)) x))
    failed e l x i k = record {
      idle = get_max_fd-Idle l i;
      kept = p.kept_error _ (p.kept_select (select_failed e) x k);
      more = λ f q. cc;
      up = λ late f q. cc;
    }

    -- After a call of `select` that gave `r`; `again` is the next attempt.
    after_select-Returns :
        (r : SelectResult) (l : Loop K) (x : X) (again : Run (Option (ℕ → Bool) × Loop K × X))
        → os.select (c.log_of x) ≡ r
        → Idle aw l
        → holds x
        → (r ≡ select_failed eintr → Returns (Waited (c.emit (selected r) x)) again)
        → Returns
            (Waited x)
            (after_select os c r (get_max_fd l).0 (get_max_fd l).1 (c.emit (selected r) x) again)
    unfolding after_select Reports
    after_select-Returns (ready s) l x again e i k h = record {
      idle = get_max_fd-Idle l i;
      kept = p.kept_select (ready s) x k;
      more = λ f q. rw (p.emits (selected (ready s)) x) (omega arith);
      up = λ late f q.
          subst (λ o. Reports o) q
            (watched_awaited s l i p.present (p.reported (c.log_of x) s late e));
    }
    after_select-Returns (select_failed eintr) l x again e i k h =
        Returns-imp (Waited (c.emit (selected (select_failed eintr)) x)) (Waited x) again (h refl)
          λ t w. record {
            idle = w.idle;
            kept = w.kept;
            more = λ f q. omega (arith, once (select_failed eintr) x, w.more f q);
            up = λ late. w.up (omega (arith, once (select_failed eintr) x, late));
          }
    after_select-Returns (select_failed eagain) l x again e i k h = failed eagain l x i k
    after_select-Returns (select_failed echild) l x again e i k h = failed echild l x i k
    after_select-Returns (select_failed other_errno) l x again e i k h = failed other_errno l x i k

    not_empty : (l : Loop K) → Idle aw l → is_empty l.cbs ≡ false
    unfolding find
    not_empty l i = ap is_empty i.table ∙ holds_one cbs p.present
      where
        holds_one : (es : List (ℕ × Callback K)) → find fd0 es ≢ none → is_empty es ≡ false
        holds_one [] h = absurd (h refl)
        holds_one (e ∷ es) h = refl

    wait_ready-Returns :
        (fuel : ℕ) (l : Loop K) (x : X)
        → Idle aw l
        → holds x
        → limit < fuel + interrupted (c.log_of x)
        → 0 < fuel
        → Returns (Waited x) (wait_ready os c fuel l x)
    unfolding wait_ready
    wait_ready-Returns zero l x i k f z = absurd (omega (arith, z))
    wait_ready-Returns (suc fuel) l x i k f z =
        let r = os.select (c.log_of x) in
        let again : r ≡ select_failed eintr
            → Returns (Waited (c.emit (selected r) x))
                (wait_ready os c fuel (get_max_fd l).1 (c.emit (selected r) x)) =
          λ e.
            let one : interrupted (c.log_of (c.emit (selected r) x))
                ≡ suc (interrupted (c.log_of x)) =
              ap interrupted (p.emits (selected r) x)
              ∙ ap (λ q. interrupted (selected q ∷ c.log_of x)) e in
            let below : interrupted (c.log_of x) < limit =
              elim (leq-cases limit (interrupted (c.log_of x))) [
                | inl y ↦ absurd (p.patient (c.log_of x) y e)
                | inr y ↦ y
              ] in
            wait_ready-Returns fuel (get_max_fd l).1 (c.emit (selected r) x) (get_max_fd-Idle l i)
              (p.kept_select r x k) (omega (arith, f, one)) (omega (arith, f, below)) in
        rw (not_empty l i, wait_ready) (after_select-Returns r l x _ refl i k again)

    -- The inner `while` and the next rounds, after the wait.
    after_wait-Returns :
        (fuel : ℕ) (x : X) (w : Option (ℕ → Bool) × Loop K × X)
        (again : Loop K → X → Run (Loop K × X))
        → Waited x w
        → n ≤ fuel + selects (c.log_of x)
        → ((l1 : Loop K) (x1 : X)
            → Idle aw l1
            → holds x1
            → 0 < fuel
            → n < fuel + selects (c.log_of x1)
            → Returns (λ (r : Loop K × X). holds r.1) (again l1 x1))
        → Returns (λ (r : Loop K × X). holds r.1) (after_wait os c tries w.0 w.1 w.2 again)
    unfolding after_wait
    after_wait-Returns fuel x (none, l1, x1) again w f h = w.kept
    after_wait-Returns fuel x (some g, l1, x1) again w f h =
        let l2 : Loop K = record l1 { actual_iterator = first_key l1.cbs } in
        let i : Idle aw l2 = ground (arith, w.idle.table, w.idle.flag_down, w.idle.recompute) in
        let t : Standing l2 = record {
          distinct = rw w.idle.table p.distinct;
          flag_down = w.idle.flag_down;
          here = λ fd e. find-first_key fd l1.cbs e;
        } in
        let all : from (first_key l1.cbs) l1.cbs ≡ cbs = from-first_key l1.cbs ∙ w.idle.table in
        Returns-bind (Passed aw g cbs x1) (λ (r : Loop K × X). holds r.1)
          (pass os c tries tries g l2 x1) _
          (subst (λ es. Returns (Passed aw g es x1) (pass os c tries tries g l2 x1)) all
            (pass-Returns aw p tries g l2 x1 i t w.kept (rw all p.small)))
          λ r q. next r.0 r.1 r.2 q
      where
        no_more : false ≡ true → ⊥
        no_more e = cc

        next :
            (stop : Bool) (l2 : Loop K) (x2 : X)
            → Passed aw g cbs x1 (stop, l2, x2)
            → Returns
                (λ (r : Loop K × X). holds r.1)
                (elim stop [ true ↦ done (l2, x2) | false ↦ again l2 x2 ])
        next true l2 x2 q = q.kept
        next false l2 x2 q = elim (leq-cases n (selects (c.log_of x))) [
          | inl late ↦
              absurd (
                no_more (q.stops (omega (arith, late, w.more g refl)) (w.up late g refl) p.present))
          | inr early ↦
              h l2 x2 q.idle q.kept (omega (arith, early, f))
                (omega (arith, early, f, w.more g refl, q.not_less))
        ]

    -- Loop
    pub loop-Returns :
        (fuel : ℕ) (l : Loop K) (x : X)
        → Idle aw l
        → holds x
        → 0 < fuel
        → n < fuel + selects (c.log_of x)
        → Returns (λ (r : Loop K × X). holds r.1) (loop os c fuel tries l x)
    unfolding loop
    loop-Returns zero l x i k z f = absurd (omega (arith, z))
    loop-Returns (suc fuel) l x i k z f =
        Returns-bind (Waited x) (λ (r : Loop K × X). holds r.1) (wait_ready os c tries l x) _
          (wait_ready-Returns tries l x i k (omega (arith, p.enough)) (omega (arith, p.enough)))
          λ w h.
            after_wait-Returns fuel x w (λ l1 x1. loop os c fuel tries l1 x1) h (omega (arith, f))
              (loop-Returns fuel)
