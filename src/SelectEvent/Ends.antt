-- ===== src/SelectEvent/Ends.antt =====
-- Total correctness of the loop: when `loop` returns. A client whose callbacks return, and of which
-- one stops the loop from some call of `select` on, makes the whole loop return.
use pexec.Base.{
  refl, arith, ap, sym, ◌∙◌, ◌≡◌, ◌≢◌, ◌≤◌, ◌<◌, ℕ, zero, suc, Bool, true, false, ◌==◌, none, some,
  List, [], ◌∷◌, length, Option-cases, Bool-cases, inl, inr, subst,
}
use pexec.Run.{Run, Returns, Returns-bind, Returns-imp}
use pexec.System.{
  Event, Os, Log, eintr, SelectResult, ready, select_failed, selected, selects, interrupted,
}
use pexec.SelectEvent.{
  Loop, Callback, Client, EventReturn, stop_loop, skip_other_fd, nothing, find, advance,
  after_callback, dispatch, pass,
}
use pexec.SelectEvent.Sweep.{Standing, from-find, advance-Standing}
use pexec.SelectEvent.Table.{IsDistinct, after, from}

-- What a loop waits for: the table `cbs` that no callback changes, an invariant `holds` of the
-- client's state, and the descriptor `fd0` that is reported each time once `select` has been called
-- `n` times. A call is interrupted at most `limit` times in a row; an attempt at one, or a pass, has
-- fuel `tries`.
pub record Awaited (X K : Type 0) : Type 1 where
  pub os : Os
  pub c : Client X K
  pub holds : X → Type 0
  pub cbs : List (ℕ × Callback K)
  pub tries : ℕ
  pub fd0 : ℕ
  pub n : ℕ
  pub limit : ℕ

module _ {X K : Type 0} (aw : Awaited X K) where
  open aw use {os, c, holds, cbs, tries, fd0, n, limit}

  -- What a callback at `fd` leaves: the loop as it was, no other descriptor skipped, and a request
  -- to stop if it is the one awaited and the time has come.
  pub record Good (fd : ℕ) (l : Loop K) (x : X) (r : EventReturn × Loop K × X) : Type 0 where
    pub same_loop : r.1 ≡ l
    pub kept : holds r.2
    pub not_less : selects (c.log_of x) ≤ selects (c.log_of r.2)
    pub no_skip : r.0 ≢ skip_other_fd
    pub stops : fd ≡ fd0 → n ≤ selects (c.log_of x) → r.0 ≡ stop_loop

  pub record Prompt : Type 0 where
    pub emits : (e : Event) (x : X) → c.log_of (c.emit e x) ≡ e ∷ c.log_of x
    pub kept_select : (r : SelectResult) (x : X) → holds x → holds (c.emit (selected r) x)
    pub kept_error : (x : X) → holds x → holds (c.on_error x)
    pub patient : (log : Log) → limit ≤ interrupted log → os.select log ≢ select_failed eintr
    pub reported :
        (log : Log) (s : ℕ → Bool) → n ≤ selects log → os.select log ≡ ready s → s fd0 ≡ true
    pub runs :
        (cb : Callback K) (fd : ℕ) (l : Loop K) (x : X)
        → find fd cbs ≡ some cb
        → holds x
        → Returns (Good fd l x) (dispatch os c tries cb fd l x)
    pub distinct : IsDistinct cbs
    pub present : find fd0 cbs ≢ none
    pub small : length cbs < tries
    pub enough : limit < tries

  -- The loop between two callbacks.
  pub record Idle (l : Loop K) : Type 0 where
    pub table : l.cbs ≡ cbs
    pub flag_down : l.actual_iterator_deleted ≡ false
    pub recompute : l.recompute_max_fds ≡ true

  -- What a pass leaves, if it began in `x` and had the elements `es` before it.
  pub record Passed (is_ready : ℕ → Bool) (es : List (ℕ × Callback K)) (x : X)
      (r : Bool × Loop K × X) : Type 0 where
    pub idle : Idle r.1
    pub kept : holds r.2
    pub not_less : selects (c.log_of x) ≤ selects (c.log_of r.2)
    pub stops : n ≤ selects (c.log_of x) → is_ready fd0 ≡ true → find fd0 es ≢ none → r.0 ≡ true

  advance-Idle : (fd : ℕ) (l : Loop K) → Idle l → Idle (advance fd l)
  unfolding advance
  advance-Idle fd l i = ground (arith, i.table, i.flag_down, i.recompute)

  -- A pass that has nothing left, or is told to stop.
  at_end :
      (is_ready : ℕ → Bool) (l : Loop K) (x : X)
      → Idle l
      → holds x
      → Passed is_ready [] x (false, l, x)
  unfolding find
  at_end is_ready l x i k = record {
    idle = i;
    kept = k;
    not_less = omega arith;
    stops = λ _ _ e. absurd (e refl);
  }

  -- The rest of a pass, seen from the element before it, of which the callback has run.
  behind :
      (is_ready : ℕ → Bool) (fd : ℕ) (cb : Callback K) (es : List (ℕ × Callback K)) (l : Loop K)
      (x : X) (r : EventReturn × Loop K × X) (rest : Run (Bool × Loop K × X))
      → Idle l
      → Good fd l x r
      → Returns (Passed is_ready es r.2) rest
      → Returns (Passed is_ready ((fd, cb) ∷ es) x) (after_callback os c r.0 r.1 r.2 rest)
  unfolding after_callback find
  behind is_ready fd cb es l x (stop_loop, l1, x1) rest i g h = record {
    idle = subst Idle (sym g.same_loop) i;
    kept = g.kept;
    not_less = g.not_less;
    stops = λ _ _ _. refl;
  }
  behind is_ready fd cb es l x (skip_other_fd, l1, x1) rest i g h = absurd (g.no_skip refl)
  behind is_ready fd cb es l x (nothing, l1, x1) rest i g h =
      Returns-imp (Passed is_ready es x1) (Passed is_ready ((fd, cb) ∷ es) x) rest h λ s q. record {
        idle = q.idle;
        kept = q.kept;
        not_less = omega (arith, g.not_less, q.not_less);
        stops = λ late up there. elim (Bool-cases (fd0 == fd)) [
          | inl e ↦ absurd (no_nothing (g.stops (ground (arith, e)) late))
          | inr e ↦ q.stops (omega (arith, late, g.not_less)) up (rw e at there)
        ];
      }
    where
      no_nothing : nothing ≡ stop_loop → ⊥
      no_nothing e = cc

  -- An element that is not ready.
  passed_over :
      (is_ready : ℕ → Bool) (fd : ℕ) (cb : Callback K) (es : List (ℕ × Callback K)) (x : X)
      (rest : Run (Bool × Loop K × X))
      → is_ready fd ≡ false
      → Returns (Passed is_ready es x) rest
      → Returns (Passed is_ready ((fd, cb) ∷ es) x) rest
  unfolding find
  passed_over is_ready fd cb es x rest f h =
      Returns-imp (Passed is_ready es x) (Passed is_ready ((fd, cb) ∷ es) x) rest h λ s q. record {
        idle = q.idle;
        kept = q.kept;
        not_less = q.not_less;
        stops = λ late up there. elim (Bool-cases (fd0 == fd)) [
          | inl e ↦ ground (arith, e, up, f)
          | inr e ↦ q.stops late up (rw e at there)
        ];
      }

  module _ (p : Prompt) where
    -- One element, given what the pass does behind it.
    element :
        (fuel : ℕ) (is_ready : ℕ → Bool) (fd : ℕ) (cb : Callback K) (es : List (ℕ × Callback K))
        (l : Loop K) (x : X)
        → l.actual_iterator ≡ some fd
        → find fd l.cbs ≡ some cb
        → Idle l
        → holds x
        → ((l1 : Loop K) (x1 : X)
            → l1 ≡ l
            → holds x1
            → Returns (Passed is_ready es x1) (pass os c fuel tries is_ready (advance fd l1) x1))
        → Returns (Passed is_ready ((fd, cb) ∷ es) x) (pass os c (suc fuel) tries is_ready l x)
    unfolding pass
    element fuel is_ready fd cb es l x e a i k rest = elim (Bool-cases (is_ready fd)) [
      | inl g ↦
          rw (e, pass, a, g)
            (Returns-bind (Good fd l x) (Passed is_ready ((fd, cb) ∷ es) x)
              (dispatch os c tries cb fd l x) _ (p.runs cb fd l x (rw (sym i.table) a) k)
              λ r h. behind is_ready fd cb es l x r _ i h (rest r.1 r.2 h.same_loop h.kept))
      | inr g ↦ rw (e, pass, a, g) (passed_over is_ready fd cb es x _ g (rest l x refl k))
    ]

    pub pass-Returns :
        (fuel : ℕ) (is_ready : ℕ → Bool) (l : Loop K) (x : X)
        → Idle l
        → Standing l
        → holds x
        → length (from l.actual_iterator l.cbs) < fuel
        → Returns
            (Passed is_ready (from l.actual_iterator l.cbs) x)
            (pass os c fuel tries is_ready l x)
    pass-Returns zero is_ready l x i s k f = absurd (omega (arith, f))
    pass-Returns (suc fuel) is_ready l x i s k f = elim (Option-cases l.actual_iterator) [
      | inl e ↦ unfold pass in unfold from in rw (e, pass, from) (at_end is_ready l x i k)
      | inr (fd, e) ↦ elim (Option-cases (find fd l.cbs)) [
        | inl a ↦ absurd (s.here fd e a)
        | inr (cb, a) ↦
            let (t, g, same) = advance-Standing fd l s in
            let split = ap (λ o. from o l.cbs) e ∙ from-find fd l.cbs cb a in
            let long : length ((fd, cb) ∷ after fd l.cbs) < suc fuel = rw split at f in
            let short : length (after fd l.cbs) < fuel = omega (arith, long) in
            let rest : (l1 : Loop K) (x1 : X)
                → l1 ≡ l
                → holds x1
                → Returns (Passed is_ready (after fd l.cbs) x1)
                    (pass os c fuel tries is_ready (advance fd l1) x1) =
              λ l1 x1 q k1.
                subst
                  (λ l2.
                    Returns (Passed is_ready (after fd l.cbs) x1)
                      (pass os c fuel tries is_ready (advance fd l2) x1))
                  (sym q)
                  (subst
                    (λ es.
                      Returns (Passed is_ready es x1)
                        (pass os c fuel tries is_ready (advance fd l) x1))
                    g
                    (pass-Returns fuel is_ready (advance fd l) x1 (advance-Idle fd l i) t k1
                      (rw g short))) in
            subst (λ es. Returns (Passed is_ready es x) (pass os c (suc fuel) tries is_ready l x))
              (sym split) (element fuel is_ready fd cb (after fd l.cbs) l x e a i k rest)
      ]
    ]
