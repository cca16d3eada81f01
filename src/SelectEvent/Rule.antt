-- ===== src/SelectEvent/Rule.antt =====
-- The rule for invariants of the event loop and its callbacks. An invariant may speak of the control
-- pipe and of the table of callbacks.
use pexec.Base.{
  refl, sym, subst, ℕ, zero, suc, Bool, true, false, Option, none, some, List, ◌≡◌, is_empty,
  Option-cases, Bool-cases, inl, inr,
}
use pexec.Run.{Run, done, Ensures, Ensures-bind}
use pexec.System.{
  Pipe, Os, ReadResult, got, read_failed, eintr, eagain, echild, other_errno, SelectResult, ready,
  select_failed, was_read, selected,
}
use pexec.SelectEvent.{
  Loop, Callback, control, client, Client, EventReturn, stop_loop, skip_other_fd, nothing, find,
  first_key, advance, read_control, after_control, after_callback, after_select, after_wait,
  dispatch, pass, wait_ready, loop, get_max_fd, add_read_event, is_none,
}

-- What the rule speaks of: the control pipe and the table of a loop.
abbrev pub Frame : Type 0 → Type 0
Frame K = Pipe × List (ℕ × Callback K)

abbrev pub frame : {K : Type 0} → Loop K → Frame K
frame l = (l.control_pipe, l.cbs)

module _ {ℓ} {X K : Type 0} (os : Os) (c : Client X K) (P : Frame K → X → Type ℓ) where
  -- Each action of the loop and of the client's callbacks keeps `P`.
  pub record IsKept : Type ℓ where
    pub kept_read :
        (q : Frame K) (fd : Option ℕ) (r : ReadResult) (x : X)
        → P q x
        → P q (c.emit (was_read fd r) x)
    pub kept_select : (q : Frame K) (r : SelectResult) (x : X) → P q x → P q (c.emit (selected r) x)
    pub kept_interrupt : (q : Frame K) (x : X) → P q x → P q (c.on_interrupt x).1
    pub kept_error : (q : Frame K) (x : X) → P q x → P q (c.on_error x)
    pub kept_call :
        (k : K) (fd : ℕ) (l : Loop K) (x : X)
        → P (frame l) x
        → Ensures (λ (r : EventReturn × Loop K × X). P (frame r.1) r.2) (c.call k fd l x)

module _ {K : Type 0} where
  frame-advance : (fd : ℕ) (l : Loop K) → frame (advance fd l) ≡ frame l
  unfolding advance
  frame-advance fd l = elim (Bool-cases l.actual_iterator_deleted) [
    | inl e ↦ rw (e, advance) refl
    | inr e ↦ rw (e, advance) refl
  ]

  pub control_pipe-add_read_event :
      (slot : List (ℕ × Callback K) → ℕ → ℕ) (fd : ℕ) (cb : Callback K) (l : Loop K)
      → Ensures (λ l1. l1.control_pipe ≡ l.control_pipe) (add_read_event slot fd cb l)
  unfolding add_read_event
  control_pipe-add_read_event slot fd cb l = elim (Bool-cases (is_none (find fd l.cbs))) [
    | inl e ↦ rw (e, add_read_event) refl
    | inr e ↦ rw (e, add_read_event) tt
  ]

  frame-get_max_fd : (l : Loop K) → frame (get_max_fd l).1 ≡ frame l
  unfolding get_max_fd
  frame-get_max_fd l = elim (Bool-cases l.recompute_max_fds) [
    | inl e ↦ rw (e, get_max_fd) refl
    | inr e ↦ rw (e, get_max_fd) refl
  ]

module _ {ℓ} {X K : Type 0} (os : Os) (c : Client X K) (P : Frame K → X → Type ℓ)
    (kept : IsKept os c P) where
  read_control-kept :
      (q : Frame K) (fuel fd : ℕ) (x : X) → P q x → Ensures (P q) (read_control os c fuel fd x)
  unfolding read_control
  read_control-kept q zero fd x p = tt
  read_control-kept q (suc fuel) fd x p =
      let r = os.read (c.log_of x) (some fd) 1 in
      let x1 = c.emit (was_read (some fd) r) x in
      let p1 = kept.kept_read q (some fd) r x p in
      step r x1 (read_control os c fuel fd x1) p1 (read_control-kept q fuel fd x1 p1)
    where
      step :
          (r : ReadResult) (x : X) (again : Run X)
          → P q x
          → Ensures (P q) again
          → Ensures (P q) (after_control os c r x again)
      step (got bytes) x again p a = p
      step (read_failed eintr) x again p a = a
      step (read_failed eagain) x again p a = tt
      step (read_failed echild) x again p a = tt
      step (read_failed other_errno) x again p a = tt

  dispatch-kept :
      (fuel : ℕ) (cb : Callback K) (fd : ℕ) (l : Loop K) (x : X)
      → P (frame l) x
      → Ensures (λ (r : EventReturn × Loop K × X). P (frame r.1) r.2) (dispatch os c fuel cb fd l x)
  unfolding dispatch
  dispatch-kept fuel control fd l x p =
      Ensures-bind (P (frame l)) _ (read_control os c fuel fd x) _
        (read_control-kept (frame l) fuel fd x p) λ x1 p1. kept.kept_interrupt (frame l) x1 p1
  dispatch-kept fuel (client k) fd l x p = kept.kept_call k fd l x p

  moved : (fd : ℕ) (l : Loop K) (x : X) → P (frame l) x → P (frame (advance fd l)) x
  moved fd l x p = subst (λ fr. P fr x) (sym (frame-advance fd l)) p

  pass-kept :
      (fuel tries : ℕ) (is_ready : ℕ → Bool) (l : Loop K) (x : X)
      → P (frame l) x
      → Ensures (λ (r : Bool × Loop K × X). P (frame r.1) r.2) (pass os c fuel tries is_ready l x)
  unfolding pass
  pass-kept zero tries is_ready l x p = tt
  pass-kept (suc fuel) tries is_ready l x p = elim (Option-cases l.actual_iterator) [
    | inl e ↦ rw (e, pass) p
    | inr (fd, e) ↦ elim (Option-cases (find fd l.cbs)) [
      | inl f ↦ rw (e, pass, f) tt
      | inr (cb, f) ↦ elim (Bool-cases (is_ready fd)) [
        | inl g ↦
            rw (e, pass, f, g)
              (Ensures-bind (λ (r : EventReturn × Loop K × X). P (frame r.1) r.2) _
                (dispatch os c tries cb fd l x) _ (dispatch-kept tries cb fd l x p)
                λ r q.
                  next r.0 r.1 r.2 _ q
                    (pass-kept fuel tries is_ready (advance fd r.1) r.2 (moved fd r.1 r.2 q)))
        | inr g ↦
            rw (e, pass, f, g) (pass-kept fuel tries is_ready (advance fd l) x (moved fd l x p))
      ]
    ]
  ]
    where
      next :
          (r : EventReturn) (l : Loop K) (x : X) (rest : Run (Bool × Loop K × X))
          → P (frame l) x
          → Ensures (λ (s : Bool × Loop K × X). P (frame s.1) s.2) rest
          → Ensures (λ (s : Bool × Loop K × X). P (frame s.1) s.2) (after_callback os c r l x rest)
      next stop_loop l x rest p q = p
      next skip_other_fd l x rest p q = p
      next nothing l x rest p q = q

  wait_ready-kept :
      (fuel : ℕ) (l : Loop K) (x : X)
      → P (frame l) x
      → Ensures
          (λ (r : Option (ℕ → Bool) × Loop K × X). P (frame r.1) r.2)
          (wait_ready os c fuel l x)
  unfolding wait_ready
  wait_ready-kept zero l x p = tt
  wait_ready-kept (suc fuel) l x p = elim (Bool-cases (is_empty l.cbs)) [
    | inl e ↦ rw (e, wait_ready) p
    | inr e ↦
        let r = os.select (c.log_of x) in
        let x1 = c.emit (selected r) x in
        let l1 = (get_max_fd l).1 in
        let p1 : P (frame l1) x1 =
          subst (λ fr. P fr x1) (sym (frame-get_max_fd l)) (kept.kept_select (frame l) r x p) in
        rw (e, wait_ready)
          (step r (get_max_fd l).0 l1 x1 (wait_ready os c fuel l1 x1) p1
            (wait_ready-kept fuel l1 x1 p1))
  ]
    where
      step :
          (r : SelectResult) (m : Option ℕ) (l : Loop K) (x : X)
          (again : Run (Option (ℕ → Bool) × Loop K × X))
          → P (frame l) x
          → Ensures (λ (s : Option (ℕ → Bool) × Loop K × X). P (frame s.1) s.2) again
          → Ensures
              (λ (s : Option (ℕ → Bool) × Loop K × X). P (frame s.1) s.2)
              (after_select os c r m l x again)
      step (ready s) m l x again p q = p
      step (select_failed eintr) m l x again p q = q
      step (select_failed eagain) m l x again p q = kept.kept_error (frame l) x p
      step (select_failed echild) m l x again p q = kept.kept_error (frame l) x p
      step (select_failed other_errno) m l x again p q = kept.kept_error (frame l) x p

  after_wait-kept :
      (tries : ℕ) (o : Option (ℕ → Bool)) (l : Loop K) (x : X)
      (again : Loop K → X → Run (Loop K × X))
      → P (frame l) x
      → ((l : Loop K) (x : X)
          → P (frame l) x
          → Ensures (λ (r : Loop K × X). P (frame r.0) r.1) (again l x))
      → Ensures (λ (r : Loop K × X). P (frame r.0) r.1) (after_wait os c tries o l x again)
  unfolding after_wait
  after_wait-kept tries none l x again p q = p
  after_wait-kept tries (some is_ready) l x again p q =
      let l1 : Loop K = record l { actual_iterator = first_key l.cbs } in
      Ensures-bind (λ (r : Bool × Loop K × X). P (frame r.1) r.2) _
        (pass os c tries tries is_ready l1 x) _ (pass-kept tries tries is_ready l1 x p)
        λ r k. stopped r.0 r.1 r.2 k
    where
      stopped :
          (stop : Bool) (l : Loop K) (x : X)
          → P (frame l) x
          → Ensures
              (λ (r : Loop K × X). P (frame r.0) r.1)
              (elim stop [ true ↦ done (l, x) | false ↦ again l x ])
      stopped true l x k = k
      stopped false l x k = q l x k

  -- What every callback and the error callback keep, `loop` keeps, whatever the system answers.
  pub loop-kept :
      (fuel tries : ℕ) (l : Loop K) (x : X)
      → P (frame l) x
      → Ensures (λ (r : Loop K × X). P (frame r.0) r.1) (loop os c fuel tries l x)
  unfolding loop
  loop-kept zero tries l x p = tt
  loop-kept (suc fuel) tries l x p =
      Ensures-bind (λ (r : Option (ℕ → Bool) × Loop K × X). P (frame r.1) r.2) _
        (wait_ready os c tries l x) _ (wait_ready-kept tries l x p)
        λ r q. after_wait-kept tries r.0 r.1 r.2 _ q (loop-kept fuel tries)
