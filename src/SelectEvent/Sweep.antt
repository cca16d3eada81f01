-- ===== src/SelectEvent/Sweep.antt =====
-- One pass of the loop over its table, against a plain recursion over the elements.
use pexec.Base.{
  ℕ, zero, suc, ◌<◌, Bool, true, false, Option, none, some, List, [], ◌∷◌, ◌≡◌, ◌≢◌, refl, sym, ◌∙◌,
  ap, arith, Option-cases, Bool-cases, inl, inr, length, subst,
}
use pexec.Run.{Run, done, fault, timeout, ◌>>=◌, Ensures, Ensures-bind}
use pexec.System.{Os}
use pexec.SelectEvent.{
  Loop, Callback, Client, EventReturn, stop_loop, skip_other_fd, nothing, find, first_key, next_key,
  advance, after_callback, dispatch, pass,
}
use pexec.SelectEvent.Table.{IsDistinct, after, from, from-next_key}

module _ {K : Type 0} where
  -- The iterator stands at an element or at the end.
  pub record Standing (l : Loop K) : Type 0 where
    pub distinct : IsDistinct l.cbs
    pub flag_down : l.actual_iterator_deleted ≡ false
    pub here : (fd : ℕ) → l.actual_iterator ≡ some fd → find fd l.cbs ≢ none

  pub from-find :
      (fd : ℕ) (cbs : List (ℕ × Callback K)) (cb : Callback K)
      → find fd cbs ≡ some cb
      → from (some fd) cbs ≡ (fd, cb) ∷ after fd cbs
  unfolding from find after
  from-find fd [] cb h = cc
  from-find fd ((k, cb') ∷ cbs) cb h = ground (arith, from-find fd cbs cb)

  pub find-first_key :
      (k : ℕ) (cbs : List (ℕ × Callback K)) → first_key cbs ≡ some k → find k cbs ≢ none
  unfolding find first_key
  find-first_key k [] h = cc
  find-first_key k ((j, cb) ∷ cbs) h = ground arith

  find-next_key :
      (fd k : ℕ) (cbs : List (ℕ × Callback K)) → next_key fd cbs ≡ some k → find k cbs ≢ none
  unfolding find next_key
  find-next_key fd k [] h = cc
  find-next_key fd k ((j, cb) ∷ cbs) h =
      ground (arith, find-next_key fd k cbs, find-first_key k cbs)

  pub advance-Standing :
      (fd : ℕ) (l : Loop K)
      → Standing l
      → Standing (advance fd l)
        × (from (advance fd l).actual_iterator (advance fd l).cbs ≡ after fd l.cbs)
        × ((advance fd l).cbs ≡ l.cbs)
  unfolding advance
  advance-Standing fd l s = rw s.flag_down (
    record { distinct = s.distinct; flag_down = refl; here = λ k e. find-next_key fd k l.cbs e },
    from-next_key fd l.cbs s.distinct,
    refl,
  )

  -- The table, the iterator and the flag are as they were; the rest of the loop may have changed.
  pub record Leaves (l l1 : Loop K) : Type 0 where
    pub same_cbs : l1.cbs ≡ l.cbs
    pub same_iterator : l1.actual_iterator ≡ l.actual_iterator
    pub same_flag : l1.actual_iterator_deleted ≡ l.actual_iterator_deleted

module _ {X K : Type 0} (os : Os) (c : Client X K) (tries : ℕ) where
  -- What the loop of `visit` and of a pass returns.
  abbrev Sweep : Type 0
  Sweep = Run (Bool × Loop K × X)

  -- A callback that returns leaves the table, the iterator and the flag alone.
  abbrev pub IsLeaving : Type 0
  IsLeaving =
      (cb : Callback K) (fd : ℕ) (l : Loop K) (x : X)
      → Ensures (λ q. Leaves l q.1) (dispatch os c tries cb fd l x)

  -- Whether to go on, after a callback that returned `r`.
  decide : EventReturn → Loop K → X → Sweep → Sweep
  decide stop_loop l x rest = done (true, l, x)
  decide skip_other_fd l x rest = done (false, l, x)
  decide nothing l x rest = rest

  module _ (is_ready : ℕ → Bool) where
    -- Each of the elements in turn, the iterator standing at it, until a callback stops the loop or
    -- skips the others, or does not return.
    unfoldable pub visit : List (ℕ × Callback K) → Loop K → X → Sweep
    unfolding decide
    visit [] l x = done (false, record l { actual_iterator = none }, x)
    visit ((fd, cb) ∷ es) l x =
        let l1 : Loop K = record l { actual_iterator = some fd } in
        elim (is_ready fd) [
          | false ↦ visit es l1 x
          | true ↦ do (r, l2, x2) ← dispatch os c tries cb fd l1 x; decide r l2 x2 (visit es l2 x2)
        ]

    -- Where the iterator stood before does not matter.
    visit-iterator :
        (es : List (ℕ × Callback K)) (o : Option ℕ) (l : Loop K) (x : X)
        → visit es (record l { actual_iterator = o }) x ≡ visit es l x
    unfolding visit
    visit-iterator [] o l x = refl
    visit-iterator ((fd, cb) ∷ es) o l x = refl

    bind-equal :
        {A : Type 0} (P : A → Type 0) (r : Run A) (f g : A → Sweep)
        → Ensures P r
        → ((a : A) → P a → f a ≡ g a)
        → (r >>= f) ≡ (r >>= g)
    bind-equal P (done a) f g h k = k a h
    bind-equal P fault f g h k = refl
    bind-equal P timeout f g h k = refl

    after_callback-decide :
        (r : EventReturn) (l : Loop K) (x : X) (run rest : Sweep)
        → run ≡ rest
        → after_callback os c r l x run ≡ decide r l x rest
    unfolding decide after_callback
    after_callback-decide stop_loop l x run rest e = refl
    after_callback-decide skip_other_fd l x run rest e = refl
    after_callback-decide nothing l x run rest e = e

    -- Behind an element, if the pass from there on is known.
    behind :
        (fuel fd : ℕ) (l : Loop K) (x : X)
        → Standing l
        → pass os c fuel tries is_ready (advance fd l) x
          ≡ visit (from (advance fd l).actual_iterator (advance fd l).cbs) (advance fd l) x
        → pass os c fuel tries is_ready (advance fd l) x ≡ visit (after fd l.cbs) l x
    unfolding advance
    behind fuel fd l x s e =
        let (_, f, same) = advance-Standing fd l s in
        let moved : advance fd l ≡ record l { actual_iterator = next_key fd l.cbs } =
          rw (s.flag_down, advance) refl in
        e
        ∙ ap (λ es. visit es (advance fd l) x) f
        ∙ ap (λ l1. visit (after fd l.cbs) l1 x) moved
        ∙ visit-iterator (after fd l.cbs) (next_key fd l.cbs) l x

    Standing-Leaves : (l l1 : Loop K) → Standing l → Leaves l l1 → Standing l1
    Standing-Leaves l l1 s q = record {
      distinct = subst (λ t. IsDistinct t) (sym q.same_cbs) s.distinct;
      flag_down = q.same_flag ∙ s.flag_down;
      here = λ fd e.
          subst (λ t. find fd t ≢ none) (sym q.same_cbs) (s.here fd (sym q.same_iterator ∙ e));
    }

    -- What comes behind a callback.
    go_on : List (ℕ × Callback K) → EventReturn × Loop K × X → Sweep
    go_on es (r, l, x) = decide r l x (visit es l x)

    visit-element :
        (b : Bool) (fd : ℕ) (cb : Callback K) (es : List (ℕ × Callback K)) (l : Loop K) (x : X)
        → is_ready fd ≡ b
        → l.actual_iterator ≡ some fd
        → elim b [ false ↦ visit es l x | true ↦ dispatch os c tries cb fd l x >>= go_on es ]
          ≡ visit ((fd, cb) ∷ es) l x
    unfolding visit go_on
    visit-element b fd cb es l x g e =
        let step : Bool → Loop K → Sweep = λ b l. elim b [
          | false ↦ visit es l x
          | true ↦ dispatch os c tries cb fd l x >>= go_on es
        ] in
        ap (λ o. step b (record l { actual_iterator = o })) e
        ∙ ap (λ b. step b (record l { actual_iterator = some fd })) (sym g)

    pass-step :
        (b : Bool) (fuel fd : ℕ) (cb : Callback K) (l : Loop K) (x : X)
        → is_ready fd ≡ b
        → l.actual_iterator ≡ some fd
        → find fd l.cbs ≡ some cb
        → pass os c (suc fuel) tries is_ready l x ≡ elim b [
          | false ↦ pass os c fuel tries is_ready (advance fd l) x
          | true ↦ do
            (r, l1, x1) ← dispatch os c tries cb fd l x
            let rest = pass os c fuel tries is_ready (advance fd l1) x1
            after_callback os c r l1 x1 rest
        ]
    unfolding pass
    pass-step b fuel fd cb l x g e n =
        let on : Bool → ℕ → Callback K → Sweep = λ b fd cb. elim b [
          | false ↦ pass os c fuel tries is_ready (advance fd l) x
          | true ↦ do
            (r, l1, x1) ← dispatch os c tries cb fd l x
            let rest = pass os c fuel tries is_ready (advance fd l1) x1
            after_callback os c r l1 x1 rest
        ] in
        let at : ℕ → Option (Callback K) → Sweep =
          λ fd o. elim o [ none ↦ fault | some cb ↦ on (is_ready fd) fd cb ] in
        let from_here : Option ℕ → Sweep =
          λ o. elim o [ none ↦ done (false, l, x) | some fd ↦ at fd (find fd l.cbs) ] in
        ap from_here e ∙ ap (at fd) n ∙ ap (λ b. on b fd cb) g

    -- One element, given what the pass does behind it from each state that a callback can leave.
    pass-element :
        (fuel fd : ℕ) (cb : Callback K) (l : Loop K) (x : X)
        → IsLeaving
        → l.actual_iterator ≡ some fd
        → find fd l.cbs ≡ some cb
        → ((l1 : Loop K) (x1 : X)
            → Leaves l l1
            → pass os c fuel tries is_ready (advance fd l1) x1 ≡ visit (after fd l.cbs) l1 x1)
        → pass os c (suc fuel) tries is_ready l x ≡ visit ((fd, cb) ∷ after fd l.cbs) l x
    unfolding go_on
    pass-element fuel fd cb l x h e n k =
        let itself : Leaves l l = record {
          same_cbs = refl;
          same_iterator = refl;
          same_flag = refl;
        } in
        elim (Bool-cases (is_ready fd)) [
          | inl g ↦
              pass-step true fuel fd cb l x g e n
              ∙ bind-equal (λ q. Leaves l q.1) (dispatch os c tries cb fd l x) _
                  (go_on (after fd l.cbs)) (h cb fd l x)
                  (λ q w. after_callback-decide q.0 q.1 q.2 _ _ (k q.1 q.2 w))
              ∙ visit-element true fd cb (after fd l.cbs) l x g e
          | inr g ↦
              pass-step false fuel fd cb l x g e n
              ∙ k l x itself
              ∙ visit-element false fd cb (after fd l.cbs) l x g e
        ]

    -- The visit leaves the table as it was.
    decide-cbs :
        (r : EventReturn) (l l0 : Loop K) (x : X) (rest : Sweep)
        → l.cbs ≡ l0.cbs
        → Ensures (λ q. q.1.cbs ≡ l0.cbs) rest
        → Ensures (λ q. q.1.cbs ≡ l0.cbs) (decide r l x rest)
    unfolding decide
    decide-cbs stop_loop l l0 x rest e h = e
    decide-cbs skip_other_fd l l0 x rest e h = e
    decide-cbs nothing l l0 x rest e h = h

    visit-cbs :
        (es : List (ℕ × Callback K)) (l l0 : Loop K) (x : X)
        → IsLeaving
        → l.cbs ≡ l0.cbs
        → Ensures (λ q. q.1.cbs ≡ l0.cbs) (visit es l x)
    unfolding visit
    visit-cbs [] l l0 x h e = e
    visit-cbs ((fd, cb) ∷ es) l l0 x h e =
        let l1 : Loop K = record l { actual_iterator = some fd } in
        elim (Bool-cases (is_ready fd)) [
          | inl g ↦
              rw (g, visit)
                (Ensures-bind (λ q. Leaves l1 q.1) (λ q. q.1.cbs ≡ l0.cbs)
                  (dispatch os c tries cb fd l1 x) _ (h cb fd l1 x)
                  (λ q w.
                    let same = w.same_cbs ∙ e in
                    decide-cbs q.0 q.1 l0 q.2 _ same (visit-cbs es q.1 l0 q.2 h same)))
          | inr g ↦ rw (g, visit) (visit-cbs es l1 l0 x h e)
        ]

    pass-equal :
        (fuel : ℕ) (l : Loop K) (x : X)
        → IsLeaving
        → Standing l
        → length (from l.actual_iterator l.cbs) < fuel
        → pass os c fuel tries is_ready l x ≡ visit (from l.actual_iterator l.cbs) l x
    pass-equal zero l x h s f = absurd (omega (arith, f))
    pass-equal (suc fuel) l x h s f = elim (Option-cases l.actual_iterator) [
      | inl e ↦
          unfold pass in
          unfold visit in
          unfold from in
          subst
            (λ o.
              pass os c (suc fuel) tries is_ready (record l { actual_iterator = o }) x
              ≡ visit (from o l.cbs) (record l { actual_iterator = o }) x)
            (sym e) refl
      | inr (fd, e) ↦ elim (Option-cases (find fd l.cbs)) [
        | inl n ↦ absurd (s.here fd e n)
        | inr (cb, n) ↦
            let split = ap (λ o. from o l.cbs) e ∙ from-find fd l.cbs cb n in
            let long : length ((fd, cb) ∷ after fd l.cbs) < suc fuel = rw split at f in
            pass-element fuel fd cb l x h e n (λ l1 x1 w.
              let s1 = Standing-Leaves l l1 s w in
              let (t, g, _) = advance-Standing fd l1 s1 in
              let same = ap (λ cbs. after fd cbs) w.same_cbs in
              let short : length (from (advance fd l1).actual_iterator (advance fd l1).cbs) < fuel =
                omega (arith, long, ap (λ es. length es) (g ∙ same)) in
              behind fuel fd l1 x1 s1 (pass-equal fuel (advance fd l1) x1 h t short)
              ∙ ap (λ es. visit es l1 x1) same)
            ∙ ap (λ es. visit es l x) (sym split)
      ]
    ]

    -- If each callback that returns leaves the table, the iterator and the flag of the loop alone,
    -- no descriptor stands twice in the table, the flag is down and the iterator is at an element or at
    -- the end: with fuel for each element from the iterator on, a pass is the plain recursion over
    -- those elements: each callback whose descriptor is ready is run once, in order, on the state
    -- that the one before has left, up to the first that stops the loop, skips the others or does not
    -- return; if all of these return, so does the pass. If it returns, the table is as it was.
    pub pass-visit :
        (fuel : ℕ) (l : Loop K) (x : X)
        → IsLeaving
        → Standing l
        → length (from l.actual_iterator l.cbs) < fuel
        → (pass os c fuel tries is_ready l x ≡ visit (from l.actual_iterator l.cbs) l x)
          × Ensures (λ q. q.1.cbs ≡ l.cbs) (pass os c fuel tries is_ready l x)
    pass-visit fuel l x h s f =
        let e = pass-equal fuel l x h s f in
        (
          e,
          subst (Ensures (λ q. q.1.cbs ≡ l.cbs)) (sym e)
              (visit-cbs (from l.actual_iterator l.cbs) l l x h refl),
        )
