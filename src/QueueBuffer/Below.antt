-- ===== src/QueueBuffer/Below.antt =====
-- Below its size, the queue of Threads is the queue of QueueBuffer: nobody waits for room.
use pexec.Base.{
  ℕ, suc, ◌<◌, true, List, [], ◌∷◌, ◌++◌, append-nil, none, some, length, length-append, ltb,
  if◌then◌else◌, ◌≡◌, refl, sym, ap, subst, arith,
}
use pexec.QueueBuffer.{Queue, notify, add, clear, clear_add, take_front, remove, wake}
use pexec.QueueBuffer.History.{given, Reach, start, added, cleared, replaced, removed, woke}
use pexec.QueueBuffer.Threads.{
  Threads, Notify, nobody, remover, adder, Runs, begin, adds, waits_to_add, adder_again,
  adder_sleeps, clears, replaces, removes, waits_to_remove, remover_again, remover_sleeps,
  runs_in_order,
}

module _ {A : Type 0} where
  -- The queue without the threads that wait for room.
  abbrev pub queue_of : Threads A → Queue A
  queue_of t = record { buffer = t.buffer; asleep = t.removers; woken = t.woken_removers }

  -- Nobody waits for room, and the state is one of the queue without such threads.
  pub record Below (size : ℕ) (xs ys : List A) (t : Threads A) : Type 0 where
    pub no_adders : t.adders ≡ []
    pub no_woken : t.woken_adders ≡ []
    pub reached : Reach size xs ys (queue_of t)

  not_empty : (zs before behind : List A) (a : A) → zs ≡ [] → zs ≡ before ++ a ∷ behind → ⊥
  not_empty zs [] behind a e f = cc
  not_empty zs (b ∷ before) behind a e f = cc

  -- The queue of `t` with `n` threads asleep in `remove`.
  abbrev asleep_in : Threads A → ℕ → Queue A
  asleep_in t n = record { buffer = t.buffer; asleep = n; woken = t.woken_removers }

  -- Below the size, `notify_one` wakes a thread in `remove` if there is one.
  notify-Below :
      (t t1 : Threads A)
      → Notify t t1
      → t.adders ≡ []
      → t.woken_adders ≡ []
      → (t1.adders ≡ []) × (t1.woken_adders ≡ []) × (queue_of t1 ≡ notify (queue_of t))
  unfolding notify
  notify-Below t _ (nobody _ e f) a w =
      (a, w, subst (λ n. asleep_in t n ≡ notify (asleep_in t n)) (sym f) refl)
  notify-Below t _ (remover _ n e) a w = (
    a,
    w,
    subst (λ k. record (asleep_in t n) { woken = suc t.woken_removers } ≡ notify (asleep_in t k))
        (sym e) refl,
  )
  notify-Below t _ (adder _ before behind b e) a w = absurd (not_empty t.adders before behind b a e)

  -- A step that ends with `notify_one`, from a state without waiting adders.
  notified :
      (size : ℕ) (xs ys : List A) (t t1 : Threads A)
      → Notify t t1
      → t.adders ≡ []
      → t.woken_adders ≡ []
      → Reach size xs ys (notify (queue_of t))
      → Below size xs ys t1
  notified size xs ys t t1 k a w r =
      let (a1, w1, q) = notify-Below t t1 k a w in
      record { no_adders = a1; no_woken = w1; reached = subst (Reach size xs ys) (sym q) r }

  added-Reach :
      (size : ℕ) (xs ys : List A) (a : A) (q : Queue A)
      → Reach size xs ys q
      → length q.buffer < size
      → Reach size (xs ++ a ∷ []) ys (notify (record q { buffer = q.buffer ++ a ∷ [] }))
  unfolding add
  added-Reach size xs ys a q r b =
      let room : ltb (length q.buffer) size ≡ true = ground (arith, b) in
      added a r (
        ap (λ x. if x then some (notify (record q { buffer = q.buffer ++ a ∷ [] })) else none) room)

  removed-Reach :
      (size : ℕ) (xs ys rest : List A) (a : A) (q : Queue A)
      → Reach size xs ys q
      → q.buffer ≡ a ∷ rest
      → Reach size xs (ys ++ a ∷ []) (notify (record q { buffer = rest }))
  unfolding remove take_front
  removed-Reach size xs ys rest a q r e =
      subst (λ b. Reach size xs (ys ++ given (take_front b q).0) (take_front b q).1) e (removed r)

  woke-Reach :
      (size : ℕ) (xs ys rest : List A) (a : A) (n : ℕ) (q : Queue A)
      → Reach size xs ys q
      → q.woken ≡ suc n
      → q.buffer ≡ a ∷ rest
      → Reach size xs (ys ++ a ∷ []) (notify (record q { buffer = rest; woken = n }))
  unfolding wake remove take_front
  woke-Reach size xs ys rest a n q r w e =
      subst
        (λ b.
          Reach size xs (ys ++ given (take_front b (record q { woken = n })).0)
            (take_front b (record q { woken = n })).1)
        e (woke n r w)

  -- A thread that finds the buffer empty.
  sleeping-Reach :
      (size : ℕ) (xs ys : List A) (q : Queue A)
      → Reach size xs ys q
      → q.buffer ≡ []
      → Reach size xs ys (record q { asleep = suc q.asleep })
  unfolding remove take_front
  sleeping-Reach size xs ys q r e =
      subst (λ zs. Reach size xs zs (record q { asleep = suc q.asleep })) (append-nil ys)
        (subst (λ b. Reach size xs (ys ++ given (take_front b q).0) (take_front b q).1) e
          (removed r))

  woke_sleeping-Reach :
      (size : ℕ) (xs ys : List A) (n : ℕ) (q : Queue A)
      → Reach size xs ys q
      → q.woken ≡ suc n
      → q.buffer ≡ []
      → Reach size xs ys (record q { asleep = suc q.asleep; woken = n })
  unfolding wake remove take_front
  woke_sleeping-Reach size xs ys n q r w e =
      let q1 : Queue A = record q { woken = n } in
      subst (λ zs. Reach size xs zs (record q1 { asleep = suc q1.asleep })) (append-nil ys)
        (subst (λ b. Reach size xs (ys ++ given (take_front b q1).0) (take_front b q1).1) e
          (woke n r w))

  -- While fewer than `size` elements have been added in all, no thread waits in `add`, and the states
  -- are those of the queue without such threads.
  pub runs-Below :
      (size : ℕ) (xs ys : List A) (t : Threads A)
      → length xs < size
      → Runs size xs ys t
      → (t.adders ≡ []) × (t.woken_adders ≡ []) × Reach size xs ys (queue_of t)
  unfolding clear clear_add
  runs-Below size xs ys t f r = let b = go xs ys t f r in (b.no_adders, b.no_woken, b.reached)
    where
      room :
          (xs ys : List A) (t : Threads A)
          → length xs < size
          → Runs size xs ys t
          → length t.buffer < size
      room xs ys t f r =
          let p = runs_in_order size xs ys t (omega (arith, f)) r in
          omega (arith, f, ap (λ b. length b) p.0, length-append ys t.buffer)

      shorter : (xs : List A) (a : A) → length (xs ++ a ∷ []) < size → length xs < size
      shorter xs a f = omega (arith, f, length-append xs (a ∷ []))

      go :
          (xs ys : List A) (t : Threads A)
          → length xs < size
          → Runs size xs ys t
          → Below size xs ys t
      go _ _ _ f begin = record { no_adders = refl; no_woken = refl; reached = start }
      go _ _ _ f (adds xs ys t t1 a r b k) =
          let g = shorter xs a f in
          let w = go xs ys t g r in
          notified size _ ys _ t1 k w.no_adders w.no_woken
            (added-Reach size xs ys a (queue_of t) w.reached b)
      go _ _ _ f (waits_to_add xs ys t a r b) = absurd (omega (arith, b, room xs ys t f r))
      go _ _ _ f (adder_again xs ys t t1 before behind a r e b k) =
          let w = go xs ys t (shorter xs a f) r in
          absurd (not_empty t.woken_adders before behind a w.no_woken e)
      go _ _ _ f (adder_sleeps xs ys t before behind a r e b) =
          absurd (omega (arith, b, room xs ys t f r))
      go _ _ _ f (clears xs ys t t1 r k) =
          let w = go xs ys t f r in
          notified size xs _ _ t1 k w.no_adders w.no_woken (cleared w.reached)
      go _ _ _ f (replaces xs ys t t1 a r k) =
          let w = go xs ys t (shorter xs a f) r in
          notified size _ _ _ t1 k w.no_adders w.no_woken (replaced a w.reached)
      go _ _ _ f (removes xs ys t t1 a rest r e k) =
          let w = go xs ys t f r in
          notified size xs _ _ t1 k w.no_adders w.no_woken
            (removed-Reach size xs ys rest a (queue_of t) w.reached e)
      go _ _ _ f (waits_to_remove xs ys t r e) =
          let w = go xs ys t f r in
          record {
            no_adders = w.no_adders;
            no_woken = w.no_woken;
            reached = sleeping-Reach size xs ys (queue_of t) w.reached e;
          }
      go _ _ _ f (remover_again xs ys t t1 n a rest r v e k) =
          let w = go xs ys t f r in
          notified size xs _ _ t1 k w.no_adders w.no_woken
            (woke-Reach size xs ys rest a n (queue_of t) w.reached v e)
      go _ _ _ f (remover_sleeps xs ys t n r v e) =
          let w = go xs ys t f r in
          record {
            no_adders = w.no_adders;
            no_woken = w.no_woken;
            reached = woke_sleeping-Reach size xs ys n (queue_of t) w.reached v e;
          }
