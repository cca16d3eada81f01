-- ===== src/QueueBuffer/Stuck.antt =====
-- One condition variable for both kinds of waiting: a wake-up can go to the wrong thread.
use pexec.Base.{
  ℕ, zero, suc, ◌+◌, ◌≤◌, ◌<◌, List, [], ◌∷◌, ◌++◌, append_assoc, append-nil, length, ◌≡◌, refl,
  sym, ap, subst, arith,
}
use pexec.QueueBuffer.Threads.{
  Threads, no_threads, remover, Runs, begin, adds, waits_to_add, waits_to_remove, remover_again,
  remover_sleeps,
}

module _ {A : Type 0} (size : ℕ) (a b : A) where
  copies : ℕ → List A
  copies zero = []
  copies (suc k) = a ∷ copies k

  copies_last : (k : ℕ) → copies k ++ a ∷ [] ≡ a ∷ copies k
  unfolding copies
  copies_last zero = refl
  copies_last (suc k) = ap (λ xs. a ∷ xs) (copies_last k)

  length-copies : (k : ℕ) → length (copies k) ≡ k
  unfolding copies
  length-copies zero = refl
  length-copies (suc k) = ap suc (length-copies k)

  -- `asleep` threads asleep in `remove` and `awake` woken there, with `xs` in the buffer and `waiting`
  -- asleep in `add`.
  abbrev state : List A → List A → ℕ → ℕ → Threads A
  state xs waiting asleep awake = record {
    buffer = xs;
    adders = waiting;
    woken_adders = [];
    removers = asleep;
    woken_removers = awake;
  }

  all_wait : (k : ℕ) → Runs size [] [] (state [] [] k 0)
  all_wait zero = begin
  all_wait (suc k) = waits_to_remove [] [] (state [] [] k 0) (all_wait k) refl

  -- `k` more elements: each wakes a thread in `remove`.
  add_all :
      (k j asleep rest : ℕ)
      → asleep ≡ k + rest
      → k + j ≤ size
      → Runs size (copies j) [] (state (copies j) [] asleep j)
      → Runs size (copies (k + j)) [] (state (copies (k + j)) [] rest (k + j))
  unfolding copies
  add_all zero j asleep rest e l r =
      let same : asleep ≡ rest = omega (arith, e) in
      let none_more : j ≡ 0 + j = omega arith in
      subst (λ m. Runs size (copies m) [] (state (copies m) [] rest m)) none_more
        (subst (λ n. Runs size (copies j) [] (state (copies j) [] n j)) same r)
  add_all (suc k) j asleep rest e l r =
      let room : length (copies j) < size = omega (arith, l, length-copies j) in
      let one : Runs size (copies j ++ a ∷ []) []
          (state (copies j ++ a ∷ []) [] (k + rest) (suc j)) =
        adds _ _ _ _ a r room
          (remover (state (copies j ++ a ∷ []) [] asleep j) (k + rest) (omega (arith, e))) in
      let again : k + suc j ≡ suc k + j = omega arith in
      subst (λ m. Runs size (copies m) [] (state (copies m) [] rest m)) again
        (add_all k (suc j) (k + rest) rest refl (omega (arith, l))
          (subst (λ xs. Runs size xs [] (state xs [] (k + rest) (suc j))) (copies_last j) one))

  -- The woken threads take the elements, and each wakes another one.
  take_all :
      (k asleep rest awake : ℕ) (xs ys : List A)
      → asleep ≡ k + rest
      → Runs size xs ys (state (copies k) (b ∷ []) asleep (suc awake))
      → Runs size xs (ys ++ copies k) (state [] (b ∷ []) rest (suc awake))
  unfolding copies
  take_all zero asleep rest awake xs ys e r =
      subst (λ n. Runs size xs (ys ++ []) (state [] (b ∷ []) n (suc awake)))
        (let f : asleep ≡ rest = omega (arith, e) in f)
        (subst (λ zs. Runs size xs zs (state [] (b ∷ []) asleep (suc awake))) (sym (append-nil ys))
          r)
  take_all (suc k) asleep rest awake xs ys e r =
      let next : Runs size xs (ys ++ a ∷ []) (state (copies k) (b ∷ []) (k + rest) (suc awake)) =
        remover_again xs ys _ _ awake a (copies k) r refl refl
          (remover (state (copies k) (b ∷ []) asleep awake) (k + rest) (omega (arith, e))) in
      subst (λ zs. Runs size xs zs (state [] (b ∷ []) rest (suc awake)))
        (append_assoc ys (a ∷ []) (copies k))
        (take_all k (k + rest) rest awake xs (ys ++ a ∷ []) refl next)

  -- The others find nothing.
  sleep_all :
      (k asleep : ℕ) (xs ys : List A)
      → Runs size xs ys (state [] (b ∷ []) asleep k)
      → (n : ℕ) × (n ≡ k + asleep) × Runs size xs ys (state [] (b ∷ []) n 0)
  sleep_all zero asleep xs ys r = (asleep, omega arith, r)
  sleep_all (suc k) asleep xs ys r =
      let (n, e, q) = sleep_all k (suc asleep) xs ys (remover_sleeps xs ys _ k r refl refl) in
      (n, omega (arith, e), q)

-- For every size of at least 1, there is a run of the threads at whose end the queue is empty, a
-- thread waits in `add` for room, `size` threads wait in `remove`, and none is woken. All elements that
-- were added have been taken.
pub waits_for_ever :
    {A : Type 0} (size : ℕ) (a b : A)
    → 1 ≤ size
    → (xs : List A) × Runs size xs xs (record no_threads { adders = b ∷ []; removers = size })
unfolding copies
waits_for_ever zero a b h = absurd (omega (arith, h))
waits_for_ever {A} (suc s) a b h =
    let size : ℕ = suc s in
    let at : ℕ → ℕ → Threads A = λ m n. state size a b (copies size a b m) [] n m in
    let filled : Runs size (copies size a b (size + 0)) [] (at (size + 0) size) =
      add_all size a b size 0 (size + size) size refl (omega arith)
        (all_wait size a b (size + size)) in
    let same : size + 0 ≡ size = omega arith in
    let full : Runs size (copies size a b size) [] (at size size) =
      subst (λ m. Runs size (copies size a b m) [] (at m size)) same filled in
    let comes =
      waits_to_add _ [] (at size size) b full (omega (arith, length-copies size a b size)) in
    let empty = take_all size a b size size 0 s (copies size a b size) [] (omega arith) comes in
    let (n, e, over) = sleep_all size a b size 0 (copies size a b size) _ empty in
    let all : n ≡ size = omega (arith, e) in
    (
      copies size a b size,
      subst
          (λ n.
            Runs size (copies size a b size) (copies size a b size)
              (record no_threads { adders = b ∷ []; removers = n }))
          all over,
    )
