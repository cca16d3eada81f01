-- ===== src/QueueBuffer/Threads.antt =====
-- The same queue with the threads that wait in `add` too: all threads sleep at one condition
-- variable, and `notify_one` wakes any of them.
use pexec.Base.{
  ℕ, suc, ◌≤◌, ◌<◌, List, [], ◌∷◌, ◌++◌, append_assoc, append-nil, length, length-append, ◌≡◌, refl,
  sym, ◌∙◌, ap, subst, arith,
}

-- The elements, the threads asleep in `add` with what they want to add, those of them that are woken,
-- and the same for `remove`.
pub record Threads (A : Type 0) : Type 0 where
  pub buffer : List A
  pub adders : List A
  pub woken_adders : List A
  pub removers : ℕ
  pub woken_removers : ℕ

module _ {A : Type 0} where
  -- `cond_.notify_one()`
  pub data Notify : Threads A → Threads A → Type 0 where
    nobody : (t : Threads A) → t.adders ≡ [] → t.removers ≡ 0 → Notify t t
    remover :
        (t : Threads A) (n : ℕ)
        → t.removers ≡ suc n
        → Notify t (record t { removers = n; woken_removers = suc t.woken_removers })
    adder :
        (t : Threads A) (before behind : List A) (a : A)
        → t.adders ≡ before ++ a ∷ behind
        → Notify t (record t { adders = before ++ behind; woken_adders = a ∷ t.woken_adders })

  abbrev pub no_threads : Threads A
  no_threads = record {
    buffer = [];
    adders = [];
    woken_adders = [];
    removers = 0;
    woken_removers = 0;
  }

  -- The states that the threads can reach, with what was added and what has left the queue. A woken
  -- thread looks at the buffer again.
  pub data Runs (size : ℕ) : List A → List A → Threads A → Type 0 where
    begin : Runs size [] [] no_threads
    adds :
        (xs ys : List A) (t t1 : Threads A) (a : A)
        → Runs size xs ys t
        → length t.buffer < size
        → Notify (record t { buffer = t.buffer ++ a ∷ [] }) t1
        → Runs size (xs ++ a ∷ []) ys t1
    waits_to_add :
        (xs ys : List A) (t : Threads A) (a : A)
        → Runs size xs ys t
        → size ≤ length t.buffer
        → Runs size xs ys (record t { adders = a ∷ t.adders })
    adder_again :
        (xs ys : List A) (t t1 : Threads A) (before behind : List A) (a : A)
        → Runs size xs ys t
        → t.woken_adders ≡ before ++ a ∷ behind
        → length t.buffer < size
        → Notify (record t { buffer = t.buffer ++ a ∷ []; woken_adders = before ++ behind }) t1
        → Runs size (xs ++ a ∷ []) ys t1
    adder_sleeps :
        (xs ys : List A) (t : Threads A) (before behind : List A) (a : A)
        → Runs size xs ys t
        → t.woken_adders ≡ before ++ a ∷ behind
        → size ≤ length t.buffer
        → Runs size xs ys (record t { adders = a ∷ t.adders; woken_adders = before ++ behind })
    clears :
        (xs ys : List A) (t t1 : Threads A)
        → Runs size xs ys t
        → Notify (record t { buffer = [] }) t1
        → Runs size xs (ys ++ t.buffer) t1
    replaces :
        (xs ys : List A) (t t1 : Threads A) (a : A)
        → Runs size xs ys t
        → Notify (record t { buffer = a ∷ [] }) t1
        → Runs size (xs ++ a ∷ []) (ys ++ t.buffer) t1
    removes :
        (xs ys : List A) (t t1 : Threads A) (a : A) (rest : List A)
        → Runs size xs ys t
        → t.buffer ≡ a ∷ rest
        → Notify (record t { buffer = rest }) t1
        → Runs size xs (ys ++ a ∷ []) t1
    waits_to_remove :
        (xs ys : List A) (t : Threads A)
        → Runs size xs ys t
        → t.buffer ≡ []
        → Runs size xs ys (record t { removers = suc t.removers })
    remover_again :
        (xs ys : List A) (t t1 : Threads A) (n : ℕ) (a : A) (rest : List A)
        → Runs size xs ys t
        → t.woken_removers ≡ suc n
        → t.buffer ≡ a ∷ rest
        → Notify (record t { buffer = rest; woken_removers = n }) t1
        → Runs size xs (ys ++ a ∷ []) t1
    remover_sleeps :
        (xs ys : List A) (t : Threads A) (n : ℕ)
        → Runs size xs ys t
        → t.woken_removers ≡ suc n
        → t.buffer ≡ []
        → Runs size xs ys (record t { removers = suc t.removers; woken_removers = n })

  Notify-buffer : (t t1 : Threads A) → Notify t t1 → t1.buffer ≡ t.buffer
  Notify-buffer t _ (nobody _ e f) = refl
  Notify-buffer t _ (remover _ n e) = refl
  Notify-buffer t _ (adder _ before behind a e) = refl

  abbrev InOrder : ℕ → List A → List A → List A → Type 0
  InOrder size xs ys b = (xs ≡ ys ++ b) × (length b ≤ size)

  after_notify :
      (size : ℕ) (xs ys : List A) (t t1 : Threads A)
      → Notify t t1
      → InOrder size xs ys t.buffer
      → InOrder size xs ys t1.buffer
  after_notify size xs ys t t1 k p = subst (InOrder size xs ys) (sym (Notify-buffer t t1 k)) p

  pushed :
      (size : ℕ) (xs ys b : List A) (a : A)
      → InOrder size xs ys b
      → length b < size
      → InOrder size (xs ++ a ∷ []) ys (b ++ a ∷ [])
  pushed size xs ys b a p l = (
    ap (λ zs. zs ++ a ∷ []) p.0 ∙ append_assoc ys b (a ∷ []),
    omega (arith, l, length-append b (a ∷ [])),
  )

  taken :
      (size : ℕ) (xs ys b rest : List A) (a : A)
      → InOrder size xs ys b
      → b ≡ a ∷ rest
      → InOrder size xs (ys ++ a ∷ []) rest
  taken size xs ys b rest a p e = (
    p.0 ∙ ap (λ b. ys ++ b) e ∙ sym (append_assoc ys (a ∷ []) rest),
    omega (arith, p.1, ap (λ b. length b) e),
  )

  -- Every thread that waits for room included: the elements added are, in order, those that have left
  -- and those in the queue, and no more than `size` are in it, if that is at least 1.
  pub runs_in_order :
      (size : ℕ) (xs ys : List A) (t : Threads A)
      → 1 ≤ size
      → Runs size xs ys t
      → (xs ≡ ys ++ t.buffer) × (length t.buffer ≤ size)
  runs_in_order size _ _ _ h begin = (refl, omega arith)
  runs_in_order size _ _ _ h (adds xs ys t t1 a r b k) =
      after_notify size _ ys (record t { buffer = t.buffer ++ a ∷ [] }) t1 k
        (pushed size xs ys t.buffer a (runs_in_order size xs ys t h r) b)
  runs_in_order size _ _ _ h (waits_to_add xs ys t a r b) = runs_in_order size xs ys t h r
  runs_in_order size _ _ _ h (adder_again xs ys t t1 before behind a r e b k) =
      after_notify size _ ys _ t1 k
        (pushed size xs ys t.buffer a (runs_in_order size xs ys t h r) b)
  runs_in_order size _ _ _ h (adder_sleeps xs ys t before behind a r e b) =
      runs_in_order size xs ys t h r
  runs_in_order size _ _ _ h (clears xs ys t t1 r k) =
      after_notify size xs _ (record t { buffer = [] }) t1 k
        ((runs_in_order size xs ys t h r).0 ∙ sym (append-nil (ys ++ t.buffer)), omega arith)
  runs_in_order size _ _ _ h (replaces xs ys t t1 a r k) =
      after_notify size _ _ (record t { buffer = a ∷ [] }) t1 k
        (ap (λ zs. zs ++ a ∷ []) (runs_in_order size xs ys t h r).0, omega (arith, h))
  runs_in_order size _ _ _ h (removes xs ys t t1 a rest r e k) =
      after_notify size xs _ (record t { buffer = rest }) t1 k
        (taken size xs ys t.buffer rest a (runs_in_order size xs ys t h r) e)
  runs_in_order size _ _ _ h (waits_to_remove xs ys t r e) = runs_in_order size xs ys t h r
  runs_in_order size _ _ _ h (remover_again xs ys t t1 n a rest r w e k) =
      after_notify size xs _ _ t1 k
        (taken size xs ys t.buffer rest a (runs_in_order size xs ys t h r) e)
  runs_in_order size _ _ _ h (remover_sleeps xs ys t n r w e) = runs_in_order size xs ys t h r
