-- ===== src/QueueBuffer/Unlocked.antt =====
-- The queue with `notify_one` as a step of its own: the source calls it behind the unlocking of the
-- mutex, so other threads can come between.
use pexec.Base.{
  ℕ, zero, suc, ◌+◌, ◌≤◌, ◌<◌, List, [], ◌∷◌, ◌++◌, append_assoc, append-nil, length, length-append,
  ◌≡◌, refl, sym, ◌∙◌, ap, ◌⊎◌, inl, inr, arith,
}
use pexec.QueueBuffer.{Queue, empty, notify}

-- The states that the threads can reach as long as none has to wait in `add`: the calls of
-- `notify_one` that are still to come, what was added, what has left the queue, and the queue.
pub data Unlocked {A : Type 0} (size : ℕ) : ℕ → List A → List A → Queue A → Type 0 where
  start : Unlocked size 0 [] [] empty
  added :
      (n : ℕ) (xs ys : List A) (q : Queue A) (a : A)
      → Unlocked size n xs ys q
      → length q.buffer < size
      → Unlocked size (suc n) (xs ++ a ∷ []) ys (record q { buffer = q.buffer ++ a ∷ [] })
  cleared :
      (n : ℕ) (xs ys : List A) (q : Queue A)
      → Unlocked size n xs ys q
      → Unlocked size (suc n) xs (ys ++ q.buffer) (record q { buffer = [] })
  replaced :
      (n : ℕ) (xs ys : List A) (q : Queue A) (a : A)
      → Unlocked size n xs ys q
      → Unlocked size (suc n) (xs ++ a ∷ []) (ys ++ q.buffer) (record q { buffer = a ∷ [] })
  removed :
      (n : ℕ) (xs ys : List A) (q : Queue A) (a : A) (rest : List A)
      → Unlocked size n xs ys q
      → q.buffer ≡ a ∷ rest
      → Unlocked size (suc n) xs (ys ++ a ∷ []) (record q { buffer = rest })
  slept :
      (n : ℕ) (xs ys : List A) (q : Queue A)
      → Unlocked size n xs ys q
      → q.buffer ≡ []
      → Unlocked size n xs ys (record q { asleep = suc q.asleep })
  removed_woken :
      (n k : ℕ) (xs ys : List A) (q : Queue A) (a : A) (rest : List A)
      → Unlocked size n xs ys q
      → q.woken ≡ suc k
      → q.buffer ≡ a ∷ rest
      → Unlocked size (suc n) xs (ys ++ a ∷ []) (record q { buffer = rest; woken = k })
  slept_again :
      (n k : ℕ) (xs ys : List A) (q : Queue A)
      → Unlocked size n xs ys q
      → q.woken ≡ suc k
      → q.buffer ≡ []
      → Unlocked size n xs ys (record q { asleep = suc q.asleep; woken = k })
  notified :
      (n : ℕ) (xs ys : List A) (q : Queue A)
      → Unlocked size (suc n) xs ys q
      → Unlocked size n xs ys (notify q)

module _ {A : Type 0} where
  record Steady (size n : ℕ) (xs ys : List A) (q : Queue A) : Type 0 where
    in_order : xs ≡ ys ++ q.buffer
    awake : (q.asleep ≡ 0) ⊎ (length q.buffer ≤ q.woken + n)
    bounded : length q.buffer ≤ size

  notify-Steady :
      (size n : ℕ) (xs ys : List A) (q : Queue A)
      → Steady size (suc n) xs ys q
      → Steady size n xs ys (notify q)
  unfolding notify
  notify-Steady size n xs ys q s = by q.asleep s.awake
    where
      by :
          (k : ℕ)
          → (k ≡ 0) ⊎ (length q.buffer ≤ q.woken + suc n)
          → Steady size n xs ys (notify (record q { asleep = k }))
      by zero h = record { in_order = s.in_order; awake = inl refl; bounded = s.bounded }
      by (suc k) (inl e) = absurd (omega (arith, e))
      by (suc k) (inr l) = record {
        in_order = s.in_order;
        awake = inr (omega (arith, l));
        bounded = s.bounded;
      }

  -- One element is taken from the front.
  taken :
      (xs ys b rest : List A) (a : A)
      → xs ≡ ys ++ b
      → b ≡ a ∷ rest
      → (xs ≡ (ys ++ a ∷ []) ++ rest) × (length b ≡ suc (length rest))
  taken xs ys b rest a e f = (
    e ∙ ap (λ b. ys ++ b) f ∙ sym (append_assoc ys (a ∷ []) rest),
    omega (arith, ap (λ b. length b) f),
  )

  -- Whenever the calls of `notify_one` come, as long as no thread has to wait in `add`, and if the
  -- size is at least 1: the elements added are, in order, those that have left, taken or dropped by
  -- `clear` or `clear_add`, followed by those in the queue; while a thread sleeps in `remove`, the
  -- threads that are woken and the calls of `notify_one` to come are together at least as many as the
  -- elements in the queue; and the queue holds at most `size` elements.
  pub unlocked_in_order :
      (size n : ℕ) (xs ys : List A) (q : Queue A)
      → 1 ≤ size
      → Unlocked size n xs ys q
      → (xs ≡ ys ++ q.buffer)
        × ((q.asleep ≡ 0) ⊎ (length q.buffer ≤ q.woken + n))
        × (length q.buffer ≤ size)
  unlocked_in_order size n xs ys q h r = let k = go n xs ys q r in (k.in_order, k.awake, k.bounded)
    where
      go : (n : ℕ) (xs ys : List A) (q : Queue A) → Unlocked size n xs ys q → Steady size n xs ys q
      go _ _ _ _ start = record { in_order = refl; awake = inl refl; bounded = omega arith }
      go _ _ _ _ (added n xs ys q a r b) =
          let k = go n xs ys q r in
          let longer = length-append q.buffer (a ∷ []) in
          record {
            in_order = ap (λ zs. zs ++ a ∷ []) k.in_order ∙ append_assoc ys q.buffer (a ∷ []);
            awake = ground (arith, k.awake, longer);
            bounded = omega (arith, b, longer);
          }
      go _ _ _ _ (cleared n xs ys q r) =
          let k = go n xs ys q r in
          record {
            in_order = k.in_order ∙ sym (append-nil (ys ++ q.buffer));
            awake = inr (omega arith);
            bounded = omega arith;
          }
      go _ _ _ _ (replaced n xs ys q a r) =
          let k = go n xs ys q r in
          record {
            in_order = ap (λ zs. zs ++ a ∷ []) k.in_order;
            awake = inr (omega arith);
            bounded = omega (arith, h);
          }
      go _ _ _ _ (removed n xs ys q a rest r e) =
          let k = go n xs ys q r in
          let (o, l) = taken xs ys q.buffer rest a k.in_order e in
          record {
            in_order = o;
            awake = ground (arith, k.awake, l);
            bounded = omega (arith, k.bounded, l);
          }
      go _ _ _ _ (slept n xs ys q r e) =
          let k = go n xs ys q r in
          record {
            in_order = k.in_order;
            awake = inr (omega (arith, ap (λ b. length b) e));
            bounded = k.bounded;
          }
      go _ _ _ _ (removed_woken n j xs ys q a rest r w e) =
          let k = go n xs ys q r in
          let (o, l) = taken xs ys q.buffer rest a k.in_order e in
          record {
            in_order = o;
            awake = ground (arith, k.awake, l, w);
            bounded = omega (arith, k.bounded, l);
          }
      go _ _ _ _ (slept_again n j xs ys q r w e) =
          let k = go n xs ys q r in
          record {
            in_order = k.in_order;
            awake = inr (omega (arith, ap (λ b. length b) e));
            bounded = k.bounded;
          }
      go _ _ _ _ (notified n xs ys q r) = notify-Steady size n xs ys q (go (suc n) xs ys q r)
