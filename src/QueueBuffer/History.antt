-- ===== src/QueueBuffer/History.antt =====
-- Whole operations, each with its `notify_one`, as runs of Unlocked.
use pexec.Base.{
  ℕ, suc, ◌+◌, ◌≤◌, Bool, true, false, subst, List, [], ◌∷◌, ◌++◌, append-nil, Option, none, some,
  length, ltb, if◌then◌else◌, ◌≡◌, refl, sym, ◌⊎◌, arith,
}
use pexec.QueueBuffer.Unlocked.{Unlocked, unlocked_in_order}
use pexec.QueueBuffer.{Queue, empty, notify, add, clear, clear_add, take_front, remove, wake}

module _ {A : Type 0} where
  abbrev pub given : Option A → List A
  given none = []
  given (some a) = a ∷ []

-- The states between whole operations that the threads can reach as long as none has to wait in
-- `add`, each operation with its `notify_one`: what was added, what has left the queue, taken or dropped
-- by `clear`, and the queue.
pub data Reach {A : Type 0} (size : ℕ) : List A → List A → Queue A → Type 0 where
  start : Reach size [] [] empty
  added :
      {xs ys : List A} {q q1 : Queue A} (a : A)
      → Reach size xs ys q
      → add size a q ≡ some q1
      → Reach size (xs ++ a ∷ []) ys q1
  cleared :
      {xs ys : List A} {q : Queue A} → Reach size xs ys q → Reach size xs (ys ++ q.buffer) (clear q)
  replaced :
      {xs ys : List A} {q : Queue A} (a : A)
      → Reach size xs ys q
      → Reach size (xs ++ a ∷ []) (ys ++ q.buffer) (clear_add a q)
  removed :
      {xs ys : List A} {q : Queue A}
      → Reach size xs ys q
      → Reach size xs (ys ++ given (remove q).0) (remove q).1
  woke :
      {xs ys : List A} {q : Queue A} (others : ℕ)
      → Reach size xs ys q
      → q.woken ≡ suc others
      → Reach size xs (ys ++ given (wake others q).0) (wake others q).1

module _ {A : Type 0} where
  -- An operation is its locked part and the call of `notify_one` behind it.
  add-Unlocked :
      (size : ℕ) (xs ys : List A) (a : A) (q q1 : Queue A)
      → Unlocked size 0 xs ys q
      → add size a q ≡ some q1
      → Unlocked size 0 (xs ++ a ∷ []) ys q1
  unfolding add
  add-Unlocked size xs ys a q q1 u e = by (ltb (length q.buffer) size) refl e
    where
      q2 : Queue A
      q2 = record q { buffer = q.buffer ++ a ∷ [] }

      by :
          (b : Bool)
          → ltb (length q.buffer) size ≡ b
          → (if b then some (notify q2) else none) ≡ some q1
          → Unlocked size 0 (xs ++ a ∷ []) ys q1
      by false f e = cc
      by true f e =
          let same : notify q2 ≡ q1 = cc in
          subst (Unlocked size 0 (xs ++ a ∷ []) ys) same
            (Unlocked.notified 0 _ _ _ (Unlocked.added 0 _ _ _ a u (ground (arith, f))))

  take-Unlocked :
      (size : ℕ) (xs ys front : List A) (q : Queue A)
      → Unlocked size 0 xs ys q
      → q.buffer ≡ front
      → Unlocked size 0 xs (ys ++ given (take_front front q).0) (take_front front q).1
  unfolding take_front
  take-Unlocked size xs ys [] q u e =
      subst (λ zs. Unlocked size 0 xs zs (record q { asleep = suc q.asleep })) (sym (append-nil ys))
        (Unlocked.slept 0 xs ys q u e)
  take-Unlocked size xs ys (a ∷ rest) q u e =
      Unlocked.notified 0 _ _ _ (Unlocked.removed 0 xs ys q a rest u e)

  wake-Unlocked :
      (size k : ℕ) (xs ys front : List A) (q : Queue A)
      → Unlocked size 0 xs ys q
      → q.woken ≡ suc k
      → q.buffer ≡ front
      → let (o, q1) = take_front front (record q { woken = k }) in
        Unlocked size 0 xs (ys ++ given o) q1
  unfolding take_front
  wake-Unlocked size k xs ys [] q u w e =
      subst (λ zs. Unlocked size 0 xs zs (record q { asleep = suc q.asleep; woken = k }))
        (sym (append-nil ys)) (Unlocked.slept_again 0 k xs ys q u w e)
  wake-Unlocked size k xs ys (a ∷ rest) q u w e =
      Unlocked.notified 0 _ _ _ (Unlocked.removed_woken 0 k xs ys q a rest u w e)

  reach-Unlocked :
      (size : ℕ) (xs ys : List A) (q : Queue A) → Reach size xs ys q → Unlocked size 0 xs ys q
  unfolding clear clear_add remove wake
  reach-Unlocked size _ _ _ start = Unlocked.start
  reach-Unlocked size _ _ _ (added {xs} {ys} {q} {q1} a r e) =
      add-Unlocked size xs ys a q q1 (reach-Unlocked size xs ys q r) e
  reach-Unlocked size _ _ _ (cleared {xs} {ys} {q} r) =
      Unlocked.notified 0 _ _ _ (Unlocked.cleared 0 xs ys q (reach-Unlocked size xs ys q r))
  reach-Unlocked size _ _ _ (replaced {xs} {ys} {q} a r) =
      Unlocked.notified 0 _ _ _ (Unlocked.replaced 0 xs ys q a (reach-Unlocked size xs ys q r))
  reach-Unlocked size _ _ _ (removed {xs} {ys} {q} r) =
      take-Unlocked size xs ys q.buffer q (reach-Unlocked size xs ys q r) refl
  reach-Unlocked size _ _ _ (woke {xs} {ys} {q} k r w) =
      wake-Unlocked size k xs ys q.buffer q (reach-Unlocked size xs ys q r) w refl

  -- Between whole operations, if the size is at least 1, what `unlocked_in_order` says.
  pub reach-Kept :
      (size : ℕ) (xs ys : List A) (q : Queue A)
      → 1 ≤ size
      → Reach size xs ys q
      → (xs ≡ ys ++ q.buffer)
        × ((q.asleep ≡ 0) ⊎ (length q.buffer ≤ q.woken + 0))
        × (length q.buffer ≤ size)
  reach-Kept size xs ys q h r = unlocked_in_order size 0 xs ys q h (reach-Unlocked size xs ys q r)
