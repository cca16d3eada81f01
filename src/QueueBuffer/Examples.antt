-- ===== src/QueueBuffer/Examples.antt =====
-- Instances of the theorems. One thread sleeps in `remove`, another adds, and the first wakes.
use pexec.Base.{List, ◌+◌, ◌≤◌, [], ◌∷◌, ◌++◌, length, ◌≡◌, ◌⊎◌, refl, arith, ℕ}
use pexec.QueueBuffer.{Queue, add, remove, wake}
use pexec.QueueBuffer.Below.{queue_of, runs-Below}
use pexec.QueueBuffer.Stuck.{waits_for_ever}
use pexec.QueueBuffer.Threads.{
  Threads, no_threads, remover, Runs, begin, adds, waits_to_add, waits_to_remove, remover_again,
  remover_sleeps, runs_in_order,
}
use pexec.QueueBuffer.Unlocked.{Unlocked, unlocked_in_order}
use pexec.QueueBuffer.History.{Reach, start, added, removed, woke, reach-Kept}

abbrev none_left : Queue ℕ
none_left = record { buffer = []; asleep = 0; woken = 0 }

handed_over : Reach 10 (5 ∷ []) (5 ∷ []) none_left
unfolding add remove wake
handed_over = woke 0 (added 5 (removed start) refl) refl

handed_over_kept :
    (5 ∷ [] ≡ (5 ∷ []) ++ none_left.buffer)
    × ((none_left.asleep ≡ 0) ⊎ (length none_left.buffer ≤ none_left.woken + 0))
    × (length none_left.buffer ≤ 10)
handed_over_kept = reach-Kept 10 (5 ∷ []) (5 ∷ []) none_left (omega arith) handed_over

-- One thread sleeps, another adds 5 and 6, and has not yet called `notify_one` for either.
abbrev two_added : Queue ℕ
two_added = record { buffer = 5 ∷ 6 ∷ []; asleep = 1; woken = 0 }

came_to_two : Unlocked 10 2 (5 ∷ 6 ∷ []) [] two_added
came_to_two =
    Unlocked.added 1 (5 ∷ []) [] _ 6
      (Unlocked.added 0 [] [] _ 5 (Unlocked.slept 0 [] [] _ Unlocked.start refl) (omega arith))
      (omega arith)

unlocked_in_order_example :
    (5 ∷ 6 ∷ [] ≡ [] ++ two_added.buffer)
    × ((two_added.asleep ≡ 0) ⊎ (length two_added.buffer ≤ two_added.woken + 2))
    × (length two_added.buffer ≤ 10)
unlocked_in_order_example =
    unlocked_in_order 10 2 (5 ∷ 6 ∷ []) [] two_added (omega arith) came_to_two

abbrev two_asleep : Threads ℕ
two_asleep = record no_threads { removers = 2 }

-- Two threads sleep in `remove` of a queue with room for one. One thread adds 5, which wakes one of
-- them, and another comes to add 6 and has to wait.
abbrev full : Threads ℕ
full = record no_threads { buffer = 5 ∷ []; adders = 6 ∷ []; removers = 1; woken_removers = 1 }

came_to_full : Runs 1 (5 ∷ []) [] full
came_to_full =
    waits_to_add _ _ _ 6
      (adds [] [] two_asleep _ 5 (waits_to_remove [] [] _ (waits_to_remove [] [] _ begin refl) refl)
        (omega arith) (remover _ 1 refl))
      (omega arith)

-- The woken one takes the 5, and wakes the other that wants to remove.
abbrev stuck : Threads ℕ
stuck = record no_threads { adders = 6 ∷ []; removers = 1 }

-- That one finds nothing: one thread waits for room in an empty queue and one for an element, and
-- nobody is left to wake them.
came_to_stuck : Runs 1 (5 ∷ []) (5 ∷ []) stuck
came_to_stuck =
    remover_sleeps _ _ _ 0
      (remover_again _ _ full _ 0 5 [] came_to_full refl refl (remover _ 0 refl)) refl refl

runs_in_order_example : (5 ∷ [] ≡ [] ++ full.buffer) × (length full.buffer ≤ 1)
runs_in_order_example = runs_in_order 1 (5 ∷ []) [] full (omega arith) came_to_full

-- The same with room for ten, without the thread that waits.
abbrev one_added : Threads ℕ
one_added = record no_threads { buffer = 5 ∷ []; removers = 1; woken_removers = 1 }

came_to_one : Runs 10 (5 ∷ []) [] one_added
came_to_one =
    adds [] [] two_asleep _ 5 (waits_to_remove [] [] _ (waits_to_remove [] [] _ begin refl) refl)
      (omega arith) (remover _ 1 refl)

runs-Below_example :
    (one_added.adders ≡ [])
    × (one_added.woken_adders ≡ [])
    × Reach 10 (5 ∷ []) [] (queue_of one_added)
runs-Below_example = runs-Below 10 (5 ∷ []) [] one_added (omega arith) came_to_one

waits_for_ever_example :
    (xs : List ℕ) × Runs 3 xs xs (record no_threads { adders = 6 ∷ []; removers = 3 })
waits_for_ever_example = waits_for_ever 3 5 6 (omega arith)
