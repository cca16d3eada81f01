-- ===== src/QueueBuffer.antt =====
-- src/pexec/queue_buffer.h: the queue between threads. The mutex makes each operation one step; the
-- condition variable is the number of threads that sleep in `remove` and the number that it has
-- woken and that have not looked at the buffer again. A thread that waits in `add`, which happens at
-- the largest `unsigned long` of elements, is left to Threads, where such threads are followed too.
pub mod History
pub mod Unlocked
pub mod Threads
pub mod Below
pub mod Stuck
mod Examples
use pexec.Base.{
  ℕ, zero, suc, ◌≡◌, List, [], ◌∷◌, ◌++◌, Option, none, some, length, ltb, if◌then◌else◌,
}

-- The members: the elements, first in first out, and the threads at the condition variable.
pub record Queue (A : Type 0) : Type 0 where
  pub buffer : List A
  pub asleep : ℕ
  pub woken : ℕ

module _ {A : Type 0} where
  abbrev pub empty : Queue A
  empty = record { buffer = []; asleep = 0; woken = 0 }

  -- `cond_.notify_one()`
  unfoldable pub notify : Queue A → Queue A
  notify q = elim q.asleep [ zero ↦ q | suc n ↦ record q { asleep = n; woken = suc q.woken } ]

  -- `add`: `none` while it has to wait.
  unfoldable pub add : ℕ → A → Queue A → Option (Queue A)
  unfolding notify
  add size num q =
      if ltb (length q.buffer) size
      then some (notify (record q { buffer = q.buffer ++ num ∷ [] }))
      else none

  pub clear : Queue A → Queue A
  unfolding notify
  clear q = notify (record q { buffer = [] })

  -- `clear_add` does not wait.
  pub clear_add : A → Queue A → Queue A
  unfolding notify
  clear_add val q = notify (record q { buffer = val ∷ [] })

  unfoldable pub take_front : List A → Queue A → Option A × Queue A
  unfolding notify
  take_front [] q = (none, record q { asleep = suc q.asleep })
  take_front (front ∷ rest) q = (some front, notify (record q { buffer = rest }))

  -- `remove`, up to its return or its sleep.
  unfoldable pub remove : Queue A → Option A × Queue A
  unfolding take_front
  remove q = take_front q.buffer q

  -- A woken thread goes on with its `remove`.
  pub wake : ℕ → Queue A → Option A × Queue A
  unfolding remove
  wake others q = remove (record q { woken = others })

  -- `state`
  pub queue_state : Queue A → List A
  queue_state q = q.buffer
