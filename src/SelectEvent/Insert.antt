-- ===== src/SelectEvent/Insert.antt =====
-- `add_read_event` and `remove_read_event`: what the table holds behind them, wherever a new element
-- goes.
use pexec.Base.{
  ℕ, zero, suc, false, none, some, List, [], ◌∷◌, ◌==◌, ◌≡◌, refl, ◌∙◌, ap, arith, length,
  Option-cases, inl, inr, same_if, if◌then◌else◌,
}
use pexec.Run.{Ensures, Returns, Returns-Ensures}
use pexec.SelectEvent.{
  Loop, Callback, find, insert_at, erase, add_read_event, remove_read_event, removed, is_none,
}
use pexec.SelectEvent.Table.{IsDistinct}

module _ {K : Type 0} where
  find-insert_at :
      (g n fd : ℕ) (cb : Callback K) (cbs : List (ℕ × Callback K))
      → find fd cbs ≡ none
      → find g (insert_at n (fd, cb) cbs) ≡ (if g == fd then some cb else find g cbs)
  unfolding find insert_at
  find-insert_at g zero fd cb cbs h = refl
  find-insert_at g (suc n) fd cb [] h = refl
  find-insert_at g (suc n) fd cb ((k, d) ∷ cbs) h = ground (arith, find-insert_at g n fd cb cbs)

  insert_at-IsDistinct :
      (n fd : ℕ) (cb : Callback K) (cbs : List (ℕ × Callback K))
      → find fd cbs ≡ none
      → IsDistinct cbs
      → IsDistinct (insert_at n (fd, cb) cbs)
  unfolding find insert_at
  insert_at-IsDistinct zero fd cb cbs h d = (h, d)
  insert_at-IsDistinct (suc n) fd cb [] h d = (refl, tt)
  insert_at-IsDistinct (suc n) fd cb ((k, e) ∷ cbs) h d =
      ground (arith, insert_at-IsDistinct n fd cb cbs, find-insert_at k n fd cb cbs, d.0, d.1)

  length-insert_at :
      (n : ℕ) (e : ℕ × Callback K) (cbs : List (ℕ × Callback K))
      → length (insert_at n e cbs) ≡ suc (length cbs)
  unfolding insert_at
  length-insert_at zero e cbs = refl
  length-insert_at (suc n) e [] = refl
  length-insert_at (suc n) e (d ∷ cbs) = ap suc (length-insert_at n e cbs)

  pub find-nil : (g : ℕ) → find {K = K} g [] ≡ none
  unfolding find
  find-nil g = refl

  -- The new element is in the table, once, and all else is as before.
  pub record Added (fd : ℕ) (cb : Callback K) (l l1 : Loop K) : Type 0 where
    pub found : (g : ℕ) → find g l1.cbs ≡ (if g == fd then some cb else find g l.cbs)
    pub distinct : IsDistinct l1.cbs
    pub longer : length l1.cbs ≡ suc (length l.cbs)
    pub same_flag : l1.actual_iterator_deleted ≡ l.actual_iterator_deleted
    pub same_recompute : l1.recompute_max_fds ≡ l.recompute_max_fds

  -- What was not in the table is not in it now, unless it is what was added.
  pub absent :
      (g fd : ℕ) (cb : Callback K) (l l1 : Loop K)
      → Added fd cb l l1
      → (g == fd) ≡ false
      → find g l.cbs ≡ none
      → find g l1.cbs ≡ none
  absent g fd cb l l1 a e n = a.found g ∙ ap (λ b. if b then some cb else find g l.cbs) e ∙ n

  pub add_read_event-Returns :
      (slot : List (ℕ × Callback K) → ℕ → ℕ) (fd : ℕ) (cb : Callback K) (l : Loop K)
      → IsDistinct l.cbs
      → find fd l.cbs ≡ none
      → Returns (Added fd cb l) (add_read_event slot fd cb l)
  unfolding add_read_event is_none
  add_read_event-Returns slot fd cb l d h =
      rw (add_read_event, h)
        (record {
          found = λ g. find-insert_at g (slot l.cbs fd) fd cb l.cbs h;
          distinct = insert_at-IsDistinct (slot l.cbs fd) fd cb l.cbs h d;
          longer = length-insert_at (slot l.cbs fd) (fd, cb) l.cbs;
          same_flag = refl;
          same_recompute = refl;
        })

  pub add_read_event-Ensures :
      (slot : List (ℕ × Callback K) → ℕ → ℕ) (fd : ℕ) (cb : Callback K) (l : Loop K)
      → IsDistinct l.cbs
      → Ensures (Added fd cb l) (add_read_event slot fd cb l)
  unfolding add_read_event is_none
  add_read_event-Ensures slot fd cb l d = elim (Option-cases (find fd l.cbs)) [
    | inl e ↦
        Returns-Ensures (Added fd cb l) (add_read_event slot fd cb l)
          (add_read_event-Returns slot fd cb l d e)
    | inr (cb1, e) ↦ rw (e, add_read_event) tt
  ]

  pub remove_read_event-Ensures :
      (fd : ℕ) (l : Loop K) → Ensures (λ l1. l1.cbs ≡ erase fd l.cbs) (remove_read_event fd l)
  unfolding remove_read_event removed
  remove_read_event-Ensures fd l = elim (Option-cases (find fd l.cbs)) [
    | inl e ↦ rw (e, remove_read_event) tt
    | inr (cb, e) ↦ rw (e, remove_read_event) (same_if (λ (l1 : Loop K). l1.cbs) _ _ _ _ refl refl)
  ]
