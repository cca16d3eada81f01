-- ===== src/SelectEvent/MaxFd.antt =====
-- The bound that `loop` passes to `select`.
use pexec.Base.{
  ℕ, Bool, true, false, not, ◌&&◌, Option, none, some, List, [], ◌∷◌, ◌==◌, ◌≡◌, ◌≢◌, refl, arith,
  if◌then◌else◌, Bool-cases, Option-cases, inl, inr,
}
use pexec.SelectEvent.{Loop, Callback, find, above, largest, get_max_fd, is_none, watched}

module _ {K : Type 0} where
  above-largest :
      (k : ℕ) (cbs : List (ℕ × Callback K)) (m : Option ℕ)
      → above k m ≡ false
      → above k (largest cbs m) ≡ false
  unfolding largest
  above-largest k [] m h = h
  above-largest k ((j, cb) ∷ cbs) m h =
      above-largest k cbs (if above j m then some j else m) (step m h)
    where
      step : (m : Option ℕ) → above k m ≡ false → above k (if above j m then some j else m) ≡ false
      step none h = unfold above in cc
      step (some n) h = unfold above in ground arith

  largest_bound :
      (k : ℕ) (cbs : List (ℕ × Callback K)) (m : Option ℕ)
      → find k cbs ≢ none
      → above k (largest cbs m) ≡ false
  unfolding largest find
  largest_bound k [] m h = absurd (h refl)
  largest_bound k ((j, cb) ∷ cbs) m h = elim (Bool-cases (k == j)) [
    | inl e ↦ above-largest k cbs (if above j m then some j else m) (self m e)
    | inr e ↦ largest_bound k cbs (if above j m then some j else m) (λ n. h (rw e n))
  ]
    where
      self : (m : Option ℕ) → (k == j) ≡ true → above k (if above j m then some j else m) ≡ false
      self none e = unfold above in ground arith
      self (some n) e = unfold above in ground arith

  -- `select` is asked about every descriptor of the table: with the bound computed anew, what the
  -- loop takes as ready is exactly what is in the table and reported.
  pub get_max_fd-watched :
      (reported : ℕ → Bool) (l : Loop K) (fd : ℕ)
      → l.recompute_max_fds ≡ true
      → watched reported (get_max_fd l).0 l.cbs fd ≡ (reported fd && not (is_none (find fd l.cbs)))
  unfolding watched get_max_fd is_none
  get_max_fd-watched reported l fd h = elim (Option-cases (find fd l.cbs)) [
    | inl e ↦ ground arith
    | inr (cb, e) ↦ ground (arith, largest_bound fd l.cbs none)
  ]
