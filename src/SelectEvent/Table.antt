-- ===== src/SelectEvent/Table.antt =====
-- The table of callbacks and its iterator.
use pexec.Base.{ℕ, Option, none, some, List, [], ◌∷◌, ◌==◌, ◌≡◌, ◌≢◌, refl, arith, if◌then◌else◌}
use pexec.SelectEvent.{Callback, find, first_key, next_key, erase}

module _ {K : Type 0} where
  -- No descriptor stands twice in the table.
  abbrev pub IsDistinct : List (ℕ × Callback K) → Type 0
  IsDistinct [] = Unit
  IsDistinct ((k, cb) ∷ cbs) = (find k cbs ≡ none) × IsDistinct cbs

  -- The elements behind `fd`.
  unfoldable pub after : ℕ → List (ℕ × Callback K) → List (ℕ × Callback K)
  after fd [] = []
  after fd ((k, cb) ∷ cbs) = if fd == k then cbs else after fd cbs

  -- The elements from an iterator on.
  unfoldable pub from : Option ℕ → List (ℕ × Callback K) → List (ℕ × Callback K)
  from none cbs = []
  from (some fd) [] = []
  from (some fd) ((k, cb) ∷ cbs) = if fd == k then (k, cb) ∷ cbs else from (some fd) cbs

  pub find-erase_ne :
      (g h : ℕ) (cbs : List (ℕ × Callback K)) → g ≢ h → find g (erase h cbs) ≡ find g cbs
  unfolding find erase
  find-erase_ne g h [] n = refl
  find-erase_ne g h ((k, cb) ∷ cbs) n = ground (arith, find-erase_ne g h cbs n)

  pub find-erase-none :
      (g h : ℕ) (cbs : List (ℕ × Callback K)) → find g cbs ≡ none → find g (erase h cbs) ≡ none
  unfolding find erase
  find-erase-none g h [] n = refl
  find-erase-none g h ((k, cb) ∷ cbs) n = ground (arith, find-erase-none g h cbs)

  pub erase_absent : (g : ℕ) (cbs : List (ℕ × Callback K)) → find g cbs ≡ none → erase g cbs ≡ cbs
  unfolding find erase
  erase_absent g [] n = refl
  erase_absent g ((k, cb) ∷ cbs) n = ground (arith, erase_absent g cbs)

  pub find-erase_self :
      (g : ℕ) (cbs : List (ℕ × Callback K)) → IsDistinct cbs → find g (erase g cbs) ≡ none
  unfolding find erase
  find-erase_self g [] d = refl
  find-erase_self g ((k, cb) ∷ cbs) d = ground (arith, find-erase_self g cbs d.1, d.0)

  pub erase-IsDistinct :
      (g : ℕ) (cbs : List (ℕ × Callback K)) → IsDistinct cbs → IsDistinct (erase g cbs)
  unfolding erase
  erase-IsDistinct g [] d = tt
  erase-IsDistinct g ((k, cb) ∷ cbs) d =
      ground (arith, erase-IsDistinct g cbs d.1, find-erase-none k g cbs d.0)

  after_absent : (fd : ℕ) (cbs : List (ℕ × Callback K)) → find fd cbs ≡ none → after fd cbs ≡ []
  unfolding find after
  after_absent fd [] n = refl
  after_absent fd ((k, cb) ∷ cbs) n = ground (arith, after_absent fd cbs)

  find-after-none :
      (g fd : ℕ) (cbs : List (ℕ × Callback K)) → find g cbs ≡ none → find g (after fd cbs) ≡ none
  unfolding find after
  find-after-none g fd [] n = refl
  find-after-none g fd ((k, cb) ∷ cbs) n = ground (arith, find-after-none g fd cbs)

  pub find-after_self :
      (fd : ℕ) (cbs : List (ℕ × Callback K)) → IsDistinct cbs → find fd (after fd cbs) ≡ none
  unfolding find after
  find-after_self fd [] d = refl
  find-after_self fd ((k, cb) ∷ cbs) d = ground (arith, find-after_self fd cbs d.1)

  pub after-erase :
      (fd g : ℕ) (cbs : List (ℕ × Callback K))
      → IsDistinct cbs
      → fd ≢ g
      → after fd (erase g cbs) ≡ erase g (after fd cbs)
  unfolding after erase
  after-erase fd g [] d n = refl
  after-erase fd g ((k, cb) ∷ cbs) d n =
      ground
        (arith, after-erase fd g cbs d.1 n, erase_absent g (after fd cbs), find-after-none g fd cbs)

  find-from-none :
      (g : ℕ) (o : Option ℕ) (cbs : List (ℕ × Callback K))
      → find g cbs ≡ none
      → find g (from o cbs) ≡ none
  unfolding find from
  find-from-none g none cbs n = refl
  find-from-none g (some fd) [] n = refl
  find-from-none g (some fd) ((k, cb) ∷ cbs) n = ground (arith, find-from-none g (some fd) cbs)

  pub from-erase :
      (fd g : ℕ) (cbs : List (ℕ × Callback K))
      → IsDistinct cbs
      → fd ≢ g
      → from (some fd) (erase g cbs) ≡ erase g (from (some fd) cbs)
  unfolding from erase
  from-erase fd g [] d n = refl
  from-erase fd g ((k, cb) ∷ cbs) d n = ground (
    arith,
    from-erase fd g cbs d.1 n,
    erase_absent g (from (some fd) cbs),
    find-from-none g (some fd) cbs,
  )

  next_key_absent :
      (fd k : ℕ) (cbs : List (ℕ × Callback K)) → find k cbs ≡ none → next_key fd cbs ≢ some k
  unfolding next_key find first_key
  next_key_absent fd k [] n = ground arith
  next_key_absent fd k ((j, cb) ∷ []) n = ground arith
  next_key_absent fd k ((j, cb) ∷ (i, cb') ∷ cbs) n =
      ground (arith, next_key_absent fd k ((i, cb') ∷ cbs))

  from_skip :
      (o : Option ℕ) (k : ℕ) (cb : Callback K) (cbs : List (ℕ × Callback K))
      → o ≢ some k
      → from o ((k, cb) ∷ cbs) ≡ from o cbs
  unfolding from
  from_skip none k cb cbs n = refl
  from_skip (some j) k cb cbs n = ground arith

  pub from-first_key : (cbs : List (ℕ × Callback K)) → from (first_key cbs) cbs ≡ cbs
  unfolding from first_key
  from-first_key [] = refl
  from-first_key ((k, cb) ∷ cbs) = ground arith

  first_key_absent :
      (k : ℕ) (cbs : List (ℕ × Callback K)) → find k cbs ≡ none → first_key cbs ≢ some k
  unfolding find first_key
  first_key_absent k [] n = ground arith
  first_key_absent k ((j, cb) ∷ cbs) n = ground arith

  pub from-next_key :
      (fd : ℕ) (cbs : List (ℕ × Callback K))
      → IsDistinct cbs
      → from (next_key fd cbs) cbs ≡ after fd cbs
  unfolding next_key after
  from-next_key fd [] d = unfold from in refl
  from-next_key fd ((k, cb) ∷ cbs) d = ground (
    arith,
    from-next_key fd cbs d.1,
    from-first_key cbs,
    from_skip (first_key cbs) k cb cbs,
    from_skip (next_key fd cbs) k cb cbs,
    next_key_absent fd k cbs d.0,
    first_key_absent k cbs d.0,
  )

  pub from-next_key-erase :
      (fd : ℕ) (cbs : List (ℕ × Callback K))
      → IsDistinct cbs
      → from (next_key fd cbs) (erase fd cbs) ≡ after fd cbs
  unfolding next_key after erase
  from-next_key-erase fd [] d = unfold from in refl
  from-next_key-erase fd ((k, cb) ∷ cbs) d = ground (
    arith,
    from-next_key-erase fd cbs d.1,
    from-first_key cbs,
    from_skip (next_key fd cbs) k cb (erase fd cbs),
    next_key_absent fd k cbs d.0,
  )

  pub erase-from :
      (k : ℕ) (cbs : List (ℕ × Callback K))
      → IsDistinct cbs
      → erase k (from (some k) cbs) ≡ after k cbs
  unfolding erase from after
  erase-from k [] d = refl
  erase-from k ((j, cb) ∷ cbs) d = ground (arith, erase-from k cbs d.1)
