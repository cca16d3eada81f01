-- ===== src/SelectEvent/Removal.antt =====
-- `remove_read_event` in a callback, and the iterator of the pass that runs it.
use pexec.Base.{
  ℕ, true, false, Option, none, some, List, [], ◌∷◌, ◌≡◌, ◌≢◌, refl, sym, subst, arith,
  Option-cases, inl, inr, Bool-cases, if◌then◌else◌,
}
use pexec.Run.{Run, done, ◌>>=◌, Ensures, Ensures-bind, Ensures-imp}
use pexec.SelectEvent.{
  Loop, Callback, find, next_key, erase, remove_read_event, removed, points_to, advance,
}
use pexec.SelectEvent.Table.{
  IsDistinct, after, from, find-after_self, after-erase, from-erase, from-next_key,
  from-next_key-erase, erase_absent, erase-IsDistinct, erase-from,
}

module _ {K : Type 0} where
  -- What the pass has still to visit, seen from the callback of `fd`.
  upcoming : ℕ → Loop K → List (ℕ × Callback K)
  upcoming fd l = if l.actual_iterator_deleted then from l.actual_iterator l.cbs else after fd l.cbs

  -- In the callback of `fd`: the iterator is there, or has moved on.
  record IsVisiting (fd : ℕ) (l : Loop K) : Type 0 where
    distinct : IsDistinct l.cbs
    here : l.actual_iterator_deleted ≡ false → l.actual_iterator ≡ some fd

  abbrev Keeps : ℕ → ℕ → Loop K → Loop K → Type 0
  Keeps fd g l l1 =
      (upcoming fd l1 ≡ erase g (upcoming fd l)) × IsVisiting fd l1 × (l1.cbs ≡ erase g l.cbs)

  -- The iterator points to the removed element.
  remove_pointed :
      (fd g : ℕ) (l : Loop K)
      → IsVisiting fd l
      → points_to l.actual_iterator g ≡ true
      → Keeps fd g l (record l {
        recompute_max_fds = true;
        actual_iterator_deleted = true;
        actual_iterator = next_key g l.cbs;
        cbs = erase g l.cbs;
      })
  unfolding upcoming points_to
  remove_pointed fd g l v p = (
    ground (
      arith,
      from-next_key-erase g l.cbs v.distinct,
      erase_absent g (after g l.cbs),
      find-after_self g l.cbs v.distinct,
      erase-from g l.cbs v.distinct,
    ),
    record { distinct = erase-IsDistinct g l.cbs v.distinct; here = λ e. cc },
    refl,
  )

  -- The iterator points elsewhere.
  remove_other :
      (fd g : ℕ) (l : Loop K)
      → IsVisiting fd l
      → points_to l.actual_iterator g ≡ false
      → Keeps fd g l (record l { recompute_max_fds = true; cbs = erase g l.cbs })
  unfolding upcoming points_to
  remove_other fd g l v p = (
    ground (arith, after-erase fd g l.cbs v.distinct, moved l.actual_iterator p),
    record { distinct = erase-IsDistinct g l.cbs v.distinct; here = v.here },
    refl,
  )
    where
      moved :
          (o : Option ℕ) → points_to o g ≡ false → from o (erase g l.cbs) ≡ erase g (from o l.cbs)
      moved none q = unfold from erase in refl
      moved (some k) q = from-erase k g l.cbs v.distinct (ground arith)

  remove_upcoming :
      (fd g : ℕ) (l : Loop K) → IsVisiting fd l → Ensures (Keeps fd g l) (remove_read_event g l)
  unfolding remove_read_event
  remove_upcoming fd g l v = elim (Option-cases (find g l.cbs)) [
    | inl e ↦ rw (e, remove_read_event) tt
    | inr (cb, e) ↦ elim (Bool-cases (points_to l.actual_iterator g)) [
      | inl p ↦ rw (e, remove_read_event) (rw (p, removed) (remove_pointed fd g l v p))
      | inr p ↦ rw (e, remove_read_event) (rw (p, removed) (remove_other fd g l v p))
    ]
  ]

  -- What a callback removes, in order.
  pub remove_all : List ℕ → Loop K → Run (Loop K)
  remove_all [] l = done l
  remove_all (g ∷ gs) l = do l1 ← remove_read_event g l; remove_all gs l1

  pub erase_all : List ℕ → List (ℕ × Callback K) → List (ℕ × Callback K)
  erase_all [] cbs = cbs
  erase_all (g ∷ gs) cbs = erase_all gs (erase g cbs)

  abbrev KeepsAll : ℕ → List ℕ → Loop K → Loop K → Type 0
  KeepsAll fd gs l l1 =
      (upcoming fd l1 ≡ erase_all gs (upcoming fd l))
      × IsVisiting fd l1
      × (l1.cbs ≡ erase_all gs l.cbs)

  remove_all_upcoming :
      (fd : ℕ) (gs : List ℕ) (l : Loop K)
      → IsVisiting fd l
      → Ensures (KeepsAll fd gs l) (remove_all gs l)
  unfolding remove_all erase_all
  remove_all_upcoming fd [] l v = (refl, v, refl)
  remove_all_upcoming fd (g ∷ gs) l v =
      Ensures-bind (Keeps fd g l) _ (remove_read_event g l) (remove_all gs)
        (remove_upcoming fd g l v)
        λ l1 k.
          Ensures-imp (KeepsAll fd gs l1) _ (remove_all gs l1) (remove_all_upcoming fd gs l1 k.1)
            λ l2 h. (cc, h.1, cc)

  -- Each is in the table when its turn comes.
  abbrev pub AllIn : List ℕ → List (ℕ × Callback K) → Type 0
  AllIn [] cbs = Unit
  AllIn (g ∷ gs) cbs = (find g cbs ≢ none) × AllIn gs (erase g cbs)

  remove_total :
      (g : ℕ) (l : Loop K)
      → find g l.cbs ≢ none
      → (l1 : Loop K) × (remove_read_event g l ≡ done l1) × (l1.cbs ≡ erase g l.cbs)
  unfolding remove_read_event
  remove_total g l h = elim (Option-cases (find g l.cbs)) [
    | inl e ↦ absurd (h e)
    | inr (cb, e) ↦ (removed g l, rw (e, remove_read_event), ground arith)
  ]

  remove_all-total :
      (gs : List ℕ) (l : Loop K) → AllIn gs l.cbs → (l1 : Loop K) × (remove_all gs l ≡ done l1)
  unfolding remove_all
  remove_all-total [] l h = (l, refl)
  remove_all-total (g ∷ gs) l h =
      let (l1, e, c) = remove_total g l h.0 in
      let (l2, e2) = remove_all-total gs l1 (subst (AllIn gs) (sym c) h.1) in (l2, rw e e2)

  -- In a table where no descriptor stands twice, with the flag down and the iterator at `fd`:
  -- whatever descriptors the callback of `fd` removes, each in the table when its turn comes, its
  -- own included: no assertion fails, and the round ends with the flag down, the table less those
  -- descriptors, and the iterator at the first element behind `fd` that was not removed, all later
  -- ones behind it in order. So no element is skipped or visited twice.
  pub advance-remove_all :
      (fd : ℕ) (gs : List ℕ) (l : Loop K)
      → IsDistinct l.cbs
      → l.actual_iterator ≡ some fd
      → l.actual_iterator_deleted ≡ false
      → AllIn gs l.cbs
      → (l1 : Loop K) × (remove_all gs l ≡ done l1)
        × (from (advance fd l1).actual_iterator (advance fd l1).cbs ≡ erase_all gs (after fd l.cbs))
        × ((advance fd l1).actual_iterator_deleted ≡ false)
        × ((advance fd l1).cbs ≡ erase_all gs l.cbs)
        × IsDistinct (advance fd l1).cbs
  unfolding upcoming advance
  advance-remove_all fd gs l d i e a =
      let (l1, r) = remove_all-total gs l a in
      let k : KeepsAll fd gs l l1 =
        rw r at (remove_all_upcoming fd gs l (record { distinct = d; here = λ _. i })) in
      (
        l1,
        r,
        ground (arith, k.0, k.1.here, from-next_key fd l1.cbs k.1.distinct),
        ground arith,
        ground (arith, k.2),
        ground (arith, k.1.distinct),
      )
