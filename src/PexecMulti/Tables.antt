-- ===== src/PexecMulti/Tables.antt =====
-- The tables of `pexec_multi`: what was put is found and can be removed, and the functions that also
-- tell a user's loop.
use pexec.Base.{
  ℕ, true, false, Option, none, some, List, [], ◌∷◌, ◌==◌, ◌≡◌, ◌≢◌, refl, ◌∙◌, ap, inl, inr, arith,
  Bool-cases, if◌then◌else◌,
}
use pexec.PexecMulti.State.{
  Multi, Table, external, Action, fd_key, get, put, remove, emit, register, add_read_event,
  unregister, remove_read_event,
}
use pexec.Run.{done}
use pexec.System.{fd_added, fd_removed}

module _ {A : Type 0} where
  pub get-put : (k : ℕ) (a : A) (t : List (ℕ × A)) → get k (put k a t) ≡ some a
  unfolding get put
  get-put k a [] = let e : (k == k) ≡ true = ground arith in rw e refl
  get-put k a ((j, b) ∷ t) = elim (Bool-cases (k == j)) [
    | inl e ↦ let f : (k == k) ≡ true = ground arith in rw (e, get, f) refl
    | inr e ↦ rw (e, get, e) (get-put k a t)
  ]

  pub get-put_other :
      (j k : ℕ) (a : A) (t : List (ℕ × A)) → (j == k) ≡ false → get j (put k a t) ≡ get j t
  unfolding get put
  get-put_other j k a [] h = rw h refl
  get-put_other j k a ((i, b) ∷ t) h = elim (Bool-cases (k == i)) [
    | inl e ↦ let f : (j == i) ≡ false = ground (arith, e, h) in rw (e, get, h, f) refl
    | inr e ↦ rw (e, get) (ap (λ x. if j == i then some b else x) (get-put_other j k a t h))
  ]

  pub remove-put : (k : ℕ) (a : A) (t : List (ℕ × A)) → get k t ≡ none → remove k (put k a t) ≡ t
  unfolding get put remove
  remove-put k a [] h = let e : (k == k) ≡ true = ground arith in rw e refl
  remove-put k a ((j, b) ∷ t) h = elim (Bool-cases (k == j)) [
    | inl e ↦ let f : some b ≡ none = (rw e at h) in cc
    | inr e ↦ rw (e, remove, e) (ap (λ t. (j, b) ∷ t) (remove-put k a t (rw e at h)))
  ]

  pub remove-put_other :
      (j k : ℕ) (a : A) (t : List (ℕ × A))
      → (j == k) ≡ false
      → remove j (put k a t) ≡ put k a (remove j t)
  unfolding put remove
  remove-put_other j k a [] h = rw h refl
  remove-put_other j k a ((i, b) ∷ t) h = elim (Bool-cases (k == i)) [
    | inl e ↦ let f : (j == i) ≡ false = ground (arith, e, h) in rw (e, remove, h, f, put, e) refl
    | inr e ↦ elim (Bool-cases (j == i)) [
      | inl f ↦ rw (e, remove, f) refl
      | inr f ↦ rw (e, remove, f, put, e) (ap (λ t. (i, b) ∷ t) (remove-put_other j k a t h))
    ]
  ]

  -- No key stands twice in a table.
  abbrev pub IsMap : List (ℕ × A) → Type 0
  IsMap [] = Unit
  IsMap ((k, a) ∷ t) = (get k t ≡ none) × IsMap t

  pub get-remove_self : (k : ℕ) (t : List (ℕ × A)) → IsMap t → get k (remove k t) ≡ none
  unfolding get remove
  get-remove_self k [] d = refl
  get-remove_self k ((j, a) ∷ t) d = ground (arith, get-remove_self k t d.1, d.0)

  pub get-remove_other :
      (j k : ℕ) (t : List (ℕ × A)) → (j == k) ≡ false → get j (remove k t) ≡ get j t
  unfolding get remove
  get-remove_other j k [] h = refl
  get-remove_other j k ((i, a) ∷ t) h = ground (arith, h, get-remove_other j k t h)

  get-remove-none : (j k : ℕ) (t : List (ℕ × A)) → get j t ≡ none → get j (remove k t) ≡ none
  unfolding get remove
  get-remove-none j k [] h = refl
  get-remove-none j k ((i, a) ∷ t) h = ground (arith, get-remove-none j k t)

  pub remove-IsMap : (k : ℕ) (t : List (ℕ × A)) → IsMap t → IsMap (remove k t)
  unfolding remove
  remove-IsMap k [] d = tt
  remove-IsMap k ((j, a) ∷ t) d = ground (arith, remove-IsMap k t d.1, get-remove-none j k t d.0)

  pub put-IsMap : (k : ℕ) (a : A) (t : List (ℕ × A)) → IsMap t → IsMap (put k a t)
  unfolding put get
  put-IsMap k a [] d = (refl, tt)
  put-IsMap k a ((j, b) ∷ t) d = elim (Bool-cases (k == j)) [
    | inl e ↦ let f : k ≡ j = ground (arith, e) in rw (e, put) (rw f d.0, d.1)
    | inr e ↦
        let f : (j == k) ≡ false = ground (arith, e) in
        rw (e, put) (get-put_other j k a t f ∙ d.0, put-IsMap k a t d.1)
  ]

pub fd_key-differs : (a b : Option ℕ) → a ≢ b → (fd_key a == fd_key b) ≡ false
fd_key-differs none none h = absurd (h refl)
fd_key-differs none (some n) h = ground arith
fd_key-differs (some r) none h = ground arith
fd_key-differs (some r) (some n) h = elim (Bool-cases (r == n)) [
  | inl e ↦ absurd (h (let f : r ≡ n = ground (arith, e) in ap some f))
  | inr e ↦ ground (arith, e)
]

-- A table of the user's.
abbrev pub IsExternal : Multi → Type 0
IsExternal m = (m.kind ≡ external) × (m.registers ≡ true)

module _ (place : Table → ℕ → ℕ) where
  pub add-external :
      (fd : Option ℕ) (a : Action) (m : Multi)
      → IsExternal m
      → add_read_event place fd a m
        ≡ done (record m { registered = put (fd_key fd) a m.registered; log = fd_added fd ∷ m.log })
  unfolding add_read_event register
  add-external fd a m (k, r) =
      let m1 : Multi = record m { registered = put (fd_key fd) a m.registered } in
      ap (λ kind. register place kind fd m1) k
      ∙ ap (λ b. done (if b then emit (fd_added fd) m1 else m1)) r

pub remove-external :
    (fd : Option ℕ) (m : Multi)
    → IsExternal m
    → remove_read_event fd m
      ≡ done
          (record m { registered = remove (fd_key fd) m.registered; log = fd_removed fd ∷ m.log })
unfolding remove_read_event unregister
remove-external fd m (k, r) =
    let m1 : Multi = record m { registered = remove (fd_key fd) m.registered } in
    ap (λ kind. unregister kind fd m1) k
    ∙ ap (λ b. done (if b then emit (fd_removed fd) m1 else m1)) r
