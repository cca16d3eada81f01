-- ===== src/Programs/Entries.antt =====
-- The map of multi_libevent2.cpp follows the table of the library.
use pexec.Base.{
  ℕ, ◌-◌, true, false, Bool, Option, none, some, List, ◌∷◌, ◌==◌, ◌≡◌, refl, sym, ◌∙◌, ap, subst,
  arith, length, Bool-cases, inl, inr, if◌then◌else◌,
}
use pexec.PexecMulti.State.{
  Multi, Table, Action, fd_key, get, put, remove, add_read_event, remove_read_event,
}
use pexec.PexecMulti.Tables.{
  IsMap, IsExternal, add-external, remove-external, get-put, get-put_other, put-IsMap,
  get-remove_self, get-remove_other, remove-IsMap,
}
use pexec.Programs.Libevent.{Libevent, Program, on_register, register_new, followed}
use pexec.Run.{done}
use pexec.System.{Event, fd_added, fd_removed}

module _ {A : Type 0} where
  abbrev pub is_some : Option A → Bool
  is_some none = false
  is_some (some a) = true

  -- Whether `k` is a key of the table.
  abbrev pub has : ℕ → List (ℕ × A) → Bool
  has k t = is_some (get k t)

  has-put :
      (j k : ℕ) (a : A) (t : List (ℕ × A)) → has j (put k a t) ≡ (if j == k then true else has j t)
  has-put j k a t = elim (Bool-cases (j == k)) [
    | inl q ↦
        let same : j ≡ k = ground (arith, q) in
        let found : get j (put k a t) ≡ some a = ap (λ i. get i (put k a t)) same ∙ get-put k a t in
        rw q (ap is_some found)
    | inr q ↦ rw q (ap is_some (get-put_other j k a t q))
  ]

  has-remove :
      (j k : ℕ) (t : List (ℕ × A))
      → IsMap t
      → has j (remove k t) ≡ (if j == k then false else has j t)
  has-remove j k t d = elim (Bool-cases (j == k)) [
    | inl q ↦
        let same : j ≡ k = ground (arith, q) in
        let lost : get j (remove k t) ≡ none =
          ap (λ i. get i (remove k t)) same ∙ get-remove_self k t d in
        rw q (ap is_some lost)
    | inr q ↦ rw q (ap is_some (get-remove_other j k t q))
  ]

-- The map has an entry for just the keys of the library's table, and each once.
pub record Follows {B E : Type 0} (p : Program B E) : Type 0 where
  pub is_map : IsMap p.events
  pub table_is_map : IsMap p.procs.registered
  pub same_keys : (k : ℕ) → has k p.events ≡ has k p.procs.registered

module _ {B E : Type 0} (lib : Libevent B E) where
  -- One event behind the log.
  followed_one :
      (e : Event) (m : Multi) (p : Program B E)
      → m.log ≡ e ∷ p.procs.log
      → followed lib m p ≡ record (on_register lib e p) { procs = m }
  unfolding followed register_new
  followed_one e m p q =
      let one : length m.log - length p.procs.log ≡ 1 = omega (arith, ap (λ l. length l) q) in
      ap (λ k. record (register_new lib k m.log p) { procs = m }) one
      ∙ ap (λ log. record (register_new lib 1 log p) { procs = m }) q

  added-Follows :
      (fd : Option ℕ) (a : Action) (m : Multi) (p : Program B E)
      → Follows p
      → m.registered ≡ put (fd_key fd) a p.procs.registered
      → Follows (record (on_register lib (fd_added fd) p) { procs = m })
  unfolding on_register
  added-Follows fd a m p f e = record {
    is_map = put-IsMap (fd_key fd) _ p.events f.is_map;
    table_is_map = rw e (put-IsMap (fd_key fd) a p.procs.registered f.table_is_map);
    same_keys = λ k.
        has-put k (fd_key fd) _ p.events
        ∙ ap (λ b. if k == fd_key fd then true else b) (f.same_keys k)
        ∙ sym (has-put k (fd_key fd) a p.procs.registered)
        ∙ ap (λ t. has k t) (sym e);
  }

  removed-Follows :
      (fd : Option ℕ) (m : Multi) (p : Program B E)
      → Follows p
      → m.registered ≡ remove (fd_key fd) p.procs.registered
      → Follows (record (on_register lib (fd_removed fd) p) { procs = m })
  unfolding on_register
  removed-Follows fd m p f e = record {
    is_map = remove-IsMap (fd_key fd) p.events f.is_map;
    table_is_map = rw e (remove-IsMap (fd_key fd) p.procs.registered f.table_is_map);
    same_keys = λ k.
        has-remove k (fd_key fd) p.events f.is_map
        ∙ ap (λ b. if k == fd_key fd then false else b) (f.same_keys k)
        ∙ sym (has-remove k (fd_key fd) p.procs.registered f.table_is_map)
        ∙ ap (λ t. has k t) (sym e);
  }

  -- With libevent's loop: while the map has an entry for just the descriptors that the library has
  -- registered, a registration and a removal succeed, and the program's function, told of them, has
  -- the map follow, for a descriptor that was there before or not.
  pub followed-Follows :
      (place : Table → ℕ → ℕ) (fd : Option ℕ) (a : Action) (p : Program B E)
      → IsExternal p.procs
      → Follows p
      → ((m : Multi) × (add_read_event place fd a p.procs ≡ done m) × Follows (followed lib m p))
        × ((m : Multi) × (remove_read_event fd p.procs ≡ done m) × Follows (followed lib m p))
  followed-Follows place fd a p x f =
      let m1 : Multi = record p.procs {
        registered = put (fd_key fd) a p.procs.registered;
        log = fd_added fd ∷ p.procs.log;
      } in
      let m2 : Multi = record p.procs {
        registered = remove (fd_key fd) p.procs.registered;
        log = fd_removed fd ∷ p.procs.log;
      } in
      (
        (
          m1,
          add-external place fd a p.procs x,
          subst Follows (sym (followed_one (fd_added fd) m1 p refl))
              (added-Follows fd a m1 p f refl),
        ),
        (
          m2,
          remove-external fd p.procs x,
          subst Follows (sym (followed_one (fd_removed fd) m2 p refl))
              (removed-Follows fd m2 p f refl),
        ),
      )
