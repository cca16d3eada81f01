-- ===== src/PexecMulti/Same.antt =====
-- What the functions of the tables leave as it is.
use pexec.Base.{ℕ, Option, none, some, ◌≡◌, refl, ◌∙◌, inl, inr, Bool-cases}
use pexec.PexecMulti.State.{
  Multi, Table, LoopType, default, external, Action, register, add_read_event, unregister,
  remove_read_event,
}
use pexec.Run.{Run, done, ◌>>=◌, Ensures, Ensures-bind, Ensures-imp, Ensures-any}
use pexec.SelectEvent
use pexec.SelectEvent.{Loop}

abbrev pub Same : Multi → Multi → Type 0
Same m m1 = (m1.stopping ≡ m.stopping) × (m1.active_procs ≡ m.active_procs) × (m1.buffer ≡ m.buffer)

Same-refl : (m : Multi) → Same m m
Same-refl m = (refl, refl, refl)

pub unregister-Same :
    (kind : LoopType) (fd : Option ℕ) (m : Multi) → Ensures (Same m) (unregister kind fd m)
unfolding unregister
unregister-Same default none m = tt
unregister-Same default (some fd) m =
    Ensures-bind (λ _. Unit {0}) (Same m) (SelectEvent.remove_read_event fd m.loop)
      (λ l. done (record m { loop = l })) (Ensures-any (SelectEvent.remove_read_event fd m.loop))
      (λ l _. Same-refl m)
unregister-Same external fd m = elim (Bool-cases m.registers) [
  | inl e ↦ rw e (Same-refl m)
  | inr e ↦ rw e (Same-refl m)
]

pub remove-Same : (fd : Option ℕ) (m : Multi) → Ensures (Same m) (remove_read_event fd m)
unfolding remove_read_event
remove-Same fd m = unregister-Same m.kind fd _

module _ (place : Table → ℕ → ℕ) where
  register-Same :
      (kind : LoopType) (fd : Option ℕ) (m : Multi) → Ensures (Same m) (register place kind fd m)
  unfolding register
  register-Same default none m = tt
  register-Same default (some fd) m =
      Ensures-bind (λ _. Unit {0}) (Same m)
        (SelectEvent.add_read_event place fd (SelectEvent.Callback.client tt) m.loop)
        (λ l. done (record m { loop = l }))
        (Ensures-any (SelectEvent.add_read_event place fd (SelectEvent.Callback.client tt) m.loop))
        (λ l _. Same-refl m)
  register-Same external fd m = elim (Bool-cases m.registers) [
    | inl e ↦ rw e (Same-refl m)
    | inr e ↦ rw e (Same-refl m)
  ]

  pub add-Same :
      (fd : Option ℕ) (a : Action) (m : Multi) → Ensures (Same m) (add_read_event place fd a m)
  unfolding add_read_event
  add-Same fd a m = register-Same m.kind fd _

-- Two functions of the tables, one after the other.
pub Same-then :
    (m : Multi) (r : Run Multi) (f : Multi → Run Multi)
    → Ensures (Same m) r
    → ((m1 : Multi) → Ensures (Same m1) (f m1))
    → Ensures (Same m) (r >>= f)
Same-then m r f a b = Ensures-bind (Same m) (Same m) r f a (λ m1 (s, p, q).
    Ensures-imp (Same m1) (Same m) (f m1) (b m1) (λ m2 (s2, p2, q2). (s2 ∙ s, p2 ∙ p, q2 ∙ q)))
