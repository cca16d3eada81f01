-- ===== src/PexecMulti/InStep.antt =====
-- The default loop: the table of `pexec_multi` and that of its event loop stay in step.
use pexec.Base.{
  ℕ, suc, Bool, true, false, Option, none, some, List, ◌==◌, ◌≡◌, ◌≢◌, refl, sym, ◌∙◌, ap, subst,
  arith, Bool-cases, Option-cases, inl, inr, if◌then◌else◌,
}
use pexec.PexecMulti.Rule.{KeepsTables}
use pexec.PexecMulti.RuleActs.{do_action-kept}
use pexec.PexecMulti.Serve.{act, do_action, client}
use pexec.PexecMulti.State.{
  Multi, Table, LoopType, default, Action, process_error, fd_key, get, put, remove, register,
  add_read_event, unregister, remove_read_event,
}
use pexec.PexecMulti.Tables.{
  IsMap, get-put, get-put_other, put-IsMap, get-remove_self, get-remove_other, remove-IsMap,
}
use pexec.PexecSingle.Loop.{Setting}
use pexec.Run.{Ensures, Ensures-bind}
use pexec.SelectEvent
use pexec.SelectEvent.Rule.{Frame, frame, IsKept, loop-kept}
use pexec.SelectEvent.{EventReturn, Loop, Callback, find, erase}
use pexec.SelectEvent.Insert.{Added, add_read_event-Ensures, remove_read_event-Ensures}
use pexec.SelectEvent.Table.{IsDistinct, find-erase_self, find-erase_ne, erase-IsDistinct}

-- With the default loop, whose control pipe is read at `r`: no descriptor stands twice in a table,
-- and every other descriptor stands in both or in none.
pub record InStep (r : ℕ) (kind : LoopType) (registers : Bool) (registered : List (ℕ × Action))
    (cbs : Table) : Type 0 where
  pub is_default : kind ≡ default
  pub is_map : IsMap registered
  pub distinct : IsDistinct cbs
  pub not_watched :
      (fd : ℕ) → (fd == r) ≡ false → get (suc fd) registered ≡ none → find fd cbs ≡ none
  pub not_registered :
      (fd : ℕ) → (fd == r) ≡ false → find fd cbs ≡ none → get (suc fd) registered ≡ none

get-put_if :
    (g fd : ℕ) (a : Action) (t : List (ℕ × Action))
    → get (suc g) (put (suc fd) a t) ≡ (if g == fd then some a else get (suc g) t)
get-put_if g fd a t = elim (Bool-cases (g == fd)) [
  | inl q ↦
      let same : g ≡ fd = ground (arith, q) in
      rw q (ap (λ k. get (suc k) (put (suc fd) a t)) same ∙ get-put (suc fd) a t)
  | inr q ↦
      let other : (suc g == suc fd) ≡ false = ground (arith, q) in
      rw q (get-put_other (suc g) (suc fd) a t other)
]

get-remove_if :
    (g fd : ℕ) (t : List (ℕ × Action))
    → IsMap t
    → get (suc g) (remove (suc fd) t) ≡ (if g == fd then none else get (suc g) t)
get-remove_if g fd t d = elim (Bool-cases (g == fd)) [
  | inl q ↦
      let same : g ≡ fd = ground (arith, q) in
      rw q (ap (λ k. get (suc k) (remove (suc fd) t)) same ∙ get-remove_self (suc fd) t d)
  | inr q ↦
      let other : (suc g == suc fd) ≡ false = ground (arith, q) in
      rw q (get-remove_other (suc g) (suc fd) t other)
]

find-erase_if :
    (g fd : ℕ) (cbs : Table)
    → IsDistinct cbs
    → find g (erase fd cbs) ≡ (if g == fd then none else find g cbs)
find-erase_if g fd cbs d = elim (Bool-cases (g == fd)) [
  | inl q ↦
      let same : g ≡ fd = ground (arith, q) in
      rw q (ap (λ k. find k (erase fd cbs)) same ∙ find-erase_self fd cbs d)
  | inr q ↦ let other : g ≢ fd = λ e. ground (arith, q, e) in rw q (find-erase_ne g fd cbs other)
]

-- The same choice for both tables.
both :
    {A B : Type 0} (b : Bool) (o o1 o2 : Option A) (p p1 p2 : Option B)
    → p ≡ (if b then p1 else p2)
    → o ≡ (if b then o1 else o2)
    → (o1 ≡ none → p1 ≡ none)
    → (o2 ≡ none → p2 ≡ none)
    → o ≡ none
    → p ≡ none
both true o o1 o2 p p1 p2 e f h k n = e ∙ h (sym f ∙ n)
both false o o1 o2 p p1 p2 e f h k n = e ∙ k (sym f ∙ n)

module _ (r : ℕ) where
  abbrev S : Multi → Type 0
  S m = InStep r m.kind m.registers m.registered m.loop.cbs

  put-InStep :
      (fd : ℕ) (a : Action) (m : Multi) (l : Loop (Unit {0}))
      → S m
      → Added fd (Callback.client tt) m.loop l
      → S (record m { registered = put (suc fd) a m.registered; loop = l })
  put-InStep fd a m l s d = record {
    is_default = s.is_default;
    is_map = put-IsMap (suc fd) a m.registered s.is_map;
    distinct = d.distinct;
    not_watched = λ g n.
        both (g == fd) _ (some a) _ _ (some (Callback.client tt)) _ (d.found g)
          (get-put_if g fd a m.registered) (λ e. cc) (s.not_watched g n);
    not_registered = λ g n.
        both (g == fd) _ (some (Callback.client tt)) _ _ (some a) _ (get-put_if g fd a m.registered)
          (d.found g) (λ e. cc) (s.not_registered g n);
  }

  remove-InStep :
      (fd : ℕ) (m : Multi) (l : Loop (Unit {0}))
      → S m
      → l.cbs ≡ erase fd m.loop.cbs
      → S (record m { registered = remove (suc fd) m.registered; loop = l })
  remove-InStep fd m l s e =
      let found : (g : ℕ) → find g l.cbs ≡ (if g == fd then none else find g m.loop.cbs) =
        λ g. ap (λ t. find g t) e ∙ find-erase_if g fd m.loop.cbs s.distinct in
      let got : (g : ℕ)
          → get (suc g) (remove (suc fd) m.registered)
            ≡ (if g == fd then none else get (suc g) m.registered) =
        λ g. get-remove_if g fd m.registered s.is_map in
      record {
        is_default = s.is_default;
        is_map = remove-IsMap (suc fd) m.registered s.is_map;
        distinct = rw e (erase-IsDistinct fd m.loop.cbs s.distinct);
        not_watched = λ g n.
            both (g == fd) _ none _ _ none _ (found g) (got g) (λ e. refl) (s.not_watched g n);
        not_registered = λ g n.
            both (g == fd) _ none _ _ none _ (got g) (found g) (λ e. refl) (s.not_registered g n);
      }

  abbrev Tables : LoopType → Bool → List (ℕ × Action) → Loop (Unit {0}) → Type 0
  Tables kind registers registered loop = InStep r kind registers registered loop.cbs

  module _ (place : Table → ℕ → ℕ) where
    register-InStep :
        (fd : Option ℕ) (a : Action) (m : Multi)
        → S m
        → Ensures S
            (register place default fd (record m { registered = put (fd_key fd) a m.registered }))
    unfolding register
    register-InStep none a m s = tt
    register-InStep (some fd) a m s =
        Ensures-bind (Added fd (Callback.client tt) m.loop) S
          (SelectEvent.add_read_event place fd (Callback.client tt) m.loop) _
          (add_read_event-Ensures place fd (Callback.client tt) m.loop s.distinct)
          λ l d. put-InStep fd a m l s d

    unregister-InStep :
        (fd : Option ℕ) (m : Multi)
        → S m
        → Ensures S
            (unregister default fd (record m { registered = remove (fd_key fd) m.registered }))
    unfolding unregister
    unregister-InStep none m s = tt
    unregister-InStep (some fd) m s =
        Ensures-bind (λ l. l.cbs ≡ erase fd m.loop.cbs) S (SelectEvent.remove_read_event fd m.loop)
          _ (remove_read_event-Ensures fd m.loop) λ l e. remove-InStep fd m l s e

    step_keeps : KeepsTables Tables place
    unfolding add_read_event remove_read_event
    step_keeps = record {
      kept_add = λ fd a m s.
          subst
            (λ kind.
              Ensures S
                (register place kind fd (record m { registered = put (fd_key fd) a m.registered })))
            (sym s.is_default) (register-InStep fd a m s);
      kept_remove = λ fd m s.
          subst
            (λ kind.
              Ensures S
                (unregister kind fd (record m { registered = remove (fd_key fd) m.registered })))
            (sym s.is_default) (unregister-InStep fd m s);
    }

    -- With the default loop, and with the same descriptors in the table of the object as in that of
    -- its event loop, the control pipe of the loop aside: a descriptor that the loop watches has a
    -- function in the table of the object, and that one is what `do_action` calls; and whatever that function does, with its signals, jobs,
    -- new processes and ends of processes, if it returns, the tables are in step again.
    pub do_action-InStep :
        (c : Setting) (fd : ℕ) (m : Multi)
        → InStep r m.kind m.registers m.registered m.loop.cbs
        → ((fd == r) ≡ false
            → find fd m.loop.cbs ≢ none
            → (a : Action) × (get (suc fd) m.registered ≡ some a)
              × (do_action c place fd m ≡ act c place a fd m))
          × Ensures
              (λ m1. InStep r m1.kind m1.registers m1.registered m1.loop.cbs)
              (do_action c place fd m)
    unfolding do_action
    do_action-InStep c fd m s =
        let kept = do_action-kept Tables place step_keeps c fd m s in
        (
          λ n w. elim (Option-cases (get (suc fd) m.registered)) [
            | inl e ↦ absurd (w (s.not_watched fd n e))
            | inr (a, e) ↦ (a, e, rw (e, do_action) refl)
          ],
          kept,
        )

    abbrev Frames : Frame (Unit {0}) → Multi → Type 0
    Frames fr m = InStep r m.kind m.registers m.registered fr.1

    client-IsKept : (c : Setting) → IsKept c.os (client c place) Frames
    unfolding client process_error
    client-IsKept c = record {
      kept_read = λ fr fd q m s. s;
      kept_select = λ fr q m s. s;
      kept_interrupt = λ fr m s. s;
      kept_error = λ fr m s. s;
      kept_call = λ k fd l m s.
          Ensures-bind S (λ (q : EventReturn × Loop (Unit {0}) × Multi). Frames (frame q.1) q.2)
            (do_action c place fd (record m { loop = l })) _
            (do_action-kept Tables place step_keeps c fd (record m { loop = l }) s) λ m1 s1. s1;
    }

    -- Through a whole loop of a default `run`, whatever becomes ready and in whatever order: if the
    -- tables of the object and of the loop are in step when it begins, they are when it returns.
    pub loop-InStep :
        (c : Setting) (fuel tries : ℕ) (l : Loop (Unit {0})) (m : Multi)
        → InStep r m.kind m.registers m.registered l.cbs
        → Ensures
            (λ (q : Loop (Unit {0}) × Multi).
              InStep r q.1.kind q.1.registers q.1.registered q.0.cbs)
            (SelectEvent.loop c.os (client c place) fuel tries l m)
    loop-InStep c fuel tries l m s =
        loop-kept c.os (client c place) Frames (client-IsKept c) fuel tries l m s
