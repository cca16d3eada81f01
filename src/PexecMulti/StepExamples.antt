-- ===== src/PexecMulti/StepExamples.antt =====
-- An object with the default loop whose tables are in step.
use pexec.Base.{ℕ, suc, false, true, none, some, [], ◌∷◌, ◌==◌, ◌≡◌, ◌≢◌, refl, arith, length}
use pexec.PexecMulti.InStep.{InStep, do_action-InStep, loop-InStep}
use pexec.PexecMulti.Serve.{new_multi, client, act, do_action}
use pexec.PexecMulti.State.{Multi, Table, default, Action, control_action, get}
use pexec.PexecSingle.Examples.{setting}
use pexec.Run.{Ensures}
use pexec.SelectEvent.{Loop, loop, Callback, find}

abbrev place : Table → ℕ → ℕ
place t fd = length t

-- The loop's control pipe is read at 9, the object's at 3.
abbrev started : Multi
started = record (new_multi 3 4 default []) {
  has_loop = true;
  registers = true;
  registered = (4, control_action) ∷ [];
  loop = record (new_multi 3 4 default []).loop {
    cbs = (9, Callback.control) ∷ (3, Callback.client tt) ∷ [];
  };
}

started-InStep : InStep 9 default true started.registered started.loop.cbs
unfolding get find
started-InStep = record {
  is_default = refl;
  is_map = (refl, tt);
  distinct = (refl, (refl, tt));
  not_watched = λ fd n e. ground (arith, n, e);
  not_registered = λ fd n e. ground (arith, n, e);
}

do_action-InStep_example :
    ((3 == 9) ≡ false
      → find 3 started.loop.cbs ≢ none
      → (a : Action) × (get (suc 3) started.registered ≡ some a)
        × (do_action setting place 3 started ≡ act setting place a 3 started))
    × Ensures
        (λ m1. InStep 9 m1.kind m1.registers m1.registered m1.loop.cbs)
        (do_action setting place 3 started)
do_action-InStep_example = do_action-InStep 9 place setting 3 started started-InStep

loop-InStep_example :
    Ensures
      (λ (q : Loop (Unit {0}) × Multi). InStep 9 q.1.kind q.1.registers q.1.registered q.0.cbs)
      (loop setting.os (client setting place) 5 9 started.loop started)
loop-InStep_example = loop-InStep 9 place setting 5 9 started.loop started started-InStep
