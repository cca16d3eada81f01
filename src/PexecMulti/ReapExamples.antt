-- ===== src/PexecMulti/ReapExamples.antt =====
-- The SIGCHLD handler with the callbacks of `pexec_multi`, on a system where two children have ended:
-- one that the object has started, and one that the program has started otherwise.
use pexec.Base.{◌+◌, ◌<◌, false, true, [], ◌∷◌, codes, inr, ◌≡◌, ◌⊎◌, refl, arith}
use pexec.PexecMulti.Handle.{new_handle}
use pexec.PexecMulti.Reaps.{owner-read, owner-error-read}
use pexec.PexecMulti.Serve.{new_multi, owner}
use pexec.PexecMulti.State.{Multi, external}
use pexec.PexecSingle.Examples.{setting}
use pexec.PexecSingle.Loop.{Setting}
use pexec.Run.{done}
use pexec.SigchldHandler.{Handler, new_handler, handle_sigchld}
use pexec.SigchldHandler.Children.{is_reap, rounds, Told, Breaks, HasChildren}
use pexec.SigchldHandler.Drain.{handle_sigchld-told}
use pexec.SigchldHandler.Examples.{two_children, ended, first_of-Answers}
use pexec.System.{Event, Log}

abbrev reaping : Setting
reaping = record setting { os = two_children }

ended-quiet : (e : Event) (log : Log) → is_reap e ≡ false → ended (e ∷ log) ≡ ended log
ended-quiet e log h = rw h refl

multi-HasChildren : HasChildren two_children (owner reaping) 0 ended
unfolding owner
multi-HasChildren = record {
  answer = λ log. inr (first_of-Answers (ended log));
  taken = λ pid status log. refl;
  left_alone = ended-quiet;
  log-put = λ log m. refl;
  zombies-call = owner-read ended ended-quiet reaping;
  zombies-error = owner-error-read ended ended-quiet reaping;
}

-- Process 7 is the object's, process 8 is not.
abbrev one_active : Multi
one_active = record (new_multi 3 4 external []) {
  active_procs = (7, 0) ∷ [];
  handles = λ k. new_handle (codes "ls") false false false true;
}

enough : rounds 0 (ended one_active.log) + 0 + 1 < 9
unfolding rounds
enough = omega arith

handle_sigchld-told_example :
    ((s1 : Handler × Multi) × (handle_sigchld
          (owner reaping)
          two_children
          9
          (new_handler, one_active)
        ≡ done s1)
      × Told (owner reaping) ((7, 0) ∷ (8, 256) ∷ []) one_active s1.1
      × (ended s1.1.log ≡ []))
    ⊎ Breaks
        (owner reaping)
        ((7, 0) ∷ (8, 256) ∷ [])
        one_active
        (handle_sigchld (owner reaping) two_children 9 (new_handler, one_active))
unfolding owner
handle_sigchld-told_example =
    handle_sigchld-told two_children (owner reaping) 0 ended multi-HasChildren 9
      (new_handler, one_active) enough
