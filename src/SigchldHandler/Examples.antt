-- ===== src/SigchldHandler/Examples.antt =====
-- An owner that notes the calls of its callback, on a system where two children have ended, and an
-- instance of each theorem on it.
use pexec.Base.{
  same_bytes, ℕ, zero, suc, ◌+◌, Bool, true, false, some, List, [], ◌∷◌, ◌++◌, ◌≡◌, ◌≢◌, refl, inl,
}
use pexec.Error.{no_error, sigaction_reset_error}
use pexec.SelectEvent.{EventReturn}
use pexec.Run.{Run, done}
use pexec.System.{Log, Os, got, WaitResult, reaped, not_ready, ready, on_error}
use pexec.System.Ledger.{opens, closes, holds}
use pexec.Util.Close.{no_pipe}
use pexec.SigchldHandler.{
  Handler, new_handler, Owner, tell_error, create, destroy, handle_sigchld, read_signal,
  process_error,
}
use pexec.SigchldHandler.Lifecycle.{IsOwner, create-destroy}
use pexec.SigchldHandler.Children.{is_reap, Answers, rest_of}

abbrev pub counted : Bool → ℕ → ℕ
counted true n = suc n
counted false n = n

abbrev pub reaps : Log → ℕ
reaps [] = 0
reaps (e ∷ log) = counted (is_reap e) (reaps log)

abbrev pub drop : ℕ → List (ℕ × ℕ) → List (ℕ × ℕ)
drop zero zs = zs
drop (suc n) zs = rest_of (drop n zs)

-- Child 7 has exited with code 0, child 8 with code 1.
abbrev pub ended : Log → List (ℕ × ℕ)
ended log = drop (reaps log) ((7, 0) ∷ (8, 256) ∷ [])

abbrev pub first_of : List (ℕ × ℕ) → WaitResult
first_of [] = not_ready
first_of ((pid, status) ∷ zs) = reaped pid status

abbrev pub two_children : Os
two_children = record {
  pipe2 = λ log. some (3, 4);
  read = λ log fd size. got (17 ∷ 0 ∷ 0 ∷ 0 ∷ []);
  get_flags = λ log fd. 2;
  set_flags = λ log fd flags. true;
  sigaction = λ log. true;
  sigprocmask = λ log. true;
  fork = λ log. some 7;
  waitpid = λ log pid. first_of (ended log);
  select = λ log. ready (λ fd. false);
  errno = λ log. 0;
}

abbrev pub Noted : Type 0
Noted = Log × List (ℕ × ℕ)

abbrev note : ℕ → ℕ → Noted → Noted
note pid status (log, told) = (log, told ++ (pid, status) ∷ [])

abbrev pub noting : Owner Noted
noting = record {
  log_of = λ x. x.0;
  put_log = λ log x. (log, x.1);
  on_signal = some (λ pid status x. done (note pid status x));
  on_error = some (λ err x. (on_error err ∷ x.0, x.1));
}

pub first_of-Answers : (zs : List (ℕ × ℕ)) → Answers zs (first_of zs)
first_of-Answers [] = inl refl
first_of-Answers ((pid, status) ∷ zs) = refl

noting-IsOwner : IsOwner noting
unfolding tell_error
noting-IsOwner = record { log-put = λ log x. refl; quiet = λ n err x. (refl, refl) }

create-destroy_example :
    let (h1, x1) = create noting two_children new_handler ([], []) in
    let (h2, x2) = destroy noting two_children h1 x1 in
    (opens 3 x2.0 + 0 ≡ 0 + closes 3 x2.0 + holds 3 h2.pipe_signal)
    × (h2.err ≢ sigaction_reset_error → (h2.pipe_signal ≡ no_pipe) × (h2.active ≡ false))
    × (h1.err ≡ no_error → h1.active ≡ true)
    × (h1.err ≢ no_error → (h1.pipe_signal ≡ no_pipe) × (h2.err ≡ sigaction_reset_error))
create-destroy_example = create-destroy noting noting-IsOwner two_children 3 ([], [])

-- A whole signal, read and handled.
abbrev noted_by : Run (EventReturn × Handler × Noted) → List (ℕ × ℕ)
noted_by (done (r, h, x)) = x.1
noted_by _ = []

one_signal :
    noted_by (read_signal noting two_children (17 ∷ 0 ∷ 0 ∷ 0 ∷ []) 9 new_handler ([], []))
    ≡ (7, 0) ∷ (8, 256) ∷ []
unfolding read_signal handle_sigchld same_bytes process_error
one_signal = refl
