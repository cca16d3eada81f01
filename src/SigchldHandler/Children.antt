-- ===== src/SigchldHandler/Children.antt =====
-- What the loop that reaps assumes of the children, the system and the owner.
use pexec.Base.{ℕ, ◌+◌, ◌<◌, Bool, true, false, some, List, [], ◌∷◌, ◌++◌, ◌≡◌, ◌⊎◌}
use pexec.Error.{Error}
use pexec.Run.{Run, done, fault, timeout, Ensures}
use pexec.System.{
  Event, Log, Os, WaitResult, reaped, not_ready, wait_failed, eintr, echild, waited, interrupted,
}
use pexec.SigchldHandler.{Owner, emit, tell_error, tell_signal}

-- Whether the event takes an ended child away.
abbrev pub is_reap : Event → Bool
is_reap (waited (reaped pid status)) = true
is_reap _ = false

-- What `waitpid` answers when these children have ended: the first of them, with its status; and if
-- there is none, that none is ready or that there is no child at all.
abbrev pub Answers : List (ℕ × ℕ) → WaitResult → Type 0
Answers [] r = (r ≡ not_ready) ⊎ (r ≡ wait_failed echild)
Answers ((pid, status) ∷ zs) r = r ≡ reaped pid status

abbrev pub rest_of : List (ℕ × ℕ) → List (ℕ × ℕ)
rest_of [] = []
rest_of (z ∷ zs) = zs

-- The rounds that these children take at most, if `waitpid` is interrupted `limit` times in a row.
unfoldable pub rounds : ℕ → List (ℕ × ℕ) → ℕ
rounds limit [] = 0
rounds limit (z ∷ zs) = limit + 2 + rounds limit zs

-- Neither of the two runs returns, for the same reason.
abbrev pub NoValue : {A B : Type 0} → Run A → Run B → Type 0
NoValue r s = ((r ≡ fault) × (s ≡ fault)) ⊎ ((r ≡ timeout) × (s ≡ timeout))

module _ {X : Type 0} (o : Owner X) where
  -- The call of `on_signal` for a child, right behind the `waitpid` that has reaped it.
  abbrev pub call_for : ℕ → ℕ → X → Run X
  call_for pid status x =
      tell_signal o o.on_signal pid status (emit o (waited (reaped pid status)) x)

  -- From one state of the owner to another by the calls for these children, in this order, each
  -- behind the `waitpid` that reaps the child; by other events; and by reports of errors.
  pub data Told : List (ℕ × ℕ) → X → X → Type 0 where
    nobody : (x : X) → Told [] x x
    logged :
        (zs : List (ℕ × ℕ)) (x y : X) (e : Event)
        → is_reap e ≡ false
        → Told zs (emit o e x) y
        → Told zs x y
    reported :
        (zs : List (ℕ × ℕ)) (x y : X) (err : Error)
        → Told zs (tell_error o o.on_error err x) y
        → Told zs x y
    child :
        (zs : List (ℕ × ℕ)) (x x1 y : X) (pid status : ℕ)
        → call_for pid status x ≡ done x1
        → Told zs x1 y
        → Told ((pid, status) ∷ zs) x y

  pub Told-append :
      (zs ys : List (ℕ × ℕ)) (x y z : X) → Told zs x y → Told ys y z → Told (zs ++ ys) x z
  Told-append _ ys _ _ z (nobody x) b = b
  Told-append _ ys _ _ z (logged zs x y e h t) b =
      logged (zs ++ ys) x z e h (Told-append zs ys _ y z t b)
  Told-append _ ys _ _ z (reported zs x y err t) b =
      reported (zs ++ ys) x z err (Told-append zs ys _ y z t b)
  Told-append _ ys _ _ z (child zs x x1 y pid status e t) b =
      child (zs ++ ys) x x1 z pid status e (Told-append zs ys x1 y z t b)

  -- The run does not return, because the call for one of the children does not.
  pub record Breaks {B : Type 0} (zs : List (ℕ × ℕ)) (x : X) (run : Run B) : Type 0 where
    pub before : List (ℕ × ℕ)
    pub pid : ℕ
    pub status : ℕ
    pub behind : List (ℕ × ℕ)
    pub state : X
    pub among : zs ≡ before ++ (pid, status) ∷ behind
    pub told_before : Told before x state
    pub no_value : NoValue (call_for pid status state) run

-- What is assumed of the system and of the owner.
module _ {X : Type 0} (os : Os) (o : Owner X) where
  -- The children that have ended, in the order in which `waitpid` reports them: it reports each once,
  -- is interrupted at most `limit` times in a row, fails otherwise only when there is no child, and
  -- no other call changes them. The owner keeps its log, and its callbacks reap no child.
  pub record HasChildren (limit : ℕ) (zombies : Log → List (ℕ × ℕ)) : Type 0 where
    pub answer :
        (log : Log)
        → ((os.waitpid log (some 0) ≡ wait_failed eintr) × (interrupted log < limit))
          ⊎ Answers (zombies log) (os.waitpid log (some 0))
    pub taken :
        (pid status : ℕ) (log : Log)
        → zombies (waited (reaped pid status) ∷ log) ≡ rest_of (zombies log)
    pub left_alone : (e : Event) (log : Log) → is_reap e ≡ false → zombies (e ∷ log) ≡ zombies log
    pub log-put : (log : Log) (x : X) → o.log_of (o.put_log log x) ≡ log
    pub zombies-call :
        (pid status : ℕ) (x : X)
        → Ensures
            (λ x1. zombies (o.log_of x1) ≡ zombies (o.log_of x))
            (tell_signal o o.on_signal pid status x)
    pub zombies-error :
        (err : Error) (x : X)
        → zombies (o.log_of (tell_error o o.on_error err x)) ≡ zombies (o.log_of x)
