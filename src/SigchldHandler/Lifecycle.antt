-- ===== src/SigchldHandler/Lifecycle.antt =====
-- The constructor and the destructor: the pipe that they open and close.
use pexec.Base.{
  ℕ, ◌+◌, Bool, true, false, some, ◌∷◌, ◌≡◌, ◌≢◌, refl, ◌∙◌, ap, arith, Option-cases, inl, inr, not,
  if◌then◌else◌,
}
use pexec.Error.{Error, no_error, sigaction_set_error, sigaction_reset_error}
use pexec.System.{Log, Os, Pipe, opened, handler_installed, handler_restored}
use pexec.System.Ledger.{opens, closes, holds}
use pexec.Util.Close.{no_pipe, close_pipe_lem}
use pexec.SigchldHandler.{
  Handler, new_handler, Owner, emit, tell_error, process_error, close_signal, install,
  set_signal_handler, restore, reset_signal_handler, guarded, create, destroy,
}

module _ {X : Type 0} (o : Owner X) where
  -- The owner keeps the log that it is given, and its error callback closes and opens nothing.
  pub record IsOwner : Type 0 where
    pub log-put : (log : Log) (x : X) → o.log_of (o.put_log log x) ≡ log
    pub quiet :
        (n : ℕ) (err : Error) (x : X)
        → (opens n (o.log_of (tell_error o o.on_error err x)) ≡ opens n (o.log_of x))
          × (closes n (o.log_of (tell_error o o.on_error err x)) ≡ closes n (o.log_of x))

module _ {X : Type 0} (o : Owner X) (w : IsOwner o) (os : Os) (n : ℕ) where
  -- From one state to the other, each descriptor opened is closed or held.
  abbrev Balance : Handler × X → Handler × X → Type 0
  Balance (h, x) (h1, x1) =
      opens n (o.log_of x1) + closes n (o.log_of x) + holds n h.pipe_signal
      ≡ opens n (o.log_of x) + closes n (o.log_of x1) + holds n h1.pipe_signal

  close_signal-Balance :
      (h : Handler) (x : X)
      → Balance (h, x) (close_signal o h x) × ((close_signal o h x).0.pipe_signal ≡ no_pipe)
  unfolding close_signal
  close_signal-Balance h x =
      let (more, same, none_left, _) = close_pipe_lem n (o.log_of x) h.pipe_signal in
      (rw w.log-put (omega (arith, more, same, ap (holds n) none_left)), none_left)

  close_signal-active : (h : Handler) (x : X) → (close_signal o h x).0.active ≡ h.active
  unfolding close_signal
  close_signal-active h x = refl

  close_signal-err : (h : Handler) (x : X) → (close_signal o h x).0.err ≡ h.err
  unfolding close_signal
  close_signal-err h x = refl

  process_error-Balance :
      (err : Error) (h : Handler) (x : X) → Balance (h, x) (process_error o err (h, x))
  unfolding process_error
  process_error-Balance err h x = let (a, b) = w.quiet n err x in omega (arith, a, b)

  -- What a step of the constructor leaves, from a handler that holds no pipe.
  record Installed (h : Handler) (x : X) (r : (Handler × X) × Bool) : Type 0 where
    balance : Balance (h, x) r.0
    on_success : r.1 ≡ true → r.0.0.active ≡ true
    on_failure : r.1 ≡ false → (r.0.0.pipe_signal ≡ no_pipe) × (r.0.0.active ≡ h.active)
    same_err : r.0.0.err ≡ h.err

  Installed-if :
      (h : Handler) (x : X) (ok : Bool) (r r' : (Handler × X) × Bool)
      → Installed h x r
      → Installed h x r'
      → Installed h x (if ok then r else r')
  Installed-if h x true r r' a b = a
  Installed-if h x false r r' a b = b

  install-Installed :
      (a b : ℕ) (h : Handler) (x : X)
      → h.pipe_signal ≡ no_pipe
      → Installed h x (install o os a b h x)
  unfolding install
  install-Installed a b h x e =
      let q : Pipe = record { read_end = some a; write_end = some b } in
      let h1 : Handler = record h { pipe_signal = q } in
      let x1 = emit o (opened a b) x in
      let ok = os.sigaction (o.log_of x1) in
      let x2 = emit o (handler_installed ok) x1 in
      let (c, none_left) = close_signal-Balance h1 x2 in
      let l1 : o.log_of x2 ≡ handler_installed ok ∷ opened a b ∷ o.log_of x =
        w.log-put _ _ ∙ ap (λ l. handler_installed ok ∷ l) (w.log-put _ x) in
      let opens2 = ap (opens n) l1 in
      let closes2 = ap (closes n) l1 in
      let held = ap (holds n) e in
      Installed-if h x ok ((record h1 { active = true }, x2), true) (close_signal o h1 x2, false)
        (record {
          balance = omega (arith, opens2, closes2, held);
          on_success = λ _. refl;
          on_failure = λ f. cc;
          same_err = refl;
        })
        (record {
          balance = omega (arith, c, opens2, closes2, held);
          on_success = λ f. cc;
          on_failure = λ _. (none_left, close_signal-active h1 x2);
          same_err = close_signal-err h1 x2;
        })

  set-Installed :
      (h : Handler) (x : X) → h.pipe_signal ≡ no_pipe → Installed h x (set_signal_handler o os h x)
  unfolding set_signal_handler
  set-Installed h x e = elim (Option-cases (os.pipe2 (o.log_of x))) [
    | inl f ↦
        rw (f, set_signal_handler)
          (record {
            balance = rw w.log-put (omega arith);
            on_success = λ t. cc;
            on_failure = λ _. (e, refl);
            same_err = refl;
          })
    | inr ((a, b), f) ↦ rw (f, set_signal_handler) (install-Installed a b h x e)
  ]

  -- What the constructor leaves.
  record Created (x : X) (r : Handler × X) : Type 0 where
    balance : Balance (new_handler, x) r
    valid : r.0.err ≡ no_error → r.0.active ≡ true
    invalid : r.0.err ≢ no_error → (r.0.pipe_signal ≡ no_pipe) × (r.0.active ≡ false)

  guarded-Created :
      (x : X) (r : (Handler × X) × Bool)
      → Installed new_handler x r
      → Created x (guarded o os sigaction_set_error r)
  unfolding guarded process_error
  guarded-Created x (s, true) i = record {
    balance = i.balance;
    valid = λ _. i.on_success refl;
    invalid = λ f. absurd (f i.same_err);
  }
  guarded-Created x ((h, y), false) i =
      let e = process_error-Balance sigaction_set_error h y in
      record {
        balance = omega (arith, e, i.balance);
        valid = λ f. cc;
        invalid = λ _. i.on_failure refl;
      }

  create-Created : (x : X) → Created x (create o os new_handler x)
  unfolding create
  create-Created x =
      guarded-Created x (set_signal_handler o os new_handler x) (set-Installed new_handler x refl)

  -- What `sigchld_reset_signal_handler` leaves.
  record Reset (h : Handler) (x : X) (r : (Handler × X) × Bool) : Type 0 where
    balance : Balance (h, x) r.0
    on_success :
        r.1 ≡ true → (h.active ≡ true) × (r.0.0.pipe_signal ≡ no_pipe) × (r.0.0.active ≡ false)

  Reset-if :
      (h : Handler) (x : X) (b : Bool) (r r' : (Handler × X) × Bool)
      → (b ≡ true → Reset h x r)
      → (b ≡ false → Reset h x r')
      → Reset h x (if b then r else r')
  Reset-if h x true r r' a b = a refl
  Reset-if h x false r r' a b = b refl

  restore-Reset : (h : Handler) (x : X) → h.active ≡ true → Reset h x (restore o os h x)
  unfolding restore
  restore-Reset h x e =
      let ok = os.sigaction (o.log_of x) in
      let x1 = emit o (handler_restored ok) x in
      let (c, none_left) = close_signal-Balance h x1 in
      let l1 : o.log_of x1 ≡ handler_restored ok ∷ o.log_of x = w.log-put _ x in
      let opens1 = ap (opens n) l1 in
      let closes1 = ap (closes n) l1 in
      let (h2, x2) = close_signal o h x1 in
      Reset-if h x ok ((record h2 { active = false }, x2), true) ((h, x1), false)
        (λ _. record {
          balance = omega (arith, c, opens1, closes1);
          on_success = λ _. (e, none_left, refl);
        })
        (λ _. record { balance = omega (arith, opens1, closes1); on_success = λ f. cc })

  reset_signal_handler-Reset : (h : Handler) (x : X) → Reset h x (reset_signal_handler o os h x)
  unfolding reset_signal_handler
  reset_signal_handler-Reset h x =
      Reset-if h x (not h.active) ((h, x), false) (restore o os h x)
        (λ _. record { balance = refl; on_success = λ f. cc })
        (λ f. restore-Reset h x (ground (arith, f)))

  -- What the destructor leaves.
  record Destroyed (h : Handler) (x : X) (r : Handler × X) : Type 0 where
    balance : Balance (h, x) r
    closed : r.0.err ≢ sigaction_reset_error → (r.0.pipe_signal ≡ no_pipe) × (r.0.active ≡ false)
    complains : h.active ≡ false → r.0.err ≡ sigaction_reset_error

  guarded-Destroyed :
      (h : Handler) (x : X) (r : (Handler × X) × Bool)
      → Reset h x r
      → Destroyed h x (guarded o os sigaction_reset_error r)
  unfolding guarded process_error
  guarded-Destroyed h x (s, true) i =
      let (a, b, c) = i.on_success refl in
      record { balance = i.balance; closed = λ _. (b, c); complains = λ f. cc }
  guarded-Destroyed h x ((h1, y), false) i =
      let e = process_error-Balance sigaction_reset_error h1 y in
      record {
        balance = omega (arith, e, i.balance);
        closed = λ f. absurd (f refl);
        complains = λ _. refl;
      }

  -- The destructor right behind the constructor, for globals as the program starts with them, and an
  -- error callback that opens and closes nothing: every descriptor that the constructor opened is
  -- closed, or is still in the global pipe, and then the destructor has reported that it could not
  -- put the old handler back. A constructor that failed has closed its pipe itself, and its
  -- destructor reports that error too, over the one that the constructor kept.
  pub create-destroy :
      (x : X)
      → let (h1, x1) = create o os new_handler x in
        let (h2, x2) = destroy o os h1 x1 in
        (opens n (o.log_of x2) + closes n (o.log_of x)
          ≡ opens n (o.log_of x) + closes n (o.log_of x2) + holds n h2.pipe_signal)
        × (h2.err ≢ sigaction_reset_error → (h2.pipe_signal ≡ no_pipe) × (h2.active ≡ false))
        × (h1.err ≡ no_error → h1.active ≡ true)
        × (h1.err ≢ no_error → (h1.pipe_signal ≡ no_pipe) × (h2.err ≡ sigaction_reset_error))
  unfolding destroy
  create-destroy x =
      let (h1, x1) = create o os new_handler x in
      let c = create-Created x in
      let d =
        guarded-Destroyed h1 x1 (reset_signal_handler o os h1 x1)
          (reset_signal_handler-Reset h1 x1) in
      (
        omega (arith, c.balance, d.balance),
        d.closed,
        c.valid,
        λ f. ((c.invalid f).0, d.complains (c.invalid f).1),
      )
