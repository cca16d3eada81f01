-- ===== src/SigchldHandler/Drain.antt =====
-- The loop over `waitpid`, for children that have ended.
use pexec.Base.{
  ℕ, zero, suc, ◌+◌, ◌-◌, ◌<◌, Bool, true, false, some, List, [], ◌∷◌, append-nil, ◌≡◌, ◌⊎◌, refl,
  ◌∙◌, ap, subst, inl, inr, arith, if◌then◌else◌,
}
use pexec.Error.{Error}
use pexec.Run.{Run, done, fault, timeout, ◌>>=◌, Ensures}
use pexec.System.{
  Event, Log, Os, WaitResult, reaped, not_ready, wait_failed, eintr, eagain, echild, other_errno,
  waited, blocked, unblocked, interrupted,
}
use pexec.SigchldHandler.{
  Handler, Owner, emit, process_error, block_sigchld, unblock_sigchld, after_waitpid, drain,
  handle_sigchld,
}
use pexec.SigchldHandler.Children.{
  is_reap, Answers, rest_of, rounds, NoValue, call_for, Told, nobody, logged, reported, child,
  Told-append, Breaks, HasChildren,
}

NoValue-bind :
    {A B C : Type 0} (r : Run A) (s : Run B) (f : B → Run C) → NoValue r s → NoValue r (s >>= f)
NoValue-bind r s f (inl (a, b)) = inl (a, ap (λ s. s >>= f) b)
NoValue-bind r s f (inr (a, b)) = inr (a, ap (λ s. s >>= f) b)

module _ {X : Type 0} (os : Os) (o : Owner X) (limit : ℕ) (zombies : Log → List (ℕ × ℕ))
    (c : HasChildren os o limit zombies) where
  -- The run returns, having told of these children and left none; or it stops at one of them.
  abbrev pub Outcome : List (ℕ × ℕ) → X → Run (Handler × X) → Type 0
  Outcome zs x run =
      ((s : Handler × X) × (run ≡ done s) × Told o zs x s.1 × (zombies (o.log_of s.1) ≡ []))
      ⊎ Breaks o zs x run

  -- What comes before.
  earlier :
      (zs : List (ℕ × ℕ)) (x x1 : X) (run : Run (Handler × X))
      → ((ys : List (ℕ × ℕ)) (y : X) → Told o ys x1 y → Told o ys x y)
      → Outcome zs x1 run
      → Outcome zs x run
  earlier zs x x1 run k (inl (s, r, t, z)) = inl (s, r, k zs s.1 t, z)
  earlier zs x x1 run k (inr b) = inr (record {
    before = b.before;
    pid = b.pid;
    status = b.status;
    behind = b.behind;
    state = b.state;
    among = b.among;
    told_before = k b.before b.state b.told_before;
    no_value = b.no_value;
  })

  earlier_child :
      (zs : List (ℕ × ℕ)) (x x1 : X) (pid status : ℕ) (run : Run (Handler × X))
      → call_for o pid status x ≡ done x1
      → Outcome zs x1 run
      → Outcome ((pid, status) ∷ zs) x run
  earlier_child zs x x1 pid status run e (inl (s, r, t, z)) =
      inl (s, r, child zs x x1 s.1 pid status e t, z)
  earlier_child zs x x1 pid status run e (inr b) = inr (record {
    before = (pid, status) ∷ b.before;
    pid = b.pid;
    status = b.status;
    behind = b.behind;
    state = b.state;
    among = ap (λ l. (pid, status) ∷ l) b.among;
    told_before = child b.before x x1 b.state pid status e b.told_before;
    no_value = b.no_value;
  })

  -- What comes behind, if it tells of no child.
  later :
      (zs : List (ℕ × ℕ)) (x : X) (run : Run (Handler × X)) (f : Handler × X → Handler × X)
      → ((s : Handler × X)
          → Told o [] s.1 (f s).1 × (zombies (o.log_of (f s).1) ≡ zombies (o.log_of s.1)))
      → Outcome zs x run
      → Outcome zs x (run >>= (λ s. done (f s)))
  later zs x run f h (inl (s, r, t, z)) =
      let (u, same) = h s in
      inl (
        f s,
        ap (λ run. run >>= (λ s. done (f s))) r,
        subst (λ ys. Told o ys x (f s).1) (append-nil zs) (Told-append o zs [] x s.1 (f s).1 t u),
        same ∙ z,
      )
  later zs x run f h (inr b) = inr (record {
    before = b.before;
    pid = b.pid;
    status = b.status;
    behind = b.behind;
    state = b.state;
    among = b.among;
    told_before = b.told_before;
    no_value = NoValue-bind _ run (λ s. done (f s)) b.no_value;
  })

  zombies-emit :
      (e : Event) (x : X)
      → is_reap e ≡ false
      → zombies (o.log_of (emit o e x)) ≡ zombies (o.log_of x)
  zombies-emit e x h = ap zombies (c.log-put _ x) ∙ c.left_alone e (o.log_of x) h

  drain_step :
      (fuel : ℕ) (h : Handler) (x : X) (r : WaitResult)
      → os.waitpid (o.log_of x) (some 0) ≡ r
      → drain o os (suc fuel) (h, x)
        ≡ after_waitpid o os r (h, emit o (waited r) x) (λ s. drain o os fuel s)
  unfolding drain
  drain_step fuel h x r e =
      ap (λ r. after_waitpid o os r (h, emit o (waited r) x) (λ s. drain o os fuel s)) e

  ended :
      (h : Handler) (x : X) (e : Event)
      → is_reap e ≡ false
      → zombies (o.log_of x) ≡ []
      → Outcome [] x (done (h, emit o e x))
  ended h x e q z =
      inl ((h, emit o e x), refl, logged [] x _ e q (nobody (emit o e x)), zombies-emit e x q ∙ z)

  none_left :
      (fuel : ℕ) (h : Handler) (x : X) (r : WaitResult)
      → zombies (o.log_of x) ≡ []
      → Answers [] r
      → Outcome [] x (after_waitpid o os r (h, emit o (waited r) x) (λ s. drain o os fuel s))
  unfolding after_waitpid
  none_left fuel h x not_ready z a = ended h x (waited not_ready) refl z
  none_left fuel h x (wait_failed echild) z a = ended h x (waited (wait_failed echild)) refl z
  none_left fuel h x (wait_failed eintr) z a = absurd (ground arith)
  none_left fuel h x (wait_failed eagain) z a = absurd (ground arith)
  none_left fuel h x (wait_failed other_errno) z a = absurd (ground arith)
  none_left fuel h x (reaped pid status) z a = absurd (ground arith)

  one_reaped :
      (fuel : ℕ) (h : Handler) (x : X) (pid status : ℕ) (zs : List (ℕ × ℕ))
      → ((x1 : X) → call_for o pid status x ≡ done x1 → Outcome zs x1 (drain o os fuel (h, x1)))
      → Outcome ((pid, status) ∷ zs) x (
          after_waitpid o os
            (reaped pid status)
            (h, emit o (waited (reaped pid status)) x)
            (λ s. drain o os fuel s))
  unfolding after_waitpid
  one_reaped fuel h x pid status zs k = by (call_for o pid status x) refl
    where
      go : X → Run (Handler × X)
      go x1 = drain o os fuel (h, x1)

      stopped :
          (r : Run X)
          → NoValue (call_for o pid status x) (r >>= go)
          → Outcome ((pid, status) ∷ zs) x (r >>= go)
      stopped r n = inr (record {
        before = [];
        pid = pid;
        status = status;
        behind = zs;
        state = x;
        among = refl;
        told_before = nobody x;
        no_value = n;
      })

      by : (r : Run X) → call_for o pid status x ≡ r → Outcome ((pid, status) ∷ zs) x (r >>= go)
      by (done x1) e = earlier_child zs x x1 pid status (go x1) e (k x1 e)
      by fault e = stopped fault (inl (e, refl))
      by timeout e = stopped timeout (inr (e, refl))

  waits_left : X → ℕ
  waits_left x = limit + 1 - interrupted (o.log_of x)

  -- An interrupted call leaves one attempt less.
  retried :
      (fuel : ℕ) (h : Handler) (x : X) (zs : List (ℕ × ℕ))
      → os.waitpid (o.log_of x) (some 0) ≡ wait_failed eintr
      → interrupted (o.log_of x) < limit
      → zombies (o.log_of x) ≡ zs
      → rounds limit zs + waits_left x < suc fuel
      → ((x1 : X)
          → zombies (o.log_of x1) ≡ zs
          → rounds limit zs + waits_left x1 < fuel
          → Outcome zs x1 (drain o os fuel (h, x1)))
      → Outcome zs x (drain o os (suc fuel) (h, x))
  unfolding waits_left after_waitpid
  retried fuel h x zs e few z b k =
      let v = waited (wait_failed eintr) in
      let x1 = emit o v x in
      let i : interrupted (o.log_of x1) ≡ suc (interrupted (o.log_of x)) =
        ap interrupted (c.log-put _ x) in
      rw (drain_step fuel h x (wait_failed eintr) e) (
        earlier zs x x1 (drain o os fuel (h, x1)) (λ ys y t. logged ys x y v refl t)
          (k x1 (zombies-emit v x refl ∙ z) (omega (arith, i, few, b))))

  drain-Outcome :
      (fuel : ℕ) (h : Handler) (x : X) (zs : List (ℕ × ℕ))
      → zombies (o.log_of x) ≡ zs
      → rounds limit zs + waits_left x < fuel
      → Outcome zs x (drain o os fuel (h, x))
  unfolding waits_left rounds
  drain-Outcome zero h x zs z b = absurd (omega (arith, b))
  drain-Outcome (suc fuel) h x [] z b = elim (c.answer (o.log_of x)) [
    | inl (e, few) ↦ retried fuel h x [] e few z b (λ x1. drain-Outcome fuel h x1 [])
    | inr a ↦
        let r = os.waitpid (o.log_of x) (some 0) in
        rw (drain_step fuel h x r refl) (none_left fuel h x r z (rw z at a))
  ]
  drain-Outcome (suc fuel) h x ((pid, status) ∷ zs) z b = elim (c.answer (o.log_of x)) [
    | inl (e, few) ↦
        retried fuel h x ((pid, status) ∷ zs) e few z b
          (λ x1. drain-Outcome fuel h x1 ((pid, status) ∷ zs))
    | inr a ↦
        let e : os.waitpid (o.log_of x) (some 0) ≡ reaped pid status = rw z at a in
        let x0 = emit o (waited (reaped pid status)) x in
        let left : zombies (o.log_of x0) ≡ zs =
          ap zombies (c.log-put _ x) ∙ c.taken pid status (o.log_of x) ∙ ap rest_of z in
        rw (drain_step fuel h x (reaped pid status) e) (
          one_reaped fuel h x pid status zs (λ x1 q.
            let same : zombies (o.log_of x1) ≡ zombies (o.log_of x0) =
              subst (Ensures (λ x1. zombies (o.log_of x1) ≡ zombies (o.log_of x0))) q
                (c.zombies-call pid status x0) in
            drain-Outcome fuel h x1 zs (same ∙ left) (omega (arith, b))))
  ]

  -- A signal mask call tells of no child.
  abbrev Same : X → X → Type 0
  Same x x1 = Told o [] x x1 × (zombies (o.log_of x1) ≡ zombies (o.log_of x))

  masked :
      (ok : Bool) (e : Event) (err : Error) (h : Handler) (x : X)
      → is_reap e ≡ false
      → let s : Handler × X = (h, emit o e x) in Same x (if ok then s else process_error o err s).1
  unfolding process_error
  masked true e err h x q = (logged [] x _ e q (nobody _), zombies-emit e x q)
  masked false e err h x q = (
    logged [] x _ e q (reported [] _ _ err (nobody _)),
    c.zombies-error err (emit o e x) ∙ zombies-emit e x q,
  )

  block-Same : (s : Handler × X) → Same s.1 (block_sigchld o os s).1
  unfolding block_sigchld
  block-Same s = masked _ (blocked (os.sigprocmask (o.log_of s.1))) _ s.0 s.1 refl

  unblock-Same : (s : Handler × X) → Same s.1 (unblock_sigchld o os s).1
  unfolding unblock_sigchld
  unblock-Same s = masked _ (unblocked (os.sigprocmask (o.log_of s.1))) _ s.0 s.1 refl

  -- One SIGCHLD can stand for many children. For an owner whose callbacks reap no child themselves,
  -- and on a system that may interrupt `waitpid` `limit` times in a row, for which the fuel is, and
  -- whose `waitpid` fails otherwise only when there is no child: the handler returns, and between the
  -- two states of the owner there are the calls of its callback for every child that had ended, once
  -- each, in the order of `waitpid` and with its status, and none is left; or the callback does not
  -- return for one of these children, at which the handler then stops too, and the calls for those
  -- before it have been made.
  pub handle_sigchld-told :
      (fuel : ℕ) (s : Handler × X)
      → rounds limit (zombies (o.log_of s.1)) + limit + 1 < fuel
      → ((s1 : Handler × X) × (handle_sigchld o os fuel s ≡ done s1)
          × Told o (zombies (o.log_of s.1)) s.1 s1.1
          × (zombies (o.log_of s1.1) ≡ []))
        ⊎ Breaks o (zombies (o.log_of s.1)) s.1 (handle_sigchld o os fuel s)
  unfolding handle_sigchld waits_left
  handle_sigchld-told fuel s b =
      let s0 = block_sigchld o os s in
      let zs = zombies (o.log_of s.1) in
      let (t, z) = block-Same s in
      let run = drain o os fuel s0 in
      let out = drain-Outcome fuel s0.0 s0.1 zs z (omega (arith, b)) in
      later zs s.1 run (unblock_sigchld o os) unblock-Same
        (earlier zs s.1 s0.1 run (λ ys y u. Told-append o [] ys s.1 s0.1 y t u) out)
