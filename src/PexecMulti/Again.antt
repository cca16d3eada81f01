-- ===== src/PexecMulti/Again.antt =====
-- A second `run` on an object whose handler is still there, which is so with an external loop.
use pexec.Base.{ℕ, ◌+◌, true, false, some, ◌∷◌, ◌≡◌, refl, ◌∙◌, ap}
use pexec.Error.{no_error}
use pexec.PexecMulti.Serve.{mute_owner, owner, delete_handler, start_sigchld}
use pexec.PexecMulti.State.{Multi, Table, wired}
use pexec.PexecSingle.Loop.{Setting}
use pexec.SigchldHandler as Sigchld
use pexec.SigchldHandler.{Handler, Owner, guarded, install, restore}
use pexec.System.{Log, Pipe, opened, handler_installed, handler_restored}
use pexec.System.Ledger.{opens, closes, holds}
use pexec.Util.{close_pipe}
use pexec.Util.Close.{no_pipe, close_pipe_lem}

module _ (c : Setting) where
  open c use {os}

  -- The state behind the constructor, on a system that does what it is asked.
  unfoldable pub created : ℕ → ℕ → Multi → Handler × Multi
  created r w m = (
    record {
      pipe_signal = record { read_end = some r; write_end = some w };
      active = true;
      err = no_error;
    },
    record m { log = handler_installed true ∷ opened r w ∷ m.log },
  )

  pub create-works_at :
      (r w : ℕ) (m : Multi)
      → os.pipe2 m.log ≡ some (r, w)
      → os.sigaction (opened r w ∷ m.log) ≡ true
      → Sigchld.create mute_owner os m.handler m ≡ created r w m
  unfolding Sigchld.create Sigchld.set_signal_handler install guarded created
  create-works_at r w m p h = rw (p, Sigchld.set_signal_handler, h) refl

  destroy-works :
      (h : Handler) (m : Multi)
      → h.active ≡ true
      → ((log : Log) → os.sigaction log ≡ true)
      → let (h1, m1) = Sigchld.destroy (owner c) os h m in
        let (p, log) = close_pipe (handler_restored true ∷ m.log) h.pipe_signal in
        (h1.pipe_signal ≡ p) × (h1.active ≡ false) × (m1.log ≡ log)
  unfolding Sigchld.destroy Sigchld.reset_signal_handler Sigchld.close_signal restore guarded owner
  destroy-works h m a k = rw (a, k m.log) (refl, refl, refl)

  module _ (place : Table → ℕ → ℕ) where
    behind : ℕ → ℕ → Multi → Handler × Multi
    behind r w m =
        let (h, m1) = created r w m in
        Sigchld.destroy (owner c) os (record h { err = m.handler.err })
          (record m1 { handler = record h { err = m.handler.err } })

    start-behind :
        (r w : ℕ) (m : Multi)
        → os.pipe2 m.log ≡ some (r, w)
        → ((log : Log) → os.sigaction log ≡ true)
        → m.sigchld ≡ wired
        → ((start_sigchld c place m).handler ≡ record (behind r w m).0 { err = no_error })
          × ((start_sigchld c place m).log ≡ (behind r w m).1.log)
    unfolding start_sigchld delete_handler created behind
    start-behind r w m p k s =
        rw (create-works_at r w m p (k (opened r w ∷ m.log)), s, delete_handler) (refl, refl)

    -- `run` makes a handler while the one of the run before is still there, on a system on which the
    -- calls succeed, with `r` and `w` for the new pipe: the old handler's destructor closes the new
    -- pipe, and the old pipe is not closed. The new handler reports no error, and yet it has no pipe,
    -- and the handler is marked as not active.
    pub start_sigchld_again :
        (n r w : ℕ) (m : Multi)
        → os.pipe2 m.log ≡ some (r, w)
        → ((log : Log) → os.sigaction log ≡ true)
        → m.sigchld ≡ wired
        → let m1 = start_sigchld c place m in
          let p : Pipe = record { read_end = some r; write_end = some w } in
          (opens n m1.log ≡ holds n p + opens n m.log)
          × (closes n m1.log ≡ holds n p + closes n m.log)
          × (m1.handler.err ≡ no_error)
          × (m1.handler.pipe_signal ≡ no_pipe)
          × (m1.handler.active ≡ false)
    unfolding behind created
    start_sigchld_again n r w m p k s =
        let (e, l) = start-behind r w m p k s in
        let (h, m1) = created r w m in
        let h1 : Handler = record h { err = m.handler.err } in
        let (a, b, d) = destroy-works h1 (record m1 { handler = h1 }) refl k in
        let (closed, same, gone, _) =
          close_pipe_lem n (handler_restored true ∷ m1.log) h.pipe_signal in
        (
          ap (opens n) (l ∙ d) ∙ same,
          ap (closes n) (l ∙ d) ∙ closed,
          ap (λ h. h.err) e,
          ap (λ h. h.pipe_signal) e ∙ a ∙ gone,
          ap (λ h. h.active) e ∙ b,
        )
