-- ===== src/PexecMulti/External.antt =====
-- `run` with a loop of the user's: what it sets up.
use pexec.Base.{
  ℕ, true, false, none, some, ◌∷◌, ◌≡◌, ◌≢◌, refl, ◌∙◌, sym, ap, ◌⊎◌, inl, inr, Bool-cases,
  Option-cases,
}
use pexec.Error.{no_error, sigaction_set_error}
use pexec.PexecMulti.Again.{created, create-works_at}
use pexec.PexecMulti.Tables.{get-put, get-put_other, fd_key-differs, IsExternal, add-external}
use pexec.PexecMulti.Serve.{
  mute_owner, start_loop, delete_handler, start_sigchld, serve, run_valid, check_valid, run,
}
use pexec.PexecMulti.State.{
  Multi, Table, no_handler, mute, wired, external, signal_action, control_action, fd_key, get, put,
  add_read_event, process_error,
}
use pexec.PexecSingle.Loop.{Setting}
use pexec.Run.{Run, done, ◌>>=◌}
use pexec.SigchldHandler as Sigchld
use pexec.SigchldHandler.{Handler, install, guarded, close_signal, tell_error}
use pexec.System.{Pipe, opened, open_failed, handler_installed, fd_added}
use pexec.Util.Close.{no_pipe, close_pipe_lem}

module _ (c : Setting) (place : Table → ℕ → ℕ) where
  open c use {os}

  -- What `run` leaves: a served object, or one with the error of the handler.
  pub record Served (m m1 : Multi) : Type 0 where
    pub read_fd : ℕ
    pub write_fd : ℕ
    pub made :
        m1.handler.pipe_signal ≡ record { read_end = some read_fd; write_end = some write_fd }
    pub set : m1.sigchld ≡ wired
    pub told :
        m1.log
        ≡ fd_added m.control_pipe.read_end
          ∷ fd_added (some read_fd)
          ∷ handler_installed true
          ∷ opened read_fd write_fd
          ∷ m.log
    pub on_signal : get (fd_key (some read_fd)) m1.registered ≡ some signal_action
    pub on_control : get (fd_key m.control_pipe.read_end) m1.registered ≡ some control_action

  pub record Unserved (m m1 : Multi) : Type 0 where
    pub error : m1.err ≡ sigaction_set_error
    pub none_left : m1.handler.pipe_signal ≡ no_pipe
    pub inactive : m1.handler.active ≡ m.handler.active
    pub same : m1.registered ≡ m.registered

  -- The state behind the making of the handler.
  begun : Handler × Multi → Multi
  begun (h, m) = record m { handler = h; sigchld = mute }

  run-begun :
      (m : Multi)
      → m.kind ≡ external
      → m.sigchld ≡ no_handler
      → let m1 = begun (Sigchld.create mute_owner os m.handler m) in
        run c place m ≡ check_valid c place m1.handler.err m1
  unfolding run start_loop start_sigchld delete_handler begun
  run-begun m k s = rw (k, s) refl

  -- The constructor of the handler when `pipe2` fails, and when `sigaction` does.
  create-no_pipe :
      (m : Multi)
      → os.pipe2 m.log ≡ none
      → Sigchld.create mute_owner os m.handler m
        ≡ (record m.handler { err = sigaction_set_error }, record m { log = open_failed ∷ m.log })
  unfolding Sigchld.create Sigchld.set_signal_handler guarded Sigchld.process_error
  create-no_pipe m p = rw (p, Sigchld.set_signal_handler) refl

  create-refused :
      (r w : ℕ) (m : Multi)
      → os.pipe2 m.log ≡ some (r, w)
      → os.sigaction (opened r w ∷ m.log) ≡ false
      → let (h, m1) = Sigchld.create mute_owner os m.handler m in
        (h.err ≡ sigaction_set_error)
        × (h.pipe_signal ≡ no_pipe)
        × (h.active ≡ m.handler.active)
        × (m1.registered ≡ m.registered)
  unfolding Sigchld.create Sigchld.set_signal_handler install close_signal guarded
      Sigchld.process_error
  create-refused r w m p g =
      let q : Pipe = record { read_end = some r; write_end = some w } in
      let (_, _, gone, _) = close_pipe_lem 0 (handler_installed false ∷ opened r w ∷ m.log) q in
      rw (p, Sigchld.set_signal_handler, g) (refl, gone, refl, refl)

  -- The end of `run` behind a failed constructor.
  unserved :
      (m : Multi) (x : Handler × Multi)
      → x.0.err ≡ sigaction_set_error
      → x.0.pipe_signal ≡ no_pipe
      → x.0.active ≡ m.handler.active
      → x.1.registered ≡ m.registered
      → (m1 : Multi) × (check_valid c place (begun x).handler.err (begun x) ≡ done m1)
        × Unserved m m1
  unfolding check_valid process_error begun
  unserved m x e p a r = (
    process_error sigaction_set_error (begun x),
    ap (λ err. check_valid c place err (begun x)) e,
    record { error = refl; none_left = p; inactive = a; same = r },
  )

  served : ℕ → ℕ → Multi → Multi
  served r w m = record m {
    handler = record {
      pipe_signal = record { read_end = some r; write_end = some w };
      active = true;
      err = no_error;
    };
    sigchld = wired;
    registered =
        put (fd_key m.control_pipe.read_end) control_action
          (put (fd_key (some r)) signal_action m.registered);
    log =
        fd_added m.control_pipe.read_end
        ∷ fd_added (some r)
        ∷ handler_installed true
        ∷ opened r w
        ∷ m.log;
  }

  valid-served :
      (r w : ℕ) (m : Multi)
      → IsExternal m
      → run_valid c place (begun (created c r w m)) ≡ done (served r w m)
  unfolding run_valid serve begun created served Sigchld.get_read_fd
  valid-served r w m e =
      let m1 : Multi = record (begun (created c r w m)) { sigchld = wired } in
      let m2 : Multi = record m1 {
        registered = put (fd_key (some r)) signal_action m.registered;
        log = fd_added (some r) ∷ m1.log;
      } in
      let after : Multi → Run Multi = λ m. (do
        m2 ← add_read_event place m.control_pipe.read_end control_action m
        serve c place m2.kind m2) in
      ap (λ r. r >>= after) (add-external place (some r) signal_action m1 e)
      ∙ ap (λ r. r >>= (λ m2. serve c place m2.kind m2))
          (add-external place m.control_pipe.read_end control_action m2 e)
      ∙ ap (λ kind. serve c place kind (served r w m)) e.0

  -- `run` on an object that has no handler and no signal pipe, with a loop of the user's: it returns
  -- at once, whatever the system answers. Either the handler is made, its pipe and the control pipe
  -- are announced to the user, in this order, and both have their functions, if `pipe2` does not give
  -- out the control pipe's descriptor again; or the error of the handler is kept, no pipe is left, and
  -- nothing is registered.
  pub run_external :
      (m : Multi)
      → (m.kind ≡ external) × (m.registers ≡ true)
      → m.sigchld ≡ no_handler
      → m.handler.pipe_signal ≡ no_pipe
      → ((r w : ℕ) → os.pipe2 m.log ≡ some (r, w) → m.control_pipe.read_end ≢ some r)
      → (m1 : Multi) × (run c place m ≡ done m1) × (Served m m1 ⊎ Unserved m m1)
  unfolding check_valid process_error begun served created
  run_external m e s p d = elim (Option-cases (os.pipe2 m.log)) [
    | inl f ↦
        let x : Handler × Multi = (
          record m.handler { err = sigaction_set_error },
          record m { log = open_failed ∷ m.log },
        ) in
        let (m1, a, b) = unserved m x refl p refl refl in
        (
          m1,
          run-begun m e.0 s
              ∙ ap (λ x. check_valid c place (begun x).handler.err (begun x)) (create-no_pipe m f)
              ∙ a,
          inr b,
        )
    | inr ((r, w), f) ↦ elim (Bool-cases (os.sigaction (opened r w ∷ m.log))) [
      | inl g ↦ (
        served r w m,
        run-begun m e.0 s
            ∙ ap (λ x. check_valid c place (begun x).handler.err (begun x))
                (create-works_at c r w m f g)
            ∙ valid-served r w m e,
        inl (record {
          read_fd = r;
          write_fd = w;
          made = refl;
          set = refl;
          told = refl;
          on_signal =
              get-put_other (fd_key (some r)) (fd_key m.control_pipe.read_end) control_action
                (put (fd_key (some r)) signal_action m.registered)
                (fd_key-differs (some r) m.control_pipe.read_end (λ e. d r w f (sym e)))
              ∙ get-put (fd_key (some r)) signal_action m.registered;
          on_control =
              get-put (fd_key m.control_pipe.read_end) control_action
                (put (fd_key (some r)) signal_action m.registered);
        }),
      )
      | inr g ↦
          let (h, q, a, l) = create-refused r w m f g in
          let (m1, u, b) = unserved m (Sigchld.create mute_owner os m.handler m) h q a l in
          (m1, run-begun m e.0 s ∙ u, inr b)
    ]
  ]
