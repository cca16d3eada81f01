-- ===== src/SigchldHandler.antt =====
-- src/pexec/signal/sigchld_handler.h and sigchld_handler.cpp: the SIGCHLD handler of `pexec_multi`,
-- its global pipe, and the callback for each child that has ended. The state of the owner, in which
-- the log is kept, is a type `X`; `Owner` says what the two callbacks do to it.
pub mod Lifecycle
pub mod Children
pub mod Drain
pub mod Kept
pub mod Pieces
pub mod Examples
mod ByteByByte
use pexec.Base.{
  ℕ, zero, suc, ◌-◌, Bytes, Bool, true, false, Option, none, some, [], ◌∷◌, ◌++◌, ◌==◌, length,
  same_bytes, if◌then◌else◌, not,
}
use pexec.Error.{
  Error, no_error, sigaction_set_error, sigaction_reset_error, sig_block_error, sig_unblock_error,
  waitpid_error,
}
use pexec.Run.{Run, done, timeout, ◌>>=◌}
use pexec.SelectEvent.{EventReturn, stop_loop, nothing}
use pexec.System.{
  Event, Log, Os, Pipe, ReadResult, got, read_failed, eintr, echild, WaitResult, reaped, not_ready,
  wait_failed, opened, open_failed, handler_installed, handler_restored, blocked, unblocked, waited,
  was_read, wrote,
}
use pexec.Util.{close_pipe}
use pexec.Util.Close.{no_pipe}

-- `err_`, and the globals `sigchld_pipe_signal` and `sigchld_active`.
pub record Handler : Type 0 where
  pub pipe_signal : Pipe
  pub active : Bool
  pub err : Error

-- The globals as the program starts with them, and `err_`.
abbrev pub new_handler : Handler
new_handler = record { pipe_signal = no_pipe; active = false; err = no_error }

-- The log in the owner's state, and the callbacks: `none` while one is not set.
pub record Owner (X : Type 0) : Type 0 where
  pub log_of : X → Log
  pub put_log : Log → X → X
  pub on_signal : Option (ℕ → ℕ → X → Run X)
  pub on_error : Option (Error → X → X)

-- `sigchld_signal_handler`
unfoldable pub signal_handler : Bytes → Handler → Event
signal_handler sig h = wrote h.pipe_signal.write_end sig

-- `get_read_fd`, which is `sigchld_get_signal_fd`
unfoldable pub get_read_fd : Handler → Option ℕ
get_read_fd h = h.pipe_signal.read_end

unfoldable pub last_error : Handler → Error
last_error h = h.err

module _ {X : Type 0} (o : Owner X) where
  abbrev pub emit : Event → X → X
  emit e x = o.put_log (e ∷ o.log_of x) x

  -- `if(error_cb_) error_cb_(err);`
  unfoldable pub tell_error : Option (Error → X → X) → Error → X → X
  tell_error none err x = x
  tell_error (some cb) err x = cb err x

  unfoldable pub process_error : Error → Handler × X → Handler × X
  unfolding tell_error
  process_error err (h, x) = (record h { err = err }, tell_error o.on_error err x)

  -- `if(cb_) cb_(pid, status);`
  unfoldable pub tell_signal : Option (ℕ → ℕ → X → Run X) → ℕ → ℕ → X → Run X
  tell_signal none pid status x = done x
  tell_signal (some cb) pid status x = cb pid status x

  -- `close_pipe(sigchld_pipe_signal)`
  unfoldable pub close_signal : Handler → X → Handler × X
  close_signal h x =
      let (p, log) = close_pipe (o.log_of x) h.pipe_signal in
      (record h { pipe_signal = p }, o.put_log log x)

  module _ (os : Os) where
    -- `sigchld_set_signal_handler` behind `pipe2`, with the pipe's two ends.
    unfoldable pub install : ℕ → ℕ → Handler → X → (Handler × X) × Bool
    unfolding close_signal
    install r w h x =
        let h1 : Handler = record h {
          pipe_signal = record { read_end = some r; write_end = some w };
        } in
        let x1 = emit (opened r w) x in
        let ok = os.sigaction (o.log_of x1) in
        let x2 = emit (handler_installed ok) x1 in
        let failed = close_signal h1 x2 in
        if ok then ((record h1 { active = true }, x2), true) else (failed, false)

    unfoldable pub set_signal_handler : Handler → X → (Handler × X) × Bool
    unfolding install
    set_signal_handler h x = elim (os.pipe2 (o.log_of x)) [
      | none ↦ ((h, emit open_failed x), false)
      | some (r, w) ↦ install r w h x
    ]

    -- `sigchld_reset_signal_handler`
    unfoldable pub restore : Handler → X → (Handler × X) × Bool
    unfolding close_signal
    restore h x =
        let ok = os.sigaction (o.log_of x) in
        let x1 = emit (handler_restored ok) x in
        let (h2, x2) = close_signal h x1 in
        if ok then ((record h2 { active = false }, x2), true) else ((h, x1), false)

    unfoldable pub reset_signal_handler : Handler → X → (Handler × X) × Bool
    unfolding restore
    reset_signal_handler h x = let r = restore h x in if not h.active then ((h, x), false) else r

    -- `if(!…()) process_error(…);`
    unfoldable pub guarded : Error → (Handler × X) × Bool → Handler × X
    guarded err (s, true) = s
    guarded err (s, false) = process_error err s

    -- The constructor, for globals as they are, and the destructor.
    unfoldable pub create : Handler → X → Handler × X
    unfolding set_signal_handler guarded process_error
    create h x = guarded sigaction_set_error (set_signal_handler (record h { err = no_error }) x)

    unfoldable pub destroy : Handler → X → Handler × X
    unfolding reset_signal_handler guarded process_error
    destroy h x = guarded sigaction_reset_error (reset_signal_handler h x)

    unfoldable pub block_sigchld : Handler × X → Handler × X
    block_sigchld (h, x) =
        let ok = os.sigprocmask (o.log_of x) in
        let s : Handler × X = (h, emit (blocked ok) x) in
        if ok then s else process_error sig_block_error s

    unfoldable pub unblock_sigchld : Handler × X → Handler × X
    unblock_sigchld (h, x) =
        let ok = os.sigprocmask (o.log_of x) in
        let s : Handler × X = (h, emit (unblocked ok) x) in
        if ok then s else process_error sig_unblock_error s

    -- One round of the loop in `handle_sigchld`.
    unfoldable pub after_waitpid :
        WaitResult → Handler × X → (Handler × X → Run (Handler × X)) → Run (Handler × X)
    unfolding tell_signal
    after_waitpid (reaped pid status) (h, x) again = do
      x1 ← tell_signal o.on_signal pid status x
      again (h, x1)
    after_waitpid not_ready s again = done s
    after_waitpid (wait_failed echild) s again = done s
    after_waitpid (wait_failed eintr) s again = again s
    after_waitpid (wait_failed e) s again = done (process_error waitpid_error s)

    -- The loop: `waitpid(0, …)` for any child.
    unfoldable pub drain : ℕ → Handler × X → Run (Handler × X)
    unfolding after_waitpid
    drain zero s = timeout
    drain (suc fuel) (h, x) =
        let r = os.waitpid (o.log_of x) (some 0) in
        after_waitpid r (h, emit (waited r) x) (λ s. drain fuel s)

    unfoldable pub handle_sigchld : ℕ → Handler × X → Run (Handler × X)
    unfolding drain block_sigchld unblock_sigchld
    handle_sigchld fuel s = do s1 ← drain fuel (block_sigchld s); done (unblock_sigchld s1)

    module _ (sigchld : Bytes) where
      -- One read of the loop in `read_signal`. A result of `none` is a loop left before the end.
      unfoldable pub after_read :
          ReadResult → Bytes → (Bytes → Run (Option Bytes × X)) → X → Run (Option Bytes × X)
      after_read (read_failed eintr) read again x = again read
      after_read (read_failed e) read again x = done (none, x)
      after_read (got bytes) read again x =
          let more = again (read ++ bytes) in
          if length (read ++ bytes) == length sigchld then done (some (read ++ bytes), x) else more

      -- `read` holds the bytes so far.
      unfoldable pub read_int : ℕ → Handler → Bytes → X → Run (Option Bytes × X)
      unfolding after_read
      read_int zero h read x = timeout
      read_int (suc fuel) h read x =
          let r = os.read (o.log_of x) h.pipe_signal.read_end (length sigchld - length read) in
          let x1 = emit (was_read h.pipe_signal.read_end r) x in
          after_read r read (λ bytes. read_int fuel h bytes x1) x1

      -- Behind the loop of `read_signal`.
      unfoldable pub signal_read : ℕ → Option Bytes → Handler × X → Run (EventReturn × Handler × X)
      signal_read fuel none (h, x) = done (stop_loop, h, x)
      signal_read fuel (some bytes) s = elim (same_bytes bytes sigchld) [
        | true ↦ do (h1, x1) ← handle_sigchld fuel s; done (nothing, h1, x1)
        | false ↦ done (nothing, s.0, s.1)
      ]

      unfoldable pub read_signal : ℕ → Handler → X → Run (EventReturn × Handler × X)
      unfolding read_int signal_read
      read_signal fuel h x = do (b, x1) ← read_int fuel h [] x; signal_read fuel b (h, x1)
