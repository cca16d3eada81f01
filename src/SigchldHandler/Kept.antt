-- ===== src/SigchldHandler/Kept.antt =====
-- What a property of the owner's state needs to outlast the reading and handling of a signal.
use pexec.Base.{
  ℕ, zero, suc, ◌-◌, Bytes, Bool, true, false, Option, none, some, [], ◌∷◌, ◌++◌, ◌==◌, length,
  same_bytes, inl, inr, Bool-cases, if◌then◌else◌,
}
use pexec.Error.{Error, sig_block_error, sig_unblock_error, waitpid_error}
use pexec.Run.{Run, done, Ensures, Ensures-bind, Ensures-if}
use pexec.SelectEvent.{EventReturn}
use pexec.SigchldHandler.{
  Handler, Owner, emit, tell_error, tell_signal, process_error, block_sigchld, unblock_sigchld,
  after_waitpid, drain, handle_sigchld, after_read, read_int, signal_read, read_signal,
}
use pexec.System.{
  Log, Os, ReadResult, got, read_failed, WaitResult, reaped, not_ready, wait_failed, eintr, eagain,
  echild, other_errno, blocked, unblocked, waited, was_read,
}

module _ {X : Type 0} (P : X → Type 0) (o : Owner X) where
  pub record IsKept : Type 0 where
    pub put : (log : Log) (x : X) → P x → P (o.put_log log x)
    pub signal : (pid status : ℕ) (x : X) → P x → Ensures P (tell_signal o o.on_signal pid status x)
    pub error : (err : Error) (x : X) → P x → P (tell_error o o.on_error err x)

module _ {X : Type 0} (P : X → Type 0) (o : Owner X) (w : IsKept P o) (os : Os) where
  abbrev Q : Handler × X → Type 0
  Q s = P s.1

  Q-if : (b : Bool) (s t : Handler × X) → Q s → Q t → Q (if b then s else t)
  Q-if true s t a b = a
  Q-if false s t a b = b

  process_error-Kept : (err : Error) (s : Handler × X) → Q s → Q (process_error o err s)
  unfolding process_error
  process_error-Kept err (h, x) a = w.error err x a

  block-Kept : (s : Handler × X) → Q s → Q (block_sigchld o os s)
  unfolding block_sigchld
  block-Kept (h, x) a =
      let ok = os.sigprocmask (o.log_of x) in
      let s : Handler × X = (h, emit o (blocked ok) x) in
      let k = w.put (blocked ok ∷ o.log_of x) x a in
      Q-if ok s (process_error o sig_block_error s) k (process_error-Kept sig_block_error s k)

  unblock-Kept : (s : Handler × X) → Q s → Q (unblock_sigchld o os s)
  unfolding unblock_sigchld
  unblock-Kept (h, x) a =
      let ok = os.sigprocmask (o.log_of x) in
      let s : Handler × X = (h, emit o (unblocked ok) x) in
      let k = w.put (unblocked ok ∷ o.log_of x) x a in
      Q-if ok s (process_error o sig_unblock_error s) k (process_error-Kept sig_unblock_error s k)

  after_waitpid-Kept :
      (r : WaitResult) (s : Handler × X) (again : Handler × X → Run (Handler × X))
      → Q s
      → ((t : Handler × X) → Q t → Ensures Q (again t))
      → Ensures Q (after_waitpid o os r s again)
  unfolding after_waitpid
  after_waitpid-Kept (reaped pid status) (h, x) again a f =
      Ensures-bind P Q (tell_signal o o.on_signal pid status x) (λ x1. again (h, x1))
        (w.signal pid status x a) (λ x1 b. f (h, x1) b)
  after_waitpid-Kept not_ready s again a f = a
  after_waitpid-Kept (wait_failed echild) s again a f = a
  after_waitpid-Kept (wait_failed eintr) s again a f = f s a
  after_waitpid-Kept (wait_failed eagain) s again a f = process_error-Kept waitpid_error s a
  after_waitpid-Kept (wait_failed other_errno) s again a f = process_error-Kept waitpid_error s a

  drain-Kept : (fuel : ℕ) (s : Handler × X) → Q s → Ensures Q (drain o os fuel s)
  unfolding drain
  drain-Kept zero s a = tt
  drain-Kept (suc fuel) (h, x) a =
      let r = os.waitpid (o.log_of x) (some 0) in
      after_waitpid-Kept r (h, emit o (waited r) x) (λ s. drain o os fuel s)
        (w.put (waited r ∷ o.log_of x) x a) (λ t b. drain-Kept fuel t b)

  handle-Kept : (fuel : ℕ) (s : Handler × X) → Q s → Ensures Q (handle_sigchld o os fuel s)
  unfolding handle_sigchld
  handle-Kept fuel s a =
      Ensures-bind Q Q (drain o os fuel (block_sigchld o os s))
        (λ s1. done (unblock_sigchld o os s1))
        (drain-Kept fuel (block_sigchld o os s) (block-Kept s a)) (λ s1 b. unblock-Kept s1 b)

  module _ (sigchld : Bytes) where
    abbrev R : Option Bytes × X → Type 0
    R r = P r.1

    after_read-Kept :
        (r : ReadResult) (read : Bytes) (again : Bytes → Run (Option Bytes × X)) (x : X)
        → P x
        → ((bytes : Bytes) → Ensures R (again bytes))
        → Ensures R (after_read o os sigchld r read again x)
    unfolding after_read
    after_read-Kept (read_failed eintr) read again x a f = f read
    after_read-Kept (read_failed eagain) read again x a f = a
    after_read-Kept (read_failed echild) read again x a f = a
    after_read-Kept (read_failed other_errno) read again x a f = a
    after_read-Kept (got bytes) read again x a f =
        Ensures-if R (length (read ++ bytes) == length sigchld) (done (some (read ++ bytes), x))
          (again (read ++ bytes)) a (f (read ++ bytes))

    read_int-Kept :
        (fuel : ℕ) (h : Handler) (read : Bytes) (x : X)
        → P x
        → Ensures R (read_int o os sigchld fuel h read x)
    unfolding read_int
    read_int-Kept zero h read x a = tt
    read_int-Kept (suc fuel) h read x a =
        let r = os.read (o.log_of x) h.pipe_signal.read_end (length sigchld - length read) in
        let x1 = emit o (was_read h.pipe_signal.read_end r) x in
        let k = w.put (was_read h.pipe_signal.read_end r ∷ o.log_of x) x a in
        after_read-Kept r read (λ bytes. read_int o os sigchld fuel h bytes x1) x1 k
          (λ bytes. read_int-Kept fuel h bytes x1 k)

    abbrev S : EventReturn × Handler × X → Type 0
    S r = P r.2

    signal_read-Kept :
        (fuel : ℕ) (b : Option Bytes) (s : Handler × X)
        → Q s
        → Ensures S (signal_read o os sigchld fuel b s)
    unfolding signal_read
    signal_read-Kept fuel none (h, x) a = a
    signal_read-Kept fuel (some bytes) s a = elim (Bool-cases (same_bytes bytes sigchld)) [
      | inl e ↦
          rw (e, signal_read)
            (Ensures-bind Q S (handle_sigchld o os fuel s)
              (λ t. done (EventReturn.nothing, t.0, t.1)) (handle-Kept fuel s a) (λ t b. b))
      | inr e ↦ rw (e, signal_read) a
    ]

    pub read_signal-Kept :
        (fuel : ℕ) (h : Handler) (x : X)
        → P x
        → Ensures (λ r. P r.2) (read_signal o os sigchld fuel h x)
    unfolding read_signal
    read_signal-Kept fuel h x a =
        Ensures-bind R S (read_int o os sigchld fuel h [] x)
          (λ r. signal_read o os sigchld fuel r.0 (h, r.1)) (read_int-Kept fuel h [] x a)
          (λ r b. signal_read-Kept fuel r.0 (h, r.1) b)
