-- ===== src/SelectEvent/Control.antt =====
-- The loop's own callback returns: the read of its control pipe is tried until it is let through.
use pexec.Base.{
  ℕ, zero, suc, ◌+◌, ◌≤◌, ◌<◌, some, ◌∷◌, ◌≡◌, ◌≢◌, refl, ◌∙◌, ap, arith, leq-cases, inl, inr,
}
use pexec.Run.{Run, Returns, Returns-bind}
use pexec.SelectEvent.{Loop, control, Client, EventReturn, after_control, read_control, dispatch}
use pexec.System.{
  Event, Log, Os, ReadResult, got, read_failed, Errno, eintr, eagain, echild, other_errno, was_read,
  interrupted,
}

-- `holds` is kept by the client's log of a read; the system lets the read of one byte at `fd` through
-- after `limit` interruptions, and fails it for no other reason.
pub record CanRead (X K : Type 0) (os : Os) (c : Client X K) (holds : X → Type 0) (fd limit : ℕ)
    : Type 0 where
  pub emits : (e : Event) (x : X) → c.log_of (c.emit e x) ≡ e ∷ c.log_of x
  pub kept_read : (r : ReadResult) (x : X) → holds x → holds (c.emit (was_read (some fd) r) x)
  pub patient : (log : Log) → limit ≤ interrupted log → os.read log (some fd) 1 ≢ read_failed eintr
  pub only_eintr : (log : Log) (e : Errno) → os.read log (some fd) 1 ≡ read_failed e → e ≡ eintr

module _ {X K : Type 0} (os : Os) (c : Client X K) (holds : X → Type 0) (fd limit : ℕ)
    (h : CanRead X K os c holds fd limit) where
  after_control-Returns :
      (r : ReadResult) (x : X) (again : Run X)
      → holds x
      → ((e : Errno) → r ≡ read_failed e → e ≡ eintr)
      → (r ≡ read_failed eintr → Returns holds again)
      → Returns holds (after_control os c r x again)
  unfolding after_control
  after_control-Returns (got bytes) x again w e a = w
  after_control-Returns (read_failed eintr) x again w e a = a refl
  after_control-Returns (read_failed eagain) x again w e a = cc (e eagain refl)
  after_control-Returns (read_failed echild) x again w e a = cc (e echild refl)
  after_control-Returns (read_failed other_errno) x again w e a = cc (e other_errno refl)

  read_control-Returns :
      (k : ℕ) (x : X)
      → holds x
      → 0 < k
      → limit < k + interrupted (c.log_of x)
      → Returns holds (read_control os c k fd x)
  unfolding read_control
  read_control-Returns zero x w z b = absurd (omega (arith, z))
  read_control-Returns (suc k) x w z b =
      let r = os.read (c.log_of x) (some fd) 1 in
      let x1 = c.emit (was_read (some fd) r) x in
      let w1 = h.kept_read r x w in
      after_control-Returns r x1 _ w1 (λ e q. h.only_eintr (c.log_of x) e q)
        λ e.
          let one : interrupted (c.log_of x1) ≡ suc (interrupted (c.log_of x)) =
            ap interrupted (h.emits (was_read (some fd) r) x)
            ∙ ap (λ q. interrupted (was_read (some fd) q ∷ c.log_of x)) e in
          elim (leq-cases limit (interrupted (c.log_of x))) [
            | inl y ↦ absurd (h.patient (c.log_of x) y e)
            | inr y ↦ read_control-Returns k x1 w1 (omega (arith, y, b)) (omega (arith, one, b))
          ]

  -- Then the client says what to do.
  pub dispatch-control-Returns :
      (k : ℕ) (l : Loop K) (x : X) (Good : EventReturn × Loop K × X → Type 0)
      → holds x
      → limit < k
      → ((x1 : X) → holds x1 → Good ((c.on_interrupt x1).0, l, (c.on_interrupt x1).1))
      → Returns Good (dispatch os c k control fd l x)
  unfolding dispatch
  dispatch-control-Returns k l x Good w b g =
      Returns-bind holds Good (read_control os c k fd x) _
        (read_control-Returns k x w (omega (arith, b)) (omega (arith, b))) g
