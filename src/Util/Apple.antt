-- ===== src/Util/Apple.antt =====
-- `pipe2` as util.cpp defines it for macOS, over `pipe` and `fcntl`, and the functions that set
-- descriptor flags. Flags are 32-bit patterns: -1 is 2 ^ 32 - 1.
use Prim.Native.Nat.{bit_and, bit_or, bit_xor}
use pexec.Base.{
  ℕ, ◌+◌, ◌-◌, ◌^◌, Bool, true, false, none, some, ◌∷◌, ◌==◌, ◌≡◌, refl, if◌then◌else◌, arith, ◌⊎◌,
  Option-cases, inl, inr,
}
use pexec.System.{Log, Os, Pipe, opened, open_failed, got_flags, set_flags}
use pexec.System.Ledger.{at, opens, closes, holds}
use pexec.Util.{close_pipe}
use pexec.Util.Close.{no_pipe, close_pipe_lem}

-- `O_NONBLOCK` and `O_CLOEXEC` are the platform's.
module _ (os : Os) (o_nonblock o_cloexec : ℕ) where
  -- `fcntl(fd, F_SETFL, flags)` behind `fcntl(fd, F_GETFL, 0)`
  change_flags : (ℕ → ℕ) → Log → ℕ → Bool × Log
  change_flags f log fd =
      let flags = f (os.get_flags log fd) in
      let log1 = got_flags fd ∷ log in
      let ok = os.set_flags log1 fd flags in (ok, set_flags fd flags ok ∷ log1)

  unfoldable pub fd_set_nonblock : Log → ℕ → Bool × Log
  unfolding change_flags
  fd_set_nonblock = change_flags (λ flags. bit_or flags o_nonblock)

  unfoldable pub fd_set_cloexec : Log → ℕ → Bool × Log
  unfolding change_flags
  fd_set_cloexec = change_flags (λ flags. bit_or flags o_cloexec)

  -- `flags &= ~O_NONBLOCK`
  unfoldable pub fd_unset_nonblock : Log → ℕ → Bool × Log
  unfolding change_flags
  fd_unset_nonblock = change_flags (λ flags. bit_and flags (bit_xor (2 ^ 32 - 1) o_nonblock))

  fail : Log → Pipe → Pipe × Log × Bool
  fail log p = let (q, log1) = close_pipe log p in (q, log1, false)

  -- Two of the guarded calls of `pipe2`: the first end, then the second; a failure closes both.
  set_both : (Log → ℕ → Bool × Log) → Log → ℕ → ℕ → Pipe × Log × Bool
  unfolding fail
  set_both set log r w =
      let p : Pipe = record { read_end = some r; write_end = some w } in
      let (ok1, log1) = set log r in
      let (ok2, log2) = set log1 w in
      if ok1 then if ok2 then (p, log2, true) else fail log2 p else fail log1 p

  set_cloexec : ℕ → Log → ℕ → ℕ → Pipe × Log × Bool
  unfolding set_both
  set_cloexec flags log r w =
      if bit_and flags o_cloexec == o_cloexec
      then set_both fd_set_cloexec log r w
      else (record { read_end = some r; write_end = some w }, log, true)

  set_nonblock : ℕ → Log → ℕ → ℕ → Pipe × Log × Bool
  unfolding set_both set_cloexec
  set_nonblock flags log r w =
      if bit_and flags o_nonblock == o_nonblock
      then (let (p, log1, ok) = set_both fd_set_nonblock log r w in
          if ok then set_cloexec flags log1 r w else (p, log1, false))
      else set_cloexec flags log r w

  -- `pipe2`: the pipe, the log, and whether it returns 0. A failed `pipe` leaves the array alone.
  pub pipe2 : Log → Pipe → ℕ → Pipe × Log × Bool
  unfolding set_nonblock
  pipe2 log p flags = elim (os.pipe2 log) [
    | none ↦ (p, open_failed ∷ log, false)
    | some (r, w) ↦
        if flags == 0
        then (record { read_end = some r; write_end = some w }, opened r w ∷ log, true)
        else set_nonblock flags (opened r w ∷ log) r w
  ]

  -- What a stage that starts with the pipe `r`, `w` may do.
  record Settled (n : ℕ) (log : Log) (r w : ℕ) (q : Pipe × Log × Bool) : Type 0 where
    closing : closes n q.1 + holds n q.0 ≡ closes n log + at n r + at n w
    opening : opens n q.1 ≡ opens n log
    on_success : q.2 ≡ true → q.0 ≡ record { read_end = some r; write_end = some w }
    on_failure : q.2 ≡ false → q.0 ≡ no_pipe

  -- Setting flags neither opens nor closes.
  abbrev IsQuiet : (Log → ℕ → Bool × Log) → Type 0
  IsQuiet set =
      (n : ℕ) (log : Log) (fd : ℕ)
      → (closes n (set log fd).1 ≡ closes n log) × (opens n (set log fd).1 ≡ opens n log)

  nonblock-IsQuiet : IsQuiet fd_set_nonblock
  unfolding fd_set_nonblock
  nonblock-IsQuiet n log fd = (refl, refl)

  cloexec-IsQuiet : IsQuiet fd_set_cloexec
  unfolding fd_set_cloexec
  cloexec-IsQuiet n log fd = (refl, refl)

  set_both-Settled :
      (set : Log → ℕ → Bool × Log) (n : ℕ) (log : Log) (r w : ℕ)
      → IsQuiet set
      → Settled n log r w (set_both set log r w)
  unfolding set_both
  set_both-Settled set n log r w h =
      let p : Pipe = record { read_end = some r; write_end = some w } in
      let log1 = (set log r).1 in
      let log2 = (set log1 w).1 in
      ground (arith, h n log r, h n log1 w, close_pipe_lem n log1 p, close_pipe_lem n log2 p)

  set_cloexec-Settled :
      (flags n : ℕ) (log : Log) (r w : ℕ) → Settled n log r w (set_cloexec flags log r w)
  unfolding set_cloexec
  set_cloexec-Settled flags n log r w =
      ground (arith, set_both-Settled fd_set_cloexec n log r w cloexec-IsQuiet)

  set_nonblock-Settled :
      (flags n : ℕ) (log : Log) (r w : ℕ) → Settled n log r w (set_nonblock flags log r w)
  unfolding set_nonblock
  set_nonblock-Settled flags n log r w = ground (
    arith,
    set_both-Settled fd_set_nonblock n log r w nonblock-IsQuiet,
    set_cloexec-Settled flags n log r w,
    set_cloexec-Settled flags n (set_both fd_set_nonblock log r w).1 r w,
  )

  -- Whatever the array holds before, the flags and the answers are: if `pipe` fails, nothing is
  -- opened or closed and the array is as it was. Otherwise the former content is overwritten, each
  -- descriptor that was opened is closed again or held by the array, which holds both ends on success
  -- and none when a later call fails.
  pub pipe2_lem :
      (log : Log) (p : Pipe) (flags n : ℕ)
      → ((os.pipe2 log ≡ none) × (pipe2 log p flags ≡ (p, open_failed ∷ log, false)))
        ⊎ ((r : ℕ) × (w : ℕ) × (os.pipe2 log ≡ some (r, w))
            × (opens n (pipe2 log p flags).1 ≡ opens n log + at n r + at n w)
            × (opens n (pipe2 log p flags).1 + closes n log
                ≡ opens n log + closes n (pipe2 log p flags).1 + holds n (pipe2 log p flags).0)
            × ((pipe2 log p flags).2 ≡ true
                → (pipe2 log p flags).0 ≡ record { read_end = some r; write_end = some w })
            × ((pipe2 log p flags).2 ≡ false → (pipe2 log p flags).0 ≡ no_pipe))
  unfolding pipe2
  pipe2_lem log p flags n = elim (Option-cases (os.pipe2 log)) [
    | inl e ↦ inl (e, rw (e, pipe2) refl)
    | inr ((r, w), e) ↦
        let s = set_nonblock-Settled flags n (opened r w ∷ log) r w in
        inr (
          r,
          w,
          e,
          rw (e, pipe2) (ground (arith, s)),
          rw (e, pipe2) (ground (arith, s)),
          rw (e, pipe2) (ground (arith, s)),
          rw (e, pipe2) (ground (arith, s)),
        )
  ]
