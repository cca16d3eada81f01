-- ===== src/SigchldHandler/Pieces.antt =====
-- The read of a signal that the pipe hands out in pieces.
use pexec.Base.{
  ℕ, zero, suc, ◌+◌, ◌-◌, ◌≤◌, ◌<◌, Bytes, true, false, Option, some, [], ◌∷◌, ◌++◌, ◌==◌, length,
  append_assoc, append-nil, length-append, same_bytes_refl, ◌≡◌, ◌≢◌, refl, ◌∙◌, sym, ap, ◌⊎◌, inl,
  inr, arith,
}
use pexec.Run.{done, ◌>>=◌}
use pexec.SigchldHandler.{
  Handler, Owner, emit, after_read, read_int, signal_read, read_signal, handle_sigchld,
}
use pexec.SelectEvent.{nothing}
use pexec.System.{Log, Os, ReadResult, got, read_failed, eintr, was_read, interrupted}

-- A piece that is not longer than what is wanted is its first part.
piece :
    (rest later bytes left : Bytes)
    → rest ++ later ≡ bytes ++ left
    → length bytes ≤ length rest
    → (r : Bytes) × (rest ≡ bytes ++ r) × (left ≡ r ++ later)
piece rest later [] left e h = (rest, refl, sym e)
piece [] later (b ∷ bytes) left e h = absurd (omega (arith, h))
piece (a ∷ rest) later (b ∷ bytes) left e h =
    let head : a ≡ b = cc in
    let tail : rest ++ later ≡ bytes ++ left = cc in
    let (r, f, g) = piece rest later bytes left tail (omega (arith, h)) in (r, cc, g)

module _ {X : Type 0} (os : Os) (o : Owner X) (fd : Option ℕ) where
  -- A pipe and its owner: `pending` is what the pipe has, after a log. A read gives at least one byte
  -- of it, in order, or is interrupted, at most `limit` times in a row.
  pub record HandsOut (limit : ℕ) (pending : Log → Bytes) : Type 0 where
    pub answer :
        (log : Log) (n : ℕ)
        → 0 < n
        → pending log ≢ []
        → ((os.read log fd n ≡ read_failed eintr)
            × (interrupted log < limit)
            × (pending (was_read fd (read_failed eintr) ∷ log) ≡ pending log))
          ⊎ ((bytes : Bytes) × (os.read log fd n ≡ got bytes)
              × (0 < length bytes)
              × (length bytes ≤ n)
              × (pending log ≡ bytes ++ pending (was_read fd (got bytes) ∷ log)))
    pub log-put : (log : Log) (x : X) → o.log_of (o.put_log log x) ≡ log

  module _ (limit : ℕ) (pending : Log → Bytes) (w : HandsOut limit pending) (sigchld : Bytes) where
    -- The attempts that are enough for some bytes.
    abbrev attempts : Bytes → ℕ
    attempts [] = 0
    attempts (b ∷ bytes) = suc limit + attempts bytes

    attempts-append :
        (bytes r : Bytes) → 0 < length bytes → suc limit + attempts r ≤ attempts (bytes ++ r)
    attempts-append [] r h = absurd (omega (arith, h))
    attempts-append (b ∷ []) r h = omega arith
    attempts-append (b ∷ d ∷ bytes) r h =
        let i = attempts-append (d ∷ bytes) r (omega arith) in omega (arith, i)

    -- One read of the loop, with its answer.
    read_int-step :
        (fuel : ℕ) (h : Handler) (read : Bytes) (x : X) (r : ReadResult)
        → h.pipe_signal.read_end ≡ fd
        → os.read (o.log_of x) fd (length sigchld - length read) ≡ r
        → let x1 = emit o (was_read fd r) x in
          read_int o os sigchld (suc fuel) h read x
          ≡ after_read o os sigchld r read (λ bytes. read_int o os sigchld fuel h bytes x1) x1
    unfolding read_int
    read_int-step fuel h read x r f e =
        let n = length sigchld - length read in
        ap
          (λ d.
            let q = os.read (o.log_of x) d n in
            let x1 = emit o (was_read d q) x in
            after_read o os sigchld q read (λ bytes. read_int o os sigchld fuel h bytes x1) x1)
          f
        ∙ ap
            (λ q.
              let x1 = emit o (was_read fd q) x in
              after_read o os sigchld q read (λ bytes. read_int o os sigchld fuel h bytes x1) x1)
            e

    -- What is known before a read: the part `read` of the signal was taken, and `rest` comes next.
    record Going (fuel : ℕ) (read rest later : Bytes) (x : X) : Type 0 where
      whole : read ++ rest ≡ sigchld
      more : 0 < length rest
      next : pending (o.log_of x) ≡ rest ++ later
      enough : attempts rest < fuel + interrupted (o.log_of x)
      few : interrupted (o.log_of x) ≤ limit

    abbrev Reads : ℕ → Handler → Bytes → Bytes → X → Type 0
    Reads fuel h read later x =
        (x1 : X) × (read_int o os sigchld fuel h read x ≡ done (some sigchld, x1))
        × (pending (o.log_of x1) ≡ later)

    -- Behind a read that gave bytes.
    after_got :
        (fuel : ℕ) (h : Handler) (read bytes r later : Bytes) (x : X)
        → (read ++ bytes) ++ r ≡ sigchld
        → pending (o.log_of x) ≡ r ++ later
        → interrupted (o.log_of x) ≡ 0
        → attempts r < fuel
        → (0 < length r
            → Going fuel (read ++ bytes) r later x
            → Reads fuel h (read ++ bytes) later x)
        → (x1 : X) × (after_read o os sigchld
              (got bytes)
              read
              (λ bytes. read_int o os sigchld fuel h bytes x)
              x
            ≡ done (some sigchld, x1))
          × (pending (o.log_of x1) ≡ later)
    unfolding after_read
    after_got fuel h read bytes [] later x e p z b again =
        let all : read ++ bytes ≡ sigchld = sym (append-nil (read ++ bytes)) ∙ e in
        let full : (length (read ++ bytes) == length sigchld) ≡ true =
          (let l : length (read ++ bytes) ≡ length sigchld = ap length all in ground (arith, l)) in
        (x, rw full (ap (λ s. done (some s, x)) all), p)
    after_got fuel h read bytes (d ∷ r) later x e p z b again =
        let l = ap length e in
        let m = length-append (read ++ bytes) (d ∷ r) in
        let part : (length (read ++ bytes) == length sigchld) ≡ false = ground (arith, l, m) in
        let (x1, q, g) = again (omega arith) (record {
          whole = e;
          more = omega arith;
          next = p;
          enough = omega (arith, b, z);
          few = omega (arith, z);
        }) in
        (x1, rw part q, g)

    read_int-pieces :
        (fuel : ℕ) (h : Handler) (read rest later : Bytes) (x : X)
        → h.pipe_signal.read_end ≡ fd
        → Going fuel read rest later x
        → Reads fuel h read later x
    unfolding after_read
    read_int-pieces zero h read [] later x f g = absurd (let m = g.more in omega (arith, m))
    read_int-pieces zero h read (d ∷ rest) later x f g =
        absurd (let a = g.enough in let b = g.few in omega (arith, a, b))
    read_int-pieces (suc fuel) h read rest later x f g =
        let log = o.log_of x in
        let n = length sigchld - length read in
        let len : n ≡ length rest =
          (let l = ap length g.whole in let m = length-append read rest in omega (arith, l, m)) in
        let some_left : 0 < n = (let m = g.more in omega (arith, len, m)) in
        let not_empty : pending log ≢ [] = λ q. absurd (
          let l = ap length (sym g.next ∙ q) in
          let m = length-append rest later in let k = g.more in omega (arith, l, m, k)) in
        elim (w.answer log n some_left not_empty) [
          | inl (e, few, same) ↦
              let x1 = emit o (was_read fd (read_failed eintr)) x in
              let l : o.log_of x1 ≡ was_read fd (read_failed eintr) ∷ log = w.log-put _ x in
              let z = ap interrupted l in
              let b = g.enough in
              let (x2, q, p) = read_int-pieces fuel h read rest later x1 f (record {
                whole = g.whole;
                more = g.more;
                next = ap pending l ∙ same ∙ g.next;
                enough = omega (arith, z, b);
                few = omega (arith, z, few);
              }) in
              (x2, read_int-step fuel h read x (read_failed eintr) f e ∙ q, p)
          | inr (bytes, e, some_got, fits, split) ↦
              let x1 = emit o (was_read fd (got bytes)) x in
              let l : o.log_of x1 ≡ was_read fd (got bytes) ∷ log = w.log-put _ x in
              let z = ap interrupted l in
              let (r, q, left) =
                piece rest later bytes (pending (was_read fd (got bytes) ∷ log))
                  (sym g.next ∙ split) (omega (arith, fits, len)) in
              let b = g.enough in
              let k = g.few in
              let a = attempts-append bytes r some_got in
              let t = ap attempts q in
              let (x2, u, p) =
                after_got fuel h read bytes r later x1
                  (append_assoc read bytes r ∙ ap (λ t. read ++ t) (sym q) ∙ g.whole)
                  (ap pending l ∙ left) z (omega (arith, a, b, k, t))
                  (λ m g1. read_int-pieces fuel h (read ++ bytes) r later x1 f g1) in
              (x2, read_int-step fuel h read x (got bytes) f e ∙ u, p)
        ]

    signal_read-same :
        (fuel : ℕ) (s : Handler × X)
        → signal_read o os sigchld fuel (some sigchld) s
          ≡ (handle_sigchld o os fuel s >>= (λ s. done (nothing, s.0, s.1)))
    unfolding signal_read
    signal_read-same fuel s = rw (same_bytes_refl sigchld, signal_read) refl

    -- A SIGCHLD of at least one byte, handed out in pieces, and followed by anything: if `fuel` is
    -- larger than the number of reads that its bytes can take, with those that are interrupted, then
    -- `read_signal` handles the signal once, behind its last byte, and leaves what follows in the
    -- pipe.
    pub read_signal-pieces :
        (fuel : ℕ) (h : Handler) (later : Bytes) (x : X)
        → h.pipe_signal.read_end ≡ fd
        → 0 < length sigchld
        → pending (o.log_of x) ≡ sigchld ++ later
        → interrupted (o.log_of x) ≤ limit
        → attempts sigchld < fuel
        → (x1 : X) × (read_signal o os sigchld fuel h x
            ≡ (handle_sigchld o os fuel (h, x1) >>= (λ s. done (nothing, s.0, s.1))))
          × (pending (o.log_of x1) ≡ later)
    unfolding read_signal
    read_signal-pieces fuel h later x f l p k b =
        let (x1, e, q) =
          read_int-pieces fuel h [] sigchld later x f
            (record { whole = refl; more = l; next = p; enough = omega (arith, b); few = k }) in
        (
          x1,
          ap (λ r. r >>= (λ (b, x1). signal_read o os sigchld fuel b (h, x1))) e
              ∙ signal_read-same fuel (h, x1),
          q,
        )
