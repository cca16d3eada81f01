-- ===== src/SigchldHandler/ByteByByte.antt =====
-- A pipe that gives a signal byte by byte.
use pexec.Base.{ℕ, zero, suc, Bytes, some, [], ◌∷◌, ◌++◌, ◌≡◌, ◌≢◌, refl, ap, arith, inr}
use pexec.Run.{done, ◌>>=◌}
use pexec.SelectEvent.{nothing}
use pexec.SigchldHandler.{Handler, new_handler, read_signal, handle_sigchld}
use pexec.SigchldHandler.Examples.{Noted, noting, two_children}
use pexec.SigchldHandler.Pieces.{HandsOut, read_signal-pieces}
use pexec.System.{Log, Os, ReadResult, got, read_failed, eagain, was_read}

abbrev sigchld_bytes : Bytes
sigchld_bytes = 17 ∷ 0 ∷ 0 ∷ 0 ∷ []

abbrev byte_reads : Log → ℕ
byte_reads [] = 0
byte_reads (was_read fd (got bytes) ∷ log) = suc (byte_reads log)
byte_reads (_ ∷ log) = byte_reads log

abbrev behind : ℕ → Bytes → Bytes
behind zero bytes = bytes
behind (suc n) [] = []
behind (suc n) (b ∷ bytes) = behind n bytes

-- The signal, and the first byte of another one.
abbrev in_pipe : Log → Bytes
in_pipe log = behind (byte_reads log) (sigchld_bytes ++ 17 ∷ [])

abbrev first_byte : Bytes → ReadResult
first_byte [] = read_failed eagain
first_byte (b ∷ bytes) = got (b ∷ [])

abbrev dripping : Os
dripping = record two_children { read = λ log fd n. first_byte (in_pipe log) }

one_byte : (k : ℕ) (s : Bytes) → behind k s ≢ [] → (b : ℕ) × (behind k s ≡ b ∷ behind (suc k) s)
one_byte zero [] h = absurd (h refl)
one_byte zero (b ∷ s) h = (b, refl)
one_byte (suc k) [] h = absurd (h refl)
one_byte (suc k) (b ∷ s) h = one_byte k s h

abbrev full : Handler
full = record new_handler { pipe_signal = record { read_end = some 3; write_end = some 4 } }

dripping-HandsOut : HandsOut dripping noting (some 3) 0 in_pipe
dripping-HandsOut = record {
  answer = λ log n positive left.
      let (b, e) = one_byte (byte_reads log) (sigchld_bytes ++ 17 ∷ []) left in
      inr (b ∷ [], ap first_byte e, omega arith, omega (arith, positive), e);
  log-put = λ log x. refl;
}

read_signal-pieces_example :
    (x1 : Noted) × (read_signal noting dripping sigchld_bytes 9 full ([], [])
      ≡ (handle_sigchld noting dripping 9 (full, x1) >>= (λ s. done (nothing, s.0, s.1))))
    × (in_pipe x1.0 ≡ 17 ∷ [])
read_signal-pieces_example =
    read_signal-pieces dripping noting (some 3) 0 in_pipe dripping-HandsOut sigchld_bytes 9 full
      (17 ∷ []) ([], []) refl (omega arith) refl (omega arith) (omega arith)
