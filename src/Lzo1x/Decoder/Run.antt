-- ===== src/Lzo1x/Decoder/Run.antt =====
-- The whole run of the safe decompressor: it ends, without a fault, and a state's result does not
-- depend on the rounds given.
use lzo.Base.{ℕ, zero, suc, ◌+◌, ◌≤◌, ◌<◌, ◌≡◌, refl, arith, List, length, All, IsByte}
use lzo.Lzo1x.Format.{Variant}
use lzo.Lzo1x.Decoder.{safe}
use lzo.Lzo1x.Decoder.{Status, Step, next, done, fault, State, Outcome, returned, faulted}
use lzo.Lzo1x.Decoder.{step, run, start, decompress}
use lzo.Lzo1x.Decoder.Safety.{Safe, IsReady, IsNext}
use lzo.Lzo1x.Decoder.Safety.Rounds.{step-Safe, start-Safe}

-- A run that returns, with an output that fits the buffer.
abbrev pub Returns : ℕ → Outcome → Type 0
Returns size r = (s : Status) × (out : List ℕ) × (r ≡ returned s out) × (length out ≤ size)

run-Returns :
    (v : Variant) (size fuel : ℕ) (s : State)
    → IsReady size s
    → length s.1 < fuel
    → Returns size (run v size fuel s)
unfolding run
run-Returns v size zero s r h = absurd (omega arith)
run-Returns v size (suc fuel) s r h =
    go (run-Returns v size fuel) (step v size s) (step-Safe v size s r)
  where
    go :
        ((s' : State) → IsReady size s' → length s'.1 < fuel → Returns size (run v size fuel s'))
        → (m : Step State) → Safe size (IsNext size (length s.1)) m
        → Returns size (elim m [
          | next s' ↦ run v size fuel s'
          | done status out ↦ returned status out
          | fault ↦ faulted
        ])
    go rec (next s') (g, k) = rec s' g (omega arith)
    go rec (done status out) g = (status, out, refl, g)
    go rec fault g = absurd g

-- On every input of bytes and every buffer size the decompressor returns: its loop ends, it reads
-- nothing past the input, copies nothing from outside the output, and the output that it leaves
-- fits the buffer, whatever the status.
pub decompress-Returns :
    (v : Variant) (size : ℕ) (input : List ℕ)
    → All IsByte input
    → Returns size (decompress v size input)
unfolding decompress
decompress-Returns v size input a = go (start size input) (start-Safe size input a)
  where
    go :
        (m : Step State)
        → Safe size (IsNext size (length input + 1)) m
        → Returns size (elim m [
          | next s ↦ run v size (length input + 1) s
          | done status out ↦ returned status out
          | fault ↦ faulted
        ])
    go (next s) (g, k) = run-Returns v size (length input + 1) s g k
    go (done status out) g = (status, out, refl, g)
    go fault g = absurd g

-- The rounds given do not matter once they suffice.
pub run_fuel :
    (v : Variant) (size f g : ℕ) (s : State)
    → IsReady size s
    → length s.1 < f
    → length s.1 < g
    → run v size f s ≡ run v size g s
unfolding run
run_fuel v size zero g s r h k = absurd (omega arith)
run_fuel v size (suc f) zero s r h k = absurd (omega arith)
run_fuel v size (suc f) (suc g) s r h k =
    go (run_fuel v size f g) (step v size s) (step-Safe v size s r)
  where
    go :
        ((s' : State)
          → IsReady size s'
          → length s'.1 < f
          → length s'.1 < g
          → run v size f s' ≡ run v size g s')
        → (m : Step State) → Safe size (IsNext size (length s.1)) m
        → elim m [
          | next s' ↦ run v size f s'
          | done status out ↦ returned status out
          | fault ↦ faulted
        ]
          ≡ elim m [
            | next s' ↦ run v size g s'
            | done status out ↦ returned status out
            | fault ↦ faulted
          ]
    go rec (next s') (q, l) = rec s' q (omega arith) (omega arith)
    go rec (done status out) q = refl
    go rec fault q = refl
