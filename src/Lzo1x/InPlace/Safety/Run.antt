-- ===== src/Lzo1x/InPlace/Safety/Run.antt =====
-- The whole run of lzo1x_d.ch in place, on any input.
use lzo.Base.{ℕ, zero, suc, ◌+◌, ◌<◌, ◌≤◌, ◌≡◌, refl, arith}
use lzo.Base.{List, length, All, IsByte}
use lzo.Lzo1x.Format.{Variant}
use lzo.Lzo1x.Decoder.{safe}
use lzo.Lzo1x.Decoder.{Status, Step, next, done, fault, State, Outcome, returned, faulted}
use lzo.Lzo1x.InPlace.{step_in_place, run_in_place, start_in_place, decompress_in_place}
use lzo.Lzo1x.InPlace.Safety.{Fits, Sound, IsOpen, IsLeft}
use lzo.Lzo1x.InPlace.Safety.Rounds.{step_in_place-Sound, start_in_place-Sound}

-- A run that returns, with an output that is bytes and fits the buffer.
abbrev pub ReturnsBytes : ℕ → Outcome → Type 0
ReturnsBytes size r = (s : Status) × (out : List ℕ) × (r ≡ returned s out) × Fits size out

module _ (room size : ℕ) (limit : size ≤ room) where
  run-ReturnsBytes :
      (v : Variant) (fuel : ℕ) (s : State)
      → IsOpen size s
      → length s.1 < fuel
      → ReturnsBytes size (run_in_place room v size fuel s)
  unfolding run_in_place
  run-ReturnsBytes v zero s r h = absurd (omega arith)
  run-ReturnsBytes v (suc fuel) s r h =
      go (run-ReturnsBytes v fuel) (step_in_place room v size s)
        (step_in_place-Sound room size limit v s r)
    where
      go :
          ((s' : State)
            → IsOpen size s'
            → length s'.1 < fuel
            → ReturnsBytes size (run_in_place room v size fuel s'))
          → (m : Step State) → Sound size (IsLeft size (length s.1)) m
          → ReturnsBytes size (elim m [
            | next s' ↦ run_in_place room v size fuel s'
            | done status out ↦ returned status out
            | fault ↦ faulted
          ])
      go rec (next s') (g, k) = rec s' g (omega arith)
      go rec (done status out) g = (status, out, refl, g)
      go rec fault g = absurd g

-- On every input of bytes, every buffer and every output limit that is at most the size of the buffer, the
-- safe decompressor returns in place, also where the output reaches the input that is still to be
-- read: its loop ends, it reads nothing past the input, writes nothing past the buffer, copies
-- nothing from outside the output, and what it leaves are bytes that fit the limit, whatever the
-- status.
pub decompress_in_place-ReturnsBytes :
    (v : Variant) (room size : ℕ) (input : List ℕ)
    → size ≤ room
    → All IsByte input
    → ReturnsBytes size (decompress_in_place v room size input)
unfolding decompress_in_place
decompress_in_place-ReturnsBytes v room size input limit a =
    go (start_in_place room size input) (start_in_place-Sound room size limit input a)
  where
    go :
        (m : Step State)
        → Sound size (IsLeft size (length input + 1)) m
        → ReturnsBytes size (elim m [
          | next s ↦ run_in_place room v size (length input + 1) s
          | done status out ↦ returned status out
          | fault ↦ faulted
        ])
    go (next s) (g, k) = run-ReturnsBytes room size limit v (length input + 1) s g k
    go (done status out) g = (status, out, refl, g)
    go fault g = absurd g
