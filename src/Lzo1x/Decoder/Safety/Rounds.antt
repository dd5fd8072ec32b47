-- ===== src/Lzo1x/Decoder/Safety/Rounds.antt =====
-- A round of the loop of lzo1x_d.ch does not fault.
use lzo.Base.{ℕ, zero, suc, ◌+◌, ◌-◌, ◌*◌, ◌/◌, ◌^◌, ◌≤◌, ◌<◌, arith}
use lzo.Base.{ltb, leb, Bool-cases, ltb→le, inl, inr}
use lzo.Base.{List, [], ◌∷◌, length, All, IsByte}
use lzo.Base.{u64}
use lzo.Lzo1x.Format.{Variant, m2_max_offset}
use lzo.Lzo1x.Decoder.{safe}
use lzo.Lzo1x.Decoder.{next, ◌>>=◌, need_ip, need_op}
use lzo.Lzo1x.Decoder.{e_input_overrun, e_output_overrun}
use lzo.Lzo1x.Decoder.{State, literal_run, first_literal_run, handle_match}
use lzo.Lzo1x.Decoder.{copy_literals}
use lzo.Lzo1x.Decoder.{run_length, literals, step, start}
use lzo.Lzo1x.Decoder.Safety.{Safe, Safe-bind, Safe-stop_if, Safe-weaken, IsReady, IsNext}
use lzo.Lzo1x.Decoder.Safety.Lengths.{
  IsLength, long_length-Safe, copy_literals-Safe, match_next-Safe,
}
use lzo.Lzo1x.Decoder.Safety.Matches.{finish_match-Safe, any_match-Safe}

pub run_length-Safe :
    (size t : ℕ) (ip out : List ℕ)
    → All IsByte ip
    → length out ≤ size
    → 2 ≤ length ip
    → t < 16
    → Safe size (IsLength (length ip)) (run_length t ip out)
unfolding run_length
run_length-Safe size zero ip out a o h ts =
    Safe-weaken size (λ r. IsLength (length ip) r × (length r.1 < length ip)) (IsLength (length ip))
      _
      (long_length-Safe size e_input_overrun 15 0 ip out a o (omega arith) (omega arith)
        (omega arith))
      (λ r g. g.0)
run_length-Safe size (suc t) ip out a o h ts = (a, omega arith, omega arith)

pub literals-Safe :
    (size m : ℕ) (ip out : List ℕ) (n : ℕ)
    → All IsByte ip
    → length out ≤ size
    → 2 ≤ length ip
    → m < 16
    → length ip < n
    → Safe size (IsNext size n) (literals size m ip out)
unfolding literals
literals-Safe size m ip out n a o h ms l =
    Safe-bind size _ _ (run_length m ip out) _ (run_length-Safe size m ip out a o h ms)
      λ (t, ip₁) (a₁, ts, l₁).
        Safe-stop_if size _ (ltb (size - length out) (u64 (t + 3))) e_output_overrun out _ o λ e.
          Safe-stop_if size _ (ltb (length ip₁) (u64 (t + 6))) e_input_overrun out _ o λ e'.
            Safe-bind size _ _ (copy_literals size (t + 3) ip₁ out) _
              (copy_literals-Safe size (t + 3) ip₁ out a₁ (omega (arith, ltb→le _ _ e'))
                (omega (arith, ltb→le _ _ e)))
              λ (ip₂, out') (a₂, o', k).
                ((a₂, o', omega (arith, k, ltb→le _ _ e')), omega (arith, k))

-- From a state with the input that it may read, a round does not fault: it returns with an output
-- that fits, or goes on in such a state with less input.
pub step-Safe :
    (v : Variant) (size : ℕ) (s : State)
    → IsReady size s
    → Safe size (IsNext size (length s.1)) (step v size s)
unfolding step
step-Safe v size (literal_run, [], out) (a, o) = o
step-Safe v size (literal_run, t ∷ ip, out) (a, o) =
    Safe-stop_if size _ (ltb (suc (length ip)) 3) e_input_overrun out _ o λ e.
      elim (Bool-cases (leb 16 t)) [
        | inl big ↦ rw big ((a.1, o, omega (arith, ltb→le _ _ e), a.0), omega arith)
        | inr small ↦ rw small (
            literals-Safe size t ip out _ a.1 o (omega (arith, ltb→le _ _ e)) (ground arith)
              (omega arith))
      ]
step-Safe v size (first_literal_run, [], out) (a, o, h) = absurd (omega arith)
step-Safe v size (first_literal_run, t ∷ [], out) (a, o, h) = absurd (omega arith)
step-Safe v size (first_literal_run, t ∷ b ∷ ip, out) (a, o, h) = elim (Bool-cases (leb 16 t)) [
  | inl big ↦ rw big ((a.1, o, omega arith, a.0), omega arith)
  | inr small ↦ rw small (
      finish_match-Safe size (1 + m2_max_offset v + t / 2 ^ 2 + b * 2 ^ 2) 3 t ip out _ a.1.1 o
        (omega arith) (omega arith))
]
step-Safe v size (handle_match t, ip, out) r = any_match-Safe v size t ip out r

-- The code before the loop does not fault either.
pub start-Safe :
    (size : ℕ) (ip : List ℕ)
    → All IsByte ip
    → Safe size (IsNext size (length ip + 1)) (start size ip)
unfolding start
start-Safe size [] a = omega arith
start-Safe size (b ∷ ip) a =
    Safe-stop_if size _ (ltb (suc (length ip)) 1) e_input_overrun [] _ (omega arith) λ _.
      elim (Bool-cases (ltb 17 b)) [
        | inr small ↦ rw small ((a, omega arith), omega arith)
        | inl big ↦ rw big (elim (Bool-cases (ltb (b - 17) 4)) [
          | inl few ↦ rw few (
              match_next-Safe size (b - 17) ip [] (suc (length ip) + 1) a.1 (omega arith)
                (ground arith) (omega arith))
          | inr many ↦ rw many (run_of_literals (omega arith))
        ])
      ]
  where
    run_of_literals :
        b - 17 < 2 ^ 64 - 3
        → Safe size (IsNext size (suc (length ip) + 1)) (
            need_op size [] (b - 17) >>= λ _. need_ip ip (b - 17 + 3) [] >>= λ _.
            copy_literals size (b - 17) ip [] >>= λ r. next (first_literal_run, r.0, r.1))
    run_of_literals h =
        Safe-stop_if size _ (ltb (size - 0) (u64 (b - 17))) e_output_overrun [] _ (omega arith) λ e.
          Safe-stop_if size _ (ltb (length ip) (u64 (b - 17 + 3))) e_input_overrun [] _
            (omega arith)
            λ e'.
              Safe-bind size _ _ (copy_literals size (b - 17) ip []) _
                (copy_literals-Safe size (b - 17) ip [] a.1 (omega (arith, ltb→le _ _ e'))
                  (omega (arith, ltb→le _ _ e)))
                λ (ip₂, out') (a₂, o', k).
                  ((a₂, o', omega (arith, k, ltb→le _ _ e')), omega (arith, k))
