-- ===== src/Lzo1f/Safety/Rounds.antt =====
-- src/lzo1f_d.ch: the rounds of lzo1f_decompress_safe, and a whole run.
use lzo.Base.{ℕ, zero, suc, ◌+◌, ◌-◌, ◌*◌, ◌/◌, ◌%◌, ◌^◌, ◌≤◌, ◌<◌, arith, u64}
use lzo.Base.{ltb, ◌==◌, if◌then◌else◌, Bool-cases, inl, inr, ltb→le, ltb→lt}
use lzo.Base.{List, [], ◌∷◌, ◌++◌, length, length-append, All, IsByte}
use lzo.Lzo1x.Decoder.{Step, next, done, fault, ◌>>=◌, read, e_input_overrun, e_output_overrun}
use lzo.Lzo1x.Decoder.Safety.{Safe, Safe-bind, Safe-stop_if}
use lzo.Lzo1f.{
  RoundState, outer_loop, no_eof, inner_loop, match, input_left, close_match, far_match,
  short_match, eof_reached, long_match, run_of_literals, loop_round, End, ended, eof_not_found,
  faulted, stuck, proceed, run, decompress,
}
use lzo.Lzo1f.Safety.{
  IsAt, IsReady, IsNext, IsLength, measure, length_of-Safe, literals_marker-Safe, close_match-Safe,
  near_match-Safe,
}

-- A run that ends with a return code, and with an output that fits the buffer.
abbrev pub Fits : ℕ → End → Type 0
Fits size (ended s out) = length out ≤ size
Fits size (eof_not_found out) = length out ≤ size
Fits size faulted = ⊥
Fits size stuck = ⊥

module _ (size past : ℕ) (room : 5 ≤ past) where
  eof_reached-Safe :
      (ip out : List ℕ) (n : ℕ)
      → length out ≤ size
      → Safe size (IsNext size past room n) (eof_reached past ip out)
  unfolding eof_reached
  eof_reached-Safe ip out n h = elim (Bool-cases (length ip == past)) [
    | inl e ↦ rw e h
    | inr e ↦ rw e (elim (Bool-cases (ltb past (length ip))) [ inl l ↦ rw l h | inr l ↦ rw l h ])
  ]

  long_match-Safe :
      (m : ℕ) (ip out : List ℕ)
      → IsAt size past room 0 ip out
      → Safe size (IsNext size past room (2 * length ip + 1)) (long_match size past m ip out)
  unfolding long_match
  long_match-Safe m ip out a =
      Safe-bind size (IsLength size past room (length ip) out) _ _ _
        (length_of-Safe size past room e_output_overrun (m % 32) ip out a (omega arith))
        λ (t, ip₁) (a₁, p, b, k).
          Safe-stop_if size _ (ltb (input_left past ip₁) (u64 2)) e_input_overrun out _ a.fits
            λ e. offset t ip₁ a₁ b k (omega (arith, ltb→le _ _ e, a₁.short, a₁.near))
    where
      offset :
          (t : ℕ) (ip₁ : List ℕ)
          → IsAt size past room 0 ip₁ out
          → t < 2 ^ 64 - 200
          → length ip₁ ≤ length ip
          → past + 2 ≤ length ip₁
          → Safe size (IsNext size past room (2 * length ip + 1)) (
              read ip₁ >>= λ r₀. read r₀.1 >>= λ r₁.
              if r₀.0 / 2 ^ 2 + r₁.0 * 2 ^ 6 == 0
              then eof_reached past r₁.1 out
              else close_match size past (r₀.0 / 2 ^ 2 + r₁.0 * 2 ^ 6) (u64 (t + 2)) r₀.0 r₁.1 out)
      offset t [] a₁ b k h = absurd (omega arith)
      offset t (b₀ ∷ []) a₁ b k h = absurd (omega arith)
      offset t (b₀ ∷ b₁ ∷ ip₃) a₁ b k h = elim (Bool-cases (b₀ / 2 ^ 2 + b₁ * 2 ^ 6 == 0)) [
        | inl e ↦ rw e (eof_reached-Safe ip₃ out (2 * length ip + 1) a.fits)
        | inr e ↦ rw e (
            close_match-Safe size past room (b₀ / 2 ^ 2 + b₁ * 2 ^ 6) (u64 (t + 2)) b₀ ip₃ out
              (2 * length ip + 1)
              (record {
                bytes = ((a₁.bytes).1).1;
                fits = a.fits;
                short = omega (arith, a₁.short);
                near = omega arith;
              })
              (omega arith) (omega arith))
      ]

  run_of_literals-Safe :
      (m : ℕ) (ip out : List ℕ) (n : ℕ)
      → IsAt size past room 0 ip out
      → m < 256
      → 2 * length ip < n
      → Safe size (IsNext size past room n) (run_of_literals size past m ip out)
  unfolding run_of_literals
  run_of_literals-Safe m ip out n a h k =
      Safe-bind size (IsLength size past room (length ip) out) _ _ _
        (length_of-Safe size past room e_input_overrun m ip out a h)
        λ (t, ip') (a', p, b, l).
          literals_marker-Safe size past room t ip' out n
            (record {
              bytes = a'.bytes;
              fits = a'.fits;
              short = a'.short;
              near = omega (arith, a'.near);
            })
            (inr (omega (arith, a'.near))) b (omega arith)

  marker-Safe :
      (ip out : List ℕ)
      → IsAt size past room 5 ip out
      → past < length ip
      → Safe size (IsNext size past room (2 * length ip + 1)) (
          read ip >>= λ r.
          if ltb 31 r.0 then next (match r.0, r.1, out) else run_of_literals size past r.0 r.1 out)
  marker-Safe [] out a h = absurd (omega arith)
  marker-Safe (t ∷ ip) out a h =
      let here : IsAt size past room 0 ip out = record {
        bytes = (a.bytes).1;
        fits = a.fits;
        short = omega (arith, a.short);
        near = omega arith;
      } in
      elim (Bool-cases (ltb 31 t)) [
        | inl e ↦ rw e (((a.bytes).0, here), omega arith)
        | inr e ↦
            rw e (run_of_literals-Safe t ip out _ here (omega (arith, (a.bytes).0)) (omega arith))
      ]

  loop_round-Safe :
      (s : RoundState)
      → IsReady size past room s
      → 0 < measure size past room s
      → Safe size (IsNext size past room (measure size past room s)) (loop_round size past s)
  unfolding loop_round far_match short_match
  loop_round-Safe (outer_loop, ip, out) a p = elim (Bool-cases (ltb past (length ip))) [
    | inl e ↦ rw e (marker-Safe ip out a (ltb→lt _ _ e))
    | inr e ↦ rw e (a.fits, omega arith)
  ]
  loop_round-Safe (no_eof, ip, out) a p = absurd (omega arith)
  loop_round-Safe (inner_loop t, ip, out) (b, a) p = elim (Bool-cases (ltb past (length ip))) [
    | inr e ↦ rw e (a, omega arith)
    | inl e ↦
        let here : IsAt size past room 0 ip out = record {
          bytes = a.bytes;
          fits = a.fits;
          short = a.short;
          near = omega (arith, ltb→lt _ _ e);
        } in
        rw e (elim (Bool-cases (ltb t 32)) [
          | inl f ↦ rw f (
              near_match-Safe size past room (λ b. 1 + 0x800 + t / 2 ^ 2 % 8 + b * 2 ^ 3) 3 t ip out
                _ here (omega arith) (omega arith))
          | inr f ↦ rw f ((b, here), omega arith)
        ])
  ]
  loop_round-Safe (match t, ip, out) (b, a) p = elim (Bool-cases (ltb t 224)) [
    | inl e ↦ rw e (
        near_match-Safe size past room (λ b. 1 + t / 2 ^ 2 % 8 + b * 2 ^ 3) (t / 2 ^ 5 + 2) t ip out
          _ a (omega arith) (omega arith))
    | inr e ↦ rw e (long_match-Safe t ip out a)
  ]

  proceed-Fits :
      (n : ℕ) (go : RoundState → End)
      → ((s : RoundState)
          → IsReady size past room s
          → measure size past room s < n
          → Fits size (go s))
      → (m : Step RoundState) → Safe size (IsNext size past room n) m
      → Fits size (proceed go m)
  proceed-Fits n go h (next s) (r, k) = h s r k
  proceed-Fits n go h (done s out) l = l
  proceed-Fits n go h fault l = l

  run-Fits :
      (fuel : ℕ) (s : RoundState)
      → IsReady size past room s
      → measure size past room s < fuel
      → Fits size (run size past fuel s)
  unfolding run
  run-Fits zero s r h = absurd (omega arith)
  run-Fits (suc fuel) (no_eof, ip, out) r h = r
  run-Fits (suc fuel) (outer_loop, ip, out) r h =
      proceed-Fits (2 * length ip + 1) (run size past fuel)
        (λ s' r' h'. run-Fits fuel s' r' (omega arith)) _
        (loop_round-Safe (outer_loop, ip, out) r (omega arith))
  run-Fits (suc fuel) (inner_loop t, ip, out) r h =
      proceed-Fits (2 * length ip + 2) (run size past fuel)
        (λ s' r' h'. run-Fits fuel s' r' (omega arith)) _
        (loop_round-Safe (inner_loop t, ip, out) r (omega arith))
  run-Fits (suc fuel) (match t, ip, out) r h =
      proceed-Fits (2 * length ip + 1) (run size past fuel)
        (λ s' r' h'. run-Fits fuel s' r' (omega arith)) _
        (loop_round-Safe (match t, ip, out) r (omega arith))

-- With at least five bytes of memory behind an input of bytes, lzo1f_decompress_safe returns, for every
-- buffer size: it reads nothing behind those five bytes, copies nothing from outside the output, and the
-- output that it leaves fits the buffer, whatever the return code.
pub lzo1f_decompress_safe-Fits :
    (size : ℕ) (input behind : List ℕ)
    → 5 ≤ length behind
    → All IsByte (input ++ behind)
    → length (input ++ behind) < 2 ^ 63
    → Fits size (decompress size input behind)
unfolding decompress
lzo1f_decompress_safe-Fits size input behind room a short =
    run-Fits size (length behind) room (2 * length (input ++ behind) + 2)
      (outer_loop, input ++ behind, [])
      (record {
        bytes = a;
        fits = omega arith;
        short = short;
        near = omega (arith, length-append input behind);
      })
      (omega arith)
