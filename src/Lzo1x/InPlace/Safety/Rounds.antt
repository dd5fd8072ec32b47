-- ===== src/Lzo1x/InPlace/Safety/Rounds.antt =====
-- The matches and the rounds in place.
use lzo.Base.{ℕ, suc, ◌+◌, ◌-◌, ◌*◌, ◌/◌, ◌%◌, ◌^◌, ◌≤◌, ◌<◌, ◌≡◌, refl, arith, u64, bit_and}
use lzo.Base.{ltb, leb, ◌==◌, Bool-cases, ltb→le, inl, inr}
use lzo.Base.{List, [], ◌∷◌, length, All, IsByte}
use lzo.Lzo1x.Format.{Variant, m2_max_offset}
use lzo.Lzo1x.Decoder.{safe}
use lzo.Lzo1x.Decoder.{Step, State, ◌>>=◌}
use lzo.Lzo1x.Decoder.{e_input_overrun, e_output_overrun, m2_off, m2_t, eof_found}
use lzo.Lzo1x.Decoder.{literal_run, first_literal_run, handle_match}
use lzo.Lzo1x.InPlace.{
  cell, fetch, copy_run, match_count, run_count, m1_copy, m2_copy, m3_copy, m4_copy, any_copy,
  literal_copy, step_in_place, start_in_place,
}
use lzo.Lzo1x.InPlace.Safety.{Fits, Sound, Sound-bind, Sound-stop_if, IsOpen, IsLeft, cell-IsByte}
use lzo.Lzo1x.InPlace.Safety.Lengths.{
  copy_run-Sound, match_count-Sound, run_count-Sound, next_match-Sound, make_match-Sound,
}

module _ (room size : ℕ) (limit : size ≤ room) where
  -- A byte is read, and the rest of the round is sound.
  fetch-Sound :
      (Q : State → Type 0) (ip out : List ℕ) (f : ℕ × List ℕ → Step State)
      → All IsByte ip
      → All IsByte out
      → 0 < length ip
      → ((b : ℕ) (ip' : List ℕ)
          → b < 256
          → All IsByte ip'
          → suc (length ip') ≡ length ip
          → Sound size Q (f (b, ip')))
      → Sound size Q (fetch room ip out >>= f)
  fetch-Sound Q [] out f a o h k = absurd (omega arith)
  fetch-Sound Q (b ∷ ip) out f a o h k =
      k (cell room out (suc (length ip)) b) ip (cell-IsByte room out (suc (length ip)) b o a.0) a.1
        refl

  m1_copy-Sound :
      (t : ℕ) (ip out : List ℕ)
      → IsOpen size (handle_match t, ip, out)
      → Sound size (IsLeft size (length ip)) (m1_copy room size t ip out)
  unfolding m1_copy
  m1_copy-Sound t ip out (a, o, h, l) = fetch-Sound _ ip out _ a o.0 (omega arith) λ b ip' s a' e.
      make_match-Sound room size limit (1 + t / 2 ^ 2 + b * 2 ^ 2) 2 t ip' out _ a' o (omega arith)
        (omega arith)

  m2_copy-Sound :
      (v : Variant) (t : ℕ) (ip out : List ℕ)
      → IsOpen size (handle_match t, ip, out)
      → Sound size (IsLeft size (length ip)) (m2_copy room v size t ip out)
  unfolding m2_copy
  m2_copy-Sound v t ip out (a, o, h, l) = fetch-Sound _ ip out _ a o.0 (omega arith) λ b ip' s a' e.
      make_match-Sound room size limit (m2_off v t b) (u64 (m2_t v t + 2)) t ip' out _ a' o
        (omega arith) (omega arith)

  m3_copy-Sound :
      (m : ℕ) (ip out : List ℕ)
      → IsOpen size (handle_match m, ip, out)
      → Sound size (IsLeft size (length ip)) (m3_copy room size m ip out)
  unfolding m3_copy
  m3_copy-Sound m ip out (a, o, h, l) =
      Sound-bind size _ _ (match_count room 31 (m % 32) ip out) _
        (match_count-Sound room size limit 31 (m % 32) ip out a o h (omega arith) (omega arith))
        λ (t, ip₁) (g, k). fetch-Sound _ ip₁ out _ g.0 o.0 (omega arith) λ b₀ ip₂ s₂ a₂ e₂.
          fetch-Sound _ ip₂ out _ a₂ o.0 (omega arith) λ b₁ ip₃ s₃ a₃ e₃.
            make_match-Sound room size limit (1 + b₀ / 2 ^ 2 + b₁ * 2 ^ 6) (u64 (t + 2)) b₀ ip₃ out
              _ a₃ o (omega arith) (omega (arith, g.2))

  eof_found-Sound :
      (P : State → Type 0) (ip out : List ℕ) → Fits size out → Sound size P (eof_found ip out)
  unfolding eof_found
  eof_found-Sound P [] out o = o
  eof_found-Sound P (b ∷ ip) out o = o

  m4_copy-Sound :
      (m : ℕ) (ip out : List ℕ)
      → IsOpen size (handle_match m, ip, out)
      → Sound size (IsLeft size (length ip)) (m4_copy room size m ip out)
  unfolding m4_copy
  m4_copy-Sound m ip out (a, o, h, l) =
      Sound-bind size _ _ (match_count room 7 (m % 8) ip out) _
        (match_count-Sound room size limit 7 (m % 8) ip out a o h (omega arith) (omega arith))
        λ (t, ip₁) (g, k). fetch-Sound _ ip₁ out _ g.0 o.0 (omega arith) λ b₀ ip₂ s₂ a₂ e₂.
          fetch-Sound _ ip₂ out _ a₂ o.0 (omega arith) λ b₁ ip₃ s₃ a₃ e₃.
            let off = bit_and m 8 * 2 ^ 11 + (b₀ / 2 ^ 2 + b₁ * 2 ^ 6) in
            elim (Bool-cases (off == 0)) [
              | inl e ↦ rw e (eof_found-Sound _ ip₃ out o)
              | inr e ↦ rw e (
                  make_match-Sound room size limit (off + 0x4000) (u64 (t + 2)) b₀ ip₃ out _ a₃ o
                    (omega arith) (omega (arith, g.2)))
            ]

  any_copy-Sound :
      (v : Variant) (t : ℕ) (ip out : List ℕ)
      → IsOpen size (handle_match t, ip, out)
      → Sound size (IsLeft size (length ip)) (any_copy room v size t ip out)
  unfolding any_copy
  any_copy-Sound v t ip out r = elim (Bool-cases (leb 64 t)) [
    | inl e ↦ rw e (m2_copy-Sound v t ip out r)
    | inr e ↦ rw e (elim (Bool-cases (leb 32 t)) [
      | inl e' ↦ rw e' (m3_copy-Sound t ip out r)
      | inr e' ↦ rw e' (elim (Bool-cases (leb 16 t)) [
        | inl e'' ↦ rw e'' (m4_copy-Sound t ip out r)
        | inr e'' ↦ rw e'' (m1_copy-Sound t ip out r)
      ])
    ])
  ]

  literal_copy-Sound :
      (m : ℕ) (ip out : List ℕ) (n : ℕ)
      → All IsByte ip
      → Fits size out
      → 2 ≤ length ip
      → m < 16
      → length ip < n
      → Sound size (IsLeft size n) (literal_copy room size m ip out)
  unfolding literal_copy
  literal_copy-Sound m ip out n a o h ms l =
      Sound-bind size _ _ (run_count room m ip out) _
        (run_count-Sound room size limit m ip out a o h ms)
        λ (t, ip₁) (a₁, ts, l₁).
          Sound-stop_if size _ (ltb (size - length out) (u64 (t + 3))) e_output_overrun out _ o λ e.
            Sound-stop_if size _ (ltb (length ip₁) (u64 (t + 6))) e_input_overrun out _ o λ e'.
              Sound-bind size _ _ (copy_run room (t + 3) ip₁ out) _
                (copy_run-Sound room size limit (t + 3) ip₁ out a₁ o.0
                  (omega (arith, ltb→le _ _ e')) (omega (arith, o.1, ltb→le _ _ e)))
                λ (ip₂, out') (a₂, o', k).
                  ((a₂, o', omega (arith, k, ltb→le _ _ e')), omega (arith, k))

  pub step_in_place-Sound :
      (v : Variant) (s : State)
      → IsOpen size s
      → Sound size (IsLeft size (length s.1)) (step_in_place room v size s)
  unfolding step_in_place
  step_in_place-Sound v (literal_run, ip, out) (a, o) =
      Sound-stop_if size _ (ltb (length ip) (u64 3)) e_input_overrun out _ o λ e.
        fetch-Sound _ ip out _ a o.0 (omega (arith, ltb→le _ _ e)) λ t ip' s a' l.
          elim (Bool-cases (leb 16 t)) [
            | inl big ↦ rw big ((a', o, omega (arith, ltb→le _ _ e), s), omega arith)
            | inr small ↦ rw small (
                literal_copy-Sound t ip' out _ a' o (omega (arith, ltb→le _ _ e)) (ground arith)
                  (omega arith))
          ]
  step_in_place-Sound v (first_literal_run, ip, out) (a, o, h) =
      fetch-Sound _ ip out _ a o.0 (omega arith) λ t ip' s a' l. elim (Bool-cases (leb 16 t)) [
        | inl big ↦ rw big ((a', o, omega arith, s), omega arith)
        | inr small ↦ rw small (
            fetch-Sound _ ip' out _ a' o.0 (omega arith) λ b ip'' s' a'' l'.
              make_match-Sound room size limit (1 + m2_max_offset v + t / 2 ^ 2 + b * 2 ^ 2) 3 t
                ip'' out _ a'' o (omega arith) (omega arith))
      ]
  step_in_place-Sound v (handle_match t, ip, out) r = any_copy-Sound v t ip out r

  pub start_in_place-Sound :
      (ip : List ℕ)
      → All IsByte ip
      → Sound size (IsLeft size (length ip + 1)) (start_in_place room size ip)
  unfolding start_in_place
  start_in_place-Sound ip a =
      Sound-stop_if size _ (ltb (length ip) (u64 1)) e_input_overrun [] _ (tt, omega arith)
        λ e. fetch-Sound _ ip [] _ a tt (omega (arith, ltb→le _ _ e)) λ b ip' s a' l.
          elim (Bool-cases (ltb 17 b)) [
            | inr small ↦ rw small ((a, (tt, omega arith)), omega arith)
            | inl big ↦ rw big (elim (Bool-cases (ltb (b - 17) 4)) [
              | inl few ↦ rw few (
                  next_match-Sound room size limit (b - 17) ip' [] (length ip + 1) a'
                    (tt, omega arith) (ground arith) (omega arith))
              | inr many ↦ rw many (
                  Sound-stop_if size _ (ltb (size - length {A = ℕ} []) (u64 (b - 17)))
                    e_output_overrun [] _ (tt, omega arith)
                    λ e'.
                      Sound-stop_if size _ (ltb (length ip') (u64 (b - 17 + 3))) e_input_overrun []
                        _ (tt, omega arith)
                        λ e''.
                          Sound-bind size _ _ (copy_run room (b - 17) ip' []) _
                            (copy_run-Sound room size limit (b - 17) ip' [] a' tt
                              (omega (arith, ltb→le _ _ e'')) (omega (arith, ltb→le _ _ e')))
                            λ (ip₂, out') (a₂, o', k).
                              ((a₂, o', omega (arith, k, ltb→le _ _ e'')), omega (arith, k)))
            ])
          ]
