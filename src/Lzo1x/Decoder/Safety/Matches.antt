-- ===== src/Lzo1x/Decoder/Safety/Matches.antt =====
-- The matches of lzo1x_d.ch do not fault.
use lzo.Base.{ℕ, ◌+◌, ◌-◌, ◌*◌, ◌/◌, ◌%◌, ◌^◌, ◌≤◌, ◌<◌, arith}
use lzo.Base.{ltb, leb, ◌==◌, Bool-cases, ltb→le, inl, inr, ◌||◌}
use lzo.Base.{List, [], ◌∷◌, length, All, IsByte}
use lzo.Base.{u64, if◌then◌else◌, bit_and}
use lzo.Lzo1x.Format.{Variant}
use lzo.Lzo1x.Decoder.{safe}
use lzo.Lzo1x.Decoder.{◌>>=◌, read}
use lzo.Lzo1x.Decoder.{e_output_overrun, e_lookbehind_overrun}
use lzo.Lzo1x.Decoder.{State, handle_match}
use lzo.Lzo1x.Decoder.{match_length, match_done}
use lzo.Lzo1x.Decoder.{
  finish_match, m2_off, m2_t, m1_match, m2_match, m3_match, m4_match, any_match,
}
use lzo.Lzo1x.Decoder.{eof_found}
use lzo.Lzo1x.Decoder.Copy.{copy_match_lem, extended, length-extended}
use lzo.Lzo1x.Decoder.Safety.{Safe, Safe-bind, Safe-stop_if, IsReady, IsNext}
use lzo.Lzo1x.Decoder.Safety.Lengths.{IsLength, match_length-Safe, match_next-Safe}

pub match_done-Safe :
    (size b : ℕ) (ip out : List ℕ) (n : ℕ)
    → All IsByte ip
    → length out ≤ size
    → length ip < n
    → Safe size (IsNext size n) (match_done size b ip out)
unfolding match_done
match_done-Safe size b ip out n a o h = elim (Bool-cases (b % 4 == 0)) [
  | inl e ↦ rw e ((a, o), h)
  | inr e ↦ rw e (match_next-Safe size (b % 4) ip out n a o (omega arith) (omega arith))
]

pub finish_match-Safe :
    (size off len b : ℕ) (ip out : List ℕ) (n : ℕ)
    → All IsByte ip
    → length out ≤ size
    → len < 2 ^ 64
    → length ip < n
    → Safe size (IsNext size n) (finish_match size off len b ip out)
unfolding finish_match
finish_match-Safe size off len b ip out n a o l h =
    Safe-stop_if size _ (ltb (length out) off || off == 0) e_lookbehind_overrun out _ o λ e.
      Safe-stop_if size _ (ltb (size - length out) (u64 len)) e_output_overrun out _ o λ e'.
        let fits : length out + len ≤ size = omega (arith, ltb→le _ _ e') in
        rw (copy_match_lem size off len out (ground arith) (ground arith) fits) (
          match_done-Safe size b ip (extended off len out) n a
            (omega (arith, length-extended off len out)) h)

pub m1_match-Safe :
    (size t : ℕ) (ip out : List ℕ)
    → IsReady size (handle_match t, ip, out)
    → Safe size (IsNext size (length ip)) (m1_match size t ip out)
unfolding m1_match
m1_match-Safe size t [] out (a, o, h, l) = absurd (omega arith)
m1_match-Safe size t (b ∷ ip) out (a, o, h, l) =
    finish_match-Safe size (1 + t / 2 ^ 2 + b * 2 ^ 2) 2 t ip out _ a.1 o (omega arith)
      (omega arith)

pub m2_match-Safe :
    (v : Variant) (size t : ℕ) (ip out : List ℕ)
    → IsReady size (handle_match t, ip, out)
    → Safe size (IsNext size (length ip)) (m2_match v size t ip out)
unfolding m2_match
m2_match-Safe v size t [] out (a, o, h, l) = absurd (omega arith)
m2_match-Safe v size t (b ∷ ip) out (a, o, h, l) =
    finish_match-Safe size (m2_off v t b) (u64 (m2_t v t + 2)) t ip out _ a.1 o (omega arith)
      (omega arith)

pub m3_match-Safe :
    (size m : ℕ) (ip out : List ℕ)
    → IsReady size (handle_match m, ip, out)
    → Safe size (IsNext size (length ip)) (m3_match size m ip out)
unfolding m3_match
m3_match-Safe size m ip out (a, o, h, l) =
    Safe-bind size _ _ (match_length 31 (m % 32) ip out) _
      (match_length-Safe size 31 (m % 32) ip out a o h (omega arith) (omega arith))
      λ (t, ip₁) (g, k). after t ip₁ g k
  where
    after :
        (t : ℕ) (ip₁ : List ℕ)
        → IsLength (length ip) (t, ip₁)
        → 2 ≤ length ip₁
        → Safe size (IsNext size (length ip)) (
            read ip₁ >>= λ r. read r.1 >>= λ q.
            finish_match size (1 + r.0 / 2 ^ 2 + q.0 * 2 ^ 6) (u64 (t + 2)) r.0 q.1 out)
    after t [] g k = absurd (omega arith)
    after t (b₀ ∷ []) g k = absurd (omega arith)
    after t (b₀ ∷ b₁ ∷ ip₃) (g, g', g'') k =
        finish_match-Safe size (1 + b₀ / 2 ^ 2 + b₁ * 2 ^ 6) (u64 (t + 2)) b₀ ip₃ out _ g.1.1 o
          (omega arith) (omega arith)

pub eof_found-Safe :
    (size : ℕ) (P : State → Type 0) (ip out : List ℕ)
    → length out ≤ size
    → Safe size P (eof_found ip out)
unfolding eof_found
eof_found-Safe size P [] out o = o
eof_found-Safe size P (b ∷ ip) out o = o

pub m4_match-Safe :
    (size m : ℕ) (ip out : List ℕ)
    → IsReady size (handle_match m, ip, out)
    → Safe size (IsNext size (length ip)) (m4_match size m ip out)
unfolding m4_match
m4_match-Safe size m ip out (a, o, h, l) =
    Safe-bind size _ _ (match_length 7 (m % 8) ip out) _
      (match_length-Safe size 7 (m % 8) ip out a o h (omega arith) (omega arith))
      λ (t, ip₁) (g, k). after t ip₁ g k
  where
    after :
        (t : ℕ) (ip₁ : List ℕ)
        → IsLength (length ip) (t, ip₁)
        → 2 ≤ length ip₁
        → Safe size (IsNext size (length ip)) (
            read ip₁ >>= λ r. read r.1 >>= λ q.
            let off = bit_and m 8 * 2 ^ 11 + (r.0 / 2 ^ 2 + q.0 * 2 ^ 6) in
            if off == 0
            then eof_found q.1 out
            else finish_match size (off + 0x4000) (u64 (t + 2)) r.0 q.1 out)
    after t [] g k = absurd (omega arith)
    after t (b₀ ∷ []) g k = absurd (omega arith)
    after t (b₀ ∷ b₁ ∷ ip₃) (g, g', g'') k =
        let off = bit_and m 8 * 2 ^ 11 + (b₀ / 2 ^ 2 + b₁ * 2 ^ 6) in
        elim (Bool-cases (off == 0)) [
          | inl e ↦ rw e (eof_found-Safe size _ ip₃ out o)
          | inr e ↦ rw e (
              finish_match-Safe size (off + 0x4000) (u64 (t + 2)) b₀ ip₃ out _ g.1.1 o (omega arith)
                (omega arith))
        ]

pub any_match-Safe :
    (v : Variant) (size t : ℕ) (ip out : List ℕ)
    → IsReady size (handle_match t, ip, out)
    → Safe size (IsNext size (length ip)) (any_match v size t ip out)
unfolding any_match
any_match-Safe v size t ip out r = elim (Bool-cases (leb 64 t)) [
  | inl e ↦ rw e (m2_match-Safe v size t ip out r)
  | inr e ↦ rw e (elim (Bool-cases (leb 32 t)) [
    | inl e' ↦ rw e' (m3_match-Safe size t ip out r)
    | inr e' ↦ rw e' (elim (Bool-cases (leb 16 t)) [
      | inl e'' ↦ rw e'' (m4_match-Safe size t ip out r)
      | inr e'' ↦ rw e'' (m1_match-Safe size t ip out r)
    ])
  ])
]
