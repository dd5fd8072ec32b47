-- ===== src/Lzo1x/Decoder/Unsafe/Parts.antt =====
-- The parts of lzo1x_decompress_safe up to the matches, against those of lzo1x_decompress.
use lzo.Base.{ℕ, zero, suc, ◌+◌, ◌-◌, ◌*◌, ◌/◌, ◌%◌, ◌^◌, refl, u64}
use lzo.Base.{ltb, leb, ◌==◌, Bool-cases, inl, inr, ◌||◌, if◌then◌else◌, bit_and}
use lzo.Base.{List, [], ◌∷◌, length}
use lzo.Lzo1x.Format.{Variant}
use lzo.Lzo1x.Decoder.{safe, unsafe, Status, read}
use lzo.Lzo1x.Decoder.{e_input_overrun, e_output_overrun, e_lookbehind_overrun}
use lzo.Lzo1x.Decoder.{copy_match, long_length, match_length, match_next, match_done}
use lzo.Lzo1x.Decoder.{
  finish_match, m1_match, m2_match, m3_match, m4_match, any_match, eof_found, m2_off, m2_t,
}
use lzo.Lzo1x.Decoder.Unsafe.{IsOverrun, Follows, Follows-refl, Follows-bind, Follows-stop_if}

pub long_length-Follows :
    (s : Status) (base t : ℕ) (ip out : List ℕ)
    → IsOverrun s
    → Follows (long_length ⦃c = safe⦄ s base t ip out) (long_length ⦃c = unsafe⦄ s base t ip out)
unfolding long_length
long_length-Follows s base t [] out o = tt
long_length-Follows s base t (zero ∷ ip) out o =
    Follows-stop_if (ltb (2 ^ 64 - 511) (u64 (t + 255))) s out _ _ o (
      Follows-stop_if (ltb (length ip) (u64 1)) e_input_overrun out _ _ tt
        (long_length-Follows s base (u64 (t + 255)) ip out o))
long_length-Follows s base t (suc b ∷ ip) out o = refl

pub match_length-Follows :
    (base t : ℕ) (ip out : List ℕ)
    → Follows (match_length ⦃c = safe⦄ base t ip out) (match_length ⦃c = unsafe⦄ base t ip out)
unfolding match_length
match_length-Follows base zero ip out =
    Follows-bind _ _ _ _ (long_length-Follows e_output_overrun base 0 ip out tt)
      λ r. Follows-stop_if (ltb (length r.1) (u64 2)) e_input_overrun out _ _ tt refl
match_length-Follows base (suc t) ip out = refl

pub match_next-Follows :
    (size t : ℕ) (ip out : List ℕ)
    → Follows (match_next ⦃c = safe⦄ size t ip out) (match_next ⦃c = unsafe⦄ size t ip out)
unfolding match_next
match_next-Follows size t ip out =
    Follows-stop_if (ltb (size - length out) (u64 t)) e_output_overrun out _ _ tt
      (Follows-stop_if (ltb (length ip) (u64 (t + 3))) e_input_overrun out _ _ tt (Follows-refl _))

pub match_done-Follows :
    (size b : ℕ) (ip out : List ℕ)
    → Follows (match_done ⦃c = safe⦄ size b ip out) (match_done ⦃c = unsafe⦄ size b ip out)
unfolding match_done
match_done-Follows size b ip out = elim (Bool-cases (b % 4 == 0)) [
  | inl e ↦ rw e refl
  | inr e ↦ rw e (match_next-Follows size (b % 4) ip out)
]

pub finish_match-Follows :
    (size off len b : ℕ) (ip out : List ℕ)
    → Follows
        (finish_match ⦃c = safe⦄ size off len b ip out)
        (finish_match ⦃c = unsafe⦄ size off len b ip out)
unfolding finish_match
finish_match-Follows size off len b ip out =
    Follows-stop_if (ltb (length out) off || off == 0) e_lookbehind_overrun out _ _ tt (
      Follows-stop_if (ltb (size - length out) (u64 len)) e_output_overrun out _ _ tt (
        Follows-bind (copy_match size off len out) _ _ _ (Follows-refl _)
          λ out'. match_done-Follows size b ip out'))

pub any_match-Follows :
    (v : Variant) (size t : ℕ) (ip out : List ℕ)
    → Follows (any_match ⦃c = safe⦄ v size t ip out) (any_match ⦃c = unsafe⦄ v size t ip out)
unfolding any_match m1_match m2_match m3_match m4_match
any_match-Follows v size t ip out = elim (Bool-cases (leb 64 t)) [
  | inl m2 ↦ rw m2 (
      Follows-bind (read ip) _ _ _ (Follows-refl _)
        λ r. finish_match-Follows size (m2_off v t r.0) (u64 (m2_t v t + 2)) t r.1 out)
  | inr m2 ↦ rw m2 (elim (Bool-cases (leb 32 t)) [
    | inl m3 ↦ rw m3 (
        Follows-bind _ _ _ _ (match_length-Follows 31 (t % 32) ip out) λ r.
          Follows-bind (read r.1) _ _ _ (Follows-refl _) λ p.
            Follows-bind (read p.1) _ _ _ (Follows-refl _) λ q.
              finish_match-Follows size (1 + p.0 / 2 ^ 2 + q.0 * 2 ^ 6) (u64 (r.0 + 2)) p.0 q.1 out)
    | inr m3 ↦ rw m3 (elim (Bool-cases (leb 16 t)) [
      | inl m4 ↦ rw m4 (
          Follows-bind _ _ _ _ (match_length-Follows 7 (t % 8) ip out) λ r.
            Follows-bind (read r.1) _ _ _ (Follows-refl _) λ p.
              Follows-bind (read p.1) _ _ _ (Follows-refl _)
                λ q. m4_end (bit_and t 8 * 2 ^ 11 + (p.0 / 2 ^ 2 + q.0 * 2 ^ 6)) r.0 p.0 q.1)
      | inr m4 ↦ rw m4 (
          Follows-bind (read ip) _ _ _ (Follows-refl _)
            λ r. finish_match-Follows size (1 + t / 2 ^ 2 + r.0 * 2 ^ 2) 2 t r.1 out)
    ])
  ])
]
  where
    m4_end :
        (off n b : ℕ) (ip₃ : List ℕ)
        → Follows
            (if off == 0
              then eof_found ip₃ out
              else finish_match ⦃c = safe⦄ size (off + 0x4000) (u64 (n + 2)) b ip₃ out)
            (if off == 0
              then eof_found ip₃ out
              else finish_match ⦃c = unsafe⦄ size (off + 0x4000) (u64 (n + 2)) b ip₃ out)
    m4_end off n b ip₃ = elim (Bool-cases (off == 0)) [
      | inl e ↦ rw e (Follows-refl _)
      | inr e ↦ rw e (finish_match-Follows size (off + 0x4000) (u64 (n + 2)) b ip₃ out)
    ]
