-- ===== src/Lzo1x/Decoder/Unsafe/Whole.antt =====
-- A whole run of lzo1x_decompress against that of lzo1x_decompress_safe.
use lzo.Base.{ℕ, zero, suc, ◌+◌, ◌-◌, ◌*◌, ◌/◌, ◌^◌, ◌≡◌, refl, sym, u64}
use mathlib.Core.Path.{subst}
use lzo.Base.{ltb, leb, Bool-cases, inl, inr}
use lzo.Base.{List, [], length}
use lzo.Lzo1x.Format.{Variant, m2_max_offset}
use lzo.Lzo1x.Decoder.{safe, unsafe, Status, Step, State, next, done, fault, read}
use lzo.Lzo1x.Decoder.{
  e_ok, e_input_overrun, e_output_overrun, e_lookbehind_overrun, e_input_not_consumed,
}
use lzo.Lzo1x.Decoder.{
  Outcome, returned, faulted, stuck, literal_run, first_literal_run, handle_match,
}
use lzo.Lzo1x.Decoder.{run_length, literals, step, run, start, decompress}
use lzo.Lzo1x.Decoder.Unsafe.{Follows, Follows-refl, Follows-bind, Follows-stop_if}
use lzo.Lzo1x.Decoder.Unsafe.Parts.{
  long_length-Follows, match_next-Follows, finish_match-Follows, any_match-Follows,
}

literals-Follows :
    (size m : ℕ) (ip out : List ℕ)
    → Follows (literals ⦃c = safe⦄ size m ip out) (literals ⦃c = unsafe⦄ size m ip out)
unfolding literals run_length
literals-Follows size m ip out = Follows-bind (run_length ⦃c = safe⦄ m ip out) _ _ _ (len m) λ r.
    Follows-stop_if (ltb (size - length out) (u64 (r.0 + 3))) e_output_overrun out _ _ tt (
      Follows-stop_if (ltb (length r.1) (u64 (r.0 + 6))) e_input_overrun out _ _ tt
        (Follows-refl _))
  where
    len : (t : ℕ) → Follows (run_length ⦃c = safe⦄ t ip out) (run_length ⦃c = unsafe⦄ t ip out)
    len zero = long_length-Follows e_input_overrun 15 0 ip out tt
    len (suc t) = refl

step-Follows :
    (v : Variant) (size : ℕ) (s : State)
    → Follows (step ⦃c = safe⦄ v size s) (step ⦃c = unsafe⦄ v size s)
unfolding step
step-Follows v size (literal_run, ip, out) =
    Follows-stop_if (ltb (length ip) (u64 3)) e_input_overrun out _ _ tt (
      Follows-bind (read ip) _ _ _ (Follows-refl _) λ r. elim (Bool-cases (leb 16 r.0)) [
        | inl e ↦ rw e refl
        | inr e ↦ rw e (literals-Follows size r.0 r.1 out)
      ])
step-Follows v size (first_literal_run, ip, out) =
    Follows-bind (read ip) _ _ _ (Follows-refl _) λ r. elim (Bool-cases (leb 16 r.0)) [
      | inl e ↦ rw e refl
      | inr e ↦ rw e (
          Follows-bind (read r.1) _ _ _ (Follows-refl _) λ q.
            finish_match-Follows size (1 + m2_max_offset v + r.0 / 2 ^ 2 + q.0 * 2 ^ 2) 3 r.0 q.1
              out)
    ]
step-Follows v size (handle_match t, ip, out) = any_match-Follows v size t ip out

start-Follows :
    (size : ℕ) (ip : List ℕ) → Follows (start ⦃c = safe⦄ size ip) (start ⦃c = unsafe⦄ size ip)
unfolding start
start-Follows size ip = Follows-stop_if (ltb (length ip) (u64 1)) e_input_overrun [] _ _ tt (
    Follows-bind (read ip) _ _ _ (Follows-refl _) λ r. elim (Bool-cases (ltb 17 r.0)) [
      | inr e ↦ rw e refl
      | inl e ↦ rw e (elim (Bool-cases (ltb (r.0 - 17) 4)) [
        | inl d ↦ rw d (match_next-Follows size (r.0 - 17) r.1 [])
        | inr d ↦ rw d (
            Follows-stop_if (ltb (size - 0) (u64 (r.0 - 17))) e_output_overrun [] _ _ tt (
              Follows-stop_if (ltb (length r.1) (u64 (r.0 - 17 + 3))) e_input_overrun [] _ _ tt
                (Follows-refl _)))
      ])
    ])

-- The statuses with which the end of the stream is found.
abbrev pub IsEnd : Status → Type 0
IsEnd e_ok = Unit
IsEnd e_input_not_consumed = Unit
IsEnd e_input_overrun = ⊥
IsEnd e_output_overrun = ⊥
IsEnd e_lookbehind_overrun = ⊥

abbrev EndsWell : Outcome → Type 0
EndsWell (returned s out) = IsEnd s
EndsWell faulted = ⊥
EndsWell stuck = ⊥

module _ (v : Variant) (size fuel fuel' : ℕ) {status : Status} {out : List ℕ} (end : IsEnd status)
    (rec : (s : State)
      → run ⦃c = safe⦄ v size fuel s ≡ returned status out
      → run ⦃c = unsafe⦄ v size fuel' s ≡ returned status out) where
  resume-Follows :
      (m m' : Step State)
      → Follows m m'
      → elim m [
        | next s ↦ run ⦃c = safe⦄ v size fuel s
        | done st o ↦ returned st o
        | fault ↦ faulted
      ]
        ≡ returned status out
      → elim m' [
        | next s ↦ run ⦃c = unsafe⦄ v size fuel' s
        | done st o ↦ returned st o
        | fault ↦ faulted
      ]
        ≡ returned status out
  resume-Follows (next s) m' h e = rw h (rec s e)
  resume-Follows (done e_ok o) m' h e = rw h e
  resume-Follows (done e_input_not_consumed o) m' h e = rw h e
  resume-Follows (done e_input_overrun o) m' h e = absurd (subst EndsWell (sym e) end)
  resume-Follows (done e_output_overrun o) m' h e = absurd (subst EndsWell (sym e) end)
  resume-Follows (done e_lookbehind_overrun o) m' h e = absurd (subst EndsWell (sym e) end)
  resume-Follows fault m' h e = cc

run-Follows :
    (v : Variant) (size fuel : ℕ) {status : Status} {out : List ℕ}
    → IsEnd status
    → (s : State) → run ⦃c = safe⦄ v size fuel s ≡ returned status out
    → run ⦃c = unsafe⦄ v size fuel s ≡ returned status out
unfolding run
run-Follows v size zero end s e = cc
run-Follows v size (suc fuel) end s e =
    resume-Follows v size fuel fuel end (run-Follows v size fuel end) (step ⦃c = safe⦄ v size s)
      (step ⦃c = unsafe⦄ v size s) (step-Follows v size s) e

-- Where the safe decompressor comes to the end of the stream, with or without input left over, the
-- one without tests returns the same status and the same output.
pub unsafe-eq-safe :
    (v : Variant) (size : ℕ) (input : List ℕ) {status : Status} {out : List ℕ}
    → IsEnd status
    → decompress ⦃c = safe⦄ v size input ≡ returned status out
    → decompress ⦃c = unsafe⦄ v size input ≡ returned status out
unfolding decompress
unsafe-eq-safe v size input end e =
    resume-Follows v size (length input + 1) (length input + 1) end
      (run-Follows v size (length input + 1) end) (start ⦃c = safe⦄ size input)
      (start ⦃c = unsafe⦄ size input) (start-Follows size input) e
