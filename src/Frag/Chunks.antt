-- ===== src/Frag/Chunks.antt =====
-- lzo_cpu/lzo_frag.c: one chunk compressed and decompressed, and the size of the chunks.
use lzo.Base.{ℕ, ◌+◌, ◌/◌, ◌^◌, ◌≤◌, ◌<◌, ◌≡◌, refl, arith}
use lzo.Base.{ap, Bool, ◌&&◌, if◌then◌else◌, true, false, leb, ◌==◌, List, length, All, IsByte}
use lzo.Lzo1x.Format.{lzo1x}
use lzo.Lzo1x.Decoder.{
  Status, e_ok, e_input_not_consumed, e_input_overrun, e_output_overrun, e_lookbehind_overrun,
  Outcome, returned, faulted, stuck, decompress, unsafe,
}
use lzo.Lzo1x.Decoder.Unsafe.Whole.{unsafe-eq-safe}
use lzo.Lzo1x.RoundTrip.Whole.{compress-decompress}
use lzo.Frag.{
  Result, ok, fault, is_ok, Alg, d_bits, choose_block_size, compress_block_into, decompress_block,
  max_block_size,
}

pub choose_block_size-bounds :
    (n threads : ℕ)
    → 0 < n
    → (0 < choose_block_size n threads) × (choose_block_size n threads ≤ max_block_size)
unfolding choose_block_size
choose_block_size-bounds n threads h = ground arith

-- A chunk below 64 KiB is the whole input.
pub choose_block_size-least : (n threads : ℕ) → 65536 ≤ n → 65536 ≤ choose_block_size n threads
unfolding choose_block_size
choose_block_size-least n threads h = ground arith

pub choose_block_size-whole : (n threads : ℕ) → 0 < n → n ≤ 65536 → choose_block_size n threads ≡ n
unfolding choose_block_size
choose_block_size-whole n threads pos h = ground arith

-- A chunk compressed into a buffer of the size that the tool allocates, and decompressed.
pub block-RoundTrip :
    (alg : Alg) (addr space : ℕ) (input : List ℕ)
    → All IsByte input
    → length input < 2 ^ 62
    → length input ≤ space
    → (out : List ℕ) × (compress_block_into alg addr input
          (length input + length input / 16 + 64 + 3)
        ≡ ok out)
      × (length out ≤ length input + length input / 16 + 64 + 3)
      × (decompress_block out space (length input) ≡ ok (e_ok, input))
unfolding compress_block_into decompress_block
block-RoundTrip alg addr space input bytes bounded room =
    let (out, e, b, g, d) =
      compress-decompress lzo1x input space bytes room bounded (d_bits alg) addr in
    let u : decompress ⦃c = unsafe⦄ lzo1x space out ≡ returned e_ok input =
      unsafe-eq-safe lzo1x space out tt d in
    let within : leb (length out) (length input + length input / 16 + 64 + 3) ≡ true =
      ground arith in
    let whole : (length input == length input) ≡ true = ground arith in
    let some_room : (length input + length input / 16 + 64 + 3 == 0) ≡ false = ground arith in
    (
      out,
      rw (e, some_room, compress_block_into) (rw within refl),
      g,
      rw (u, decompress_block) (rw whole refl),
    )

-- What decompress_block makes of the outcome of the decompressor.
abbrev reported : ℕ → Outcome → Result (Status × List ℕ)
reported size o = elim o [
  | returned rc out ↦ ok (if is_ok rc && (length out == size) then e_ok else rc, out)
  | faulted ↦ fault
  | stuck ↦ fault
]

-- The size that the file gives for a chunk makes no difference to decompress_block: neither to its
-- code nor to what it writes.
pub decompress_block-unchecked :
    (input : List ℕ) (space a b : ℕ)
    → decompress_block input space a ≡ decompress_block input space b
unfolding decompress_block
decompress_block-unchecked input space a b = by_outcome (decompress ⦃c = unsafe⦄ lzo1x space input)
  where
    by_code :
        (rc : Status) (x y : Bool)
        → (if is_ok rc && x then e_ok else rc) ≡ (if is_ok rc && y then e_ok else rc)
    by_code e_ok true true = refl
    by_code e_ok true false = refl
    by_code e_ok false true = refl
    by_code e_ok false false = refl
    by_code e_input_not_consumed x y = refl
    by_code e_input_overrun x y = refl
    by_code e_output_overrun x y = refl
    by_code e_lookbehind_overrun x y = refl

    by_outcome : (o : Outcome) → reported a o ≡ reported b o
    by_outcome (returned rc out) =
        ap (λ s. ok (s, out)) (by_code rc (length out == a) (length out == b))
    by_outcome faulted = refl
    by_outcome stuck = refl
