-- ===== src/Lzo1x/Tests.antt =====
-- Runs on concrete data, and the theorems of the codec at concrete inputs.
use lzo.Base.{ℕ, ◌+◌, ◌/◌, ◌≤◌, ◌<◌, ◌≡◌, refl, arith, List, [], ◌∷◌, length, some, All, IsByte}
use lzo.Lzo1x.Format.{lzo1x, lzo1y}
use lzo.Lzo1x.Decoder.{safe, unsafe}
use lzo.Lzo1x.Decoder.Unsafe.Whole.{unsafe-eq-safe}
use lzo.Lzo1x.Decoder.{
  decompress, returned, run, start, step, copy_literals, copy_match, long_length, match_length,
  match_next, match_done, finish_match, m1_match, m2_match, m3_match, m4_match, any_match,
  eof_found, run_length, literals, e_ok, e_input_overrun, e_output_overrun, e_lookbehind_overrun,
}
use lzo.Lzo1x.Decoder.Run.{Returns, decompress-Returns}
use lzo.Lzo1x.Encoder.{compress, blocks, do_compress, rounds, search, match_len, store_literals}
use lzo.Lzo1x.Encoder.{store_run, store_long, store_last, patch, match_code, m3_code, m4_code}
use lzo.Lzo1x.RoundTrip.Whole.{compress-decompress}
use lzo.Lzo1x.InPlace.{decompress_in_place}
use lzo.Lzo1x.InPlace.Safety.Run.{ReturnsBytes, decompress_in_place-ReturnsBytes}
use lzo.Lzo1x.InPlace.Whole.{compress-decompress_in_place}

-- Twelve literals, and then the four bytes `1 2 3 4` again and again.
abbrev sample : List ℕ
sample =
    9 ∷ 8 ∷ 7 ∷ 6 ∷ 1 ∷ 2 ∷ 3 ∷ 4 ∷ 1 ∷ 2 ∷ 3 ∷ 4 ∷ 1 ∷ 2 ∷ 3 ∷ 4 ∷ 1 ∷ 2 ∷ 3 ∷ 4 ∷ 1 ∷ 2 ∷ 3 ∷ 4
    ∷ 1 ∷ 2 ∷ 3 ∷ 4 ∷ 1 ∷ 2 ∷ 3 ∷ 4 ∷ 1 ∷ 2 ∷ 3 ∷ 4 ∷ 1 ∷ 2 ∷ 3 ∷ 4 ∷ 1 ∷ 2 ∷ 3 ∷ 4 ∷ []

abbrev packed : List ℕ
packed =
    6 ∷ 9 ∷ 8 ∷ 7 ∷ 6 ∷ 1 ∷ 2 ∷ 3 ∷ 4 ∷ 1 ∷ 50 ∷ 12 ∷ 0 ∷ 12 ∷ 2 ∷ 3 ∷ 4 ∷ 1 ∷ 2 ∷ 3 ∷ 4 ∷ 1 ∷ 2 ∷ 3
    ∷ 4 ∷ 1 ∷ 2 ∷ 3 ∷ 4 ∷ 17 ∷ 0 ∷ 0 ∷ []

compress-sample : compress lzo1x 14 4096 sample ≡ some packed
unfolding compress blocks do_compress rounds search match_len store_literals store_run store_long
    store_last patch match_code m3_code m4_code
compress-sample = refl

decompress-packed : decompress lzo1x 44 packed ≡ returned e_ok sample
unfolding decompress run start step copy_literals copy_match long_length match_length match_next
    match_done finish_match m1_match m2_match m3_match m4_match any_match eof_found run_length
    literals
decompress-packed = refl

-- An M4 match from outside the output, a literal run cut short, and a buffer that is too small.
bad_streams :
    (decompress lzo1x 100 (21 ∷ 1 ∷ 2 ∷ 3 ∷ 4 ∷ 64 ∷ 200 ∷ 17 ∷ 0 ∷ 0 ∷ [])
      ≡ returned e_lookbehind_overrun (1 ∷ 2 ∷ 3 ∷ 4 ∷ []))
    × (decompress lzo1x 100 (21 ∷ 1 ∷ 2 ∷ 3 ∷ []) ≡ returned e_input_overrun [])
    × (decompress lzo1x 3 (21 ∷ 1 ∷ 2 ∷ 3 ∷ 4 ∷ 17 ∷ 0 ∷ 0 ∷ []) ≡ returned e_output_overrun [])
unfolding decompress run start step copy_literals copy_match long_length match_length match_next
    match_done finish_match m1_match m2_match m3_match m4_match any_match eof_found run_length
    literals
bad_streams = (refl, refl, refl)

decompress-Returns_example :
    Returns 100 (decompress lzo1y 100 (21 ∷ 1 ∷ 2 ∷ 3 ∷ 4 ∷ 64 ∷ 200 ∷ 17 ∷ 0 ∷ 0 ∷ []))
decompress-Returns_example =
    decompress-Returns lzo1y 100 (21 ∷ 1 ∷ 2 ∷ 3 ∷ 4 ∷ 64 ∷ 200 ∷ 17 ∷ 0 ∷ 0 ∷ []) (omega arith)

compress-decompress_example :
    (out : List ℕ) × (compress lzo1x 14 4096 sample ≡ some out)
    × All IsByte out
    × (length out ≤ length sample + length sample / 16 + 64 + 3)
    × (decompress lzo1x 50 out ≡ returned e_ok sample)
compress-decompress_example =
    compress-decompress lzo1x sample 50 (omega arith) (omega arith) (omega arith) 14 4096

unsafe-eq-safe_example : decompress ⦃c = unsafe⦄ lzo1x 44 packed ≡ returned e_ok sample
unsafe-eq-safe_example = unsafe-eq-safe lzo1x 44 packed tt decompress-packed

abbrev stream : List ℕ
stream = 21 ∷ 1 ∷ 2 ∷ 3 ∷ 4 ∷ 17 ∷ 0 ∷ 0 ∷ []

stream-decompressed : decompress ⦃c = unsafe⦄ lzo1x 9 stream ≡ returned e_ok (1 ∷ 2 ∷ 3 ∷ 4 ∷ [])
unfolding decompress run start step copy_literals copy_match long_length match_length match_next
    match_done finish_match m1_match m2_match m3_match m4_match any_match eof_found run_length
    literals
stream-decompressed = refl

compress-decompress_in_place_example :
    (out : List ℕ) × (compress lzo1x 14 4096 sample ≡ some out)
    × All IsByte out
    × (0 < length out)
    × (length out ≤ length sample + length sample / 16 + 64 + 3)
    × (decompress_in_place lzo1x 113 44 out ≡ returned e_ok sample)
compress-decompress_in_place_example =
    compress-decompress_in_place lzo1x sample 44 113 14 4096 (omega arith) (omega arith)
      (omega arith) (omega arith)

-- The output reaches the input after four literals.
decompress_in_place-ReturnsBytes_example :
    ReturnsBytes 12 (decompress_in_place lzo1x 12 12 (21 ∷ 1 ∷ 2 ∷ 3 ∷ 4 ∷ 32 ∷ 9 ∷ 12 ∷ 0 ∷ []))
decompress_in_place-ReturnsBytes_example =
    decompress_in_place-ReturnsBytes lzo1x 12 12 (21 ∷ 1 ∷ 2 ∷ 3 ∷ 4 ∷ 32 ∷ 9 ∷ 12 ∷ 0 ∷ [])
      (omega arith) (omega arith)
