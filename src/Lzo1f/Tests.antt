-- ===== src/Lzo1f/Tests.antt =====
-- src/lzo1f_d.ch: runs on concrete data, and the theorems at concrete inputs.
use lzo.Base.{ℕ, ◌≡◌, refl, arith, List, [], ◌∷◌}
use lzo.Lzo1x.Decoder.{e_ok, e_lookbehind_overrun, copy_literals, copy_match}
use lzo.Lzo1f.{
  run, decompress, loop_round, run_of_literals, length_of, zero_bytes, literals_marker, far_match,
  short_match, long_match, close_match, behind_match, eof_reached, ended, eof_not_found, faulted,
}
use lzo.Lzo1f.Safety.Rounds.{Fits, lzo1f_decompress_safe-Fits}
use lzo.Lzo1f.PastEnd.{lzo1f_decompress_safe-past_end, lzo1f_decompress_safe-leak}

-- Three literals, a match of four of them and one more literal, and the end of the stream.
abbrev packed : List ℕ
packed = 3 ∷ 7 ∷ 8 ∷ 9 ∷ 73 ∷ 0 ∷ 6 ∷ 225 ∷ 0 ∷ 0 ∷ []

decompress-packed : decompress 20 packed [] ≡ ended e_ok (7 ∷ 8 ∷ 9 ∷ 7 ∷ 8 ∷ 9 ∷ 7 ∷ 6 ∷ [])
unfolding run decompress loop_round run_of_literals length_of zero_bytes literals_marker far_match
    short_match long_match close_match behind_match eof_reached copy_literals copy_match
decompress-packed = refl

too_far : decompress 20 (1 ∷ 7 ∷ 72 ∷ 0 ∷ []) [] ≡ ended e_lookbehind_overrun (7 ∷ [])
unfolding run decompress loop_round run_of_literals length_of zero_bytes literals_marker far_match
    short_match long_match close_match behind_match eof_reached copy_literals copy_match
too_far = refl

lzo1f_decompress_safe-Fits_example : Fits 20 (decompress 20 packed (0 ∷ 1 ∷ 2 ∷ 3 ∷ 4 ∷ []))
lzo1f_decompress_safe-Fits_example =
    lzo1f_decompress_safe-Fits 20 packed (0 ∷ 1 ∷ 2 ∷ 3 ∷ 4 ∷ []) (omega arith) (omega arith)
      (omega arith)

lzo1f_decompress_safe-past_end_example : decompress 20 (64 ∷ []) [] ≡ faulted
lzo1f_decompress_safe-past_end_example =
    lzo1f_decompress_safe-past_end 20 64 (omega arith) (omega arith)

lzo1f_decompress_safe-leak_example :
    decompress 20 (2 ∷ 9 ∷ 9 ∷ 32 ∷ 0 ∷ 35 ∷ []) (0 ∷ 101 ∷ 102 ∷ 103 ∷ 104 ∷ [])
    ≡ eof_not_found (9 ∷ 9 ∷ 9 ∷ 9 ∷ 9 ∷ 9 ∷ 9 ∷ 9 ∷ 101 ∷ 102 ∷ 103 ∷ [])
lzo1f_decompress_safe-leak_example = lzo1f_decompress_safe-leak 20 9 101 102 103 104 (omega arith)
