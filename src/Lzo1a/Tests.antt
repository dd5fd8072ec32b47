-- ===== src/Lzo1a/Tests.antt =====
-- src/lzo1a.c: runs on concrete data, and the theorems of the codec at concrete inputs.
use lzo.Base.{ℕ, ◌≡◌, refl, arith, List, [], ◌∷◌, some, length, ◌≤◌}
use lzo.Lzo1.Encoder as Plain
use lzo.Lzo1a.RoundTrip.Whole.{lzo1a_compress-lzo1a_decompress}
use lzo.Lzo1a.Shorter.Whole.{lzo1a_compress-le-lzo1_compress}
use lzo.Lzo1x.Decoder.{returned, e_ok, copy_literals, copy_match}
use lzo.Lzo1.Decoder.{doubled}
use lzo.Lzo1.Encoder.{store_runs, extend, match_len}
use lzo.Lzo1a.Decoder.{decompress, run, mode_round, marker_round, literal_round}
use lzo.Lzo1a.Encoder.{
  compress, do_compress, rounds, store_pending, store_run, store_halves, find_match, try_match,
}

-- Two R1 matches: `1 2 3` and `4 5 6` are each repeated with one literal behind them.
abbrev sample : List ℕ
sample =
    9 ∷ 1 ∷ 2 ∷ 3 ∷ 0 ∷ 4 ∷ 5 ∷ 6 ∷ 0 ∷ 1 ∷ 2 ∷ 3 ∷ 7 ∷ 4 ∷ 5 ∷ 6 ∷ 8 ∷ 1 ∷ 2 ∷ 3 ∷ 0 ∷ 4 ∷ 5 ∷ 6
    ∷ 0 ∷ 31 ∷ 32 ∷ 33 ∷ 34 ∷ 35 ∷ 36 ∷ 37 ∷ 38 ∷ 39 ∷ 40 ∷ 41 ∷ []

abbrev packed : List ℕ
packed =
    9 ∷ 9 ∷ 1 ∷ 2 ∷ 3 ∷ 0 ∷ 4 ∷ 5 ∷ 6 ∷ 0 ∷ 7 ∷ 0 ∷ 7 ∷ 7 ∷ 0 ∷ 8 ∷ 39 ∷ 0 ∷ 111 ∷ 0 ∷ 11 ∷ 31 ∷ 32
    ∷ 33 ∷ 34 ∷ 35 ∷ 36 ∷ 37 ∷ 38 ∷ 39 ∷ 40 ∷ 41 ∷ []

compress-sample : compress sample ≡ some packed
unfolding compress do_compress rounds store_pending store_run store_halves store_runs find_match
    try_match extend match_len
compress-sample = refl

decompress-packed : decompress 36 packed ≡ returned e_ok sample
unfolding decompress run mode_round marker_round literal_round doubled copy_literals copy_match
decompress-packed = refl

lzo1a_compress-lzo1a_decompress_example :
    (code : List ℕ) × (compress sample ≡ some code) × (decompress 36 code ≡ returned e_ok sample)
lzo1a_compress-lzo1a_decompress_example = lzo1a_compress-lzo1a_decompress sample 36 (omega arith)

lzo1a_compress-le-lzo1_compress_example :
    (code : List ℕ) × (plain : List ℕ) × (compress sample ≡ some code)
    × (Plain.compress sample ≡ some plain)
    × (length code ≤ length plain)
lzo1a_compress-le-lzo1_compress_example = lzo1a_compress-le-lzo1_compress sample
