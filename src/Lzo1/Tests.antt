-- ===== src/Lzo1/Tests.antt =====
-- src/lzo1.c: runs on concrete data, and the theorems of the codec at concrete inputs.
use lzo.Lzo1.RoundTrip.Whole.{lzo1_compress-lzo1_decompress}
use lzo.Base.{zero, suc, ◌%◌, take, drop, ℕ, ◌≡◌, refl, arith, List, [], ◌∷◌, ◌++◌, some}
use lzo.Lzo1x.Decoder.{returned, e_ok, copy_literals, copy_match}
use lzo.Lzo1.Decoder.{decompress, run, round, doubled}
use lzo.Lzo1.Encoder.{
  compress, do_compress, rounds, store_literals, store_run, store_runs, store_bits, find, probe,
  extend, match_len,
}

abbrev sample : List ℕ
sample =
    9 ∷ 8 ∷ 7 ∷ 6 ∷ 1 ∷ 2 ∷ 3 ∷ 4 ∷ 1 ∷ 2 ∷ 3 ∷ 4 ∷ 1 ∷ 2 ∷ 3 ∷ 4 ∷ 1 ∷ 2 ∷ 3 ∷ 4 ∷ 1 ∷ 2 ∷ 3 ∷ 4
    ∷ 1 ∷ 2 ∷ 3 ∷ 4 ∷ 1 ∷ 2 ∷ 3 ∷ 4 ∷ 1 ∷ 2 ∷ 3 ∷ 4 ∷ 1 ∷ 2 ∷ 3 ∷ 4 ∷ 1 ∷ 2 ∷ 3 ∷ 4 ∷ []

abbrev packed : List ℕ
packed = 8 ∷ 9 ∷ 8 ∷ 7 ∷ 6 ∷ 1 ∷ 2 ∷ 3 ∷ 4 ∷ 227 ∷ 0 ∷ 24 ∷ 3 ∷ 2 ∷ 3 ∷ 4 ∷ []

compress-sample : compress sample ≡ some packed
unfolding compress do_compress rounds store_literals store_run store_runs store_bits find probe
    extend match_len
compress-sample = refl

decompress-packed : decompress 44 packed ≡ returned e_ok sample
unfolding decompress run round doubled copy_literals copy_match
decompress-packed = refl

-- A run of 600 literals: a run of 512 and a run of 88.
abbrev many : ℕ → List ℕ
many zero = []
many (suc n) = (n % 256) ∷ many n

lzo1_compress-lzo1_decompress_example :
    (code : List ℕ) × (compress sample ≡ some code) × (decompress 50 code ≡ returned e_ok sample)
lzo1_compress-lzo1_decompress_example = lzo1_compress-lzo1_decompress sample 50 (omega arith)

long_run :
    store_run (many 600) ≡ some (0 ∷ 249 ∷ (take 512 (many 600) ++ (0 ∷ 56 ∷ drop 512 (many 600))))
unfolding store_run store_runs store_bits
long_run = refl
