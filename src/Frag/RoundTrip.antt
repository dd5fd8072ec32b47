-- ===== src/Frag/RoundTrip.antt =====
-- lzo_cpu/lzo_frag.c: a whole file, compressed and decompressed.
use lzo.Base.{ℕ, ◌^◌, ◌<◌, ◌≡◌, List, length, take, All, IsByte}
use lzo.Frag.{ok, failed, Alg, used_alg, compress_file, decompress_file}
use lzo.Frag.File.{decompress_file-packed, decompress_file-cut}
use lzo.Frag.Made.{compress_file-Made, block_size_of, count_of}

module _ (malloc : ℕ → List ℕ) (g_alg : Alg) (level threads addr : ℕ) where
  -- Every input of less than 2 ^ 32 bytes, compressed with any algorithm, level and number of
  -- threads and wherever it lies in memory, gives a file, and the decompression of that file gives
  -- exactly the input, whatever new memory holds.
  pub compress_file-decompress_file :
      ((n : ℕ) → length (malloc n) ≡ n)
      → (input : List ℕ) → All IsByte input
      → length input < 2 ^ 32
      → (out : List ℕ) × (compress_file g_alg level threads addr input ≡ ok out)
        × (decompress_file malloc out ≡ ok input)
  compress_file-decompress_file allocates input bytes small =
      let m = compress_file-Made g_alg level threads addr input bytes small in
      (
        _,
        m.made,
        decompress_file-packed (used_alg g_alg level) addr
            (block_size_of g_alg level threads addr input) (count_of g_alg level threads addr input)
            input small m.narrow m.few malloc m.packed allocates,
      )

  -- A file that the tool makes of an input of less than 2 ^ 32 bytes and that is then cut short, by any
  -- number of bytes, is refused with an error message: nothing outside the buffers is accessed.
  pub compress_file-decompress_file_cut :
      (input : List ℕ)
      → All IsByte input
      → length input < 2 ^ 32
      → (out : List ℕ) × (compress_file g_alg level threads addr input ≡ ok out)
        × ((k : ℕ) → k < length out → decompress_file malloc (take k out) ≡ failed)
  compress_file-decompress_file_cut input bytes small =
      let m = compress_file-Made g_alg level threads addr input bytes small in
      (
        _,
        m.made,
        decompress_file-cut (used_alg g_alg level) addr
            (block_size_of g_alg level threads addr input) (count_of g_alg level threads addr input)
            input small m.narrow m.few malloc m.packed,
      )
