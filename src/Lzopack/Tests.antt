-- ===== src/Lzopack/Tests.antt =====
-- examples/lzopack.c: runs on concrete files, and the theorems at concrete inputs.
use lzo.Base.{
  All, IsByte, ℕ, ◌≡◌, ◌≢◌, refl, arith, none, some, Option, List, [], ◌∷◌, ◌++◌, length, drop,
  take, if◌then◌else◌,
}
use lzo.Lzopack.State.{
  value, err, exits, undefined, byte_of, word_of, xread, xwrite, xgetc, xputc, xread32, xwrite32,
  word_bytes,
}
use lzo.Lzopack.{
  magic, checksum_of, update_checksum, do_compress, decompress_blocks, read_header, verify_checksum,
  unpack_file, do_decompress, block_contents, packed,
}
use lzo.Lzopack.{pack_file, compress_blocks, compress_block, checked, write_block, write_header}
use lzo.Lzopack.Local.Cut.{do_decompress-local, do_compress-do_decompress_cut}
use lzo.Lzopack.Main.{
  default_options, job, take_options, one_option, take_block_size, job_of, compress_to, main,
}
use lzo.Lzopack.Main.Whole.{saved, main-main}
use lzo.Frag.CommandLine.Text.{Chars, same, strtol, skip_space, digits}
use lzo.Lzo1x.Encoder
use lzo.Lzo1x.Encoder.{store_last, store_run, store_long}
use lzo.Adler.{adler32, blocks}
use lzo.Checksum.Unrolled.{by_one, by_sixteen}
use lzo.Lzopack.Does.{files, extended_by}
use lzo.Lzopack.Whole.{do_compress-do_decompress}
use lzo.Lzopack.Sound.Accepted.{do_decompress-defined, do_decompress-checked}

-- The header for blocks of 1024 bytes.
abbrev head : List ℕ
head = magic ++ (word_bytes 1 ++ (1 ∷ 1 ∷ word_bytes 1024))

-- One stored block of the bytes 9 and 9, and the end of the blocks.
abbrev two_nines : List ℕ
two_nines = word_bytes 2 ++ (word_bytes 2 ++ (9 ∷ 9 ∷ word_bytes 0))

runs :
    (do_decompress (files (head ++ (two_nines ++ word_bytes 0x1D0013)) (some []) 0 0)
      ≡ (value tt, files [] (some (9 ∷ 9 ∷ [])) 35 2))
    × ((do_decompress (files (head ++ (two_nines ++ word_bytes 7)) (some []) 0 0)).0 ≡ err 7)
    × ((do_decompress (files (head ++ two_nines) (some []) 0 0)).0 ≡ exits)
    × ((do_decompress (files (head ++ (word_bytes 1 ++ word_bytes 2)) (some []) 0 0)).0 ≡ err 5)
    × ((do_decompress (files (1 ∷ 2 ∷ []) none 0 0)).0 ≡ err 1)
unfolding do_decompress unpack_file read_header xread xwrite xgetc byte_of word_of xread32
    checksum_of update_checksum verify_checksum decompress_blocks block_contents adler32 blocks
    by_one by_sixteen
runs = (refl, refl, refl, refl, refl)

one_nine : ◌≢◌ {A = ℕ} 1 9
one_nine e = absurd (omega (arith, e))

do_compress-do_decompress_example :
    (packed : List ℕ) × All IsByte packed
    × ((i o : ℕ)
        → do_compress 4096
            (λ b. (0, b))
            1
            1024
            (record { fi = 1 ∷ 2 ∷ 3 ∷ []; fo = some []; total_in = i; total_out = o })
          ≡ (value tt, files [] (some packed) 3 (length packed)))
    × ((rest : List ℕ) (fo : Option (List ℕ)) (i o : ℕ)
        → do_decompress (record { fi = packed ++ rest; fo = fo; total_in = i; total_out = o })
          ≡ (value tt, files rest (extended_by fo (1 ∷ 2 ∷ 3 ∷ [])) (length packed) 3))
do_compress-do_decompress_example =
    do_compress-do_decompress 4096 (λ b. (0, b)) 1 1024 (1 ∷ 2 ∷ 3 ∷ []) one_nine (omega arith)
      (omega arith) (omega arith)

-- A compressed block of three bytes that stands for four, with an M4 match from before the output.
do_decompress-defined_example :
    (do_decompress (record {
      fi = head ++ (word_bytes 4 ++ (word_bytes 3 ++ (17 ∷ 4 ∷ 0 ∷ [])));
      fo = some [];
      total_in = 0;
      total_out = 0;
    })).0
    ≢ undefined
do_decompress-defined_example =
    do_decompress-defined (head ++ (word_bytes 4 ++ (word_bytes 3 ++ (17 ∷ 4 ∷ 0 ∷ [])))) 0 0
      (omega arith)

do_decompress-checked_example :
    (out : List ℕ) × (some (9 ∷ 9 ∷ []) ≡ some out)
    × ((k : ℕ) × (c : ℕ) × (adler32 1 (some out) ≡ some c)
        × (drop k (head ++ (two_nines ++ word_bytes 0x1D0013)) ≡ word_bytes c ++ []))
do_decompress-checked_example =
    do_decompress-checked (head ++ (two_nines ++ word_bytes 0x1D0013)) 0 0
      (files [] (some (9 ∷ 9 ∷ [])) 35 2) (omega arith) refl (runs.0)

two_nines_packed :
    do_compress 4096 (λ b. (0, b)) 1 1024 (files (9 ∷ 9 ∷ []) (some []) 0 0)
    ≡ (value tt, files [] (some (head ++ (two_nines ++ word_bytes 0x1D0013))) 2 35)
unfolding do_compress pack_file write_header compress_blocks compress_block packed checked
    write_block xread xwrite xputc xwrite32 checksum_of update_checksum adler32 blocks by_one
    by_sixteen Encoder.compress Encoder.blocks store_last store_run store_long
two_nines_packed = refl

do_compress-do_decompress_cut_example :
    (do_decompress (files (take 31 (head ++ (two_nines ++ word_bytes 0x1D0013))) (some []) 0 0)).0
    ≢ value tt
do_compress-do_decompress_cut_example =
    do_compress-do_decompress_cut 4096 (λ b. (0, b)) 1 1024 (9 ∷ 9 ∷ [])
      (head ++ (two_nines ++ word_bytes 0x1D0013))
      (files [] (some (head ++ (two_nines ++ word_bytes 0x1D0013))) 2 35) 31 one_nine (omega arith)
      (omega arith) (omega arith) two_nines_packed refl (omega arith)

do_decompress-local_example :
    do_decompress
      (files (head ++ (two_nines ++ (word_bytes 0x1D0013 ++ (5 ∷ 6 ∷ [])))) (some []) 0 0)
    ≡ (value tt, files (5 ∷ 6 ∷ []) (some (9 ∷ 9 ∷ [])) 35 2)
do_decompress-local_example =
    do_decompress-local (5 ∷ 6 ∷ [])
      (files (head ++ (two_nines ++ word_bytes 0x1D0013)) (some []) 0 0)
      (files [] (some (9 ∷ 9 ∷ [])) 35 2) (runs.0)

-- `lzopack -b2048 a b`, where `a` holds two bytes and nothing else is there.
abbrev pack_line : List Chars
pack_line = (45 ∷ 98 ∷ 50 ∷ 48 ∷ 52 ∷ 56 ∷ []) ∷ (97 ∷ []) ∷ (98 ∷ []) ∷ []

abbrev only_a : Chars → Option (List ℕ)
only_a name = if same name (97 ∷ []) then some (9 ∷ 9 ∷ []) else none

asked :
    job pack_line
    ≡ some (compress_to (record default_options { opt_block_size = 2048 }) (97 ∷ []) (98 ∷ []))
unfolding job take_options one_option take_block_size job_of strtol skip_space digits
asked = refl

refused :
    (job ((45 ∷ 98 ∷ 57 ∷ []) ∷ (97 ∷ []) ∷ (98 ∷ []) ∷ []) ≡ none)
    × (job ((97 ∷ []) ∷ []) ≡ none)
    × (job ((45 ∷ 116 ∷ []) ∷ []) ≡ none)
unfolding job take_options one_option take_block_size job_of strtol skip_space digits
refused = (refl, refl, refl)

main-main_example :
    ((main 4096 (λ b. (0, b)) only_a pack_line).0 ≡ value tt)
    × (main 4096
          (λ b. (0, b))
          (saved (98 ∷ []) (main 4096 (λ b. (0, b)) only_a pack_line).1 only_a)
          ((45 ∷ 100 ∷ []) ∷ (98 ∷ []) ∷ (99 ∷ []) ∷ [])
        ≡ (value tt, some (9 ∷ 9 ∷ [])))
    × (main 4096
          (λ b. (0, b))
          (saved (98 ∷ []) (main 4096 (λ b. (0, b)) only_a pack_line).1 only_a)
          ((45 ∷ 116 ∷ []) ∷ (98 ∷ []) ∷ [])
        ≡ (value tt, none))
main-main_example =
    main-main 4096 (λ b. (0, b)) only_a pack_line (record default_options { opt_block_size = 2048 })
      (97 ∷ []) (98 ∷ []) (99 ∷ []) (9 ∷ 9 ∷ []) asked one_nine refl (omega arith) refl refl refl
