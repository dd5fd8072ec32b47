-- ===== src/Frag/Tests.antt =====
-- lzo_cpu/lzo_frag.c: runs on concrete files, and the theorems at concrete inputs.
use lzo.Base.{ℕ, zero, suc, ◌≡◌, refl, arith, List, [], ◌∷◌, length, take, ◌≤◌, ◌/◌, All, true}
use lzo.Frag.{
  ok, failed, alg_none, alg_1k, alg_1o, Chunk, decompress_block, compress_file, decompress_file,
}
use lzo.Lzo1x.Decoder.{
  e_ok, decompress, start, run, step, copy_literals, copy_match, long_length, match_length,
  match_next, match_done, literals, finish_match, m1_match, m2_match, m3_match, m4_match, any_match,
  eof_found,
}
use lzo.Frag.Chunks.{decompress_block-unchecked}
use lzo.Frag.{
  choose_block_size, chunk_count, make_chunks, compress_chunks, compress_block_into, write_lengths,
  write_payload, read_chunks,
}
use lzo.Frag.Made.{count_of}
use lzo.Lzo1x.Encoder.{compress, blocks, store_last}
use lzo.Base.{drop}
use lzo.Frag.Workers.Decompress.{decompress_work, workers-decompress_file}
use lzo.Frag.Size.{compress_file-bound}
use lzo.Frag.File.{file}
use lzo.Frag.Made.{block_size_of}
use lzo.Frag.Workers.Compress.{compress_work, collect, chunks_of, workers-compress_file}
use mathlib.Core.Path.{subst}
use lzo.Base.{Option, some, ◌<◌, ◌+◌, ◌-◌, ◌*◌, ◌≢◌}
use lzo.Frag.Workers.{
  Worker, fetching, checking, working, finished, Job, turn, begin, Reaches, started, turned,
}
use lzo.Frag.Workers.Kept.{workers-Done}
use lzo.Frag.Workers.Ends.{turn-terminates, workers-finish}
use lzo.Frag.RoundTrip.{compress_file-decompress_file, compress_file-decompress_file_cut}

abbrev zeros : ℕ → List ℕ
zeros zero = []
zeros (suc n) = 0 ∷ zeros n

length-zeros : (n : ℕ) → length (zeros n) ≡ n
length-zeros zero = refl
length-zeros (suc n) = omega (arith, length-zeros n)

abbrev short : List ℕ
short = 1 ∷ 2 ∷ 3 ∷ 4 ∷ 5 ∷ []

-- A file that is too short, one with another tag, and one whose table is cut short.
refused :
    (decompress_file zeros (0x5A ∷ 0x4C ∷ []) ≡ failed)
    × (decompress_file zeros (0 ∷ 0x4C ∷ zeros 12) ≡ failed)
    × (decompress_file zeros (0x5A ∷ 0x4C ∷ 0 ∷ 0 ∷ 0 ∷ 0 ∷ 0 ∷ 0 ∷ 1 ∷ 0 ∷ 1 ∷ 0 ∷ 0 ∷ 0 ∷ [])
        ≡ failed)
unfolding decompress_file
refused = (refl, refl, refl)

compress_file-decompress_file_example :
    (out : List ℕ) × (compress_file alg_none 3 2 4096 short ≡ ok out)
    × (decompress_file zeros out ≡ ok short)
compress_file-decompress_file_example =
    compress_file-decompress_file zeros alg_none 3 2 4096 length-zeros short (omega arith)
      (omega arith)

compress_file-decompress_file_cut_example :
    (out : List ℕ) × (compress_file alg_1k 3 2 4096 short ≡ ok out)
    × ((k : ℕ) → k < length out → decompress_file zeros (take k out) ≡ failed)
compress_file-decompress_file_cut_example =
    compress_file-decompress_file_cut zeros alg_1k 3 2 4096 short (omega arith) (omega arith)

compress_file-bound_example :
    (out : List ℕ) × (compress_file alg_none 1 4 0 short ≡ ok out)
    × (length out ≤ length short + length short / 16 + 71 * (length short / 65536 + 1) + 14)
compress_file-bound_example = compress_file-bound alg_none 1 4 0 short (omega arith) (omega arith)

-- A chunk of three bytes that the file says has nine: LZO_E_OK.
abbrev three : List ℕ
three = 20 ∷ 1 ∷ 2 ∷ 3 ∷ 17 ∷ 0 ∷ 0 ∷ []

three-unchecked : decompress_block three 9 9 ≡ ok (e_ok, 1 ∷ 2 ∷ 3 ∷ [])
unfolding decompress_block decompress run start step copy_literals copy_match long_length
    match_length match_next match_done finish_match m1_match m2_match m3_match m4_match any_match
    literals eof_found
three-unchecked = refl

decompress_block-unchecked_example : decompress_block three 9 9 ≡ decompress_block three 9 3
decompress_block-unchecked_example = decompress_block-unchecked three 9 9 3

-- Two workers and one chunk: the second worker looks for a chunk before the first is done.
abbrev work : ℕ → Option ℕ
work k = some (k + 7)

abbrev at_last : Job ℕ
at_last =
    let fetched = (turn work 1 (begin work 1) fetching).0 in
    let passed = (turn work 1 fetched fetching).0 in
    let done = (turn work 1 passed (working 0)).0 in (turn work 1 done fetching).0

at_last-Reaches : Reaches work 1 at_last (finished ∷ finished ∷ [])
at_last-Reaches = turned _ [] (finished ∷ []) fetching (
    turned _ [] (finished ∷ []) (working 0) (
      turned _ [] (finished ∷ []) (checking 0) (
        turned _ (checking 0 ∷ []) [] fetching (
          turned _ [] (fetching ∷ []) fetching
            (started (fetching ∷ fetching ∷ []) (refl, (refl, tt)))))))

workers-Done_example : at_last.results 0 ≡ some 7
workers-Done_example =
    workers-Done work 1 at_last (finished ∷ finished ∷ []) at_last-Reaches (omega arith)
      (refl, (refl, tt)) refl 0 (omega arith)

IsFetching : Worker → Type 0
IsFetching fetching = Unit
IsFetching finished = ⊥
IsFetching (checking i) = ⊥
IsFetching (working i) = ⊥

fetching≢finished : fetching ≢ finished
unfolding IsFetching
fetching≢finished e = subst IsFetching e tt

turn-terminates_example :
    3 * (1 - (turn work 1 (begin work 1) fetching).0.next_index) + (3 + (1 + 0))
    < 3 * (1 - (begin work 1).next_index) + (1 + (1 + 0))
turn-terminates_example =
    turn-terminates work 1 (begin work 1) [] (fetching ∷ []) fetching fetching≢finished

workers-finish_example :
    (j : Job ℕ) × (ws : List Worker) × Reaches work 1 j ws
    × (length ws ≡ 2)
    × All (λ w. w ≡ finished) ws
workers-finish_example = workers-finish work 1 at_last (finished ∷ finished ∷ []) at_last-Reaches

-- Three workers on the chunks of a file, after some turns that end them all.
abbrev short_chunks : List Chunk
short_chunks = chunks_of alg_1o 3 3 4096 short

three_workers :
    (j : Job (List ℕ)) × (ws : List Worker) × Reaches
      (compress_work alg_1o 4096 short_chunks)
      (length short_chunks)
      j
      ws
    × (length ws ≡ 3)
    × All (λ w. w ≡ finished) ws
three_workers =
    workers-finish (compress_work alg_1o 4096 short_chunks) (length short_chunks)
      (begin (compress_work alg_1o 4096 short_chunks) (length short_chunks))
      (fetching ∷ fetching ∷ fetching ∷ [])
      (started (fetching ∷ fetching ∷ fetching ∷ []) (refl, (refl, (refl, tt))))

workers-compress_file_example :
    (comps : List (List ℕ)) × (three_workers.0.is_ok ≡ true)
    × (collect three_workers.0.results (length short_chunks) ≡ some comps)
    × (compress_file alg_1o 3 3 4096 short
        ≡ ok (
            file alg_1o 4096
              (block_size_of alg_1o 3 3 4096 short)
              (length short_chunks)
              short
              comps))
workers-compress_file_example =
    workers-compress_file alg_1o 3 3 4096 short (omega arith) (omega arith) three_workers.0
      three_workers.1 three_workers.2 (omega (arith, three_workers.3)) three_workers.4

-- The file of five bytes, its chunk, and two workers on it.
abbrev short_file : List ℕ
short_file =
    0x5A ∷ 0x4C ∷ 5 ∷ 0 ∷ 0 ∷ 0 ∷ 5 ∷ 0 ∷ 0 ∷ 0 ∷ 1 ∷ 0 ∷ 0 ∷ 0 ∷ 9 ∷ 0 ∷ 0 ∷ 0 ∷ 22 ∷ 1 ∷ 2 ∷ 3 ∷ 4
    ∷ 5 ∷ 17 ∷ 0 ∷ 0 ∷ []

short_file-made : compress_file alg_none 3 2 4096 short ≡ ok short_file
unfolding compress_file choose_block_size chunk_count make_chunks compress_chunks
    compress_block_into write_lengths write_payload compress blocks store_last
short_file-made = refl

abbrev packed_chunks : List Chunk
packed_chunks = record { input = drop 18 short_file; in_size = 5; offset = 0 } ∷ []

packed_chunks-found :
    read_chunks 5
      (block_size_of alg_none 3 2 4096 short)
      (count_of alg_none 3 2 4096 short)
      (drop 14 short_file)
      (drop (14 + count_of alg_none 3 2 4096 short * 4) short_file)
      0
    ≡ ok packed_chunks
unfolding read_chunks choose_block_size chunk_count
packed_chunks-found = refl

two_workers :
    (j : Job (List ℕ)) × (ws : List Worker) × Reaches (decompress_work 5 packed_chunks) 1 j ws
    × (length ws ≡ 2)
    × All (λ w. w ≡ finished) ws
two_workers =
    workers-finish (decompress_work 5 packed_chunks) 1 (begin (decompress_work 5 packed_chunks) 1)
      (fetching ∷ fetching ∷ []) (started (fetching ∷ fetching ∷ []) (refl, (refl, tt)))

workers-decompress_file_example :
    (pieces : List (List ℕ)) × (two_workers.0.is_ok ≡ true)
    × (collect two_workers.0.results 1 ≡ some pieces)
    × (write_payload pieces ≡ short)
workers-decompress_file_example =
    workers-decompress_file alg_none 3 2 4096 short short_file packed_chunks (omega arith)
      (omega arith) short_file-made packed_chunks-found two_workers.0 two_workers.1 two_workers.2
      (omega (arith, two_workers.3)) two_workers.4
