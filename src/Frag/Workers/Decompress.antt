-- ===== src/Frag/Workers/Decompress.antt =====
-- lzo_cpu/lzo_frag.c: the workers of decompress_multi, in any order of turns, on the chunks that
-- decompress_file finds in a file of compress_file. What a worker writes to a chunk's part of the output
-- is the chunk's result; the parts lie side by side in the order of the chunks.
use lzo.Base.{ℕ, zero, suc, ◌+◌, ◌-◌, ◌*◌, ◌^◌, ◌<◌, ◌≡◌, refl, sym, ap, ◌∙◌, arith}
use lzo.Base.{true, if◌then◌else◌, Option, none, some, List, [], ◌∷◌, length, drop, All}
use lzo.Base.{IsByte}
use mathlib.Core.Path.{subst}
use mathlib.Core.Option.{some-injective}
use lzo.Lzo1x.Decoder.{Status}
use lzo.Frag.{
  Result, ok, failed, fault, Alg, used_alg, Chunk, is_ok, decompress_block, read_chunks,
  write_payload, compress_file,
}
use lzo.Frag.File.{file, read_chunks-file}
use lzo.Frag.Made.{compress_file-Made, block_size_of, count_of}
use lzo.Frag.Packing.{Decodes}
use lzo.Frag.Workers.{Worker, finished, Job, Reaches}
use lzo.Frag.Workers.Kept.{workers-Done}
use lzo.Frag.Workers.Compress.{given, collect, Reaches-is_ok}

-- What a chunk's part of the output holds after `decompress_block`, if its code is LZO_E_OK.
abbrev pub decoded : Result (Status × List ℕ) → Option (List ℕ)
decoded (ok r) = if is_ok r.0 then some r.1 else none
decoded failed = none
decoded fault = none

-- The work of a decompress_worker on chunk `k`, for an output of `size` bytes.
unfoldable pub decompress_work : ℕ → List Chunk → ℕ → Option (List ℕ)
decompress_work size [] k = none
decompress_work size (ck ∷ chunks) zero =
    decoded (decompress_block ck.input (size - ck.offset) ck.in_size)
decompress_work size (ck ∷ chunks) (suc k) = decompress_work size chunks k

decompress_work-succeeds :
    (size : ℕ) (chunks : List Chunk) (pieces : List (List ℕ))
    → Decodes size chunks pieces
    → (k : ℕ) → k < length chunks
    → (p : List ℕ) × (decompress_work size chunks k ≡ some p)
unfolding decompress_work Decodes
decompress_work-succeeds size [] pieces d k h = absurd (omega arith)
decompress_work-succeeds size (ck ∷ chunks) [] d k h = absurd d
decompress_work-succeeds size (ck ∷ chunks) (p ∷ pieces) d zero h = (p, ap decoded d.0)
decompress_work-succeeds size (ck ∷ chunks) (p ∷ pieces) d (suc k) h =
    decompress_work-succeeds size chunks pieces d.1 k (omega arith)

collect-decompress_work :
    (size : ℕ) (chunks : List Chunk) (pieces : List (List ℕ)) (results : ℕ → Option (List ℕ))
    → Decodes size chunks pieces
    → ((k : ℕ) → k < length chunks → results k ≡ decompress_work size chunks k)
    → collect results (length chunks) ≡ some pieces
unfolding decompress_work collect Decodes
collect-decompress_work size [] [] results d h = refl
collect-decompress_work size [] (p ∷ pieces) results d h = absurd d
collect-decompress_work size (ck ∷ chunks) [] results d h = absurd d
collect-decompress_work size (ck ∷ chunks) (p ∷ pieces) results d h =
    let first : results 0 ≡ some p = h 0 (omega arith) ∙ ap decoded d.0 in
    let others =
      collect-decompress_work size chunks pieces (λ k. results (suc k)) d.1
        (λ k lt. h (suc k) (omega arith)) in
    rw (first, others) refl

module _ (g_alg : Alg) (level threads addr : ℕ) (input : List ℕ) where
  -- For every input of less than 2 ^ 32 bytes, every algorithm, level, number of threads and address,
  -- and for the chunks that decompress_file finds in the file made of the input: in whatever order at
  -- least one worker takes its turns over them, when all workers have finished, the status is LZO_E_OK,
  -- and the parts of the output, one behind the other, are the input.
  pub workers-decompress_file :
      (out : List ℕ) (chunks : List Chunk)
      → All IsByte input
      → length input < 2 ^ 32
      → compress_file g_alg level threads addr input ≡ ok out
      → read_chunks
          (length input)
          (block_size_of g_alg level threads addr input)
          (count_of g_alg level threads addr input)
          (drop 14 out)
          (drop (14 + count_of g_alg level threads addr input * 4) out)
          0
        ≡ ok chunks
      → (j : Job (List ℕ)) (ws : List Worker)
      → Reaches (decompress_work (length input) chunks) (length chunks) j ws
      → 0 < length ws
      → All (λ w. w ≡ finished) ws
      → (pieces : List (List ℕ)) × (j.is_ok ≡ true)
        × (collect j.results (length chunks) ≡ some pieces)
        × (write_payload pieces ≡ input)
  workers-decompress_file out chunks bytes small made found j ws r some_worker end =
      let m = compress_file-Made g_alg level threads addr input bytes small in
      let p = m.packed in
      let out_eq : out
          ≡ file (used_alg g_alg level) addr (block_size_of g_alg level threads addr input)
              (count_of g_alg level threads addr input) input p.comps =
        some-injective _ _ (ap given (sym made ∙ m.made)) in
      let chunks_eq : chunks ≡ p.parsed = some-injective _ _ (
        ap given (
          rw out_eq at (sym found)
          ∙ read_chunks-file (used_alg g_alg level) addr
              (block_size_of g_alg level threads addr input)
              (count_of g_alg level threads addr input) input small m.narrow m.few (λ n. []) p)) in
      let d : Decodes (length input) chunks p.pieces =
        subst (λ cks. Decodes (length input) cks p.pieces) (sym chunks_eq) p.decodes in
      let work = decompress_work (length input) chunks in
      let succeeds = decompress_work-succeeds (length input) chunks p.pieces d in
      let fine = (Reaches-is_ok work (length chunks) succeeds j ws r).0 in
      (
        p.pieces,
        fine,
        collect-decompress_work (length input) chunks p.pieces j.results d
            (workers-Done work (length chunks) j ws r some_worker end fine),
        p.joined,
      )
