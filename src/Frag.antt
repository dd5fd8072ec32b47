-- ===== src/Frag.antt =====
-- lzo_cpu/lzo_frag.c: the file format of the command line tool, and how it compresses and
-- decompresses a whole file, one chunk after the other.
--
-- A pointer into a buffer that is read is the rest of the buffer from there. `failed` is an exit
-- with an error message, `fault` an access outside the buffers that the tool owns. Allocations
-- succeed. A level or a number of threads below zero acts as zero does. The chunks are compressed and
-- decompressed in order, as a single worker takes them.
pub mod Ints
pub mod Chunks
pub mod Store
pub mod Packing
pub mod File
pub mod Made
pub mod RoundTrip
pub mod Size
pub mod CommandLine
pub mod Workers
mod Tests
use lzo.Base.{ℕ, zero, suc, ◌+◌, ◌-◌, ◌*◌, ◌/◌, ◌^◌, ◌≡◌, bit_or, u8, u16, u32, u64}
use lzo.Base.{Bool, true, false, ltb, leb, ◌==◌, ◌&&◌, ◌||◌, if◌then◌else◌}
use lzo.Base.{Option, none, some, List, [], ◌∷◌, ◌++◌, length, take, drop}
use lzo.Lzo1x.Format.{lzo1x}
use lzo.Lzo1x.Encoder.{compress}
use lzo.Lzo1x.Decoder.{
  Status, e_ok, e_input_not_consumed, e_input_overrun, e_output_overrun, e_lookbehind_overrun,
  returned, faulted, stuck, unsafe, decompress,
}

pub data Result {ℓ} (A : Type ℓ) : Type ℓ where
  ok : A → Result A
  failed fault : Result A

infixl 5 ◌>>=◌
abbrev pub ◌>>=◌ {ℓ κ} : {A : Type ℓ} {B : Type κ} → Result A → (A → Result B) → Result B
ok a >>= f = f a
failed >>= f = failed
fault >>= f = fault

infixl 5 ◌>>◌
abbrev pub ◌>>◌ {ℓ κ} : {A : Type ℓ} {B : Type κ} → Result A → Result B → Result B
r >> q = r >>= λ _. q

-- An exit with an error message, if the test holds.
abbrev pub fail_if : Bool → Result (Unit {0})
fail_if true = failed
fail_if false = ok tt

pub data Alg : Type 0 where
  alg_none alg_1x alg_1k alg_1l alg_1o : Alg

abbrev pub alg_from_level : ℕ → Alg
alg_from_level level =
    if level == 1
    then alg_1l
    else if level == 2
    then alg_1k
    else if level == 4
    then alg_1o
    else alg_1x

-- `(g_alg != ALG_NONE) ? g_alg : alg_from_level(level)`
abbrev pub used_alg : Alg → ℕ → Alg
used_alg alg_none level = alg_from_level level
used_alg alg_1x level = alg_1x
used_alg alg_1k level = alg_1k
used_alg alg_1l level = alg_1l
used_alg alg_1o level = alg_1o

-- D_BITS of the compressor that is called for an algorithm: lzo1x_1, lzo1x_1_12, lzo1x_1_11 and
-- lzo1x_1_15.
abbrev pub d_bits : Alg → ℕ
d_bits alg_none = 14
d_bits alg_1x = 14
d_bits alg_1k = 12
d_bits alg_1l = 11
d_bits alg_1o = 13

-- A value without the bits above the lowest eight is its cast to `unsigned char`.
abbrev pub write_u16 : ℕ → List ℕ
write_u16 v = u8 v ∷ u8 (v / 2 ^ 8) ∷ []

abbrev pub write_u32 : ℕ → List ℕ
write_u32 v = u8 v ∷ u8 (v / 2 ^ 8) ∷ u8 (v / 2 ^ 16) ∷ u8 (v / 2 ^ 24) ∷ []

abbrev pub read_u16 : List ℕ → Result ℕ
read_u16 (a ∷ b ∷ p) = ok (bit_or a (b * 2 ^ 8))
read_u16 (a ∷ []) = fault
read_u16 [] = fault

abbrev pub read_u32 : List ℕ → Result ℕ
read_u32 (a ∷ b ∷ c ∷ d ∷ p) = ok (bit_or (bit_or (bit_or a (b * 2 ^ 8)) (c * 2 ^ 16)) (d * 2 ^ 24))
read_u32 (a ∷ b ∷ c ∷ []) = fault
read_u32 (a ∷ b ∷ []) = fault
read_u32 (a ∷ []) = fault
read_u32 [] = fault

abbrev pub magic_tag : ℕ
magic_tag = 0x4C5A

abbrev pub min_block_size : ℕ
min_block_size = 64 * 1024

abbrev pub max_block_size : ℕ
max_block_size = 1024 * 1024

unfoldable pub choose_block_size : ℕ → ℕ → ℕ
choose_block_size total_bytes requested =
    let threads = if ltb requested 1 then 1 else requested in
    let share = (total_bytes + threads - 1) / threads in
    let at_least = if ltb share min_block_size then min_block_size else share in
    let at_most = if ltb max_block_size at_least then max_block_size else at_least in
    let blk = if ltb total_bytes at_most then total_bytes else at_most in
    if blk == 0 && total_bytes == 0 then min_block_size else blk

-- `compress_block_into`: `dst_len` is not read by the compressor, so that more than `out_cap` bytes
-- are a write past the buffer.
unfoldable pub compress_block_into : Alg → ℕ → List ℕ → ℕ → Result (List ℕ)
compress_block_into alg addr input out_cap =
    if out_cap == 0 then failed else elim (compress lzo1x (d_bits alg) addr input) [
      | none ↦ fault
      | some out ↦ if leb (length out) out_cap then ok out else fault
    ]

abbrev pub is_ok : Status → Bool
is_ok status = elim status [
  | e_ok ↦ true
  | e_input_not_consumed ↦ false
  | e_input_overrun ↦ false
  | e_output_overrun ↦ false
  | e_lookbehind_overrun ↦ false
]

-- The return code of `decompress_block`, and what it writes from `out` on, where the output has
-- `space` bytes left; `lzo1x_decompress` does not read `dst_len`. A match that reaches back to
-- before `out` is an access outside the chunk's own memory.
unfoldable pub decompress_block : List ℕ → ℕ → ℕ → Result (Status × List ℕ)
decompress_block input space orig_size = elim (decompress ⦃c = unsafe⦄ lzo1x space input) [
  | returned rc out ↦ ok (if is_ok rc && (length out == orig_size) then e_ok else rc, out)
  | faulted ↦ fault
  | stuck ↦ fault
]

pub record Chunk : Type 0 where
  pub input : List ℕ
  pub in_size : ℕ
  pub offset : ℕ

-- The loop of `compress_multi` that sets up the chunks, for `n` chunks from number `i` on.
unfoldable pub make_chunks : ℕ → List ℕ → ℕ → ℕ → List Chunk
make_chunks block_size input zero i = []
make_chunks block_size input (suc n) i =
    let off = i * block_size in
    let left = length input - off in
    let in_size = if ltb left block_size || block_size == 0 then left else block_size in
    record { input = take in_size (drop off input); in_size = in_size; offset = off }
    ∷ make_chunks block_size input n (suc i)

-- `compress_worker` on the chunks in order; `addr` is the address of the whole input.
unfoldable pub compress_chunks : Alg → ℕ → List Chunk → Result (List (List ℕ))
compress_chunks alg addr [] = ok []
compress_chunks alg addr (ck ∷ chunks) = do
  comp ← compress_block_into alg (addr + ck.offset) ck.input (ck.in_size + ck.in_size / 16 + 64 + 3)
  comps ← compress_chunks alg addr chunks
  ok (comp ∷ comps)

unfoldable pub chunk_count : ℕ → ℕ → ℕ
chunk_count block_size input_size =
    if block_size == 0 || input_size == 0
    then if input_size == 0 then 0 else 1
    else (input_size + block_size - 1) / block_size

unfoldable pub write_lengths : List (List ℕ) → List ℕ
write_lengths [] = []
write_lengths (comp ∷ comps) = write_u32 (length comp) ++ write_lengths comps

unfoldable pub write_payload : List (List ℕ) → List ℕ
write_payload [] = []
write_payload (comp ∷ comps) = comp ++ write_payload comps

-- What `compress_file` writes, for the algorithm of `-L`, a level and a number of threads.
unfoldable pub compress_file : Alg → ℕ → ℕ → ℕ → List ℕ → Result (List ℕ)
compress_file g_alg level threads addr input = do
  fail_if (ltb (2 ^ 32 - 1) (length input))
  let block_size = choose_block_size (length input) threads
  let count = chunk_count block_size (length input)
  comps ← compress_chunks (used_alg g_alg level) addr (make_chunks block_size input count 0)
  ok (
      write_u16 magic_tag
      ++ (write_u32 (length input)
          ++ (write_u32 block_size
              ++ (write_u32 count ++ (write_lengths comps ++ write_payload comps)))))

-- `for (i = 0; i < nblk; ++i) total_comp += read_u32(lengths_ptr + i * 4u);`
unfoldable pub total_length : ℕ → List ℕ → ℕ → Result ℕ
total_length zero lengths total_comp = ok total_comp
total_length (suc n) lengths total_comp = do
  clen ← read_u32 lengths
  total_length n (drop 4 lengths) (u64 (total_comp + clen))

-- The loop of `decompress_file` that sets up the chunks, with `n` chunks left; the last one has
-- what is left of `orig_sz`.
unfoldable pub read_chunks : ℕ → ℕ → ℕ → List ℕ → List ℕ → ℕ → Result (List Chunk)
read_chunks orig_sz blk_sz zero lengths blk offset = ok []
read_chunks orig_sz blk_sz (suc n) lengths blk offset = do
  clen ← read_u32 lengths
  let orig_chunk = if n == 0 then u64 (orig_sz + 2 ^ 64 - offset) else blk_sz
  fail_if (ltb (length blk) clen)
  chunks ← read_chunks orig_sz blk_sz n (drop 4 lengths) (drop clen blk) (u64 (offset + orig_chunk))
  ok (record { input = take clen blk; in_size = orig_chunk; offset = offset } ∷ chunks)

-- The buffer after a copy of `bytes` to `offset`.
abbrev pub store : List ℕ → ℕ → List ℕ → List ℕ
store buf offset bytes = take offset buf ++ (bytes ++ drop (offset + length bytes) buf)

-- `decompress_worker` on the chunks in order. A chunk that is refused ends the run.
unfoldable pub decompress_chunks : List ℕ → List Chunk → Result (List ℕ)
decompress_chunks buf [] = ok buf
decompress_chunks buf (ck ∷ chunks) = do
  r ← decompress_block ck.input (length buf - ck.offset) ck.in_size
  fail_if (if is_ok r.0 then false else true)
  decompress_chunks (store buf ck.offset r.1) chunks

-- What `decompress_file` writes; `malloc` gives new memory.
unfoldable pub decompress_file : (ℕ → List ℕ) → List ℕ → Result (List ℕ)
decompress_file malloc comp = do
  fail_if (ltb (length comp) 14)
  magic ← read_u16 comp
  fail_if (if magic == magic_tag then false else true)
  orig_sz ← read_u32 (drop 2 comp)
  blk_sz ← read_u32 (drop 6 comp)
  nblk ← read_u32 (drop 10 comp)
  fail_if (ltb (length comp) (14 + nblk * 4))
  let payload = drop (14 + nblk * 4) comp
  total_comp ← total_length nblk (drop 14 comp) 0
  fail_if (ltb (length payload) total_comp)
  chunks ← read_chunks orig_sz blk_sz nblk (drop 14 comp) payload 0
  decompress_chunks (malloc orig_sz) chunks
