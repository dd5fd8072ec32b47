-- ===== src/Frag/Size.antt =====
-- lzo_cpu/lzo_frag.c: the size of the file that the tool makes.
use lzo.Base.{
  ℕ, zero, suc, ◌+◌, ◌*◌, ◌/◌, ◌^◌, ◌≤◌, ◌<◌, ◌≡◌, arith, ◌⊎◌, inl, inr, ap, ltb, ltb→lt, ltb→le,
  Bool-cases,
}
use lzo.Base.{List, [], ◌∷◌, length, length-append, All, IsByte}
use native.Mathlib.Nat.{mul-le-mul_left}
use lzo.Frag.{ok, Alg, choose_block_size, chunk_count, write_lengths, write_payload, compress_file}
use lzo.Frag.Chunks.{choose_block_size-bounds, choose_block_size-least, choose_block_size-whole}
use lzo.Frag.Made.{compress_file-Made, chunk_count-bounds, chunk_count_zero}

blocks_below : (n b m : ℕ) → m * b < n → (b ≡ n) ⊎ (65536 ≤ b) → m ≤ n / 65536
blocks_below n b zero before h = omega arith
blocks_below n b (suc m) before (inl whole) =
    absurd (omega (arith, ap (λ (i : ℕ). suc m * i) whole))
blocks_below n b (suc m) before (inr wide) = omega (arith, mul-le-mul_left (suc m) wide)

choose_block_size-cases :
    (n threads : ℕ)
    → 0 < n
    → (choose_block_size n threads ≡ n) ⊎ (65536 ≤ choose_block_size n threads)
choose_block_size-cases n threads pos = elim (Bool-cases (ltb n 65536)) [
  | inl t ↦ inl (choose_block_size-whole n threads pos (omega (arith, ltb→lt n 65536 t)))
  | inr f ↦ inr (choose_block_size-least n threads (ltb→le n 65536 f))
]

-- One chunk for each 64 KiB at most, and one more.
chunk_count-le :
    (threads : ℕ) (input : List ℕ)
    → chunk_count (choose_block_size (length input) threads) (length input)
      ≤ length input / 65536 + 1
chunk_count-le threads [] = omega (arith, chunk_count_zero (choose_block_size 0 threads))
chunk_count-le threads (x ∷ xs) =
    let n = length (x ∷ xs) in
    let b = choose_block_size n threads in
    let (pos, bounded) = choose_block_size-bounds n threads (omega arith) in
    let (m, e, before, behind, few) = chunk_count-bounds n b pos (omega arith) in
    omega (arith, e, blocks_below n b m before (choose_block_size-cases n threads (omega arith)))

-- The file of an input of `n` bytes, `n` below 2 ^ 32, has at most `n + n / 16 + 71 * (n / 65536 + 1) + 14` bytes, for
-- every algorithm, level and number of threads.
pub compress_file-bound :
    (g_alg : Alg) (level threads addr : ℕ) (input : List ℕ)
    → All IsByte input
    → length input < 2 ^ 32
    → (out : List ℕ) × (compress_file g_alg level threads addr input ≡ ok out)
      × (length out ≤ length input + length input / 16 + 71 * (length input / 65536 + 1) + 14)
compress_file-bound g_alg level threads addr input bytes small =
    let m = compress_file-Made g_alg level threads addr input bytes small in
    let comps = m.packed.comps in
    (
      _,
      m.made,
      omega (
        arith,
        m.packed.tight,
        m.packed.table,
        chunk_count-le threads input,
        length-append (write_lengths comps) (write_payload comps),
      ),
    )
