-- ===== src/Frag/Made.antt =====
-- lzo_cpu/lzo_frag.c: compress_file makes a file of every input.
use lzo.Base.{ℕ, zero, suc, ◌+◌, ◌-◌, ◌*◌, ◌/◌, ◌^◌, ◌≤◌, ◌<◌, ◌≡◌, refl, arith, ap, ◌∙◌}
use mathlib.Core.Path.{subst}
use native.Mathlib.Nat.{mul-le-mul_left}
use lzo.Base.{◌⊎◌, inl, inr, false, ltb, sym}
use lzo.Base.{List, [], ◌∷◌, length, All, IsByte}
use lzo.Frag.{ok, Alg, used_alg, choose_block_size, chunk_count, compress_file}
use lzo.Frag.Ints.{ceil_bounds}
use lzo.Frag.Chunks.{choose_block_size-bounds}
use lzo.Frag.Packing.{Packed, Packed-nil, pack}
use lzo.Frag.File.{file}

suc_or_zero : (n : ℕ) → (n ≡ 0) ⊎ ((m : ℕ) × (n ≡ suc m))
suc_or_zero zero = inl refl
suc_or_zero (suc n) = inr (n, refl)

-- The chunks of an input of at least one byte: there is one, they cover it, and the last holds a byte.
pub chunk_count-bounds :
    (n b : ℕ)
    → 0 < b
    → 0 < n
    → (m : ℕ) × (chunk_count b n ≡ suc m) × (m * b < n) × (n ≤ suc m * b) × (m < n)
unfolding chunk_count
chunk_count-bounds n b pos some_bytes =
    let count = (n + b - 1) / b in
    let (upper, lower) = ceil_bounds n b pos some_bytes in
    let e : chunk_count b n ≡ count = ground arith in
    elim (suc_or_zero count) [
      | inl z ↦ absurd (omega (arith, upper, lower, ap (λ (c : ℕ). c * b) z))
      | inr (m, z) ↦
          let t = ap (λ (c : ℕ). c * b) z in
          let one : 1 ≤ b = pos in
          (
            m,
            e ∙ z,
            omega (arith, upper, t),
            omega (arith, lower, t),
            omega (arith, upper, t, mul-le-mul_left m one),
          )
    ]

pub chunk_count_zero : (b : ℕ) → chunk_count b 0 ≡ 0
unfolding chunk_count
chunk_count_zero b = ground arith

choose_block_size_zero : (threads : ℕ) → choose_block_size 0 threads ≡ 65536
unfolding choose_block_size
choose_block_size_zero threads = ground arith

module _ (g_alg : Alg) (level threads addr : ℕ) (input : List ℕ) where
  abbrev pub block_size_of : ℕ
  block_size_of = choose_block_size (length input) threads

  abbrev pub count_of : ℕ
  count_of = chunk_count block_size_of (length input)

  -- The file that the tool makes of an input, with its chunks.
  pub record Made : Type 0 where
    pub narrow : block_size_of < 2 ^ 32
    pub few : count_of < 2 ^ 32
    pub packed : Packed (used_alg g_alg level) addr block_size_of input count_of 0 0
    pub made :
        compress_file g_alg level threads addr input
        ≡ ok (file (used_alg g_alg level) addr block_size_of count_of input packed.comps)

  from_Packed :
      (count : ℕ)
      → length input < 2 ^ 32
      → count_of ≡ count
      → count < 2 ^ 32
      → block_size_of < 2 ^ 32
      → Packed (used_alg g_alg level) addr block_size_of input count 0 0
      → Made
  unfolding compress_file
  from_Packed count small e few narrow p =
      let accepted : ltb (2 ^ 32 - 1) (length input) ≡ false = ground arith in
      let p' =
        subst (λ c. Packed (used_alg g_alg level) addr block_size_of input c 0 0) (sym e) p in
      record { narrow = narrow; few = rw e few; packed = p'; made = rw (accepted, p'.packed) refl }

pub compress_file-Made :
    (g_alg : Alg) (level threads addr : ℕ) (input : List ℕ)
    → All IsByte input
    → length input < 2 ^ 32
    → Made g_alg level threads addr input
compress_file-Made g_alg level threads addr [] bytes small =
    from_Packed g_alg level threads addr [] 0 small (chunk_count_zero (choose_block_size 0 threads))
      (omega arith) (omega (arith, choose_block_size_zero threads))
      (Packed-nil (used_alg g_alg level) addr (choose_block_size 0 threads) [] 0 0 (omega arith))
compress_file-Made g_alg level threads addr (x ∷ xs) bytes small =
    let input = x ∷ xs in
    let block_size = choose_block_size (length input) threads in
    let (pos, bounded) = choose_block_size-bounds (length input) threads (omega arith) in
    let (m, e, before, behind, few) =
      chunk_count-bounds (length input) block_size pos (omega arith) in
    from_Packed g_alg level threads addr input (suc m) small e (omega arith) (omega arith) (
      subst (Packed (used_alg g_alg level) addr block_size input (suc m) 0) (omega arith) (
        pack (used_alg g_alg level) addr block_size input bytes small m 0 pos bounded (omega arith)
          (omega arith)))
