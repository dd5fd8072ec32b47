-- ===== src/Frag/Ints.antt =====
-- lzo_cpu/lzo_frag.c: what `read_u16` and `read_u32` read where `write_u16` and `write_u32` wrote,
-- and the arithmetic of the chunks.
use lzo.Base.{ℕ, ◌+◌, ◌-◌, ◌*◌, ◌/◌, ◌%◌, ◌^◌, ◌≤◌, ◌<◌, ◌≡◌, refl, arith}
use lzo.Base.{bit_or, bit_or_add, List, ◌++◌, ap}
use lzo.Frag.{ok, write_u16, write_u32, read_u16, read_u32}
use native.Mathlib.Nat.{div-add-mod, mod-lt}

pub read_u16-write_u16 : (v : ℕ) (p : List ℕ) → v < 2 ^ 16 → read_u16 (write_u16 v ++ p) ≡ ok v
read_u16-write_u16 v p h =
    let e : bit_or (v % 2 ^ 8) (v / 2 ^ 8 % 2 ^ 8 * 2 ^ 8) ≡ v =
      omega (arith, bit_or_add 8 (v % 2 ^ 8) (v / 2 ^ 8 % 2 ^ 8) (omega arith)) in
    ap ok e

pub or_bytes :
    (v : ℕ)
    → v < 2 ^ 32
    → bit_or
        (bit_or (bit_or (v % 2 ^ 8) (v / 2 ^ 8 % 2 ^ 8 * 2 ^ 8)) (v / 2 ^ 16 % 2 ^ 8 * 2 ^ 16))
        (v / 2 ^ 24 % 2 ^ 8 * 2 ^ 24)
      ≡ v
or_bytes v h =
    let e₁ : bit_or (v % 2 ^ 8) (v / 2 ^ 8 % 2 ^ 8 * 2 ^ 8) ≡ v % 2 ^ 16 =
      omega (arith, bit_or_add 8 (v % 2 ^ 8) (v / 2 ^ 8 % 2 ^ 8) (omega arith)) in
    let e₂ : bit_or (v % 2 ^ 16) (v / 2 ^ 16 % 2 ^ 8 * 2 ^ 16) ≡ v % 2 ^ 24 =
      omega (arith, bit_or_add 16 (v % 2 ^ 16) (v / 2 ^ 16 % 2 ^ 8) (omega arith)) in
    let e₃ : bit_or (v % 2 ^ 24) (v / 2 ^ 24 % 2 ^ 8 * 2 ^ 24) ≡ v =
      omega (arith, bit_or_add 24 (v % 2 ^ 24) (v / 2 ^ 24 % 2 ^ 8) (omega arith)) in
    rw (e₁, e₂, e₃) refl

pub read_u32-write_u32 : (v : ℕ) (p : List ℕ) → v < 2 ^ 32 → read_u32 (write_u32 v ++ p) ≡ ok v
read_u32-write_u32 v p h = ap ok (or_bytes v h)

-- The number of blocks of `b` that `n` bytes take, with the last one not empty.
pub ceil_bounds :
    (n b : ℕ) → 0 < b → 0 < n → ((n + b - 1) / b * b < n + b) × (n ≤ (n + b - 1) / b * b)
ceil_bounds n b pos some_bytes =
    let d = div-add-mod (n + b - 1) b in
    let m = mod-lt (n + b - 1) pos in (omega (arith, d, m), omega (arith, d, m))
