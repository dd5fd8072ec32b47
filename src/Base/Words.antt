-- ===== src/Base/Words.antt =====
-- Machine words as native numbers, and `|` and `&` on bytes as arithmetic, by tables.
use Prim.Native.Nat.{ℕ, zero, suc, ◌+◌, ◌*◌, ◌/◌, ◌%◌, ◌^◌, ◌<◌, bit_and, bit_or}
use mathlib.Core.Path.{◌≡◌, refl}
use mathlib.Core.Bool.{Bool, true, ◌&&◌}
use native.Mathlib.Omega.{arith}
use lzo.Base.Tests.{◌==◌}

-- Casts to `unsigned char`, `lzo_uint16_t`, `lzo_uint32_t` and the 64-bit `lzo_uint`.
abbrev pub u8 : ℕ → ℕ
u8 n = n % 2 ^ 8

abbrev pub u16 : ℕ → ℕ
u16 n = n % 2 ^ 16

abbrev pub u32 : ℕ → ℕ
u32 n = n % 2 ^ 32

abbrev pub u64 : ℕ → ℕ
u64 n = n % 2 ^ 64

abbrev pub IsByte : ℕ → Type 0
IsByte b = b < 256

unfoldable pub all_below : ℕ → (ℕ → Bool) → Bool
all_below zero p = true
all_below (suc n) p = p n && all_below n p

pub all_below→eq : (n : ℕ) (p : ℕ → Bool) (x : ℕ) → all_below n p ≡ true → x < n → p x ≡ true
unfolding all_below
all_below→eq zero p x h lt = absurd (omega arith)
all_below→eq (suc n) p x h lt = ground (arith, all_below→eq n p x)

module _ (f g : ℕ → ℕ) where
  -- Two functions that agree on all entries of a table agree below its size.
  pub table_eq : (n : ℕ) → all_below n (λ x. f x == g x) ≡ true → (x : ℕ) → x < n → f x ≡ g x
  table_eq n h x lt = ground (arith, all_below→eq n (λ x. f x == g x) x h lt)

-- `|` of a multiple of 4, 8, 16 or 32 with a number below it, in a byte, is a sum.
bit_or_table4 : (x : ℕ) → x < 256 → bit_or (x / 4 * 4) (x % 4) ≡ x
unfolding all_below
bit_or_table4 = table_eq _ _ 256 refl

bit_or_table8 : (x : ℕ) → x < 256 → bit_or (x / 8 * 8) (x % 8) ≡ x
unfolding all_below
bit_or_table8 = table_eq _ _ 256 refl

bit_or_table16 : (x : ℕ) → x < 256 → bit_or (x / 16 * 16) (x % 16) ≡ x
unfolding all_below
bit_or_table16 = table_eq _ _ 256 refl

bit_or_table32 : (x : ℕ) → x < 256 → bit_or (x / 32 * 32) (x % 32) ≡ x
unfolding all_below
bit_or_table32 = table_eq _ _ 256 refl

pub bit_or_add4 : (a r : ℕ) → a % 4 ≡ 0 → r < 4 → a < 256 → bit_or a r ≡ a + r
bit_or_add4 a r h k l =
    let e : (a + r) / 4 * 4 ≡ a = omega arith in
    let e' : (a + r) % 4 ≡ r = omega arith in rw (e, e') at (bit_or_table4 (a + r) (omega arith))

pub bit_or_add8 : (a r : ℕ) → a % 8 ≡ 0 → r < 8 → a < 256 → bit_or a r ≡ a + r
bit_or_add8 a r h k l =
    let e : (a + r) / 8 * 8 ≡ a = omega arith in
    let e' : (a + r) % 8 ≡ r = omega arith in rw (e, e') at (bit_or_table8 (a + r) (omega arith))

pub bit_or_add16 : (a r : ℕ) → a % 16 ≡ 0 → r < 16 → a < 256 → bit_or a r ≡ a + r
bit_or_add16 a r h k l =
    let e : (a + r) / 16 * 16 ≡ a = omega arith in
    let e' : (a + r) % 16 ≡ r = omega arith in rw (e, e') at (bit_or_table16 (a + r) (omega arith))

pub bit_or_add32 : (a r : ℕ) → a % 32 ≡ 0 → r < 32 → a < 256 → bit_or a r ≡ a + r
bit_or_add32 a r h k l =
    let e : (a + r) / 32 * 32 ≡ a = omega arith in
    let e' : (a + r) % 32 ≡ r = omega arith in rw (e, e') at (bit_or_table32 (a + r) (omega arith))

-- The bit with value 8.
pub bit_and_eight : (x : ℕ) → x < 32 → bit_and x 8 ≡ x / 8 % 2 * 8
unfolding all_below
bit_and_eight = table_eq _ _ 32 refl
