-- ===== src/Base/Xor.antt =====
-- The laws of `^` at every width, from its lowest digit.
use Prim.Native.Nat.{
  ℕ, zero, suc, ◌+◌, ◌*◌, ◌/◌, ◌%◌, ◌^◌, ◌≤◌, ◌<◌, differ, bit_xor, bit_xor-bitwise,
}
use mathlib.Core.Path.{◌≡◌, refl, ap, ◌∙◌}
use native.Mathlib.Omega.{arith}
use native.Mathlib.Nat.{pow-suc}
use lzo.Base.Bits.{joined_low}

differ_bits : (x y : ℕ) → x < 2 → y < 2 → differ x y ≡ (x + y) % 2
differ_bits zero y h k = omega arith
differ_bits (suc zero) zero h k = omega arith
differ_bits (suc zero) (suc zero) h k = omega arith
differ_bits (suc zero) (suc (suc y)) h k = absurd (omega arith)
differ_bits (suc (suc x)) y h k = absurd (omega arith)

-- The lowest digit of `^`, and the rest.
pub bit_xor_low : (a b : ℕ) → bit_xor a b ≡ bit_xor (a / 2) (b / 2) * 2 + (a + b) % 2
bit_xor_low zero b = omega (arith, bit_xor-bitwise 0 b, bit_xor-bitwise 0 (b / 2))
bit_xor_low (suc a) b = omega (
  arith,
  bit_xor-bitwise (suc a) b,
  bit_xor-bitwise (suc a / 2) (b / 2),
  joined_low (λ y. y) differ a b,
  differ_bits (suc a % 2) (b % 2) (omega arith) (omega arith),
)

bit_xor_half : (a b : ℕ) → bit_xor a b / 2 ≡ bit_xor (a / 2) (b / 2)
bit_xor_half a b = omega (arith, bit_xor_low a b)

bit_xor_comm_below : (n a b : ℕ) → a ≤ n → b ≤ n → bit_xor a b ≡ bit_xor b a
bit_xor_comm_below zero zero zero h k = refl
bit_xor_comm_below zero (suc a) b h k = absurd (omega arith)
bit_xor_comm_below zero zero (suc b) h k = absurd (omega arith)
bit_xor_comm_below (suc n) a b h k = omega (
  arith,
  bit_xor_low a b,
  bit_xor_low b a,
  bit_xor_comm_below n (a / 2) (b / 2) (omega arith) (omega arith),
)

pub bit_xor_comm : (a b : ℕ) → bit_xor a b ≡ bit_xor b a
bit_xor_comm a b = bit_xor_comm_below (a + b) a b (omega arith) (omega arith)

bit_xor_assoc_below :
    (n a b c : ℕ) → a ≤ n → b ≤ n → c ≤ n → bit_xor (bit_xor a b) c ≡ bit_xor a (bit_xor b c)
bit_xor_assoc_below zero zero zero zero h k l = refl
bit_xor_assoc_below zero (suc a) b c h k l = absurd (omega arith)
bit_xor_assoc_below zero zero (suc b) c h k l = absurd (omega arith)
bit_xor_assoc_below zero zero zero (suc c) h k l = absurd (omega arith)
bit_xor_assoc_below (suc n) a b c h k l =
    let halves : bit_xor (bit_xor a b / 2) (c / 2) ≡ bit_xor (a / 2) (bit_xor b c / 2) =
      rw (bit_xor_half a b, bit_xor_half b c)
        (bit_xor_assoc_below n (a / 2) (b / 2) (c / 2) (omega arith) (omega arith) (omega arith)) in
    omega (
      arith,
      bit_xor_low (bit_xor a b) c,
      bit_xor_low a (bit_xor b c),
      bit_xor_low a b,
      bit_xor_low b c,
      halves,
    )

pub bit_xor_assoc : (a b c : ℕ) → bit_xor (bit_xor a b) c ≡ bit_xor a (bit_xor b c)
bit_xor_assoc a b c =
    bit_xor_assoc_below (a + b + c) a b c (omega arith) (omega arith) (omega arith)

pub bit_xor-zero : (a : ℕ) → bit_xor a 0 ≡ a
bit_xor-zero a = bit_xor_comm a 0 ∙ bit_xor-bitwise 0 a

bit_xor_self_below : (n a : ℕ) → a ≤ n → bit_xor a a ≡ 0
bit_xor_self_below zero zero h = refl
bit_xor_self_below zero (suc a) h = absurd (omega arith)
bit_xor_self_below (suc n) a h =
    omega (arith, bit_xor_low a a, bit_xor_self_below n (a / 2) (omega arith))

pub bit_xor_self : (a : ℕ) → bit_xor a a ≡ 0
bit_xor_self a = bit_xor_self_below a a (omega arith)

-- A mask applied twice.
pub bit_xor_twice : (a m : ℕ) → bit_xor (bit_xor a m) m ≡ a
bit_xor_twice a m =
    bit_xor_assoc a m m ∙ ap (λ (t : ℕ). bit_xor a t) (bit_xor_self m) ∙ bit_xor-zero a

-- Numbers of `k` bits stay so.
pub bit_xor_lt : (k a b : ℕ) → a < 2 ^ k → b < 2 ^ k → bit_xor a b < 2 ^ k
bit_xor_lt zero zero zero h h' = omega arith
bit_xor_lt zero (suc a) b h h' = absurd (omega arith)
bit_xor_lt zero zero (suc b) h h' = absurd (omega arith)
bit_xor_lt (suc k) a b h h' =
    let e : 2 ^ suc k ≡ 2 * 2 ^ k = omega (arith, pow-suc 2 k) in
    omega (
      arith,
      e,
      bit_xor_low a b,
      bit_xor_lt k (a / 2) (b / 2) (omega (arith, e)) (omega (arith, e)),
    )

-- A number below `2 ^ k`, with a multiple of `2 ^ k`, gives their sum.
pub bit_xor_add : (k r q : ℕ) → r < 2 ^ k → bit_xor r (q * 2 ^ k) ≡ r + q * 2 ^ k
bit_xor_add zero zero q h = omega (arith, bit_xor-bitwise 0 (q * 1))
bit_xor_add zero (suc r) q h = absurd (omega arith)
bit_xor_add (suc k) r q h =
    let e : q * 2 ^ suc k ≡ 2 * (q * 2 ^ k) = omega (arith, ap (λ (t : ℕ). q * t) (pow-suc 2 k)) in
    let e' : 2 ^ suc k ≡ 2 * 2 ^ k = omega (arith, pow-suc 2 k) in
    rw e (
      let half : 2 * (q * 2 ^ k) / 2 ≡ q * 2 ^ k = omega arith in
      let low = bit_xor_low r (2 * (q * 2 ^ k)) in
      let ih = bit_xor_add k (r / 2) q (omega (arith, e')) in omega (arith, rw half at low, ih))
