-- ===== src/Base/Bits.antt =====
-- `|` and `^` at every width, from the digits that the native operations stand for.
use Prim.Native.Nat.{
  ℕ, zero, suc, ◌+◌, ◌*◌, ◌/◌, ◌%◌, ◌^◌, ◌-◌, ◌≤◌, ◌<◌, min, max, digits, bit_and, bit_or,
  bit_and-bitwise, bit_or-bitwise,
}
use mathlib.Core.Path.{◌≡◌, refl, ap, ◌∙◌}
use native.Mathlib.Nat.{pow-suc, div-add-mod, mod-lt, mul-add-mod_self_left, mod-eq_of_lt}
use native.Mathlib.Omega.{arith}

module _ (z : ℕ → ℕ) (f : ℕ → ℕ → ℕ) where
  abbrev pub joined : ℕ → ℕ → ℕ → ℕ
  joined rounds a b = digits z f rounds a b

  -- The result does not depend on the rounds, if there is one for each digit.
  joined_eq : (a b m n : ℕ) → a ≤ m → a ≤ n → joined m a b ≡ joined n a b
  joined_eq zero b zero zero p q = refl
  joined_eq zero b zero (suc n) p q = refl
  joined_eq zero b (suc m) zero p q = refl
  joined_eq zero b (suc m) (suc n) p q = refl
  joined_eq (suc a) b zero n p q = absurd (omega arith)
  joined_eq (suc a) b (suc m) zero p q = absurd (omega arith)
  joined_eq (suc a) b (suc m) (suc n) p q =
      ap (λ (t : ℕ). t * 2 + f (suc a % 2) (b % 2))
        (joined_eq (suc a / 2) (b / 2) m n (omega arith) (omega arith))

  pub joined_low :
      (a b : ℕ)
      → joined (suc a) (suc a) b
        ≡ joined (suc a / 2) (suc a / 2) (b / 2) * 2 + f (suc a % 2) (b % 2)
  joined_low a b =
      ap (λ (t : ℕ). t * 2 + f (suc a % 2) (b % 2))
        (joined_eq (suc a / 2) (b / 2) a (suc a / 2) (omega arith) (omega arith))

-- The lowest digit of `|`, and the rest.
bit_or_low : (a b : ℕ) → bit_or a b ≡ bit_or (a / 2) (b / 2) * 2 + max (a % 2) (b % 2)
bit_or_low zero b = omega (arith, bit_or-bitwise 0 b, bit_or-bitwise 0 (b / 2))
bit_or_low (suc a) b = omega (
  arith,
  bit_or-bitwise (suc a) b,
  bit_or-bitwise (suc a / 2) (b / 2),
  joined_low (λ y. y) max a b,
)

-- A number below `2 ^ k`, joined with a multiple of `2 ^ k`, is their sum.
pub bit_or_add : (k r q : ℕ) → r < 2 ^ k → bit_or r (q * 2 ^ k) ≡ r + q * 2 ^ k
bit_or_add zero zero q h = omega (arith, bit_or-bitwise 0 (q * 1))
bit_or_add zero (suc r) q h = absurd (omega arith)
bit_or_add (suc k) r q h =
    let e : q * 2 ^ suc k ≡ 2 * (q * 2 ^ k) = omega (arith, ap (λ (t : ℕ). q * t) (pow-suc 2 k)) in
    let e' : 2 ^ suc k ≡ 2 * 2 ^ k = omega (arith, pow-suc 2 k) in
    rw e (
      let half : 2 * (q * 2 ^ k) / 2 ≡ q * 2 ^ k = omega arith in
      let even : 2 * (q * 2 ^ k) % 2 ≡ 0 = omega arith in
      let low = bit_or_low r (2 * (q * 2 ^ k)) in
      let ih = bit_or_add k (r / 2) q (omega (arith, e')) in
      omega (arith, rw (half, even) at low, ih))

bit_or_comm_below : (n a b : ℕ) → a ≤ n → b ≤ n → bit_or a b ≡ bit_or b a
bit_or_comm_below zero zero zero h k = refl
bit_or_comm_below zero (suc a) b h k = absurd (omega arith)
bit_or_comm_below zero zero (suc b) h k = absurd (omega arith)
bit_or_comm_below (suc n) a b h k = omega (
  arith,
  bit_or_low a b,
  bit_or_low b a,
  bit_or_comm_below n (a / 2) (b / 2) (omega arith) (omega arith),
)

pub bit_or_comm : (a b : ℕ) → bit_or a b ≡ bit_or b a
bit_or_comm a b = bit_or_comm_below (a + b) a b (omega arith) (omega arith)

-- The lowest digit of `&`, and the rest.
bit_and_low : (a b : ℕ) → bit_and a b ≡ bit_and (a / 2) (b / 2) * 2 + min (a % 2) (b % 2)
bit_and_low zero b = omega (arith, bit_and-bitwise 0 b, bit_and-bitwise 0 (b / 2))
bit_and_low (suc a) b = omega (
  arith,
  bit_and-bitwise (suc a) b,
  bit_and-bitwise (suc a / 2) (b / 2),
  joined_low (λ y. 0) min a b,
)

bit_and_le_below : (n a b : ℕ) → a ≤ n → bit_and a b ≤ b
bit_and_le_below zero zero b h = omega (arith, bit_and-bitwise 0 b)
bit_and_le_below zero (suc a) b h = absurd (omega arith)
bit_and_le_below (suc n) a b h =
    omega (arith, bit_and_low a b, bit_and_le_below n (a / 2) (b / 2) (omega arith))

pub bit_and_le : (a b : ℕ) → bit_and a b ≤ b
bit_and_le a b = bit_and_le_below a a b (omega arith)

-- The remainder by `2 * p` from that of the half by `p`.
mod_double : (x p : ℕ) → 0 < p → x % (2 * p) ≡ x / 2 % p * 2 + x % 2
mod_double x p pos =
    let d = div-add-mod (x / 2) p in
    let low = x / 2 % p * 2 + x % 2 in
    let e : x ≡ 2 * p * (x / 2 / p) + low = omega (arith, d) in
    let bound : low < 2 * p = omega (arith, mod-lt (x / 2) pos) in
    ap (λ (t : ℕ). t % (2 * p)) e
    ∙ mul-add-mod_self_left (2 * p) (x / 2 / p) low
    ∙ mod-eq_of_lt bound

pub pow-pos : (k : ℕ) → 0 < 2 ^ k
pow-pos zero = omega arith
pow-pos (suc k) = omega (arith, pow-pos k, pow-suc 2 k)

-- `&` with a mask of the lowest `k` bits.
pub bit_and_mask : (k x : ℕ) → bit_and x (2 ^ k - 1) ≡ x % 2 ^ k
bit_and_mask zero x = omega (arith, bit_and_le x 0)
bit_and_mask (suc k) x =
    let pos = pow-pos k in
    let e' : 2 ^ suc k ≡ 2 * 2 ^ k = omega (arith, pow-suc 2 k) in
    let half : (2 ^ suc k - 1) / 2 ≡ 2 ^ k - 1 = omega (arith, e', pos) in
    let odd : (2 ^ suc k - 1) % 2 ≡ 1 = omega (arith, e', pos) in
    let low = bit_and_low x (2 ^ suc k - 1) in
    let split : x % 2 ^ suc k ≡ x / 2 % 2 ^ k * 2 + x % 2 = rw e' (mod_double x (2 ^ k) pos) in
    omega (arith, rw (half, odd) at low, bit_and_mask k (x / 2), split)
