-- ===== src/Adler/Sums.antt =====
-- src/lzo_util.c: the sums of lzo_adler32 over one block, which do not wrap.
use lzo.Base.{ℕ, zero, suc, ◌+◌, ◌*◌, ◌^◌, ◌≤◌, ◌<◌, ◌≡◌, refl, arith, ◌∙◌, ap, u32}
use lzo.Base.{List, [], ◌∷◌, length, All, IsByte}
use lzo.Checksum.Unrolled.{added}
use lzo.Adler.{Pair, add_byte, nmax}
use native.Mathlib.Nat.{mul-le-mul_left}

-- The sums without wrap-around.
unfoldable pub plain : Pair → List ℕ → Pair
plain s [] = s
plain s (b ∷ buf) = plain (s.0 + b, s.1 + (s.0 + b)) buf

-- `k` bytes more cannot make the sums wrap.
unfoldable pub Room : ℕ → Pair → Type 0
Room k s = 2 * s.1 + 2 * (k * s.0) + 255 * (k * (k + 1)) < 2 ^ 33

Room-suc : (k b : ℕ) (s : Pair) → b < 256 → Room (suc k) s → Room k (s.0 + b, s.1 + (s.0 + b))
unfolding Room
Room-suc k b s h r = let le : b ≤ 255 = omega arith in omega (arith, mul-le-mul_left k le)

pub Room-nmax : (k s1 s2 : ℕ) → k ≤ nmax → s1 < 2 ^ 16 → s2 < 2 ^ 16 → Room k (s1, s2)
unfolding Room
Room-nmax k s1 s2 h a b =
    let le : s1 ≤ 65535 = omega arith in omega (arith, mul-le-mul_left k le, mul-le-mul_left k h)

add_byte-Room :
    (k b : ℕ) (s : Pair) → Room (suc k) s → b < 256 → add_byte s b ≡ (s.0 + b, s.1 + (s.0 + b))
unfolding Room
add_byte-Room k b s r h =
    let le : b ≤ 255 = omega arith in
    let e : u32 (s.0 + b) ≡ s.0 + b = omega (arith, mul-le-mul_left k le) in
    let e' : u32 (s.1 + (s.0 + b)) ≡ s.1 + (s.0 + b) = omega (arith, mul-le-mul_left k le) in
    rw (e, e') refl

pub added-plain :
    (k : ℕ) (s : Pair) (buf : List ℕ)
    → Room k s
    → All IsByte buf
    → length buf ≤ k
    → added add_byte s buf ≡ plain s buf
unfolding added plain
added-plain k s [] r bytes h = refl
added-plain zero s (b ∷ buf) r bytes h = absurd (omega arith)
added-plain (suc k) s (b ∷ buf) r bytes h =
    ap (λ t. added add_byte t buf) (add_byte-Room k b s r bytes.0)
    ∙ added-plain k (s.0 + b, s.1 + (s.0 + b)) buf (Room-suc k b s bytes.0 r) bytes.1 (omega arith)
