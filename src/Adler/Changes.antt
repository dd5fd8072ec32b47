-- ===== src/Adler/Changes.antt =====
-- src/lzo_util.c: which changes of a buffer lzo_adler32 detects.
use lzo.Base.{ℕ, ◌+◌, ◌*◌, ◌/◌, ◌%◌, ◌^◌, ◌<◌, ◌≡◌, ◌≢◌, refl, arith, ◌∙◌, ap, sym}
use lzo.Base.{bit_and, some, List, [], ◌∷◌, ◌++◌, All, IsByte, length, length-append}
use lzo.Lzo1x.Encoder.Bytes.{All-append}
use mathlib.Core.Path.{ap₂}
use mathlib.Core.Option.{some-injective}
use lzo.Adler.{Pair, adler32}
use lzo.Adler.Sums.{plain}
use lzo.Adler.Laws.{adler32-plain}

plain-append : (s : Pair) (xs ys : List ℕ) → plain s (xs ++ ys) ≡ plain (plain s xs) ys
unfolding plain
plain-append s [] ys = refl
plain-append s (x ∷ xs) ys = plain-append (s.0 + x, s.1 + (s.0 + x)) xs ys

total : List ℕ → ℕ
total [] = 0
total (b ∷ buf) = b + total buf

plain-total : (s : Pair) (buf : List ℕ) → (plain s buf).0 ≡ s.0 + total buf
unfolding plain total
plain-total s [] = omega arith
plain-total s (b ∷ buf) = omega (arith, plain-total (s.0 + b, s.1 + (s.0 + b)) buf)

total-append : (xs ys : List ℕ) → total (xs ++ ys) ≡ total xs + total ys
unfolding total
total-append [] ys = omega arith
total-append (x ∷ xs) ys = omega (arith, total-append xs ys)

-- What more in the second sum comes to.
plain-more : (x y d : ℕ) (buf : List ℕ) → (plain (x, y + d) buf).1 ≡ (plain (x, y) buf).1 + d
unfolding plain
plain-more x y d [] = refl
plain-more x y d (b ∷ buf) =
    let e : y + d + (x + b) ≡ y + (x + b) + d = omega arith in
    ap (λ (z : ℕ). (plain (x + b, z) buf).1) e ∙ plain-more (x + b) (y + (x + b)) d buf

-- Equal checksums of buffers that are not empty mean equal sums modulo 65521.
adler32-sums :
    (c : ℕ) (xs ys : List ℕ)
    → All IsByte xs
    → All IsByte ys
    → xs ≢ []
    → ys ≢ []
    → adler32 c (some xs) ≡ adler32 c (some ys)
    → (s : Pair) × ((plain s xs).0 % 65521 ≡ (plain s ys).0 % 65521)
      × ((plain s xs).1 % 65521 ≡ (plain s ys).1 % 65521)
adler32-sums c [] ys b b' some_x some_y e = absurd (some_x refl)
adler32-sums c (x ∷ xs) [] b b' some_x some_y e = absurd (some_y refl)
adler32-sums c (x ∷ xs) (y ∷ ys) b b' some_x some_y e =
    let s : Pair = (bit_and c 0xffff, bit_and (c / 2 ^ 16) 0xffff) in
    let p = plain s (x ∷ xs) in
    let q = plain s (y ∷ ys) in
    let w : p.1 % 65521 * 2 ^ 16 + p.0 % 65521 ≡ q.1 % 65521 * 2 ^ 16 + q.0 % 65521 =
      some-injective _ _ (sym (adler32-plain c x xs b) ∙ e ∙ adler32-plain c y ys b') in
    (s, omega (arith, w), omega (arith, w))

not_empty : (front : List ℕ) (b : ℕ) (back : List ℕ) → front ++ (b ∷ back) ≢ []
not_empty front b back e = absurd (omega (arith, ap length e, length-append front (b ∷ back)))

-- A change of one byte is always detected: two buffers of bytes that differ in one byte have different
-- checksums.
pub adler32-one_byte :
    (c : ℕ) (front : List ℕ) (a b : ℕ) (back : List ℕ)
    → All IsByte front
    → a < 256
    → b < 256
    → All IsByte back
    → a ≢ b
    → adler32 c (some (front ++ (a ∷ back))) ≢ adler32 c (some (front ++ (b ∷ back)))
unfolding plain total
adler32-one_byte c front a b back f ha hb k differ e =
    let (s, low, high) =
      adler32-sums c (front ++ (a ∷ back)) (front ++ (b ∷ back))
        (All-append front (a ∷ back) f (ha, k)) (All-append front (b ∷ back) f (hb, k))
        (not_empty front a back) (not_empty front b back) e in
    differ (
      omega (
        arith,
        low,
        plain-total s (front ++ (a ∷ back)),
        plain-total s (front ++ (b ∷ back)),
        total-append front (a ∷ back),
        total-append front (b ∷ back),
      ))

-- The second sum, of which the first of two bytes has one more part than the second.
swapped :
    (x y a b : ℕ) (back : List ℕ)
    → (plain (x, y) (a ∷ b ∷ back)).1 ≡ (plain (x + (a + b), y + x + x + (a + b)) back).1 + a
unfolding plain
swapped x y a b back =
    let e : y + (x + a) + (x + a + b) ≡ y + x + x + (a + b) + a = omega arith in
    let f : x + a + b ≡ x + (a + b) = omega arith in
    ap₂ (λ (t z : ℕ). (plain (t, z) back).1) f e
    ∙ plain-more (x + (a + b)) (y + x + x + (a + b)) a back

-- An exchange of two different bytes that stand side by side is always detected: the two buffers of bytes
-- have different checksums.
pub adler32-swap :
    (c : ℕ) (front : List ℕ) (a b : ℕ) (back : List ℕ)
    → All IsByte front
    → a < 256
    → b < 256
    → All IsByte back
    → a ≢ b
    → adler32 c (some (front ++ (a ∷ b ∷ back))) ≢ adler32 c (some (front ++ (b ∷ a ∷ back)))
unfolding plain
adler32-swap c front a b back f ha hb k differ e =
    let xs = front ++ (a ∷ b ∷ back) in
    let ys = front ++ (b ∷ a ∷ back) in
    let (s, low, high) =
      adler32-sums c xs ys (All-append front (a ∷ b ∷ back) f (ha, (hb, k)))
        (All-append front (b ∷ a ∷ back) f (hb, (ha, k))) (not_empty front a (b ∷ back))
        (not_empty front b (a ∷ back)) e in
    let p = plain s front in
    let either : b + a ≡ a + b = omega arith in
    differ (
      omega (
        arith,
        high,
        ap (λ (q : Pair). q.1) (plain-append s front (a ∷ b ∷ back)),
        ap (λ (q : Pair). q.1) (plain-append s front (b ∷ a ∷ back)),
        swapped p.0 p.1 a b back,
        swapped p.0 p.1 b a back,
        ap (λ (d : ℕ). (plain (p.0 + d, p.1 + p.0 + p.0 + d) back).1) either,
      ))
