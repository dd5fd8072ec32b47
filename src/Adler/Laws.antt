-- ===== src/Adler/Laws.antt =====
-- src/lzo_util.c: lzo_adler32 against sums over the whole buffer that never wrap.
use lzo.Lzo1x.Encoder.Bytes.{All-append, All-take, All-drop}
use lzo.Base.{ℕ, zero, suc, ◌+◌, ◌-◌, ◌*◌, ◌/◌, ◌%◌, ◌^◌, ◌≤◌, ◌<◌, ◌≡◌, refl, arith, ◌∙◌, ap, sym}
use lzo.Base.{bit_and, bit_or, u32, bit_and_le, bit_or_comm, bit_or_add, bit_and_mask}
use lzo.Base.{ltb, if◌then◌else◌, some, List, [], ◌∷◌, ◌++◌, length, take, drop, All, IsByte}
use lzo.Base.{length-drop, length-take}
use lzo.Checksum.Unrolled.{by_sixteen, by_sixteen-added, ◌>>=◌}
use lzo.Adler.{Pair, add_byte, blocks, adler32, base, nmax}
use mathlib.Core.Option.{some-injective}
use lzo.Adler.Sums.{plain, Room-nmax, added-plain}

-- Both sums, reduced.
abbrev reduced : Pair → Pair
reduced s = (s.0 % base, s.1 % base)

plain-reduced : (s : Pair) (buf : List ℕ) → reduced (plain (reduced s) buf) ≡ reduced (plain s buf)
unfolding plain
plain-reduced s [] =
    let e : s.0 % base % base ≡ s.0 % base = omega arith in
    let e' : s.1 % base % base ≡ s.1 % base = omega arith in rw (e, e') refl
plain-reduced s (b ∷ buf) =
    let low : Pair = (s.0 % base + b, s.1 % base + (s.0 % base + b)) in
    let high : Pair = (s.0 + b, s.1 + (s.0 + b)) in
    let e : (s.0 % base + b) % base ≡ (s.0 + b) % base = omega arith in
    let e' : (s.1 % base + (s.0 % base + b)) % base ≡ (s.1 + (s.0 + b)) % base = omega arith in
    let same : reduced low ≡ reduced high = rw (e, e') refl in
    sym (plain-reduced low buf) ∙ ap (λ t. reduced (plain t buf)) same ∙ plain-reduced high buf

plain-take :
    (k : ℕ) (s : Pair) (buf : List ℕ) → plain (plain s (take k buf)) (drop k buf) ≡ plain s buf
unfolding plain
plain-take zero s buf = refl
plain-take (suc k) s [] = refl
plain-take (suc k) s (b ∷ buf) = plain-take k (s.0 + b, s.1 + (s.0 + b)) buf

-- The sums that the loop over the blocks leaves.
result : Pair → List ℕ → Pair
result s [] = s
result s (b ∷ buf) = reduced (plain s (b ∷ buf))

result-reduced : (s : Pair) (buf : List ℕ) → result (reduced s) buf ≡ reduced (plain s buf)
unfolding result plain
result-reduced s [] = refl
result-reduced s (b ∷ buf) = plain-reduced s (b ∷ buf)

blocks-result :
    (fuel : ℕ) (s : Pair) (buf : List ℕ)
    → length buf < fuel
    → s.0 < 2 ^ 16
    → s.1 < 2 ^ 16
    → All IsByte buf
    → blocks fuel (length buf) (s, buf) ≡ some (result s buf)
unfolding blocks result
blocks-result zero s buf h l l' bytes = absurd (omega arith)
blocks-result (suc fuel) s [] h l l' bytes = refl
blocks-result (suc fuel) s (b ∷ rest) h l l' bytes =
    let buf = b ∷ rest in
    let k = if ltb (length buf) nmax then length buf else nmax in
    let block : k ≤ nmax = ground arith in
    let within : k ≤ length buf = ground arith in
    let progress : 0 < k = ground arith in
    let sums = plain s (take k buf) in
    let fits : length (take k buf) ≤ k = omega (arith, length-take k buf) in
    let one_block : by_sixteen add_byte (k + 1) k (s, buf) ≡ some (sums, drop k buf) =
      by_sixteen-added add_byte k s buf within
      ∙ ap (λ t. some (t, drop k buf))
          (added-plain k s (take k buf) (Room-nmax k s.0 s.1 block l l') (All-take k buf bytes)
            fits) in
    let left : length (drop k buf) ≡ length buf - k = length-drop k buf in
    let others : blocks fuel (length (drop k buf)) (reduced sums, drop k buf)
        ≡ some (result (reduced sums) (drop k buf)) =
      blocks-result fuel (reduced sums) (drop k buf) (omega (arith, left)) (omega arith)
        (omega arith) (All-drop k buf bytes) in
    let last : result (reduced sums) (drop k buf) ≡ reduced (plain s buf) =
      result-reduced sums (drop k buf) ∙ ap reduced (plain-take k s buf) in
    ap (λ o. o >>= λ q. blocks fuel (length buf - k) (reduced q.0, q.1)) one_block
    ∙ ap (λ n. blocks fuel n (reduced sums, drop k buf)) (sym left)
    ∙ others
    ∙ ap some last

-- The two halves of a checksum.
abbrev halves : ℕ → Pair
halves adler = (bit_and adler 0xffff, bit_and (adler / 2 ^ 16) 0xffff)

result-below :
    (s : Pair) (buf : List ℕ)
    → s.0 < 2 ^ 16
    → s.1 < 2 ^ 16
    → ((result s buf).0 < 2 ^ 16) × ((result s buf).1 < 2 ^ 16)
unfolding result
result-below s [] h h' = (h, h')
result-below s (b ∷ buf) h h' = (omega arith, omega arith)

adler32-result :
    (adler : ℕ) (buf : List ℕ)
    → All IsByte buf
    → adler32 adler (some buf)
      ≡ some ((result (halves adler) buf).1 * 2 ^ 16 + (result (halves adler) buf).0)
unfolding adler32
adler32-result adler buf bytes =
    let s = halves adler in
    let sums = result s buf in
    let h : s.0 < 2 ^ 16 = omega (arith, bit_and_le adler 0xffff) in
    let h' : s.1 < 2 ^ 16 = omega (arith, bit_and_le (adler / 2 ^ 16) 0xffff) in
    let (l, l') = result-below s buf h h' in
    let loop = blocks-result (length buf + 1) s buf (omega arith) h h' bytes in
    let shifted : u32 (sums.1 * 2 ^ 16) ≡ sums.1 * 2 ^ 16 = omega (arith, l') in
    let joined : bit_or (sums.1 * 2 ^ 16) sums.0 ≡ sums.1 * 2 ^ 16 + sums.0 =
      omega (arith, bit_or_comm (sums.1 * 2 ^ 16) sums.0, bit_or_add 16 sums.0 sums.1 l) in
    ap (λ o. o >>= λ t. some (bit_or (u32 (t.1 * 2 ^ 16)) t.0)) loop
    ∙ ap some (ap (λ x. bit_or x sums.0) shifted ∙ joined)

-- On a buffer of at least one byte, and for any checksum so far, no 32-bit sum of lzo_adler32 wraps
-- around: the result is made of the sums over the whole buffer in unbounded numbers, each modulo
-- 65521, the second in the upper 16 bits.
pub adler32-plain :
    (adler b : ℕ) (rest : List ℕ)
    → All IsByte (b ∷ rest)
    → adler32 adler (some (b ∷ rest))
      ≡ some (
          let s = plain (bit_and adler 0xffff, bit_and (adler / 2 ^ 16) 0xffff) (b ∷ rest) in
          s.1 % 65521 * 2 ^ 16 + s.0 % 65521)
unfolding result
adler32-plain adler b rest bytes = adler32-result adler (b ∷ rest) bytes

halves-joined : (s : Pair) → s.0 < 2 ^ 16 → s.1 < 2 ^ 16 → halves (s.1 * 2 ^ 16 + s.0) ≡ s
halves-joined s h h' =
    let e : bit_and (s.1 * 2 ^ 16 + s.0) 0xffff ≡ s.0 =
      omega (arith, bit_and_mask 16 (s.1 * 2 ^ 16 + s.0)) in
    let e' : bit_and ((s.1 * 2 ^ 16 + s.0) / 2 ^ 16) 0xffff ≡ s.1 =
      omega (arith, bit_and_mask 16 ((s.1 * 2 ^ 16 + s.0) / 2 ^ 16)) in
    rw (e, e') refl

plain-append : (s : Pair) (xs ys : List ℕ) → plain s (xs ++ ys) ≡ plain (plain s xs) ys
unfolding plain
plain-append s [] ys = refl
plain-append s (x ∷ xs) ys = plain-append (s.0 + x, s.1 + (s.0 + x)) xs ys

result-append : (s : Pair) (xs ys : List ℕ) → result s (xs ++ ys) ≡ result (result s xs) ys
unfolding result
result-append s [] ys = refl
result-append s (x ∷ xs) ys =
    ap reduced (plain-append s (x ∷ xs) ys) ∙ sym (result-reduced (plain s (x ∷ xs)) ys)

-- A buffer may be checked in two parts: where lzo_adler32 gives `c` for the first part, it gives for
-- the second part, from `c` on, what it gives for the whole.
pub adler32-append :
    (adler c : ℕ) (xs ys : List ℕ)
    → All IsByte xs
    → All IsByte ys
    → adler32 adler (some xs) ≡ some c
    → adler32 c (some ys) ≡ adler32 adler (some (xs ++ ys))
adler32-append adler c xs ys bytes bytes' e =
    let s = halves adler in
    let (l, l') =
      result-below s xs (omega (arith, bit_and_le adler 0xffff))
        (omega (arith, bit_and_le (adler / 2 ^ 16) 0xffff)) in
    let c_eq : c ≡ (result s xs).1 * 2 ^ 16 + (result s xs).0 =
      some-injective _ _ (sym e ∙ adler32-result adler xs bytes) in
    let from : halves c ≡ result s xs = ap halves c_eq ∙ halves-joined (result s xs) l l' in
    let same : result (halves c) ys ≡ result s (xs ++ ys) =
      ap (λ t. result t ys) from ∙ sym (result-append s xs ys) in
    adler32-result c ys bytes'
    ∙ ap (λ t. some (t.1 * 2 ^ 16 + t.0)) same
    ∙ sym (adler32-result adler (xs ++ ys) (All-append xs ys bytes bytes'))
