-- ===== src/Crc/Burst.antt =====
-- src/lzo_crc.c: which changes of a buffer lzo_crc32 detects.
use lzo.Base.{ℕ, zero, suc, ◌+◌, ◌*◌, ◌/◌, ◌%◌, ◌^◌, ◌≤◌, ◌<◌, ◌≡◌, ◌≢◌, refl, arith, ◌∙◌, ap, sym}
use lzo.Base.{
  bit_and, bit_xor, bit_xor_comm, bit_xor_assoc, bit_xor_lt, bit_xor_add, bit_xor_twice,
  bit_xor-zero,
}
use lzo.Base.{◌==◌, Bool-cases, inl, inr, some, List, [], ◌∷◌, ◌++◌, All, IsByte, length}
use lzo.Lzo1x.Encoder.Bytes.{All-append}
use mathlib.Core.Option.{some-injective}
use mathlib.Core.Path.{ap₂}
use lzo.Crc.{crc32}
use lzo.Crc.Bitwise.{
  shift, shifts, shift-lt, shifts-lt, shifts-xor, bitwise_byte, register, register-append,
  register-lt,
}
use lzo.Crc.Laws.{crc32-register, complement-lt}

bit_xor-injective : (a b m : ℕ) → bit_xor a m ≡ bit_xor b m → a ≡ b
bit_xor-injective a b m e =
    sym (bit_xor_twice a m) ∙ ap (λ (t : ℕ). bit_xor t m) e ∙ bit_xor_twice b m

-- The highest bit tells whether a one was shifted out.
shifts_apart : (r s : ℕ) → r < 2 ^ 32 → s < 2 ^ 32 → r / 2 ≡ bit_xor (s / 2) 0xedb88320 → ⊥
shifts_apart r s h k e =
    let p : bit_xor (r / 2) (s / 2) ≡ 0xedb88320 =
      ap (λ (t : ℕ). bit_xor t (s / 2)) (e ∙ bit_xor_comm (s / 2) 0xedb88320)
      ∙ bit_xor_twice 0xedb88320 (s / 2) in
    absurd (omega (arith, p, bit_xor_lt 31 (r / 2) (s / 2) (omega arith) (omega arith)))

shift-injective : (r s : ℕ) → r < 2 ^ 32 → s < 2 ^ 32 → shift r ≡ shift s → r ≡ s
shift-injective r s h k e = elim (Bool-cases (r % 2 == 0)) [
  | inl r_even ↦ elim (Bool-cases (s % 2 == 0)) [
    | inl s_even ↦ let half : r / 2 ≡ s / 2 = rw s_even at (rw r_even at e) in ground (arith, half)
    | inr s_odd ↦ absurd (shifts_apart r s h k (rw s_odd at (rw r_even at e)))
  ]
  | inr r_odd ↦ elim (Bool-cases (s % 2 == 0)) [
    | inl s_even ↦ absurd (shifts_apart s r k h (sym (rw s_even at (rw r_odd at e))))
    | inr s_odd ↦
        let half = bit_xor-injective (r / 2) (s / 2) 0xedb88320 (rw s_odd at (rw r_odd at e)) in
        ground (arith, half)
  ]
]

shifts-injective : (k r s : ℕ) → r < 2 ^ 32 → s < 2 ^ 32 → shifts k r ≡ shifts k s → r ≡ s
unfolding shifts
shifts-injective zero r s h g e = e
shifts-injective (suc k) r s h g e =
    shift-injective r s h g (shifts-injective k (shift r) (shift s) (shift-lt r h) (shift-lt s g) e)

register-injective :
    (r s : ℕ) (buf : List ℕ)
    → All IsByte buf
    → r < 2 ^ 32
    → s < 2 ^ 32
    → register r buf ≡ register s buf
    → r ≡ s
unfolding register
register-injective r s [] bytes h k e = e
register-injective r s (b ∷ buf) bytes h k e =
    let r' = bit_xor_lt 32 r b h (omega (arith, bytes.0)) in
    let s' = bit_xor_lt 32 s b k (omega (arith, bytes.0)) in
    bit_xor-injective r s b (
      shifts-injective 8 (bit_xor r b) (bit_xor s b) r' s' (
        register-injective (bitwise_byte r b) (bitwise_byte s b) buf bytes.1
          (shifts-lt 8 (bit_xor r b) r') (shifts-lt 8 (bit_xor s b) s') e))

-- The buffer as one number, the first byte lowest.
unfoldable pub value : List ℕ → ℕ
value [] = 0
value (b ∷ buf) = b + value buf * 2 ^ 8

shifts-add : (j k r : ℕ) → shifts (j + k) r ≡ shifts k (shifts j r)
unfolding shifts
shifts-add zero k r = let e : 0 + k ≡ k = omega arith in ap (λ (n : ℕ). shifts n r) e
shifts-add (suc j) k r =
    let e : suc j + k ≡ suc (j + k) = omega arith in rw e (shifts-add j k (shift r))

-- The register over a buffer is the register with all of the buffer put in at once, shifted.
register-shifts :
    (r : ℕ) (buf : List ℕ)
    → All IsByte buf
    → register r buf ≡ shifts (length buf * 8) (bit_xor r (value buf))
unfolding register value shifts
register-shifts r [] bytes = sym (bit_xor-zero r)
register-shifts r (b ∷ buf) bytes =
    let k = length buf * 8 in
    let v = value buf in
    let whole : bit_xor (bit_xor r b) (v * 2 ^ 8) ≡ bit_xor r (b + v * 2 ^ 8) =
      bit_xor_assoc r b (v * 2 ^ 8)
      ∙ ap (λ (t : ℕ). bit_xor r t) (bit_xor_add 8 b v (omega (arith, bytes.0))) in
    let bits : suc (length buf) * 8 ≡ 8 + k = omega arith in
    register-shifts (bitwise_byte r b) buf bytes.1
    ∙ ap (shifts k) (sym (shifts-xor 8 (bit_xor r b) v) ∙ ap (shifts 8) whole)
    ∙ rw bits (sym (shifts-add 8 k (bit_xor r (b + v * 2 ^ 8))))

value-lt : (buf : List ℕ) → All IsByte buf → length buf ≤ 4 → value buf < 2 ^ 32
unfolding value
value-lt [] bytes h = omega arith
value-lt (a ∷ []) bytes h = omega (arith, bytes)
value-lt (a ∷ b ∷ []) bytes h = omega (arith, bytes)
value-lt (a ∷ b ∷ c ∷ []) bytes h = omega (arith, bytes)
value-lt (a ∷ b ∷ c ∷ d ∷ []) bytes h = omega (arith, bytes)
value-lt (a ∷ b ∷ c ∷ d ∷ e ∷ buf) bytes h = absurd (omega arith)

value-injective :
    (xs ys : List ℕ)
    → All IsByte xs
    → All IsByte ys
    → length xs ≡ length ys
    → value xs ≡ value ys
    → xs ≡ ys
unfolding value
value-injective [] [] b b' l e = refl
value-injective [] (y ∷ ys) b b' l e = absurd (omega arith)
value-injective (x ∷ xs) [] b b' l e = absurd (omega arith)
value-injective (x ∷ xs) (y ∷ ys) b b' l e =
    ap₂ (◌∷◌) (omega arith) (value-injective xs ys b.1 b'.1 (omega arith) (omega arith))

register-burst :
    (r : ℕ) (xs ys : List ℕ)
    → r < 2 ^ 32
    → All IsByte xs
    → All IsByte ys
    → length xs ≡ length ys
    → length xs ≤ 4
    → register r xs ≡ register r ys
    → xs ≡ ys
register-burst r xs ys h b b' l few e =
    let lt = bit_xor_lt 32 r (value xs) h (value-lt xs b few) in
    let lt' = bit_xor_lt 32 r (value ys) h (value-lt ys b' (omega arith)) in
    let same : shifts (length xs * 8) (bit_xor r (value xs))
        ≡ shifts (length xs * 8) (bit_xor r (value ys)) =
      sym (register-shifts r xs b) ∙ e ∙ rw l (register-shifts r ys b') in
    let put = shifts-injective (length xs * 8) _ _ lt lt' same in
    value-injective xs ys b b' l (
      bit_xor-injective (value xs) (value ys) r
        (bit_xor_comm (value xs) r ∙ put ∙ bit_xor_comm r (value ys)))

-- A change within four bytes that stand together is always detected: two buffers of bytes that differ
-- there, and nowhere else, have different checksums.
pub crc32-burst :
    (c : ℕ) (front xs ys back : List ℕ)
    → All IsByte front
    → All IsByte xs
    → All IsByte ys
    → All IsByte back
    → length xs ≡ length ys
    → length xs ≤ 4
    → xs ≢ ys
    → crc32 c (some (front ++ (xs ++ back))) ≢ crc32 c (some (front ++ (ys ++ back)))
crc32-burst c front xs ys back f b b' k l few differ e =
    let r = bit_xor (bit_and c 0xffffffff) 0xffffffff in
    let bytes = All-append front (xs ++ back) f (All-append xs back b k) in
    let bytes' = All-append front (ys ++ back) f (All-append ys back b' k) in
    let end =
      bit_xor-injective (register r (front ++ (xs ++ back))) (register r (front ++ (ys ++ back)))
        0xffffffff
        (some-injective _ _ (
          sym (crc32-register c (front ++ (xs ++ back)) bytes)
          ∙ e
          ∙ crc32-register c (front ++ (ys ++ back)) bytes')) in
    let s = register r front in
    let s_lt = register-lt r front f (complement-lt c) in
    let split = λ (zs : List ℕ). register-append r front (zs ++ back) ∙ register-append s zs back in
    let behind : register (register s xs) back ≡ register (register s ys) back =
      sym (split xs) ∙ end ∙ split ys in
    differ (
      register-burst s xs ys s_lt b b' l few (
        register-injective (register s xs) (register s ys) back k (register-lt s xs b s_lt)
          (register-lt s ys b' s_lt) behind))
