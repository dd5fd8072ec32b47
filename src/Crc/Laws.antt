-- ===== src/Crc/Laws.antt =====
-- src/lzo_crc.c: lzo_crc32 over a whole buffer, and over a buffer in two parts.
use lzo.Base.{ℕ, ◌^◌, ◌<◌, ◌≡◌, arith, ◌∙◌, ap, sym, bit_and, bit_xor}
use lzo.Base.{bit_and_mask, bit_xor_twice, bit_xor_lt, some, List, ◌++◌, length}
use lzo.Base.{take_all, All, IsByte}
use lzo.Checksum.Unrolled.{added, by_sixteen-added, ◌>>=◌}
use lzo.Lzo1x.Encoder.Bytes.{All-append}
use mathlib.Core.Option.{some-injective}
use lzo.Crc.{add_byte, crc32}
use lzo.Crc.Bitwise.{register, added-register, register-append, register-lt}

-- For every checksum so far and every buffer of bytes, lzo_crc32 reads just the buffer, and the table
-- and the unrolled loop give what the shift register with the polynomial 0xedb88320 gives, one bit at
-- a time, between two complements.
pub crc32-register :
    (c : ℕ) (buf : List ℕ)
    → All IsByte buf
    → crc32 c (some buf)
      ≡ some (bit_xor (register (bit_xor (bit_and c 0xffffffff) 0xffffffff) buf) 0xffffffff)
unfolding crc32
crc32-register c buf bytes =
    let r = bit_xor (bit_and c 0xffffffff) 0xffffffff in
    ap (λ o. o >>= λ p. some (bit_xor p.0 0xffffffff))
      (by_sixteen-added add_byte (length buf) r buf (omega arith))
    ∙ ap (λ xs. some (bit_xor (added add_byte r xs) 0xffffffff))
        (take_all (length buf) buf (omega arith))
    ∙ ap (λ x. some (bit_xor x 0xffffffff)) (added-register r buf bytes)

pub complement-lt : (c : ℕ) → bit_xor (bit_and c 0xffffffff) 0xffffffff < 2 ^ 32
complement-lt c =
    bit_xor_lt 32 (bit_and c 0xffffffff) 0xffffffff (omega (arith, bit_and_mask 32 c)) (omega arith)

-- The register goes on where it stopped.
resumed : (r : ℕ) → r < 2 ^ 32 → bit_xor (bit_and (bit_xor r 0xffffffff) 0xffffffff) 0xffffffff ≡ r
resumed r h =
    let x = bit_xor r 0xffffffff in
    let small = bit_xor_lt 32 r 0xffffffff h (omega arith) in
    let e : bit_and x 0xffffffff ≡ x = omega (arith, bit_and_mask 32 x, small) in
    ap (λ (t : ℕ). bit_xor t 0xffffffff) e ∙ bit_xor_twice r 0xffffffff

-- A buffer may be checked in two parts: where lzo_crc32 gives `d` for the first part, it gives for the
-- second part, from `d` on, what it gives for the whole.
pub crc32-append :
    (c d : ℕ) (xs ys : List ℕ)
    → All IsByte xs
    → All IsByte ys
    → crc32 c (some xs) ≡ some d
    → crc32 d (some ys) ≡ crc32 c (some (xs ++ ys))
crc32-append c d xs ys bytes bytes' e =
    let r = bit_xor (bit_and c 0xffffffff) 0xffffffff in
    let d_eq : d ≡ bit_xor (register r xs) 0xffffffff =
      some-injective _ _ (sym e ∙ crc32-register c xs bytes) in
    let from : bit_xor (bit_and d 0xffffffff) 0xffffffff ≡ register r xs =
      ap (λ (t : ℕ). bit_xor (bit_and t 0xffffffff) 0xffffffff) d_eq
      ∙ resumed (register r xs) (register-lt r xs bytes (complement-lt c)) in
    crc32-register d ys bytes'
    ∙ ap (λ t. some (bit_xor t 0xffffffff))
        (ap (λ t. register t ys) from ∙ sym (register-append r xs ys))
    ∙ sym (crc32-register c (xs ++ ys) (All-append xs ys bytes bytes'))
