-- ===== src/Crc/Bitwise.antt =====
-- src/lzo_crc.c: the table against the polynomial of CRC-32, shifted bit by bit.
use lzo.Base.{ℕ, zero, suc, ◌+◌, ◌*◌, ◌/◌, ◌%◌, ◌^◌, ◌<◌, ◌≡◌, refl, arith, ◌∙◌, ap, sym}
use lzo.Base.{
  bit_and, bit_xor, bit_and_mask, bit_xor_low, bit_xor_comm, bit_xor_assoc, bit_xor_lt, bit_xor_add,
  table_eq, all_below, ◌==◌, if◌then◌else◌, Bool-cases, inl, inr, List, [], ◌∷◌, ◌++◌, All, IsByte,
  get_or,
}
use native.Mathlib.Nat.{pow-suc}
use lzo.Checksum.Unrolled.{added}
use lzo.Crc.{lzo_crc32_table, add_byte}

-- One bit: the polynomial `x^32 + x^26 + ... + 1`, lowest bit first, where a one is shifted out.
abbrev pub shift : ℕ → ℕ
shift r = if r % 2 == 0 then r / 2 else bit_xor (r / 2) 0xedb88320

unfoldable pub shifts : ℕ → ℕ → ℕ
shifts zero r = r
shifts (suc k) r = shifts k (shift r)

-- The register after a byte, one bit at a time.
abbrev pub bitwise_byte : ℕ → ℕ → ℕ
bitwise_byte r b = shifts 8 (bit_xor r b)

-- Each entry of the table is its index shifted by eight bits.
table_shifts : (i : ℕ) → i < 256 → get_or lzo_crc32_table i 0 ≡ shifts 8 i
unfolding all_below shifts
table_shifts = table_eq _ _ 256 refl

-- A shift of a register with bits above is a shift of its lowest bit, with the bits above moved down.
shift-xor : (r h : ℕ) → shift (bit_xor r (h * 2)) ≡ bit_xor (shift r) h
shift-xor r h =
    let low = bit_xor_low r (h * 2) in
    let twice : h * 2 / 2 ≡ h = omega arith in
    let half : bit_xor r (h * 2) / 2 ≡ bit_xor (r / 2) h = omega (arith, rw twice at low) in
    let bit : bit_xor r (h * 2) % 2 ≡ r % 2 = omega (arith, low) in
    elim (Bool-cases (r % 2 == 0)) [
      | inl even ↦ rw (bit, even, half) refl
      | inr odd ↦ rw (bit, odd, half) (swap (r / 2) h)
    ]
  where
    swap : (a h : ℕ) → bit_xor (bit_xor a h) 0xedb88320 ≡ bit_xor (bit_xor a 0xedb88320) h
    swap a h =
        bit_xor_assoc a h 0xedb88320
        ∙ ap (λ (t : ℕ). bit_xor a t) (bit_xor_comm h 0xedb88320)
        ∙ sym (bit_xor_assoc a 0xedb88320 h)

pub shifts-xor : (k r h : ℕ) → shifts k (bit_xor r (h * 2 ^ k)) ≡ bit_xor (shifts k r) h
unfolding shifts
shifts-xor zero r h = ap (λ (t : ℕ). bit_xor r t) (omega arith)
shifts-xor (suc k) r h =
    let e : h * 2 ^ suc k ≡ h * 2 ^ k * 2 = omega (arith, ap (λ (t : ℕ). h * t) (pow-suc 2 k)) in
    rw (e, shift-xor r (h * 2 ^ k)) (shifts-xor k (shift r) h)

-- The two parts of a register with a byte put in.
byte_in :
    (r b : ℕ)
    → b < 256
    → (bit_xor r b ≡ bit_xor (bit_xor (r % 2 ^ 8) b) (r / 2 ^ 8 * 2 ^ 8))
      × (bit_xor (r % 2 ^ 8) b < 2 ^ 8)
byte_in r b h =
    let parts : bit_xor (r % 2 ^ 8) (r / 2 ^ 8 * 2 ^ 8) ≡ r =
      omega (arith, bit_xor_add 8 (r % 2 ^ 8) (r / 2 ^ 8) (omega arith)) in
    let high = r / 2 ^ 8 * 2 ^ 8 in
    let low = r % 2 ^ 8 in
    (
      ap (λ (t : ℕ). bit_xor t b) (sym parts)
          ∙ bit_xor_assoc low high b
          ∙ ap (λ (t : ℕ). bit_xor low t) (bit_xor_comm high b)
          ∙ sym (bit_xor_assoc low b high),
      bit_xor_lt 8 low b (omega arith) h,
    )

-- What the table does with a byte is what the shift register does, bit by bit.
pub add_byte-bitwise : (r b : ℕ) → b < 256 → add_byte r b ≡ bitwise_byte r b
unfolding add_byte
add_byte-bitwise r b h =
    let (e, l) = byte_in r b h in
    let low = bit_xor (r % 2 ^ 8) b in
    let sum : bit_xor r b ≡ low + r / 2 ^ 8 * 2 ^ 8 = e ∙ bit_xor_add 8 low (r / 2 ^ 8) l in
    let index : bit_and (bit_xor r b) 0xff ≡ low =
      omega (arith, bit_and_mask 8 (bit_xor r b), sum) in
    rw (index, table_shifts low l) (sym (ap (shifts 8) e ∙ shifts-xor 8 low (r / 2 ^ 8)))

-- The shift register over a buffer.
unfoldable pub register : ℕ → List ℕ → ℕ
register r [] = r
register r (b ∷ buf) = register (bitwise_byte r b) buf

pub added-register : (r : ℕ) (buf : List ℕ) → All IsByte buf → added add_byte r buf ≡ register r buf
unfolding added register
added-register r [] h = refl
added-register r (b ∷ buf) h =
    ap (λ t. added add_byte t buf) (add_byte-bitwise r b h.0)
    ∙ added-register (bitwise_byte r b) buf h.1

pub register-append : (r : ℕ) (xs ys : List ℕ) → register r (xs ++ ys) ≡ register (register r xs) ys
unfolding register
register-append r [] ys = refl
register-append r (x ∷ xs) ys = register-append (bitwise_byte r x) xs ys

pub shift-lt : (r : ℕ) → r < 2 ^ 32 → shift r < 2 ^ 32
shift-lt r h = elim (Bool-cases (r % 2 == 0)) [
  | inl even ↦ rw even (omega arith)
  | inr odd ↦ rw odd (bit_xor_lt 32 (r / 2) 0xedb88320 (omega arith) (omega arith))
]

pub shifts-lt : (k r : ℕ) → r < 2 ^ 32 → shifts k r < 2 ^ 32
unfolding shifts
shifts-lt zero r h = h
shifts-lt (suc k) r h = shifts-lt k (shift r) (shift-lt r h)

pub register-lt : (r : ℕ) (buf : List ℕ) → All IsByte buf → r < 2 ^ 32 → register r buf < 2 ^ 32
unfolding register
register-lt r [] bytes h = h
register-lt r (b ∷ buf) bytes h =
    register-lt (bitwise_byte r b) buf bytes.1
      (shifts-lt 8 (bit_xor r b) (bit_xor_lt 32 r b h (omega (arith, bytes.0))))
