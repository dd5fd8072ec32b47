-- ===== src/Lzo1x/RoundTrip/Matches/M2.antt =====
-- The code of an M2 match is read back as that match.
use lzo.Base.{ℕ, ◌+◌, ◌-◌, ◌*◌, ◌/◌, ◌%◌, ◌^◌, ◌≤◌, ◌<◌, ◌≡◌, refl, ◌∙◌, arith, u64, u8}
use mathlib.Core.Path.{ap₂}
use lzo.Base.{List, [], ◌∷◌, take}
use lzo.Base.{bit_or_add16, bit_or_add32}
use lzo.Lzo1x.Format.{Variant, lzo1x, lzo1y, m2_max_offset, m2_max_len}
use lzo.Lzo1x.Decoder.{safe}
use lzo.Lzo1x.Decoder.{match_done}
use lzo.Lzo1x.Decoder.{m2_match, m2_off, m2_t}
use lzo.Lzo1x.Encoder.{m2_code}
use lzo.Lzo1x.RoundTrip.Matches.{Repeats, IsRead, finish_match-take, any_match-m2}

module _ (v : Variant) (src : List ℕ) (size q off len : ℕ) (r : Repeats src size q off len) where
  -- An M2 code in the numbers of its two bytes.
  m2-IsRead :
      (m b : ℕ)
      → 64 ≤ m
      → m < 256
      → m % 4 ≡ 0
      → len < 2 ^ 64
      → ((k : ℕ) → k < 4 → (m2_off v (m + k) b ≡ off) × (m2_t v (m + k) + 2 ≡ len))
      → IsRead v src size q off len (m ∷ b ∷ [])
  m2-IsRead m b h k l s e = record {
    front = [];
    low = m;
    last = b;
    shape = refl;
    free = l;
    byte = k;
    marker = λ j. m + j;
    behind = λ j rest. b ∷ rest;
    first = λ j rest. refl;
    big = λ j. omega arith;
    some_left = λ j rest. omega arith;
    reads = λ j rest p.
        any_match-m2 v size (m + j) (b ∷ rest) (take q src) (omega arith) ∙ m2_step j rest p;
  }
    where
      m2_step :
          (j : ℕ) (rest : List ℕ)
          → j < 4
          → m2_match v size (m + j) (b ∷ rest) (take q src)
            ≡ match_done size (m + j) rest (take (q + len) src)
      m2_step j rest p =
          let (eo, et) = e j p in
          let el : u64 (m2_t v (m + j) + 2) ≡ len = omega (arith, et) in
          unfold m2_match in rw (eo, el) (finish_match-take src size q off len (m + j) rest r)

-- The bytes that `m2_code` writes, as sums.
m2_code-lzo1x :
    (len o : ℕ)
    → 4 ≤ len
    → len ≤ 8
    → o < 2048
    → m2_code lzo1x len o ≡ ((len - 1) * 32 + o % 8 * 4) ∷ (o / 8) ∷ []
m2_code-lzo1x len o h k l =
    let e : u8 ((len - 1) * 32 + o % 8 * 4) ≡ (len - 1) * 32 + o % 8 * 4 = omega arith in
    let e' : u8 (o / 8) ≡ o / 8 = omega arith in
    rw (bit_or_add32 ((len - 1) * 2 ^ 5) (o % 8 * 2 ^ 2) (omega arith) (omega arith) (omega arith))
      (ap₂ (λ x y. x ∷ y ∷ []) e e')

m2_code-lzo1y :
    (len o : ℕ)
    → 4 ≤ len
    → len ≤ 14
    → o < 1024
    → m2_code lzo1y len o ≡ ((len + 1) * 16 + o % 4 * 4) ∷ (o / 4) ∷ []
m2_code-lzo1y len o h k l =
    let e : u8 ((len + 1) * 16 + o % 4 * 4) ≡ (len + 1) * 16 + o % 4 * 4 = omega arith in
    let e' : u8 (o / 4) ≡ o / 4 = omega arith in
    rw (bit_or_add16 ((len + 1) * 2 ^ 4) (o % 4 * 2 ^ 2) (omega arith) (omega arith) (omega arith))
      (ap₂ (λ x y. x ∷ y ∷ []) e e')

pub m2_code-IsRead :
    (v : Variant) (src : List ℕ) (size q off len : ℕ)
    → Repeats src size q off len
    → 4 ≤ len
    → len ≤ m2_max_len v
    → off ≤ m2_max_offset v
    → IsRead v src size q off len (m2_code v len (off - 1))
m2_code-IsRead lzo1x src size q off len r h k l =
    let p : 0 < off = r.ahead in
    rw (m2_code-lzo1x len (off - 1) h k (omega arith)) (
      m2-IsRead lzo1x src size q off len r ((len - 1) * 32 + (off - 1) % 8 * 4) ((off - 1) / 8)
        (omega arith) (omega arith) (omega arith) (omega arith) λ j s. (omega arith, omega arith))
m2_code-IsRead lzo1y src size q off len r h k l =
    let p : 0 < off = r.ahead in
    rw (m2_code-lzo1y len (off - 1) h k (omega arith)) (
      m2-IsRead lzo1y src size q off len r ((len + 1) * 16 + (off - 1) % 4 * 4) ((off - 1) / 4)
        (omega arith) (omega arith) (omega arith) (omega arith) λ j s. (omega arith, omega arith))
