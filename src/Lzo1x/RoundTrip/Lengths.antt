-- ===== src/Lzo1x/RoundTrip/Lengths.antt =====
-- The lengths that do not fit a marker: what `store_long` writes, `long_length` reads.
use lzo.Base.{ℕ, zero, suc, ◌+◌, ◌-◌, ◌^◌, ◌≤◌, ◌<◌, ◌≡◌, refl, arith, u64, u8}
use lzo.Base.{ltb, Bool-cases, inl, inr, le→ltb, ltb→lt, ltb→le}
use lzo.Base.{List, ◌++◌, length, length-append}
use lzo.Lzo1x.Decoder.{safe}
use lzo.Lzo1x.Decoder.{Status, next, long_length, match_length, e_output_overrun}
use mathlib.Core.Path.{Σ_path}
use lzo.Base.{ap}
use lzo.Lzo1x.Encoder.{store_long}

pub length-store_long : (f left : ℕ) → 0 < f → 0 < length (store_long f left)
unfolding store_long
length-store_long zero left h = absurd (omega arith)
length-store_long (suc f) left h = ground arith

pub long_length-store_long :
    (s : Status) (base t f left : ℕ) (rest out : List ℕ)
    → 0 < left
    → left ≤ f
    → t + left < 2 ^ 63
    → base < 32
    → long_length s base t (store_long f left ++ rest) out ≡ next (t + (base + left), rest)
unfolding long_length store_long
long_length-store_long s base t zero left rest out p h l b = absurd (omega arith)
long_length-store_long s base t (suc f) zero rest out p h l b = absurd (omega arith)
long_length-store_long s base t (suc f) (suc k) rest out p h l b =
    elim (Bool-cases (ltb 255 (suc k))) [
      | inl more ↦
          let more' : 255 < suc k = ltb→lt _ _ more in
          let e : u64 (t + 255) ≡ t + 255 = omega arith in
          let e' : t + 255 + (base + (suc k - 255)) ≡ t + (base + suc k) = omega arith in
          let room = le→ltb (length (store_long f (suc k - 255) ++ rest)) (u64 1) (
            omega (
              arith,
              length-append (store_long f (suc k - 255)) rest,
              length-store_long f (suc k - 255) (omega arith),
            )) in
          rw (more, e, le→ltb (2 ^ 64 - 511) (t + 255) (omega arith), room)
            (rw (← e') (
              long_length-store_long s base (t + 255) f (suc k - 255) rest out (omega arith)
                (omega arith) (omega arith) b))
      | inr last ↦
          let small : suc k ≤ 255 = ltb→le _ _ last in
          let e : u8 (suc k) ≡ suc k = omega arith in
          let e' : u64 (t + (base + suc k)) ≡ t + (base + suc k) = omega arith in
          rw (last, e) (rw e')
    ]

-- A match length behind its marker, and in it.
pub match_length_long :
    (base left : ℕ) (rest out : List ℕ)
    → 0 < left
    → left < 2 ^ 63
    → base < 32
    → 2 ≤ length rest
    → match_length base 0 (store_long left left ++ rest) out ≡ next (base + left, rest)
unfolding match_length
match_length_long base left rest out p l b h =
    rw
      (long_length-store_long e_output_overrun base 0 left left rest out p (omega arith)
        (omega arith) b)
      (rw (le→ltb (length rest) (u64 2) (omega arith)) (ap next (Σ_path (omega arith) refl)))
