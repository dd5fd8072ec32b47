-- ===== src/Lzo1x/Encoder/Growth.antt =====
-- How long the codes are: a match saves a byte, and a run of literals costs a 16th of it at most.
use lzo.Base.{ℕ, zero, suc, ◌+◌, ◌-◌, ◌*◌, ◌/◌, ◌≤◌, ◌<◌, ◌≡◌, arith}
use lzo.Base.{List, [], ◌∷◌, ◌++◌, length, length-append, set}
use lzo.Lzo1x.Format.{Variant, lzo1x, lzo1y}
use lzo.Lzo1x.Encoder.{
  store_long, patch, store_run, store_literals, m2_code, m3_code, m4_code, match_code, offset_code,
  store_last,
}

length-store_long-le : (fuel left : ℕ) → length (store_long fuel left) ≤ 1 + left / 255
unfolding store_long
length-store_long-le zero left = omega arith
length-store_long-le (suc fuel) left = ground (arith, length-store_long-le fuel (left - 255))

length-set : (xs : List ℕ) (i b : ℕ) → length (set xs i b) ≡ length xs
length-set [] i b = omega arith
length-set (x ∷ xs) zero b = omega arith
length-set (x ∷ xs) (suc i) b = omega (arith, length-set xs i b)

length-patch : (out : List ℕ) (t : ℕ) → length (patch out t) ≡ length out
unfolding patch
length-patch out t = length-set out (length out - 2) _

-- The marker of a run.
pub length-store_run : (t : ℕ) → 16 * length (store_run t) ≤ 16 + t
unfolding store_run
length-store_run t = ground (arith, length-store_long-le (t - 18) (t - 18))

pub length-store_literals :
    (out lits : List ℕ)
    → 16 * length (store_literals out lits) ≤ 16 * length out + 17 * length lits + 16
unfolding store_literals
length-store_literals out lits = ground (
  arith,
  length-append (patch out (length lits)) lits,
  length-patch out (length lits),
  length-append out (store_run (length lits) ++ lits),
  length-append (store_run (length lits)) lits,
  length-store_run (length lits),
)

pub length-store_last :
    (out lits : List ℕ)
    → 16 * length (store_last out lits) ≤ 16 * length out + 17 * length lits + 16
unfolding store_last
length-store_last out lits = ground (
  arith,
  length-append (patch out (length lits)) lits,
  length-patch out (length lits),
  length-append out (store_run (length lits) ++ lits),
  length-append (store_run (length lits)) lits,
  length-store_run (length lits),
)

length-m2_code : (v : Variant) (len off : ℕ) → length (m2_code v len off) ≡ 2
length-m2_code lzo1x len off = omega arith
length-m2_code lzo1y len off = omega arith

length-m3_code : (len off : ℕ) → 4 ≤ len → length (m3_code len off) < len
unfolding m3_code
length-m3_code len off h = ground (
  arith,
  length-append (store_long (len - 33) (len - 33)) (offset_code off),
  length-store_long-le (len - 33) (len - 33),
)

length-m4_code : (len off : ℕ) → 4 ≤ len → length (m4_code len off) < len
unfolding m4_code
length-m4_code len off h = ground (
  arith,
  length-append (store_long (len - 9) (len - 9)) (offset_code off),
  length-store_long-le (len - 9) (len - 9),
)

-- A match of four bytes or more is shorter as a code.
pub length-match_code : (v : Variant) (len off : ℕ) → 4 ≤ len → length (match_code v len off) < len
unfolding match_code
length-match_code v len off h = ground (
  arith,
  length-m2_code v len (off - 1),
  length-m3_code len (off - 1),
  length-m4_code len (off - 0x4000),
)
