-- ===== src/Lzo1a/RoundTrip/Store.antt =====
-- src/lzo1a_cr.ch: its store_run writes what that of src/lzo1.c writes.
use lzo.Base.{ℕ, zero, suc, ◌+◌, ◌*◌, ◌/◌, ◌^◌, ◌<◌, ◌≡◌, refl, arith, u8}
use lzo.Base.{leb, Bool-cases, inl, inr, false}
use lzo.Base.{some, List, [], ◌∷◌, ◌++◌, length, take, drop, length-drop, pow-pos}
use lzo.Lzo1.Encoder as Plain
use lzo.Lzo1.Encoder.{store_runs, store_bits}
use lzo.Lzo1a.Encoder.{store_once, store_halves, store_long_runs, store_run}
use mathlib.Core.List.{append-nil}

-- The loop over runs of one length leaves less than that.
store_runs-less :
    (fuel code n : ℕ) (lits : List ℕ)
    → 0 < n
    → length lits < fuel
    → (r : List ℕ × List ℕ) × (store_runs fuel code n lits ≡ some r) × (length r.1 < n)
unfolding store_runs
store_runs-less zero code n lits p h = absurd (omega arith)
store_runs-less (suc fuel) code n lits p h = elim (Bool-cases (leb n (length lits))) [
  | inr few ↦ (([], lits), rw few refl, ground arith)
  | inl many ↦
      let (r, e, l) =
        store_runs-less fuel code n (drop n lits) p (ground (arith, length-drop n lits)) in
      ((0 ∷ code ∷ (take n lits ++ r.0), r.1), rw (many, e) refl, l)
]

-- Where there are less than two runs, the loop is an `if`.
store_runs-store_once :
    (fuel code n : ℕ) (lits : List ℕ)
    → 0 < n
    → length lits < n + n
    → length lits < fuel
    → store_runs fuel code n lits ≡ some (store_once code n lits)
unfolding store_runs
store_runs-store_once zero code n lits p h k = absurd (omega arith)
store_runs-store_once (suc zero) code n lits p h k =
    let few : leb n (length lits) ≡ false = ground arith in rw few refl
store_runs-store_once (suc (suc fuel)) code n lits p h k = elim (Bool-cases (leb n (length lits))) [
  | inr few ↦ rw few refl
  | inl many ↦
      let last : leb n (length (drop n lits)) ≡ false = ground (arith, length-drop n lits) in
      rw many (rw (last, append-nil (take n lits)) refl)
]

store_once-less :
    (code n : ℕ) (lits : List ℕ) → length lits < n + n → length (store_once code n lits).1 < n
store_once-less code n lits h = elim (Bool-cases (leb n (length lits))) [
  | inl many ↦ rw many (ground (arith, length-drop n lits))
  | inr few ↦ rw few (ground arith)
]

-- The loops over all lengths from `256 << r` down, where there are less than two of the longest.
store_bits-store_halves :
    (r : ℕ) (lits : List ℕ)
    → length lits < 256 * 2 ^ r + 256 * 2 ^ r
    → store_bits r lits ≡ some (store_halves r (256 * 2 ^ r) lits)
unfolding store_bits store_halves
store_bits-store_halves zero lits h = refl
store_bits-store_halves (suc r) lits h =
    let code = u8 (248 + suc r) in
    let n = 256 * 2 ^ suc r in
    let half : n / 2 ≡ 256 * 2 ^ r = omega (arith, pow-suc r) in
    let once =
      store_runs-store_once (length lits + 1) code n lits (omega (arith, pow-pos (suc r))) h
        (omega arith) in
    let less : length (store_once code n lits).1 < 256 * 2 ^ r + 256 * 2 ^ r =
      omega (arith, store_once-less code n lits h, pow-suc r) in
    rw (once, half) (rw (store_bits-store_halves r (store_once code n lits).1 less) refl)
  where
    pow-suc : (k : ℕ) → 2 ^ suc k ≡ 2 * 2 ^ k
    pow-suc k = omega arith

store_long_runs-store_bits : (lits : List ℕ) → store_long_runs lits ≡ store_bits 7 lits
unfolding store_bits
store_long_runs-store_bits lits =
    let (r, e, l) = store_runs-less (length lits + 1) 255 32768 lits (omega arith) (omega arith) in
    rw e (rw (store_bits-store_halves 6 r.1 (omega arith)) refl)

pub store_run-store_run : (lits : List ℕ) → store_run lits ≡ Plain.store_run lits
unfolding store_run Plain.store_run
store_run-store_run lits = rw (store_long_runs-store_bits lits) refl
