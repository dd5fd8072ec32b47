-- ===== src/Lzo1x/InPlace/Safety.antt =====
-- The overrun tests of lzo1x_d.ch in place, on any input.
pub mod Lengths
pub mod Rounds
pub mod Run
use lzo.Base.{ℕ, zero, suc, ◌-◌, ◌≤◌, ◌<◌, ◌≡◌, refl, false, true, Bool}
use lzo.Base.{none, some, List, [], ◌∷◌, length, All, IsByte, get_elem?}
use lzo.Lzo1x.Decoder.{Status, Step, next, done, fault, ◌>>=◌, stop_if, State}
use lzo.Lzo1x.Decoder.{literal_run, first_literal_run, handle_match}
use lzo.Lzo1x.InPlace.{cell}

-- An output that fits the buffer, and is bytes.
abbrev pub Fits : ℕ → List ℕ → Type 0
Fits size out = All IsByte out × (length out ≤ size)

-- A step that does not fault, whose value satisfies `P`, and whose output on return fits.
abbrev pub Sound {ℓ} : ℕ → {A : Type ℓ} → (A → Type 0) → Step A → Type 0
Sound size P (next a) = P a
Sound size P (done s out) = Fits size out
Sound size P fault = ⊥

pub Sound-bind {ℓ κ} :
    (size : ℕ) {A : Type ℓ} {B : Type κ} (P : A → Type 0) (Q : B → Type 0) (m : Step A)
    (f : A → Step B)
    → Sound size P m
    → ((a : A) → P a → Sound size Q (f a))
    → Sound size Q (m >>= f)
Sound-bind size P Q (next a) f h k = k a h
Sound-bind size P Q (done s out) f h k = h
Sound-bind size P Q fault f h k = h

pub Sound-stop_if {ℓ} :
    (size : ℕ) {B : Type ℓ} (Q : B → Type 0) (b : Bool) (s : Status) (out : List ℕ) (k : Step B)
    → Fits size out
    → (b ≡ false → Sound size Q k)
    → Sound size Q (stop_if b s out >>= λ _. k)
Sound-stop_if size Q true s out k h g = h
Sound-stop_if size Q false s out k h g = g refl

pub Sound-weaken {ℓ} :
    (size : ℕ) {A : Type ℓ} (P Q : A → Type 0) (m : Step A)
    → Sound size P m
    → ((a : A) → P a → Q a)
    → Sound size Q m
Sound-weaken size P Q (next a) h k = k a h
Sound-weaken size P Q (done s out) h k = h
Sound-weaken size P Q fault h k = h

-- The input that a round may read with no test of its own.
abbrev pub IsOpen : ℕ → State → Type 0
IsOpen size (literal_run, ip, out) = All IsByte ip × Fits size out
IsOpen size (first_literal_run, ip, out) = All IsByte ip × Fits size out × (3 ≤ length ip)
IsOpen size (handle_match t, ip, out) = All IsByte ip × Fits size out × (2 ≤ length ip) × (t < 256)

-- A state that a round may leave, with less input than `n` bytes.
abbrev pub IsLeft : ℕ → ℕ → State → Type 0
IsLeft size n s = IsOpen size s × (length s.1 < n)

-- The buffer holds bytes.
pub cell-IsByte :
    (room : ℕ) (out : List ℕ) (left b : ℕ) → All IsByte out → b < 256 → cell room out left b < 256
unfolding cell
cell-IsByte room out left b o h = held out (room - left) o
  where
    held :
        (xs : List ℕ) (i : ℕ)
        → All IsByte xs
        → elim (get_elem? xs i) [ none ↦ b | some c ↦ c ] < 256
    held [] i a = h
    held (x ∷ xs) zero a = a.0
    held (x ∷ xs) (suc i) a = held xs i a.1
