-- ===== src/Lzo1x/Decoder/Kept.antt =====
-- src/lzo1x_d.ch: what holds of all bytes of the output holds of them when a match has been copied.
use lzo.Base.{ℕ, suc, zero, ◌-◌, Bool, true, false, ◌||◌, ltb, ◌==◌, if◌then◌else◌}
use lzo.Base.{none, some, List, [], ◌∷◌, ◌++◌, length, All, get_elem?}
use lzo.Lzo1x.Decoder.{Step, next, done, fault, ◌>>=◌, write, look_behind, copy_match}

All-snoc : (Q : ℕ → Type 0) (xs : List ℕ) (b : ℕ) → All Q xs → Q b → All Q (xs ++ (b ∷ []))
All-snoc Q [] b h q = (q, tt)
All-snoc Q (x ∷ xs) b h q = (h.0, All-snoc Q xs b h.1 q)

module _ (Q : ℕ → Type 0) where
  abbrev pub Keeps {ℓ} : {A : Type ℓ} → (A → Type 0) → Step A → Type 0
  Keeps P (next a) = P a
  Keeps P (done s out) = All Q out
  Keeps P fault = Unit

  Keeps-bind {ℓ κ} :
      {A : Type ℓ} {B : Type κ} (P : A → Type 0) (R : B → Type 0) (m : Step A) (f : A → Step B)
      → Keeps P m
      → ((a : A) → P a → Keeps R (f a))
      → Keeps R (m >>= f)
  Keeps-bind P R (next a) f h k = k a h
  Keeps-bind P R (done s out) f h k = h
  Keeps-bind P R fault f h k = h

  Keeps-if {ℓ} :
      {B : Type ℓ} (R : B → Type 0) (b : Bool) (m k : Step B)
      → Keeps R m
      → Keeps R k
      → Keeps R (if b then m else k)
  Keeps-if R true m k h g = h
  Keeps-if R false m k h g = g

  write-Keeps :
      (size : ℕ) (out : List ℕ) (b : ℕ) → All Q out → Q b → Keeps (All Q) (write size out b)
  write-Keeps size out b h q =
      Keeps-if (All Q) (ltb (length out) size) _ _ (All-snoc Q out b h q) tt

  get_elem?-Keeps :
      (xs : List ℕ) (i : ℕ)
      → All Q xs
      → Keeps Q (elim (get_elem? xs i) [ none ↦ fault | some b ↦ next b ])
  get_elem?-Keeps [] i h = tt
  get_elem?-Keeps (x ∷ xs) zero h = h.0
  get_elem?-Keeps (x ∷ xs) (suc i) h = get_elem?-Keeps xs i h.1

  look_behind-Keeps : (out : List ℕ) (off : ℕ) → All Q out → Keeps Q (look_behind out off)
  look_behind-Keeps out off h =
      Keeps-if Q (off == 0 || ltb (length out) off) fault _ tt
        (get_elem?-Keeps out (length out - off) h)

  pub copy_match-Keeps :
      (size off t : ℕ) (out : List ℕ) → All Q out → Keeps (All Q) (copy_match size off t out)
  unfolding copy_match
  copy_match-Keeps size off zero out o = o
  copy_match-Keeps size off (suc t) out o =
      Keeps-bind _ (All Q) (look_behind out off) _ (look_behind-Keeps out off o) λ b q.
        Keeps-bind _ (All Q) (write size out b) _ (write-Keeps size out b o q)
          λ out' o'. copy_match-Keeps size off t out' o'
