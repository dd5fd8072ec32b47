-- ===== src/Checksum/Unrolled.antt =====
-- The unrolled loops of src/lzo_util.c and src/lzo_crc.c: LZO_DO1 to LZO_DO16, and a loop by sixteen
-- bytes with a loop by one for the rest. A buffer is a list; a read past its end gives `none`.
use lzo.Base.{ℕ, zero, suc, ◌+◌, ◌-◌, ◌<◌, ◌≤◌, ◌≡◌, refl, arith, ◌∙◌, ap, sym}
use lzo.Base.{
  ltb, ltb→le, Bool-cases, inl, inr, if◌then◌else◌, Option, none, some, List, [], ◌∷◌, length, take,
  drop,
}
use mathlib.Core.Path.{fun_ext}

infixl 5 ◌>>=◌
abbrev pub ◌>>=◌ {ℓ κ} : {A : Type ℓ} {B : Type κ} → Option A → (A → Option B) → Option B
none >>= f = none
some a >>= f = f a

-- The state, and the rest of the buffer.
abbrev pub Position : Type 0 → Type 0
Position S = S × List ℕ

assoc : {S : Type 0} (o : Option S) (f g : S → Option S) → (o >>= f >>= g) ≡ (o >>= λ p. f p >>= g)
assoc none f g = refl
assoc (some p) f g = refl

-- `add` is what LZO_DO1 does with a byte.
module _ {S : Type 0} (add : S → ℕ → S) where
  abbrev pub do1 : Position S → Option (Position S)
  do1 (s, []) = none
  do1 (s, b ∷ buf) = some (add s b, buf)

  abbrev pub do2 : Position S → Option (Position S)
  do2 p = do1 p >>= do1

  abbrev pub do4 : Position S → Option (Position S)
  do4 p = do2 p >>= do2

  abbrev pub do8 : Position S → Option (Position S)
  do8 p = do4 p >>= do4

  abbrev pub do16 : Position S → Option (Position S)
  do16 p = do8 p >>= do8

  -- `do *buf++ ... while (--k > 0);` after `if (k != 0)`
  unfoldable pub by_one : ℕ → Position S → Option (Position S)
  by_one zero p = some p
  by_one (suc k) p = do1 p >>= by_one k

  -- `do LZO_DO16 ... while (k >= 16);` after `if (k >= 16)`, in at most `fuel` rounds, and the rest.
  unfoldable pub by_sixteen : ℕ → ℕ → Position S → Option (Position S)
  by_sixteen zero k p = none
  by_sixteen (suc fuel) k p =
      let rest = do16 p >>= by_sixteen fuel (k - 16) in if ltb k 16 then by_one k p else rest

  -- The bytes added one after the other.
  unfoldable pub added : S → List ℕ → S
  added s [] = s
  added s (b ∷ buf) = added (add s b) buf

  pub by_one-added :
      (k : ℕ) (s : S) (buf : List ℕ)
      → k ≤ length buf
      → by_one k (s, buf) ≡ some (added s (take k buf), drop k buf)
  unfolding by_one added
  by_one-added zero s buf h = refl
  by_one-added (suc k) s [] h = absurd (omega arith)
  by_one-added (suc k) s (b ∷ buf) h = by_one-added k (add s b) buf (omega arith)

  by_one-add : (m n : ℕ) (p : Position S) → by_one (m + n) p ≡ (by_one m p >>= by_one n)
  unfolding by_one
  by_one-add zero n p = ap (λ k. by_one k p) (omega arith)
  by_one-add (suc m) n p =
      let e : suc m + n ≡ suc (m + n) = omega arith in
      ap (λ k. by_one k p) e
      ∙ ap (λ f. do1 p >>= f) (fun_ext (by_one-add m n))
      ∙ sym (assoc (do1 p) (by_one m) (by_one n))

  -- One unrolled step twice is `n` simple ones twice.
  doubled :
      (n : ℕ) (f : Position S → Option (Position S))
      → ((p : Position S) → by_one n p ≡ f p)
      → (p : Position S) → by_one (n + n) p ≡ (f p >>= f)
  doubled n f h p = by_one-add n n p ∙ ap (λ g. g p >>= g) (fun_ext h)

  by_one-single : (p : Position S) → by_one 1 p ≡ do1 p
  unfolding by_one
  by_one-single (s, []) = refl
  by_one-single (s, b ∷ buf) = refl

  by_one-two : (p : Position S) → by_one (1 + 1) p ≡ do2 p
  by_one-two = doubled 1 do1 by_one-single

  by_one-sixteen : (n : ℕ) (p : Position S) → by_one (16 + n) p ≡ (do16 p >>= by_one n)
  by_one-sixteen n p =
      by_one-add 16 n p
      ∙ ap (λ o. o >>= by_one n) (doubled 8 do8 (doubled 4 do4 (doubled 2 do2 by_one-two)) p)

  -- The unrolled loop is the simple one.
  pub by_sixteen-by_one :
      (fuel k : ℕ) (p : Position S) → k < fuel → by_sixteen fuel k p ≡ by_one k p
  unfolding by_sixteen
  by_sixteen-by_one zero k p h = absurd (omega arith)
  by_sixteen-by_one (suc fuel) k p h = elim (Bool-cases (ltb k 16)) [
    | inl t ↦ rw t refl
    | inr t ↦
        let le = ltb→le k 16 t in
        let ih : (q : Position S) → by_sixteen fuel (k - 16) q ≡ by_one (k - 16) q =
          λ q. by_sixteen-by_one fuel (k - 16) q (omega arith) in
        let e : 16 + (k - 16) ≡ k = omega arith in
        rw t (
          ap (λ f. do16 p >>= f) (fun_ext ih)
          ∙ sym (by_one-sixteen (k - 16) p)
          ∙ ap (λ n. by_one n p) e)
  ]

  -- Both loops together add the first `k` bytes.
  pub by_sixteen-added :
      (k : ℕ) (s : S) (buf : List ℕ)
      → k ≤ length buf
      → by_sixteen (k + 1) k (s, buf) ≡ some (added s (take k buf), drop k buf)
  by_sixteen-added k s buf h =
      by_sixteen-by_one (k + 1) k (s, buf) (omega arith) ∙ by_one-added k s buf h
