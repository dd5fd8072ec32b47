-- ===== src/Lzopack/Sound.antt =====
-- examples/lzopack.c: do_decompress on any file at all.
pub mod Blocks
pub mod Accepted
use lzo.Base.{ℕ, ◌+◌, ◌-◌, ◌*◌, ◌/◌, ◌%◌, ◌^◌, ◌≤◌, ◌<◌, ◌≡◌, refl, sym, ◌∙◌, ap, arith}
use lzo.Base.{Bool, true, false, ◌==◌, Bool-cases, inl, inr}
use lzo.Base.{bit_or, bit_or_add}
use lzo.Base.{Option, List, [], ◌∷◌, ◌++◌, length, take, drop}
use lzo.Base.{length-drop, length-take, take-append-drop, drop-drop, All, IsByte}
use lzo.Lzo1x.Encoder.Bytes.{All-take, All-drop}
use lzo.Lzopack.State.{
  Files, End, Exec, value, err, exits, undefined, continue, ◌>>◌, ensure, xread, xgetc, byte_of,
  word_of, xread32, word_bytes,
}

-- A call that is defined, and whose value and state satisfy `P` where it goes on.
abbrev pub Post {ℓ} : {A : Type ℓ} → (A → Files → Type 0) → End A × Files → Type 0
Post P (value a, s) = P a s
Post P (err r, s) = Unit
Post P (exits, s) = Unit
Post P (undefined, s) = ⊥

pub Post-bind {ℓ κ} :
    {A : Type ℓ} {B : Type κ} (P : A → Files → Type 0) (R : B → Files → Type 0) (r : End A × Files)
    (f : A → Exec B)
    → Post P r
    → ((a : A) (s : Files) → P a s → Post R (f a s))
    → Post R (continue r f)
Post-bind P R (value a, s) f h k = k a s h
Post-bind P R (err r, s) f h k = tt
Post-bind P R (exits, s) f h k = tt
Post-bind P R (undefined, s) f h k = h

pub Post-ensure {ℓ} :
    {B : Type ℓ} (R : B → Files → Type 0) (b : Bool) (r : ℕ) (m : Exec B) (s : Files)
    → (b ≡ true → Post R (m s))
    → Post R ((ensure b r >> m) s)
Post-ensure R true r m s h = h refl
Post-ensure R false r m s h = tt

-- With `file` as the whole file: at most `n` bytes are still to be read, its last ones, and what was
-- written satisfies `F`.
abbrev pub Open : List ℕ → (Option (List ℕ) → Type 0) → ℕ → Files → Type 0
Open file F n s = All IsByte s.fi × (length s.fi ≤ n) × ((k : ℕ) × (s.fi ≡ drop k file)) × F s.fo

module _ (file : List ℕ) (F : Option (List ℕ) → Type 0) where
  pub xread-Post :
      (len n : ℕ) (s : Files)
      → Open file F n s
      → Post
          (λ b t.
            All IsByte b
            × (length b ≡ len)
            × (len ≤ n)
            × (s.fi ≡ b ++ t.fi)
            × Open file F (n - len) t)
          (xread len false s)
  unfolding xread
  xread-Post len n s (a, l, (k, e), f) = elim (Bool-cases (length (take len s.fi) == len)) [
    | inl whole ↦
        let size : length (take len s.fi) ≡ len = ground arith in
        rw whole (
          All-take len s.fi a,
          size,
          omega (arith, size, length-take len s.fi),
          sym (take-append-drop len s.fi),
          (
            All-drop len s.fi a,
            omega (arith, length-drop len s.fi),
            (k + len, ap (drop len) e ∙ drop-drop k len file),
            f,
          ),
        )
    | inr short ↦ rw short tt
  ]

  -- Four bytes as a number.
  word_value :
      (b₀ b₁ b₂ b₃ : ℕ)
      → b₀ < 256
      → b₁ < 256
      → b₂ < 256
      → b₃ < 256
      → bit_or (bit_or (bit_or b₃ (b₂ * 2 ^ 8)) (b₁ * 2 ^ 16)) (b₀ * 2 ^ 24)
        ≡ b₃ + b₂ * 2 ^ 8 + b₁ * 2 ^ 16 + b₀ * 2 ^ 24
  word_value b₀ b₁ b₂ b₃ h₀ h₁ h₂ h₃ =
      let e₂ = bit_or_add 8 b₃ b₂ (omega arith) in
      let e₁ = bit_or_add 16 (b₃ + b₂ * 2 ^ 8) b₁ (omega arith) in
      let e₀ = bit_or_add 24 (b₃ + b₂ * 2 ^ 8 + b₁ * 2 ^ 16) b₀ (omega arith) in
      rw (e₂, e₁, e₀) refl

  word_bytes-word :
      (b₀ b₁ b₂ b₃ : ℕ)
      → b₀ < 256
      → b₁ < 256
      → b₂ < 256
      → b₃ < 256
      → word_bytes (b₃ + b₂ * 2 ^ 8 + b₁ * 2 ^ 16 + b₀ * 2 ^ 24) ≡ b₀ ∷ b₁ ∷ b₂ ∷ b₃ ∷ []
  word_bytes-word b₀ b₁ b₂ b₃ h₀ h₁ h₂ h₃ =
      let v = b₃ + b₂ * 2 ^ 8 + b₁ * 2 ^ 16 + b₀ * 2 ^ 24 in
      let e₀ : v / 2 ^ 24 % 2 ^ 8 ≡ b₀ = omega arith in
      let e₁ : v / 2 ^ 16 % 2 ^ 8 ≡ b₁ = omega arith in
      let e₂ : v / 2 ^ 8 % 2 ^ 8 ≡ b₂ = omega arith in
      let e₃ : v % 2 ^ 8 ≡ b₃ = omega arith in rw (e₀, e₁, e₂, e₃) refl

  pub xread32-Post :
      (n : ℕ) (s : Files)
      → Open file F n s
      → Post (λ v t. (s.fi ≡ word_bytes v ++ t.fi) × (4 ≤ n) × Open file F (n - 4) t) (xread32 s)
  unfolding xread32
  xread32-Post n s o =
      Post-bind _ _ (xread 4 false s) word_of (xread-Post 4 n s o)
        λ b t (a, l, m, e, o'). word b t a l e m o'
    where
      word :
          (b : List ℕ) (t : Files)
          → All IsByte b
          → length b ≡ 4
          → s.fi ≡ b ++ t.fi
          → 4 ≤ n
          → Open file F (n - 4) t
          → Post
              (λ v t. (s.fi ≡ word_bytes v ++ t.fi) × (4 ≤ n) × Open file F (n - 4) t)
              (word_of b t)
      word [] t a l e m o' = absurd (omega (arith, l))
      word (b₀ ∷ []) t a l e m o' = absurd (omega (arith, l))
      word (b₀ ∷ b₁ ∷ []) t a l e m o' = absurd (omega (arith, l))
      word (b₀ ∷ b₁ ∷ b₂ ∷ []) t a l e m o' = absurd (omega (arith, l))
      word (b₀ ∷ b₁ ∷ b₂ ∷ b₃ ∷ x ∷ xs) t a l e m o' = absurd (omega (arith, l))
      word (b₀ ∷ b₁ ∷ b₂ ∷ b₃ ∷ []) t (h₀, (h₁, (h₂, (h₃, u)))) l e m o' =
          unfold word_of in
          (
            rw (word_value b₀ b₁ b₂ b₃ h₀ h₁ h₂ h₃)
                (e ∙ ap (λ y. y ++ t.fi) (sym (word_bytes-word b₀ b₁ b₂ b₃ h₀ h₁ h₂ h₃))),
            m,
            o',
          )

  pub xgetc-Post : (n : ℕ) (s : Files) → Open file F n s → Post (λ c t. Open file F n t) (xgetc s)
  unfolding xgetc
  xgetc-Post n s o =
      Post-bind _ _ (xread 1 false s) byte_of (xread-Post 1 n s o)
        λ b t (a, l, m, e, o'). first b t l o'
    where
      first :
          (b : List ℕ) (t : Files)
          → length b ≡ 1
          → Open file F (n - 1) t
          → Post (λ c t. Open file F n t) (byte_of b t)
      first [] t l o' = absurd (omega (arith, l))
      first (c ∷ rest) t l (a, m, k, f) = unfold byte_of in (a, omega arith, k, f)
