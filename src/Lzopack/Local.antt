-- ===== src/Lzopack/Local.antt =====
-- examples/lzopack.c: the functions of do_decompress with more bytes behind their input.
pub mod Whole
pub mod Cut
use lzo.Base.{ℕ, zero, suc, ◌+◌, ◌≡◌, refl, ◌∙◌, ap, arith, u64}
use lzo.Base.{Bool, true, false, ◌==◌, Bool-cases, inl, inr}
use lzo.Base.{List, [], ◌∷◌, ◌++◌, length, take, drop}
use lzo.Lzopack.State.{
  Files, End, Exec, value, err, exits, undefined, pure, stop, continue, ◌>>=◌, ◌>>◌, ensure, xread,
  xwrite, xgetc, byte_of, word_of, xread32,
}

abbrev pub behind : Files → List ℕ → Files
behind s more = record s { fi = s.fi ++ more }

-- `m'` does what `m` does, with `more` behind the input.
pub record Local {ℓ} {A : Type ℓ} (more : List ℕ) (m m' : Exec A) : Type ℓ where
  pub at :
      (s : Files) (a : A) (t : Files)
      → m s ≡ (value a, t)
      → m' (behind s more) ≡ (value a, behind t more)

pub take-append_enough :
    (n : ℕ) (xs ys : List ℕ) → length (take n xs) ≡ n → take n (xs ++ ys) ≡ take n xs
take-append_enough zero xs ys h = refl
take-append_enough (suc n) [] ys h = absurd (omega (arith, h))
take-append_enough (suc n) (x ∷ xs) ys h =
    ap (◌∷◌ x) (take-append_enough n xs ys (omega (arith, h)))

pub drop-append_enough :
    (n : ℕ) (xs ys : List ℕ) → length (take n xs) ≡ n → drop n (xs ++ ys) ≡ drop n xs ++ ys
drop-append_enough zero xs ys h = refl
drop-append_enough (suc n) [] ys h = absurd (omega (arith, h))
drop-append_enough (suc n) (x ∷ xs) ys h = drop-append_enough n xs ys (omega (arith, h))

module _ (more : List ℕ) where
  pub Local-pure {ℓ} : {A : Type ℓ} (a : A) → Local more (pure a) (pure a)
  Local-pure a = record {
    at = λ s b t e.
        ap (λ x. (x, behind s more)) (ap (λ r. r.0) e)
        ∙ ap (λ x. (value b, behind x more)) (ap (λ r. r.1) e);
  }

  pub Local-bind {ℓ κ} :
      {A : Type ℓ} {B : Type κ} (m m' : Exec A) (f f' : A → Exec B)
      → Local more m m'
      → ((a : A) → Local more (f a) (f' a))
      → Local more (m >>= f) (m' >>= f')
  Local-bind {A = A} {B = B} m m' f f' h k = record { at = λ s b t e. go s b t (m s) refl e }
    where
      go :
          (s : Files) (b : B) (t : Files) (r : End A × Files)
          → m s ≡ r
          → continue r f ≡ (value b, t)
          → continue (m' (behind s more)) f' ≡ (value b, behind t more)
      go s b t (value a, u) p e = rw (h.at s a u p) ((k a).at u b t e)
      go s b t (err c, u) p e = cc
      go s b t (exits, u) p e = cc
      go s b t (undefined, u) p e = cc

  pub Local-ensure {ℓ} :
      {A : Type ℓ} (b : Bool) (r : ℕ) (m m' : Exec A)
      → (b ≡ true → Local more m m')
      → Local more (ensure b r >> m) (ensure b r >> m')
  Local-ensure true r m m' h = record { at = λ s a t e. (h refl).at s a t e }
  Local-ensure false r m m' h = record { at = λ s a t e. cc }

  pub Local-stop {ℓ} : {A : Type ℓ} (r : ℕ) (m' : Exec A) → Local more (stop (err r)) m'
  Local-stop r m' = record { at = λ s a t e. cc }

  pub Local-undefined {ℓ} : {A : Type ℓ} (m' : Exec A) → Local more (stop undefined) m'
  Local-undefined m' = record { at = λ s a t e. cc }

  ended :
      (s : Files) (a : List ℕ) (t : Files)
      → ◌≡◌ {A = End (List ℕ) × Files} (exits, s) (value a, t)
      → ⊥
  ended s a t e = cc

  pub Local-xread : (len : ℕ) → Local more (xread len false) (xread len false)
  unfolding xread
  Local-xread len = record { at = λ s a t e. read s a t e }
    where
      read :
          (s : Files) (a : List ℕ) (t : Files)
          → xread len false s ≡ (value a, t)
          → xread len false (behind s more) ≡ (value a, behind t more)
      read s a t e = elim (Bool-cases (length (take len s.fi) == len)) [
        | inl whole ↦
            let size : length (take len s.fi) ≡ len = ground arith in
            rw (take-append_enough len s.fi more size, drop-append_enough len s.fi more size, whole)
              ((Local-pure (take len s.fi)).at
                (record s {
                  fi = drop len s.fi;
                  total_in = u64 (s.total_in + length (take len s.fi));
                })
                a t (rw whole at e))
        | inr short ↦ absurd (ended (record s { fi = drop len s.fi }) a t (rw short at e))
      ]

  pub Local-xwrite : (x : List ℕ) → Local more (xwrite x) (xwrite x)
  unfolding xwrite
  Local-xwrite x = record { at = λ s a t e. ap (λ y. (value tt, behind y more)) (ap (λ r. r.1) e) }

  pub Local-xread32 : Local more xread32 xread32
  unfolding xread32
  Local-xread32 =
      Local-bind (xread 4 false) (xread 4 false) word_of word_of (Local-xread 4) λ b. word b
    where
      word : (b : List ℕ) → Local more (word_of b) (word_of b)
      word [] = unfold word_of in Local-undefined _
      word (b₀ ∷ []) = unfold word_of in Local-undefined _
      word (b₀ ∷ b₁ ∷ []) = unfold word_of in Local-undefined _
      word (b₀ ∷ b₁ ∷ b₂ ∷ []) = unfold word_of in Local-undefined _
      word (b₀ ∷ b₁ ∷ b₂ ∷ b₃ ∷ rest) = unfold word_of in Local-pure _

  pub Local-xgetc : Local more xgetc xgetc
  unfolding xgetc
  Local-xgetc =
      Local-bind (xread 1 false) (xread 1 false) byte_of byte_of (Local-xread 1) λ b. first b
    where
      first : (b : List ℕ) → Local more (byte_of b) (byte_of b)
      first [] = unfold byte_of in Local-undefined _
      first (c ∷ rest) = unfold byte_of in Local-pure c
