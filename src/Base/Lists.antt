-- ===== src/Base/Lists.antt =====
-- Buffers as lists, indexed by native numbers: reads, slices and their laws.
use Prim.Native.Nat.{ℕ, zero, suc, ◌+◌, ◌-◌, ◌≤◌, ◌<◌, min}
use mathlib.Core.Path.{◌≡◌, refl, sym, ap, ◌∙◌}
use mathlib.Core.List.{List, [], ◌∷◌, ◌++◌}
use mathlib.Core.Option.{Option, none, some}
use native.Mathlib.Omega.{arith}

module _ {ℓ} {A : Type ℓ} where
  abbrev pub length : List A → ℕ
  length [] = 0
  length (x ∷ xs) = suc (length xs)

  abbrev pub get_elem? : List A → ℕ → Option A
  get_elem? [] i = none
  get_elem? (x ∷ xs) zero = some x
  get_elem? (x ∷ xs) (suc i) = get_elem? xs i

  abbrev pub get_or : List A → ℕ → A → A
  get_or [] i d = d
  get_or (x ∷ xs) zero d = x
  get_or (x ∷ xs) (suc i) d = get_or xs i d

  -- A write out of bounds changes nothing.
  abbrev pub set : List A → ℕ → A → List A
  set [] i v = []
  set (x ∷ xs) zero v = v ∷ xs
  set (x ∷ xs) (suc i) v = x ∷ set xs i v

  abbrev pub take : ℕ → List A → List A
  take zero xs = []
  take (suc n) [] = []
  take (suc n) (x ∷ xs) = x ∷ take n xs

  abbrev pub drop : ℕ → List A → List A
  drop zero xs = xs
  drop (suc n) [] = []
  drop (suc n) (x ∷ xs) = drop n xs

  abbrev pub All {κ} : (A → Type κ) → List A → Type κ
  All P [] = Unit {κ}
  All P (x ∷ xs) = P x × All P xs

-- The elements from position `i` up to, but not including, position `j`.
abbrev pub slice {ℓ} : {A : Type ℓ} → List A → ℕ → ℕ → List A
slice xs i j = take (j - i) (drop i xs)

module _ {ℓ} {A : Type ℓ} where
  pub length-append : (xs ys : List A) → length (xs ++ ys) ≡ length xs + length ys
  length-append [] ys = omega arith
  length-append (x ∷ xs) ys = omega (arith, length-append xs ys)

  pub empty_of_length : (xs : List A) → length xs ≡ 0 → xs ≡ []
  empty_of_length [] h = refl
  empty_of_length (x ∷ xs) h = absurd (omega arith)

  pub length-take : (n : ℕ) (xs : List A) → length (take n xs) ≡ min n (length xs)
  length-take zero xs = omega arith
  length-take (suc n) [] = omega arith
  length-take (suc n) (x ∷ xs) = omega (arith, length-take n xs)

  pub length-drop : (n : ℕ) (xs : List A) → length (drop n xs) ≡ length xs - n
  length-drop zero xs = omega arith
  length-drop (suc n) [] = omega arith
  length-drop (suc n) (x ∷ xs) = omega (arith, length-drop n xs)

  pub take_all : (n : ℕ) (xs : List A) → length xs ≤ n → take n xs ≡ xs
  take_all zero [] h = refl
  take_all zero (x ∷ xs) h = absurd (omega arith)
  take_all (suc n) [] h = refl
  take_all (suc n) (x ∷ xs) h = ap (◌∷◌ x) (take_all n xs (omega arith))

  pub get_elem?-lt :
      (xs : List A) (i : ℕ) (d : A) → i < length xs → get_elem? xs i ≡ some (get_or xs i d)
  get_elem?-lt [] i d h = absurd (omega arith)
  get_elem?-lt (x ∷ xs) zero d h = refl
  get_elem?-lt (x ∷ xs) (suc i) d h = get_elem?-lt xs i d (omega arith)

  pub get_or-take :
      (n : ℕ) (xs : List A) (i : ℕ) (d : A) → i < n → get_or (take n xs) i d ≡ get_or xs i d
  get_or-take zero xs i d h = absurd (omega arith)
  get_or-take (suc n) [] i d h = refl
  get_or-take (suc n) (x ∷ xs) zero d h = refl
  get_or-take (suc n) (x ∷ xs) (suc i) d h = get_or-take n xs i d (omega arith)

  pub take_snoc :
      (n : ℕ) (xs : List A) (d : A)
      → n < length xs
      → take n xs ++ (get_or xs n d ∷ []) ≡ take (suc n) xs
  take_snoc n [] d h = absurd (omega arith)
  take_snoc zero (x ∷ xs) d h = refl
  take_snoc (suc n) (x ∷ xs) d h = ap (◌∷◌ x) (take_snoc n xs d (omega arith))

  pub take_nil : (k : ℕ) → take {A = A} k [] ≡ []
  take_nil zero = refl
  take_nil (suc k) = refl

  pub take-append-slice : (i j : ℕ) (xs : List A) → i ≤ j → take i xs ++ slice xs i j ≡ take j xs
  take-append-slice zero j xs h = ap (λ k. take k xs) (omega arith)
  take-append-slice (suc i) zero xs h = absurd (omega arith)
  take-append-slice (suc i) (suc j) [] h = take_nil (suc j - suc i)
  take-append-slice (suc i) (suc j) (x ∷ xs) h =
      let e : suc j - suc i ≡ j - i = omega arith in
      ap (◌∷◌ x) (rw e (take-append-slice i j xs (omega arith)))

  pub length-slice : (i j : ℕ) (xs : List A) → i ≤ j → j ≤ length xs → length (slice xs i j) ≡ j - i
  length-slice i j xs h k = omega (arith, length-take (j - i) (drop i xs), length-drop i xs)

  -- What a copy of `n` elements takes from the front of `xs ++ ys`, and leaves.
  pub take-append_front : (xs ys : List A) → take (length xs) (xs ++ ys) ≡ xs
  take-append_front [] ys = refl
  take-append_front (x ∷ xs) ys = ap (◌∷◌ x) (take-append_front xs ys)

  pub drop-append_front : (xs ys : List A) → drop (length xs) (xs ++ ys) ≡ ys
  drop-append_front [] ys = refl
  drop-append_front (x ∷ xs) ys = drop-append_front xs ys

  -- More than all of `xs` from the front of `xs ++ ys`.
  pub take-append_behind :
      (k : ℕ) (xs ys : List A) → length xs ≤ k → take k (xs ++ ys) ≡ xs ++ take (k - length xs) ys
  take-append_behind k [] ys h = ap (λ n. take n ys) (omega arith)
  take-append_behind zero (x ∷ xs) ys h = absurd (omega arith)
  take-append_behind (suc k) (x ∷ xs) ys h =
      let e : suc k - suc (length xs) ≡ k - length xs = omega arith in
      ap (◌∷◌ x) (rw e (take-append_behind k xs ys (omega arith)))

  drop_nil : (n : ℕ) → drop {A = A} n [] ≡ []
  drop_nil zero = refl
  drop_nil (suc n) = refl

  pub drop-drop : (m n : ℕ) (xs : List A) → drop n (drop m xs) ≡ drop (m + n) xs
  drop-drop zero n xs = let e : 0 + n ≡ n = omega arith in ap (λ (k : ℕ). drop k xs) (sym e)
  drop-drop (suc m) n [] = drop_nil n ∙ sym (drop_nil (suc m + n))
  drop-drop (suc m) n (x ∷ xs) =
      let e : suc m + n ≡ suc (m + n) = omega arith in rw e (drop-drop m n xs)

  pub take-append-drop : (n : ℕ) (xs : List A) → take n xs ++ drop n xs ≡ xs
  take-append-drop zero xs = refl
  take-append-drop (suc n) [] = refl
  take-append-drop (suc n) (x ∷ xs) = ap (◌∷◌ x) (take-append-drop n xs)

  pub drop_all : (n : ℕ) (xs : List A) → length xs ≤ n → drop n xs ≡ []
  drop_all zero [] h = refl
  drop_all zero (x ∷ xs) h = absurd (omega arith)
  drop_all (suc n) [] h = refl
  drop_all (suc n) (x ∷ xs) h = drop_all n xs (omega arith)
