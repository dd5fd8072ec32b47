-- ===== src/Lzopack/Does.antt =====
-- examples/lzopack.c: what a function reads and writes, where it goes on with a value.
use lzo.Base.{ℕ, ◌+◌, ◌^◌, ◌<◌, ◌≡◌, refl, sym, ap, arith, u64, u8}
use lzo.Base.{Bool, true, false, ◌||◌, ◌==◌, Option, none, some}
use lzo.Base.{List, [], ◌∷◌, ◌++◌, length, length-append, take, drop}
use lzo.Base.{take-append_front, drop-append_front, take-append-drop}
use lzo.Frag.Ints.{or_bytes}
use lzo.Lzopack.State.{
  Files, Exec, value, pure, ◌>>=◌, ◌>>◌, ensure, xread, xwrite, xgetc, xputc, byte_of, word_of,
  xread32, xwrite32, word_bytes,
}
use mathlib.Core.List.{append_assoc, append-nil}
use mathlib.Core.Path.{subst}

abbrev pub extended_by : Option (List ℕ) → List ℕ → Option (List ℕ)
extended_by none x = none
extended_by (some out) x = some (out ++ x)

extended_by-extended_by :
    (fo : Option (List ℕ)) (x y : List ℕ)
    → extended_by (extended_by fo x) y ≡ extended_by fo (x ++ y)
extended_by-extended_by none x y = refl
extended_by-extended_by (some out) x y = ap some (append_assoc out x y)

extended_by_nil : (fo : Option (List ℕ)) → extended_by fo [] ≡ fo
extended_by_nil none = refl
extended_by_nil (some out) = ap some (append-nil out)

-- The counters have the width of `unsigned long`.
abbrev pub files : List ℕ → Option (List ℕ) → ℕ → ℕ → Files
files fi fo i o = record { fi = fi; fo = fo; total_in = u64 i; total_out = u64 o }

-- In front of `rest`, `m` reads `w`, writes `x` and goes on with `a`.
pub record Does {ℓ} {A : Type ℓ} (rest : List ℕ) (m : Exec A) (a : A) (w x : List ℕ) : Type ℓ where
  pub at :
      (fo : Option (List ℕ)) (i o : ℕ)
      → m (files (w ++ rest) fo i o)
        ≡ (value a, files rest (extended_by fo x) (i + length w) (o + length x))

pub Does-bind {ℓ κ} :
    {A : Type ℓ} {B : Type κ} (rest : List ℕ) (m : Exec A) (f : A → Exec B) (a : A) (b : B)
    (w w' x x' : List ℕ)
    → Does (w' ++ rest) m a w x
    → Does rest (f a) b w' x'
    → Does rest (m >>= f) b (w ++ w') (x ++ x')
Does-bind rest m f a b w w' x x' p q = record {
  at = λ fo i o.
      let e : i + length w + length w' ≡ i + length (w ++ w') = omega (arith, length-append w w') in
      let e' : o + length x + length x' ≡ o + length (x ++ x') =
        omega (arith, length-append x x') in
      rw
        (append_assoc w w' rest, p.at fo i o, q.at (extended_by fo x) (i + length w) (o + length x))
        (rw (extended_by-extended_by fo x x', e, e') refl);
}

pub Does-pure {ℓ} : {A : Type ℓ} (rest : List ℕ) (a : A) → Does rest (pure a) a [] []
Does-pure rest a = record {
  at = λ fo i o.
      let e : i + 0 ≡ i = omega arith in
      let e' : o + 0 ≡ o = omega arith in rw (extended_by_nil fo, e, e') refl;
}

pub Does-eq {ℓ} :
    {A : Type ℓ} {rest : List ℕ} {m n : Exec A} {a : A} {w x : List ℕ}
    → m ≡ n
    → Does rest n a w x
    → Does rest m a w x
Does-eq {rest = rest} {a = a} {w = w} {x = x} e d = subst (λ k. Does rest k a w x) (sym e) d

-- The same bytes, put together in another way.
pub Does-bytes {ℓ} :
    {A : Type ℓ} {rest : List ℕ} {m : Exec A} {a : A} {w w' x x' : List ℕ}
    → w ≡ w'
    → x ≡ x'
    → Does rest m a w x
    → Does rest m a w' x'
Does-bytes {rest = rest} {m = m} {a = a} {w' = w'} {x = x} e e' d =
    subst (λ y. Does rest m a w' y) e' (subst (λ v. Does rest m a v x) e d)

-- A run from counters that are zero.
pub from_zero {ℓ} :
    {A : Type ℓ} {rest : List ℕ} {m : Exec A} {a : A} {w x : List ℕ}
    → Does rest m a w x
    → (fo : Option (List ℕ))
    → m (record { fi = w ++ rest; fo = fo; total_in = 0; total_out = 0 })
      ≡ (value a, files rest (extended_by fo x) (length w) (length x))
from_zero {w = w} {x = x} d fo =
    let e : 0 + length w ≡ length w = omega arith in
    let e' : 0 + length x ≡ length x = omega arith in rw (e, e') at (d.at fo 0 0)

pub Does-ensure : (rest : List ℕ) (b : Bool) (r : ℕ) → b ≡ true → Does rest (ensure b r) tt [] []
Does-ensure rest b r e = rw e (Does-pure rest tt)

pub Does-ensure_then {ℓ} :
    {A : Type ℓ} (rest : List ℕ) (b : Bool) (r : ℕ) (m : Exec A) (a : A) (w x : List ℕ)
    → b ≡ true
    → Does rest m a w x
    → Does rest (ensure b r >> m) a w x
Does-ensure_then rest b r m a w x e d =
    Does-bind rest (ensure b r) (λ _. m) tt a [] w [] x (Does-ensure (w ++ rest) b r e) d

pub Does-xwrite : (rest x : List ℕ) → Does rest (xwrite x) tt [] x
unfolding xwrite
Does-xwrite rest x = record { at = λ fo i o. written fo i o }
  where
    written :
        (fo : Option (List ℕ)) (i o : ℕ)
        → xwrite x (files rest fo i o)
          ≡ (value tt, files rest (extended_by fo x) (i + 0) (o + length x))
    written none i o =
        let e : i + 0 ≡ i = omega arith in
        let e' : u64 (u64 o + length x) ≡ u64 (o + length x) = omega arith in rw (e, e') refl
    written (some out) i o =
        let e : i + 0 ≡ i = omega arith in
        let e' : u64 (u64 o + length x) ≡ u64 (o + length x) = omega arith in rw (e, e') refl

pub Does-xread : (rest b : List ℕ) (e : Bool) → Does rest (xread (length b) e) b b []
unfolding xread
Does-xread rest b e = record {
  at = λ fo i o.
      let all : (length b == length b) ≡ true = ground arith in
      let z : o + 0 ≡ o = omega arith in
      let s : u64 (u64 i + length b) ≡ u64 (i + length b) = omega arith in
      rw (take-append_front b rest, drop-append_front b rest, all, extended_by_nil fo, z, s) refl;
}

or_true : (b : Bool) → (b || true) ≡ true
or_true true = refl
or_true false = refl

-- What there is, up to `len` bytes.
pub Does-xread_some :
    (len : ℕ) (xs : List ℕ) → Does (drop len xs) (xread len true) (take len xs) (take len xs) []
unfolding xread
Does-xread_some len xs = record {
  at = λ fo i o.
      let any : (length (take len xs) == len || true) ≡ true = or_true _ in
      let z : o + 0 ≡ o = omega arith in
      let s : u64 (u64 i + length (take len xs)) ≡ u64 (i + length (take len xs)) = omega arith in
      rw (take-append-drop len xs, extended_by_nil fo, z, s, any) refl;
}

pub Does-xwrite32 : (rest : List ℕ) (v : ℕ) → Does rest (xwrite32 v) tt [] (word_bytes v)
unfolding xwrite32
Does-xwrite32 rest v = Does-xwrite rest (word_bytes v)

pub Does-xread32 : (rest : List ℕ) (v : ℕ) → v < 2 ^ 32 → Does rest xread32 v (word_bytes v) []
unfolding xread32 word_of
Does-xread32 rest v h =
    Does-bind rest (xread 4 false) word_of (word_bytes v) v (word_bytes v) [] [] []
      (Does-xread rest (word_bytes v) false) (Does-eq (ap pure (or_bytes v h)) (Does-pure rest v))

pub Does-xgetc : (rest : List ℕ) (c : ℕ) → Does rest xgetc c (c ∷ []) []
unfolding xgetc byte_of
Does-xgetc rest c =
    Does-bind rest (xread 1 false) byte_of (c ∷ []) c (c ∷ []) [] [] []
      (Does-xread rest (c ∷ []) false) (Does-pure rest c)

pub Does-xputc : (rest : List ℕ) (c : ℕ) → Does rest (xputc c) tt [] (u8 c ∷ [])
unfolding xputc
Does-xputc rest c = Does-xwrite rest (u8 c ∷ [])
