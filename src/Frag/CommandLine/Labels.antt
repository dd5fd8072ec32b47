-- ===== src/Frag/CommandLine/Labels.antt =====
-- lzo_cpu/lzo_frag.c: the labels of `-L` and the numbers of `-t`.
use lzo.Base.{ℕ, ◌≤◌, ◌<◌, ◌≡◌, refl, arith}
use lzo.Base.{Bool, true, false, ◌||◌, ltb, ◌==◌, Bool-cases, ◌⊎◌, inl, inr}
use lzo.Base.{if◌then◌else◌, Option, none, some, length}
use mathlib.Core.Bool.{false≢true}
use mathlib.Core.Option.{some-injective, none-ne-some}
use lzo.Frag.{Alg, alg_none, alg_1x, alg_1k, alg_1l, alg_1o}
use lzo.Frag.CommandLine.Text.{
  Chars, same_case, alg_from_spec, allowed, parse_int, strtol, int_max, label_1, label_1x, label_1k,
  label_1l, label_1o,
}
use lzo.Frag.CommandLine.Parse.{is_none}

unfoldable pub IsAlg : Alg → Type 0
IsAlg alg_none = ⊥
IsAlg alg_1x = Unit
IsAlg alg_1k = Unit
IsAlg alg_1l = Unit
IsAlg alg_1o = Unit

pub allowed-IsAlg : (s : Chars) → allowed s ≡ true → IsAlg (alg_from_spec s)
unfolding allowed alg_from_spec IsAlg
allowed-IsAlg s h =
    by_tests (same_case s label_1) (same_case s label_1x) (same_case s label_1k)
      (same_case s label_1l) (same_case s label_1o) h
  where
    by_tests :
        (is_1 is_1x is_1k is_1l is_1o : Bool)
        → (is_1 || (is_1k || (is_1l || is_1o))) ≡ true
        → IsAlg (
            if is_1 || is_1x
            then alg_1x
            else if is_1k
            then alg_1k
            else if is_1l
            then alg_1l
            else if is_1o
            then alg_1o
            else alg_none)
    by_tests true is_1x is_1k is_1l is_1o h = tt
    by_tests false true is_1k is_1l is_1o h = tt
    by_tests false false true is_1l is_1o h = tt
    by_tests false false false true is_1o h = tt
    by_tests false false false false true h = tt
    by_tests false false false false false h = absurd (false≢true h)

-- The algorithm that a label sets; a label is only there in the mode that compresses.
unfoldable pub Labelled : Bool → Option Chars → Alg → Type 0
Labelled mode none alg = alg ≡ alg_none
Labelled mode (some spec) alg =
    (mode ≡ false) × (alg ≡ alg_from_spec spec) × IsAlg (alg_from_spec spec)

pub Option-cases {ℓ} : {A : Type ℓ} (o : Option A) → (o ≡ none) ⊎ ((a : A) × (o ≡ some a))
Option-cases none = inl refl
Option-cases (some a) = inr (a, refl)

pub unlabelled :
    (mode : Bool) (spec : Option Chars) (alg : Alg)
    → Labelled mode spec alg
    → is_none spec ≡ true
    → Labelled true spec alg
unfolding Labelled
unlabelled mode none alg h t = h
unlabelled mode (some spec) alg h t = absurd (false≢true t)

pub parse_int-bounds : (s : Chars) (n : ℕ) → parse_int s ≡ some n → (0 < n) × (n ≤ int_max)
unfolding parse_int
parse_int-bounds s n h = by_tests (ltb 0 (length (strtol s).1.1)) (strtol s).0 (strtol s).1.0 h
  where
    by_tests :
        (more minus : Bool) (v : ℕ)
        → (if more then none else if minus || v == 0 || ltb int_max v then none else some v)
          ≡ some n
        → (0 < n) × (n ≤ int_max)
    by_tests true minus v h = absurd (none-ne-some _ h)
    by_tests false true v h = absurd (none-ne-some _ h)
    by_tests false false v h = elim (Bool-cases (v == 0 || ltb int_max v)) [
      | inl t ↦ absurd (none-ne-some _ (rw t at h))
      | inr f ↦
          let e : v ≡ n = some-injective _ _ (rw f at h) in
          let b : (0 < v) × (v ≤ int_max) = ground arith in
          (omega (arith, b.0, e), omega (arith, b.1, e))
    ]

pub final_alg-IsAlg :
    (spec : Option Chars) (alg : Alg)
    → Labelled false spec alg
    → IsAlg (elim spec [ none ↦ alg_from_spec label_1 | some s ↦ alg_from_spec s ])
unfolding Labelled IsAlg alg_from_spec
final_alg-IsAlg none alg h = tt
final_alg-IsAlg (some s) alg h = h.2
