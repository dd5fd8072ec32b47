-- ===== src/Lzo1/RoundTrip/Coded.antt =====
-- src/lzo1.c: a piece of compressed data as what it does to the output.
use lzo.Base.{ℕ, zero, suc, ◌+◌, ◌<◌, ◌≡◌, refl, arith, ◌∙◌, ap, sym, List, [], ◌∷◌, ◌++◌, length}
use lzo.Base.{length-append}
use lzo.Lzo1x.Decoder.{next, returned, e_ok}
use lzo.Lzo1.Decoder.{round, run, decompress}
use mathlib.Core.List.{append_assoc, append-nil}

module _ (size : ℕ) where
  -- Whatever follows it, `code` turns the output `out` into `out'`, in no more rounds than it has bytes.
  pub record Coded (out code out' : List ℕ) : Type 0 where
    pub goes_on :
        (fuel : ℕ) (more : List ℕ)
        → length (code ++ more) < fuel
        → (left : ℕ) × (length more < left)
          × (run size fuel (code ++ more) out ≡ run size left more out')

  pub Coded-nil : (out : List ℕ) → Coded out [] out
  Coded-nil out = record { goes_on = λ fuel more h. (fuel, h, refl) }

  pub Coded-append :
      (out code out' code' out'' : List ℕ)
      → Coded out code out'
      → Coded out' code' out''
      → Coded out (code ++ code') out''
  Coded-append out code out' code' out'' c c' = record { goes_on = steps }
    where
      steps :
          (fuel : ℕ) (more : List ℕ)
          → length ((code ++ code') ++ more) < fuel
          → (left : ℕ) × (length more < left)
            × (run size fuel ((code ++ code') ++ more) out ≡ run size left more out'')
      steps fuel more h =
          let e = append_assoc code code' more in
          let (left, l, r) =
            c.goes_on fuel (code' ++ more) (omega (arith, ap (λ xs. length xs) e)) in
          let (left', l', r') = c'.goes_on left more l in
          (left', l', ap (λ xs. run size fuel xs out) e ∙ r ∙ r')

  -- One round of the decoder.
  pub Coded-round :
      (out out' : List ℕ) (b : ℕ) (code : List ℕ)
      → ((more : List ℕ) → round size (b ∷ (code ++ more)) out ≡ next (more, out'))
      → Coded out (b ∷ code) out'
  unfolding run
  Coded-round out out' b code h = record { goes_on = steps }
    where
      steps :
          (fuel : ℕ) (more : List ℕ)
          → length (b ∷ (code ++ more)) < fuel
          → (left : ℕ) × (length more < left)
            × (run size fuel (b ∷ (code ++ more)) out ≡ run size left more out')
      steps zero more l = absurd (omega arith)
      steps (suc fuel) more l =
          (fuel, omega (arith, length-append code more), rw (h more, run) refl)

  -- A whole stream.
  pub Coded-decompress :
      (code out : List ℕ) → Coded [] code out → decompress size code ≡ returned e_ok out
  unfolding decompress
  Coded-decompress code out c =
      let e = append-nil code in
      let (left, l, r) = c.goes_on (length code + 1) [] (omega (arith, ap (λ xs. length xs) e)) in
      ap (λ xs. run size (length code + 1) xs []) (sym e) ∙ r ∙ ends left l
    where
      ends : (left : ℕ) → 0 < left → run size left [] out ≡ returned e_ok out
      ends zero h = absurd (omega arith)
      ends (suc left) h = unfold run in refl
