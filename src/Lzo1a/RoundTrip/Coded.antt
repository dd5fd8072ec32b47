-- ===== src/Lzo1a/RoundTrip/Coded.antt =====
-- src/lzo1a.c: a piece of compressed data as what it does to the output and to the loop that reads it.
use lzo.Base.{ℕ, zero, suc, ◌+◌, ◌<◌, ◌≡◌, refl, arith, ◌∙◌, ap, sym, List, [], ◌∷◌, ◌++◌, length}
use lzo.Base.{length-append}
use lzo.Lzo1x.Decoder.{next, returned, e_ok}
use lzo.Lzo1a.Decoder.{Mode, any_code, mode_round, run, decompress}
use mathlib.Core.List.{append_assoc, append-nil}

module _ (size : ℕ) where
  -- Whatever follows it, `code` turns the output `out` into `out'` and the mode `m` into `m'`, in no more
  -- rounds than it has bytes.
  pub record Coded (m : Mode) (out code : List ℕ) (m' : Mode) (out' : List ℕ) : Type 0 where
    pub goes_on :
        (fuel : ℕ) (more : List ℕ)
        → length (code ++ more) < fuel
        → (left : ℕ) × (length more < left)
          × (run size fuel m (code ++ more) out ≡ run size left m' more out')

  pub Coded-nil : (m : Mode) (out : List ℕ) → Coded m out [] m out
  Coded-nil m out = record { goes_on = λ fuel more h. (fuel, h, refl) }

  pub Coded-append :
      (m m' m'' : Mode) (out code out' code' out'' : List ℕ)
      → Coded m out code m' out'
      → Coded m' out' code' m'' out''
      → Coded m out (code ++ code') m'' out''
  Coded-append m m' m'' out code out' code' out'' c c' = record { goes_on = steps }
    where
      steps :
          (fuel : ℕ) (more : List ℕ)
          → length ((code ++ code') ++ more) < fuel
          → (left : ℕ) × (length more < left)
            × (run size fuel m ((code ++ code') ++ more) out ≡ run size left m'' more out'')
      steps fuel more h =
          let e = append_assoc code code' more in
          let (left, l, r) =
            c.goes_on fuel (code' ++ more) (omega (arith, ap (λ xs. length xs) e)) in
          let (left', l', r') = c'.goes_on left more l in
          (left', l', ap (λ xs. run size fuel m xs out) e ∙ r ∙ r')

  -- One round of either loop.
  pub Coded-round :
      (m m' : Mode) (out out' : List ℕ) (b : ℕ) (code : List ℕ)
      → ((more : List ℕ) → mode_round size m (b ∷ (code ++ more)) out ≡ next (m', (more, out')))
      → Coded m out (b ∷ code) m' out'
  unfolding run
  Coded-round m m' out out' b code h = record { goes_on = steps }
    where
      steps :
          (fuel : ℕ) (more : List ℕ)
          → length (b ∷ (code ++ more)) < fuel
          → (left : ℕ) × (length more < left)
            × (run size fuel m (b ∷ (code ++ more)) out ≡ run size left m' more out')
      steps zero more l = absurd (omega arith)
      steps (suc fuel) more l =
          (fuel, omega (arith, length-append code more), rw (h more, run) refl)

  -- A whole stream, which may end in either loop.
  pub Coded-decompress :
      (m : Mode) (code out : List ℕ)
      → Coded any_code [] code m out
      → decompress size code ≡ returned e_ok out
  unfolding decompress
  Coded-decompress m code out c =
      let e = append-nil code in
      let (left, l, r) = c.goes_on (length code + 1) [] (omega (arith, ap (λ xs. length xs) e)) in
      ap (λ xs. run size (length code + 1) any_code xs []) (sym e) ∙ r ∙ ends left l
    where
      ends : (left : ℕ) → 0 < left → run size left m [] out ≡ returned e_ok out
      ends zero h = absurd (omega arith)
      ends (suc left) h = unfold run in refl
