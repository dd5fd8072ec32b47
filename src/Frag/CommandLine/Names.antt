-- ===== src/Frag/CommandLine/Names.antt =====
-- lzo_cpu/lzo_frag.c: the names of the output files.
use lzo.Base.{◌-◌, ◌<◌, ◌≡◌, refl, sym, ap, arith, inl, inr}
use lzo.Base.{true, false, ltb, Bool-cases, ==_iff, ◌==◌, [], ◌∷◌, ◌++◌, length}
use lzo.Base.{length-append, take-append_front, drop-append_front}
use mathlib.Core.Bool.{false≢true}
use mathlib.Core.Path.{ap₂}
use lzo.Frag.CommandLine.Text.{Chars, same}
use lzo.Frag.CommandLine.Arg
use lzo.Frag.CommandLine.Command.{default_output, lzo_suffix}

pub eq_of_same : (s t : Chars) → same s t ≡ true → s ≡ t
eq_of_same [] [] h = refl
eq_of_same [] (d ∷ t) h = absurd (false≢true h)
eq_of_same (c ∷ s) [] h = absurd (false≢true h)
eq_of_same (c ∷ s) (d ∷ t) h = elim (Bool-cases (c == d)) [
  | inl e ↦ ap₂ (◌∷◌) ((==_iff c d).0 e) (eq_of_same s t (rw e at h))
  | inr e ↦ absurd (false≢true (rw e at h))
]

stripped : (s : Chars) → 0 < length s → default_output true (s ++ lzo_suffix) ≡ s
unfolding default_output
stripped s h =
    let len = length-append s lzo_suffix in
    let not_minus : same (s ++ lzo_suffix) Arg.minus ≡ false =
      elim (Bool-cases (same (s ++ lzo_suffix) Arg.minus)) [
        | inl t ↦ absurd (omega (arith, len, ap length (eq_of_same (s ++ lzo_suffix) Arg.minus t)))
        | inr f ↦ f
      ] in
    let long : ltb 4 (length (s ++ lzo_suffix)) ≡ true = ground (arith, len) in
    let front : length (s ++ lzo_suffix) - 4 ≡ length s = omega (arith, len) in
    rw (not_minus, long, front, drop-append_front s lzo_suffix, take-append_front s lzo_suffix) refl

-- The name that decompression gives to what compression has named is the name of the first input, for
-- every name of at least one character; standard input and output, `-`, keep theirs.
pub default_output-default_output :
    (input : Chars) → 0 < length input → default_output true (default_output false input) ≡ input
unfolding default_output
default_output-default_output input h = elim (Bool-cases (same input Arg.minus)) [
  | inl t ↦ rw t (sym (eq_of_same input Arg.minus t))
  | inr f ↦ rw f (stripped input h)
]
