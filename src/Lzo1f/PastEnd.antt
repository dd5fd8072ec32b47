-- ===== src/Lzo1f/PastEnd.antt =====
-- src/lzo1f_d.ch: what lzo1f_decompress_safe reads behind its input. The offset byte of a match whose marker
-- the outer loop reads has no test, and behind it the difference of NEED_IP wraps.
use lzo.Base.{ℕ, suc, ap, ◌∙◌, ◌-◌, ◌≤◌, ◌<◌, ◌≡◌, refl, arith, ltb, true, false, List, [], ◌∷◌}
use lzo.Lzo1x.Decoder.{next, copy_literals, copy_match}
use lzo.Lzo1f.{
  run, decompress, loop_round, run_of_literals, length_of, literals_marker, short_match,
  close_match, behind_match, eof_not_found, faulted, RoundState, proceed, no_eof, outer_loop,
  inner_loop, match,
}

-- An input that is the marker of a match and nothing else, 32 to 223, makes lzo1f_decompress_safe read the
-- byte behind the input, for every buffer size.
pub lzo1f_decompress_safe-past_end :
    (size t : ℕ) → 32 ≤ t → t < 224 → decompress size (t ∷ []) [] ≡ faulted
unfolding decompress run loop_round short_match
lzo1f_decompress_safe-past_end size t low high =
    let a_match : ltb 31 t ≡ true = ground arith in
    let m2 : ltb t 224 ≡ true = ground arith in rw (a_match, m2) refl

-- A round that goes on.
round_of :
    (size past fuel : ℕ) (s s' : RoundState)
    → loop_round size past s ≡ next s'
    → run size past (suc fuel) s ≡ run size past fuel s'
unfolding run loop_round
round_of size past fuel (outer_loop, ip, out) s' e =
    unfold run in ap (proceed (run size past fuel)) e
round_of size past fuel (no_eof, ip, out) s' e = absurd (ground (arith, e))
round_of size past fuel (inner_loop t, ip, out) s' e =
    unfold run in ap (proceed (run size past fuel)) e
round_of size past fuel (match t, ip, out) s' e = unfold run in ap (proceed (run size past fuel)) e

module _ (size a s₁ s₂ s₃ s₄ : ℕ) (room : 11 ≤ size) where
  behind : List ℕ
  behind = s₁ ∷ s₂ ∷ s₃ ∷ s₄ ∷ []

  free : (n : ℕ) → n < 11 → ltb n size ≡ true
  free n h = ground arith

  fits : (n m : ℕ) → n ≤ 8 → m ≤ 3 → ltb (size - n) m ≡ false
  fits n m h k = ground arith

  -- The two literals, and the marker of the first match.
  first_step :
      loop_round size 5 (outer_loop, 2 ∷ a ∷ a ∷ 32 ∷ 0 ∷ 35 ∷ 0 ∷ behind, [])
      ≡ next (inner_loop 32, 0 ∷ 35 ∷ 0 ∷ behind, a ∷ a ∷ [])
  unfolding loop_round run_of_literals length_of literals_marker copy_literals behind
  first_step =
      rw (fits 0 2 (omega arith) (omega arith), free 0 (omega arith), free 1 (omega arith)) refl

  five : List ℕ
  five = a ∷ a ∷ a ∷ a ∷ a ∷ []

  first_match :
      loop_round size 5 (match 32, 0 ∷ 35 ∷ 0 ∷ behind, a ∷ a ∷ [])
      ≡ next (outer_loop, 35 ∷ 0 ∷ behind, five)
  unfolding loop_round short_match close_match behind_match copy_match five
  first_match =
      rw
        (
          fits 2 3 (omega arith) (omega arith),
          free 2 (omega arith),
          free 3 (omega arith),
          free 4 (omega arith),
        )
        refl

  -- The second match, whose offset byte is behind the input, and the three literals behind that.
  second_match :
      loop_round size 5 (match 35, 0 ∷ behind, five)
      ≡ next (inner_loop s₄, [], a ∷ a ∷ a ∷ a ∷ a ∷ a ∷ a ∷ a ∷ s₁ ∷ s₂ ∷ s₃ ∷ [])
  unfolding loop_round short_match close_match behind_match copy_match literals_marker copy_literals
      five behind
  second_match =
      rw
        (
          fits 5 3 (omega arith) (omega arith),
          free 5 (omega arith),
          free 6 (omega arith),
          free 7 (omega arith),
        )
        (rw
          (
            fits 8 3 (omega arith) (omega arith),
            free 8 (omega arith),
            free 9 (omega arith),
            free 10 (omega arith),
          )
          refl)

  leaked : List ℕ
  leaked = a ∷ a ∷ a ∷ a ∷ a ∷ a ∷ a ∷ a ∷ s₁ ∷ s₂ ∷ s₃ ∷ []

  -- For every buffer of at least 11 bytes and every byte `a`, there is an input of six bytes, with `a` as
  -- its literals, on which lzo1f_decompress_safe, where the first byte behind the input is 0, writes the
  -- next three bytes behind it to the output, whatever their values are, and returns
  -- LZO_E_EOF_NOT_FOUND.
  pub lzo1f_decompress_safe-leak :
      decompress size (2 ∷ a ∷ a ∷ 32 ∷ 0 ∷ 35 ∷ []) (0 ∷ s₁ ∷ s₂ ∷ s₃ ∷ s₄ ∷ [])
      ≡ eof_not_found (a ∷ a ∷ a ∷ a ∷ a ∷ a ∷ a ∷ a ∷ s₁ ∷ s₂ ∷ s₃ ∷ [])
  unfolding decompress behind leaked
  lzo1f_decompress_safe-leak =
      round_of size 5 23 _ _ first_step
      ∙ round_of size 5 22 (inner_loop 32, 0 ∷ 35 ∷ 0 ∷ behind, a ∷ a ∷ [])
          (match 32, 0 ∷ 35 ∷ 0 ∷ behind, a ∷ a ∷ []) (unfold loop_round in refl)
      ∙ round_of size 5 21 _ _ first_match
      ∙ round_of size 5 20 (outer_loop, 35 ∷ 0 ∷ behind, five) (match 35, 0 ∷ behind, five)
          (unfold loop_round in refl)
      ∙ round_of size 5 19 _ _ second_match
      ∙ round_of size 5 18 (inner_loop s₄, [], leaked) (outer_loop, [], leaked)
          (unfold loop_round in refl)
      ∙ round_of size 5 17 (outer_loop, [], leaked) (no_eof, [], leaked) (unfold loop_round in refl)
      ∙ (unfold run in refl)
