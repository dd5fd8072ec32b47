-- ===== src/Lzo1x/InPlace/Steps.antt =====
-- The rounds of lzo1x_d.ch from a label on, and the code before the loop, in place.
use lzo.Base.{ℕ, ◌+◌, ◌-◌, ◌*◌, ◌/◌, ◌^◌, ◌≤◌, ◌≡◌, refl, arith, u64}
use lzo.Base.{ltb, leb}
use lzo.Base.{List, [], length}
use lzo.Lzo1x.Format.{Variant, m2_max_offset}
use lzo.Lzo1x.Decoder.{safe}
use lzo.Lzo1x.Decoder.{next, State, e_input_overrun, e_output_overrun}
use lzo.Lzo1x.Decoder.{literal_run, first_literal_run, handle_match}
use lzo.Lzo1x.Decoder.{run_length, literals, step, start}
use lzo.Lzo1x.InPlace.{literal_copy}
use lzo.Lzo1x.InPlace.{step_in_place, start_in_place}
use lzo.Lzo1x.InPlace.Alike.{
  Ends, bind-alike, stop-alike, copy_run-copy_literals, run_count-run_length, Within,
  run_length-Within,
}
use lzo.Lzo1x.InPlace.Rounds.{
  any_copy-any_match, make_match-finish_match, if-alike, fetch-alike, next_match-match_next,
}

module _ (room size : ℕ) where
  literal_copy-literals :
      (m : ℕ) (ip out : List ℕ)
      → length out + length ip ≤ room
      → Ends room (literals size m ip out)
      → literal_copy room size m ip out ≡ literals size m ip out
  unfolding literal_copy literals
  literal_copy-literals m ip out h i =
      bind-alike room (Within (length ip)) (run_length m ip out) _ _ _
        (run_count-run_length room m ip out h)
        (run_length-Within m ip out (length ip) (omega arith)) i
        λ (t, ip₁) l i.
          stop-alike room (ltb (size - length out) (u64 (t + 3))) e_output_overrun out _ _ i λ i.
            stop-alike room (ltb (length ip₁) (u64 (t + 6))) e_input_overrun out _ _ i
              λ i. rw (copy_run-copy_literals room size (t + 3) ip₁ out _ (omega arith) i) refl

  pub step_in_place-step :
      (v : Variant) (s : State)
      → length s.2 + length s.1 ≤ room
      → Ends room (step v size s)
      → step_in_place room v size s ≡ step v size s
  unfolding step_in_place step
  step_in_place-step v (literal_run, ip, out) h i =
      stop-alike room (ltb (length ip) (u64 3)) e_input_overrun out _ _ i λ i.
        fetch-alike room size ip out _ _ h i λ (t, ip') l i.
          if-alike room size (leb 16 t) (next (handle_match t, ip', out)) _ _ _ i (λ _. refl)
            λ i. literal_copy-literals t ip' out (omega arith) i
  step_in_place-step v (first_literal_run, ip, out) h i =
      fetch-alike room size ip out _ _ h i λ (t, ip') l i.
        if-alike room size (leb 16 t) (next (handle_match t, ip', out)) _ _ _ i (λ _. refl)
          λ i. fetch-alike room size ip' out _ _ (omega arith) i λ (b, ip'') l' i.
            make_match-finish_match room size (1 + m2_max_offset v + t / 2 ^ 2 + b * 2 ^ 2) 3 t ip''
              out i
  step_in_place-step v (handle_match t, ip, out) h i = any_copy-any_match room size v t ip out h i

  pub start_in_place-start :
      (ip : List ℕ)
      → length ip ≤ room
      → Ends room (start size ip)
      → start_in_place room size ip ≡ start size ip
  unfolding start_in_place start
  start_in_place-start ip h i =
      stop-alike room (ltb (length ip) (u64 1)) e_input_overrun [] _ _ i λ i.
        fetch-alike room size ip [] _ _ (omega arith) i λ (b, ip') l i.
          if-alike room size (ltb 17 b) _ _ _ _ i
            (λ i.
              if-alike room size (ltb (b - 17) 4) _ _ _ _ i
                (λ i. next_match-match_next room size (b - 17) ip' [] (omega arith) i)
                λ i.
                  stop-alike room (ltb (size - length {A = ℕ} []) (u64 (b - 17))) e_output_overrun
                    [] _ _ i
                    λ i.
                      stop-alike room (ltb (length ip') (u64 (b - 17 + 3))) e_input_overrun [] _ _ i
                        λ i.
                          rw (copy_run-copy_literals room size (b - 17) ip' [] _ (omega arith) i)
                            refl)
            λ _. refl
