-- ===== src/Lzo1x/InPlace/Rounds.antt =====
-- The matches of lzo1x_d.ch in place, where the output stays clear of the input.
use lzo.Base.{ℕ, zero, suc, ◌+◌, ◌-◌, ◌*◌, ◌/◌, ◌%◌, ◌^◌, ◌≤◌, ◌≡◌, refl, arith, u64, bit_and}
use lzo.Base.{Bool, true, false, ltb, leb, ◌==◌, ◌||◌, if◌then◌else◌}
use lzo.Base.{List, [], ◌∷◌, ◌++◌, length, length-append}
use lzo.Lzo1x.Format.{Variant}
use lzo.Lzo1x.Decoder.{safe}
use lzo.Lzo1x.Decoder.{Status, Step, next, done, fault, State, e_input_overrun, e_output_overrun}
use lzo.Lzo1x.Decoder.{e_lookbehind_overrun, literal_run, handle_match}
use lzo.Lzo1x.Decoder.{◌>>=◌, ◌>>◌, stop_if, read, copy_literals, copy_match, eof_found}
use lzo.Lzo1x.Decoder.{match_next, match_done, finish_match, m1_match, m2_match, m3_match}
use lzo.Lzo1x.Decoder.{m4_match, any_match, match_length}
use lzo.Lzo1x.Decoder.{m2_off, m2_t}
use lzo.Lzo1x.InPlace.{fetch, match_count, next_match, after_match, make_match}
use lzo.Lzo1x.InPlace.{m1_copy, m2_copy, m3_copy, m4_copy, any_copy}
use lzo.Lzo1x.InPlace.Alike.{
  Gives, IsOk, Ends, bind-alike, stop-alike, cell-untouched, fetch-read, copy_run-copy_literals,
  copy_match-room, match_count-match_length, Within, read-Within, match_length-Within,
  copy_literals-Gives,
}

Gives-any {ℓ} : {A : Type ℓ} (m : Step A) → Gives (λ _. Unit) m
Gives-any (next a) = tt
Gives-any (done status out) = tt
Gives-any fault = tt

module _ (room size : ℕ) where
  -- A test that fails with an error is passed by a round that ends well.
  Ends-stop :
      (b : Bool) (status : Status) (out : List ℕ) (m : Step State)
      → (IsOk status → ⊥)
      → Ends room (stop_if b status out >> m)
      → Ends room m
  Ends-stop true status out m n h = absurd (n h)
  Ends-stop false status out m n h = h

  pub if-alike :
      (b : Bool) (m m' k k' : Step State)
      → Ends room (if b then m else k)
      → (Ends room m → m' ≡ m)
      → (Ends room k → k' ≡ k)
      → (if b then m' else k') ≡ (if b then m else k)
  if-alike true m m' k k' h i j = i h
  if-alike false m m' k k' h i j = j h

  pub next_match-match_next :
      (t : ℕ) (ip out : List ℕ)
      → length out + length ip ≤ room
      → Ends room (match_next size t ip out)
      → next_match room size t ip out ≡ match_next size t ip out
  unfolding next_match match_next
  next_match-match_next t ip out h i =
      stop-alike room (ltb (size - length out) (u64 t)) e_output_overrun out _ _ i λ i.
        stop-alike room (ltb (length ip) (u64 (t + 3))) e_input_overrun out _ _ i λ i.
          bind-alike room _ (copy_literals size t ip out) _ _ _
            (copy_run-copy_literals room size t ip out _ h i)
            (copy_literals-Gives size t ip out (length out + length ip) refl) i
            λ (ip', out') l i. rw (fetch-read room ip' out' (omega arith)) refl

  abbrev marked : List ℕ × List ℕ → Step State
  marked r = read r.0 >>= λ m. next (handle_match m.0, m.1, r.1)

  Ends-copied :
      (t : ℕ) (ip out : List ℕ)
      → Ends room (copy_literals size t ip out >>= marked)
      → length out + length ip + 2 ≤ room
  unfolding copy_literals
  Ends-copied zero [] out h = absurd h
  Ends-copied zero (m ∷ ip) out h = omega arith
  Ends-copied (suc t) [] out h = absurd h
  Ends-copied (suc t) (b ∷ ip) out h =
      go (λ k. Ends-copied t ip (out ++ (b ∷ [])) k) (ltb (length out) size) h
    where
      go :
          (Ends room (copy_literals size t ip (out ++ (b ∷ [])) >>= marked)
            → length (out ++ (b ∷ [])) + length ip + 2 ≤ room)
          → (c : Bool)
          → Ends room (
              ((if c then next (out ++ (b ∷ [])) else fault) >>= λ o. copy_literals size t ip o)
              >>= marked)
          → length out + length (b ∷ ip) + 2 ≤ room
      go rec true h = omega (arith, rec h, length-append out (b ∷ []))
      go rec false h = absurd h

  -- Where a round goes on from a match that is done, its last two bytes are still those of the input.
  Ends-match_next :
      (t : ℕ) (ip out : List ℕ)
      → Ends room (match_next size t ip out)
      → length out + length ip + 2 ≤ room
  unfolding match_next
  Ends-match_next t ip out h = Ends-copied t ip out (
      Ends-stop (ltb (length ip) (u64 (t + 3))) e_input_overrun out _ (λ n. n)
        (Ends-stop (ltb (size - length out) (u64 t)) e_output_overrun out _ (λ n. n) h))

  Ends-match_done :
      (b : ℕ) (ip out : List ℕ)
      → Ends room (match_done size b ip out)
      → length out + length ip + 2 ≤ room
  unfolding match_done
  Ends-match_done b ip out h = go (b % 4 == 0) h
    where
      go :
          (c : Bool)
          → Ends room (if c then next (literal_run, ip, out) else match_next size (b % 4) ip out)
          → length out + length ip + 2 ≤ room
      go true h = omega arith
      go false h = Ends-match_next (b % 4) ip out h

  after_match-match_done :
      (b : ℕ) (ip out : List ℕ)
      → length out + length ip ≤ room
      → Ends room (match_done size b ip out)
      → after_match room size b ip out ≡ match_done size b ip out
  unfolding after_match match_done
  after_match-match_done b ip out h i =
      if-alike (b % 4 == 0) _ (next (literal_run, ip, out)) _ _ i (λ _. refl)
        λ i. next_match-match_next (b % 4) ip out h i

  pub make_match-finish_match :
      (off len b : ℕ) (ip out : List ℕ)
      → Ends room (finish_match size off len b ip out)
      → make_match room size off len b ip out ≡ finish_match size off len b ip out
  unfolding make_match finish_match
  make_match-finish_match off len b ip out i =
      stop-alike room (ltb (length out) off || off == 0) e_lookbehind_overrun out _ _ i λ i.
        stop-alike room (ltb (size - length out) (u64 len)) e_output_overrun out _ _ i λ i.
          bind-alike room (λ _. Unit) (copy_match size off len out) _ _ _
            (copy_match-room room size off len out _
              (λ out' i. let h = Ends-match_done b ip out' i in omega arith) i).0
            (Gives-any (copy_match size off len out)) i
            λ out' _ i.
              let h = Ends-match_done b ip out' i in
              rw (cell-untouched room out' (length ip + 2) b (omega arith))
                (after_match-match_done b ip out' (omega arith) i)

  -- A byte of the input is read, and the round goes on.
  pub fetch-alike :
      (ip out : List ℕ) (f g : ℕ × List ℕ → Step State)
      → length out + length ip ≤ room
      → Ends room (read ip >>= f)
      → ((r : ℕ × List ℕ) → suc (length r.1) ≤ length ip → Ends room (f r) → g r ≡ f r)
      → (fetch room ip out >>= g) ≡ (read ip >>= f)
  fetch-alike ip out f g h i k =
      bind-alike room _ (read ip) _ f g (fetch-read room ip out h)
        (read-Within ip (length ip) (omega arith)) i k

  m1_copy-m1_match :
      (t : ℕ) (ip out : List ℕ)
      → length out + length ip ≤ room
      → Ends room (m1_match size t ip out)
      → m1_copy room size t ip out ≡ m1_match size t ip out
  unfolding m1_copy m1_match
  m1_copy-m1_match t ip out h i =
      fetch-alike ip out _ _ h i
        λ (b, ip') l i. make_match-finish_match (1 + t / 2 ^ 2 + b * 2 ^ 2) 2 t ip' out i

  m2_copy-m2_match :
      (v : Variant) (t : ℕ) (ip out : List ℕ)
      → length out + length ip ≤ room
      → Ends room (m2_match v size t ip out)
      → m2_copy room v size t ip out ≡ m2_match v size t ip out
  unfolding m2_copy m2_match
  m2_copy-m2_match v t ip out h i =
      fetch-alike ip out _ _ h i
        λ (b, ip') l i. make_match-finish_match (m2_off v t b) (u64 (m2_t v t + 2)) t ip' out i

  -- The length of a match is read, and the round goes on.
  count-alike :
      (base t : ℕ) (ip out : List ℕ) (f g : ℕ × List ℕ → Step State)
      → length out + length ip ≤ room
      → Ends room (match_length base t ip out >>= f)
      → ((r : ℕ × List ℕ) → length r.1 ≤ length ip → Ends room (f r) → g r ≡ f r)
      → (match_count room base t ip out >>= g) ≡ (match_length base t ip out >>= f)
  count-alike base t ip out f g h i k =
      bind-alike room (Within (length ip)) (match_length base t ip out) _ f g
        (match_count-match_length room base t ip out h)
        (match_length-Within base t ip out (length ip) (omega arith)) i k

  m3_copy-m3_match :
      (m : ℕ) (ip out : List ℕ)
      → length out + length ip ≤ room
      → Ends room (m3_match size m ip out)
      → m3_copy room size m ip out ≡ m3_match size m ip out
  unfolding m3_copy m3_match
  m3_copy-m3_match m ip out h i = count-alike 31 (m % 32) ip out _ _ h i λ (t, ip₁) l₁ i.
      fetch-alike ip₁ out _ _ (omega arith) i λ (b₀, ip₂) l₂ i.
        fetch-alike ip₂ out _ _ (omega arith) i λ (b₁, ip₃) l₃ i.
          make_match-finish_match (1 + b₀ / 2 ^ 2 + b₁ * 2 ^ 6) (u64 (t + 2)) b₀ ip₃ out i

  m4_copy-m4_match :
      (m : ℕ) (ip out : List ℕ)
      → length out + length ip ≤ room
      → Ends room (m4_match size m ip out)
      → m4_copy room size m ip out ≡ m4_match size m ip out
  unfolding m4_copy m4_match
  m4_copy-m4_match m ip out h i = count-alike 7 (m % 8) ip out _ _ h i λ (t, ip₁) l₁ i.
      fetch-alike ip₁ out _ _ (omega arith) i λ (b₀, ip₂) l₂ i.
        fetch-alike ip₂ out _ _ (omega arith) i λ (b₁, ip₃) l₃ i.
          if-alike (bit_and m 8 * 2 ^ 11 + (b₀ / 2 ^ 2 + b₁ * 2 ^ 6) == 0) (eof_found ip₃ out) _ _ _
            i (λ _. refl)
            λ i.
              make_match-finish_match (bit_and m 8 * 2 ^ 11 + (b₀ / 2 ^ 2 + b₁ * 2 ^ 6) + 0x4000)
                (u64 (t + 2)) b₀ ip₃ out i

  pub any_copy-any_match :
      (v : Variant) (t : ℕ) (ip out : List ℕ)
      → length out + length ip ≤ room
      → Ends room (any_match v size t ip out)
      → any_copy room v size t ip out ≡ any_match v size t ip out
  unfolding any_copy any_match
  any_copy-any_match v t ip out h i =
      if-alike (leb 64 t) _ _ _ _ i (λ i. m2_copy-m2_match v t ip out h i)
        λ i.
          if-alike (leb 32 t) _ _ _ _ i (λ i. m3_copy-m3_match t ip out h i)
            λ i.
              if-alike (leb 16 t) _ _ _ _ i (λ i. m4_copy-m4_match t ip out h i)
                λ i. m1_copy-m1_match t ip out h i
