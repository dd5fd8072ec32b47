-- ===== src/Frag/Workers/Ends.antt =====
-- lzo_cpu/lzo_frag.c: the workers of a job come to an end.
use lzo.Base.{
  ℕ, ◌+◌, ◌-◌, ◌*◌, ◌≢◌, ◌<◌, ◌≡◌, refl, sym, ap, zero, suc, arith, ◌⊎◌, inl, inr, All, length,
  length-append,
}
use mathlib.Core.Path.{subst}
use lzo.Base.{ltb→lt, ltb, Bool-cases}
use lzo.Base.{Option, List, [], ◌∷◌, ◌++◌}
use lzo.Frag.Workers.{Worker, fetching, finished, checking, working, Job, turn, Reaches, turned}
use lzo.Frag.Workers.Kept.{outcome}

IsFinished : Worker → Type 0
IsFinished fetching = ⊥
IsFinished finished = Unit
IsFinished (checking i) = ⊥
IsFinished (working i) = ⊥

fetching≢finished : fetching ≢ finished
unfolding IsFinished
fetching≢finished e = subst IsFinished (sym e) tt

checking≢finished : (i : ℕ) → checking i ≢ finished
unfolding IsFinished
checking≢finished i e = subst IsFinished (sym e) tt

working≢finished : (i : ℕ) → working i ≢ finished
unfolding IsFinished
working≢finished i e = subst IsFinished (sym e) tt

module _ {ℓ} {A : Type ℓ} (work : ℕ → Option A) (chunk_count : ℕ) where
  abbrev pub weight : Worker → ℕ
  weight fetching = 1
  weight (checking i) = 3
  weight (working i) = 2
  weight finished = 0

  abbrev pub weights : List Worker → ℕ
  weights [] = 0
  weights (w ∷ ws) = weight w + weights ws

  weights-append : (xs ys : List Worker) → weights (xs ++ ys) ≡ weights xs + weights ys
  weights-append [] ys = omega arith
  weights-append (x ∷ xs) ys = omega (arith, weights-append xs ys)

  lighter :
      (j : Job A) (w : Worker)
      → w ≢ finished
      → 3 * (chunk_count - (turn work chunk_count j w).0.next_index)
          + weight (turn work chunk_count j w).1
        < 3 * (chunk_count - j.next_index) + weight w
  lighter j fetching h = elim (Bool-cases (ltb j.next_index chunk_count)) [
    | inl t ↦ rw t (omega (arith, ltb→lt j.next_index chunk_count t))
    | inr f ↦ rw f (omega arith)
  ]
  lighter j (checking i) h = elim (Bool-cases j.is_ok) [
    | inl t ↦ rw t (omega arith)
    | inr f ↦ rw f (omega arith)
  ]
  lighter j (working i) h = elim (outcome work chunk_count i) [
    | inl e ↦ rw (e, turn) (omega arith)
    | inr (a, e) ↦ rw (e, turn) (omega arith)
  ]
  lighter j finished h = absurd (h refl)

  -- Each turn of a worker that has not finished brings the workers nearer to the end: three for each
  -- chunk not yet fetched, and what the workers still have to do, become less.
  pub turn-terminates :
      (j : Job A) (before after : List Worker) (w : Worker)
      → w ≢ finished
      → 3 * (chunk_count - (turn work chunk_count j w).0.next_index)
          + weights (before ++ ((turn work chunk_count j w).1 ∷ after))
        < 3 * (chunk_count - j.next_index) + weights (before ++ (w ∷ after))
  turn-terminates j before after w h = omega (
    arith,
    lighter j w h,
    weights-append before (w ∷ after),
    weights-append before ((turn work chunk_count j w).1 ∷ after),
  )

  -- One of the workers has not finished, or all have.
  unfinished :
      (ws : List Worker)
      → All (λ w. w ≡ finished) ws
        ⊎ ((before : List Worker) × (w : Worker) × (after : List Worker) × (w ≢ finished)
            × (ws ≡ before ++ (w ∷ after)))
  unfinished [] = inl tt
  unfinished (finished ∷ ws) = elim (unfinished ws) [
    | inl all ↦ inl (refl, all)
    | inr (before, w, after, h, e) ↦ inr (finished ∷ before, w, after, h, ap (◌∷◌ finished) e)
  ]
  unfinished (fetching ∷ ws) = inr ([], fetching, ws, fetching≢finished, refl)
  unfinished (checking i ∷ ws) = inr ([], checking i, ws, checking≢finished i, refl)
  unfinished (working i ∷ ws) = inr ([], working i, ws, working≢finished i, refl)

  finish :
      (fuel : ℕ) (j : Job A) (ws : List Worker)
      → 3 * (chunk_count - j.next_index) + weights ws < fuel
      → Reaches work chunk_count j ws
      → (j' : Job A) × (ws' : List Worker) × Reaches work chunk_count j' ws'
        × (length ws' ≡ length ws)
        × All (λ w. w ≡ finished) ws'
  finish zero j ws h r = absurd (omega arith)
  finish (suc fuel) j ws h r = elim (unfinished ws) [
    | inl all ↦ (j, ws, r, refl, all)
    | inr (before, w, after, u, e) ↦
        let r' = turned j before after w (subst (Reaches work chunk_count j) e r) in
        let less = turn-terminates j before after w u in
        let weigh : weights ws ≡ weights (before ++ (w ∷ after)) = ap weights e in
        let (j', ws', reached, len, all) =
          finish fuel (turn work chunk_count j w).0
            (before ++ ((turn work chunk_count j w).1 ∷ after)) (omega (arith, less, weigh)) r' in
        (
          j',
          ws',
          reached,
          omega (
            arith,
            len,
            ap length e,
            length-append before (w ∷ after),
            length-append before ((turn work chunk_count j w).1 ∷ after),
          ),
          all,
        )
  ]

  -- However the workers have taken their turns so far, there are turns after which all have finished.
  pub workers-finish :
      (j : Job A) (ws : List Worker)
      → Reaches work chunk_count j ws
      → (j' : Job A) × (ws' : List Worker) × Reaches work chunk_count j' ws'
        × (length ws' ≡ length ws)
        × All (λ w. w ≡ finished) ws'
  workers-finish j ws r =
      finish (3 * (chunk_count - j.next_index) + weights ws + 1) j ws (omega arith) r
