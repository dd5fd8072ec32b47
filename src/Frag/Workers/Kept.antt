-- ===== src/Frag/Workers/Kept.antt =====
-- lzo_cpu/lzo_frag.c: what the workers have done when all have finished.
use lzo.Base.{ℕ, suc, length, ◌≤◌, ◌<◌, ◌≡◌, refl, arith, ◌⊎◌, inl, inr, sym, ap, ◌∙◌}
use lzo.Base.{==_iff, ltb→lt, ltb→le, true, ltb, ◌==◌, Bool-cases, if◌then◌else◌}
use mathlib.Core.Bool.{false≢true}
use mathlib.Core.Path.{subst}
use lzo.Base.{Option, none, some, List, [], ◌∷◌, ◌++◌, All}
use lzo.Frag.Workers.{
  Worker, fetching, finished, checking, working, Job, turn, Reaches, started, turned,
}

module _ {ℓ} {A : Type ℓ} (work : ℕ → Option A) (chunk_count : ℕ) where
  Holds : ℕ → Worker → Type 0
  Holds k fetching = ⊥
  Holds k finished = ⊥
  Holds k (checking i) = k ≡ i
  Holds k (working i) = k ≡ i

  Held : ℕ → List Worker → Type 0
  Held k [] = ⊥
  Held k (w ∷ ws) = Holds k w ⊎ Held k ws

  Held-change :
      (k : ℕ) (before after : List Worker) (w w' : Worker)
      → Held k (before ++ (w ∷ after))
      → Holds k w ⊎ Held k (before ++ (w' ∷ after))
  unfolding Held
  Held-change k [] after w w' (inl h) = inl h
  Held-change k [] after w w' (inr h) = inr (inr h)
  Held-change k (v ∷ before) after w w' (inl h) = inr (inl h)
  Held-change k (v ∷ before) after w w' (inr h) = elim (Held-change k before after w w' h) [
    | inl p ↦ inl p
    | inr q ↦ inr (inr q)
  ]

  Held-new :
      (k : ℕ) (before after : List Worker) (w : Worker) → Holds k w → Held k (before ++ (w ∷ after))
  unfolding Held
  Held-new k [] after w h = inl h
  Held-new k (v ∷ before) after w h = inr (Held-new k before after w h)

  -- A worker has finished only where no chunk is left to fetch.
  AtEnd : ℕ → Worker → Type 0
  AtEnd next fetching = Unit
  AtEnd next (checking i) = Unit
  AtEnd next (working i) = Unit
  AtEnd next finished = chunk_count ≤ next

  AtEnd-later : (n n' : ℕ) (w : Worker) → n ≤ n' → AtEnd n w → AtEnd n' w
  unfolding AtEnd
  AtEnd-later n n' fetching le h = tt
  AtEnd-later n n' (checking i) le h = tt
  AtEnd-later n n' (working i) le h = tt
  AtEnd-later n n' finished le h = omega arith

  AtEnd-All : (n n' : ℕ) (ws : List Worker) → n ≤ n' → All (AtEnd n) ws → All (AtEnd n') ws
  AtEnd-All n n' [] le h = tt
  AtEnd-All n n' (w ∷ ws) le h = (AtEnd-later n n' w le h.0, AtEnd-All n n' ws le h.1)

  AtEnd-change :
      (n n' : ℕ) (before after : List Worker) (w w' : Worker)
      → n ≤ n'
      → All (AtEnd n) (before ++ (w ∷ after))
      → AtEnd n' w'
      → All (AtEnd n') (before ++ (w' ∷ after))
  AtEnd-change n n' [] after w w' le h e = (e, AtEnd-All n n' after le h.1)
  AtEnd-change n n' (v ∷ before) after w w' le h e =
      (AtEnd-later n n' v le h.0, AtEnd-change n n' before after w w' le h.1 e)

  -- Every chunk that was fetched is done or held by a worker.
  record Kept (j : Job A) (ws : List Worker) : Type ℓ where
    fetched : (k : ℕ) → k < j.next_index → k < chunk_count → (j.results k ≡ work k) ⊎ Held k ws
    ends : All (AtEnd j.next_index) ws

  -- A chunk that was done or held before a turn of `w`, where that turn does not drop the chunk.
  carry :
      (k : ℕ) (before after : List Worker) (w w' : Worker) {done done' : Type ℓ}
      → done ⊎ Held k (before ++ (w ∷ after))
      → (done → done')
      → (Holds k w → done' ⊎ Held k (before ++ (w' ∷ after)))
      → done' ⊎ Held k (before ++ (w' ∷ after))
  carry k before after w w' (inl d) f g = inl (f d)
  carry k before after w w' (inr h) f g = elim (Held-change k before after w w' h) [
    | inl p ↦ g p
    | inr q ↦ inr q
  ]

  below_suc : (k n : ℕ) → k < suc n → (k < n) ⊎ (k ≡ n)
  below_suc k n h = elim (Bool-cases (ltb k n)) [
    | inl t ↦ inl (ltb→lt k n t)
    | inr f ↦ inr (omega (arith, ltb→le k n f))
  ]

  stored :
      (k i : ℕ) (a : A) (results : ℕ → Option A)
      → work i ≡ some a
      → (results k ≡ work k) ⊎ (k ≡ i)
      → (if k == i then some a else results k) ≡ work k
  stored k i a results e h = elim (Bool-cases (k == i)) [
    | inl t ↦ rw t (sym e ∙ ap work (sym ((==_iff k i).0 t)))
    | inr f ↦ rw f (elim h [ inl d ↦ d | inr same ↦ absurd (ground arith) ])
  ]

  pub outcome : (i : ℕ) → (work i ≡ none) ⊎ ((a : A) × (work i ≡ some a))
  outcome i = of (work i) refl
    where
      of : (o : Option A) → work i ≡ o → (work i ≡ none) ⊎ ((a : A) × (work i ≡ some a))
      of none e = inl e
      of (some a) e = inr (a, e)

  Kept-work :
      (j : Job A) (before after : List Worker) (i : ℕ)
      → (j.is_ok ≡ true → Kept j (before ++ (working i ∷ after)))
      → (turn work chunk_count j (working i)).0.is_ok ≡ true
      → Kept
          (turn work chunk_count j (working i)).0
          (before ++ ((turn work chunk_count j (working i)).1 ∷ after))
  unfolding AtEnd Holds
  Kept-work j before after i inv = elim (outcome i) [
    | inl e ↦ rw (e, turn) (λ ok. absurd (false≢true ok))
    | inr (a, e) ↦
        rw (e, turn)
          (λ ok.
            let kept = inv ok in
            record {
              fetched = λ k lt lc.
                  carry k before after (working i) fetching (kept.fetched k lt lc)
                    (λ d. stored k i a j.results e (inl d))
                    (λ h. inl (stored k i a j.results e (inr h)));
              ends =
                  AtEnd-change j.next_index j.next_index before after (working i) fetching
                    (omega arith) kept.ends tt;
            })
  ]

  Kept-turn :
      (j : Job A) (before after : List Worker) (w : Worker)
      → (j.is_ok ≡ true → Kept j (before ++ (w ∷ after)))
      → (turn work chunk_count j w).0.is_ok ≡ true
      → Kept (turn work chunk_count j w).0 (before ++ ((turn work chunk_count j w).1 ∷ after))
  unfolding AtEnd Holds
  Kept-turn j before after finished inv ok = inv ok
  Kept-turn j before after fetching inv ok =
      let n = j.next_index in
      let kept = inv ok in
      elim (Bool-cases (ltb n chunk_count)) [
        | inl t ↦ rw t (record {
          fetched = λ k lt lc. elim (below_suc k n lt) [
            | inl older ↦
                carry k before after fetching (checking n) (kept.fetched k older lc) (λ d. d) absurd
            | inr newest ↦ inr (Held-new k before after (checking n) newest)
          ];
          ends =
              AtEnd-change n (suc n) before after fetching (checking n) (omega arith) kept.ends tt;
        })
        | inr f ↦
            let last = ltb→le n chunk_count f in
            rw f (record {
              fetched = λ k lt lc.
                  carry k before after fetching finished (kept.fetched k (omega arith) lc) (λ d. d)
                    absurd;
              ends =
                  AtEnd-change n (suc n) before after fetching finished (omega arith) kept.ends
                    (omega arith);
            })
      ]
  Kept-turn j before after (checking i) inv ok =
      let kept = inv ok in
      rw ok (record {
        fetched = λ k lt lc.
            carry k before after (checking i) (working i) (kept.fetched k lt lc) (λ d. d)
              (λ h. inr (Held-new k before after (working i) h));
        ends =
            AtEnd-change j.next_index j.next_index before after (checking i) (working i)
              (omega arith) kept.ends tt;
      })
  Kept-turn j before after (working i) inv ok = Kept-work j before after i inv ok

  AtEnd-fetching : (n : ℕ) (ws : List Worker) → All (λ w. w ≡ fetching) ws → All (AtEnd n) ws
  unfolding AtEnd
  AtEnd-fetching n [] h = tt
  AtEnd-fetching n (w ∷ ws) h = (subst (AtEnd n) (sym h.0) tt, AtEnd-fetching n ws h.1)

  Reaches-Kept :
      (j : Job A) (ws : List Worker) → Reaches work chunk_count j ws → j.is_ok ≡ true → Kept j ws
  Reaches-Kept j ws (started _ h) ok = record {
    fetched = λ k lt lc. absurd (omega arith);
    ends = AtEnd-fetching 0 ws h;
  }
  Reaches-Kept j ws (turned j' before after w r) ok =
      Kept-turn j' before after w (Reaches-Kept j' (before ++ (w ∷ after)) r) ok

  finished-free : (k : ℕ) (ws : List Worker) → All (λ w. w ≡ finished) ws → Held k ws → ⊥
  unfolding Held Holds
  finished-free k [] h held = held
  finished-free k (w ∷ ws) h (inl p) = subst (Holds k) h.0 p
  finished-free k (w ∷ ws) h (inr p) = finished-free k ws h.1 p

  -- In whatever order the workers take their turns: when all have finished, there is at least one,
  -- and the status is still LZO_E_OK, each chunk holds what the work on it gives.
  pub workers-Done :
      (j : Job A) (ws : List Worker)
      → Reaches work chunk_count j ws
      → 0 < length ws
      → All (λ w. w ≡ finished) ws
      → j.is_ok ≡ true
      → (k : ℕ) → k < chunk_count
      → j.results k ≡ work k
  unfolding AtEnd
  workers-Done j [] r some_worker end ok k lt = absurd (omega arith)
  workers-Done j (w ∷ ws) r some_worker end ok k lt =
      let kept = Reaches-Kept j (w ∷ ws) r ok in
      let exhausted : chunk_count ≤ j.next_index = subst (AtEnd j.next_index) end.0 kept.ends.0 in
      elim (kept.fetched k (omega arith) lt) [
        | inl done ↦ done
        | inr held ↦ absurd (finished-free k (w ∷ ws) end held)
      ]
