-- ===== src/Frag/Workers/Compress.antt =====
-- lzo_cpu/lzo_frag.c: the workers of compress_multi, in any order of turns, against the chunks taken
-- one after the other.
use lzo.Base.{ℕ, zero, suc, ◌+◌, ◌/◌, ◌^◌, ◌<◌, ◌≡◌, refl, sym, ap, ◌∙◌, arith, inl, inr}
use lzo.Base.{true, ltb, ltb→lt, Bool-cases, Option, none, some, List, [], ◌∷◌, ◌++◌, length}
use lzo.Base.{All, IsByte}
use mathlib.Core.Path.{subst}
use mathlib.Core.Option.{some-injective, none-ne-some}
use lzo.Frag.{
  Result, ok, failed, fault, Alg, used_alg, Chunk, compress_block_into, make_chunks,
  compress_chunks, compress_file, ◌>>=◌,
}
use lzo.Frag.File.{file}
use lzo.Frag.Made.{compress_file-Made, block_size_of, count_of}
use lzo.Frag.Workers.{
  Worker, fetching, finished, checking, working, Job, turn, Reaches, started, turned,
}
use lzo.Frag.Workers.Kept.{workers-Done}

-- What the work on a chunk gives; `none` stands for a code that is not LZO_E_OK.
abbrev pub given {ℓ} : {A : Type ℓ} → Result A → Option A
given (ok a) = some a
given failed = none
given fault = none

-- The work of a compress_worker on chunk `k`.
unfoldable pub compress_work : Alg → ℕ → List Chunk → ℕ → Option (List ℕ)
compress_work alg addr [] k = none
compress_work alg addr (ck ∷ chunks) zero =
    given
      (compress_block_into alg (addr + ck.offset) ck.input (ck.in_size + ck.in_size / 16 + 64 + 3))
compress_work alg addr (ck ∷ chunks) (suc k) = compress_work alg addr chunks k

-- `chunks[i].comp` for `i` below `n`, if all of them are there
unfoldable pub collect {ℓ} : {A : Type ℓ} → (ℕ → Option A) → ℕ → Option (List A)
collect results zero = some []
collect results (suc n) = elim (results 0) [
  | none ↦ none
  | some a ↦ elim (collect (λ k. results (suc k)) n) [ none ↦ none | some rest ↦ some (a ∷ rest) ]
]

module _ {ℓ} {A : Type ℓ} (work : ℕ → Option A) (chunk_count : ℕ) where
  pub Within : Worker → Type 0
  Within fetching = Unit
  Within finished = Unit
  Within (checking i) = i < chunk_count
  Within (working i) = i < chunk_count

  Within-at :
      (before after : List Worker) (w : Worker) → All Within (before ++ (w ∷ after)) → Within w
  Within-at [] after w h = h.0
  Within-at (v ∷ before) after w h = Within-at before after w h.1

  Within-change :
      (before after : List Worker) (w w' : Worker)
      → All Within (before ++ (w ∷ after))
      → Within w'
      → All Within (before ++ (w' ∷ after))
  Within-change [] after w w' h g = (g, h.1)
  Within-change (v ∷ before) after w w' h g = (h.0, Within-change before after w w' h.1 g)

  Within-fetching : (ws : List Worker) → All (λ w. w ≡ fetching) ws → All Within ws
  unfolding Within
  Within-fetching [] h = tt
  Within-fetching (w ∷ ws) h = (subst Within (sym h.0) tt, Within-fetching ws h.1)

  module _ (succeeds : (k : ℕ) → k < chunk_count → (a : A) × (work k ≡ some a)) where
    turn-is_ok :
        (j : Job A) (w : Worker)
        → j.is_ok ≡ true
        → Within w
        → ((turn work chunk_count j w).0.is_ok ≡ true) × Within (turn work chunk_count j w).1
    unfolding Within
    turn-is_ok j fetching e h = elim (Bool-cases (ltb j.next_index chunk_count)) [
      | inl t ↦ rw t (e, ltb→lt j.next_index chunk_count t)
      | inr f ↦ rw f (e, tt)
    ]
    turn-is_ok j (checking i) e h = rw e (refl, h)
    turn-is_ok j (working i) e h = let (a, s) = succeeds i h in rw (s, turn) (e, tt)
    turn-is_ok j finished e h = (e, tt)

    pub Reaches-is_ok :
        (j : Job A) (ws : List Worker)
        → Reaches work chunk_count j ws
        → (j.is_ok ≡ true) × All Within ws
    Reaches-is_ok j ws (started _ h) = (refl, Within-fetching ws h)
    Reaches-is_ok j ws (turned j' before after w r) =
        let (e, all) = Reaches-is_ok j' (before ++ (w ∷ after)) r in
        let (e', h) = turn-is_ok j' w e (Within-at before after w all) in
        (e', Within-change before after w (turn work chunk_count j' w).1 all h)

-- Where the chunks in order give `comps`, the work on each chunk gives what stands there in `comps`.
compress_chunks-cons :
    (alg : Alg) (addr : ℕ) (ck : Chunk) (chunks : List Chunk) (comps : List (List ℕ))
    → compress_chunks alg addr (ck ∷ chunks) ≡ ok comps
    → (comp : List ℕ) × (rest : List (List ℕ)) × (compress_work alg addr (ck ∷ chunks) 0
        ≡ some comp)
      × (compress_chunks alg addr chunks ≡ ok rest)
      × (comps ≡ comp ∷ rest)
unfolding compress_chunks compress_work
compress_chunks-cons alg addr ck chunks comps e = parts _ _ e
  where
    parts :
        (r : Result (List ℕ)) (rs : Result (List (List ℕ)))
        → (r >>= λ comp. rs >>= λ rest. ok (comp ∷ rest)) ≡ ok comps
        → (comp : List ℕ) × (rest : List (List ℕ)) × (given r ≡ some comp)
          × (rs ≡ ok rest)
          × (comps ≡ comp ∷ rest)
    parts (ok comp) (ok rest) e = (comp, rest, refl, refl, some-injective _ _ (sym (ap given e)))
    parts (ok comp) failed e = absurd (none-ne-some _ (ap given e))
    parts (ok comp) fault e = absurd (none-ne-some _ (ap given e))
    parts failed rs e = absurd (none-ne-some _ (ap given e))
    parts fault rs e = absurd (none-ne-some _ (ap given e))

compress_work-succeeds :
    (alg : Alg) (addr : ℕ) (chunks : List Chunk) (comps : List (List ℕ))
    → compress_chunks alg addr chunks ≡ ok comps
    → (k : ℕ) → k < length chunks
    → (comp : List ℕ) × (compress_work alg addr chunks k ≡ some comp)
unfolding compress_work
compress_work-succeeds alg addr [] comps e k h = absurd (omega arith)
compress_work-succeeds alg addr (ck ∷ chunks) comps e zero h =
    let (comp, rest, c, _, _) = compress_chunks-cons alg addr ck chunks comps e in (comp, c)
compress_work-succeeds alg addr (ck ∷ chunks) comps e (suc k) h =
    let (comp, rest, _, r, _) = compress_chunks-cons alg addr ck chunks comps e in
    compress_work-succeeds alg addr chunks rest r k (omega arith)

collect-compress_work :
    (alg : Alg) (addr : ℕ) (chunks : List Chunk) (comps : List (List ℕ))
    → (results : ℕ → Option (List ℕ)) → compress_chunks alg addr chunks ≡ ok comps
    → ((k : ℕ) → k < length chunks → results k ≡ compress_work alg addr chunks k)
    → collect results (length chunks) ≡ some comps
unfolding compress_work collect compress_chunks
collect-compress_work alg addr [] comps results e h = ap given e
collect-compress_work alg addr (ck ∷ chunks) comps results e h =
    let (comp, rest, c, r, shape) = compress_chunks-cons alg addr ck chunks comps e in
    let first : results 0 ≡ some comp = h 0 (omega arith) ∙ c in
    let others =
      collect-compress_work alg addr chunks rest (λ k. results (suc k)) r
        (λ k lt. h (suc k) (omega arith)) in
    rw (first, others) (ap some (sym shape))

length-make_chunks :
    (block_size : ℕ) (input : List ℕ) (n i : ℕ) → length (make_chunks block_size input n i) ≡ n
unfolding make_chunks
length-make_chunks block_size input zero i = refl
length-make_chunks block_size input (suc n) i =
    ap suc (length-make_chunks block_size input n (suc i))

-- In whatever order at least one worker takes its turns over chunks that all can be compressed: when all
-- workers have finished, the status is LZO_E_OK and the chunks hold what they give one after the other.
pub workers-compress_chunks :
    (alg : Alg) (addr : ℕ) (chunks : List Chunk) (comps : List (List ℕ))
    → compress_chunks alg addr chunks ≡ ok comps
    → (j : Job (List ℕ)) (ws : List Worker)
    → Reaches (compress_work alg addr chunks) (length chunks) j ws
    → 0 < length ws
    → All (λ w. w ≡ finished) ws
    → (j.is_ok ≡ true) × (collect j.results (length chunks) ≡ some comps)
workers-compress_chunks alg addr chunks comps e j ws r some_worker end =
    let work = compress_work alg addr chunks in
    let fine =
      (Reaches-is_ok work (length chunks) (compress_work-succeeds alg addr chunks comps e) j ws
        r).0 in
    (
      fine,
      collect-compress_work alg addr chunks comps j.results e
          (workers-Done work (length chunks) j ws r some_worker end fine),
    )

module _ (g_alg : Alg) (level threads addr : ℕ) (input : List ℕ) where
  abbrev pub chunks_of : List Chunk
  chunks_of =
      make_chunks (block_size_of g_alg level threads addr input) input
        (count_of g_alg level threads addr input) 0

  -- For every input of less than 2 ^ 32 bytes, every algorithm, level, number of threads and address,
  -- and in whatever order at least one worker takes its turns over the chunks: when all workers have
  -- finished, the status is LZO_E_OK, all chunks are there, and the file made of them is the one that
  -- the chunks give when they are compressed one after the other.
  pub workers-compress_file :
      All IsByte input
      → length input < 2 ^ 32
      → (j : Job (List ℕ)) (ws : List Worker)
      → Reaches (compress_work (used_alg g_alg level) addr chunks_of) (length chunks_of) j ws
      → 0 < length ws
      → All (λ w. w ≡ finished) ws
      → (comps : List (List ℕ)) × (j.is_ok ≡ true)
        × (collect j.results (length chunks_of) ≡ some comps)
        × (compress_file g_alg level threads addr input
            ≡ ok (
                file
                  (used_alg g_alg level)
                  addr
                  (block_size_of g_alg level threads addr input)
                  (length chunks_of)
                  input
                  comps))
  workers-compress_file bytes small j ws r some_worker end =
      let m = compress_file-Made g_alg level threads addr input bytes small in
      let (fine, collected) =
        workers-compress_chunks (used_alg g_alg level) addr chunks_of m.packed.comps m.packed.packed
          j ws r some_worker end in
      let len =
        length-make_chunks (block_size_of g_alg level threads addr input) input
          (count_of g_alg level threads addr input) 0 in
      (m.packed.comps, fine, collected, rw len m.made)
