-- ===== src/Frag/Workers.antt =====
-- lzo_cpu/lzo_frag.c: compress_worker and decompress_worker, several of which take the chunks of one
-- job. A turn of one worker is one atomic access to the job or the work on one chunk; the workers take
-- turns in any order.
pub mod Kept
pub mod Ends
pub mod Compress
pub mod Decompress
use lzo.Base.{
  ℕ, zero, suc, ◌+◌, ◌-◌, ◌*◌, ◌≢◌, length, ◌≤◌, ◌<◌, ◌≡◌, refl, arith, ◌⊎◌, inl, inr, sym, ap, ◌∙◌,
}
use lzo.Base.{==_iff, ltb→lt, ltb→le, Bool, true, false, ltb, ◌==◌, Bool-cases, if◌then◌else◌}
use mathlib.Core.Bool.{false≢true}
use mathlib.Core.Path.{subst}
use lzo.Base.{Option, none, some, List, [], ◌∷◌, ◌++◌, All}

-- What a worker does next.
pub data Worker : Type 0 where
  fetching finished : Worker
  checking working : ℕ → Worker

-- `next_index`, whether `status` is LZO_E_OK, and what the chunks hold.
pub record Job {ℓ} (A : Type ℓ) : Type ℓ where
  pub next_index : ℕ
  pub is_ok : Bool
  pub results : ℕ → Option A

module _ {ℓ} {A : Type ℓ} (work : ℕ → Option A) (chunk_count : ℕ) where
  -- One turn; `work` gives `none` where the code of the chunk is an error.
  abbrev pub turn : Job A → Worker → Job A × Worker
  turn j fetching = (
    record { next_index = suc j.next_index; is_ok = j.is_ok; results = j.results },
    if ltb j.next_index chunk_count then checking j.next_index else finished,
  )
  turn j (checking i) = (j, if j.is_ok then working i else finished)
  turn j (working i) = elim (work i) [
    | none ↦ (record { next_index = j.next_index; is_ok = false; results = j.results }, finished)
    | some a ↦ (
      record {
        next_index = j.next_index;
        is_ok = j.is_ok;
        results = λ k. if k == i then some a else j.results k;
      },
      fetching,
    )
  ]
  turn j finished = (j, finished)

  abbrev pub begin : Job A
  begin = record { next_index = 0; is_ok = true; results = λ k. none }

  -- What any number of workers can reach, in any order of turns.
  pub data Reaches : Job A → List Worker → Type ℓ where
    started : (ws : List Worker) → All (λ w. w ≡ fetching) ws → Reaches begin ws
    turned :
        (j : Job A) (before after : List Worker) (w : Worker)
        → Reaches j (before ++ (w ∷ after))
        → Reaches (turn j w).0 (before ++ ((turn j w).1 ∷ after))
