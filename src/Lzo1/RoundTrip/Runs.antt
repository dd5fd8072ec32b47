-- ===== src/Lzo1/RoundTrip/Runs.antt =====
-- src/lzo1.c: the literal runs that store_run writes, read back.
use lzo.Base.{ℕ, zero, suc, ◌+◌, ◌≤◌, ◌<◌, ◌≡◌, refl, arith, ◌∙◌, ap, u8}
use lzo.Base.{ltb, ◌==◌, Bool-cases, inl, inr, true, false}
use lzo.Base.{some, List, [], ◌∷◌, ◌++◌, length}
use lzo.Base.{length-append, take-append_front, drop-append_front}
use lzo.Lzo1x.Decoder.{next, copy_literals}
use lzo.Lzo1x.Decoder.Copy.{copy_literals_lem}
use lzo.Lzo1.Decoder.{round, r0_length, literal_run}
use lzo.Lzo1.Encoder.{store_run, store_literals}
use lzo.Lzo1.RoundTrip.Coded.{Coded, Coded-nil, Coded-append, Coded-round}
use lzo.Lzo1.RoundTrip.Stored.{RunReader, store_run-Last}
use mathlib.Core.List.{append-nil}

module _ (size : ℕ) where
  pub literals_copied :
      (lits more out : List ℕ)
      → length out + length lits ≤ size
      → copy_literals size (length lits) (lits ++ more) out ≡ next (more, out ++ lits)
  literals_copied lits more out room =
      copy_literals_lem size (length lits) (lits ++ more) out
        (omega (arith, length-append lits more)) room
      ∙ rw (drop-append_front lits more, take-append_front lits more) refl

  -- A short run, of 1 to 31 literals.
  short-Coded :
      (lits out : List ℕ)
      → 0 < length lits
      → length lits < 32
      → length out + length lits ≤ size
      → Coded size out (u8 (length lits) ∷ lits) (out ++ lits)
  short-Coded lits out some_lits few room =
      Coded-round size out (out ++ lits) (u8 (length lits)) lits reads
    where
      run_of :
          (t : ℕ) (more : List ℕ)
          → t ≡ length lits
          → 0 < t
          → literal_run size t (lits ++ more) out ≡ next (more, out ++ lits)
      run_of zero more e pos = absurd (omega arith)
      run_of (suc t) more e pos =
          ap (λ n. copy_literals size n (lits ++ more) out) e ∙ literals_copied lits more out room

      reads :
          (more : List ℕ)
          → round size (u8 (length lits) ∷ (lits ++ more)) out ≡ next (more, out ++ lits)
      reads more =
          let e : u8 (length lits) ≡ length lits = omega arith in
          let short : ltb (length lits) 32 ≡ true = ground arith in
          unfold round in rw (e, short) (run_of (length lits) more refl some_lits)

  -- A run behind a zero marker.
  r0-Coded :
      (b : ℕ) (lits out : List ℕ)
      → r0_length b ≡ length lits
      → length out + length lits ≤ size
      → Coded size out (0 ∷ b ∷ lits) (out ++ lits)
  r0-Coded b lits out e room = Coded-round size out (out ++ lits) 0 (b ∷ lits) reads
    where
      reads : (more : List ℕ) → round size (0 ∷ b ∷ (lits ++ more)) out ≡ next (more, out ++ lits)
      reads more =
          unfold round in
          ap (λ n. copy_literals size n (lits ++ more) out) e ∙ literals_copied lits more out room

  -- The pieces of a run, for this decompressor.
  pub coded_runs : RunReader size (Coded size) (Coded size)
  coded_runs = record {
    empty = Coded-nil size;
    joined = Coded-append size;
    closed = Coded-append size;
    none_left = Coded-nil size;
    long_run = λ b lits out h. r0-Coded b lits out;
    r0_run = λ b lits out h. r0-Coded b lits out;
    short_run = short-Coded;
  }

  -- What store_run writes for any literals reads back as these literals.
  pub store_run-Coded :
      (lits out : List ℕ)
      → length out + length lits ≤ size
      → (code : List ℕ) × (store_run lits ≡ some code) × Coded size out code (out ++ lits)
  store_run-Coded = store_run-Last size (Coded size) (Coded size) coded_runs

  -- The literals in front of a match.
  pub store_literals-Coded :
      (lits out : List ℕ)
      → length out + length lits ≤ size
      → (code : List ℕ) × (store_literals lits ≡ some code) × Coded size out code (out ++ lits)
  unfolding store_literals
  store_literals-Coded [] out room = ([], refl, rw (append-nil out) (Coded-nil size out))
  store_literals-Coded (x ∷ xs) out room =
      let lits = x ∷ xs in
      let some_lits : (length lits == 0) ≡ false = ground arith in
      elim (Bool-cases (ltb (length lits) 32)) [
        | inl short ↦ (
          u8 (length lits) ∷ lits,
          rw (some_lits, short) refl,
          short-Coded lits out (omega arith) (ground arith) room,
        )
        | inr many ↦
            let (code, e, c) = store_run-Coded lits out room in
            (code, rw (some_lits, many, e) refl, c)
      ]
