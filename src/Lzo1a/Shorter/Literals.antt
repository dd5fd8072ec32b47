-- ===== src/Lzo1a/Shorter/Literals.antt =====
-- src/lzo1a.c against src/lzo1.c: the literals in front of a match.
use lzo.Base.{ℕ, suc, ◌+◌, ◌-◌, ◌≤◌, ◌<◌, ◌≡◌, refl, arith, ◌⊎◌, u8}
use lzo.Base.{ltb, leb, ◌==◌, Bool-cases, inl, inr, true, false, ==_iff}
use lzo.Base.{some, List, [], ◌∷◌, ◌++◌, length, take, drop, get_or, slice}
use lzo.Base.{length-append, length-take, length-drop, length-slice, bit_and}
use lzo.Lzo1.Encoder.{store_run, store_literals, store_runs}
use lzo.Lzo1.RoundTrip.Runs.{store_run-Coded}
use lzo.Lzo1.RoundTrip.Search.{}
use lzo.Base.{◌∙◌}
use lzo.Lzo1a.RoundTrip.Store.{store_run-store_run}
use lzo.Lzo1a.Encoder.{mask_marker, store_pending}

-- store_run returns for any literals.
pub store_run_returns : (lits : List ℕ) → (code : List ℕ) × (store_run lits ≡ some code)
store_run_returns lits =
    let (code, e, c) = store_run-Coded (length lits) lits [] (omega arith) in (code, e)

-- A run of 32 to 279 literals is the two bytes of the R0 marker and the literals.
store_run_r0 :
    (lits : List ℕ)
    → 32 ≤ length lits
    → length lits < 280
    → store_run lits ≡ some (0 ∷ u8 (length lits - 32) ∷ lits)
unfolding store_run
store_run_r0 lits h k =
    let few : leb 512 (length lits) ≡ false = ground arith in
    let n : length lits + 1 ≡ suc (length lits) = omega arith in
    let not_fast : leb 280 (length lits) ≡ false = ground arith in
    let long : leb 32 (length lits) ≡ true = ground arith in
    rw few (rw n (unfold store_runs in rw not_fast (rw long refl)))

length-mask_marker : (out : List ℕ) → 2 ≤ length out → length (mask_marker out) ≡ length out
length-mask_marker out h =
    let n = length out - 2 in
    omega (
      arith,
      length-append (take n out) (bit_and (get_or out n 0) 31 ∷ drop (n + 1) out),
      length-take n out,
      length-drop (n + 1) out,
    )

module _ (src : List ℕ) where
  -- What both write for the literals in front of a match, and where the R1 pointer is then.
  pub store_pending_le :
      (ip ii r1 : ℕ) (out : List ℕ)
      → ii ≤ ip
      → ip ≤ length src
      → ((r1 + 3 ≤ ii) ⊎ (ip ≤ r1))
      → (0 < ii → 2 ≤ length out)
      → (p : List ℕ × ℕ) × (lits : List ℕ) × (store_pending src ip ii r1 out ≡ some p)
        × (store_literals (slice src ii ip) ≡ some lits)
        × (length p.0 ≤ length out + length lits)
        × ((p.1 ≡ ip) ⊎ (p.1 ≡ r1))
  unfolding store_pending store_literals
  store_pending_le ip ii r1 out pending inside placed two =
      let lits = slice src ii ip in
      let t : length lits ≡ ip - ii = length-slice ii ip src pending inside in
      elim (Bool-cases ((ip - ii) == 0)) [
        | inl no_literals ↦
            ((out, r1), [], rw no_literals refl, rw (t, no_literals) refl, omega arith, inr refl)
        | inr literals ↦
            rw (t, literals)
              (elim (Bool-cases (ip == r1 + 4)) [
                | inl one ↦
                    let e : ip ≡ r1 + 4 = (==_iff _ _).0 one in
                    let s : r1 + 3 ≡ ii = ground arith in
                    let short : ltb (ip - ii) 32 ≡ true = ground arith in
                    (
                      (mask_marker out ++ (get_or src ii 0 ∷ []), ip),
                      u8 (ip - ii) ∷ lits,
                      rw one refl,
                      rw short refl,
                      omega (
                        arith,
                        length-append (mask_marker out) (get_or src ii 0 ∷ []),
                        length-mask_marker out (two (omega arith)),
                        t,
                      ),
                      inl refl,
                    )
                | inr other ↦ rw other (elim (Bool-cases (ltb (ip - ii) 32)) [
                  | inl short ↦ (
                    (out ++ (u8 (ip - ii) ∷ lits), ip),
                    u8 (ip - ii) ∷ lits,
                    rw short refl,
                    rw short refl,
                    omega (arith, length-append out (u8 (ip - ii) ∷ lits)),
                    inl refl,
                  )
                  | inr many ↦ rw many (elim (Bool-cases (ltb (ip - ii) 280)) [
                    | inl r0 ↦
                        let code = 0 ∷ u8 (ip - ii - 32) ∷ lits in
                        (
                          (out ++ code, ip),
                          code,
                          rw r0 refl,
                          rw t at (store_run_r0 lits (ground arith) (ground arith)),
                          omega (arith, length-append out code),
                          inl refl,
                        )
                    | inr long ↦
                        let (code, e) = store_run_returns lits in
                        (
                          (out ++ code, r1),
                          code,
                          rw (long, store_run-store_run lits ∙ e) refl,
                          e,
                          omega (arith, length-append out code),
                          inr refl,
                        )
                  ])
                ])
              ])
      ]
