-- ===== src/Lzo1a/RoundTrip/Pending.antt =====
-- src/lzo1a.c: the literals pending in front of a match, and the marker that the one literal behind a
-- match of three bytes changes.
use lzo.Base.{ℕ, ◌+◌, ◌-◌, ◌*◌, ◌%◌, ◌/◌, ◌^◌, ◌≤◌, ◌<◌, ◌≡◌, refl, arith, ◌∙◌, ap, sym, u8}
use lzo.Base.{ltb, ◌==◌, Bool-cases, inl, inr, ==_iff, ◌⊎◌, bit_and_mask}
use lzo.Base.{some, List, [], ◌∷◌, ◌++◌, length, take, drop, get_or, slice}
use lzo.Base.{
  length-append, length-take, length-slice, take-append-slice, take-append_front, drop-append_front,
  drop-drop,
}
use lzo.Lzo1x.RoundTrip.Matches.{Repeats}
use lzo.Lzo1.Decoder.{r0_length}
use lzo.Lzo1.Encoder.{match_code}
use lzo.Lzo1.RoundTrip.Matches.{match_code_short}
use lzo.Lzo1.RoundTrip.Stored.{store_run-Last}
use lzo.Lzo1a.Decoder.{Mode, any_code, after_literals}
use lzo.Lzo1a.Encoder.{mask_marker, store_pending}
use lzo.Lzo1a.RoundTrip.Store.{store_run-store_run}
use lzo.Lzo1a.RoundTrip.Coded.{Coded, Coded-append}
use lzo.Lzo1a.RoundTrip.Pieces.{Last, mode_runs, short-Coded, r0-Coded, r1-Coded}
use mathlib.Core.Path.{subst}
use mathlib.Core.List.{append_assoc}

get_or-append_front :
    (xs : List ℕ) (y : ℕ) (ys : List ℕ) → get_or (xs ++ (y ∷ ys)) (length xs) 0 ≡ y
get_or-append_front [] y ys = refl
get_or-append_front (x ∷ xs) y ys = get_or-append_front xs y ys

-- Only the last byte but one changes.
mask_marker-append :
    (pre : List ℕ) (t b : ℕ) → mask_marker (pre ++ (t ∷ b ∷ [])) ≡ pre ++ ((t % 32) ∷ b ∷ [])
mask_marker-append pre t b =
    let n : length (pre ++ (t ∷ b ∷ [])) - 2 ≡ length pre =
      omega (arith, length-append pre (t ∷ b ∷ [])) in
    let d : drop (length pre + 1) (pre ++ (t ∷ b ∷ [])) ≡ b ∷ [] =
      sym (drop-drop (length pre) 1 (pre ++ (t ∷ b ∷ [])))
      ∙ ap (drop 1) (drop-append_front pre (t ∷ b ∷ [])) in
    rw
      (
        n,
        d,
        take-append_front pre (t ∷ b ∷ []),
        get_or-append_front pre t (b ∷ []),
        bit_and_mask 5 t,
      )
      refl

module _ (src : List ℕ) (size : ℕ) (fits : length src ≤ size) where
  -- The output ends with the code of a match of three bytes at `r1`, in front of which are literals.
  pub record R1Ready (r1 : ℕ) (out : List ℕ) : Type 0 where
    pub pre : List ℕ
    pub off : ℕ
    pub near : off ≤ 8192
    pub repeats : Repeats src size r1 off 3
    pub whole : out ≡ pre ++ match_code 3 off
    pub coded : Coded size any_code [] pre after_literals (take r1 src)

  -- The literal behind it goes into that code.
  r1-Coded_whole :
      (r1 : ℕ) (out : List ℕ)
      → r1 + 3 < length src
      → R1Ready r1 out
      → Coded size any_code []
          (mask_marker out ++ (get_or src (r1 + 3) 0 ∷ []))
          after_literals
          (take (r1 + 4) src)
  r1-Coded_whole r1 out inside r =
      let low = (r.off - 1) % 32 in
      let high = u8 ((r.off - 1) / 2 ^ 5) in
      let literal = get_or src (r1 + 3) 0 in
      let three : (3 - 2) * 32 + low ≡ 32 + low = omega arith in
      let masked : mask_marker (r.pre ++ (((3 - 2) * 32 + low) ∷ high ∷ []))
          ≡ r.pre ++ (low ∷ high ∷ []) =
        mask_marker-append r.pre ((3 - 2) * 32 + low) high
        ∙ ap (λ (x : ℕ). r.pre ++ (x ∷ high ∷ [])) (omega arith) in
      let code =
        match_code_short src size r1 r.off 3 r.repeats (omega arith) r.near (omega arith) in
      rw (r.whole, code, masked, append_assoc r.pre (low ∷ high ∷ []) (literal ∷ []))
        (Coded-append size any_code after_literals after_literals [] r.pre (take r1 src)
          (low ∷ high ∷ literal ∷ []) (take (r1 + 4) src) r.coded
          (r1-Coded src size r1 r.off r.near r.repeats inside fits))

  -- What is written for the literals, and where the R1 pointer is then.
  abbrev pub Flushed : ℕ → ℕ → List ℕ × ℕ → Type 0
  Flushed ip r1 p =
      ((p.1 ≡ ip) × Coded size any_code [] p.0 after_literals (take ip src))
      ⊎ ((p.1 ≡ r1) × ((m : Mode) × Coded size any_code [] p.0 m (take ip src)))

  module _ (ip ii r1 : ℕ) (out : List ℕ) (pending : ii ≤ ip) (inside : ip ≤ length src)
      (placed : (r1 + 3 ≤ ii) ⊎ (ip ≤ r1)) (ready : r1 + 3 ≡ ii → R1Ready r1 out)
      (coded : Coded size any_code [] out any_code (take ii src)) where
    -- A code of the pending literals goes behind the output.
    behind :
        (code : List ℕ) (m : Mode)
        → Coded size any_code (take ii src) code m (take ii src ++ slice src ii ip)
        → Coded size any_code [] (out ++ code) m (take ip src)
    behind code m c =
        subst (Coded size any_code [] (out ++ code) m) (take-append-slice ii ip src pending)
          (Coded-append size any_code any_code m [] out (take ii src) code _ coded c)

    room : length (take ii src) + length (slice src ii ip) ≤ size
    room = omega (arith, length-take ii src, length-slice ii ip src pending inside)

    -- The literals pending are written, and read back as these literals.
    pub store_pending-Flushed :
        (p : List ℕ × ℕ) × (store_pending src ip ii r1 out ≡ some p) × Flushed ip r1 p
    unfolding store_pending
    store_pending-Flushed =
        let lits = slice src ii ip in
        let t : length lits ≡ ip - ii = length-slice ii ip src pending inside in
        elim (Bool-cases ((ip - ii) == 0)) [
          | inl no_literals ↦
              let e : ii ≡ ip = omega (arith, (==_iff _ _).0 no_literals) in
              ((out, r1), rw no_literals refl, inr (refl, (any_code, rw e at coded)))
          | inr literals ↦
              let some_lits : 0 < ip - ii = ground arith in
              rw literals (elim (Bool-cases (ip == r1 + 4)) [
                | inl one ↦
                    let e : ip ≡ r1 + 4 = (==_iff _ _).0 one in
                    let s : r1 + 3 ≡ ii = ground arith in
                    (
                      (mask_marker out ++ (get_or src ii 0 ∷ []), ip),
                      rw one refl,
                      inl (refl, rw (e, ← s) (r1-Coded_whole r1 out (omega arith) (ready s))),
                    )
                | inr other ↦ rw other (elim (Bool-cases (ltb (ip - ii) 32)) [
                  | inl short ↦ (
                    (out ++ (u8 (ip - ii) ∷ lits), ip),
                    rw short refl,
                    inl (
                      refl,
                      rw t at (
                          behind (u8 (length lits) ∷ lits) after_literals (
                            short-Coded size lits (take ii src) (omega arith) (ground arith) room)),
                    ),
                  )
                  | inr many ↦ rw many (elim (Bool-cases (ltb (ip - ii) 280)) [
                    | inl r0 ↦
                        let b : u8 (ip - ii - 32) ≡ ip - ii - 32 = ground arith in
                        let l : r0_length (ip - ii - 32) ≡ length lits = ground arith in
                        (
                          (out ++ (0 ∷ u8 (ip - ii - 32) ∷ lits), ip),
                          rw r0 refl,
                          inl (
                            refl,
                            rw b (
                                behind (0 ∷ (ip - ii - 32) ∷ lits) after_literals (
                                  r0-Coded size (ip - ii - 32) lits (take ii src) (ground arith) l
                                    room)),
                          ),
                        )
                    | inr long ↦
                        let (code, e, (m, c)) =
                          store_run-Last size _ (Last size) (mode_runs size) lits (take ii src)
                            room in
                        (
                          (out ++ code, r1),
                          rw (long, store_run-store_run lits ∙ e) refl,
                          inr (refl, (m, behind code m c)),
                        )
                  ])
                ])
              ])
        ]
