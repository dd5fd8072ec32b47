-- ===== src/Lzo1/RoundTrip/Stored.antt =====
-- src/lzo1.c: the pieces that store_run writes, for any decompressor that reads them. The runs of 280 and
-- more literals are a relation of their own, since src/lzo1a.c goes on in another way behind them.
use lzo.Base.{ℕ, zero, suc, ◌+◌, ◌-◌, ◌*◌, ◌^◌, ◌≤◌, ◌<◌, ◌≡◌, refl, arith, ◌∙◌, ap, sym, u8}
use lzo.Base.{ltb, leb, if◌then◌else◌, Bool-cases, inl, inr, table_eq, all_below}
use lzo.Base.{true}
use lzo.Base.{some, List, [], ◌∷◌, ◌++◌, length, take, drop}
use lzo.Base.{pow-pos, length-append, length-take, length-drop, take-append-drop}
use lzo.Lzo1.Decoder.{r0_length, doubled}
use lzo.Lzo1.Encoder.{store_runs, store_bits, store_short, store_run}
use mathlib.Core.Path.{subst}
use mathlib.Core.List.{append_assoc, append-nil}

-- How codes are read: `Coded out code out'` by pieces that anything may follow, `Last out code out'` where
-- the last piece may ask for what follows it.
pub record RunReader (size : ℕ) (Coded Last : List ℕ → List ℕ → List ℕ → Type 0) : Type 0 where
  pub empty : (out : List ℕ) → Coded out [] out
  pub joined :
      (out code out' code' out'' : List ℕ)
      → Coded out code out'
      → Coded out' code' out''
      → Coded out (code ++ code') out''
  pub closed :
      (out code out' code' out'' : List ℕ)
      → Coded out code out'
      → Last out' code' out''
      → Last out (code ++ code') out''
  pub none_left : (out : List ℕ) → Last out [] out
  pub long_run :
      (b : ℕ) (lits out : List ℕ)
      → 248 ≤ b
      → r0_length b ≡ length lits
      → length out + length lits ≤ size
      → Coded out (0 ∷ b ∷ lits) (out ++ lits)
  pub r0_run :
      (b : ℕ) (lits out : List ℕ)
      → b < 248
      → r0_length b ≡ length lits
      → length out + length lits ≤ size
      → Last out (0 ∷ b ∷ lits) (out ++ lits)
  pub short_run :
      (lits out : List ℕ)
      → 0 < length lits
      → length lits < 32
      → length out + length lits ≤ size
      → Last out (u8 (length lits) ∷ lits) (out ++ lits)

module _ (size : ℕ) (Coded Last : List ℕ → List ℕ → List ℕ → Type 0)
    (reader : RunReader size Coded Last) where
  -- Some of the literals written, the others left.
  record Stored (out lits : List ℕ) (r : List ℕ × List ℕ) : Type 0 where
    front : List ℕ
    whole : front ++ r.1 ≡ lits
    coded : Coded out r.0 (out ++ front)

  Stored-none : (out lits : List ℕ) → Stored out lits ([], lits)
  Stored-none out lits = record {
    front = [];
    whole = refl;
    coded = rw (append-nil out) (reader.empty out);
  }

  Stored-left :
      {out lits : List ℕ} {r : List ℕ × List ℕ} → Stored out lits r → length r.1 ≤ length lits
  Stored-left {r} s = omega (arith, length-append s.front r.1, ap (λ xs. length xs) s.whole)

  Stored-room :
      {out lits : List ℕ} {r : List ℕ × List ℕ}
      → (s : Stored out lits r) → length out + length lits ≤ size
      → length (out ++ s.front) + length r.1 ≤ size
  Stored-room {out} {r} s h =
      omega
        (arith, length-append out s.front, length-append s.front r.1, ap (λ xs. length xs) s.whole)

  -- The literals left over by one loop go to the next.
  Stored-then :
      {out lits : List ℕ} {r r' : List ℕ × List ℕ}
      → (s : Stored out lits r) → Stored (out ++ s.front) r.1 r'
      → Stored out lits (r.0 ++ r'.0, r'.1)
  Stored-then {out} {lits} {r} {r'} s s' = record {
    front = s.front ++ s'.front;
    whole = append_assoc s.front s'.front r'.1 ∙ ap (λ xs. s.front ++ xs) s'.whole ∙ s.whole;
    coded = rw (← append_assoc out s.front s'.front) (
        reader.joined out r.0 (out ++ s.front) r'.0 ((out ++ s.front) ++ s'.front) s.coded
          s'.coded);
  }

  store_runs-Stored :
      (fuel code n : ℕ) (lits out : List ℕ)
      → 0 < n
      → length lits < fuel
      → 248 ≤ code
      → r0_length code ≡ n
      → length out + length lits ≤ size
      → (r : List ℕ × List ℕ) × (store_runs fuel code n lits ≡ some r)
        × Stored out lits r
        × (length r.1 < n)
  unfolding store_runs
  store_runs-Stored zero code n lits out pos f c e room = absurd (omega arith)
  store_runs-Stored (suc fuel) code n lits out pos f c e room =
      elim (Bool-cases (leb n (length lits))) [
        | inr few ↦ (([], lits), rw few refl, Stored-none out lits, ground arith)
        | inl many ↦
            let full : length (take n lits) ≡ n = ground (arith, length-take n lits) in
            let one : Stored out lits (0 ∷ code ∷ take n lits, drop n lits) = record {
              front = take n lits;
              whole = take-append-drop n lits;
              coded =
                  reader.long_run code (take n lits) out c (e ∙ sym full)
                    (omega (arith, length-take n lits));
            } in
            let (r, e', s, less) =
              store_runs-Stored fuel code n (drop n lits) (out ++ take n lits) pos
                (omega (arith, length-drop n lits, full, length-take n lits)) c e
                (Stored-room one room) in
            ((0 ∷ code ∷ (take n lits ++ r.0), r.1), rw (many, e') refl, Stored-then one s, less)
      ]

  bits_length : (r : ℕ) → r < 7 → r0_length (u8 (248 + suc r)) ≡ 256 * 2 ^ suc r
  unfolding all_below doubled
  bits_length = table_eq _ _ 7 refl

  store_bits-Stored :
      (r : ℕ) (lits out : List ℕ)
      → r ≤ 7
      → length out + length lits ≤ size
      → (p : List ℕ × List ℕ) × (store_bits r lits ≡ some p) × Stored out lits p
  unfolding store_bits
  store_bits-Stored zero lits out h room = (([], lits), refl, Stored-none out lits)
  store_bits-Stored (suc r) lits out h room =
      let (p, e, s, less) =
        store_runs-Stored (length lits + 1) (u8 (248 + suc r)) (256 * 2 ^ suc r) lits out
          (omega (arith, pow-pos (suc r))) (omega arith) (omega arith) (bits_length r (omega arith))
          room in
      let (q, e', s') =
        store_bits-Stored r p.1 (out ++ s.front) (omega arith) (Stored-room s room) in
      ((p.0 ++ q.0, q.1), rw (e, e') refl, Stored-then s s')

  store_short-Last :
      (lits out : List ℕ)
      → length lits < 280
      → length out + length lits ≤ size
      → Last out (store_short lits) (out ++ lits)
  store_short-Last lits out few room = elim (Bool-cases (leb 32 (length lits))) [
    | inl long ↦
        let e : u8 (length lits - 32) ≡ length lits - 32 = omega arith in
        let d : r0_length (length lits - 32) ≡ length lits = ground arith in
        rw (long, e) (reader.r0_run (length lits - 32) lits out (omega arith) d room)
    | inr short ↦ rw short (elim (Bool-cases (ltb 0 (length lits))) [
      | inl some_lits ↦ rw some_lits (reader.short_run lits out (ground arith) (ground arith) room)
      | inr none ↦ rw none (empty lits (ground arith))
    ])
  ]
    where
      empty : (xs : List ℕ) → length xs ≡ 0 → Last out [] (out ++ xs)
      empty [] h = rw (append-nil out) (reader.none_left out)
      empty (x ∷ xs) h = absurd (omega arith)

  -- What store_run writes for any literals reads back as these literals.
  pub store_run-Last :
      (lits out : List ℕ)
      → length out + length lits ≤ size
      → (code : List ℕ) × (store_run lits ≡ some code) × Last out code (out ++ lits)
  unfolding store_run
  store_run-Last lits out room =
      let (p, e, s) = long in
      let (q, e', s', less) =
        store_runs-Stored (length lits + 1) 248 280 p.1 (out ++ s.front) (omega arith)
          (omega (arith, Stored-left s)) (omega arith) refl (Stored-room s room) in
      let last =
        store_short-Last q.1 ((out ++ s.front) ++ s'.front) less
          (Stored-room s' (Stored-room s room)) in
      (
        p.0 ++ (q.0 ++ store_short q.1),
        rw (e, e') refl,
        subst (Last out (p.0 ++ (q.0 ++ store_short q.1)))
            (append_assoc (out ++ s.front) s'.front q.1
              ∙ ap (λ xs. (out ++ s.front) ++ xs) s'.whole
              ∙ append_assoc out s.front p.1
              ∙ ap (λ xs. out ++ xs) s.whole)
            (reader.closed out p.0 (out ++ s.front) (q.0 ++ store_short q.1) _ s.coded
              (reader.closed (out ++ s.front) q.0 _ (store_short q.1) _ s'.coded last)),
      )
    where
      long :
          (p : List ℕ × List ℕ) × ((if leb 512 (length lits)
              then store_bits 7 lits
              else some ([], lits))
            ≡ some p)
          × Stored out lits p
      long = elim (Bool-cases (leb 512 (length lits))) [
        | inl many ↦ rw many (store_bits-Stored 7 lits out (omega arith) room)
        | inr few ↦ (([], lits), rw few refl, Stored-none out lits)
      ]

  -- The literals that are left at the end, if there are any.
  pub final_run-Last :
      (lits out : List ℕ)
      → length out + length lits ≤ size
      → (code : List ℕ) × ((if ltb 0 (length lits) then store_run lits else some []) ≡ some code)
        × Last out code (out ++ lits)
  final_run-Last [] out room = ([], refl, rw (append-nil out) (reader.none_left out))
  final_run-Last (x ∷ xs) out room =
      let some_lits : ltb 0 (length (x ∷ xs)) ≡ true = ground arith in
      let (code, e, c) = store_run-Last (x ∷ xs) out room in (code, rw (some_lits, e) refl, c)
