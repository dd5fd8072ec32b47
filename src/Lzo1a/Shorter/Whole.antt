-- ===== src/Lzo1a/Shorter/Whole.antt =====
-- src/lzo1a.c against src/lzo1.c: the loops, and whole sources.
use lzo.Base.{ℕ, zero, suc, ◌+◌, ◌-◌, ◌≤◌, ◌<◌, ◌≡◌, refl, arith}
use lzo.Base.{ltb, leb, ◌==◌, if◌then◌else◌, Bool-cases, inl, inr}
use lzo.Base.{Option, none, some, List, [], ◌++◌, length, slice}
use lzo.Base.{length-append}
use lzo.Lzo1.Encoder as Plain
use lzo.Lzo1.Encoder.{
  Dict, update, find, match_len, match_code, store_run, store_literals, store_runs, first_index,
}
use lzo.Lzo1.RoundTrip.Search.{
  IsBefore, FoundIsMatch, update-IsBefore, find-IsMatch, match_len-Agree,
}
use lzo.Base.{◌∙◌, ap}
use lzo.Lzo1a.RoundTrip.Store.{store_run-store_run}
use lzo.Lzo1a.RoundTrip.Search.{find_match-find}
use lzo.Lzo1a.Encoder.{rounds, do_compress, compress}
use lzo.Lzo1a.Shorter.Literals.{store_run_returns, store_pending_le}
use lzo.Lzo1a.Pointer.{IsPlaced, IsPlaced-match, IsPlaced-before}
use lzo.Lzo1.RoundTrip.Search.{first-IsBefore}

module _ (src : List ℕ) where
  -- Both loops from a position end at the same final literals.
  abbrev Ends : ℕ → ℕ → ℕ → ℕ → Dict → List ℕ → List ℕ → Type 0
  Ends fuel ip ii r1 dict out plain =
      (out' : List ℕ) × (plain' : List ℕ) × (last : ℕ) × (rounds src fuel ip ii r1 dict out
        ≡ some (out', last))
      × (Plain.rounds src fuel ip ii dict plain ≡ some (plain', last))
      × (length out' ≤ length plain')

  record IsLoop (fuel ip ii r1 : ℕ) (dict : Dict) (out plain : List ℕ) : Type 0 where
    pending : ii ≤ ip
    inside : ip + 12 < length src
    enough : length src ≤ fuel + ip
    before : IsBefore ip dict
    placed : IsPlaced (length src) ii r1
    two : 0 < ii → 2 ≤ length out
    shorter : length out ≤ length plain

  two_bytes : (len off : ℕ) → 2 ≤ length (match_code len off)
  two_bytes len off = elim (Bool-cases (ltb len 9)) [
    | inl short ↦ rw short (omega arith)
    | inr long ↦ rw long (omega arith)
  ]

  module _ (fuel : ℕ)
      (ih : (ip ii r1 : ℕ) (dict : Dict) (out plain : List ℕ)
        → IsLoop fuel ip ii r1 dict out plain
        → Ends fuel ip ii r1 dict out plain) where
    round_le :
        (ip ii r1 : ℕ) (dict : Dict) (out plain : List ℕ) (found : Option ℕ)
        → IsLoop (suc fuel) ip ii r1 dict out plain
        → (find src dict ip).0 ≡ found
        → FoundIsMatch src ip found
        → Ends (suc fuel) ip ii r1 dict out plain
    unfolding rounds Plain.rounds
    round_le ip ii r1 dict out plain none l e g =
        let in_end = length src - 3 in
        let dict' = update dict (find src dict ip).1 ip in
        let q = find_match-find src dict ip l.before in
        let e' = ap (λ (f : Option ℕ × ℕ). f.0) q ∙ e in
        elim (Bool-cases (leb (in_end - 9) (ip + 1))) [
          | inl over ↦ (
            out,
            plain,
            ii,
            rw (e', rounds) (rw over refl),
            rw (e, Plain.rounds) (rw over refl),
            l.shorter,
          )
          | inr inside ↦
              let (out', plain', last, a, b, k) = ih (ip + 1) ii r1 dict' out plain (record {
                pending = omega (arith, l.pending);
                inside = ground arith;
                enough = omega (arith, l.enough);
                before = update-IsBefore ip (find src dict ip).1 dict l.before;
                placed = l.placed;
                two = l.two;
                shorter = l.shorter;
              }) in
              (
                out',
                plain',
                last,
                rw (e', rounds) (rw (inside, q) a),
                rw (e, Plain.rounds) (rw inside b),
                k,
              )
        ]
    round_le ip ii r1 dict out plain (some m) l e (earlier, near, three) =
        let in_end = length src - 3 in
        let dict' = update dict (find src dict ip).1 ip in
        let q = find_match-find src dict ip l.before in
        let e' = ap (λ (f : Option ℕ × ℕ). f.0) q ∙ e in
        let len = match_len src in_end ip m in
        let code = match_code len (ip - m) in
        let (agree, low, high, end) =
          match_len-Agree src in_end ip m three (omega (arith, l.inside)) in
        let (p, lits, s, s', k, at) =
          store_pending_le src ip ii r1 out l.pending (omega (arith, l.inside))
            (IsPlaced-before (length src) ip ii r1 l.placed l.inside) l.two in
        let no_longer : length (p.0 ++ code) ≤ length (plain ++ (lits ++ code)) = omega (
          arith,
          k,
          l.shorter,
          length-append p.0 code,
          length-append lits code,
          length-append plain (lits ++ code),
        ) in
        elim (Bool-cases (leb (in_end - 9) (ip + len))) [
          | inl over ↦ (
            p.0 ++ code,
            plain ++ (lits ++ code),
            ip + len,
            rw (e', rounds) (rw (s, over) refl),
            rw (e, Plain.rounds) (rw (s', over) refl),
            no_longer,
          )
          | inr inside ↦
              let (out', plain', last, a, b, k') =
                ih (ip + len) (ip + len) p.1 dict' (p.0 ++ code) (plain ++ (lits ++ code)) (record {
                  pending = omega arith;
                  inside = ground arith;
                  enough = omega (arith, l.enough);
                  before = λ i n d.
                      omega (arith, update-IsBefore ip (find src dict ip).1 dict l.before i n d);
                  placed = IsPlaced-match (length src) ip ii r1 p.1 len low l.pending l.placed at;
                  two = λ h. omega (arith, length-append p.0 code, two_bytes len (ip - m));
                  shorter = no_longer;
                }) in
              (
                out',
                plain',
                last,
                rw (e', rounds) (rw (s, inside, q) a),
                rw (e, Plain.rounds) (rw (s', inside) b),
                k',
              )
        ]

  rounds_le :
      (fuel ip ii r1 : ℕ) (dict : Dict) (out plain : List ℕ)
      → IsLoop fuel ip ii r1 dict out plain
      → Ends fuel ip ii r1 dict out plain
  rounds_le zero ip ii r1 dict out plain l = absurd (omega (arith, l.inside, l.enough))
  rounds_le (suc fuel) ip ii r1 dict out plain l =
      round_le fuel (rounds_le fuel) ip ii r1 dict out plain (find src dict ip).0 l refl
        (find-IsMatch src dict ip l.before)

  final_run :
      (lits : List ℕ)
      → (code : List ℕ) × ((if ltb 0 (length lits) then store_run lits else some []) ≡ some code)
  final_run lits = elim (Bool-cases (ltb 0 (length lits))) [
    | inl some_lits ↦ let (code, e) = store_run_returns lits in (code, rw (some_lits, e) refl)
    | inr none_left ↦ ([], rw none_left refl)
  ]

  do_compress_le :
      13 < length src
      → (code : List ℕ) × (plain : List ℕ) × (do_compress src ≡ some code)
        × (Plain.do_compress src ≡ some plain)
        × (length code ≤ length plain)
  unfolding do_compress Plain.do_compress
  do_compress_le h =
      let dict = update (λ i. none) (first_index src 0) 0 in
      let (out, plain, last, e, e', k) =
        rounds_le (length src) 1 0 (length src - 3 - 9) dict [] [] (record {
          pending = omega arith;
          inside = omega arith;
          enough = omega arith;
          before = first-IsBefore (first_index src 0);
          placed = inr (omega arith);
          two = λ z. absurd (omega arith);
          shorter = omega arith;
        }) in
      let (run, r) = final_run (slice src last (length src)) in
      (
        out ++ run,
        plain ++ run,
        rw (e, store_run-store_run (slice src last (length src)), r) refl,
        rw (e', r) refl,
        omega (arith, k, length-append out run, length-append plain run),
      )

-- For every source, lzo1a_compress and lzo1_compress both return, and the code of lzo1a_compress has at
-- most as many bytes as the code of lzo1_compress.
pub lzo1a_compress-le-lzo1_compress :
    (src : List ℕ)
    → (code : List ℕ) × (plain : List ℕ) × (compress src ≡ some code)
      × (Plain.compress src ≡ some plain)
      × (length code ≤ length plain)
unfolding compress Plain.compress
lzo1a_compress-le-lzo1_compress src = elim (Bool-cases (length src == 0)) [
  | inl empty ↦ ([], [], rw empty refl, rw empty refl, omega arith)
  | inr nonempty ↦ rw nonempty (elim (Bool-cases (leb (length src) 13)) [
    | inl short ↦
        let (code, e) = store_run_returns src in
        (code, code, rw (short, store_run-store_run src ∙ e) refl, rw (short, e) refl, omega arith)
    | inr long ↦
        let (code, plain, e, e', k) = do_compress_le src (ground arith) in
        (code, plain, rw (long, e) refl, rw (long, e') refl, k)
  ])
]
