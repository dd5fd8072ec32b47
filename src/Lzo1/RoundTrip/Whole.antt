-- ===== src/Lzo1/RoundTrip/Whole.antt =====
-- src/lzo1.c: a whole source, compressed and decompressed.
use lzo.Base.{ℕ, zero, suc, ◌+◌, ◌-◌, ◌≤◌, ◌<◌, ◌≡◌, refl, arith, ◌∙◌, sym}
use lzo.Base.{leb, ◌==◌, Bool-cases, inl, inr, ==_iff}
use lzo.Base.{Option, none, some, List, [], ◌++◌, length, take, slice}
use lzo.Base.{length-take, length-slice, take-append-slice, take_all}
use lzo.Lzo1x.Decoder.{returned, e_ok}
use lzo.Lzo1x.Encoder.Search.{Agree}
use lzo.Lzo1x.RoundTrip.Matches.{Repeats}
use lzo.Lzo1.Decoder.{decompress}
use lzo.Lzo1.Encoder.{
  Dict, update, find, match_len, match_code, store_literals, rounds, do_compress, compress,
  first_index,
}
use lzo.Lzo1.RoundTrip.Coded.{Coded, Coded-nil, Coded-append, Coded-decompress}
use lzo.Lzo1.RoundTrip.Runs.{store_run-Coded, store_literals-Coded}
use lzo.Lzo1.RoundTrip.Matches.{match_code-Coded}
use lzo.Lzo1.RoundTrip.Search.{
  IsBefore, FoundIsMatch, update-IsBefore, find-IsMatch, match_len-Agree,
}
use lzo.Base.{empty_of_length}
use lzo.Lzo1.RoundTrip.Stored.{final_run-Last}
use lzo.Lzo1.RoundTrip.Runs.{coded_runs}
use lzo.Lzo1.RoundTrip.Search.{first-IsBefore}
use mathlib.Core.Path.{subst}

module _ (src : List ℕ) (size : ℕ) (fits : length src ≤ size) where
  -- A match is a repetition of the source.
  pub match-Repeats :
      (ip m len : ℕ)
      → m < ip
      → ip + len ≤ length src
      → Agree src ip m len
      → Repeats src size ip (ip - m) len
  match-Repeats ip m len h k a = record {
    ahead = omega arith;
    inside = omega arith;
    within = k;
    room = fits;
    equal = λ i lt. let e : ip + i - (ip - m) ≡ m + i = omega arith in rw e (a i lt);
  }

  -- The output up to `ii`, and the code of the literals from there to `ip`.
  literals-Coded :
      (ii ip : ℕ)
      → ii ≤ ip
      → ip ≤ length src
      → (code : List ℕ) × (store_literals (slice src ii ip) ≡ some code)
        × Coded size (take ii src) code (take ip src)
  literals-Coded ii ip h k =
      let (code, e, c) =
        store_literals-Coded size (slice src ii ip) (take ii src)
          (omega (arith, length-take ii src, length-slice ii ip src h k)) in
      (code, e, subst (Coded size (take ii src) code) (take-append-slice ii ip src h) c)

  -- The loop from a position ends, and its output is read back as the source up to the final literals.
  abbrev Ends : ℕ → ℕ → ℕ → Dict → List ℕ → Type 0
  Ends fuel ip ii dict out =
      (r : List ℕ × ℕ) × (rounds src fuel ip ii dict out ≡ some r)
      × Coded size [] r.0 (take r.1 src)
      × (r.1 ≤ length src)

  -- What holds before each round.
  record IsLoop (fuel ip ii : ℕ) (dict : Dict) (out : List ℕ) : Type 0 where
    pending : ii ≤ ip
    inside : ip + 12 < length src
    enough : length src ≤ fuel + ip
    before : IsBefore ip dict
    coded : Coded size [] out (take ii src)

  module _ (fuel : ℕ)
      (ih : (ip ii : ℕ) (dict : Dict) (out : List ℕ)
        → IsLoop fuel ip ii dict out
        → Ends fuel ip ii dict out) where
    -- A round, by what is found.
    round-Coded :
        (ip ii : ℕ) (dict : Dict) (out : List ℕ) (found : Option ℕ)
        → IsLoop (suc fuel) ip ii dict out
        → (find src dict ip).0 ≡ found
        → FoundIsMatch src ip found
        → Ends (suc fuel) ip ii dict out
    unfolding rounds
    round-Coded ip ii dict out none l e g =
        let in_end = length src - 3 in
        let dict' = update dict (find src dict ip).1 ip in
        elim (Bool-cases (leb (in_end - 9) (ip + 1))) [
          | inl over ↦ (
            (out, ii),
            rw (e, rounds) (rw over refl),
            l.coded,
            omega (arith, l.pending, l.inside),
          )
          | inr inside ↦
              let (r, e', c', k) = ih (ip + 1) ii dict' out (record {
                pending = omega (arith, l.pending);
                inside = ground arith;
                enough = omega (arith, l.enough);
                before = update-IsBefore ip (find src dict ip).1 dict l.before;
                coded = l.coded;
              }) in
              (r, rw (e, rounds) (rw inside e'), c', k)
        ]
    round-Coded ip ii dict out (some m) l e (earlier, near, three) =
        let in_end = length src - 3 in
        let dict' = update dict (find src dict ip).1 ip in
        let len = match_len src in_end ip m in
        let (agree, low, high, end) =
          match_len-Agree src in_end ip m three (omega (arith, l.inside)) in
        let (lits, e', c) = literals-Coded ii ip l.pending (omega (arith, l.inside)) in
        let repeats = match-Repeats ip m len earlier (omega arith) agree in
        let out' = out ++ (lits ++ match_code len (ip - m)) in
        let coded : Coded size [] out' (take (ip + len) src) =
          Coded-append size [] out (take ii src) (lits ++ match_code len (ip - m))
            (take (ip + len) src) l.coded
            (Coded-append size (take ii src) lits (take ip src) (match_code len (ip - m))
              (take (ip + len) src) c
              (match_code-Coded src size ip (ip - m) len repeats low near high)) in
        elim (Bool-cases (leb (in_end - 9) (ip + len))) [
          | inl over ↦ ((out', ip + len), rw (e, rounds) (rw (e', over) refl), coded, omega arith)
          | inr inside ↦
              let (r, e'', c', k) = ih (ip + len) (ip + len) dict' out' (record {
                pending = omega arith;
                inside = ground arith;
                enough = omega (arith, l.enough);
                before = λ i n d.
                    omega (arith, update-IsBefore ip (find src dict ip).1 dict l.before i n d);
                coded = coded;
              }) in
              (r, rw (e, rounds) (rw (e', inside) e''), c', k)
        ]

  rounds-Coded :
      (fuel ip ii : ℕ) (dict : Dict) (out : List ℕ)
      → IsLoop fuel ip ii dict out
      → Ends fuel ip ii dict out
  rounds-Coded zero ip ii dict out l = absurd (omega (arith, l.inside, l.enough))
  rounds-Coded (suc fuel) ip ii dict out l =
      round-Coded fuel (rounds-Coded fuel) ip ii dict out (find src dict ip).0 l refl
        (find-IsMatch src dict ip l.before)

  do_compress-Coded :
      13 < length src → (code : List ℕ) × (do_compress src ≡ some code) × Coded size [] code src
  unfolding do_compress
  do_compress-Coded h =
      let dict = update (λ i. none) (first_index src 0) 0 in
      let (r, e, c, k) = rounds-Coded (length src) 1 0 dict [] (record {
        pending = omega arith;
        inside = omega arith;
        enough = omega arith;
        before = first-IsBefore (first_index src 0);
        coded = Coded-nil size [];
      }) in
      let (last, e', c') =
        final_run-Last size (Coded size) (Coded size) (coded_runs size) (slice src r.1 (length src))
          (take r.1 src)
          (omega (arith, length-take r.1 src, length-slice r.1 (length src) src k (omega arith))) in
      let whole : take r.1 src ++ slice src r.1 (length src) ≡ src =
        take-append-slice r.1 (length src) src k ∙ take_all (length src) src (omega arith) in
      (
        r.0 ++ last,
        rw (e, e') refl,
        Coded-append size [] r.0 (take r.1 src) last src c
            (subst (Coded size (take r.1 src) last) whole c'),
      )

  compress-Coded : (code : List ℕ) × (compress src ≡ some code) × Coded size [] code src
  unfolding compress
  compress-Coded = elim (Bool-cases (length src == 0)) [
    | inl empty ↦
        let nil : [] ≡ src = sym (empty_of_length src ((==_iff _ _).0 empty)) in
        ([], rw empty refl, subst (Coded size [] []) nil (Coded-nil size []))
    | inr nonempty ↦ rw nonempty (elim (Bool-cases (leb (length src) 13)) [
      | inl short ↦
          let (code, e, c) = store_run-Coded size src [] (omega (arith, fits)) in
          (code, rw (short, e) refl, c)
      | inr long ↦
          let (code, e, c) = do_compress-Coded (ground arith) in (code, rw (long, e) refl, c)
    ])
  ]

-- Every source, of any length, is compressed by lzo1_compress, and lzo1_decompress with a buffer at least
-- as long as the source reads the result back without a read past the input, a copy from outside the
-- output or a write past the buffer, as exactly the source.
pub lzo1_compress-lzo1_decompress :
    (src : List ℕ) (size : ℕ)
    → length src ≤ size
    → (code : List ℕ) × (compress src ≡ some code) × (decompress size code ≡ returned e_ok src)
lzo1_compress-lzo1_decompress src size fits =
    let (code, e, c) = compress-Coded src size fits in (code, e, Coded-decompress size code src c)
