-- ===== src/Lzo1a/RoundTrip/Whole.antt =====
-- src/lzo1a.c: a whole source, compressed and decompressed.
use lzo.Base.{ℕ, zero, suc, ◌+◌, ◌-◌, ◌≤◌, ◌<◌, ◌≡◌, refl, arith, ◌∙◌, sym}
use lzo.Base.{leb, ◌==◌, Bool-cases, inl, inr, ==_iff}
use lzo.Base.{Option, none, some, List, [], ◌++◌, length, take, slice}
use lzo.Base.{length-take, length-slice, take-append-slice, take_all}
use lzo.Lzo1x.Decoder.{returned, e_ok}
use lzo.Lzo1.Encoder.{Dict, update, match_len, match_code, first_index}
use lzo.Lzo1.RoundTrip.Stored.{store_run-Last}
use lzo.Lzo1.RoundTrip.Search.{IsBefore, FoundIsMatch, update-IsBefore, match_len-Agree}
use lzo.Lzo1.RoundTrip.Whole.{match-Repeats}
use lzo.Lzo1a.Decoder.{any_code, decompress}
use lzo.Lzo1a.Encoder.{rounds, do_compress, compress}
use lzo.Lzo1a.RoundTrip.Store.{store_run-store_run}
use lzo.Lzo1a.RoundTrip.Search.{find_match-IsMatch}
use lzo.Lzo1a.Encoder.{find_match}
use lzo.Lzo1a.RoundTrip.Coded.{Coded, Coded-nil, Coded-append, Coded-decompress}
use lzo.Lzo1a.RoundTrip.Pieces.{Last, mode_runs}
use lzo.Lzo1a.RoundTrip.Pending.{R1Ready, store_pending-Flushed}
use lzo.Lzo1a.RoundTrip.After.{coded_after, IsPlaced-after, ready_after}
use lzo.Base.{empty_of_length}
use lzo.Lzo1.RoundTrip.Stored.{final_run-Last}
use lzo.Lzo1.RoundTrip.Search.{first-IsBefore}
use lzo.Lzo1a.Pointer.{IsPlaced, IsPlaced-before}
use mathlib.Core.Path.{subst}

module _ (src : List ℕ) (size : ℕ) (fits : length src ≤ size) where
  -- The loop from a position ends, and its output is read back as the source up to the final literals.
  abbrev Ends : ℕ → ℕ → ℕ → ℕ → Dict → List ℕ → Type 0
  Ends fuel ip ii r1 dict out =
      (r : List ℕ × ℕ) × (rounds src fuel ip ii r1 dict out ≡ some r)
      × Coded size any_code [] r.0 any_code (take r.1 src)
      × (r.1 ≤ length src)

  -- What holds before each round: the R1 pointer is far enough behind, or still at `ip_end`.
  record IsLoop (fuel ip ii r1 : ℕ) (dict : Dict) (out : List ℕ) : Type 0 where
    pending : ii ≤ ip
    inside : ip + 12 < length src
    enough : length src ≤ fuel + ip
    before : IsBefore ip dict
    coded : Coded size any_code [] out any_code (take ii src)
    placed : IsPlaced (length src) ii r1
    ready : r1 + 3 ≡ ii → R1Ready src size fits r1 out

  module _ (fuel : ℕ)
      (ih : (ip ii r1 : ℕ) (dict : Dict) (out : List ℕ)
        → IsLoop fuel ip ii r1 dict out
        → Ends fuel ip ii r1 dict out) where
    -- A round, by what is found.
    round-Coded :
        (ip ii r1 : ℕ) (dict : Dict) (out : List ℕ) (found : Option ℕ)
        → IsLoop (suc fuel) ip ii r1 dict out
        → (find_match src dict ip).0 ≡ found
        → FoundIsMatch src ip found
        → Ends (suc fuel) ip ii r1 dict out
    unfolding rounds
    round-Coded ip ii r1 dict out none l e g =
        let in_end = length src - 3 in
        let dict' = update dict (find_match src dict ip).1 ip in
        elim (Bool-cases (leb (in_end - 9) (ip + 1))) [
          | inl over ↦ (
            (out, ii),
            rw (e, rounds) (rw over refl),
            l.coded,
            omega (arith, l.pending, l.inside),
          )
          | inr inside ↦
              let (r, e', c', k) = ih (ip + 1) ii r1 dict' out (record {
                pending = omega (arith, l.pending);
                inside = ground arith;
                enough = omega (arith, l.enough);
                before = update-IsBefore ip (find_match src dict ip).1 dict l.before;
                coded = l.coded;
                placed = l.placed;
                ready = l.ready;
              }) in
              (r, rw (e, rounds) (rw inside e'), c', k)
        ]
    round-Coded ip ii r1 dict out (some m) l e (earlier, near, three) =
        let in_end = length src - 3 in
        let dict' = update dict (find_match src dict ip).1 ip in
        let len = match_len src in_end ip m in
        let (agree, low, high, end) =
          match_len-Agree src in_end ip m three (omega (arith, l.inside)) in
        let (p, e', flushed) =
          store_pending-Flushed src size fits ip ii r1 out l.pending (omega (arith, l.inside))
            (IsPlaced-before (length src) ip ii r1 l.placed l.inside) l.ready l.coded in
        let repeats = match-Repeats src size fits ip m len earlier (omega arith) agree in
        let out' = p.0 ++ match_code len (ip - m) in
        let coded =
          coded_after src size fits ip ii r1 (ip - m) len out p near low high repeats l.placed
            l.pending flushed in
        elim (Bool-cases (leb (in_end - 9) (ip + len))) [
          | inl over ↦ ((out', ip + len), rw (e, rounds) (rw (e', over) refl), coded, omega arith)
          | inr inside ↦
              let (r, e'', c', k) = ih (ip + len) (ip + len) p.1 dict' out' (record {
                pending = omega arith;
                inside = ground arith;
                enough = omega (arith, l.enough);
                before = λ i n d.
                    omega
                      (arith, update-IsBefore ip (find_match src dict ip).1 dict l.before i n d);
                coded = coded;
                placed =
                    IsPlaced-after src size fits ip ii r1 (ip - m) len out p near low high repeats
                      l.placed l.pending flushed;
                ready =
                    ready_after src size fits ip ii r1 (ip - m) len out p near low high repeats
                      l.placed l.pending flushed (ground arith);
              }) in
              (r, rw (e, rounds) (rw (e', inside) e''), c', k)
        ]

  rounds-Coded :
      (fuel ip ii r1 : ℕ) (dict : Dict) (out : List ℕ)
      → IsLoop fuel ip ii r1 dict out
      → Ends fuel ip ii r1 dict out
  rounds-Coded zero ip ii r1 dict out l = absurd (omega (arith, l.inside, l.enough))
  rounds-Coded (suc fuel) ip ii r1 dict out l =
      round-Coded fuel (rounds-Coded fuel) ip ii r1 dict out (find_match src dict ip).0 l refl
        (find_match-IsMatch src dict ip l.before)

  do_compress-Coded :
      13 < length src → (code : List ℕ) × (do_compress src ≡ some code) × Last size [] code src
  unfolding do_compress
  do_compress-Coded h =
      let dict = update (λ i. none) (first_index src 0) 0 in
      let (r, e, c, k) = rounds-Coded (length src) 1 0 (length src - 3 - 9) dict [] (record {
        pending = omega arith;
        inside = omega arith;
        enough = omega arith;
        before = first-IsBefore (first_index src 0);
        coded = Coded-nil size any_code [];
        placed = inr (omega arith);
        ready = λ r1. absurd (omega arith);
      }) in
      let (last, e', (m, c')) =
        final_run-Last size _ (Last size) (mode_runs size) (slice src r.1 (length src))
          (take r.1 src)
          (omega (arith, length-take r.1 src, length-slice r.1 (length src) src k (omega arith))) in
      let whole : take r.1 src ++ slice src r.1 (length src) ≡ src =
        take-append-slice r.1 (length src) src k ∙ take_all (length src) src (omega arith) in
      (
        r.0 ++ last,
        rw (e, store_run-store_run (slice src r.1 (length src)), e') refl,
        (
          m,
          Coded-append size any_code any_code m [] r.0 (take r.1 src) last src c
              (subst (Coded size any_code (take r.1 src) last m) whole c'),
        ),
      )

  compress-Coded : (code : List ℕ) × (compress src ≡ some code) × Last size [] code src
  unfolding compress
  compress-Coded = elim (Bool-cases (length src == 0)) [
    | inl empty ↦
        let nil : [] ≡ src = sym (empty_of_length src ((==_iff _ _).0 empty)) in
        ([], rw empty refl, subst (Last size [] []) nil (any_code, Coded-nil size any_code []))
    | inr nonempty ↦ rw nonempty (elim (Bool-cases (leb (length src) 13)) [
      | inl short ↦
          let (code, e, c) =
            store_run-Last size _ (Last size) (mode_runs size) src [] (omega (arith, fits)) in
          (code, rw (short, store_run-store_run src ∙ e) refl, c)
      | inr long ↦
          let (code, e, c) = do_compress-Coded (ground arith) in (code, rw (long, e) refl, c)
    ])
  ]

-- Every source, of any length, is compressed by lzo1a_compress, and lzo1a_decompress with a buffer at
-- least as long as the source reads the result back without a read past the input, a copy from outside
-- the output or a write past the buffer, as exactly the source.
pub lzo1a_compress-lzo1a_decompress :
    (src : List ℕ) (size : ℕ)
    → length src ≤ size
    → (code : List ℕ) × (compress src ≡ some code) × (decompress size code ≡ returned e_ok src)
lzo1a_compress-lzo1a_decompress src size fits =
    let (code, e, (m, c)) = compress-Coded src size fits in
    (code, e, Coded-decompress size m code src c)
