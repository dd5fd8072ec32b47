-- ===== src/Lzo1a/RoundTrip/After.antt =====
-- src/lzo1a.c: what holds behind a match that the compressor has written.
use lzo.Base.{ℕ, ◌+◌, ◌≤◌, ◌<◌, ◌≡◌, refl, arith, ◌⊎◌}
use lzo.Base.{inl, inr}
use lzo.Base.{List, [], ◌++◌, length, take}
use lzo.Lzo1x.RoundTrip.Matches.{Repeats}
use lzo.Lzo1.Encoder.{match_code}
use lzo.Lzo1a.Pointer.{IsPlaced, IsPlaced-match}
use lzo.Lzo1a.Decoder.{Mode, any_code, after_literals}
use lzo.Lzo1a.RoundTrip.Coded.{Coded, Coded-append}
use lzo.Lzo1a.RoundTrip.Pieces.{match_code-Coded}
use lzo.Lzo1a.RoundTrip.Pending.{R1Ready, Flushed}

module _ (src : List ℕ) (size : ℕ) (fits : length src ≤ size) where
  -- The literals in front of a match and the match, and the R1 pointer behind them.
  module _ (ip ii r1 off len : ℕ) (out : List ℕ) (p : List ℕ × ℕ) (near : off ≤ 8192)
      (low : 3 ≤ len) (high : len ≤ 264) (repeats : Repeats src size ip off len)
      (placed : IsPlaced (length src) ii r1) (pending : ii ≤ ip)
      (flushed : Flushed src size fits ip r1 p) where
    pub coded_after :
        Coded size any_code [] (p.0 ++ match_code len off) any_code (take (ip + len) src)
    coded_after = of flushed
      where
        joined :
            (m : Mode)
            → Coded size any_code [] p.0 m (take ip src)
            → Coded size any_code [] (p.0 ++ match_code len off) any_code (take (ip + len) src)
        joined m c =
            Coded-append size any_code m any_code [] p.0 (take ip src) (match_code len off)
              (take (ip + len) src) c (match_code-Coded src size ip off near m len repeats low high)

        of :
            Flushed src size fits ip r1 p
            → Coded size any_code [] (p.0 ++ match_code len off) any_code (take (ip + len) src)
        of (inl (e, c)) = joined after_literals c
        of (inr (e, (m, c))) = joined m c

    pub IsPlaced-after : IsPlaced (length src) (ip + len) p.1
    IsPlaced-after = IsPlaced-match (length src) ip ii r1 p.1 len low pending placed (moved flushed)
      where
        moved : Flushed src size fits ip r1 p → (p.1 ≡ ip) ⊎ (p.1 ≡ r1)
        moved (inl (e, c)) = inl e
        moved (inr (e, c)) = inr e

    pub ready_after :
        ip + len + 12 < length src
        → p.1 + 3 ≡ ip + len
        → R1Ready src size fits p.1 (p.0 ++ match_code len off)
    ready_after inside three = of flushed placed
      where
        of :
            Flushed src size fits ip r1 p
            → IsPlaced (length src) ii r1
            → R1Ready src size fits p.1 (p.0 ++ match_code len off)
        of (inl (e, c)) h =
            let l : len ≡ 3 = omega arith in
            record {
              pre = p.0;
              off = off;
              near = near;
              repeats = rw (e, ← l) repeats;
              whole = rw l refl;
              coded = rw e c;
            }
        of (inr (e, c)) (inl h) = absurd (omega arith)
        of (inr (e, c)) (inr h) = absurd (omega arith)
