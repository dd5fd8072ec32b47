-- ===== src/Lzo1/RoundTrip/Matches.antt =====
-- src/lzo1.c: the code of a match is read back as that match.
use lzo.Base.{ℕ, ◌+◌, ◌-◌, ◌*◌, ◌/◌, ◌%◌, ◌^◌, ◌≤◌, ◌<◌, ◌≡◌, refl, arith, ◌∙◌, ap, u8}
use lzo.Base.{ltb, leb, Bool-cases, inl, inr, true, false, bit_or, bit_or_add, bit_or_comm}
use lzo.Base.{List, [], ◌∷◌, ◌++◌, length, take, length-take}
use lzo.Lzo1x.Decoder.{next, copy_match}
use lzo.Lzo1x.Decoder.Copy.{copy_match_lem, extended-take}
use lzo.Lzo1x.RoundTrip.Matches.{Repeats}
use lzo.Lzo1.Decoder.{round, match_copy, match_tail}
use lzo.Lzo1.Encoder.{match_code}
use lzo.Lzo1.RoundTrip.Coded.{Coded, Coded-round}

-- `|` of a number below 32 with a multiple of 32, the multiple first.
or_low : (q r : ℕ) → r < 32 → bit_or (q * 2 ^ 5) r ≡ q * 32 + r
or_low q r h = omega (arith, bit_or_comm (q * 2 ^ 5) r, bit_or_add 5 r q h)

-- The code of a match, read by the part of the loop behind the label `match`.
pub record MatchRead (src : List ℕ) (size q len : ℕ) (code : List ℕ) : Type 0 where
  pub marker : ℕ
  pub rest : List ℕ
  pub whole : code ≡ marker ∷ rest
  pub is_match : 32 ≤ marker
  pub reads :
      (more : List ℕ)
      → match_copy size marker (rest ++ more) (take q src) ≡ next (more, take (q + len) src)

module _ (src : List ℕ) (size q off len : ℕ) (r : Repeats src size q off len) where
  -- A part of the copy, from `p` on.
  pub copied :
      (p n : ℕ)
      → q ≤ p
      → p + n ≤ q + len
      → copy_match size off n (take p src) ≡ next (take (p + n) src)
  copied p n h k =
      let l : length (take p src) ≡ p = omega (arith, length-take p src, r.within) in
      copy_match_lem size off n (take p src) r.ahead (omega (arith, l, r.inside))
        (omega (arith, l, r.within, r.room))
      ∙ ap next (
          extended-take src off n p r.ahead (omega (arith, r.inside)) (omega (arith, r.within))
            λ i lt.
              let e : q + (p + i - q) ≡ p + i = omega arith in
              rw e at (r.equal (p + i - q) (omega arith)))

  module _ (long_enough : 3 ≤ len) (near : off ≤ 8192) where
    copied_after :
        (ip : List ℕ) (t b : ℕ) (more : List ℕ)
        → bit_or (t % 32) (b * 2 ^ 5) ≡ off - 1
        → match_tail t ip ≡ next (len - 2, more)
        → match_copy size t (b ∷ ip) (take q src) ≡ next (more, take (q + len) src)
    copied_after ip t b more e tail =
        let o : 1 + (off - 1) ≡ off = omega (arith, r.ahead) in
        let whole : q + 2 + (len - 2) ≡ q + len = omega arith in
        rw
          (
            e,
            tail,
            o,
            copied q 2 (omega arith) (omega arith),
            copied (q + 2) (len - 2) (omega arith) (omega arith),
            whole,
          )
          refl

    pub offset_read :
        (t : ℕ)
        → t % 32 ≡ (off - 1) % 32
        → bit_or (t % 32) (u8 ((off - 1) / 2 ^ 5) * 2 ^ 5) ≡ off - 1
    offset_read t e = omega (arith, bit_or_add 5 (t % 32) (u8 ((off - 1) / 2 ^ 5)) (omega arith))

    short-MatchRead :
        len ≤ 8
        → MatchRead src size q len (((len - 2) * 32 + (off - 1) % 32) ∷ u8 ((off - 1) / 2 ^ 5) ∷ [])
    short-MatchRead short = record {
      marker = (len - 2) * 32 + (off - 1) % 32;
      rest = u8 ((off - 1) / 2 ^ 5) ∷ [];
      whole = refl;
      is_match = omega arith;
      reads = λ more.
          let t = (len - 2) * 32 + (off - 1) % 32 in
          let not_long : leb (7 * 2 ^ 5) t ≡ false = ground arith in
          let len_bits : t / 2 ^ 5 ≡ len - 2 = omega arith in
          copied_after more t (u8 ((off - 1) / 2 ^ 5)) more (offset_read t (omega arith))
            (rw (not_long, len_bits) refl);
    }

    long-MatchRead :
        9 ≤ len
        → len ≤ 264
        → MatchRead src size q len
            ((224 + (off - 1) % 32) ∷ u8 ((off - 1) / 2 ^ 5) ∷ u8 (len - 9) ∷ [])
    long-MatchRead long bounded = record {
      marker = 224 + (off - 1) % 32;
      rest = u8 ((off - 1) / 2 ^ 5) ∷ u8 (len - 9) ∷ [];
      whole = refl;
      is_match = omega arith;
      reads = λ more.
          let t = 224 + (off - 1) % 32 in
          let all_bits : leb (7 * 2 ^ 5) t ≡ true = ground arith in
          let tail : 7 + u8 (len - 9) ≡ len - 2 = omega arith in
          copied_after (u8 (len - 9) ∷ more) t (u8 ((off - 1) / 2 ^ 5)) more
            (offset_read t (omega arith)) (rw (all_bits, tail) refl);
    }

    -- A short match is written with its length less 2 above the low bits of the offset.
    pub match_code_short :
        len ≤ 8
        → match_code len off ≡ ((len - 2) * 32 + (off - 1) % 32) ∷ u8 ((off - 1) / 2 ^ 5) ∷ []
    match_code_short short =
        let e : u8 (bit_or ((len - 2) * 2 ^ 5) ((off - 1) % 32)) ≡ (len - 2) * 32 + (off - 1) % 32 =
          omega (arith, or_low (len - 2) ((off - 1) % 32) (omega arith)) in
        let l : ltb len 9 ≡ true = ground arith in rw (l, e) refl

    -- The code that the compressor writes for a match is read back as that match.
    pub match_code-MatchRead : len ≤ 264 → MatchRead src size q len (match_code len off)
    match_code-MatchRead bounded = elim (Bool-cases (ltb len 9)) [
      | inl short ↦
          let few : len ≤ 8 = ground arith in rw (match_code_short few) (short-MatchRead few)
      | inr long ↦
          let e : u8 (bit_or (7 * 2 ^ 5) ((off - 1) % 32)) ≡ 224 + (off - 1) % 32 =
            omega (arith, or_low 7 ((off - 1) % 32) (omega arith)) in
          rw (long, e) (long-MatchRead (ground arith) bounded)
    ]

    pub match_code-Coded :
        len ≤ 264 → Coded size (take q src) (match_code len off) (take (q + len) src)
    match_code-Coded bounded =
        let m = match_code-MatchRead bounded in
        let a_match : ltb m.marker 32 ≡ false = ground (arith, m.is_match) in
        rw m.whole (
          Coded-round size (take q src) (take (q + len) src) m.marker m.rest
            λ more. unfold round in rw a_match (m.reads more))
