-- ===== src/Lzo1x/RoundTrip/Matches/Wide.antt =====
-- How the decoder takes the codes of M3 and M4 matches, with two offset bytes.
use lzo.Base.{ℕ, zero, suc, ◌+◌, ◌-◌, ◌*◌, ◌/◌, ◌%◌, ◌^◌, ◌≤◌, ◌<◌, ◌≡◌, refl, ◌∙◌, arith, u64, u8}
use lzo.Base.{◌==◌, bit_and}
use lzo.Base.{List, ◌∷◌, ◌++◌, length, length-append, take}
use lzo.Base.{bit_and_eight, false}
use lzo.Lzo1x.Format.{Variant, m3_max_offset}
use lzo.Lzo1x.Decoder.{safe}
use lzo.Lzo1x.Decoder.{next, match_length, finish_match, any_match}
use lzo.Lzo1x.Decoder.{m3_match, m4_match}
use lzo.Lzo1x.Encoder.{offset_code}
use lzo.Lzo1x.RoundTrip.Matches.{Repeats, IsRead, finish_match-take, any_match-m3, any_match-m4}

module _ (v : Variant) (src : List ℕ) (size q off len : ℕ) (r : Repeats src size q off len) where
  -- What M3 and M4 codes share: a marker, a length behind it or in it, and two offset bytes.
  wide-IsRead :
      (m : ℕ) (mid : List ℕ) (o : ℕ)
      → 16 ≤ m
      → ((j : ℕ) (rest : List ℕ)
          → j < 4
          → any_match v size m (mid ++ ((u8 (o * 4) + j) ∷ u8 (o / 64) ∷ rest)) (take q src)
            ≡ finish_match size off len (u8 (o * 4) + j) rest (take q src))
      → IsRead v src size q off len (m ∷ (mid ++ offset_code o))
  wide-IsRead m mid o h e = record {
    front = m ∷ mid;
    low = u8 (o * 4);
    last = u8 (o / 64);
    shape = refl;
    free = omega arith;
    byte = omega arith;
    marker = λ j. m;
    behind = λ j rest. mid ++ ((u8 (o * 4) + j) ∷ u8 (o / 64) ∷ rest);
    first = λ j rest. refl;
    big = λ j. h;
    some_left = λ j rest. omega (arith, length-append mid ((u8 (o * 4) + j) ∷ u8 (o / 64) ∷ rest));
    reads = λ j rest p. e j rest p ∙ finish_match-take src size q off len (u8 (o * 4) + j) rest r;
  }

  pub m3_step :
      (m : ℕ) (mid : List ℕ) (t : ℕ)
      → 32 ≤ m
      → m < 64
      → u64 (t + 2) ≡ len
      → off ≤ m3_max_offset
      → ((ip out : List ℕ)
          → 2 ≤ length ip
          → match_length 31 (m % 32) (mid ++ ip) out ≡ next (t, ip))
      → IsRead v src size q off len (m ∷ (mid ++ offset_code (off - 1)))
  m3_step m mid t h k l s e = wide-IsRead m mid (off - 1) (omega arith) λ j rest p.
      let eo : 1 + (u8 ((off - 1) * 4) + j) / 2 ^ 2 + u8 ((off - 1) / 64) * 2 ^ 6 ≡ off =
        omega (arith, r.ahead) in
      any_match-m3 v size m _ (take q src) h k
      ∙ (unfold m3_match in
          rw (e ((u8 ((off - 1) * 4) + j) ∷ u8 ((off - 1) / 64) ∷ rest) (take q src) (omega arith))
            (rw (eo, l)))

  pub m4_step :
      (m : ℕ) (mid : List ℕ) (t : ℕ)
      → 16 ≤ m
      → m < 32
      → m / 8 % 2 ≡ (off - 0x4000) / 0x4000
      → u64 (t + 2) ≡ len
      → 0x4000 < off
      → off < 0xc000
      → ((ip out : List ℕ) → 2 ≤ length ip → match_length 7 (m % 8) (mid ++ ip) out ≡ next (t, ip))
      → IsRead v src size q off len (m ∷ (mid ++ offset_code (off - 0x4000)))
  m4_step m mid t h k g l s s' e = wide-IsRead m mid (off - 0x4000) (omega arith) λ j rest p.
      let o = off - 0x4000 in
      let eo : bit_and m 8 * 2 ^ 11 + ((u8 (o * 4) + j) / 2 ^ 2 + u8 (o / 64) * 2 ^ 6) ≡ o =
        omega (arith, bit_and_eight m k) in
      let e' : o + 0x4000 ≡ off = omega arith in
      let some_offset : (o == 0) ≡ false = ground arith in
      any_match-m4 v size m _ (take q src) h k
      ∙ (unfold m4_match in
          rw (e ((u8 (o * 4) + j) ∷ u8 (o / 64) ∷ rest) (take q src) (omega arith))
            (rw (eo, some_offset, e', l)))

pub match_length_short :
    (base t : ℕ) (ip out : List ℕ) → 0 < t → match_length base t ip out ≡ next (t, ip)
unfolding match_length
match_length_short base zero ip out h = absurd (omega arith)
match_length_short base (suc t) ip out h = refl
