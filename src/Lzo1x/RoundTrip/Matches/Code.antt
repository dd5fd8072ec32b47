-- ===== src/Lzo1x/RoundTrip/Matches/Code.antt =====
-- The code that the compressor writes for a match is read back as that match.
use lzo.Base.{ℕ, ◌+◌, ◌-◌, ◌*◌, ◌/◌, ◌%◌, ◌^◌, ◌≤◌, ◌<◌, ◌≡◌, refl, arith, u8}
use lzo.Base.{leb, Bool-cases, inl, inr, bit_or, bit_and, ◌&&◌}
use lzo.Base.{List, []}
use lzo.Base.{bit_or_add8, bit_or_add16, bit_or_add32, bit_and_eight}
use lzo.Lzo1x.Format.{Variant, m2_max_offset, m2_max_len, m3_max_offset, m3_max_len, m4_max_len}
use lzo.Lzo1x.Decoder.{safe}
use lzo.Lzo1x.Encoder.{store_long, m3_code, m4_code, match_code}
use lzo.Lzo1x.RoundTrip.Lengths.{match_length_long}
use lzo.Lzo1x.RoundTrip.Matches.{Repeats, IsRead}
use lzo.Lzo1x.RoundTrip.Matches.M2.{m2_code-IsRead}
use lzo.Lzo1x.RoundTrip.Matches.Wide.{m3_step, m4_step, match_length_short}

module _ (v : Variant) (src : List ℕ) (size q off len : ℕ) (r : Repeats src size q off len)
    (bounded : len < 2 ^ 62) (long_enough : 4 ≤ len) where
  m3_code-IsRead : off ≤ m3_max_offset → IsRead v src size q off len (m3_code len (off - 1))
  unfolding m3_code
  m3_code-IsRead h = elim (Bool-cases (leb len m3_max_len)) [
    | inl short ↦
        let s : len ≤ 33 = ground arith in
        let e : u8 (bit_or 32 (len - 2)) ≡ 32 + (len - 2) =
          omega (arith, bit_or_add32 32 (len - 2) refl (omega arith) (omega arith)) in
        let e' : (32 + (len - 2)) % 32 ≡ len - 2 = omega arith in
        rw (short, e)
          (m3_step v src size q off len r (32 + (len - 2)) [] (len - 2) (omega arith) (omega arith)
            (omega arith) h
            λ ip out l. rw e' (match_length_short 31 (len - 2) ip out (omega arith)))
    | inr long ↦
        let s : 33 < len = ground arith in
        let mid = store_long (len - 33) (len - 33) in
        rw long (
          m3_step v src size q off len r 32 mid (31 + (len - 33)) (omega arith) (omega arith)
            (omega arith) h
            λ ip out l.
              match_length_long 31 (len - 33) ip out (omega arith) (omega arith) (omega arith) l)
  ]

  m4_code-IsRead :
      0x4000 < off → off < 0xc000 → IsRead v src size q off len (m4_code len (off - 0x4000))
  unfolding m4_code
  m4_code-IsRead h k =
      let hi = (off - 0x4000) / 0x4000 in
      let e : bit_or 16 (bit_and ((off - 0x4000) / 2 ^ 11) 8) ≡ 16 + hi * 8 = ground (
        arith,
        bit_and_eight ((off - 0x4000) / 2 ^ 11),
        bit_or_add16 16 (bit_and ((off - 0x4000) / 2 ^ 11) 8),
      ) in
      elim (Bool-cases (leb len m4_max_len)) [
        | inl short ↦
            let s : len ≤ 9 = ground arith in
            let e' : u8 (bit_or (16 + hi * 8) (len - 2)) ≡ 16 + hi * 8 + (len - 2) = omega (
              arith,
              bit_or_add8 (16 + hi * 8) (len - 2) (omega arith) (omega arith) (omega arith),
            ) in
            rw (short, e, e')
              (m4_step v src size q off len r (16 + hi * 8 + (len - 2)) [] (len - 2) (omega arith)
                (omega arith) (omega arith) (omega arith) h k
                λ ip out l.
                  let t : (16 + hi * 8 + (len - 2)) % 8 ≡ len - 2 = omega arith in
                  rw t (match_length_short 7 (len - 2) ip out (omega arith)))
        | inr long ↦
            let s : 9 < len = ground arith in
            let e' : u8 (16 + hi * 8) ≡ 16 + hi * 8 = omega arith in
            let t : (16 + hi * 8) % 8 ≡ 0 = omega arith in
            let mid = store_long (len - 9) (len - 9) in
            rw (long, e, e')
              (m4_step v src size q off len r (16 + hi * 8) mid (7 + (len - 9)) (omega arith)
                (omega arith) (omega arith) (omega arith) h k
                λ ip out l. rw t (
                  match_length_long 7 (len - 9) ip out (omega arith) (omega arith) (omega arith) l))
      ]

  -- The code that the compressor chooses for a match is read back as that match.
  pub match_code-IsRead : off < 0xc000 → IsRead v src size q off len (match_code v len off)
  unfolding match_code
  match_code-IsRead h = elim (Bool-cases (leb len (m2_max_len v) && leb off (m2_max_offset v))) [
    | inl near ↦
        rw near (m2_code-IsRead v src size q off len r long_enough (ground arith) (ground arith))
    | inr far ↦ rw far (elim (Bool-cases (leb off m3_max_offset)) [
      | inl mid ↦ rw mid (m3_code-IsRead (ground arith))
      | inr top ↦ rw top (m4_code-IsRead (ground arith) h)
    ])
  ]
