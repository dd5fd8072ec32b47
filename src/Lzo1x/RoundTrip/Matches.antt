-- ===== src/Lzo1x/RoundTrip/Matches.antt =====
-- The code of a match, whose two low bits then count the literals that follow, is read back as that
-- match: the output grows by the bytes that the source repeats.
pub mod M2
pub mod Wide
pub mod Code
use lzo.Base.{ℕ, zero, suc, ◌+◌, ◌-◌, ◌*◌, ◌/◌, ◌%◌, ◌^◌, ◌≤◌, ◌<◌, ◌≡◌, refl, ◌∙◌, arith, u64, u8}
use mathlib.Core.Path.{ap₂}
use lzo.Base.{ltb, leb, ◌==◌, Bool-cases, inl, inr, le→ltb, bit_or, bit_and, ◌||◌, ◌&&◌}
use lzo.Base.{List, [], ◌∷◌, ◌++◌, length, length-append, length-take, take, get_or}
use lzo.Base.{bit_or_add8, bit_or_add16, bit_or_add32, bit_and_eight, false}
use lzo.Lzo1x.Format.{
  Variant, lzo1x, lzo1y, m2_max_offset, m2_max_len, m3_max_offset, m3_max_len, m4_max_len,
}
use lzo.Lzo1x.Decoder.{safe}
use lzo.Lzo1x.Decoder.{next, match_length, finish_match, match_done, any_match}
use lzo.Lzo1x.Decoder.{m2_match, m3_match, m4_match, m2_off, m2_t}
use lzo.Lzo1x.Decoder.Copy.{copy_match_lem, extended-take}
use lzo.Lzo1x.Encoder.{store_long, m2_code, m3_code, m4_code, match_code, offset_code}
use lzo.Lzo1x.RoundTrip.Lengths.{match_length_long}

-- The source from `q` on repeats, for `len` bytes, what stands `off` bytes before, and fits `size`.
pub record Repeats (src : List ℕ) (size q off len : ℕ) : Type 0 where
  pub ahead : 0 < off
  pub inside : off ≤ q
  pub within : q + len ≤ length src
  pub room : length src ≤ size
  pub equal : (i : ℕ) → i < len → get_or src (q + i) 0 ≡ get_or src (q + i - off) 0

pub finish_match-take :
    (src : List ℕ) (size q off len b : ℕ) (ip : List ℕ)
    → Repeats src size q off len
    → finish_match size off len b ip (take q src) ≡ match_done size b ip (take (q + len) src)
unfolding finish_match
finish_match-take src size q off len b ip r =
    let n : length (take q src) ≡ q = omega (arith, length-take q src, r.within) in
    let in_output : (ltb q off || off == 0) ≡ false = ground (arith, r.inside, r.ahead) in
    let fits : ltb (size - q) (u64 len) ≡ false = le→ltb _ _ (omega (arith, r.within, r.room)) in
    rw (n, in_output, fits)
      (rw
        (
          copy_match_lem size off len (take q src) r.ahead (rw n r.inside)
              (omega (arith, n, r.within, r.room)),
          extended-take src off len q r.ahead r.inside r.within r.equal,
        )
        refl)

pub any_match-m2 :
    (v : Variant) (size t : ℕ) (ip out : List ℕ)
    → 64 ≤ t
    → any_match v size t ip out ≡ m2_match v size t ip out
unfolding any_match
any_match-m2 v size t ip out h = ground arith

pub any_match-m3 :
    (v : Variant) (size t : ℕ) (ip out : List ℕ)
    → 32 ≤ t
    → t < 64
    → any_match v size t ip out ≡ m3_match size t ip out
unfolding any_match
any_match-m3 v size t ip out h k = ground arith

pub any_match-m4 :
    (v : Variant) (size t : ℕ) (ip out : List ℕ)
    → 16 ≤ t
    → t < 32
    → any_match v size t ip out ≡ m4_match size t ip out
unfolding any_match
any_match-m4 v size t ip out h k = ground arith

-- How the decoder takes a code: after the first byte `m`, with the two low bits of the byte `low`
-- set to `k`, it makes the copy and stands where a match is done.
pub record IsRead (v : Variant) (src : List ℕ) (size q off len : ℕ) (code : List ℕ) : Type 0 where
  pub front : List ℕ
  pub low : ℕ
  pub last : ℕ
  pub shape : code ≡ front ++ (low ∷ last ∷ [])
  pub free : low % 4 ≡ 0
  pub byte : low < 256
  pub marker : ℕ → ℕ
  pub behind : ℕ → List ℕ → List ℕ
  pub first :
      (k : ℕ) (rest : List ℕ) → front ++ ((low + k) ∷ last ∷ rest) ≡ marker k ∷ behind k rest
  pub big : (k : ℕ) → 16 ≤ marker k
  pub some_left : (k : ℕ) (rest : List ℕ) → length rest < length (behind k rest)
  pub reads :
      (k : ℕ) (rest : List ℕ)
      → k < 4
      → any_match v size (marker k) (behind k rest) (take q src)
        ≡ match_done size (low + k) rest (take (q + len) src)
