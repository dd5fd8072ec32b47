-- ===== src/Lzo1x/Encoder.antt =====
-- src/lzo1x_c.ch as src/lzo1x_1.c compiles it: LZO_DETERMINISTIC, with 16-bit dictionary entries,
-- in the portable branches without unaligned copies.
--
-- Positions are offsets from the start of the whole source; `base` is `in` of `do_compress`, and
-- `ii` and `ip` are its pointers. The output written so far is a list, and `op[-2]` its last but one
-- element. The dictionary is a function, zero after the `memset` of each block.
pub mod Search
pub mod Bytes
pub mod Growth
use lzo.Base.{ℕ, zero, suc, ◌+◌, ◌-◌, ◌*◌, ◌/◌, ◌%◌, ◌^◌, bit_and, bit_or, u8, u16, u32, u64}
use lzo.Base.{Bool, true, false, ◌&&◌, ◌||◌, ltb, leb, ◌==◌, if◌then◌else◌}
use lzo.Base.{Option, none, some, List, [], ◌∷◌, ◌++◌, length, get_or, set, slice}
use lzo.Lzo1x.Format.{
  Variant, lzo1x, lzo1y, m2_max_offset, m2_max_len, m3_max_offset, m3_max_len, m4_max_len,
  m3_marker, m4_marker,
}

-- `none` means that the rounds given to a loop did not suffice.
infixl 5 ◌>>=◌
abbrev pub ◌>>=◌ {ℓ κ} : {A : Type ℓ} {B : Type κ} → Option A → (A → Option B) → Option B
none >>= f = none
some a >>= f = f a

-- `while (tt > 255) { tt -= 255; *op++ = 0; }  *op++ = LZO_BYTE(tt);` in at most `fuel` rounds.
unfoldable pub store_long : ℕ → ℕ → List ℕ
store_long zero left = []
store_long (suc fuel) left =
    let rest = store_long fuel (left - 255) in if ltb 255 left then 0 ∷ rest else u8 left ∷ []

-- `op[-2] = LZO_BYTE(op[-2] | t)`
unfoldable pub patch : List ℕ → ℕ → List ℕ
patch out t = set out (length out - 2) (u8 (bit_or (get_or out (length out - 2) 0) t))

-- The code of a run of `t` literals, for `t` above 3.
unfoldable pub store_run : ℕ → List ℕ
store_run t = if leb t 18 then u8 (t - 3) ∷ [] else 0 ∷ store_long (t - 18) (t - 18)

-- The pending literals in front of a match.
unfoldable pub store_literals : List ℕ → List ℕ → List ℕ
store_literals out lits =
    let t = length lits in
    if t == 0 then out else if leb t 3 then patch out t ++ lits else out ++ (store_run t ++ lits)

-- The code of an M2 match, for `off` the offset less 1.
abbrev pub m2_code : Variant → ℕ → ℕ → List ℕ
m2_code lzo1x len off = u8 (bit_or ((len - 1) * 2 ^ 5) (off % 8 * 2 ^ 2)) ∷ u8 (off / 2 ^ 3) ∷ []
m2_code lzo1y len off = u8 (bit_or ((len + 1) * 2 ^ 4) (off % 4 * 2 ^ 2)) ∷ u8 (off / 2 ^ 2) ∷ []

-- `*op++ = LZO_BYTE(off << 2); *op++ = LZO_BYTE(off >> 6);`
abbrev pub offset_code : ℕ → List ℕ
offset_code off = u8 (off * 2 ^ 2) ∷ u8 (off / 2 ^ 6) ∷ []

unfoldable pub m3_code : ℕ → ℕ → List ℕ
m3_code len off =
    if leb len m3_max_len
    then u8 (bit_or m3_marker (len - 2)) ∷ offset_code off
    else bit_or m3_marker 0 ∷ (store_long (len - m3_max_len) (len - m3_max_len) ++ offset_code off)

-- Here `off` is the offset less 0x4000.
unfoldable pub m4_code : ℕ → ℕ → List ℕ
m4_code len off =
    if leb len m4_max_len
    then u8 (bit_or (bit_or m4_marker (bit_and (off / 2 ^ 11) 8)) (len - 2)) ∷ offset_code off
    else u8 (bit_or m4_marker (bit_and (off / 2 ^ 11) 8))
      ∷ (store_long (len - m4_max_len) (len - m4_max_len) ++ offset_code off)

unfoldable pub match_code : Variant → ℕ → ℕ → List ℕ
match_code v len off =
    if leb len (m2_max_len v) && leb off (m2_max_offset v)
    then m2_code v len (off - 1)
    else if leb off m3_max_offset
    then m3_code len (off - 1)
    else m4_code len (off - 0x4000)

abbrev pub Dict : Type 0
Dict = ℕ → ℕ

-- UPDATE_I: the entry is cast to 16 bits.
abbrev pub update : Dict → ℕ → ℕ → Dict
update dict i e j = if j == i then u16 e else dict j

module _ (src : List ℕ) where
  abbrev pub byte_at : ℕ → ℕ
  byte_at p = get_or src p 0

  -- UA_GET_LE32
  abbrev pub le32 : ℕ → ℕ
  le32 p = byte_at p + byte_at (p + 1) * 2 ^ 8 + byte_at (p + 2) * 2 ^ 16 + byte_at (p + 3) * 2 ^ 24

  -- DINDEX: the product's top bits, for a dictionary of `2 ^ d_bits` entries.
  abbrev pub dindex : ℕ → ℕ → ℕ
  dindex d_bits dv = u32 (0x1824429d * dv) / 2 ^ (32 - d_bits) % 2 ^ d_bits

-- Where the search for a match ends: at `ip_end`, or at a position with an earlier equal one.
pub data Found : Type 0 where
  exhausted : Found
  matched : ℕ → ℕ → Dict → Found

-- The loop between `next` and `goto literal`.
unfoldable pub search : List ℕ → ℕ → ℕ → ℕ → ℕ → ℕ → ℕ → Dict → Option Found
search src d_bits base ip_end zero ip ii dict = none
search src d_bits base ip_end (suc fuel) ip ii dict =
    let dv = le32 src ip in
    let i = dindex src d_bits dv in
    let m_pos = base + dict i in
    let dict' = update dict i (ip - base) in
    let rest = search src d_bits base ip_end fuel (ip + 1 + (ip - ii) / 2 ^ 5) ii dict' in
    if leb ip_end ip
    then some exhausted
    else if dv == le32 src m_pos
    then some (matched ip m_pos dict')
    else rest

-- The match is extended byte by byte, and `ip_end` is tested after each eighth byte; `k` counts them.
unfoldable pub match_len : List ℕ → ℕ → ℕ → ℕ → ℕ → ℕ → ℕ → Option ℕ
match_len src ip_end ip m_pos zero k m_len = none
match_len src ip_end ip m_pos (suc fuel) k m_len =
    let eighth = match_len src ip_end ip m_pos fuel 0 (m_len + 1) in
    let other = match_len src ip_end ip m_pos fuel (k + 1) (m_len + 1) in
    if byte_at src (ip + m_len) == byte_at src (m_pos + m_len)
    then (if k == 7
        then (if leb ip_end (ip + (m_len + 1)) then some (m_len + 1) else eighth)
        else other)
    else some m_len

-- The rounds of `do_compress` from the label `next`; the result is the output and the number of
-- bytes at the end that are still to be written.
unfoldable pub rounds :
    Variant → List ℕ → ℕ → ℕ → ℕ → ℕ → ℕ → ℕ → ℕ → Dict → List ℕ → Option (List ℕ × ℕ)
rounds v src d_bits base in_end zero ip ii ti dict out = none
rounds v src d_bits base in_end (suc fuel) ip ii ti dict out = do
  let ip_end = in_end - 20
  r ← search src d_bits base ip_end (ip_end - ip + 1) ip ii dict
  elim r [
    | exhausted ↦ some (out, in_end - (ii - ti))
    | matched ip' m_pos dict' ↦ do
      let out' = store_literals out (slice src (ii - ti) ip')
      m_len ← match_len src ip_end ip' m_pos (ip_end + 20 - ip') 0 4
      rounds v src d_bits base in_end fuel (ip' + m_len) (ip' + m_len) 0 dict'
          (out' ++ match_code v m_len (ip' - m_pos))
  ]

-- `do_compress` on the block `[base, base + ll)`, with `ti` bytes pending before it. The loop is
-- entered at the label `literal`.
unfoldable pub do_compress : Variant → ℕ → List ℕ → ℕ → ℕ → ℕ → List ℕ → Option (List ℕ × ℕ)
do_compress v d_bits src base ll ti out =
    let ip = base + (if ltb ti 4 then 4 - ti else 0) in
    rounds v src d_bits base (base + ll) (ll + 1) (ip + 1 + (ip - base) / 2 ^ 5) base ti (λ _. 0)
      out

-- The test that the search cannot run over the end of the address space; `addr` is the address of
-- the source.
abbrev pub no_room : ℕ → ℕ → ℕ → ℕ → Bool
no_room addr ip ll t =
    let ll_end = u64 (addr + ip + ll) in leb (u64 (ll_end + (t + ll) / 2 ^ 5)) ll_end

-- `while (l > 20)` of the entry point, in blocks of at most 49152 bytes; `ip` is the position
-- reached. The result counts all that is still to be written.
unfoldable pub blocks : Variant → ℕ → ℕ → List ℕ → ℕ → ℕ → ℕ → List ℕ → Option (List ℕ × ℕ)
blocks v d_bits addr src zero ip t out = none
blocks v d_bits addr src (suc fuel) ip t out =
    let l = length src - ip in
    let ll = if ltb l 49152 then l else 49152 in
    let more = do
      (out', t') ← do_compress v d_bits src ip ll t out
      blocks v d_bits addr src fuel (ip + ll) t' out'
    in if leb l 20 || no_room addr ip ll t then some (out, t + l) else more

-- The literals at the end of the stream.
unfoldable pub store_last : List ℕ → List ℕ → List ℕ
store_last out lits =
    let t = length lits in
    if t == 0
    then out
    else if length out == 0 && leb t 238
    then u8 (17 + t) ∷ lits
    else if leb t 3
    then patch out t ++ lits
    else out ++ (store_run t ++ lits)

abbrev pub eof_code : List ℕ
eof_code = bit_or m4_marker 1 ∷ 0 ∷ 0 ∷ []

-- `lzo1x_1_compress` and its variants; the return code is always LZO_E_OK.
unfoldable pub compress : Variant → ℕ → ℕ → List ℕ → Option (List ℕ)
compress v d_bits addr src = do
  (out, t) ← blocks v d_bits addr src (length src + 1) 0 0 []
  some (store_last out (slice src (length src - t) (length src)) ++ eof_code)
