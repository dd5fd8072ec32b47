-- ===== src/Lzo1/Encoder.antt =====
-- src/lzo1.c: store_run and lzo1_compress, for CLEVEL 1, with a dictionary of pointers (NULL after
-- BZERO8_PTR). Positions are offsets from the start of the source.
use lzo.Base.{ℕ, zero, suc, ◌+◌, ◌-◌, ◌*◌, ◌/◌, ◌%◌, ◌^◌, bit_and, bit_or, bit_xor, u8, u32}
use lzo.Base.{Bool, ◌&&◌, ltb, leb, ◌==◌, if◌then◌else◌}
use lzo.Base.{Option, none, some, List, [], ◌∷◌, ◌++◌, length, take, drop, get_or, slice}
use lzo.Lzo1.Format.{
  obits, osize, msize, r0min, r0fast, min_match, min_match_long, max_match_long, threshold,
  max_offset,
}

infixl 5 ◌>>=◌
abbrev pub ◌>>=◌ {ℓ κ} : {A : Type ℓ} {B : Type κ} → Option A → (A → Option B) → Option B
none >>= f = none
some a >>= f = f a

-- `while (r_len >= n) { ... *op++ = 0; *op++ = code; copy n literals }`: what it writes, and the
-- literals that are left; `none` if `fuel` rounds do not suffice.
unfoldable pub store_runs : ℕ → ℕ → ℕ → List ℕ → Option (List ℕ × List ℕ)
store_runs zero code n lits = none
store_runs (suc fuel) code n lits =
    let rest =
      store_runs fuel code n (drop n lits) >>= λ r. some (0 ∷ code ∷ (take n lits ++ r.0), r.1) in
    if leb n (length lits) then rest else some ([], lits)

-- `do ... while (--r_bits > 0);` from `r_bits` on
unfoldable pub store_bits : ℕ → List ℕ → Option (List ℕ × List ℕ)
store_bits zero lits = some ([], lits)
store_bits (suc r) lits =
    store_runs (length lits + 1) (u8 (r0fast - r0min + suc r)) (256 * 2 ^ suc r) lits >>= λ long.
    store_bits r long.1 >>= λ rest. some (long.0 ++ rest.0, rest.1)

-- A run of less than R0FAST literals, the last one.
abbrev pub store_short : List ℕ → List ℕ
store_short lits =
    if leb r0min (length lits)
    then 0 ∷ u8 (length lits - r0min) ∷ lits
    else if ltb 0 (length lits)
    then u8 (length lits) ∷ lits
    else []

unfoldable pub store_run : List ℕ → Option (List ℕ)
store_run lits = (if leb 512 (length lits) then store_bits 7 lits else some ([], lits)) >>= λ long.
    store_runs (length lits + 1) (r0fast - r0min) r0fast long.1 >>= λ fast.
    some (long.0 ++ (fast.0 ++ store_short fast.1))

abbrev pub Dict : Type 0
Dict = ℕ → Option ℕ

abbrev pub update : Dict → ℕ → ℕ → Dict
update dict i e j = if j == i then some e else dict j

abbrev pub d_mask : ℕ
d_mask = 2 ^ 13 - 1

module _ (src : List ℕ) where
  abbrev pub byte_at : ℕ → ℕ
  byte_at p = get_or src p 0

  -- DVAL_FIRST and DINDEX
  abbrev pub first_index : ℕ → ℕ
  first_index p =
      bit_and
        (u32 (
            0x9f5f
            * bit_xor (bit_xor (byte_at p * 2 ^ 5) (byte_at (p + 1)) * 2 ^ 5) (byte_at (p + 2)))
          / 2 ^ 5)
        d_mask

  -- DINDEX1
  abbrev pub dindex1 : ℕ → ℕ
  dindex1 p =
      bit_and
        (u32 (
            0x21
            * bit_xor (bit_xor (byte_at (p + 2) * 2 ^ 5) (byte_at (p + 1)) * 2 ^ 5) (byte_at p))
          / 2 ^ 5)
        d_mask

  -- DINDEX2
  abbrev pub dindex2 : ℕ → ℕ
  dindex2 d = bit_xor d d_mask

  abbrev pub same_three : ℕ → ℕ → Bool
  same_three m p =
      byte_at m == byte_at p
      && (byte_at (m + 1) == byte_at (p + 1) && byte_at (m + 2) == byte_at (p + 2))

-- LZO_CHECK_MPOS and the comparison of three bytes: `goto literal`, `goto match`, or go on.
pub data Probe : Type 0 where
  literal : Probe
  match : ℕ → Probe
  differs : Probe

unfoldable pub probe : List ℕ → Dict → ℕ → ℕ → Probe
probe src dict ip dindex = elim (dict dindex) [
  | none ↦ literal
  | some m_pos ↦
      if ltb max_offset (ip - m_pos)
      then literal
      else if same_three src m_pos ip
      then match m_pos
      else differs
]

-- What is found at a position, and the index at which the position is entered: after the second look,
-- after the first, and from the start.
abbrev pub second_probe : ℕ → Probe → Option ℕ × ℕ
second_probe dindex literal = (none, dindex)
second_probe dindex (match m_pos) = (some m_pos, dindex)
second_probe dindex differs = (none, dindex)

abbrev pub first_probe : List ℕ → Dict → ℕ → ℕ → Probe → Option ℕ × ℕ
first_probe src dict ip dindex literal = (none, dindex)
first_probe src dict ip dindex (match m_pos) = (some m_pos, dindex)
first_probe src dict ip dindex differs =
    second_probe (dindex2 src dindex) (probe src dict ip (dindex2 src dindex))

unfoldable pub find : List ℕ → Dict → ℕ → Option ℕ × ℕ
find src dict ip = first_probe src dict ip (dindex1 src ip) (probe src dict ip (dindex1 src ip))

-- How many more bytes are equal, of at most `limit`.
unfoldable pub extend : List ℕ → ℕ → ℕ → ℕ → ℕ → ℕ
extend src ip m_pos zero len = len
extend src ip m_pos (suc limit) len =
    let longer = extend src ip m_pos limit (suc len) in
    if byte_at src (m_pos + len) == byte_at src (ip + len) then longer else len

-- The length of a match: six comparisons decide between a short and a long one, which ends at
-- `in_end` or at the greatest length.
unfoldable pub match_len : List ℕ → ℕ → ℕ → ℕ → ℕ
match_len src in_end ip m_pos =
    let short = extend src ip m_pos (min_match_long - min_match) min_match in
    let left = in_end - (ip + min_match_long) in
    let limit =
      if leb left (max_match_long - min_match_long)
      then left
      else max_match_long - min_match_long in
    if short == min_match_long then extend src ip m_pos limit min_match_long else short

abbrev pub match_code : ℕ → ℕ → List ℕ
match_code len off =
    if ltb len min_match_long
    then u8 (bit_or ((len - threshold) * 2 ^ obits) ((off - 1) % osize))
      ∷ u8 ((off - 1) / 2 ^ obits)
      ∷ []
    else u8 (bit_or ((msize - 1) * 2 ^ obits) ((off - 1) % osize))
      ∷ u8 ((off - 1) / 2 ^ obits)
      ∷ u8 (len - min_match_long)
      ∷ []

-- The pending literals in front of a match.
unfoldable pub store_literals : List ℕ → Option (List ℕ)
store_literals lits =
    if length lits == 0
    then some []
    else if ltb (length lits) r0min
    then some (u8 (length lits) ∷ lits)
    else store_run lits

-- The loop of `do_compress`, from a position `ip` with the literals pending from `ii` on: the output,
-- and where the final literals start. `none` means that `fuel` rounds do not suffice.
unfoldable pub rounds : List ℕ → ℕ → ℕ → ℕ → Dict → List ℕ → Option (List ℕ × ℕ)
rounds src zero ip ii dict out = none
rounds src (suc fuel) ip ii dict out =
    let in_end = length src - 3 in
    let ip_end = in_end - min_match_long in
    let found = find src dict ip in
    let dict' = update dict found.1 ip in
    elim found.0 [
      | none ↦
          let rest = rounds src fuel (ip + 1) ii dict' out in
          if leb ip_end (ip + 1) then some (out, ii) else rest
      | some m_pos ↦ store_literals (slice src ii ip) >>= λ lits.
          let len = match_len src in_end ip m_pos in
          let out' = out ++ (lits ++ match_code len (ip - m_pos)) in
          let rest = rounds src fuel (ip + len) (ip + len) dict' out' in
          if leb ip_end (ip + len) then some (out', ip + len) else rest
    ]

-- `do_compress`, for more than `MIN_MATCH_LONG + DVAL_LEN + 1` bytes
unfoldable pub do_compress : List ℕ → Option (List ℕ)
do_compress src = rounds src (length src) 1 0 (update (λ i. none) (first_index src 0) 0) [] >>= λ r.
    let lits = slice src r.1 (length src) in
    (if ltb 0 (length lits) then store_run lits else some []) >>= λ last. some (r.0 ++ last)

unfoldable pub compress : List ℕ → Option (List ℕ)
compress src =
    if length src == 0
    then some []
    else if leb (length src) (min_match_long + 3 + 1)
    then store_run src
    else do_compress src
