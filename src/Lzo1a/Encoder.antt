-- ===== src/Lzo1a/Encoder.antt =====
-- src/lzo1a.c with src/lzo1a_cr.ch: lzo1a_compress, for CLEVEL 1 and LBITS 8. Of Lzo1/Encoder.antt it takes
-- what src/lzo1a.c writes as src/lzo1.c does: the dictionary with its hash functions, the comparison of
-- three bytes, the length and the code of a match, and in store_run the `while` loop over runs of one
-- length and the last run.
use lzo.Base.{ℕ, zero, suc, ◌+◌, ◌-◌, ◌/◌, bit_and, u8}
use lzo.Base.{ltb, leb, ◌==◌, ◌||◌, if◌then◌else◌}
use lzo.Base.{Option, none, some, List, [], ◌∷◌, ◌++◌, length, take, drop, get_or, slice}
use lzo.Lzo1.Format.{osize, r0min, r0max, r0fast, min_match, min_match_long, max_offset}
use lzo.Lzo1.Encoder.{
  ◌>>=◌, store_runs, store_short, Dict, update, byte_at, same_three, dindex1, dindex2, Probe,
  literal, match, differs, second_probe, match_len, match_code, first_index,
}

-- `if (r_len >= (t = tt))`: one run, and the literals that are left.
abbrev pub store_once : ℕ → ℕ → List ℕ → List ℕ × List ℕ
store_once code tt lits =
    if leb tt (length lits) then (0 ∷ code ∷ take tt lits, drop tt lits) else ([], lits)

-- `do { ...; tt >>= 1; } while (--r_bits > 0);`
unfoldable pub store_halves : ℕ → ℕ → List ℕ → List ℕ × List ℕ
store_halves zero tt lits = ([], lits)
store_halves (suc r_bits) tt lits =
    let once = store_once (u8 (r0fast - r0min + suc r_bits)) tt lits in
    let rest = store_halves r_bits (tt / 2) once.1 in (once.0 ++ rest.0, rest.1)

-- The runs of 32768 literals, and behind them at most one of each smaller length.
abbrev pub store_long_runs : List ℕ → Option (List ℕ × List ℕ)
store_long_runs lits = store_runs (length lits + 1) (r0max - r0min) 32768 lits >>= λ long.
    let halves = store_halves 6 (32768 / 2) long.1 in some (long.0 ++ halves.0, halves.1)

unfoldable pub store_run : List ℕ → Option (List ℕ)
store_run lits =
    (if leb 512 (length lits) then store_long_runs lits else some ([], lits)) >>= λ long.
    store_runs (length lits + 1) (r0fast - r0min) r0fast long.1 >>= λ fast.
    some (long.0 ++ (fast.0 ++ store_short fast.1))

-- LZO_CHECK_MPOS_NON_DET and the comparison of three bytes. NULL lies before `in`.
unfoldable pub try_match : List ℕ → Dict → ℕ → ℕ → Probe
try_match src dict ip dindex = elim (dict dindex) [
  | none ↦ literal
  | some m_pos ↦
      let m_off = ip - m_pos in
      if m_off == 0 || ltb max_offset m_off
      then literal
      else if same_three src m_pos ip
      then match m_pos
      else differs
]

-- What is found at a position, and the index at which the position is entered.
abbrev pub first_look : List ℕ → Dict → ℕ → ℕ → Probe → Option ℕ × ℕ
first_look src dict ip dindex literal = (none, dindex)
first_look src dict ip dindex (match m_pos) = (some m_pos, dindex)
first_look src dict ip dindex differs =
    second_probe (dindex2 src dindex) (try_match src dict ip (dindex2 src dindex))

unfoldable pub find_match : List ℕ → Dict → ℕ → Option ℕ × ℕ
find_match src dict ip =
    first_look src dict ip (dindex1 src ip) (try_match src dict ip (dindex1 src ip))

-- `op[-2] &= OMASK`
abbrev pub mask_marker : List ℕ → List ℕ
mask_marker out =
    let at2 = length out - 2 in
    take at2 out ++ (bit_and (get_or out at2 0) (osize - 1) ∷ drop (at2 + 1) out)

-- 1) store the current literal run: the output, and the new R1 pointer.
unfoldable pub store_pending : List ℕ → ℕ → ℕ → ℕ → List ℕ → Option (List ℕ × ℕ)
store_pending src ip ii r1 out =
    let t = ip - ii in
    let lits = slice src ii ip in
    if t == 0
    then some (out, r1)
    else if ip == r1 + (min_match + 1)
    then some (mask_marker out ++ (byte_at src ii ∷ []), ip)
    else if ltb t r0min
    then some (out ++ (u8 t ∷ lits), ip)
    else if ltb t r0fast
    then some (out ++ (0 ∷ u8 (t - r0min) ∷ lits), ip)
    else store_run lits >>= λ code. some (out ++ code, r1)

-- 2) compute match len: the code of the match, and its length.
abbrev pub coded_match : List ℕ → ℕ → ℕ → ℕ → List ℕ × ℕ
coded_match src in_end ip m_pos =
    let len = match_len src in_end ip m_pos in (match_code len (ip - m_pos), len)

-- The loop of `do_compress`, from a position `ip` with the literals pending from `ii` on: the output,
-- and where the final literals start. `none` means that `fuel` rounds do not suffice.
unfoldable pub rounds : List ℕ → ℕ → ℕ → ℕ → ℕ → Dict → List ℕ → Option (List ℕ × ℕ)
rounds src zero ip ii r1 dict out = none
rounds src (suc fuel) ip ii r1 dict out =
    let in_end = length src - 3 in
    let ip_end = in_end - min_match_long in
    let found = find_match src dict ip in
    let dict' = update dict found.1 ip in
    elim found.0 [
      | none ↦
          let rest = rounds src fuel (ip + 1) ii r1 dict' out in
          if leb ip_end (ip + 1) then some (out, ii) else rest
      | some m_pos ↦ store_pending src ip ii r1 out >>= λ stored.
          let (code, len) = coded_match src in_end ip m_pos in
          let out' = stored.0 ++ code in
          let rest = rounds src fuel (ip + len) (ip + len) stored.1 dict' out' in
          if leb ip_end (ip + len) then some (out', ip + len) else rest
    ]

-- `do_compress`, for more than `MIN_MATCH_LONG + DVAL_LEN + 1` bytes; `r1` starts at `ip_end`.
unfoldable pub do_compress : List ℕ → Option (List ℕ)
do_compress src =
    rounds src (length src) 1 0 (length src - 3 - min_match_long)
      (update (λ i. none) (first_index src 0) 0) []
    >>= λ r.
        let lits = slice src r.1 (length src) in
        (if ltb 0 (length lits) then store_run lits else some []) >>= λ last. some (r.0 ++ last)

unfoldable pub compress : List ℕ → Option (List ℕ)
compress src =
    if length src == 0
    then some []
    else if leb (length src) (min_match_long + 3 + 1)
    then store_run src
    else do_compress src
