-- ===== src/Lzo1/Decoder.antt =====
-- src/lzo1.c: lzo1_decompress, in terms of the reads, writes and copies of the LZO1X model. It has no
-- overrun tests: a read past the input, a write past the buffer of `size` bytes and a copy from outside
-- the output are faults.
use lzo.Base.{ℕ, zero, suc, ◌+◌, ◌-◌, ◌*◌, ◌/◌, ◌%◌, ◌^◌, bit_or, u64}
use lzo.Base.{ltb, leb, ◌==◌, if◌then◌else◌, List, [], ◌∷◌, length}
use lzo.Lzo1.Format.{obits, osize, msize, r0min, r0fast, min_match_long, threshold}
use lzo.Lzo1x.Decoder.{
  Step, next, done, fault, ◌>>=◌, read, copy_literals, copy_match, Outcome, returned, faulted,
  stuck, e_ok,
}

-- `do tt <<= 1; while (--t > 0);` for `t` above 0
unfoldable pub doubled : ℕ → ℕ → ℕ
doubled tt zero = tt
doubled tt (suc t) = doubled (u64 (tt * 2)) t

-- The length behind a zero marker: `t` is its byte.
abbrev pub r0_length : ℕ → ℕ
r0_length t =
    if leb (r0fast - r0min) t
    then (if t == r0fast - r0min then r0fast else doubled 256 (t - (r0fast - r0min)))
    else t + r0min

abbrev pub literal_run : ℕ → ℕ → List ℕ → List ℕ → Step (List ℕ × List ℕ)
literal_run size zero ip out = do (t, ip') ← read ip; copy_literals size (r0_length t) ip' out
literal_run size (suc t) ip out = copy_literals size (suc t) ip out

-- The length of a match less 2, and the input behind it.
abbrev pub match_tail : ℕ → List ℕ → Step (ℕ × List ℕ)
match_tail t ip =
    if leb ((msize - 1) * 2 ^ obits) t
    then (do (b, ip') ← read ip; next (min_match_long - threshold + b, ip'))
    else next (t / 2 ^ obits, ip)

-- `m_pos` is `op - 1 - off`; two bytes are copied before the loop of the others.
abbrev pub match_copy : ℕ → ℕ → List ℕ → List ℕ → Step (List ℕ × List ℕ)
match_copy size t ip out = do
  (b, ip') ← read ip
  let off = bit_or (t % osize) (b * 2 ^ obits)
  (len, ip'') ← match_tail t ip'
  out' ← copy_match size (1 + off) 2 out
  out'' ← copy_match size (1 + off) len out'
  next (ip'', out'')

-- One round of `while (ip < ip_end)`.
unfoldable pub round : ℕ → List ℕ → List ℕ → Step (List ℕ × List ℕ)
round size ip out = do
  (t, ip') ← read ip
  if ltb t r0min then literal_run size t ip' out else match_copy size t ip' out

unfoldable pub run : ℕ → ℕ → List ℕ → List ℕ → Outcome
run size zero ip out = stuck
run size (suc fuel) [] out = returned e_ok out
run size (suc fuel) (b ∷ ip) out = elim (round size (b ∷ ip) out) [
  | next (ip', out') ↦ run size fuel ip' out'
  | done status out' ↦ returned status out'
  | fault ↦ faulted
]

unfoldable pub decompress : ℕ → List ℕ → Outcome
decompress size input = run size (length input + 1) input []
