-- ===== src/Lzo1a/Decoder.antt =====
-- src/lzo1a.c: lzo1a_decompress, on the constants of Lzo1/Format.antt, which src/lzo1a_de.h defines to the
-- same values. Its two loops are two modes of one loop. It has no overrun tests, as in Lzo1/Decoder.antt.
use lzo.Base.{ℕ, zero, suc, ◌+◌, ◌-◌, ◌*◌, ◌^◌, bit_or}
use lzo.Base.{ltb, leb, ◌==◌, if◌then◌else◌, List, [], ◌∷◌, length}
use lzo.Lzo1.Format.{obits, r0min, r0fast}
use lzo.Lzo1.Decoder.{r0_length, match_copy}
use lzo.Lzo1x.Decoder.{
  Step, next, done, fault, ◌>>=◌, read, copy_literals, copy_match, Outcome, returned, faulted,
  stuck, e_ok,
}

-- The outer loop, and the inner one, where after a literal a match must follow.
pub data Mode : Type 0 where
  any_code : Mode
  after_literals : Mode

abbrev pub LoopState : Type 0
LoopState = Mode × (List ℕ × List ℕ)

-- `match:`, with the text of lzo1_decompress; the inner loop is left.
abbrev pub matched : ℕ → ℕ → List ℕ → List ℕ → Step LoopState
matched size t ip out = do p ← match_copy size t ip out; next (any_code, p)

-- `MEMCPY_DS(op,ip,t)`, and the loop that goes on.
abbrev pub copied_then : Mode → ℕ → ℕ → List ℕ → List ℕ → Step LoopState
copied_then mode size t ip out = do p ← copy_literals size t ip out; next (mode, p)

-- A R0 literal run, long or not.
abbrev pub r0_literals : ℕ → List ℕ → List ℕ → Step LoopState
r0_literals size ip out = do
  (t, ip') ← read ip
  if leb (r0fast - r0min) t
      then copied_then any_code size (r0_length t) ip' out
      else copied_then after_literals size (r0_length t) ip' out

-- One round of the outer `while (ip < ip_end)`, up to the label `literal`.
unfoldable pub marker_round : ℕ → List ℕ → List ℕ → Step LoopState
marker_round size ip out = do
  (t, ip') ← read ip
  if t == 0
      then r0_literals size ip' out
      else if ltb t r0min
      then copied_then after_literals size t ip' out
      else matched size t ip' out

-- R1 match - a context sensitive 3 byte match + 1 byte literal
abbrev pub r1_match : ℕ → ℕ → List ℕ → List ℕ → Step LoopState
r1_match size t ip out = do
  (b, ip') ← read ip
  out' ← copy_match size (1 + bit_or t (b * 2 ^ obits)) 3 out
  p ← copy_literals size 1 ip' out'
  next (after_literals, p)

-- One round of the inner `while (ip < ip_end)`.
unfoldable pub literal_round : ℕ → List ℕ → List ℕ → Step LoopState
literal_round size ip out = do
  (t, ip') ← read ip
  if leb r0min t then matched size t ip' out else r1_match size t ip' out

unfoldable pub mode_round : ℕ → Mode → List ℕ → List ℕ → Step LoopState
mode_round size any_code ip out = marker_round size ip out
mode_round size after_literals ip out = literal_round size ip out

unfoldable pub run : ℕ → ℕ → Mode → List ℕ → List ℕ → Outcome
run size zero mode ip out = stuck
run size (suc fuel) mode [] out = returned e_ok out
run size (suc fuel) mode (b ∷ ip) out = elim (mode_round size mode (b ∷ ip) out) [
  | next (mode', (ip', out')) ↦ run size fuel mode' ip' out'
  | done status out' ↦ returned status out'
  | fault ↦ faulted
]

unfoldable pub decompress : ℕ → List ℕ → Outcome
decompress size input = run size (length input + 1) any_code input []
