-- ===== src/Lzo1f.antt =====
-- src/lzo1f_d.ch, as src/lzo1f_d2.c compiles it: lzo1f_decompress_safe, with the overrun tests of
-- src/lzo1_d.ch, in the portable branch without unaligned copies. `lzo_uint` has 64 bits.
--
-- Unlike in Lzo1x/Decoder.antt, `ip` is the whole memory from `ip` on: its last `past` bytes lie behind
-- `ip_end`, so that the differences that the tests take may be negative and wrap. A read past that memory
-- is a fault, and so are a write past `size` and a copy from outside the output.
pub mod Safety
pub mod PastEnd
mod Tests
use lzo.Base.{ℕ, zero, suc, ◌+◌, ◌-◌, ◌*◌, ◌/◌, ◌%◌, ◌^◌, u64}
use lzo.Base.{ltb, ◌==◌, if◌then◌else◌, List, [], ◌∷◌, ◌++◌, length}
use lzo.Lzo1x.Decoder.{
  Status, e_ok, e_input_overrun, e_output_overrun, e_input_not_consumed, Step, next, done, fault,
  ◌>>=◌, ◌>>◌, stop_if, read, need_op, test_lb, copy_literals, copy_match, safe,
}

-- The places of the two loops that a round starts from; `no_eof` is behind the outer loop.
pub data RoundLabel : Type 0 where
  outer_loop no_eof : RoundLabel
  inner_loop match : ℕ → RoundLabel

abbrev pub RoundState : Type 0
RoundState = RoundLabel × List ℕ × List ℕ

-- `(lzo_uint)(ip_end - ip)`
abbrev pub input_left : ℕ → List ℕ → ℕ
input_left past ip = u64 (2 ^ 64 + length ip - past)

-- NEED_IP
abbrev pub need_input : ℕ → List ℕ → ℕ → List ℕ → Step (Unit {0})
need_input past ip x out = stop_if (ltb (input_left past ip) (u64 x)) e_input_overrun out

-- `while (*ip == 0) { t += 255; ip++; TEST(t); NEED_IP(1); }  t += 31 + *ip++;`
unfoldable pub zero_bytes : ℕ → Status → ℕ → List ℕ → List ℕ → Step (ℕ × List ℕ)
zero_bytes past status t [] out = fault
zero_bytes past status t (zero ∷ ip) out = do
  stop_if (ltb (2 ^ 64 - 511) (u64 (t + 255))) status out
  need_input past ip 1 out
  zero_bytes past status (u64 (t + 255)) ip out
zero_bytes past status t (suc b ∷ ip) out = next (u64 (t + (31 + suc b)), ip)

-- A length in the marker, or behind it where the marker has zero.
unfoldable pub length_of : ℕ → Status → ℕ → List ℕ → List ℕ → Step (ℕ × List ℕ)
length_of past status zero ip out = do need_input past ip 1 out; zero_bytes past status 0 ip out
length_of past status (suc t) ip out = next (suc t, ip)

-- `copy literals`, and the marker behind them.
unfoldable pub literals_marker : ℕ → ℕ → ℕ → List ℕ → List ℕ → Step RoundState
literals_marker size past t ip out = do
  need_op size out t
  need_input past ip (t + 1) out
  (ip', out') ← copy_literals size t ip out
  (m, ip'') ← read ip'
  next (inner_loop m, ip'', out')

-- `t = ip[-2] & 3`, with `b` for `ip[-2]`.
unfoldable pub behind_match : ℕ → ℕ → ℕ → List ℕ → List ℕ → Step RoundState
behind_match size past b ip out =
    if b % 4 == 0 then next (outer_loop, ip, out) else literals_marker size past (b % 4) ip out

-- TEST_LB, NEED_OP, the copy of a match, and what follows it; `off` is `op - m_pos`.
unfoldable pub close_match : ℕ → ℕ → ℕ → ℕ → ℕ → List ℕ → List ℕ → Step RoundState
close_match size past off len b ip out = do
  test_lb out off
  need_op size out len
  out' ← copy_match size off len out
  behind_match size past b ip out'

-- A match of three bytes behind literals.
unfoldable pub far_match : ℕ → ℕ → ℕ → List ℕ → List ℕ → Step RoundState
far_match size past t ip out = do
  (b, ip') ← read ip
  close_match size past (1 + 0x800 + t / 2 ^ 2 % 8 + b * 2 ^ 3) 3 t ip' out

-- `t < M3_MARKER`: the offset byte is read with no test.
unfoldable pub short_match : ℕ → ℕ → ℕ → List ℕ → List ℕ → Step RoundState
short_match size past t ip out = do
  (b, ip') ← read ip
  close_match size past (1 + t / 2 ^ 2 % 8 + b * 2 ^ 3) (t / 2 ^ 5 + 2) t ip' out

-- `eof_found`
unfoldable pub eof_reached : ℕ → List ℕ → List ℕ → Step RoundState
eof_reached past ip out =
    if length ip == past
    then done e_ok out
    else if ltb past (length ip)
    then done e_input_not_consumed out
    else done e_input_overrun out

unfoldable pub long_match : ℕ → ℕ → ℕ → List ℕ → List ℕ → Step RoundState
long_match size past m ip out = do
  (t, ip₁) ← length_of past e_output_overrun (m % 32) ip out
  need_input past ip₁ 2 out
  (b₀, ip₂) ← read ip₁
  (b₁, ip₃) ← read ip₂
  let off = b₀ / 2 ^ 2 + b₁ * 2 ^ 6
  if off == 0 then eof_reached past ip₃ out else close_match size past off (u64 (t + 2)) b₀ ip₃ out

unfoldable pub run_of_literals : ℕ → ℕ → ℕ → List ℕ → List ℕ → Step RoundState
run_of_literals size past m ip out = do
  (t, ip') ← length_of past e_input_overrun m ip out
  literals_marker size past t ip' out

-- One round, from the label on; the two loops end at `ip_end`.
unfoldable pub loop_round : ℕ → ℕ → RoundState → Step RoundState
loop_round size past (outer_loop, ip, out) =
    if ltb past (length ip)
    then (do
      (t, ip') ← read ip
      if ltb 31 t then next (match t, ip', out) else run_of_literals size past t ip' out)
    else next (no_eof, ip, out)
loop_round size past (no_eof, ip, out) = fault
loop_round size past (inner_loop t, ip, out) =
    if ltb past (length ip)
    then (if ltb t 32 then far_match size past t ip out else next (match t, ip, out))
    else next (outer_loop, ip, out)
loop_round size past (match t, ip, out) =
    if ltb t 224 then short_match size past t ip out else long_match size past t ip out

-- The end of a run: a return code with the output, LZO_E_EOF_NOT_FOUND with the output, an undefined
-- access, or rounds that do not suffice.
pub data End : Type 0 where
  ended : Status → List ℕ → End
  eof_not_found : List ℕ → End
  faulted stuck : End

abbrev pub proceed : (RoundState → End) → Step RoundState → End
proceed go (next s) = go s
proceed go (done status out) = ended status out
proceed go fault = faulted

unfoldable pub run : ℕ → ℕ → ℕ → RoundState → End
run size past zero s = stuck
run size past (suc fuel) (no_eof, ip, out) = eof_not_found out
run size past (suc fuel) (outer_loop, ip, out) =
    proceed (run size past fuel) (loop_round size past (outer_loop, ip, out))
run size past (suc fuel) (inner_loop t, ip, out) =
    proceed (run size past fuel) (loop_round size past (inner_loop t, ip, out))
run size past (suc fuel) (match t, ip, out) =
    proceed (run size past fuel) (loop_round size past (match t, ip, out))

-- `input` lies in front of the bytes `behind`, which do not belong to it.
unfoldable pub decompress : ℕ → List ℕ → List ℕ → End
decompress size input behind =
    run size (length behind) (2 * length (input ++ behind) + 2) (outer_loop, input ++ behind, [])
