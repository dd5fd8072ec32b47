-- ===== src/Lzo1x/InPlace.antt =====
-- src/lzo1x_d.ch, compiled with its overrun tests, where the input stands at the end of the buffer whose
-- front the output is written to, as examples/lzopack.c and examples/overlap.c call it. `size` is the
-- value of `*out_len` on entry.
--
-- The buffer has `room` bytes. `ip` is the input to come as it was before the call, and ends where the
-- buffer ends; `out` fills the front. A read gives what the buffer holds at that moment: a byte that the
-- output has reached is the output's. A write at `room` or behind it is a fault, whatever `size` is; `size`
-- is only what the overrun tests look at. Copies of a match read only output, as in Decoder.
pub mod Alike
pub mod Rounds
pub mod Steps
pub mod Whole
pub mod Safety
use lzo.Base.{ℕ, zero, suc, ◌+◌, ◌-◌, ◌*◌, ◌/◌, ◌%◌, ◌^◌, bit_and, u64}
use lzo.Base.{ltb, leb, ◌==◌, if◌then◌else◌}
use lzo.Base.{none, some, List, [], ◌∷◌, length, get_elem?}
use lzo.Lzo1x.Format.{Variant, m2_max_offset}
use lzo.Lzo1x.Decoder.{safe}
use lzo.Lzo1x.Decoder.{
  ◌>>=◌, ◌>>◌, Status, Step, next, done, fault, State, Outcome, returned, faulted, stuck,
}
use lzo.Lzo1x.Decoder.{
  e_input_overrun, e_output_overrun, literal_run, first_literal_run, handle_match,
}
use lzo.Lzo1x.Decoder.{stop_if, write, need_ip, need_op, test_lb, copy_match, eof_found}
use lzo.Lzo1x.Decoder.{m2_off, m2_t}

-- What the buffer holds `left` bytes before its end, where the input had `b`.
unfoldable pub cell : ℕ → List ℕ → ℕ → ℕ → ℕ
cell room out left b = elim (get_elem? out (room - left)) [ none ↦ b | some c ↦ c ]

-- `*ip++`
abbrev pub fetch : ℕ → List ℕ → List ℕ → Step (ℕ × List ℕ)
fetch room [] out = fault
fetch room (b ∷ ip) out = next (cell room out (suc (length ip)) b, ip)

unfoldable pub copy_run : ℕ → ℕ → List ℕ → List ℕ → Step (List ℕ × List ℕ)
copy_run room zero ip out = next (ip, out)
copy_run room (suc t) ip out = do
  (b, ip') ← fetch room ip out
  out' ← write room out b
  copy_run room t ip' out'

unfoldable pub long_count : ℕ → Status → ℕ → ℕ → List ℕ → List ℕ → Step (ℕ × List ℕ)
long_count room status base t [] out = fault
long_count room status base t (b ∷ ip) out = elim (cell room out (suc (length ip)) b) [
  | zero ↦ do
    stop_if (ltb (2 ^ 64 - 511) (u64 (t + 255))) status out
    need_ip ip 1 out
    long_count room status base (u64 (t + 255)) ip out
  | suc c ↦ next (u64 (t + (base + suc c)), ip)
]

unfoldable pub match_count : ℕ → ℕ → ℕ → List ℕ → List ℕ → Step (ℕ × List ℕ)
match_count room base zero ip out = do
  (t, ip') ← long_count room e_output_overrun base 0 ip out
  need_ip ip' 2 out
  next (t, ip')
match_count room base (suc t) ip out = next (suc t, ip)

unfoldable pub next_match : ℕ → ℕ → ℕ → List ℕ → List ℕ → Step State
next_match room size t ip out = do
  need_op size out t
  need_ip ip (t + 3) out
  (ip', out') ← copy_run room t ip out
  (m, ip'') ← fetch room ip' out'
  next (handle_match m, ip'', out')

unfoldable pub after_match : ℕ → ℕ → ℕ → List ℕ → List ℕ → Step State
after_match room size b ip out =
    if b % 4 == 0 then next (literal_run, ip, out) else next_match room size (b % 4) ip out

-- `b` is what `ip[-2]` was when it was read. When the match is copied, it is read again.
unfoldable pub make_match : ℕ → ℕ → ℕ → ℕ → ℕ → List ℕ → List ℕ → Step State
make_match room size off len b ip out = do
  test_lb out off
  need_op size out len
  out' ← copy_match room off len out
  after_match room size (cell room out' (length ip + 2) b) ip out'

unfoldable pub m1_copy : ℕ → ℕ → ℕ → List ℕ → List ℕ → Step State
m1_copy room size t ip out = do
  (b, ip') ← fetch room ip out
  make_match room size (1 + t / 2 ^ 2 + b * 2 ^ 2) 2 t ip' out

unfoldable pub m2_copy : ℕ → Variant → ℕ → ℕ → List ℕ → List ℕ → Step State
m2_copy room v size t ip out = do
  (b, ip') ← fetch room ip out
  make_match room size (m2_off v t b) (u64 (m2_t v t + 2)) t ip' out

unfoldable pub m3_copy : ℕ → ℕ → ℕ → List ℕ → List ℕ → Step State
m3_copy room size m ip out = do
  (t, ip₁) ← match_count room 31 (m % 32) ip out
  (b₀, ip₂) ← fetch room ip₁ out
  (b₁, ip₃) ← fetch room ip₂ out
  make_match room size (1 + b₀ / 2 ^ 2 + b₁ * 2 ^ 6) (u64 (t + 2)) b₀ ip₃ out

unfoldable pub m4_copy : ℕ → ℕ → ℕ → List ℕ → List ℕ → Step State
m4_copy room size m ip out = do
  (t, ip₁) ← match_count room 7 (m % 8) ip out
  (b₀, ip₂) ← fetch room ip₁ out
  (b₁, ip₃) ← fetch room ip₂ out
  let off = bit_and m 8 * 2 ^ 11 + (b₀ / 2 ^ 2 + b₁ * 2 ^ 6)
  if off == 0
      then eof_found ip₃ out
      else make_match room size (off + 0x4000) (u64 (t + 2)) b₀ ip₃ out

unfoldable pub any_copy : ℕ → Variant → ℕ → ℕ → List ℕ → List ℕ → Step State
any_copy room v size t ip out =
    if leb 64 t
    then m2_copy room v size t ip out
    else if leb 32 t
    then m3_copy room size t ip out
    else if leb 16 t
    then m4_copy room size t ip out
    else m1_copy room size t ip out

unfoldable pub run_count : ℕ → ℕ → List ℕ → List ℕ → Step (ℕ × List ℕ)
run_count room zero ip out = long_count room e_input_overrun 15 0 ip out
run_count room (suc t) ip out = next (suc t, ip)

unfoldable pub literal_copy : ℕ → ℕ → ℕ → List ℕ → List ℕ → Step State
literal_copy room size m ip out = do
  (t, ip₁) ← run_count room m ip out
  need_op size out (t + 3)
  need_ip ip₁ (t + 6) out
  (ip₂, out') ← copy_run room (t + 3) ip₁ out
  next (first_literal_run, ip₂, out')

unfoldable pub step_in_place : ℕ → Variant → ℕ → State → Step State
step_in_place room v size (literal_run, ip, out) = do
  need_ip ip 3 out
  (t, ip') ← fetch room ip out
  if leb 16 t then next (handle_match t, ip', out) else literal_copy room size t ip' out
step_in_place room v size (first_literal_run, ip, out) = do
  (t, ip') ← fetch room ip out
  if leb 16 t then next (handle_match t, ip', out) else do
    (b, ip'') ← fetch room ip' out
    make_match room size (1 + m2_max_offset v + t / 2 ^ 2 + b * 2 ^ 2) 3 t ip'' out
step_in_place room v size (handle_match t, ip, out) = any_copy room v size t ip out

unfoldable pub run_in_place : ℕ → Variant → ℕ → ℕ → State → Outcome
run_in_place room v size zero s = stuck
run_in_place room v size (suc fuel) s = elim (step_in_place room v size s) [
  | next s' ↦ run_in_place room v size fuel s'
  | done status out ↦ returned status out
  | fault ↦ faulted
]

unfoldable pub start_in_place : ℕ → ℕ → List ℕ → Step State
start_in_place room size ip = do
  need_ip ip 1 []
  (b, ip') ← fetch room ip []
  if ltb 17 b
      then (if ltb (b - 17) 4 then next_match room size (b - 17) ip' [] else do
        need_op size [] (b - 17)
        need_ip ip' (b - 17 + 3) []
        (ip'', out) ← copy_run room (b - 17) ip' []
        next (first_literal_run, ip'', out))
      else next (literal_run, ip, [])

-- `lzo1x_decompress_safe (buf + room - in_len, in_len, buf, &new_len, NULL)`
unfoldable pub decompress_in_place : Variant → ℕ → ℕ → List ℕ → Outcome
decompress_in_place v room size input = elim (start_in_place room size input) [
  | next s ↦ run_in_place room v size (length input + 1) s
  | done status out ↦ returned status out
  | fault ↦ faulted
]
