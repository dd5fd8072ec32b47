-- ===== src/Lzo1x/Decoder.antt =====
-- src/lzo1x_d.ch as src/lzo1x_d1.c and src/lzo1x_d2.c compile it (no COPY_DICT), in the portable branch
-- without unaligned copies, with the overrun tests of src/lzo1_d.ch where they are compiled in. `lzo_uint` has 64 bits.
--
-- `ip` is the input that is still to be read, `out` what has been written so far, `size` the value of
-- `*out_len` on entry. A read past the input, a write past `size` and a copy from outside the output
-- are faults of the model: nothing in the steps but the source's own tests prevents them.
-- `x >> k` is `x / 2 ^ k`, and `x & (2 ^ k - 1)` is `x % 2 ^ k`.
pub mod Copy
pub mod Safety
pub mod Run
pub mod Unsafe
pub mod Kept
use lzo.Base.{ℕ, zero, suc, ◌+◌, ◌-◌, ◌*◌, ◌/◌, ◌%◌, ◌^◌, bit_and, u64}
use lzo.Base.{Bool, true, false, ◌&&◌, ◌||◌, ltb, leb, ◌==◌, if◌then◌else◌}
use lzo.Base.{Option, none, some, List, [], ◌∷◌, ◌++◌, length, get_elem?}
use lzo.Lzo1x.Format.{Variant, lzo1x, lzo1y, m2_max_offset}

-- The return codes of the decompressor.
pub data Status : Type 0 where
  e_ok e_input_overrun e_output_overrun e_lookbehind_overrun e_input_not_consumed : Status

-- What a piece of the decoder does: go on, return with the output so far, or an undefined access.
pub data Step {ℓ} (A : Type ℓ) : Type ℓ where
  next : A → Step A
  done : Status → List ℕ → Step A
  fault : Step A

infixl 5 ◌>>=◌ ◌>>◌
abbrev pub ◌>>=◌ {ℓ κ} : {A : Type ℓ} {B : Type κ} → Step A → (A → Step B) → Step B
next a >>= f = f a
done s o >>= f = done s o
fault >>= f = fault

abbrev pub ◌>>◌ {ℓ} : {B : Type ℓ} → Step (Unit {0}) → Step B → Step B
m >> k = m >>= λ _. k

-- A test whose `goto` leaves the decoder with the output so far.
abbrev pub stop_if : Bool → Status → List ℕ → Step (Unit {0})
stop_if true s out = done s out
stop_if false s out = next tt

-- `*ip++`
abbrev pub read : List ℕ → Step (ℕ × List ℕ)
read [] = fault
read (b ∷ ip) = next (b, ip)

-- `*op++ = b`
abbrev pub write : ℕ → List ℕ → ℕ → Step (List ℕ)
write size out b = if ltb (length out) size then next (out ++ (b ∷ [])) else fault

-- `*m_pos` for `m_pos = op - off`
abbrev pub look_behind : List ℕ → ℕ → Step ℕ
look_behind out off =
    if off == 0 || ltb (length out) off
    then fault
    else elim (get_elem? out (length out - off)) [ none ↦ fault | some b ↦ next b ]

-- Whether the overrun tests are compiled in: with LZO_TEST_OVERRUN (lzo1x_d2.c) or without (lzo1x_d1.c).
pub record Checks : Type 0 where
  pub enabled : Bool

-- NEED_IP, NEED_OP and TEST_LB; `off` is `op - m_pos`.
abbrev pub need_ip : ⦃c : Checks⦄ → List ℕ → ℕ → List ℕ → Step (Unit {0})
need_ip ⦃c⦄ ip x out = stop_if (c.enabled && ltb (length ip) (u64 x)) e_input_overrun out

abbrev pub need_op : ⦃c : Checks⦄ → ℕ → List ℕ → ℕ → Step (Unit {0})
need_op ⦃c⦄ size out x = stop_if (c.enabled && ltb (size - length out) (u64 x)) e_output_overrun out

abbrev pub test_lb : ⦃c : Checks⦄ → List ℕ → ℕ → Step (Unit {0})
test_lb ⦃c⦄ out off =
    stop_if (c.enabled && (ltb (length out) off || off == 0)) e_lookbehind_overrun out

-- `do *op++ = *ip++; while (--t > 0);`
unfoldable pub copy_literals : ℕ → ℕ → List ℕ → List ℕ → Step (List ℕ × List ℕ)
copy_literals size zero ip out = next (ip, out)
copy_literals size (suc t) ip out = do
  (b, ip') ← read ip
  out' ← write size out b
  copy_literals size t ip' out'

-- `do *op++ = *m_pos++; while (--t > 0);`, byte by byte, so that a match may overlap its own output.
unfoldable pub copy_match : ℕ → ℕ → ℕ → List ℕ → Step (List ℕ)
copy_match size off zero out = next out
copy_match size off (suc t) out = do
  b ← look_behind out off
  out' ← write size out b
  copy_match size off t out'

-- `while (*ip == 0) { t += 255; ip++; TEST(t); NEED_IP(1); }  t += base + *ip++;`
-- `status` is where the test of `t` leads: TEST_IV for a literal run, TEST_OV for a match.
unfoldable pub long_length : ⦃c : Checks⦄ → Status → ℕ → ℕ → List ℕ → List ℕ → Step (ℕ × List ℕ)
long_length ⦃c⦄ status base t [] out = fault
long_length ⦃c⦄ status base t (zero ∷ ip) out = do
  stop_if (c.enabled && ltb (2 ^ 64 - 511) (u64 (t + 255))) status out
  need_ip ip 1 out
  long_length status base (u64 (t + 255)) ip out
long_length ⦃c⦄ status base t (suc b ∷ ip) out = next (u64 (t + (base + suc b)), ip)

-- A length in the low bits of a marker, or after it where those are zero.
unfoldable pub match_length : ⦃c : Checks⦄ → ℕ → ℕ → List ℕ → List ℕ → Step (ℕ × List ℕ)
match_length base zero ip out = do
  (t, ip') ← long_length e_output_overrun base 0 ip out
  need_ip ip' 2 out
  next (t, ip')
match_length base (suc t) ip out = next (suc t, ip)

-- The places of the loop that a round starts from.
pub data Label : Type 0 where
  literal_run first_literal_run : Label
  handle_match : ℕ → Label

abbrev pub State : Type 0
State = Label × List ℕ × List ℕ

-- `match_done`, with `b` for `ip[-2]`, and `match_next`.
unfoldable pub match_next : ⦃c : Checks⦄ → ℕ → ℕ → List ℕ → List ℕ → Step State
match_next size t ip out = do
  need_op size out t
  need_ip ip (t + 3) out
  (ip', out') ← copy_literals size t ip out
  (m, ip'') ← read ip'
  next (handle_match m, ip'', out')

unfoldable pub match_done : ⦃c : Checks⦄ → ℕ → ℕ → List ℕ → List ℕ → Step State
match_done size b ip out =
    if b % 4 == 0 then next (literal_run, ip, out) else match_next size (b % 4) ip out

-- The copy of a match, and what follows it.
unfoldable pub finish_match : ⦃c : Checks⦄ → ℕ → ℕ → ℕ → ℕ → List ℕ → List ℕ → Step State
finish_match size off len b ip out = do
  test_lb out off
  need_op size out len
  out' ← copy_match size off len out
  match_done size b ip out'

-- The offset and the value of `t` of an M2 match.
abbrev pub m2_off : Variant → ℕ → ℕ → ℕ
m2_off lzo1x t b = 1 + t / 2 ^ 2 % 8 + b * 2 ^ 3
m2_off lzo1y t b = 1 + t / 2 ^ 2 % 4 + b * 2 ^ 2

abbrev pub m2_t : Variant → ℕ → ℕ
m2_t lzo1x t = t / 2 ^ 5 - 1
m2_t lzo1y t = t / 2 ^ 4 - 3

unfoldable pub m1_match : ⦃c : Checks⦄ → ℕ → ℕ → List ℕ → List ℕ → Step State
m1_match size t ip out = do
  (b, ip') ← read ip
  finish_match size (1 + t / 2 ^ 2 + b * 2 ^ 2) 2 t ip' out

unfoldable pub m2_match : ⦃c : Checks⦄ → Variant → ℕ → ℕ → List ℕ → List ℕ → Step State
m2_match v size t ip out = do
  (b, ip') ← read ip
  finish_match size (m2_off v t b) (u64 (m2_t v t + 2)) t ip' out

unfoldable pub m3_match : ⦃c : Checks⦄ → ℕ → ℕ → List ℕ → List ℕ → Step State
m3_match size m ip out = do
  (t, ip₁) ← match_length 31 (m % 32) ip out
  (b₀, ip₂) ← read ip₁
  (b₁, ip₃) ← read ip₂
  finish_match size (1 + b₀ / 2 ^ 2 + b₁ * 2 ^ 6) (u64 (t + 2)) b₀ ip₃ out

-- The end of the stream is an M4 match whose offset, before 0x4000 is added, is zero.
unfoldable pub eof_found : List ℕ → List ℕ → Step State
eof_found [] out = done e_ok out
eof_found (b ∷ ip) out = done e_input_not_consumed out

unfoldable pub m4_match : ⦃c : Checks⦄ → ℕ → ℕ → List ℕ → List ℕ → Step State
m4_match size m ip out = do
  (t, ip₁) ← match_length 7 (m % 8) ip out
  (b₀, ip₂) ← read ip₁
  (b₁, ip₃) ← read ip₂
  let off = bit_and m 8 * 2 ^ 11 + (b₀ / 2 ^ 2 + b₁ * 2 ^ 6)
  if off == 0 then eof_found ip₃ out else finish_match size (off + 0x4000) (u64 (t + 2)) b₀ ip₃ out

unfoldable pub any_match : ⦃c : Checks⦄ → Variant → ℕ → ℕ → List ℕ → List ℕ → Step State
any_match v size t ip out =
    if leb 64 t
    then m2_match v size t ip out
    else if leb 32 t
    then m3_match size t ip out
    else if leb 16 t
    then m4_match size t ip out
    else m1_match size t ip out

-- The length of a literal run, in the marker or after it.
unfoldable pub run_length : ⦃c : Checks⦄ → ℕ → List ℕ → List ℕ → Step (ℕ × List ℕ)
run_length zero ip out = long_length e_input_overrun 15 0 ip out
run_length (suc t) ip out = next (suc t, ip)

unfoldable pub literals : ⦃c : Checks⦄ → ℕ → ℕ → List ℕ → List ℕ → Step State
literals size m ip out = do
  (t, ip₁) ← run_length m ip out
  need_op size out (t + 3)
  need_ip ip₁ (t + 6) out
  (ip₂, out') ← copy_literals size (t + 3) ip₁ out
  next (first_literal_run, ip₂, out')

-- One round, from the label on.
unfoldable pub step : ⦃c : Checks⦄ → Variant → ℕ → State → Step State
step v size (literal_run, ip, out) = do
  need_ip ip 3 out
  (t, ip') ← read ip
  if leb 16 t then next (handle_match t, ip', out) else literals size t ip' out
step v size (first_literal_run, ip, out) = do
  (t, ip') ← read ip
  if leb 16 t then next (handle_match t, ip', out) else do
    (b, ip'') ← read ip'
    finish_match size (1 + m2_max_offset v + t / 2 ^ 2 + b * 2 ^ 2) 3 t ip'' out
step v size (handle_match t, ip, out) = any_match v size t ip out

-- The result of a whole run; `stuck` means that the rounds given did not suffice.
pub data Outcome : Type 0 where
  returned : Status → List ℕ → Outcome
  faulted stuck : Outcome

unfoldable pub run : ⦃c : Checks⦄ → Variant → ℕ → ℕ → State → Outcome
run v size zero s = stuck
run v size (suc fuel) s = elim (step v size s) [
  | next s' ↦ run v size fuel s'
  | done status out ↦ returned status out
  | fault ↦ faulted
]

-- The code before the loop: a first byte above 17 stands for a run of literals.
unfoldable pub start : ⦃c : Checks⦄ → ℕ → List ℕ → Step State
start size ip = do
  need_ip ip 1 []
  (b, ip') ← read ip
  if ltb 17 b
      then (if ltb (b - 17) 4 then match_next size (b - 17) ip' [] else do
        need_op size [] (b - 17)
        need_ip ip' (b - 17 + 3) []
        (ip'', out) ← copy_literals size (b - 17) ip' []
        next (first_literal_run, ip'', out))
      else next (literal_run, ip, [])

-- `lzo1x_decompress_safe` and `lzo1y_decompress_safe`; the output's length is `*out_len` on return.
unfoldable pub decompress : ⦃c : Checks⦄ → Variant → ℕ → List ℕ → Outcome
decompress v size input = elim (start size input) [
  | next s ↦ run v size (length input + 1) s
  | done status out ↦ returned status out
  | fault ↦ faulted
]

-- src/lzo1x_d2.c, which the theorems speak of where they name no configuration, and src/lzo1x_d1.c.
instance abbrev pub safe : Checks
safe = record { enabled = true }

abbrev pub unsafe : Checks
unsafe = record { enabled = false }
