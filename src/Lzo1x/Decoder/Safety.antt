-- ===== src/Lzo1x/Decoder/Safety.antt =====
-- The safe decompressor never reads past its input, writes past its output buffer or copies from
-- outside the output: no piece of it faults.
pub mod Lengths
pub mod Matches
pub mod Rounds
use lzo.Base.{ℕ, zero, suc, ◌+◌, ◌-◌, ◌*◌, ◌/◌, ◌%◌, ◌^◌, ◌≤◌, ◌<◌, ◌≡◌, refl, arith}
use lzo.Base.{ltb, leb, ◌==◌, Bool-cases, ltb→lt, ltb→le, inl, inr, ◌||◌}
use lzo.Base.{
  List, [], ◌∷◌, ◌++◌, length, take, drop, length-append, length-take, length-drop, All, IsByte,
}
use lzo.Base.{Bool, true, false, u64, if◌then◌else◌, bit_and}
use lzo.Lzo1x.Format.{Variant, lzo1x, lzo1y, m2_max_offset}
use lzo.Lzo1x.Decoder.{safe}
use lzo.Lzo1x.Decoder.{
  Status, Step, next, done, fault, ◌>>=◌, stop_if, read, need_ip, need_op, test_lb,
}
use lzo.Lzo1x.Decoder.{e_input_overrun, e_output_overrun, e_lookbehind_overrun}
use lzo.Lzo1x.Decoder.{Label, State, literal_run, first_literal_run, handle_match}
use lzo.Lzo1x.Decoder.{copy_literals, copy_match, long_length, match_length, match_next, match_done}
use lzo.Lzo1x.Decoder.{
  finish_match, m2_off, m2_t, m1_match, m2_match, m3_match, m4_match, any_match,
}
use lzo.Lzo1x.Decoder.{eof_found, run_length, literals, step, start}
use lzo.Lzo1x.Decoder.Copy.{copy_literals_lem, copy_match_lem, extended, length-extended}

-- A step that does not fault, whose value satisfies `P`, and whose output on return fits the buffer.
abbrev pub Safe {ℓ} : ℕ → {A : Type ℓ} → (A → Type 0) → Step A → Type 0
Safe size P (next a) = P a
Safe size P (done s out) = length out ≤ size
Safe size P fault = ⊥

pub Safe-bind {ℓ κ} :
    (size : ℕ) {A : Type ℓ} {B : Type κ} (P : A → Type 0) (Q : B → Type 0) (m : Step A)
    (f : A → Step B)
    → Safe size P m
    → ((a : A) → P a → Safe size Q (f a))
    → Safe size Q (m >>= f)
Safe-bind size P Q (next a) f h k = k a h
Safe-bind size P Q (done s out) f h k = h
Safe-bind size P Q fault f h k = h

-- A test passes with its condition known to be false, or returns.
pub Safe-stop_if {ℓ} :
    (size : ℕ) {B : Type ℓ} (Q : B → Type 0) (b : Bool) (s : Status) (out : List ℕ) (k : Step B)
    → length out ≤ size
    → (b ≡ false → Safe size Q k)
    → Safe size Q (stop_if b s out >>= λ _. k)
Safe-stop_if size Q true s out k h g = h
Safe-stop_if size Q false s out k h g = g refl

-- The input that a round may read with no test of its own.
abbrev pub IsReady : ℕ → State → Type 0
IsReady size (literal_run, ip, out) = All IsByte ip × (length out ≤ size)
IsReady size (first_literal_run, ip, out) = All IsByte ip × (length out ≤ size) × (3 ≤ length ip)
IsReady size (handle_match t, ip, out) =
    All IsByte ip × (length out ≤ size) × (2 ≤ length ip) × (t < 256)

-- A state that a round may leave, with less input than `n` bytes.
abbrev pub IsNext : ℕ → ℕ → State → Type 0
IsNext size n s = IsReady size s × (length s.1 < n)

pub Safe-weaken {ℓ} :
    (size : ℕ) {A : Type ℓ} (P Q : A → Type 0) (m : Step A)
    → Safe size P m
    → ((a : A) → P a → Q a)
    → Safe size Q m
Safe-weaken size P Q (next a) h k = k a h
Safe-weaken size P Q (done s out) h k = h
Safe-weaken size P Q fault h k = h
