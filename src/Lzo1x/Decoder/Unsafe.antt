-- ===== src/Lzo1x/Decoder/Unsafe.antt =====
-- lzo1x_decompress, without overrun tests, against lzo1x_decompress_safe, step by step.
pub mod Parts
pub mod Whole
use lzo.Base.{ℕ, zero, suc, ◌+◌, ◌-◌, ◌*◌, ◌/◌, ◌%◌, ◌^◌, ◌≡◌, refl, sym, u64}
use mathlib.Core.Path.{subst}
use lzo.Base.{ltb, leb, ◌==◌, Bool-cases, inl, inr, ◌||◌, if◌then◌else◌, Bool, true, false, bit_and}
use lzo.Base.{List, [], ◌∷◌, length}
use lzo.Lzo1x.Format.{Variant, m2_max_offset}
use lzo.Lzo1x.Decoder.{safe, unsafe, Status, Step, State, next, done, fault, ◌>>=◌, stop_if, read}
use lzo.Lzo1x.Decoder.{
  e_ok, e_input_overrun, e_output_overrun, e_lookbehind_overrun, e_input_not_consumed,
}
use lzo.Lzo1x.Decoder.{
  Outcome, returned, faulted, stuck, literal_run, first_literal_run, handle_match,
}
use lzo.Lzo1x.Decoder.{copy_match, long_length, match_length, match_next, match_done}
use lzo.Lzo1x.Decoder.{
  finish_match, m1_match, m2_match, m3_match, m4_match, any_match, eof_found, m2_off, m2_t,
}
use lzo.Lzo1x.Decoder.{run_length, literals, step, run, start, decompress}

-- The statuses with which the tests return.
abbrev pub IsOverrun : Status → Type 0
IsOverrun e_ok = ⊥
IsOverrun e_input_overrun = Unit
IsOverrun e_output_overrun = Unit
IsOverrun e_lookbehind_overrun = Unit
IsOverrun e_input_not_consumed = ⊥

-- The second step does what the first does, unless that is an overrun or a fault.
abbrev pub Follows {ℓ} : {A : Type ℓ} → Step A → Step A → Type ℓ
Follows (next a) r = r ≡ next a
Follows (done e_ok out) r = r ≡ done e_ok out
Follows (done e_input_not_consumed out) r = r ≡ done e_input_not_consumed out
Follows (done e_input_overrun out) r = Unit
Follows (done e_output_overrun out) r = Unit
Follows (done e_lookbehind_overrun out) r = Unit
Follows fault r = Unit

pub Follows-refl {ℓ} : {A : Type ℓ} (m : Step A) → Follows m m
Follows-refl (next a) = refl
Follows-refl (done e_ok out) = refl
Follows-refl (done e_input_not_consumed out) = refl
Follows-refl (done e_input_overrun out) = tt
Follows-refl (done e_output_overrun out) = tt
Follows-refl (done e_lookbehind_overrun out) = tt
Follows-refl fault = tt

pub Follows-bind {ℓ} :
    {A B : Type ℓ} (m m' : Step A) (f g : A → Step B)
    → Follows m m'
    → ((a : A) → Follows (f a) (g a))
    → Follows (m >>= f) (m' >>= g)
Follows-bind (next a) m' f g h k = rw h (k a)
Follows-bind (done e_ok out) m' f g h k = rw h
Follows-bind (done e_input_not_consumed out) m' f g h k = rw h
Follows-bind (done e_input_overrun out) m' f g h k = tt
Follows-bind (done e_output_overrun out) m' f g h k = tt
Follows-bind (done e_lookbehind_overrun out) m' f g h k = tt
Follows-bind fault m' f g h k = tt

-- A test that is compiled in, against the same place without it.
pub Follows-stop_if {ℓ} :
    {B : Type ℓ} (b : Bool) (s : Status) (out : List ℕ) (k k' : Step B)
    → IsOverrun s
    → Follows k k'
    → Follows (stop_if b s out >>= λ _. k) k'
Follows-stop_if false s out k k' o h = h
Follows-stop_if true e_ok out k k' o h = absurd o
Follows-stop_if true e_input_not_consumed out k k' o h = absurd o
Follows-stop_if true e_input_overrun out k k' o h = tt
Follows-stop_if true e_output_overrun out k k' o h = tt
Follows-stop_if true e_lookbehind_overrun out k k' o h = tt
