-- ===== src/Adler.antt =====
-- src/lzo_util.c: lzo_adler32. A buffer is a list, of which `len` is the length; a read past its end
-- gives `none`. `lzo_uint32_t` wraps.
pub mod Sums
pub mod Laws
pub mod Changes
mod Tests
use lzo.Base.{ℕ, zero, suc, ◌+◌, ◌-◌, ◌*◌, ◌/◌, ◌%◌, ◌^◌, bit_and, bit_or, u32}
use lzo.Checksum.Unrolled.{Position, by_sixteen, ◌>>=◌}
use lzo.Base.{ltb, leb, if◌then◌else◌, Option, none, some, List, [], ◌∷◌, length}

-- `s1` and `s2`
abbrev pub Pair : Type 0
Pair = ℕ × ℕ

abbrev pub base : ℕ
base = 65521

abbrev pub nmax : ℕ
nmax = 5552

-- `s1 += b; s2 += s1`
abbrev pub add_byte : Pair → ℕ → Pair
add_byte s b = let s1 = u32 (s.0 + b) in (s1, u32 (s.1 + s1))

-- `while (len > 0)`, in at most `fuel` rounds
unfoldable pub blocks : ℕ → ℕ → Position Pair → Option Pair
blocks zero len p = none
blocks (suc fuel) zero p = some p.0
blocks (suc fuel) (suc less) p =
    let len = suc less in
    let k = if ltb len nmax then len else nmax in
    by_sixteen add_byte (k + 1) k p >>= λ q.
    blocks fuel (len - k) ((q.0.0 % base, q.0.1 % base), q.1)

unfoldable pub adler32 : ℕ → Option (List ℕ) → Option ℕ
adler32 adler none = some 1
adler32 adler (some buf) =
    blocks (length buf + 1) (length buf)
      ((bit_and adler 0xffff, bit_and (adler / 2 ^ 16) 0xffff), buf)
    >>= λ s. some (bit_or (u32 (s.1 * 2 ^ 16)) s.0)
