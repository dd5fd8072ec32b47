-- ===== src/Crc/Tests.antt =====
-- src/lzo_crc.c: runs of lzo_crc32, and its theorems at concrete inputs.
use lzo.Base.{ℕ, ◌≡◌, ◌≢◌, refl, ap, get_or, arith, List, [], ◌∷◌, ◌++◌, none, some}
use lzo.Checksum.Unrolled.{by_one, by_sixteen}
use lzo.Crc.{add_byte, crc32}
use lzo.Crc.Bitwise.{register, shifts}
use lzo.Crc.Burst.{crc32-burst}
use lzo.Crc.Laws.{crc32-register, crc32-append}

-- The digits 1 to 9.
abbrev digits : List ℕ
digits = 49 ∷ 50 ∷ 51 ∷ 52 ∷ 53 ∷ 54 ∷ 55 ∷ 56 ∷ 57 ∷ []

checksums :
    (crc32 0 (some digits) ≡ some 0xcbf43926)
    × (crc32 0 (some (digits ++ digits)) ≡ some 0x4b837ae4)
    × (crc32 7 none ≡ some 0)
unfolding crc32 add_byte by_one by_sixteen
checksums = (refl, refl, refl)

crc32-register_example : crc32 0 (some digits) ≡ some 0xcbf43926
unfolding register shifts
crc32-register_example = crc32-register 0 digits (omega arith)

crc32-append_example : crc32 0xcbf43926 (some digits) ≡ crc32 0 (some (digits ++ digits))
crc32-append_example =
    crc32-append 0 0xcbf43926 digits digits (omega arith) (omega arith) (checksums.0)

-- Nine digits, and the same with two of the last four changed.
abbrev changed : List ℕ
changed = 49 ∷ 50 ∷ 51 ∷ 52 ∷ 53 ∷ 54 ∷ 48 ∷ 48 ∷ 57 ∷ []

tails_differ : ◌≢◌ {A = List ℕ} (54 ∷ 55 ∷ 56 ∷ 57 ∷ []) (54 ∷ 48 ∷ 48 ∷ 57 ∷ [])
tails_differ e = absurd (omega (arith, ap (λ l. get_or l 1 0) e))

crc32-burst_example : crc32 0 (some digits) ≢ crc32 0 (some changed)
crc32-burst_example =
    crc32-burst 0 (49 ∷ 50 ∷ 51 ∷ 52 ∷ 53 ∷ []) (54 ∷ 55 ∷ 56 ∷ 57 ∷ []) (54 ∷ 48 ∷ 48 ∷ 57 ∷ []) []
      (omega arith) (omega arith) (omega arith) (omega arith) refl (omega arith) tails_differ
