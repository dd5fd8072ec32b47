-- ===== src/Adler/Tests.antt =====
-- src/lzo_util.c: runs of lzo_adler32, and its theorems at concrete inputs.
use lzo.Base.{ℕ, ◌≡◌, ◌≢◌, refl, arith, List, [], ◌∷◌, ◌++◌, none, some}
use lzo.Checksum.Unrolled.{by_one, by_sixteen}
use lzo.Adler.{adler32, blocks}
use lzo.Adler.Sums.{plain}
use lzo.Adler.Changes.{adler32-one_byte, adler32-swap}
use lzo.Adler.Laws.{adler32-plain, adler32-append}

abbrev name : List ℕ
name = 87 ∷ 105 ∷ 107 ∷ 105 ∷ 112 ∷ 101 ∷ 100 ∷ 105 ∷ 97 ∷ []

checksums :
    (adler32 1 (some name) ≡ some 0x11E60398)
    × (adler32 7 none ≡ some 1)
    × (adler32 0x11E60398 (some []) ≡ some 0x11E60398)
unfolding adler32 blocks by_one by_sixteen
checksums = (refl, refl, refl)

adler32-plain_example : adler32 1 (some name) ≡ some 0x11E60398
unfolding plain
adler32-plain_example =
    adler32-plain 1 87 (105 ∷ 107 ∷ 105 ∷ 112 ∷ 101 ∷ 100 ∷ 105 ∷ 97 ∷ []) (omega arith)

adler32-append_example : adler32 0x11E60398 (some name) ≡ adler32 1 (some (name ++ name))
adler32-append_example =
    adler32-append 1 0x11E60398 name name (omega arith) (omega arith) (checksums.0)

different : ◌≢◌ {A = ℕ} 97 105
different e = absurd (omega (arith, e))

adler32-one_byte_example :
    adler32 1 (some (87 ∷ 97 ∷ 107 ∷ [])) ≢ adler32 1 (some (87 ∷ 105 ∷ 107 ∷ []))
adler32-one_byte_example =
    adler32-one_byte 1 (87 ∷ []) 97 105 (107 ∷ []) (omega arith) (omega arith) (omega arith)
      (omega arith) different

adler32-swap_example : adler32 1 (some (87 ∷ 97 ∷ 105 ∷ [])) ≢ adler32 1 (some (87 ∷ 105 ∷ 97 ∷ []))
adler32-swap_example =
    adler32-swap 1 (87 ∷ []) 97 105 [] (omega arith) (omega arith) (omega arith) (omega arith)
      different
