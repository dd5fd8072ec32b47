-- ===== src/Lzopack/State.antt =====
-- examples/lzopack.c: the two files and the counters as a state, and how a function can end. What was
-- written before it ends stays written. A write succeeds: the disk is not full.
use lzo.Base.{ℕ, ◌+◌, ◌*◌, ◌/◌, ◌%◌, ◌^◌, bit_or, u8, u64, Bool, true, false, ◌||◌, ◌==◌}
use lzo.Base.{if◌then◌else◌, Option, none, some, List, [], ◌∷◌, ◌++◌, length, take, drop}

-- `fi` is what is still to be read, `fo` what was written, if `fo` is not NULL.
pub record Files : Type 0 where
  pub fi : List ℕ
  pub fo : Option (List ℕ)
  pub total_in : ℕ
  pub total_out : ℕ

-- A function goes on with a value, leaves by `goto err` with the value of `r`, calls exit(1), or is
-- undefined; the rounds that a loop is given count as a limit of their own, `undefined` as well.
pub data End {ℓ} (A : Type ℓ) : Type ℓ where
  value : A → End A
  err : ℕ → End A
  exits undefined : End A

abbrev pub Exec {ℓ} : Type ℓ → Type ℓ
Exec A = Files → End A × Files

abbrev pub pure {ℓ} : {A : Type ℓ} → A → Exec A
pure a s = (value a, s)

abbrev pub stop {ℓ} : {A : Type ℓ} → End A → Exec A
stop e s = (e, s)

abbrev pub continue {ℓ κ} : {A : Type ℓ} {B : Type κ} → End A × Files → (A → Exec B) → End B × Files
continue (value a, s) f = f a s
continue (err r, s) f = (err r, s)
continue (exits, s) f = (exits, s)
continue (undefined, s) f = (undefined, s)

infixl 5 ◌>>=◌ ◌>>◌
abbrev pub ◌>>=◌ {ℓ κ} : {A : Type ℓ} {B : Type κ} → Exec A → (A → Exec B) → Exec B
◌>>=◌ m f s = continue (m s) f

abbrev pub ◌>>◌ {ℓ} : {B : Type ℓ} → Exec (Unit {0}) → Exec B → Exec B
m >> n = m >>= λ _. n

-- `if (!good) { r = ...; goto err; }`
abbrev pub ensure : Bool → ℕ → Exec (Unit {0})
ensure true r s = (value tt, s)
ensure false r s = (err r, s)

unfoldable pub xread : ℕ → Bool → Exec (List ℕ)
xread len allow_eof s =
    let buf = take len s.fi in
    let s' = record s { fi = drop len s.fi; total_in = u64 (s.total_in + length buf) } in
    if length buf == len || allow_eof
    then (value buf, s')
    else (exits, record s { fi = drop len s.fi })

unfoldable pub xwrite : List ℕ → Exec (Unit {0})
xwrite buf s = (
  value tt,
  record s {
    fo = elim s.fo [ none ↦ none | some out ↦ some (out ++ buf) ];
    total_out = u64 (s.total_out + length buf);
  },
)

-- The byte that was read.
unfoldable pub byte_of : List ℕ → Exec ℕ
byte_of [] = stop undefined
byte_of (c ∷ rest) = pure c

unfoldable pub xgetc : Exec ℕ
xgetc = do buf ← xread 1 false; byte_of buf

unfoldable pub xputc : ℕ → Exec (Unit {0})
xputc c = xwrite (u8 c ∷ [])

-- `b[3] | b[2] << 8 | b[1] << 16 | b[0] << 24`
unfoldable pub word_of : List ℕ → Exec ℕ
word_of (b₀ ∷ b₁ ∷ b₂ ∷ b₃ ∷ rest) =
    pure (bit_or (bit_or (bit_or b₃ (b₂ * 2 ^ 8)) (b₁ * 2 ^ 16)) (b₀ * 2 ^ 24))
word_of short = stop undefined

unfoldable pub xread32 : Exec ℕ
xread32 = do b ← xread 4 false; word_of b

abbrev pub word_bytes : ℕ → List ℕ
word_bytes v = v / 2 ^ 24 % 2 ^ 8 ∷ v / 2 ^ 16 % 2 ^ 8 ∷ v / 2 ^ 8 % 2 ^ 8 ∷ v % 2 ^ 8 ∷ []

unfoldable pub xwrite32 : ℕ → Exec (Unit {0})
xwrite32 v = xwrite (word_bytes v)
