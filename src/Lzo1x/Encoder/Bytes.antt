-- ===== src/Lzo1x/Encoder/Bytes.antt =====
-- Everything that the compressor writes is a byte.
use lzo.Base.{ℕ, zero, suc, ◌-◌, ◌<◌, arith}
use lzo.Base.{ltb, leb, ◌==◌, Bool-cases, inl, inr, ◌&&◌}
use lzo.Base.{List, [], ◌∷◌, ◌++◌, length, set, take, drop, slice, All, IsByte}
use lzo.Lzo1x.Format.{
  Variant, lzo1x, lzo1y, m2_max_offset, m2_max_len, m3_max_offset, m3_max_len, m4_max_len,
}
use lzo.Lzo1x.Encoder.{
  store_long, patch, store_run, store_literals, m2_code, m3_code, m4_code, match_code,
}
use lzo.Lzo1x.Encoder.{store_last, offset_code}

pub All-append : (xs ys : List ℕ) → All IsByte xs → All IsByte ys → All IsByte (xs ++ ys)
All-append [] ys a b = b
All-append (x ∷ xs) ys a b = (a.0, All-append xs ys a.1 b)

pub All-take : (n : ℕ) (xs : List ℕ) → All IsByte xs → All IsByte (take n xs)
All-take zero xs a = tt
All-take (suc n) [] a = tt
All-take (suc n) (x ∷ xs) a = (a.0, All-take n xs a.1)

pub All-drop : (n : ℕ) (xs : List ℕ) → All IsByte xs → All IsByte (drop n xs)
All-drop zero xs a = a
All-drop (suc n) [] a = a
All-drop (suc n) (x ∷ xs) a = All-drop n xs a.1

pub All-slice : (xs : List ℕ) (i j : ℕ) → All IsByte xs → All IsByte (slice xs i j)
All-slice xs i j a = All-take (j - i) (drop i xs) (All-drop i xs a)

All-set : (xs : List ℕ) (i b : ℕ) → All IsByte xs → b < 256 → All IsByte (set xs i b)
All-set [] i b a h = a
All-set (x ∷ xs) zero b a h = (h, a.1)
All-set (x ∷ xs) (suc i) b a h = (a.0, All-set xs i b a.1 h)

patch-bytes : (out : List ℕ) (t : ℕ) → All IsByte out → All IsByte (patch out t)
unfolding patch
patch-bytes out t a = All-set out (length out - 2) _ a (omega arith)

store_long-bytes : (fuel left : ℕ) → All IsByte (store_long fuel left)
unfolding store_long
store_long-bytes zero left = tt
store_long-bytes (suc fuel) left = elim (Bool-cases (ltb 255 left)) [
  | inl more ↦ rw more (omega arith, store_long-bytes fuel (left - 255))
  | inr last ↦ rw last (omega arith, tt)
]

store_run-bytes : (t : ℕ) → All IsByte (store_run t)
unfolding store_run
store_run-bytes t = elim (Bool-cases (leb t 18)) [
  | inl short ↦ rw short (omega arith, tt)
  | inr long ↦ rw long (omega arith, store_long-bytes (t - 18) (t - 18))
]

pub store_literals-bytes :
    (out lits : List ℕ) → All IsByte out → All IsByte lits → All IsByte (store_literals out lits)
unfolding store_literals
store_literals-bytes out lits a b = elim (Bool-cases (length lits == 0)) [
  | inl nothing ↦ rw nothing a
  | inr something ↦ rw something (elim (Bool-cases (leb (length lits) 3)) [
    | inl few ↦ rw few (All-append (patch out (length lits)) lits (patch-bytes out _ a) b)
    | inr many ↦ rw many (
        All-append out (store_run (length lits) ++ lits) a
          (All-append (store_run (length lits)) lits (store_run-bytes _) b))
  ])
]

pub store_last-bytes :
    (out lits : List ℕ) → All IsByte out → All IsByte lits → All IsByte (store_last out lits)
unfolding store_last
store_last-bytes out lits a b = elim (Bool-cases (length lits == 0)) [
  | inl nothing ↦ rw nothing a
  | inr something ↦ rw something (elim (Bool-cases (length out == 0 && leb (length lits) 238)) [
    | inl first ↦ rw first (omega arith, b)
    | inr later ↦ rw later (elim (Bool-cases (leb (length lits) 3)) [
      | inl few ↦ rw few (All-append (patch out (length lits)) lits (patch-bytes out _ a) b)
      | inr many ↦ rw many (
          All-append out (store_run (length lits) ++ lits) a
            (All-append (store_run (length lits)) lits (store_run-bytes _) b))
    ])
  ])
]

m2_code-bytes : (v : Variant) (len off : ℕ) → All IsByte (m2_code v len off)
m2_code-bytes lzo1x len off = omega arith
m2_code-bytes lzo1y len off = omega arith

m3_code-bytes : (len off : ℕ) → All IsByte (m3_code len off)
unfolding m3_code
m3_code-bytes len off = elim (Bool-cases (leb len m3_max_len)) [
  | inl short ↦ rw short (omega arith)
  | inr long ↦ rw long (
    omega arith,
    All-append (store_long (len - 33) (len - 33)) (offset_code off) (store_long-bytes _ _)
        (omega arith),
  )
]

m4_code-bytes : (len off : ℕ) → All IsByte (m4_code len off)
unfolding m4_code
m4_code-bytes len off = elim (Bool-cases (leb len m4_max_len)) [
  | inl short ↦ rw short (omega arith)
  | inr long ↦ rw long (
    omega arith,
    All-append (store_long (len - 9) (len - 9)) (offset_code off) (store_long-bytes _ _)
        (omega arith),
  )
]

pub match_code-bytes : (v : Variant) (len off : ℕ) → All IsByte (match_code v len off)
unfolding match_code
match_code-bytes v len off =
    elim (Bool-cases (leb len (m2_max_len v) && leb off (m2_max_offset v))) [
      | inl near ↦ rw near (m2_code-bytes v len (off - 1))
      | inr far ↦ rw far (elim (Bool-cases (leb off m3_max_offset)) [
        | inl mid ↦ rw mid (m3_code-bytes len (off - 1))
        | inr top ↦ rw top (m4_code-bytes len (off - 0x4000))
      ])
    ]
