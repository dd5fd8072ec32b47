-- ===== src/Lzopack/Sound/Accepted.antt =====
-- examples/lzopack.c: do_decompress on any file, from its header to its checksum.
use lzo.Base.{ℕ, suc, ◌+◌, ◌-◌, ◌*◌, ◌%◌, ◌^◌, ◌≡◌, ◌≢◌, refl, sym, ◌∙◌, ap, arith}
use lzo.Base.{Bool, true, false, ◌&&◌, leb, ◌==◌, ◌||◌, Bool-cases, inl, inr}
use lzo.Base.{bit_and, bit_and_mask, Option, some, List, [], ◌∷◌, ◌++◌, length}
use lzo.Base.{length-drop, take, drop, take-append-drop, get_or, All, IsByte}
use lzo.Lzo1x.Encoder.Bytes.{All-drop}
use lzo.Adler.{adler32, blocks}
use lzo.Lzopack.State.{
  Files, End, value, err, exits, undefined, pure, ensure, xread, xgetc, xread32, word_bytes,
}
use lzo.Lzopack.{
  magic, same_bytes, checksum_of, decompress_blocks, read_header, verify_checksum, unpack_file,
  do_decompress,
}
use lzo.Lzopack.Sound.{Post, Post-bind, Post-ensure, Open, xread32-Post, xgetc-Post}
use lzo.Lzopack.Sound.Blocks.{Checked, decompress_blocks-Post}
use mathlib.Core.Path.{subst}

pub same_bytes-length : (xs ys : List ℕ) → same_bytes xs ys ≡ true → length xs ≡ length ys
same_bytes-length [] [] h = refl
same_bytes-length [] (y ∷ ys) h = cc
same_bytes-length (x ∷ xs) [] h = cc
same_bytes-length (x ∷ xs) (y ∷ ys) h = go (same_bytes-length xs ys) (x == y) h
  where
    go :
        (same_bytes xs ys ≡ true → length xs ≡ length ys)
        → (b : Bool) → (b && same_bytes xs ys) ≡ true
        → length (x ∷ xs) ≡ length (y ∷ ys)
    go rec true h = ap suc (rec h)
    go rec false h = cc

get_or-append : (xs ys : List ℕ) (i : ℕ) → get_or (xs ++ ys) (length xs + i) 0 ≡ get_or ys i 0
get_or-append [] ys i = let e : 0 + i ≡ i = omega arith in rw e refl
get_or-append (x ∷ xs) ys i =
    let e : suc (length xs) + i ≡ suc (length xs + i) = omega arith in rw e (get_or-append xs ys i)

-- The low byte of the flags stands behind the magic and three more bytes.
flags_at :
    (m rest : List ℕ) (flags : ℕ)
    → length m ≡ 7
    → get_or (m ++ (word_bytes flags ++ rest)) 10 0 ≡ flags % 2 ^ 8
flags_at m rest flags h =
    let e : length m + 3 ≡ 10 = omega arith in
    rw e at (get_or-append m (word_bytes flags ++ rest) 3)

abbrev Fresh : Option (List ℕ) → Type 0
Fresh fo = fo ≡ some []

-- What the header says of a file `file`.
abbrev IsHeader : List ℕ → ℕ × ℕ → Files → Type 0
IsHeader file h t =
    (get_or file 10 0 % 2 ≡ 1 → (bit_and h.0 1 == 0) ≡ false) × Open file Fresh (length file) t

odd_flags : (flags : ℕ) → flags % 2 ^ 8 % 2 ≡ 1 → (bit_and flags 1 == 0) ≡ false
odd_flags flags h = let e : bit_and flags 1 ≡ 1 = omega (arith, bit_and_mask 1 flags) in rw e refl

-- The first read may come to the end of the file.
first-Post :
    (file : List ℕ) (s : Files)
    → All IsByte file
    → s.fi ≡ file
    → s.fo ≡ some []
    → Post (λ m t. (file ≡ m ++ t.fi) × Open file Fresh (length file) t) (xread 7 true s)
unfolding xread
first-Post file s a e f = rw (or_true (length (take 7 s.fi) == 7)) (
  sym e ∙ sym (take-append-drop 7 s.fi),
  (All-drop 7 s.fi (rw e a), omega (arith, length-drop 7 s.fi, ap length e), (7, ap (drop 7) e), f),
)
  where
    or_true : (b : Bool) → (b || true) ≡ true
    or_true true = refl
    or_true false = refl

read_header-Post :
    (file : List ℕ) (s : Files)
    → All IsByte file
    → s.fi ≡ file
    → s.fo ≡ some []
    → Post (IsHeader file) (read_header s)
unfolding read_header
read_header-Post file s a e f =
    Post-bind _ R (xread 7 true s) _ (first-Post file s a e f) λ m t (split, o).
      Post-ensure R (same_bytes m magic) 1 _ t λ same.
        Post-bind _ R (xread32 t) _ (xread32-Post file Fresh (length file) t o)
          λ flags t₁ (split₁, more, o₁).
            let bit : get_or file 10 0 ≡ flags % 2 ^ 8 =
              rw (split, split₁) (flags_at m t₁.fi flags (same_bytes-length m magic same)) in
            Post-bind _ R (xgetc t₁) _ (xgetc-Post file Fresh (length file - 4) t₁ o₁)
              λ method t₂ o₂.
                Post-bind _ R (xgetc t₂) _ (xgetc-Post file Fresh (length file - 4) t₂ o₂)
                  λ level t₃ o₃. Post-ensure R (method == 1) 2 _ t₃ λ _.
                    Post-bind _ R (xread32 t₃) _ (xread32-Post file Fresh (length file - 4) t₃ o₃)
                      λ block_size t₄ (split₄, more₄, (a₄, l₄, k₄, f₄)).
                        Post-ensure R (leb 1024 block_size && leb block_size (8 * 1024 * 1024)) 3
                          (pure (flags, block_size)) t₄
                          λ _. ((λ odd. odd_flags flags (rw bit at odd)), (a₄, omega arith, k₄, f₄))
  where
    R : ℕ × ℕ → Files → Type 0
    R = IsHeader file

-- What do_decompress leaves of a file when it returns 0.
abbrev IsAccepted : List ℕ → Unit {0} → Files → Type 0
IsAccepted file u t =
    (out : List ℕ) × (t.fo ≡ some out)
    × (get_or file 10 0 % 2 ≡ 1
        → (k : ℕ) × (c : ℕ) × (adler32 1 (some out) ≡ some c)
          × (drop k file ≡ word_bytes c ++ t.fi))

last_ensure :
    (R : Unit {0} → Files → Type 0) (b : Bool) (r : ℕ) (s : Files)
    → (b ≡ true → R tt s)
    → Post R (ensure b r s)
last_ensure R true r s h = h refl
last_ensure R false r s h = tt

verify_checksum-Post :
    (file : List ℕ) (flags c n : ℕ) (s : Files)
    → (get_or file 10 0 % 2 ≡ 1 → (bit_and flags 1 == 0) ≡ false)
    → Open file (Checked flags c) n s
    → Post (IsAccepted file) (verify_checksum flags c s)
unfolding verify_checksum
verify_checksum-Post file flags c n s odd (a, l, (k, e), (out, w, b, i)) =
    elim (Bool-cases (bit_and flags 1 == 0)) [
      | inl unchecked ↦ rw unchecked (out, w, λ h. absurd (ground (arith, unchecked, odd h)))
      | inr checked ↦ rw checked (
          Post-bind _ (IsAccepted file) (xread32 s) _
            (xread32-Post file (λ fo. fo ≡ s.fo) n s (a, l, (k, e), refl))
            λ c' t (split, m, (a', l', k', f)). last_ensure (IsAccepted file) (c' == c) 7 t λ same.
              let eq : c ≡ c' = ground (arith, same) in
              (out, f ∙ w, λ _. (k, c', rw eq at (i checked), sym e ∙ split)))
    ]

do_decompress-Post :
    (file : List ℕ) (i o : ℕ)
    → All IsByte file
    → Post
        (IsAccepted file)
        (do_decompress (record { fi = file; fo = some []; total_in = i; total_out = o }))
unfolding do_decompress unpack_file checksum_of adler32 blocks
do_decompress-Post file i o a =
    Post-bind _ R (read_header s) _ (read_header-Post file s a refl refl)
      λ (flags, block_size) t (odd, (a', l, k, f)).
        Post-bind _ R (decompress_blocks (length file + 1) flags block_size 1 t) _
          (decompress_blocks-Post file flags block_size (length file + 1) (length file) 1 t
            (omega arith) (a', l, k, ([], f, tt, λ _. fresh)))
          λ c t' o'. verify_checksum-Post file flags c (length file) t' odd o'
  where
    s : Files
    s = record { fi = file; fo = some []; total_in = 0; total_out = 0 }

    R : Unit {0} → Files → Type 0
    R = IsAccepted file

    fresh : adler32 1 (some []) ≡ some 1
    fresh = refl

Post-defined :
    (R : Unit {0} → Files → Type 0) (r : End (Unit {0}) × Files) → Post R r → r.0 ≢ undefined
Post-defined R (value a, s) h = λ e. cc
Post-defined R (err r, s) h = λ e. cc
Post-defined R (exits, s) h = λ e. cc
Post-defined R (undefined, s) h = absurd h

-- On every file of bytes do_decompress is defined and ends: its loops end, no block is decompressed
-- outside of its input and output, and it returns 0, returns one of its codes or calls exit(1).
pub do_decompress-defined :
    (file : List ℕ) (i o : ℕ)
    → All IsByte file
    → (do_decompress (record { fi = file; fo = some []; total_in = i; total_out = o })).0
      ≢ undefined
do_decompress-defined file i o a = Post-defined (IsAccepted file) _ (do_decompress-Post file i o a)

-- Where do_decompress returns 0 for a file of bytes whose flags ask for a checksum, the last four bytes
-- that it has read hold, high byte first, the Adler-32 checksum of all that it has written.
pub do_decompress-checked :
    (file : List ℕ) (i o : ℕ) (t : Files)
    → All IsByte file
    → get_or file 10 0 % 2 ≡ 1
    → do_decompress (record { fi = file; fo = some []; total_in = i; total_out = o })
      ≡ (value tt, t)
    → (out : List ℕ) × (t.fo ≡ some out)
      × ((k : ℕ) × (c : ℕ) × (adler32 1 (some out) ≡ some c) × (drop k file ≡ word_bytes c ++ t.fi))
do_decompress-checked file i o t a odd e =
    let (out, w, found) = subst (Post (IsAccepted file)) e (do_decompress-Post file i o a) in
    (out, w, found odd)
