-- ===== src/Lzopack/Blocks.antt =====
-- examples/lzopack.c: the blocks that do_compress writes are those that do_decompress reads.
use lzo.Base.{ℕ, suc, ◌*◌, ◌^◌, ◌≤◌, ◌<◌, ◌≡◌, sym, ◌∙◌, ap, arith}
use lzo.Base.{Bool, true, false, ◌&&◌, ltb, leb, ◌==◌, Bool-cases, inl, inr}
use lzo.Base.{some, List, [], ◌∷◌, ◌++◌, length}
use lzo.Base.{All, IsByte, if◌then◌else◌}
use lzo.Lzo1x.Format.{lzo1x}
use lzo.Lzo1x.Decoder.{returned, e_ok}
use lzo.Lzo1x.Encoder.{compress}
use lzo.Lzo1x.InPlace.{decompress_in_place}
use lzo.Lzo1x.InPlace.Whole.{compress-decompress_in_place}
use lzo.Adler.{adler32}
use lzo.Lzo1x.Encoder.Bytes.{All-append}
use lzo.Adler.Laws.{adler32-plain}
use lzo.Lzopack.State.{◌>>◌, ensure, xread, xwrite, xread32, xwrite32, word_bytes}
use lzo.Lzopack.{
  file_flags, enlarged, checksum_of, update_checksum, checked, packed, write_block, compress_block,
  decompressed, block_contents, decompress_blocks,
}
use lzo.Lzopack.Does.{
  Does, Does-bind, Does-pure, Does-ensure, Does-xread, Does-xread32, Does-xwrite, Does-xwrite32,
}
use mathlib.Core.List.{append_assoc}
use mathlib.Core.Path.{subst}

abbrev pub top_block_size : ℕ
top_block_size = 8 * 1024 * 1024

-- The checksum behind one more block.
pub checksum_step :
    (c b : ℕ) (buf : List ℕ)
    → All IsByte (b ∷ buf)
    → (c' : ℕ) × (adler32 c (some (b ∷ buf)) ≡ some c') × (c' < 2 ^ 32)
checksum_step c b buf bytes = (_, adler32-plain c b buf bytes, omega arith)

pub Does-update :
    (rest : List ℕ) (c c' : ℕ) (buf : List ℕ)
    → adler32 c (some buf) ≡ some c'
    → Does rest (update_checksum file_flags c buf) c' [] []
unfolding update_checksum checksum_of
Does-update rest c c' buf e = rw e (Does-pure rest c')

-- A block in the file: its length, and its contents behind theirs.
abbrev pub stored : List ℕ → List ℕ → List ℕ
stored buf out = if ltb (length out) (length buf) then out else buf

abbrev pub block_bytes : List ℕ → List ℕ → List ℕ
block_bytes buf out =
    word_bytes (length buf) ++ (word_bytes (length (stored buf out)) ++ stored buf out)

pub Does-write_block :
    (rest buf out : List ℕ) → Does rest (write_block buf out) tt [] (block_bytes buf out)
unfolding write_block
Does-write_block rest buf out =
    Does-bind rest (xwrite32 (length buf)) _ tt tt [] [] (word_bytes (length buf)) _
      (Does-xwrite32 rest (length buf)) (second (ltb (length out) (length buf)))
  where
    second :
        (c : Bool)
        → Does rest
            (if c
              then (xwrite32 (length out) >> xwrite out)
              else (xwrite32 (length buf) >> xwrite buf))
            tt
            []
            (word_bytes (length (if c then out else buf)) ++ (if c then out else buf))
    second true =
        Does-bind rest (xwrite32 (length out)) _ tt tt [] [] (word_bytes (length out)) out
          (Does-xwrite32 rest (length out)) (Does-xwrite rest out)
    second false =
        Does-bind rest (xwrite32 (length buf)) _ tt tt [] [] (word_bytes (length buf)) buf
          (Does-xwrite32 rest (length buf)) (Does-xwrite rest buf)

-- What a block is compressed to.
pub record IsPacked (addr block_size : ℕ) (buf out : List ℕ) : Type 0 where
  pub made : compress lzo1x 14 addr buf ≡ some out
  pub bytes : All IsByte out
  pub some_code : 0 < length out
  pub bounded : length out ≤ enlarged (length buf)
  pub reads : decompress_in_place lzo1x (enlarged block_size) (length buf) out ≡ returned e_ok buf

pub block-IsPacked :
    (addr block_size : ℕ) (buf : List ℕ)
    → All IsByte buf
    → length buf ≤ block_size
    → block_size ≤ top_block_size
    → (out : List ℕ) × IsPacked addr block_size buf out
block-IsPacked addr block_size buf bytes h k =
    let (out, e, b, n, l, d) =
      compress-decompress_in_place lzo1x buf (length buf) (enlarged block_size) 14 addr bytes
        (omega arith) (omega arith) (omega arith) in
    (out, record { made = e; bytes = b; some_code = n; bounded = l; reads = d })

module _ (addr : ℕ) (compress_999 : List ℕ → ℕ × List ℕ) (level block_size : ℕ)
    (fast : (level == 9) ≡ false) where
  pub Does-compress_block :
      (rest buf out : List ℕ)
      → IsPacked addr block_size buf out
      → Does rest (compress_block addr compress_999 level buf) out [] []
  unfolding compress_block packed checked
  Does-compress_block rest buf out p =
      let within : leb (length out) (enlarged (length buf)) ≡ true = ground (arith, p.bounded) in
      rw (fast, p.made, within) (Does-pure rest out)

Does-block_contents :
    (addr block_size : ℕ) (rest buf out : List ℕ)
    → IsPacked addr block_size buf out
    → Does rest (block_contents (enlarged block_size) (length buf) (stored buf out)) buf [] []
unfolding block_contents decompressed
Does-block_contents addr block_size rest buf out p =
    elim (Bool-cases (ltb (length out) (length buf))) [
      | inl smaller ↦
          let whole : (length buf == length buf) ≡ true = ground arith in
          rw (smaller, smaller, p.reads, whole) (Does-pure rest buf)
      | inr larger ↦
          let same : ltb (length buf) (length buf) ≡ false = ground arith in
          rw (larger, same) (Does-pure rest buf)
    ]

-- The size tests of do_decompress hold of a block that do_compress has written.
sizes_pass :
    (block_size n m : ℕ)
    → n ≤ block_size
    → 0 < m
    → m ≤ n
    → (leb m block_size && leb n block_size && (ltb 0 m && leb m n)) ≡ true
sizes_pass block_size n m h k l = ground arith

length-stored : (buf out : List ℕ) → length (stored buf out) ≤ length buf
length-stored buf out = elim (Bool-cases (ltb (length out) (length buf))) [
  | inl smaller ↦ rw smaller (ground arith)
  | inr larger ↦ rw larger (omega arith)
]

some_stored : (buf out : List ℕ) → 0 < length buf → 0 < length out → 0 < length (stored buf out)
some_stored buf out h k = elim (Bool-cases (ltb (length out) (length buf))) [
  | inl smaller ↦ rw smaller k
  | inr larger ↦ rw larger h
]

-- One block is read, and the loop goes on.
pub Does-decompress_block :
    (addr block_size fuel c c' c'' b : ℕ) (buf out rest w x : List ℕ)
    → length (b ∷ buf) ≤ block_size
    → block_size ≤ top_block_size
    → IsPacked addr block_size (b ∷ buf) out
    → adler32 c (some (b ∷ buf)) ≡ some c'
    → Does rest (decompress_blocks fuel file_flags block_size c') c'' w x
    → Does rest
        (decompress_blocks (suc fuel) file_flags block_size c)
        c''
        (block_bytes (b ∷ buf) out ++ w)
        (b ∷ buf ++ x)
unfolding decompress_blocks
Does-decompress_block addr block_size fuel c c' c'' b buf out rest w x h k p e d =
    let block = b ∷ buf in
    let kept = stored block out in
    let less = length-stored block out in
    subst (λ r. Does rest (decompress_blocks (suc fuel) file_flags block_size c) c'' r (block ++ x))
      (sym (
        append_assoc (word_bytes (length block)) (word_bytes (length kept) ++ kept) w
        ∙ ap (λ r. word_bytes (length block) ++ r)
            (append_assoc (word_bytes (length kept)) kept w)))
      (Does-bind rest xread32 _ (length block) c'' (word_bytes (length block)) _ [] _
        (Does-xread32 _ (length block) (omega arith))
        (Does-bind rest xread32 _ (length kept) c'' (word_bytes (length kept)) _ [] _
          (Does-xread32 _ (length kept) (omega arith))
          (Does-bind rest (ensure _ 5) _ tt c'' [] _ [] _
            (Does-ensure _ _ 5 (
              sizes_pass block_size (length block) (length kept) h
                (some_stored block out (omega arith) p.some_code) less))
            (Does-bind rest (xread (length kept) false) _ kept c'' kept _ [] _
              (Does-xread _ kept false)
              (Does-bind rest (block_contents (enlarged block_size) (length block) kept) _ block c''
                [] _ [] _ (Does-block_contents addr block_size _ block out p)
                (Does-bind rest (xwrite block) _ tt c'' [] _ block _ (Does-xwrite _ block) (
                  Does-bind rest (update_checksum file_flags c block) _ c' c'' [] w [] x
                    (Does-update _ c c' block e) d)))))))

pub word_bytes-IsByte : (v : ℕ) → All IsByte (word_bytes v)
word_bytes-IsByte v = omega arith

pub block_bytes-IsByte :
    (buf out : List ℕ) → All IsByte buf → All IsByte out → All IsByte (block_bytes buf out)
block_bytes-IsByte buf out a b =
    All-append (word_bytes (length buf)) (word_bytes (length (stored buf out)) ++ stored buf out)
      (word_bytes-IsByte (length buf))
      (All-append (word_bytes (length (stored buf out))) (stored buf out)
        (word_bytes-IsByte (length (stored buf out))) (either (ltb (length out) (length buf))))
  where
    either : (c : Bool) → All IsByte (if c then out else buf)
    either true = b
    either false = a
