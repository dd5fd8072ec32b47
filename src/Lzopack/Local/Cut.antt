-- ===== src/Lzopack/Local/Cut.antt =====
-- examples/lzopack.c: do_decompress on a part of a file, and on a file with more behind it.
use lzo.Base.{ℕ, ◌+◌, ◌*◌, ◌≤◌, ◌<◌, ◌≡◌, ◌≢◌, sym, ◌∙◌, ap, arith}
use lzo.Base.{◌==◌, ◌&&◌, leb, none, some, List, [], ◌++◌, length, length-append, take, drop}
use lzo.Base.{length-drop, take-append-drop, All, IsByte}
use lzo.Adler.{adler32}
use lzo.Lzopack.State.{Files, value, xgetc, xread32}
use lzo.Lzopack.{read_header, unpack_file, do_decompress, do_compress}
use lzo.Lzopack.Local.{
  behind, Local, Local-pure, Local-bind, Local-ensure, Local-xread32, Local-xgetc,
}
use lzo.Lzopack.Local.Whole.{
  Local-decompress_blocks, Local-magic, Local-checksum_of, Local-verify_checksum,
}
use lzo.Lzopack.Does.{files}
use lzo.Lzopack.Blocks.{top_block_size}
use lzo.Lzopack.Whole.{do_compress-do_decompress}
use mathlib.Core.List.{append-nil}
use mathlib.Core.Option.{some-injective}
use mathlib.Core.Path.{subst}

module _ (more : List ℕ) where
  Local-read_header : Local more read_header read_header
  unfolding read_header
  Local-read_header = Local-magic more _ (
      Local-bind more xread32 xread32 _ _ (Local-xread32 more) λ flags.
        Local-bind more xgetc xgetc _ _ (Local-xgetc more) λ method.
          Local-bind more xgetc xgetc _ _ (Local-xgetc more) λ level.
            Local-ensure more (method == 1) 2 _ _ λ _.
              Local-bind more xread32 xread32 _ _ (Local-xread32 more) λ block_size.
                Local-ensure more (leb 1024 block_size && leb block_size (8 * 1024 * 1024)) 3 _ _
                  λ _. Local-pure more (flags, block_size))

  Local-unpack_file : (f g : ℕ) → f ≤ g → Local more (unpack_file f) (unpack_file g)
  unfolding unpack_file
  Local-unpack_file f g h =
      Local-bind more read_header read_header _ _ Local-read_header λ (flags, block_size).
        Local-bind more _ _ _ _ (Local-checksum_of more (adler32 0 none)) λ c.
          Local-bind more _ _ _ _ (Local-decompress_blocks more flags block_size f g c h)
            λ c'. Local-verify_checksum more flags c'

-- Where do_decompress returns 0, it does so with anything behind its input, writes the same, and leaves
-- what stands behind.
pub do_decompress-local :
    (more : List ℕ) (s t : Files)
    → do_decompress s ≡ (value tt, t)
    → do_decompress (behind s more) ≡ (value tt, behind t more)
unfolding do_decompress
do_decompress-local more s t e =
    (Local-unpack_file more (length s.fi + 1) (length (s.fi ++ more) + 1)
        (omega (arith, length-append s.fi more))).at
      (record s { total_in = 0; total_out = 0 }) tt t e

-- A file that do_compress has written, at any level but 9 and with any block size from 1024 to 8 MiB, is
-- not accepted by do_decompress where it is cut: of no part that is less than the whole file does
-- do_decompress return 0.
pub do_compress-do_decompress_cut :
    (addr : ℕ) (compress_999 : List ℕ → ℕ × List ℕ) (level block_size : ℕ) (src packed : List ℕ)
    (t : Files) (k : ℕ)
    → level ≢ 9
    → 1024 ≤ block_size
    → block_size ≤ top_block_size
    → All IsByte src
    → do_compress addr compress_999 level block_size (files src (some []) 0 0) ≡ (value tt, t)
    → t.fo ≡ some packed
    → k < length packed
    → (do_decompress (files (take k packed) (some []) 0 0)).0 ≢ value tt
do_compress-do_decompress_cut addr compress_999 level block_size src packed t k other least most
      bytes made written less accepted =
    let (file, b, c, d) =
      do_compress-do_decompress addr compress_999 level block_size src other least most bytes in
    let same : file ≡ packed =
      some-injective _ _ (ap (λ r. r.1.fo) (sym (c 0 0) ∙ made) ∙ written) in
    let part = do_decompress (files (take k packed) (some []) 0 0) in
    let whole : do_decompress (files packed (some []) 0 0)
        ≡ (value tt, behind part.1 (drop k packed)) =
      subst (λ w. do_decompress (files w (some []) 0 0) ≡ (value tt, behind part.1 (drop k packed)))
        (take-append-drop k packed)
        (do_decompress-local (drop k packed) (files (take k packed) (some []) 0 0) part.1
          (ap (λ r. (r, part.1)) accepted)) in
    let right : do_decompress (files packed (some []) 0 0)
        ≡ (value tt, files [] (some src) (length file) (length src)) =
      subst
        (λ w.
          do_decompress (files w (some []) 0 0)
          ≡ (value tt, files [] (some src) (length file) (length src)))
        (append-nil file ∙ same) (d [] (some []) 0 0) in
    absurd (
      omega (
        arith,
        ap (λ r. length (r.1.fi)) (sym right ∙ whole),
        length-append (part.1.fi) (drop k packed),
        length-drop k packed,
      ))
