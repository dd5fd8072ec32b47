-- ===== src/Lzopack/Whole.antt =====
-- examples/lzopack.c: a whole file, with its header and its end.
use lzo.Base.{ℕ, ◌+◌, ◌≤◌, ◌<◌, ◌≡◌, ◌≢◌, refl, ap, arith}
use lzo.Base.{true, false, ◌&&◌, leb, ◌==◌, u8}
use lzo.Base.{Option, some, List, [], ◌∷◌, ◌++◌, length, length-append, All, IsByte}
use lzo.Adler.{adler32}
use lzo.Lzo1x.Encoder.Bytes.{All-append}
use lzo.Lzopack.State.{value, xread, xwrite, xread32, xwrite32, xgetc, xputc, word_bytes}
use lzo.Lzopack.{
  magic, file_flags, checksum_of, compress_blocks, write_header, pack_file, do_compress,
  unpack_file, decompress_blocks, read_header, verify_checksum, do_decompress,
}
use lzo.Lzopack.Does.{
  Does, Does-bind, Does-pure, Does-bytes, from_zero, Does-ensure, Does-ensure_then, Does-xread,
  Does-xread32, Does-xgetc, Does-xputc, Does-xwrite, Does-xwrite32, extended_by, files,
}
use lzo.Lzopack.Blocks.{top_block_size, word_bytes-IsByte}
use lzo.Lzopack.RoundTrip.{Written, blocks-Written}
use mathlib.Core.List.{append_assoc, append-nil}
use mathlib.Core.Path.{subst}

abbrev header_bytes : ℕ → ℕ → List ℕ
header_bytes level block_size =
    magic ++ (word_bytes file_flags ++ ((1 ∷ []) ++ ((u8 level ∷ []) ++ word_bytes block_size)))

Does-write_header :
    (rest : List ℕ) (level block_size : ℕ)
    → Does rest (write_header level block_size) tt [] (header_bytes level block_size)
unfolding write_header
Does-write_header rest level block_size =
    Does-bind rest (xwrite magic) _ tt tt [] [] magic _ (Does-xwrite rest magic) (
      Does-bind rest (xwrite32 file_flags) _ tt tt [] [] (word_bytes file_flags) _
        (Does-xwrite32 rest file_flags)
        (Does-bind rest (xputc 1) _ tt tt [] [] (1 ∷ []) _ (Does-xputc rest 1) (
          Does-bind rest (xputc level) _ tt tt [] [] (u8 level ∷ []) _ (Does-xputc rest level)
            (Does-xwrite32 rest block_size))))

Does-read_header :
    (rest : List ℕ) (level block_size : ℕ)
    → 1024 ≤ block_size
    → block_size ≤ top_block_size
    → Does rest read_header (file_flags, block_size) (header_bytes level block_size) []
unfolding read_header
Does-read_header rest level block_size h k =
    Does-bind rest (xread 7 true) _ magic _ magic _ [] _ (Does-xread _ magic true) (
      Does-bind rest xread32 _ file_flags _ (word_bytes file_flags) _ [] _
        (Does-xread32 _ file_flags (omega arith))
        (Does-bind rest xgetc _ 1 _ (1 ∷ []) _ [] _ (Does-xgetc _ 1) (
          Does-bind rest xgetc _ (u8 level) _ (u8 level ∷ []) _ [] _ (Does-xgetc _ (u8 level)) (
            Does-bind rest xread32 _ block_size _ (word_bytes block_size) [] [] []
              (Does-xread32 _ block_size (omega arith))
              (Does-ensure_then rest (leb 1024 block_size && leb block_size top_block_size) 3 _ _ []
                [] (ground arith) (Does-pure rest _))))))

abbrev tail_bytes : List ℕ → ℕ → List ℕ
tail_bytes w last = w ++ (word_bytes 0 ++ word_bytes last)

module _ (addr : ℕ) (compress_999 : List ℕ → ℕ × List ℕ) (level block_size : ℕ)
    (fast : (level == 9) ≡ false) (some_block : 0 < block_size) (most : block_size ≤ top_block_size)
    (src : List ℕ) where
  module _ (fuel : ℕ)
      (r : Written addr compress_999 level block_size fast some_block most fuel 1 src) where
    Does-pack_file :
        Does []
          (pack_file addr compress_999 fuel level block_size)
          tt
          src
          (header_bytes level block_size ++ tail_bytes r.w r.last)
    unfolding pack_file checksum_of adler32
    Does-pack_file = Does-bytes (append-nil src) refl (
        Does-bind [] (write_header level block_size) _ tt tt [] (src ++ [])
          (header_bytes level block_size) (tail_bytes r.w r.last)
          (Does-write_header ((src ++ []) ++ []) level block_size)
          (Does-bind [] (compress_blocks addr compress_999 fuel level block_size 1) _ r.last tt src
            [] r.w (word_bytes 0 ++ word_bytes r.last) r.written
            (Does-bind [] (xwrite32 0) _ tt tt [] [] (word_bytes 0) (word_bytes r.last)
              (Does-xwrite32 [] 0) (Does-xwrite32 [] r.last))))

    Does-unpack_file :
        (least : 1024 ≤ block_size) (f : ℕ) (rest : List ℕ)
        → length r.w < f
        → Does rest (unpack_file f) tt (header_bytes level block_size ++ tail_bytes r.w r.last) src
    unfolding unpack_file checksum_of adler32 verify_checksum
    Does-unpack_file least f rest h =
        Does-bytes
          (ap (λ b. header_bytes level block_size ++ b)
            (append_assoc r.w (word_bytes 0) (word_bytes r.last)))
          (append-nil src)
          (Does-bind rest read_header _ (file_flags, block_size) tt (header_bytes level block_size)
            ((r.w ++ word_bytes 0) ++ word_bytes r.last) [] (src ++ [])
            (Does-read_header _ level block_size least most)
            (Does-bind rest (decompress_blocks f file_flags block_size 1) _ r.last tt
              (r.w ++ word_bytes 0) (word_bytes r.last) src [] (r.read f _ h)
              (Does-bind rest xread32 _ r.last tt (word_bytes r.last) [] [] []
                (Does-xread32 rest r.last r.narrow)
                (Does-ensure rest (r.last == r.last) 7 (ground arith)))))

-- For every source, every level but 9 and every block size from 1024 to 8 MiB, do_compress returns 0 when
-- it has read the whole source and written a file of bytes, of which do_decompress, whatever follows in its
-- input, returns 0 when it has read the whole file and written exactly the source, or nothing where
-- it only tests; the counters are the lengths of the two, in 64 bits.
pub do_compress-do_decompress :
    (addr : ℕ) (compress_999 : List ℕ → ℕ × List ℕ) (level block_size : ℕ) (src : List ℕ)
    → level ≢ 9
    → 1024 ≤ block_size
    → block_size ≤ top_block_size
    → All IsByte src
    → (packed : List ℕ) × All IsByte packed
      × ((i o : ℕ)
          → do_compress addr compress_999 level block_size
              (record { fi = src; fo = some []; total_in = i; total_out = o })
            ≡ (value tt, files [] (some packed) (length src) (length packed)))
      × ((rest : List ℕ) (fo : Option (List ℕ)) (i o : ℕ)
          → do_decompress (record { fi = packed ++ rest; fo = fo; total_in = i; total_out = o })
            ≡ (value tt, files rest (extended_by fo src) (length packed) (length src)))
unfolding do_compress do_decompress
do_compress-do_decompress addr compress_999 level block_size src other least most bytes =
    let fast : (level == 9) ≡ false = ground (arith, other) in
    let r =
      blocks-Written addr compress_999 level block_size fast (omega arith) most (length src + 1) 1
        src (omega arith) bytes (omega arith) in
    let packed = header_bytes level block_size ++ tail_bytes r.w r.last in
    let packed_bytes : All IsByte packed =
      All-append (header_bytes level block_size) (tail_bytes r.w r.last) (omega arith) (
        All-append r.w (word_bytes 0 ++ word_bytes r.last) r.made
          (omega (arith, word_bytes-IsByte r.last))) in
    let len : length r.w < length packed = omega (
      arith,
      length-append r.w (word_bytes 0 ++ word_bytes r.last),
      length-append (header_bytes level block_size) (tail_bytes r.w r.last),
    ) in
    (
      packed,
      packed_bytes,
      λ i o.
          subst
            (λ b.
              pack_file addr compress_999 (length src + 1) level block_size
                (record { fi = b; fo = some []; total_in = 0; total_out = 0 })
              ≡ (value tt, files [] (some packed) (length src) (length packed)))
            (append-nil src)
            (from_zero
              (Does-pack_file addr compress_999 level block_size fast (omega arith) most src
                (length src + 1) r)
              (some [])),
      λ rest fo i o.
          from_zero
            (Does-unpack_file addr compress_999 level block_size fast (omega arith) most src
              (length src + 1) r least (length (packed ++ rest) + 1) rest
              (omega (arith, len, length-append packed rest)))
            fo,
    )
