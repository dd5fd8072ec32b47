-- ===== src/Lzopack.antt =====
-- examples/lzopack.c: do_compress and do_decompress; Main has main.
--
-- `addr` is where xmalloc puts the buffer that a block is read to, and `compress_999` stands for
-- lzo1x_999_compress: its return code and what it writes. The buffers are allocated, and opt_debug,
-- which clears a work-memory that is cleared anyway, is off. A block is decompressed in place.
pub mod State
pub mod Does
pub mod Blocks
pub mod RoundTrip
pub mod Whole
pub mod Sound
pub mod Local
pub mod Main
mod Tests
use lzo.Base.{ℕ, zero, suc, ◌+◌, ◌*◌, ◌/◌, bit_and, Bool, true, false, ◌&&◌, ltb, leb, ◌==◌}
use lzo.Base.{if◌then◌else◌, Option, none, some, List, [], ◌∷◌, length}
use lzo.Lzo1x.Format.{lzo1x}
use lzo.Lzo1x.Decoder.{Outcome, returned, faulted, stuck, e_ok, e_input_overrun}
use lzo.Lzo1x.Decoder.{e_output_overrun, e_lookbehind_overrun, e_input_not_consumed}
use lzo.Lzo1x.Encoder.{compress}
use lzo.Lzo1x.InPlace.{decompress_in_place}
use lzo.Adler.{adler32}
use lzo.Lzopack.State.{
  ◌>>=◌, ◌>>◌, Exec, err, undefined, pure, stop, ensure, xread, xwrite, xgetc, xputc, xread32,
  xwrite32,
}

abbrev pub magic : List ℕ
magic = 0x00 ∷ 0xe9 ∷ 0x4c ∷ 0x5a ∷ 0x4f ∷ 0xff ∷ 0x1a ∷ []

-- `memcmp(a, b, n) == 0` where both have `n` bytes
abbrev pub same_bytes : List ℕ → List ℕ → Bool
same_bytes [] [] = true
same_bytes [] (b ∷ ys) = false
same_bytes (a ∷ xs) [] = false
same_bytes (a ∷ xs) (b ∷ ys) = a == b && same_bytes xs ys

-- A call of lzo_adler32.
unfoldable pub checksum_of : Option ℕ → Exec ℕ
checksum_of none = stop undefined
checksum_of (some c) = pure c

-- `if (flags & 1) checksum = lzo_adler32(checksum, in, in_len);`
unfoldable pub update_checksum : ℕ → ℕ → List ℕ → Exec ℕ
update_checksum flags checksum buf =
    if bit_and flags 1 == 0 then pure checksum else checksum_of (adler32 checksum (some buf))

abbrev pub file_flags : ℕ
file_flags = 1

-- The room for a block that the compressor may enlarge.
abbrev pub enlarged : ℕ → ℕ
enlarged n = n + n / 16 + 64 + 3

-- The compressor's return code, `LZO_E_OK` being 0, and its output.
unfoldable pub checked : List ℕ → ℕ × List ℕ → Exec (List ℕ)
checked buf (r, out) = do ensure (r == 0 && leb (length out) (enlarged (length buf))) 2; pure out

unfoldable pub packed : List ℕ → Option (List ℕ) → Exec (List ℕ)
packed buf none = stop undefined
packed buf (some out) = checked buf (0, out)

unfoldable pub write_block : List ℕ → List ℕ → Exec (Unit {0})
write_block buf out = do
  xwrite32 (length buf)
  if ltb (length out) (length buf)
      then (do xwrite32 (length out); xwrite out)
      else do xwrite32 (length buf); xwrite buf

unfoldable pub write_header : ℕ → ℕ → Exec (Unit {0})
write_header compression_level block_size = do
  xwrite magic
  xwrite32 file_flags
  xputc 1
  xputc compression_level
  xwrite32 block_size

module _ (addr : ℕ) (compress_999 : List ℕ → ℕ × List ℕ) where
  unfoldable pub compress_block : ℕ → List ℕ → Exec (List ℕ)
  compress_block compression_level buf =
      if compression_level == 9
      then checked buf (compress_999 buf)
      else packed buf (compress lzo1x 14 addr buf)

  -- `for (;;)`, in at most `fuel` rounds, from a checksum to the last one.
  unfoldable pub compress_blocks : ℕ → ℕ → ℕ → ℕ → Exec ℕ
  compress_blocks zero level block_size checksum = stop undefined
  compress_blocks (suc fuel) level block_size checksum = do
    buf ← xread block_size true
    elim buf [
      | [] ↦ pure checksum
      | b ∷ rest ↦ do
        checksum' ← update_checksum file_flags checksum (b ∷ rest)
        out ← compress_block level (b ∷ rest)
        write_block (b ∷ rest) out
        compress_blocks fuel level block_size checksum'
    ]

  -- The function, with `fuel` rounds for its loop.
  unfoldable pub pack_file : ℕ → ℕ → ℕ → Exec (Unit {0})
  pack_file fuel compression_level block_size = do
    write_header compression_level block_size
    checksum ← checksum_of (adler32 0 none)
    checksum' ← compress_blocks fuel compression_level block_size checksum
    xwrite32 0
    xwrite32 checksum'

  unfoldable pub do_compress : ℕ → ℕ → Exec (Unit {0})
  do_compress compression_level block_size s =
      pack_file (length s.fi + 1) compression_level block_size
        (record s { total_in = 0; total_out = 0 })

-- `lzo1x_decompress_safe(in, in_len, out, &new_len, NULL)` and the test of what it returns.
unfoldable pub decompressed : ℕ → Outcome → Exec (List ℕ)
decompressed out_len (returned e_ok out) = do ensure (length out == out_len) 6; pure out
decompressed out_len (returned e_input_overrun out) = stop (err 6)
decompressed out_len (returned e_output_overrun out) = stop (err 6)
decompressed out_len (returned e_lookbehind_overrun out) = stop (err 6)
decompressed out_len (returned e_input_not_consumed out) = stop (err 6)
decompressed out_len faulted = stop undefined
decompressed out_len stuck = stop undefined

-- The contents of a block, of which `input` is what the file holds.
unfoldable pub block_contents : ℕ → ℕ → List ℕ → Exec (List ℕ)
block_contents buf_len out_len input =
    if ltb (length input) out_len
    then decompressed out_len (decompress_in_place lzo1x buf_len out_len input)
    else pure input

-- `for (;;)`, in at most `fuel` rounds.
unfoldable pub decompress_blocks : ℕ → ℕ → ℕ → ℕ → Exec ℕ
decompress_blocks zero flags block_size checksum = stop undefined
decompress_blocks (suc fuel) flags block_size checksum = do
  out_len ← xread32
  elim out_len [
    | zero ↦ pure checksum
    | suc less ↦ do
      in_len ← xread32
      ensure
          (leb in_len block_size
            && leb (suc less) block_size
            && (ltb 0 in_len && leb in_len (suc less)))
          5
      input ← xread in_len false
      out ← block_contents (enlarged block_size) (suc less) input
      xwrite out
      checksum' ← update_checksum flags checksum out
      decompress_blocks fuel flags block_size checksum'
  ]

-- The tests of the header; what is left is `flags` and the size of the blocks.
unfoldable pub read_header : Exec (ℕ × ℕ)
read_header = do
  m ← xread 7 true
  ensure (same_bytes m magic) 1
  flags ← xread32
  method ← xgetc
  compression_level ← xgetc
  ensure (method == 1) 2
  block_size ← xread32
  ensure (leb 1024 block_size && leb block_size (8 * 1024 * 1024)) 3
  pure (flags, block_size)

unfoldable pub verify_checksum : ℕ → ℕ → Exec (Unit {0})
verify_checksum flags checksum =
    if bit_and flags 1 == 0 then pure tt else do c ← xread32; ensure (c == checksum) 7

unfoldable pub unpack_file : ℕ → Exec (Unit {0})
unpack_file fuel = do
  (flags, block_size) ← read_header
  checksum ← checksum_of (adler32 0 none)
  checksum' ← decompress_blocks fuel flags block_size checksum
  verify_checksum flags checksum'

unfoldable pub do_decompress : Exec (Unit {0})
do_decompress s = unpack_file (length s.fi + 1) (record s { total_in = 0; total_out = 0 })
