-- ===== src/Lib.antt =====
-- A verification library for LZO, a library of fast lossless compressors.
--
-- Which file models which part of the repository:
--   Base.antt and Base/          shared names: lists as buffers, machine words, Boolean tests
--   Lzo1x/Format.antt            src/config1x.h, src/config1y.h: the constants of the two formats
--   Lzo1x/Decoder.antt           src/lzo1x_d.ch with the tests of src/lzo1_d.ch:
--                                lzo1x_decompress_safe, lzo1y_decompress_safe and the two without
--                                overrun tests
--   Lzo1x/Encoder.antt           src/lzo1x_c.ch: lzo1x_1_compress, its variants by dictionary size
--                                (1k, 1l, 1o) and lzo1y_1_compress
--   Lzo1x/Decoder/, Encoder/     what each of the two does on its own
--   Lzo1x/RoundTrip/             the two together
--   Lzo1x/InPlace.antt           src/lzo1x_d.ch again, on a buffer that holds both its input and its
--                                output, as examples/lzopack.c calls it; InPlace/ has its proofs
--   Lzo1x/Tests.antt             runs on concrete data, and the theorems at concrete inputs
--   Frag.antt                    lzo_cpu/lzo_frag.c: the command line tool's file format, which holds
--                                chunks compressed on their own by the codec of Lzo1x.antt
--   Frag/                        what it reads back of what it writes, up to a whole file
--   Frag/Workers.antt            the threads of compress_multi and decompress_multi that take the
--                                chunks, as a step relation on the job and the workers; Workers/ has
--                                their ends, and the workers of either program against Frag.antt
--   Frag/CommandLine.antt        the same file: main, from the arguments to the call of compress_file
--                                or decompress_file
--   Lzopack.antt, Lzopack/       examples/lzopack.c: do_compress and do_decompress, and in Main.antt
--                                main; State.antt has the functions on files, Does.antt what a
--                                function reads and writes, Sound.antt what any file leads to
--   Lzo1.antt, Lzo1/             src/lzo1.c: lzo1_compress and lzo1_decompress, and the two together
--   Lzo1a.antt, Lzo1a/           src/lzo1a.c, src/lzo1a_cr.ch: lzo1a_compress and lzo1a_decompress, the two
--                                together, and the compressor against lzo1_compress
--   Lzo1f.antt, Lzo1f/           src/lzo1f_d.ch with src/lzo1_d.ch: lzo1f_decompress_safe, and what it reads
--                                of the memory behind its input
--   Checksum/Unrolled.antt       LZO_DO1 to LZO_DO16 and the loops over them, for both checksums
--   Adler.antt, Adler/           src/lzo_util.c: lzo_adler32
--   Crc.antt, Crc/               src/lzo_crc.c: lzo_crc32 with its table
--
-- minilzo/minilzo.c holds src/lzo1x_c.ch, src/lzo1x_d.ch and src/lzo1_d.ch, for LZO1X, in one file.
--
-- Representation. A byte is a number below 256. The input that is still to be read is a list, and
-- so is the output written so far; `ip` and `op` of the decompressor are the two together, and in
-- the compressor positions are offsets from the start of the source. `lzo_uint` has 64 bits and
-- wraps. An access outside a buffer is a result of its own, `fault`, which no test of the model
-- prevents but the source's.
--
-- Configuration. The portable branches are modelled (no unaligned loads or copies), the
-- deterministic compressor with 16-bit dictionary entries, and the decompressor with the
-- end-of-stream code, with all overrun tests (LZO_TEST_OVERRUN) and with none. The tool uses the
-- one without; allocations succeed, and in Frag.antt the chunks are taken in order, as one worker
-- does. LZO1 and LZO1A have RBITS 5 and CLEVEL 1, LZO1A LBITS 8, and both a dictionary of
-- pointers. In the options of the tool, the string functions of the C library are those of the C
-- locale.
--
-- Loops. The decompressor takes at most one round for each input byte and one more, the
-- compressor's loops at most one for each position of the source and one more; that these suffice
-- is part of the theorems, which state that the functions return. The lengths behind a marker count
-- down by 255, so that their own value is enough as a number of rounds. A round of LZO1F may read
-- nothing and only go to the other loop, so that there are two rounds for each byte of memory.
--
-- Not modelled: LZO1Z and the dictionary variant of lzo1x_d.ch, the level 99 and 999 compressors
-- with their sliding window and the optimizer, the other algorithms (LZO1B, LZO1C, LZO2A), all left
-- out for their size, the compressors of LZO1F and its decompressor without tests, the timing,
-- messages and file access of lzo_cpu/lzo_frag.c and the other drivers, the copies of the library
-- in lzo_cpu/src/, the OpenCL kernels and the assembler versions. The `malloc` of the tool is a
-- parameter: it gives a buffer of the size asked for, with any content. In Lzopack.antt,
-- lzo1x_999_compress of level 9 is a parameter, of which nothing is assumed, and so are the files
-- that can be opened; different names are different files, and writing succeeds.
pub mod Base
pub mod Adler
pub mod Checksum
pub mod Crc
pub mod Frag
pub mod Lzo1
pub mod Lzo1a
pub mod Lzo1f
pub mod Lzo1x
pub mod Lzopack
