-- ===== src/Lzo1/RoundTrip.antt =====
-- src/lzo1.c: what the compressor writes, read back by the decompressor.
pub mod Coded
pub mod Stored
pub mod Runs
pub mod Matches
pub mod Search
pub mod Whole
