-- ===== src/Lzo1a/RoundTrip.antt =====
-- src/lzo1a.c: what the compressor writes, read back by the decompressor.
pub mod Store
pub mod Search
pub mod Coded
pub mod Pieces
pub mod Pending
pub mod After
pub mod Whole
