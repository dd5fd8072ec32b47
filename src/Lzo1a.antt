-- ===== src/Lzo1a.antt =====
-- src/lzo1a.c: the two directions, for RBITS 5, LBITS 8 and CLEVEL 1.
pub mod Decoder
pub mod Encoder
pub mod Pointer
pub mod RoundTrip
pub mod Shorter
mod Tests
