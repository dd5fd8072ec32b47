-- ===== src/Lzo1.antt =====
-- src/lzo1.c: the format's constants for RBITS 5, and the two directions in child modules.
pub mod Format
pub mod Decoder
pub mod Encoder
pub mod RoundTrip
mod Tests
