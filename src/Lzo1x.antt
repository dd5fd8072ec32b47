-- ===== src/Lzo1x.antt =====
-- The LZO1X and LZO1Y codecs (src/lzo1x_d.ch, src/lzo1x_c.ch, src/config1x.h, src/config1y.h).
pub mod Format
pub mod Decoder
pub mod Encoder
pub mod RoundTrip
pub mod InPlace
mod Tests
