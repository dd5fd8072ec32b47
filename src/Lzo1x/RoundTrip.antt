-- ===== src/Lzo1x/RoundTrip.antt =====
-- What lzo1x_c.ch writes is read back by lzo1x_d.ch.
pub mod Lengths
pub mod Matches
pub mod Reach
pub mod Literals
pub mod Emitted
pub mod Blocks
pub mod Whole
