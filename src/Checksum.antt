-- ===== src/Checksum.antt =====
-- src/lzo_util.c and src/lzo_crc.c: what the two checksums share, and lzo_crc32.
pub mod Unrolled
