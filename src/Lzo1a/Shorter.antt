-- ===== src/Lzo1a/Shorter.antt =====
-- src/lzo1a.c against src/lzo1.c: both compressors take the same matches, and differ in how they write the
-- literals in front of them.
pub mod Literals
pub mod Whole
