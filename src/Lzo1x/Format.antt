-- ===== src/Lzo1x/Format.antt =====
-- src/config1x.h and src/config1y.h: the constants of the two formats.
use lzo.Base.{ℕ}

-- The two formats that lzo1x_d.ch and lzo1x_c.ch are compiled for here.
pub data Variant : Type 0 where
  lzo1x lzo1y : Variant

-- M2_MAX_OFFSET and M2_MAX_LEN.
abbrev pub m2_max_offset : Variant → ℕ
m2_max_offset lzo1x = 0x0800
m2_max_offset lzo1y = 0x0400

abbrev pub m2_max_len : Variant → ℕ
m2_max_len lzo1x = 8
m2_max_len lzo1y = 14

abbrev pub m3_max_offset : ℕ
m3_max_offset = 0x4000

abbrev pub m3_max_len : ℕ
m3_max_len = 33

abbrev pub m4_max_len : ℕ
m4_max_len = 9

abbrev pub m3_marker : ℕ
m3_marker = 32

abbrev pub m4_marker : ℕ
m4_marker = 16
