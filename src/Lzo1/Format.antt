-- ===== src/Lzo1/Format.antt =====
-- src/lzo1.c: the constants of the format for RBITS 5.
use lzo.Base.{ℕ, ◌+◌, ◌-◌, ◌^◌}

abbrev pub rbits : ℕ
rbits = 5

abbrev pub rsize : ℕ
rsize = 2 ^ rbits

abbrev pub obits : ℕ
obits = rbits

abbrev pub osize : ℕ
osize = 2 ^ obits

abbrev pub mbits : ℕ
mbits = 8 - obits

abbrev pub msize : ℕ
msize = 2 ^ mbits

abbrev pub min_match : ℕ
min_match = 3

abbrev pub threshold : ℕ
threshold = min_match - 1

abbrev pub max_match_short : ℕ
max_match_short = threshold + (msize - 2)

abbrev pub min_match_long : ℕ
min_match_long = max_match_short + 1

abbrev pub max_match_long : ℕ
max_match_long = min_match_long + 255

abbrev pub max_offset : ℕ
max_offset = 2 ^ (8 + obits)

abbrev pub r0min : ℕ
r0min = rsize

abbrev pub r0max : ℕ
r0max = r0min + 255

-- `R0MAX & ~7u`
abbrev pub r0fast : ℕ
r0fast = r0max - 7
