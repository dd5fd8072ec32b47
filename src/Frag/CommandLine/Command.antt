-- ===== src/Frag/CommandLine/Command.antt =====
-- lzo_cpu/lzo_frag.c: `main` behind the loop, up to the call of compress_file or decompress_file.
use lzo.Base.{ℕ, ◌-◌, Bool, ◌&&◌, ltb}
use lzo.Base.{if◌then◌else◌, none, some, List, [], ◌∷◌, ◌++◌, length, take, drop}
use lzo.Frag.{Alg}
use lzo.Frag.CommandLine.Text.{Chars, same, alg_from_spec, label_1}
use lzo.Frag.CommandLine.Arg
use lzo.Frag.CommandLine.Parse.{Options, Parsed, parsed, stopped, parse_args, defaults}

abbrev pub lzo_suffix : Chars
lzo_suffix = 46 ∷ 108 ∷ 122 ∷ 111 ∷ []

-- "decompressed_"
abbrev pub decompressed_prefix : Chars
decompressed_prefix = 100 ∷ 101 ∷ 99 ∷ 111 ∷ 109 ∷ 112 ∷ 114 ∷ 101 ∷ 115 ∷ 115 ∷ 101 ∷ 100 ∷ 95 ∷ []

-- The output where none is given.
unfoldable pub default_output : Bool → Chars → Chars
default_output mode_decompress input =
    if same input Arg.minus
    then Arg.minus
    else if mode_decompress
    then if ltb 4 (length input) && same (drop (length input - 4) input) lzo_suffix
      then take (length input - 4) input
      else decompressed_prefix ++ input
    else input ++ lzo_suffix

-- What `main` calls in the end: the file names, the algorithm in `g_alg`, and the number of threads.
pub data Command : Type 0 where
  compresses : Chars → Chars → Alg → ℕ → Command
  decompresses : Chars → Chars → ℕ → Command
  ends : ℕ → Command

abbrev pub named_output : Options → Chars → Chars
named_output o input = elim o.output [
  | none ↦ default_output o.mode_decompress input
  | some output ↦ output
]

-- `g_alg` after the default label for compression
abbrev pub final_alg : Options → Alg
final_alg o = elim o.kernel_spec [
  | none ↦ if o.mode_decompress then o.g_alg else alg_from_spec label_1
  | some spec ↦ alg_from_spec spec
]

unfoldable pub command : Parsed → Command
command (stopped code) = ends code
command (parsed o) = elim o.input [
  | none ↦ ends 1
  | some input ↦
      if o.mode_decompress
      then decompresses input (named_output o input) o.threads
      else compresses input (named_output o input) (final_alg o) o.threads
]

abbrev pub command_line : List Chars → Command
command_line args = command (parse_args args defaults)
