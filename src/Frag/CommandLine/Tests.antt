-- ===== src/Frag/CommandLine/Tests.antt =====
-- lzo_cpu/lzo_frag.c: command lines, and the theorems about them at concrete ones.
use lzo.Base.{List, none, ◌&&◌, ◌≡◌, refl, arith, true, false, some, [], ◌∷◌, ◌++◌}
use lzo.Frag.{alg_1x, alg_1k}
use lzo.Frag.CommandLine.Text.{
  Chars, alg_from_spec, allowed, parse_int, strtol, digits, skip_space, label_1k, label_1x,
}
use lzo.Frag.CommandLine.Arg
use lzo.Frag.CommandLine.Parse.{
  Options, defaults, parsed, parse_args, one_arg, take_threads, take_label,
}
use lzo.Frag.CommandLine.Command.{
  compresses, decompresses, ends, command, command_line, default_output, lzo_suffix,
}
use lzo.Frag.CommandLine.Accepted.{
  Accepted, CommandIsValid, parse_args-Accepted, command_line-CommandIsValid,
}
use lzo.Frag.CommandLine.Items.{asks_decompress, last_label, not_none}
use lzo.Frag.CommandLine.Names.{default_output-default_output}

-- "ab", " 12" and "12x"
abbrev ab : Chars
ab = 97 ∷ 98 ∷ []

abbrev twelve : Chars
twelve = 32 ∷ 49 ∷ 50 ∷ []

abbrev twelve_x : Chars
twelve_x = 49 ∷ 50 ∷ 120 ∷ []

command_lines :
    (command_line (ab ∷ []) ≡ compresses ab (ab ++ lzo_suffix) alg_1x 1)
    × (command_line (Arg.t ∷ twelve ∷ Arg.upper_l ∷ label_1k ∷ ab ∷ Arg.minus ∷ [])
        ≡ compresses ab Arg.minus alg_1k 12)
    × (command_line (Arg.d ∷ (ab ++ lzo_suffix) ∷ []) ≡ decompresses (ab ++ lzo_suffix) ab 1)
    × (command_line (Arg.t ∷ twelve_x ∷ ab ∷ []) ≡ ends 1)
    × (command_line (ab ∷ Arg.upper_l ∷ label_1k ∷ Arg.d ∷ []) ≡ ends 1)
    × (command_line (ab ∷ Arg.d ∷ Arg.upper_l ∷ label_1k ∷ []) ≡ ends 1)
    × (command_line (ab ∷ Arg.h ∷ []) ≡ ends 0)
unfolding command parse_args one_arg take_threads take_label default_output parse_int strtol digits
    skip_space allowed alg_from_spec
command_lines = (refl, refl, refl, refl, refl, refl, refl)

-- The label "1x" has an algorithm, but is not one that `-L` accepts.
label_1x_refused :
    (alg_from_spec label_1x ≡ alg_1x) × (command_line (Arg.upper_l ∷ label_1x ∷ ab ∷ []) ≡ ends 1)
unfolding command parse_args one_arg take_label allowed alg_from_spec
label_1x_refused = (refl, refl)

abbrev with_label : Options
with_label = record defaults { kernel_spec = some label_1k; g_alg = alg_1k; input = some ab }

parses : parse_args (Arg.upper_l ∷ label_1k ∷ ab ∷ []) defaults ≡ parsed with_label
unfolding parse_args one_arg take_label allowed alg_from_spec
parses = refl

abbrev label_line : List Chars
label_line = Arg.upper_l ∷ label_1k ∷ ab ∷ []

parse_args-Accepted_example :
    Accepted with_label
    × (with_label.mode_decompress ≡ asks_decompress label_line)
    × (with_label.kernel_spec ≡ last_label none label_line)
    × ((asks_decompress label_line && not_none (last_label none label_line)) ≡ false)
parse_args-Accepted_example = parse_args-Accepted label_line with_label parses

-- The value of `-t` is no option, and the last label counts.
items :
    (asks_decompress (Arg.t ∷ Arg.d ∷ []) ≡ false)
    × (asks_decompress (ab ∷ Arg.d ∷ []) ≡ true)
    × (last_label none (Arg.upper_l ∷ ab ∷ Arg.upper_l ∷ label_1k ∷ []) ≡ some label_1k)
unfolding asks_decompress last_label
items = (refl, refl, refl)

command_line-CommandIsValid_example : CommandIsValid (command_line (Arg.d ∷ ab ∷ []))
command_line-CommandIsValid_example = command_line-CommandIsValid (Arg.d ∷ ab ∷ [])

default_output-default_output_example : default_output true (default_output false ab) ≡ ab
default_output-default_output_example = default_output-default_output ab (omega arith)
