-- ===== src/Lzopack/Main.antt =====
-- examples/lzopack.c: main, from the options to the files. A string is the list of its characters. `open_file`
-- gives the contents of the files that can be opened and are regular, and different names are different
-- files; output files can be opened and closed.
pub mod RoundTrip
pub mod Whole
use lzo.Base.{ℕ, ◌*◌, Bool, true, false, ◌&&◌, leb, ◌==◌}
use lzo.Base.{if◌then◌else◌, Option, none, some, List, [], ◌∷◌}
use lzo.Frag.CommandLine.Text.{Chars, same, strtol}
use lzo.Lzopack.State.{Files, End, value, err, exits, undefined}
use lzo.Lzopack.{do_compress, do_decompress}

pub record PackOptions : Type 0 where
  pub opt_decompress : Bool
  pub opt_test : Bool
  pub opt_compression_level : ℕ
  pub opt_block_size : ℕ

abbrev pub default_options : PackOptions
default_options = record {
  opt_decompress = false;
  opt_test = false;
  opt_compression_level = 1;
  opt_block_size = 256 * 1024;
}

abbrev pub minus_d : Chars
minus_d = 45 ∷ 100 ∷ []

abbrev pub minus_t : Chars
minus_t = 45 ∷ 116 ∷ []

abbrev pub minus_9 : Chars
minus_9 = 45 ∷ 57 ∷ []

abbrev pub minus_debug : Chars
minus_debug = 45 ∷ 45 ∷ 100 ∷ 101 ∷ 98 ∷ 117 ∷ 103 ∷ []

-- `-b`, with the characters behind it: `atol`, and the test of the size.
unfoldable pub take_block_size : PackOptions → Chars → Option PackOptions
take_block_size o s =
    let (minus, (b, end)) = strtol s in
    if minus
    then none
    else if leb 1024 b && leb b (8 * 1024 * 1024)
    then some (record o { opt_block_size = b })
    else none

-- `--debug`, and what is none of the options.
abbrev pub other_option : PackOptions → Chars → Option PackOptions
other_option o s = if same s minus_debug then some o else none

abbrev pub long_option : PackOptions → Chars → Option PackOptions
long_option o [] = none
long_option o (c ∷ []) = other_option o (c ∷ [])
long_option o (c ∷ d ∷ []) = other_option o (c ∷ d ∷ [])
long_option o (c ∷ d ∷ e ∷ s) =
    if d == 98 then take_block_size o (e ∷ s) else other_option o (c ∷ d ∷ e ∷ s)

-- One option; `none` is a call of `usage`.
unfoldable pub one_option : PackOptions → Chars → Option PackOptions
one_option o s =
    if same s minus_d
    then some (record o { opt_decompress = true })
    else if same s minus_t
    then some (record o { opt_test = true })
    else if same s minus_9
    then some (record o { opt_compression_level = 9 })
    else long_option o s

abbrev pub is_option : Chars → Bool
is_option [] = false
is_option (c ∷ s) = c == 45

-- The options, and the arguments that follow them.
unfoldable pub take_options : PackOptions → List Chars → Option (PackOptions × List Chars)
take_options o [] = some (o, [])
take_options o (s ∷ args) =
    if is_option s
    then elim (one_option o s) [ none ↦ none | some o' ↦ take_options o' args ]
    else some (o, s ∷ args)

-- What main goes on to do.
pub data PackJob : Type 0 where
  test_files : List Chars → PackJob
  decompress_to compress_to : PackOptions → Chars → Chars → PackJob

abbrev pub with_two :
    (PackOptions → Chars → Chars → PackJob) → PackOptions → List Chars → Option PackJob
with_two f o [] = none
with_two f o (x ∷ []) = none
with_two f o (x ∷ y ∷ []) = some (f o x y)
with_two f o (x ∷ y ∷ z ∷ more) = none

abbrev pub with_some : List Chars → Option PackJob
with_some [] = none
with_some (x ∷ names) = some (test_files (x ∷ names))

unfoldable pub job_of : PackOptions × List Chars → Option PackJob
job_of (o, args) =
    if o.opt_test
    then with_some args
    else with_two (if o.opt_decompress then decompress_to else compress_to) o args

unfoldable pub job : List Chars → Option PackJob
job args = elim (take_options default_options args) [ none ↦ none | some r ↦ job_of r ]

module _ (addr : ℕ) (compress_999 : List ℕ → ℕ × List ℕ) (open_file : Chars → Option (List ℕ)) where
  -- `while (i < argc && r == 0)`
  unfoldable pub run_tests : List Chars → End (Unit {0})
  run_tests [] = value tt
  run_tests (name ∷ names) = elim (open_file name) [
    | none ↦ exits
    | some fi ↦
        elim (do_decompress (record { fi = fi; fo = none; total_in = 0; total_out = 0 })).0 [
          | value u ↦ run_tests names
          | err r ↦ err r
          | exits ↦ exits
          | undefined ↦ undefined
        ]
  ]

  -- The value of `r`, and the output file.
  abbrev pub finished : End (Unit {0}) × Files → End (Unit {0}) × Option (List ℕ)
  finished (e, s) = (e, s.fo)

  -- What is left to read when xopen_fo has opened the output, which empties a file of that name.
  abbrev pub left_to_read : Chars → Chars → List ℕ → List ℕ
  left_to_read in_name out_name contents = if same in_name out_name then [] else contents

  unfoldable pub run_job : PackJob → End (Unit {0}) × Option (List ℕ)
  run_job (test_files names) = (run_tests names, none)
  run_job (decompress_to o in_name out_name) = elim (open_file in_name) [
    | none ↦ (exits, none)
    | some fi ↦
        let fi' = left_to_read in_name out_name fi in
        finished (do_decompress (record { fi = fi'; fo = some []; total_in = 0; total_out = 0 }))
  ]
  run_job (compress_to o in_name out_name) = elim (open_file in_name) [
    | none ↦ (exits, none)
    | some fi ↦
        let fi' = left_to_read in_name out_name fi in
        finished (
          do_compress addr compress_999 o.opt_compression_level o.opt_block_size
            (record { fi = fi'; fo = some []; total_in = 0; total_out = 0 }))
  ]

  unfoldable pub main : List Chars → End (Unit {0}) × Option (List ℕ)
  main args = elim (job args) [ none ↦ (exits, none) | some j ↦ run_job j ]
