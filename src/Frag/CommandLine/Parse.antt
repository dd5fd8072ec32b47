-- ===== src/Frag/CommandLine/Parse.antt =====
-- lzo_cpu/lzo_frag.c: the loop of `main` over its arguments. Messages are left out.
use lzo.Base.{ℕ, Bool, true, false, ◌&&◌, ◌||◌, ◌==◌}
use lzo.Base.{if◌then◌else◌, Option, none, some, List, [], ◌∷◌}
use lzo.Frag.{Alg, alg_none}
use lzo.Frag.CommandLine.Text.{Chars, same, alg_from_spec, allowed, parse_int}
use lzo.Frag.CommandLine.Arg

-- The variables of `main`, with `g_alg`.
pub record Options : Type 0 where
  pub mode_decompress : Bool
  pub bench_mode : Bool
  pub do_bench : Bool
  pub verbose : Bool
  pub verify_only : Bool
  pub threads : ℕ
  pub kernel_spec : Option Chars
  pub g_alg : Alg
  pub input : Option Chars
  pub output : Option Chars

abbrev pub defaults : Options
defaults = record {
  mode_decompress = false;
  bench_mode = false;
  do_bench = false;
  verbose = false;
  verify_only = false;
  threads = 1;
  kernel_spec = none;
  g_alg = alg_none;
  input = none;
  output = none;
}

-- What an argument leads to: the next one, an exit with a code, or a look at the argument behind it.
pub data Turn : Type 0 where
  goes_on : Options → Turn
  exits : ℕ → Turn
  takes_threads takes_label : Turn

abbrev pub is_none {ℓ} : {A : Type ℓ} → Option A → Bool
is_none none = true
is_none (some a) = false

-- The first character, 0 at the end of a string.
abbrev pub first : Chars → ℕ
first [] = 0
first (c ∷ s) = c

abbrev pub positional : Chars → Options → Turn
positional arg o =
    if is_none o.input
    then goes_on (record o { input = some arg })
    else if is_none o.output
    then goes_on (record o { output = some arg })
    else exits 1

unfoldable pub one_arg : Chars → Options → Turn
one_arg arg o =
    if same arg Arg.d
    then if is_none o.kernel_spec then goes_on (record o { mode_decompress = true }) else exits 1
    else if same arg Arg.v || same arg Arg.verbose
    then goes_on (record o { verbose = true })
    else if same arg Arg.bench || same arg Arg.upper_b
    then goes_on (record o { bench_mode = true })
    else if same arg Arg.t || same arg Arg.threads
    then takes_threads
    else if same arg Arg.benchmark || same arg Arg.b
    then goes_on (record o { do_bench = true })
    else if same arg Arg.verify
    then goes_on (record o { verify_only = true })
    else if same arg Arg.upper_l
    then takes_label
    else if same arg Arg.h || same arg Arg.help
    then exits 0
    else if first arg == 45 && (if same arg Arg.minus then false else true)
    then exits 1
    else positional arg o

-- The argument behind `-t` and behind `-L`; `none` is an exit with code 1.
unfoldable pub take_threads : Options → Chars → Option Options
take_threads o arg = elim (parse_int arg) [ none ↦ none | some n ↦ some (record o { threads = n }) ]

unfoldable pub take_label : Options → Chars → Option Options
take_label o arg =
    if o.mode_decompress
    then none
    else if allowed arg
    then some (record o { kernel_spec = some arg; g_alg = alg_from_spec arg })
    else none

pub data Parsed : Type 0 where
  parsed : Options → Parsed
  stopped : ℕ → Parsed

-- The loop of `main` over the arguments that are left.
unfoldable pub parse_args : List Chars → Options → Parsed
parse_args [] o = parsed o
parse_args (arg ∷ []) o = elim (one_arg arg o) [
  | goes_on o' ↦ parsed o'
  | exits code ↦ stopped code
  | takes_threads ↦ stopped 1
  | takes_label ↦ stopped 1
]
parse_args (arg ∷ next ∷ args) o = elim (one_arg arg o) [
  | goes_on o' ↦ parse_args (next ∷ args) o'
  | exits code ↦ stopped code
  | takes_threads ↦ elim (take_threads o next) [ none ↦ stopped 1 | some o' ↦ parse_args args o' ]
  | takes_label ↦ elim (take_label o next) [ none ↦ stopped 1 | some o' ↦ parse_args args o' ]
]
