-- ===== src/Frag/CommandLine/Accepted.antt =====
-- lzo_cpu/lzo_frag.c: what holds of the options that `main` accepts.
use lzo.Base.{◌≤◌, ◌<◌, ◌≡◌, refl, arith}
use lzo.Base.{Bool, true, false, ◌&&◌, ◌||◌, ◌==◌, Bool-cases, inl, inr}
use lzo.Base.{if◌then◌else◌, Option, none, some, List, [], ◌∷◌}
use mathlib.Core.Path.{subst}
use lzo.Frag.{Alg}
use lzo.Frag.CommandLine.Items.{Turn-cases, asks_decompress, last_label, not_none, parse_args-reads}
use lzo.Frag.CommandLine.Text.{Chars, same, allowed, parse_int, int_max}
use lzo.Frag.CommandLine.Arg
use lzo.Frag.CommandLine.Parse.{
  Options, defaults, Turn, goes_on, exits, takes_threads, takes_label, first, positional, is_none,
  one_arg, take_threads, take_label, Parsed, parsed, stopped, parse_args,
}
use lzo.Frag.CommandLine.Command.{Command, compresses, decompresses, ends, command, command_line}
use lzo.Frag.CommandLine.Labels.{
  IsAlg, Labelled, allowed-IsAlg, Option-cases, unlabelled, parse_int-bounds, final_alg-IsAlg,
}

-- A number of threads that a positive `int` holds, and a label that fits the mode.
abbrev pub Accepted : Options → Type 0
Accepted o =
    (0 < o.threads) × (o.threads ≤ int_max) × Labelled o.mode_decompress o.kernel_spec o.g_alg

AcceptedTurn : Turn → Type 0
AcceptedTurn (goes_on o) = Accepted o
AcceptedTurn (exits code) = code ≤ 1
AcceptedTurn takes_threads = Unit
AcceptedTurn takes_label = Unit

AcceptedOption : Option Options → Type 0
AcceptedOption none = Unit
AcceptedOption (some o) = Accepted o

AcceptedParsed : Parsed → Type 0
AcceptedParsed (parsed o) = Accepted o
AcceptedParsed (stopped code) = code ≤ 1

positional-Accepted : (arg : Chars) (o : Options) → Accepted o → AcceptedTurn (positional arg o)
unfolding AcceptedTurn
positional-Accepted arg o h = elim (Bool-cases (is_none o.input)) [
  | inl t ↦ rw t h
  | inr f ↦ elim (Bool-cases (is_none o.output)) [
    | inl t ↦ rw (f, t) h
    | inr g ↦ rw (f, g) (omega arith)
  ]
]

-- `-d` is refused behind a label.
decompress-Accepted :
    (o : Options)
    → Accepted o
    → AcceptedTurn
        (if is_none o.kernel_spec then goes_on (record o { mode_decompress = true }) else exits 1)
unfolding AcceptedTurn
decompress-Accepted o h = elim (Bool-cases (is_none o.kernel_spec)) [
  | inl t ↦ rw t (h.0, h.1, unlabelled o.mode_decompress o.kernel_spec o.g_alg h.2 t)
  | inr f ↦ rw f (omega arith)
]

one_arg-Accepted : (arg : Chars) (o : Options) → Accepted o → AcceptedTurn (one_arg arg o)
unfolding one_arg AcceptedTurn
one_arg-Accepted arg o h =
    by_tests (same arg Arg.d) (same arg Arg.v || same arg Arg.verbose)
      (same arg Arg.bench || same arg Arg.upper_b) (same arg Arg.t || same arg Arg.threads)
      (same arg Arg.benchmark || same arg Arg.b) (same arg Arg.verify) (same arg Arg.upper_l)
      (same arg Arg.h || same arg Arg.help)
      (first arg == 45 && (if same arg Arg.minus then false else true))
  where
    by_tests :
        (t0 t1 t2 t3 t4 t5 t6 t7 t8 : Bool)
        → AcceptedTurn (
            if t0
            then if is_none o.kernel_spec
              then goes_on (record o { mode_decompress = true })
              else exits 1
            else if t1
            then goes_on (record o { verbose = true })
            else if t2
            then goes_on (record o { bench_mode = true })
            else if t3
            then takes_threads
            else if t4
            then goes_on (record o { do_bench = true })
            else if t5
            then goes_on (record o { verify_only = true })
            else if t6
            then takes_label
            else if t7
            then exits 0
            else if t8
            then exits 1
            else positional arg o)
    by_tests true t1 t2 t3 t4 t5 t6 t7 t8 = decompress-Accepted o h
    by_tests false true t2 t3 t4 t5 t6 t7 t8 = h
    by_tests false false true t3 t4 t5 t6 t7 t8 = h
    by_tests false false false true t4 t5 t6 t7 t8 = tt
    by_tests false false false false true t5 t6 t7 t8 = h
    by_tests false false false false false true t6 t7 t8 = h
    by_tests false false false false false false true t7 t8 = tt
    by_tests false false false false false false false true t8 = omega arith
    by_tests false false false false false false false false true = omega arith
    by_tests false false false false false false false false false = positional-Accepted arg o h

take_threads-Accepted :
    (o : Options) (arg : Chars) → Accepted o → AcceptedOption (take_threads o arg)
unfolding AcceptedOption take_threads
take_threads-Accepted o arg h = elim (Option-cases (parse_int arg)) [
  | inl e ↦ rw (e, AcceptedOption, take_threads) tt
  | inr (n, e) ↦
      let (some_thread, few_threads) = parse_int-bounds arg n e in
      rw (e, AcceptedOption, take_threads) (some_thread, few_threads, h.2)
]

take_label-Accepted : (o : Options) (arg : Chars) → Accepted o → AcceptedOption (take_label o arg)
unfolding AcceptedOption Labelled take_label
take_label-Accepted o arg h = elim (Bool-cases o.mode_decompress) [
  | inl t ↦ rw t tt
  | inr f ↦ elim (Bool-cases (allowed arg)) [
    | inl t ↦ rw (f, t) (h.0, h.1, (refl, refl, allowed-IsAlg arg t))
    | inr g ↦ rw (f, g) tt
  ]
]

-- The loop keeps what holds of the options.
parse_args-AcceptedParsed :
    (args : List Chars) (o : Options) → Accepted o → AcceptedParsed (parse_args args o)
unfolding AcceptedParsed AcceptedTurn AcceptedOption parse_args
parse_args-AcceptedParsed [] o h = h
parse_args-AcceptedParsed (arg ∷ []) o h = elim (Turn-cases (one_arg arg o)) [
  | inl (o', e) ↦
      rw (e, AcceptedParsed, parse_args) (subst AcceptedTurn e (one_arg-Accepted arg o h))
  | inr (inl (code, e)) ↦
      rw (e, AcceptedParsed, parse_args) (subst AcceptedTurn e (one_arg-Accepted arg o h))
  | inr (inr (inl e)) ↦ rw (e, AcceptedParsed, parse_args) (omega arith)
  | inr (inr (inr e)) ↦ rw (e, AcceptedParsed, parse_args) (omega arith)
]
parse_args-AcceptedParsed (arg ∷ next ∷ args) o h = elim (Turn-cases (one_arg arg o)) [
  | inl (o', e) ↦
      rw (e, AcceptedParsed, parse_args)
        (parse_args-AcceptedParsed (next ∷ args) o'
          (subst AcceptedTurn e (one_arg-Accepted arg o h)))
  | inr (inl (code, e)) ↦
      rw (e, AcceptedParsed, parse_args) (subst AcceptedTurn e (one_arg-Accepted arg o h))
  | inr (inr (inl e)) ↦ elim (Option-cases (take_threads o next)) [
    | inl f ↦ rw (e, f, AcceptedParsed, parse_args) (omega arith)
    | inr (o', f) ↦
        rw (e, f, AcceptedParsed, parse_args)
          (parse_args-AcceptedParsed args o'
            (subst AcceptedOption f (take_threads-Accepted o next h)))
  ]
  | inr (inr (inr e)) ↦ elim (Option-cases (take_label o next)) [
    | inl f ↦ rw (e, f, AcceptedParsed, parse_args) (omega arith)
    | inr (o', f) ↦
        rw (e, f, AcceptedParsed, parse_args)
          (parse_args-AcceptedParsed args o'
            (subst AcceptedOption f (take_label-Accepted o next h)))
  ]
]

-- Where `main` accepts its arguments, it decompresses exactly when `-d` is among those that are not the
-- value of `-t` or `-L`, and its label is the value of the last `-L`, if there is one; they are not both
-- there, in either order. The algorithm is the one that the label names, which is never ALG_NONE, and
-- ALG_NONE where there is no label, and the number of threads is a positive `int`.
pub parse_args-Accepted :
    (args : List Chars) (o : Options)
    → parse_args args defaults ≡ parsed o
    → Accepted o
      × (o.mode_decompress ≡ asks_decompress args)
      × (o.kernel_spec ≡ last_label none args)
      × ((asks_decompress args && not_none (last_label none args)) ≡ false)
unfolding AcceptedParsed Labelled
parse_args-Accepted args o e =
    let a =
      subst AcceptedParsed e
        (parse_args-AcceptedParsed args defaults (omega arith, omega arith, refl)) in
    let (m, l) = parse_args-reads args defaults o e in
    let mode : o.mode_decompress ≡ asks_decompress args = ground (arith, m) in
    (a, mode, l, rw (← mode, ← l) (never_both o.mode_decompress o.kernel_spec o.g_alg a.2))
  where
    never_both :
        (m : Bool) (spec : Option Chars) (alg : Alg)
        → Labelled m spec alg
        → (m && not_none spec) ≡ false
    never_both m none alg h = ground arith
    never_both m (some s) alg h = unfold Labelled in rw h.0 refl

pub CommandIsValid : Command → Type 0
CommandIsValid (compresses input output alg threads) =
    IsAlg alg × (0 < threads) × (threads ≤ int_max)
CommandIsValid (decompresses input output threads) = (0 < threads) × (threads ≤ int_max)
CommandIsValid (ends code) = code ≤ 1

-- Whatever the arguments are, `main` ends with the code 0 or 1, or it calls compress_file with an
-- algorithm that is not ALG_NONE, so that no level is ever looked at, or decompress_file, and either
-- with a number of threads from 1 to INT_MAX.
pub command_line-CommandIsValid : (args : List Chars) → CommandIsValid (command_line args)
unfolding CommandIsValid command AcceptedParsed Labelled
command_line-CommandIsValid args = by_parsed (parse_args args defaults) refl
  where
    by_parsed : (p : Parsed) → parse_args args defaults ≡ p → CommandIsValid (command p)
    by_parsed (stopped code) e =
        subst AcceptedParsed e
          (parse_args-AcceptedParsed args defaults (omega arith, omega arith, refl))
    by_parsed (parsed o) e =
        let a = (parse_args-Accepted args o e).0 in
        elim (Option-cases o.input) [
          | inl none_given ↦ rw (none_given, CommandIsValid, command) (omega arith)
          | inr (input, given) ↦ elim (Bool-cases o.mode_decompress) [
            | inl t ↦ rw (given, t, CommandIsValid, command) (a.0, a.1)
            | inr f ↦
                let i =
                  final_alg-IsAlg o.kernel_spec o.g_alg
                    (subst (λ m. Labelled m o.kernel_spec o.g_alg) f a.2) in
                rw (given, f, CommandIsValid, command) (i, a.0, a.1)
          ]
        ]
