-- ===== src/Frag/CommandLine/Items.antt =====
-- lzo_cpu/lzo_frag.c: what the arguments say of the mode and of the label, described without the loop's
-- variables, and that the loop of `main` takes them so.
use lzo.Base.{ℕ, ◌≡◌, refl, sym, ap, ◌∙◌}
use mathlib.Core.Option.{some-injective, none-ne-some}
use lzo.Base.{Bool, true, false, ◌&&◌, ◌||◌, ◌==◌, Bool-cases, inl, inr, ◌⊎◌}
use lzo.Base.{if◌then◌else◌, Option, none, some, List, [], ◌∷◌}
use mathlib.Core.Path.{subst}
use lzo.Frag.CommandLine.Text.{Chars, same, allowed, parse_int, alg_from_spec}
use lzo.Frag.CommandLine.Arg
use lzo.Frag.CommandLine.Parse.{
  Options, Turn, goes_on, exits, takes_threads, takes_label, first, positional, is_none, one_arg,
  take_threads, take_label, Parsed, parsed, stopped, parse_args,
}
use lzo.Frag.CommandLine.Labels.{Option-cases}
use lzo.Frag.CommandLine.Names.{eq_of_same}

-- What an argument is: `-d`, an option that takes the argument behind it, or something else.
pub data Kind : Type 0 where
  mode_flag threads_option label_option other : Kind

abbrev pub kind : Chars → Kind
kind arg =
    if same arg Arg.d
    then mode_flag
    else if same arg Arg.t || same arg Arg.threads
    then threads_option
    else if same arg Arg.upper_l
    then label_option
    else other

-- Whether `-d` is among the arguments that are not the value of another.
unfoldable pub asks_decompress : List Chars → Bool
asks_decompress [] = false
asks_decompress (arg ∷ []) = same arg Arg.d
asks_decompress (arg ∷ next ∷ args) = elim (kind arg) [
  | mode_flag ↦ true
  | threads_option ↦ asks_decompress args
  | label_option ↦ asks_decompress args
  | other ↦ asks_decompress (next ∷ args)
]

-- The value of the last `-L`, and `spec` where there is none.
unfoldable pub last_label : Option Chars → List Chars → Option Chars
last_label spec [] = spec
last_label spec (arg ∷ []) = spec
last_label spec (arg ∷ next ∷ args) = elim (kind arg) [
  | mode_flag ↦ last_label spec (next ∷ args)
  | threads_option ↦ last_label spec args
  | label_option ↦ last_label (some next) args
  | other ↦ last_label spec (next ∷ args)
]

-- An argument that is one of two texts of a kind has that kind.
kind_of :
    (a b arg : Chars) (k : Kind)
    → kind a ≡ k
    → kind b ≡ k
    → (same arg a || same arg b) ≡ true
    → kind arg ≡ k
kind_of a b arg k h i e = elim (Bool-cases (same arg a)) [
  | inl t ↦ subst (λ x. kind x ≡ k) (sym (eq_of_same arg a t)) h
  | inr f ↦ subst (λ x. kind x ≡ k) (sym (eq_of_same arg b (rw f at e))) i
]

abbrev flags : Kind → Bool
flags mode_flag = true
flags threads_option = false
flags label_option = false
flags other = false

-- A turn does with the mode and the label what its argument's kind says.
abbrev TurnIs : Kind → Options → Turn → Type 0
TurnIs k o (goes_on o') =
    (o'.mode_decompress ≡ (flags k || o.mode_decompress))
    × (o'.kernel_spec ≡ o.kernel_spec)
    × ((k ≡ mode_flag) ⊎ (k ≡ other))
TurnIs k o (exits code) = Unit
TurnIs k o takes_threads = k ≡ threads_option
TurnIs k o takes_label = k ≡ label_option

positional-TurnIs :
    (arg : Chars) (o : Options) (k : Kind) → k ≡ other → TurnIs k o (positional arg o)
positional-TurnIs arg o k e = elim (Bool-cases (is_none o.input)) [
  | inl t ↦ rw t (rw e refl, refl, inr e)
  | inr f ↦ rw f (elim (Bool-cases (is_none o.output)) [
    | inl t ↦ rw t (rw e refl, refl, inr e)
    | inr g ↦ rw g tt
  ])
]

one_arg-TurnIs : (arg : Chars) (o : Options) → TurnIs (kind arg) o (one_arg arg o)
unfolding one_arg
one_arg-TurnIs arg o =
    by_tests (same arg Arg.d) (same arg Arg.v || same arg Arg.verbose)
      (same arg Arg.bench || same arg Arg.upper_b) (same arg Arg.t || same arg Arg.threads)
      (same arg Arg.benchmark || same arg Arg.b) (same arg Arg.verify) (same arg Arg.upper_l)
      (same arg Arg.h || same arg Arg.help)
      (first arg == 45 && (if same arg Arg.minus then false else true)) (kind arg) (λ e. rw e refl)
      (kind_of Arg.v Arg.verbose arg other refl refl)
      (kind_of Arg.bench Arg.upper_b arg other refl refl)
      (kind_of Arg.t Arg.threads arg threads_option refl refl)
      (kind_of Arg.benchmark Arg.b arg other refl refl)
      (λ e. subst (λ x. kind x ≡ other) (sym (eq_of_same arg Arg.verify e)) refl)
      (λ e. subst (λ x. kind x ≡ label_option) (sym (eq_of_same arg Arg.upper_l e)) refl)
      (λ e f g. rw (e, f, g) refl)
  where
    by_tests :
        (t0 t1 t2 t3 t4 t5 t6 t7 t8 : Bool) (k : Kind)
        → (t0 ≡ true → k ≡ mode_flag)
        → (t1 ≡ true → k ≡ other)
        → (t2 ≡ true → k ≡ other)
        → (t3 ≡ true → k ≡ threads_option)
        → (t4 ≡ true → k ≡ other)
        → (t5 ≡ true → k ≡ other)
        → (t6 ≡ true → k ≡ label_option)
        → (t0 ≡ false → t3 ≡ false → t6 ≡ false → k ≡ other)
        → TurnIs k o (
            if t0
            then if is_none o.kernel_spec
              then goes_on (record o { mode_decompress = true })
              else exits 1
            else if t1
            then goes_on (record o { verbose = true })
            else if t2
            then goes_on (record o { bench_mode = true })
            else if t3
            then takes_threads
            else if t4
            then goes_on (record o { do_bench = true })
            else if t5
            then goes_on (record o { verify_only = true })
            else if t6
            then takes_label
            else if t7
            then exits 0
            else if t8
            then exits 1
            else positional arg o)
    by_tests true t1 t2 t3 t4 t5 t6 t7 t8 k a b c d e f g h =
        elim (Bool-cases (is_none o.kernel_spec)) [
          | inl u ↦ rw u (rw (a refl) refl, refl, inl (a refl))
          | inr u ↦ rw u tt
        ]
    by_tests false true t2 t3 t4 t5 t6 t7 t8 k a b c d e f g h =
        (rw (b refl) refl, refl, inr (b refl))
    by_tests false false true t3 t4 t5 t6 t7 t8 k a b c d e f g h =
        (rw (c refl) refl, refl, inr (c refl))
    by_tests false false false true t4 t5 t6 t7 t8 k a b c d e f g h = d refl
    by_tests false false false false true t5 t6 t7 t8 k a b c d e f g h =
        (rw (e refl) refl, refl, inr (e refl))
    by_tests false false false false false true t6 t7 t8 k a b c d e f g h =
        (rw (f refl) refl, refl, inr (f refl))
    by_tests false false false false false false true t7 t8 k a b c d e f g h = g refl
    by_tests false false false false false false false true t8 k a b c d e f g h = tt
    by_tests false false false false false false false false true k a b c d e f g h = tt
    by_tests false false false false false false false false false k a b c d e f g h =
        positional-TurnIs arg o k (h refl refl refl)

pub Turn-cases :
    (t : Turn)
    → ((o : Options) × (t ≡ goes_on o))
      ⊎ (((code : ℕ) × (t ≡ exits code)) ⊎ ((t ≡ takes_threads) ⊎ (t ≡ takes_label)))
Turn-cases (goes_on o) = inl (o, refl)
Turn-cases (exits code) = inr (inl (code, refl))
Turn-cases takes_threads = inr (inr (inl refl))
Turn-cases takes_label = inr (inr (inr refl))

-- What the loop returns, against the arguments it began with.
abbrev Reads : List Chars → Options → Parsed → Type 0
Reads args o (parsed o') =
    (o'.mode_decompress ≡ (asks_decompress args || o.mode_decompress))
    × (o'.kernel_spec ≡ last_label o.kernel_spec args)
Reads args o (stopped code) = Unit

flags-kind : (arg : Chars) → flags (kind arg) ≡ same arg Arg.d
flags-kind arg = elim (Bool-cases (same arg Arg.d)) [
  | inl t ↦ rw t refl
  | inr f ↦ rw f (elim (Bool-cases (same arg Arg.t || same arg Arg.threads)) [
    | inl t ↦ rw t refl
    | inr g ↦
        rw g (elim (Bool-cases (same arg Arg.upper_l)) [ inl t ↦ rw t refl | inr i ↦ rw i refl ])
  ])
]

or_true : (a : Bool) → (a || true) ≡ true
or_true true = refl
or_true false = refl

-- The loop goes on behind an argument that takes no other.
Reads-goes_on :
    (arg next : Chars) (args : List Chars) (o o' : Options) (p : Parsed)
    → TurnIs (kind arg) o (goes_on o')
    → Reads (next ∷ args) o' p
    → Reads (arg ∷ next ∷ args) o p
unfolding asks_decompress last_label
Reads-goes_on arg next args o o' (stopped code) t r = tt
Reads-goes_on arg next args o o' (parsed q) (m, l, inl k) (n, i) =
    let here : o'.mode_decompress ≡ true = rw k at m in
    (
      rw (k, asks_decompress) (rw here at n ∙ or_true (asks_decompress (next ∷ args))),
      rw (k, last_label) (rw l at i),
    )
Reads-goes_on arg next args o o' (parsed q) (m, l, inr k) (n, i) =
    let here : o'.mode_decompress ≡ o.mode_decompress = rw k at m in
    (rw (k, asks_decompress) (rw here at n), rw (k, last_label) (rw l at i))

-- The loop goes on behind the value of an option.
Reads-threads :
    (arg next : Chars) (args : List Chars) (o o' : Options) (p : Parsed)
    → kind arg ≡ threads_option
    → take_threads o next ≡ some o'
    → Reads args o' p
    → Reads (arg ∷ next ∷ args) o p
unfolding asks_decompress last_label take_threads
Reads-threads arg next args o o' (stopped code) k e r = tt
Reads-threads arg next args o o' (parsed q) k e (n, i) = elim (Option-cases (parse_int next)) [
  | inl f ↦ absurd (none-ne-some _ (rw (f, take_threads) at e))
  | inr (t, f) ↦
      let same_but : record o { threads = t } ≡ o' =
        some-injective _ _ (rw (f, take_threads) at e) in
      let mode : o'.mode_decompress ≡ o.mode_decompress =
        sym (ap (λ (x : Options). x.mode_decompress) same_but) in
      let spec : o'.kernel_spec ≡ o.kernel_spec =
        sym (ap (λ (x : Options). x.kernel_spec) same_but) in
      (rw (k, asks_decompress) (rw mode at n), rw (k, last_label) (rw spec at i))
]

Reads-label :
    (arg next : Chars) (args : List Chars) (o o' : Options) (p : Parsed)
    → kind arg ≡ label_option
    → take_label o next ≡ some o'
    → Reads args o' p
    → Reads (arg ∷ next ∷ args) o p
unfolding asks_decompress last_label take_label
Reads-label arg next args o o' (stopped code) k e r = tt
Reads-label arg next args o o' (parsed q) k e (n, i) = elim (Bool-cases o.mode_decompress) [
  | inl f ↦ absurd (none-ne-some _ (rw f at e))
  | inr f ↦ elim (Bool-cases (allowed next)) [
    | inr g ↦ absurd (none-ne-some _ (rw (f, g) at e))
    | inl g ↦
        let changed = record o {
          mode_decompress = false;
          kernel_spec = some next;
          g_alg = alg_from_spec next;
        } in
        let same_but : changed ≡ o' = some-injective _ _ (rw (f, g) at e) in
        let mode : o'.mode_decompress ≡ o.mode_decompress =
          sym (ap (λ (x : Options). x.mode_decompress) same_but) ∙ sym f in
        let spec : o'.kernel_spec ≡ some next =
          sym (ap (λ (x : Options). x.kernel_spec) same_but) in
        (rw (k, asks_decompress) (rw mode at n), rw (k, last_label) (rw spec at i))
  ]
]

parse_args-Reads : (args : List Chars) (o : Options) → Reads args o (parse_args args o)
unfolding parse_args
parse_args-Reads [] o = unfold asks_decompress last_label in (refl, refl)
parse_args-Reads (arg ∷ []) o = elim (Turn-cases (one_arg arg o)) [
  | inl (o', e) ↦
      let (m, l, k) = subst (TurnIs (kind arg) o) e (one_arg-TurnIs arg o) in
      rw (e, parse_args) (unfold asks_decompress last_label in (rw (flags-kind arg) at m, l))
  | inr (inl (code, e)) ↦ rw (e, parse_args) tt
  | inr (inr (inl e)) ↦ rw (e, parse_args) tt
  | inr (inr (inr e)) ↦ rw (e, parse_args) tt
]
parse_args-Reads (arg ∷ next ∷ args) o = elim (Turn-cases (one_arg arg o)) [
  | inl (o', e) ↦
      rw (e, parse_args)
        (Reads-goes_on arg next args o o' _ (subst (TurnIs (kind arg) o) e (one_arg-TurnIs arg o))
          (parse_args-Reads (next ∷ args) o'))
  | inr (inl (code, e)) ↦ rw (e, parse_args) tt
  | inr (inr (inl e)) ↦ elim (Option-cases (take_threads o next)) [
    | inl f ↦ rw (e, f, parse_args) tt
    | inr (o', f) ↦
        rw (e, f, parse_args)
          (Reads-threads arg next args o o' _ (subst (TurnIs (kind arg) o) e (one_arg-TurnIs arg o))
            f (parse_args-Reads args o'))
  ]
  | inr (inr (inr e)) ↦ elim (Option-cases (take_label o next)) [
    | inl f ↦ rw (e, f, parse_args) tt
    | inr (o', f) ↦
        rw (e, f, parse_args)
          (Reads-label arg next args o o' _ (subst (TurnIs (kind arg) o) e (one_arg-TurnIs arg o)) f
            (parse_args-Reads args o'))
  ]
]

-- Options that the loop returns have the mode and the label of the arguments.
pub parse_args-reads :
    (args : List Chars) (o o' : Options)
    → parse_args args o ≡ parsed o'
    → (o'.mode_decompress ≡ (asks_decompress args || o.mode_decompress))
      × (o'.kernel_spec ≡ last_label o.kernel_spec args)
parse_args-reads args o o' e = subst (Reads args o) e (parse_args-Reads args o)

abbrev pub not_none {ℓ} : {A : Type ℓ} → Option A → Bool
not_none none = false
not_none (some a) = true
