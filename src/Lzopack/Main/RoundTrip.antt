-- ===== src/Lzopack/Main/RoundTrip.antt =====
-- examples/lzopack.c: from one command line to the other.
use lzo.Base.{ℕ, ◌*◌, ◌≤◌, ◌≡◌, refl, arith}
use lzo.Base.{Bool, true, false, ◌&&◌, leb, ◌==◌, Bool-cases, inl, inr, if◌then◌else◌}
use lzo.Base.{Option, none, some, List, [], ◌∷◌}
use lzo.Frag.CommandLine.Text.{Chars, same, strtol}
use lzo.Lzopack.Blocks.{top_block_size}
use lzo.Lzopack.Main.{
  PackOptions, default_options, minus_d, minus_t, minus_9, take_block_size, other_option,
  long_option, one_option, is_option, take_options, PackJob, test_files, decompress_to, compress_to,
  with_some, with_two, job_of, job,
}

-- A result, if there is one, satisfies `P`.
abbrev pub Where {ℓ} : {A : Type ℓ} → (A → Type 0) → Option A → Type 0
Where P none = Unit
Where P (some a) = P a

Where-if {ℓ} :
    {A : Type ℓ} (P : A → Type 0) (b : Bool) (x y : Option A)
    → (b ≡ true → Where P x)
    → Where P y
    → Where P (if b then x else y)
Where-if P true x y h k = h refl
Where-if P false x y h k = k

abbrev pub HasBlockSize : PackOptions → Type 0
HasBlockSize o = (1024 ≤ o.opt_block_size) × (o.opt_block_size ≤ top_block_size)

take_block_size-HasBlockSize :
    (o : PackOptions) (s : Chars) → Where HasBlockSize (take_block_size o s)
unfolding take_block_size
take_block_size-HasBlockSize o s = go (strtol s)
  where
    go :
        (r : Bool × (ℕ × Chars))
        → Where HasBlockSize (
            if r.0
            then none
            else if leb 1024 r.1.0 && leb r.1.0 (8 * 1024 * 1024)
            then some (record o { opt_block_size = r.1.0 })
            else none)
    go (true, r) = tt
    go (false, (b, end)) =
        Where-if HasBlockSize (leb 1024 b && leb b (8 * 1024 * 1024))
          (some (record o { opt_block_size = b })) none
          (λ e. (ground (arith, e), ground (arith, e))) tt

other_option-HasBlockSize :
    (o : PackOptions) (s : Chars) → HasBlockSize o → Where HasBlockSize (other_option o s)
other_option-HasBlockSize o s h = Where-if HasBlockSize _ (some o) none (λ _. h) tt

long_option-HasBlockSize :
    (o : PackOptions) (s : Chars) → HasBlockSize o → Where HasBlockSize (long_option o s)
long_option-HasBlockSize o [] h = tt
long_option-HasBlockSize o (c ∷ []) h = other_option-HasBlockSize o (c ∷ []) h
long_option-HasBlockSize o (c ∷ d ∷ []) h = other_option-HasBlockSize o (c ∷ d ∷ []) h
long_option-HasBlockSize o (c ∷ d ∷ e ∷ s) h =
    Where-if HasBlockSize (d == 98) (take_block_size o (e ∷ s)) (other_option o (c ∷ d ∷ e ∷ s))
      (λ _. take_block_size-HasBlockSize o (e ∷ s)) (other_option-HasBlockSize o (c ∷ d ∷ e ∷ s) h)

one_option-HasBlockSize :
    (o : PackOptions) (s : Chars) → HasBlockSize o → Where HasBlockSize (one_option o s)
unfolding one_option
one_option-HasBlockSize o s h = elim (Bool-cases (same s minus_d)) [
  | inl e ↦ rw e h
  | inr e ↦ rw e (elim (Bool-cases (same s minus_t)) [
    | inl e' ↦ rw e' h
    | inr e' ↦ rw e' (elim (Bool-cases (same s minus_9)) [
      | inl e'' ↦ rw e'' h
      | inr e'' ↦ rw e'' (long_option-HasBlockSize o s h)
    ])
  ])
]

take_options-HasBlockSize :
    (o : PackOptions) (args : List Chars)
    → HasBlockSize o
    → Where (λ r. HasBlockSize r.0) (take_options o args)
unfolding take_options
take_options-HasBlockSize o [] h = h
take_options-HasBlockSize o (s ∷ args) h =
    Where-if (λ r. HasBlockSize r.0) (is_option s) _ (some (o, s ∷ args))
      (λ _.
        others (one_option o s) (one_option-HasBlockSize o s h)
          λ o' h'. take_options-HasBlockSize o' args h')
      h
  where
    others :
        (r : Option PackOptions)
        → Where HasBlockSize r
        → ((o' : PackOptions)
            → HasBlockSize o'
            → Where (λ r. HasBlockSize r.0) (take_options o' args))
        → Where (λ r. HasBlockSize r.0) (elim r [ none ↦ none | some o' ↦ take_options o' args ])
    others none h k = tt
    others (some o') h k = k o' h

-- The options that a job has.
abbrev pub JobHasBlockSize : PackJob → Type 0
JobHasBlockSize (test_files names) = Unit
JobHasBlockSize (decompress_to o x y) = HasBlockSize o
JobHasBlockSize (compress_to o x y) = HasBlockSize o

pub job-HasBlockSize : (args : List Chars) → Where JobHasBlockSize (job args)
unfolding job job_of
job-HasBlockSize args =
    whole (take_options default_options args)
      (take_options-HasBlockSize default_options args (omega arith, omega arith))
  where
    two :
        (f : PackOptions → Chars → Chars → PackJob)
        → ((o : PackOptions) (x y : Chars) → HasBlockSize o → JobHasBlockSize (f o x y))
        → (o : PackOptions) (rest : List Chars) → HasBlockSize o
        → Where JobHasBlockSize (with_two f o rest)
    two f k o [] h = tt
    two f k o (x ∷ []) h = tt
    two f k o (x ∷ y ∷ []) h = k o x y h
    two f k o (x ∷ y ∷ z ∷ more) h = tt

    either :
        (d : Bool) (o : PackOptions) (rest : List Chars)
        → HasBlockSize o
        → Where JobHasBlockSize (with_two (if d then decompress_to else compress_to) o rest)
    either true o rest h = two decompress_to (λ o x y h. h) o rest h
    either false o rest h = two compress_to (λ o x y h. h) o rest h

    tests : (names : List Chars) → Where JobHasBlockSize (with_some names)
    tests [] = tt
    tests (x ∷ names) = tt

    whole :
        (r : Option (PackOptions × List Chars))
        → Where (λ q. HasBlockSize q.0) r
        → Where JobHasBlockSize (elim r [ none ↦ none | some q ↦ job_of q ])
    whole none h = tt
    whole (some (o, rest)) h =
        Where-if JobHasBlockSize o.opt_test (with_some rest) _ (λ _. tests rest)
          (either o.opt_decompress o rest h)
