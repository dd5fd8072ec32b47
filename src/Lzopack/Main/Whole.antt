-- ===== src/Lzopack/Main/Whole.antt =====
-- examples/lzopack.c: from one command line to the other.
use lzo.Base.{ℕ, ◌≡◌, ◌≢◌, refl, sym, ◌∙◌, arith}
use lzo.Base.{true, false, ◌==◌, if◌then◌else◌}
use lzo.Base.{Option, none, some, List, [], ◌∷◌, length, All, IsByte}
use lzo.Frag.CommandLine.Text.{Chars, same}
use lzo.Lzopack.State.{value}
use lzo.Lzopack.{do_compress, do_decompress}
use lzo.Lzopack.Does.{files, extended_by}
use lzo.Lzopack.Whole.{do_compress-do_decompress}
use lzo.Lzopack.Main.{
  PackOptions, default_options, minus_d, minus_t, one_option, is_option, take_options, PackJob,
  test_files, decompress_to, compress_to, job_of, job, run_tests, run_job, main,
}
use lzo.Lzopack.Main.RoundTrip.{Where, JobHasBlockSize, job-HasBlockSize}
use mathlib.Core.List.{append-nil}
use mathlib.Core.Path.{subst}

same_self : (s : Chars) → same s s ≡ true
same_self [] = refl
same_self (c ∷ s) = let e : (c == c) ≡ true = ground arith in rw (e, same_self s) refl

-- The files when one more is written.
abbrev pub saved : Chars → Option (List ℕ) → (Chars → Option (List ℕ)) → Chars → Option (List ℕ)
saved name contents open_file n = if same n name then contents else open_file n

-- An option of one letter, and arguments.
option_taken :
    (o o' : PackOptions) (s name : Chars) (rest : List Chars)
    → is_option s ≡ true
    → one_option o s ≡ some o'
    → is_option name ≡ false
    → take_options o (s ∷ name ∷ rest) ≡ some (o', name ∷ rest)
unfolding take_options
option_taken o o' s name rest e f plain = rw (e, f) (rw plain refl)

job-minus_d :
    (name result : Chars)
    → is_option name ≡ false
    → job (minus_d ∷ name ∷ result ∷ [])
      ≡ some (decompress_to (record default_options { opt_decompress = true }) name result)
unfolding job job_of one_option
job-minus_d name result plain =
    rw
      (
        option_taken default_options (record default_options { opt_decompress = true }) minus_d name
            (result ∷ []) refl refl plain,
        job,
      )
      refl

job-minus_t :
    (name : Chars)
    → is_option name ≡ false
    → job (minus_t ∷ name ∷ []) ≡ some (test_files (name ∷ []))
unfolding job job_of one_option
job-minus_t name plain =
    rw
      (
        option_taken default_options (record default_options { opt_test = true }) minus_t name []
            refl refl plain,
        job,
      )
      refl

module _ (addr : ℕ) (compress_999 : List ℕ → ℕ × List ℕ) (open_file : Chars → Option (List ℕ)) where
  main-job :
      (args : List Chars) (j : PackJob)
      → job args ≡ some j
      → main addr compress_999 open_file args ≡ run_job addr compress_999 open_file j
  unfolding main
  main-job args j e = rw (e, main) refl

  compress_to_lem :
      (o : PackOptions) (in_name out_name : Chars) (src packed : List ℕ) (n m : ℕ)
      → open_file in_name ≡ some src
      → same in_name out_name ≡ false
      → do_compress addr compress_999 o.opt_compression_level o.opt_block_size
          (files src (some []) 0 0)
        ≡ (value tt, files [] (some packed) n m)
      → run_job addr compress_999 open_file (compress_to o in_name out_name)
        ≡ (value tt, some packed)
  unfolding run_job
  compress_to_lem o in_name out_name src packed n m found differ made =
      rw (found, run_job) (rw differ (rw made refl))

  -- Decompression and test of a file that do_decompress takes.
  module _ (packed src : List ℕ) (name : Chars) (found : open_file name ≡ some packed)
      (reads : (fo : Option (List ℕ))
        → do_decompress (files packed fo 0 0)
          ≡ (value tt, files [] (extended_by fo src) (length packed) (length src))) where
    decompress_to_lem :
        (o : PackOptions) (result : Chars)
        → same name result ≡ false
        → run_job addr compress_999 open_file (decompress_to o name result) ≡ (value tt, some src)
    unfolding run_job
    decompress_to_lem o result differ = rw (found, run_job) (rw differ (rw (reads (some [])) refl))

    test_files_lem : run_job addr compress_999 open_file (test_files (name ∷ [])) ≡ (value tt, none)
    unfolding run_job run_tests
    test_files_lem = rw (found, reads none, run_job, run_tests) refl

-- Where a command line asks for compression at another level than 9, of a file of bytes that can be opened
-- and into a file of another name, which is not that of an option, main returns 0; and with the file
-- that it has written, main with -d from that file into one of another name returns 0 and writes the
-- source, and main with -t on that file returns 0.
pub main-main :
    (addr : ℕ) (compress_999 : List ℕ → ℕ × List ℕ) (open_file : Chars → Option (List ℕ))
    (args : List Chars) (o : PackOptions) (in_name out_name result : Chars) (src : List ℕ)
    → job args ≡ some (compress_to o in_name out_name)
    → o.opt_compression_level ≢ 9
    → open_file in_name ≡ some src
    → All IsByte src
    → is_option out_name ≡ false
    → same in_name out_name ≡ false
    → same out_name result ≡ false
    → let r = main addr compress_999 open_file args in
      let then_open = saved out_name r.1 open_file in
      (r.0 ≡ value tt)
      × (main addr compress_999 then_open (minus_d ∷ out_name ∷ result ∷ []) ≡ (value tt, some src))
      × (main addr compress_999 then_open (minus_t ∷ out_name ∷ []) ≡ (value tt, none))
main-main addr compress_999 open_file args o in_name out_name result src asked other found bytes
      plain differ differ' =
    let (least, most) = subst (Where JobHasBlockSize) asked (job-HasBlockSize args) in
    let (packed, b, c, d) =
      do_compress-do_decompress addr compress_999 o.opt_compression_level o.opt_block_size src other
        least most bytes in
    let made : main addr compress_999 open_file args ≡ (value tt, some packed) =
      main-job addr compress_999 open_file args (compress_to o in_name out_name) asked
      ∙ compress_to_lem addr compress_999 open_file o in_name out_name src packed _ _ found differ
          (c 0 0) in
    let then_open = saved out_name (some packed) open_file in
    let stored : then_open out_name ≡ some packed = rw (same_self out_name) refl in
    let reads : (fo : Option (List ℕ))
        → do_decompress (files packed fo 0 0)
          ≡ (value tt, files [] (extended_by fo src) (length packed) (length src)) =
      λ fo. rw (append-nil packed) at (d [] fo 0 0) in
    subst
      (λ r.
        (r.0 ≡ value tt)
        × (main addr compress_999 (saved out_name r.1 open_file) (minus_d ∷ out_name ∷ result ∷ [])
            ≡ (value tt, some src))
        × (main addr compress_999 (saved out_name r.1 open_file) (minus_t ∷ out_name ∷ [])
            ≡ (value tt, none)))
      (sym made)
      (
        refl,
        main-job addr compress_999 then_open _ _ (job-minus_d out_name result plain)
            ∙ decompress_to_lem addr compress_999 then_open packed src out_name stored reads _
                result differ',
        main-job addr compress_999 then_open _ _ (job-minus_t out_name plain)
            ∙ test_files_lem addr compress_999 then_open packed src out_name stored reads,
      )
