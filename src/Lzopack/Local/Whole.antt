-- ===== src/Lzopack/Local/Whole.antt =====
-- examples/lzopack.c: the loop and the tests of do_decompress with more bytes behind their input.
use lzo.Base.{ℕ, zero, suc, ◌+◌, ◌≤◌, ◌≡◌, refl, arith, u64}
use lzo.Base.{Bool, true, false, ◌==◌, ◌&&◌, ◌||◌, ltb, leb, Bool-cases, inl, inr, if◌then◌else◌}
use lzo.Base.{bit_and, Option, none, some, List, length, take, drop}
use lzo.Adler.{adler32}
use lzo.Lzo1x.Format.{lzo1x}
use lzo.Lzo1x.Decoder.{
  Outcome, returned, faulted, stuck, e_ok, e_input_overrun, e_output_overrun, e_lookbehind_overrun,
  e_input_not_consumed,
}
use lzo.Lzo1x.InPlace.{decompress_in_place}
use lzo.Lzopack.State.{
  Files, End, Exec, value, err, pure, ◌>>=◌, ◌>>◌, ensure, xread, xwrite, xread32,
}
use lzo.Lzopack.{
  magic, same_bytes, enlarged, checksum_of, update_checksum, decompressed, block_contents,
  decompress_blocks, verify_checksum,
}
use lzo.Lzopack.Local.{
  behind, Local, Local-pure, Local-bind, Local-ensure, Local-stop, Local-undefined, Local-xread,
  Local-xwrite, Local-xread32, take-append_enough, drop-append_enough,
}
use lzo.Lzopack.Sound.Accepted.{same_bytes-length}

module _ (more : List ℕ) where
  Local-decompressed :
      (out_len : ℕ) (r : Outcome) → Local more (decompressed out_len r) (decompressed out_len r)
  unfolding decompressed
  Local-decompressed out_len (returned e_ok out) =
      Local-ensure more (length out == out_len) 6 _ _ λ _. Local-pure more out
  Local-decompressed out_len (returned e_input_overrun out) = Local-stop more 6 _
  Local-decompressed out_len (returned e_output_overrun out) = Local-stop more 6 _
  Local-decompressed out_len (returned e_lookbehind_overrun out) = Local-stop more 6 _
  Local-decompressed out_len (returned e_input_not_consumed out) = Local-stop more 6 _
  Local-decompressed out_len faulted = Local-undefined more _
  Local-decompressed out_len stuck = Local-undefined more _

  Local-if {ℓ} :
      {A : Type ℓ} (b : Bool) (m m' k k' : Exec A)
      → Local more m m'
      → Local more k k'
      → Local more (if b then m else k) (if b then m' else k')
  Local-if true m m' k k' h i = h
  Local-if false m m' k k' h i = i

  pub Local-checksum_of : (r : Option ℕ) → Local more (checksum_of r) (checksum_of r)
  unfolding checksum_of
  Local-checksum_of none = Local-undefined more _
  Local-checksum_of (some c) = Local-pure more c

  Local-update :
      (flags c : ℕ) (x : List ℕ)
      → Local more (update_checksum flags c x) (update_checksum flags c x)
  unfolding update_checksum
  Local-update flags c x =
      Local-if (bit_and flags 1 == 0) _ _ _ _ (Local-pure more c)
        (Local-checksum_of (adler32 c (some x)))

  Local-block_contents :
      (buf_len out_len : ℕ) (input : List ℕ)
      → Local more (block_contents buf_len out_len input) (block_contents buf_len out_len input)
  unfolding block_contents
  Local-block_contents buf_len out_len input =
      Local-if (ltb (length input) out_len) _ _ _ _
        (Local-decompressed out_len (decompress_in_place lzo1x buf_len out_len input))
        (Local-pure more input)

  -- More rounds make no difference.
  pub Local-decompress_blocks :
      (flags block_size f g c : ℕ)
      → f ≤ g
      → Local more (decompress_blocks f flags block_size c) (decompress_blocks g flags block_size c)
  unfolding decompress_blocks
  Local-decompress_blocks flags block_size zero g c h = Local-undefined more _
  Local-decompress_blocks flags block_size (suc f) zero c h = absurd (omega arith)
  Local-decompress_blocks flags block_size (suc f) (suc g) c h =
      Local-bind more xread32 xread32 _ _ (Local-xread32 more)
        (round λ c'. Local-decompress_blocks flags block_size f g c' (omega arith))
    where
      round :
          ((c' : ℕ)
            → Local more
                (decompress_blocks f flags block_size c')
                (decompress_blocks g flags block_size c'))
          → (v : ℕ)
          → Local more
              (elim v [
                | zero ↦ pure c
                | suc less ↦ xread32 >>= λ in_len.
                    ensure
                      (leb in_len block_size
                        && leb (suc less) block_size
                        && (ltb 0 in_len && leb in_len (suc less)))
                      5
                    >> (xread in_len false >>= λ input.
                        block_contents (enlarged block_size) (suc less) input >>= λ out.
                        xwrite out
                        >> (update_checksum flags c out >>= decompress_blocks f flags block_size))
              ])
              (elim v [
                | zero ↦ pure c
                | suc less ↦ xread32 >>= λ in_len.
                    ensure
                      (leb in_len block_size
                        && leb (suc less) block_size
                        && (ltb 0 in_len && leb in_len (suc less)))
                      5
                    >> (xread in_len false >>= λ input.
                        block_contents (enlarged block_size) (suc less) input >>= λ out.
                        xwrite out
                        >> (update_checksum flags c out >>= decompress_blocks g flags block_size))
              ])
      round rec zero = Local-pure more c
      round rec (suc less) = Local-bind more xread32 xread32 _ _ (Local-xread32 more) λ in_len.
          Local-ensure more
            (leb in_len block_size
              && leb (suc less) block_size
              && (ltb 0 in_len && leb in_len (suc less)))
            5 _ _
            λ _. Local-bind more _ _ _ _ (Local-xread more in_len) λ input.
              Local-bind more _ _ _ _ (Local-block_contents (enlarged block_size) (suc less) input)
                λ out.
                  Local-bind more _ _ _ _ (Local-xwrite more out)
                    λ _. Local-bind more _ _ _ _ (Local-update flags c out) rec

  pub Local-verify_checksum :
      (flags c : ℕ) → Local more (verify_checksum flags c) (verify_checksum flags c)
  unfolding verify_checksum
  Local-verify_checksum flags c =
      Local-if (bit_and flags 1 == 0) _ _ _ _ (Local-pure more tt)
        (Local-bind more xread32 xread32 _ _ (Local-xread32 more) λ c'. last_ensure (c' == c) 7)
    where
      last_ensure : (b : Bool) (r : ℕ) → Local more (ensure b r) (ensure b r)
      last_ensure true r = Local-pure more tt
      last_ensure false r = Local-stop more r _

  xread_some :
      (len : ℕ) (s : Files)
      → xread len true s ≡ (
        value (take len s.fi),
        record s { fi = drop len s.fi; total_in = u64 (s.total_in + length (take len s.fi)) },
      )
  unfolding xread
  xread_some len s = rw (or_true (length (take len s.fi) == len)) refl
    where
      or_true : (b : Bool) → (b || true) ≡ true
      or_true true = refl
      or_true false = refl

  -- The read of the magic may come to the end of the file, but is then refused.
  pub Local-magic {ℓ} :
      {A : Type ℓ} (m : Exec A)
      → Local more m m
      → Local more
          (xread 7 true >>= λ b. ensure (same_bytes b magic) 1 >> m)
          (xread 7 true >>= λ b. ensure (same_bytes b magic) 1 >> m)
  Local-magic {A = A} m h = record { at = λ s a t e. go s a t e }
    where
      go :
          (s : Files) (a : A) (t : Files)
          → (xread 7 true >>= λ b. ensure (same_bytes b magic) 1 >> m) s ≡ (value a, t)
          → (xread 7 true >>= λ b. ensure (same_bytes b magic) 1 >> m) (behind s more)
            ≡ (value a, behind t more)
      go s a t e = elim (Bool-cases (same_bytes (take 7 s.fi) magic)) [
        | inl same ↦
            let size : length (take 7 s.fi) ≡ 7 = same_bytes-length (take 7 s.fi) magic same in
            rw
              (
                xread_some 7 (behind s more),
                take-append_enough 7 s.fi more size,
                drop-append_enough 7 s.fi more size,
                same,
              )
              (h.at
                (record s { fi = drop 7 s.fi; total_in = u64 (s.total_in + length (take 7 s.fi)) })
                a t (rw (xread_some 7 s, same) at e))
        | inr other ↦ absurd (refused _ a t (rw (xread_some 7 s, other) at e))
      ]
        where
          refused :
              (u : Files) (a : A) (t : Files) → ◌≡◌ {A = End A × Files} (err 1, u) (value a, t) → ⊥
          refused u a t e = cc
