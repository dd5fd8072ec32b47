-- ===== src/Lzopack/Sound/Blocks.antt =====
-- examples/lzopack.c: the blocks of any file in do_decompress, with the checksum of their contents.
use lzo.Base.{ℕ, zero, suc, ◌-◌, ◌≤◌, ◌<◌, ◌≡◌, refl, sym, ◌∙◌, arith}
use lzo.Base.{false, ◌&&◌, ltb, leb, ◌==◌, Bool-cases, inl, inr, ltb→le}
use lzo.Base.{bit_and, Option, some, List, [], ◌∷◌, ◌++◌, length}
use lzo.Base.{All, IsByte}
use lzo.Lzo1x.Encoder.Bytes.{All-append}
use lzo.Lzo1x.Format.{lzo1x}
use lzo.Lzo1x.Decoder.{
  Status, returned, e_ok, e_input_overrun, e_output_overrun, e_lookbehind_overrun,
  e_input_not_consumed,
}
use lzo.Lzo1x.InPlace.Safety.{Fits}
use lzo.Lzo1x.InPlace.Safety.Run.{decompress_in_place-ReturnsBytes}
use lzo.Adler.{adler32}
use lzo.Adler.Laws.{adler32-append}
use lzo.Lzopack.State.{
  Files, End, Exec, value, err, exits, undefined, pure, ◌>>=◌, ◌>>◌, ensure, xread, xwrite, xread32,
}
use lzo.Lzopack.{
  enlarged, checksum_of, update_checksum, decompressed, block_contents, decompress_blocks,
}
use lzo.Lzopack.Blocks.{checksum_step}
use lzo.Lzopack.Sound.{Post, Post-bind, Post-ensure, Open, xread-Post, xread32-Post}
use mathlib.Core.Path.{subst}

block_contents-Post :
    (buf_len out_len : ℕ) (input : List ℕ) (s : Files)
    → All IsByte input
    → length input ≤ out_len
    → out_len ≤ buf_len
    → Post
        (λ out t. (t ≡ s) × All IsByte out × (length out ≡ out_len))
        (block_contents buf_len out_len input s)
unfolding block_contents
block_contents-Post buf_len out_len input s a h room =
    elim (Bool-cases (ltb (length input) out_len)) [
      | inr whole ↦ rw whole (refl, a, omega (arith, ltb→le _ _ whole))
      | inl less ↦
          let (status, out, e, f) =
            decompress_in_place-ReturnsBytes lzo1x buf_len out_len input room a in
          rw (less, e) (result status out f)
    ]
  where
    result :
        (status : Status) (out : List ℕ)
        → Fits out_len out
        → Post
            (λ out t. (t ≡ s) × All IsByte out × (length out ≡ out_len))
            (decompressed out_len (returned status out) s)
    result e_ok out f =
        unfold decompressed in
        Post-ensure _ (length out == out_len) 6 (pure out) s λ e. (refl, f.0, ground arith)
    result e_input_overrun out f = unfold decompressed in tt
    result e_output_overrun out f = unfold decompressed in tt
    result e_lookbehind_overrun out f = unfold decompressed in tt
    result e_input_not_consumed out f = unfold decompressed in tt

-- The output so far is bytes, and has the checksum so far where the flags ask for one.
abbrev pub Checked : ℕ → ℕ → Option (List ℕ) → Type 0
Checked flags c fo =
    (out : List ℕ) × (fo ≡ some out)
    × All IsByte out
    × ((bit_and flags 1 == 0) ≡ false → adler32 1 (some out) ≡ some c)

-- The output with the contents of one more block, of which the checksum does not know yet.
abbrev Ahead : ℕ → ℕ → List ℕ → Option (List ℕ) → Type 0
Ahead flags c x fo =
    (out : List ℕ) × (fo ≡ some (out ++ x))
    × All IsByte out
    × ((bit_and flags 1 == 0) ≡ false → adler32 1 (some out) ≡ some c)

module _ (file : List ℕ) (flags : ℕ) where
  xwrite-Post :
      (c n : ℕ) (x : List ℕ) (s : Files)
      → Open file (Checked flags c) n s
      → Post (λ u t. Open file (Ahead flags c x) n t) (xwrite x s)
  unfolding xwrite
  xwrite-Post c n x s (a, l, k, (out, e, b, i)) = (a, l, k, (out, rw e refl, b, i))

  update-Post :
      (c n b : ℕ) (x : List ℕ) (s : Files)
      → All IsByte (b ∷ x)
      → Open file (Ahead flags c (b ∷ x)) n s
      → Post (λ c' t. Open file (Checked flags c') n t) (update_checksum flags c (b ∷ x) s)
  unfolding update_checksum checksum_of
  update-Post c n b x s bytes (a, l, k, (out, e, o, i)) = elim (Bool-cases (bit_and flags 1 == 0)) [
    | inl unchecked ↦ rw unchecked (
      a,
      l,
      k,
      (
        out ++ (b ∷ x),
        e,
        All-append out (b ∷ x) o bytes,
        λ h. absurd (ground (arith, unchecked, h)),
      ),
    )
    | inr checked ↦
        let (c', e', n') = checksum_step c b x bytes in
        rw (checked, e')
          (
            a,
            l,
            k,
            (
              out ++ (b ∷ x),
              e,
              All-append out (b ∷ x) o bytes,
              λ h. sym (adler32-append 1 c out (b ∷ x) o bytes (i checked)) ∙ e',
            ),
          )
  ]

  -- What follows the lengths of a block, up to its checksum.
  block_Post :
      (R : ℕ → Files → Type 0) (block_size c n less in_len : ℕ) (rest : ℕ → Exec ℕ) (s : Files)
      → Open file (Checked flags c) n s
      → ((c' : ℕ) (t : Files) → Open file (Checked flags c') n t → Post R (rest c' t))
      → Post R (
          (ensure
                (leb in_len block_size
                  && leb (suc less) block_size
                  && (ltb 0 in_len && leb in_len (suc less)))
                5
              >> (xread in_len false >>= λ input.
                  block_contents (enlarged block_size) (suc less) input >>= λ out.
                  xwrite out >> (update_checksum flags c out >>= rest)))
            s)
  block_Post R block_size c n less in_len rest s o k =
      Post-ensure R
        (leb in_len block_size
          && leb (suc less) block_size
          && (ltb 0 in_len && leb in_len (suc less)))
        5
        (xread in_len false >>= λ input.
          block_contents (enlarged block_size) (suc less) input >>= λ out.
          xwrite out >> (update_checksum flags c out >>= rest))
        s
        λ sizes.
          Post-bind _ R (xread in_len false s) _ (xread-Post file (Checked flags c) in_len n s o)
            λ input t (a, l, m, e, (a', l', d, f)).
              Post-bind _ R (block_contents (enlarged block_size) (suc less) input t) _
                (block_contents-Post (enlarged block_size) (suc less) input t a
                  (ground (arith, l, sizes)) (ground (arith, sizes)))
                λ out t' (same, b, size). contents out t' b size (
                  subst (λ (u : Files). Open file (Checked flags c) n u) (sym same)
                    (a', omega arith, d, f))
    where
      contents :
          (out : List ℕ) (t : Files)
          → All IsByte out
          → length out ≡ suc less
          → Open file (Checked flags c) n t
          → Post R ((xwrite out >> (update_checksum flags c out >>= rest)) t)
      contents [] t b size o' = absurd (omega (arith, size))
      contents (x ∷ xs) t b size o' =
          Post-bind _ R (xwrite (x ∷ xs) t) _ (xwrite-Post c n (x ∷ xs) t o') λ u t₁ o₁.
            Post-bind _ R (update_checksum flags c (x ∷ xs) t₁) _ (update-Post c n x xs t₁ b o₁) k

  pub decompress_blocks-Post :
      (block_size fuel n c : ℕ) (s : Files)
      → n < fuel
      → Open file (Checked flags c) n s
      → Post
          (λ c' t. Open file (Checked flags c') n t)
          (decompress_blocks fuel flags block_size c s)
  unfolding decompress_blocks
  decompress_blocks-Post block_size zero n c s h o = absurd (omega arith)
  decompress_blocks-Post block_size (suc fuel) n c s h o =
      Post-bind _ R (xread32 s) _ (xread32-Post file (Checked flags c) n s o) λ v t (e, m, o').
        round v t o' λ c' t' o₂.
          Post-weaken (decompress_blocks fuel flags block_size c' t')
            (decompress_blocks-Post block_size fuel (n - 4 - 4) c' t' (omega arith) o₂)
    where
      R : ℕ → Files → Type 0
      R c' t = Open file (Checked flags c') n t

      Post-weaken :
          (r : End ℕ × Files)
          → Post (λ c' t. Open file (Checked flags c') (n - 4 - 4) t) r
          → Post R r
      Post-weaken (value c', t) (a, l, k, f) = (a, omega arith, k, f)
      Post-weaken (err r, t) o = tt
      Post-weaken (exits, t) o = tt
      Post-weaken (undefined, t) o = o

      round :
          (v : ℕ) (t : Files)
          → Open file (Checked flags c) (n - 4) t
          → ((c' : ℕ) (t' : Files)
              → Open file (Checked flags c') (n - 4 - 4) t'
              → Post R (decompress_blocks fuel flags block_size c' t'))
          → Post R (
              (elim v as (λ _. Exec ℕ) [
                | zero ↦ pure c
                | suc less ↦ xread32 >>= λ in_len.
                    ensure
                      (leb in_len block_size
                        && leb (suc less) block_size
                        && (ltb 0 in_len && leb in_len (suc less)))
                      5
                    >> (xread in_len false >>= λ input.
                        block_contents (enlarged block_size) (suc less) input >>= λ out.
                        xwrite out
                        >> (update_checksum flags c out
                            >>= decompress_blocks fuel flags block_size))
              ])
                t)
      round zero t (a, l, k, f) rec = (a, omega arith, k, f)
      round (suc less) t o' rec =
          Post-bind _ R (xread32 t) _ (xread32-Post file (Checked flags c) (n - 4) t o')
            λ in_len t' (e, m, o₂).
              block_Post R block_size c (n - 4 - 4) less in_len
                (decompress_blocks fuel flags block_size) t' o₂ rec
