-- ===== src/Lzopack/RoundTrip.antt =====
-- examples/lzopack.c: what do_compress writes is what do_decompress reads back.
use lzo.Base.{ℕ, zero, suc, ◌^◌, ◌≤◌, ◌<◌, ◌≡◌, refl, ap, arith}
use lzo.Base.{true, false, ◌==◌}
use lzo.Base.{some, List, [], ◌∷◌, ◌++◌, length, length-append, length-take}
use lzo.Base.{length-drop, take, drop, take-append-drop, All, IsByte}
use lzo.Lzo1x.Encoder.Bytes.{All-take, All-drop, All-append}
use lzo.Adler.{adler32}
use lzo.Lzopack.State.{xread, xread32, word_bytes}
use lzo.Lzopack.{
  file_flags, update_checksum, compress_block, write_block, compress_blocks, decompress_blocks,
}
use lzo.Lzopack.Does.{Does, Does-bind, Does-pure, Does-xread_some, Does-xread32}
use lzo.Lzopack.Blocks.{
  top_block_size, IsPacked, checksum_step, Does-update, block_bytes, Does-write_block,
  block-IsPacked, Does-compress_block, Does-decompress_block, block_bytes-IsByte,
}
use mathlib.Core.List.{append_assoc, append-nil}
use mathlib.Core.Path.{subst}

module _ (addr : ℕ) (compress_999 : List ℕ → ℕ × List ℕ) (level block_size : ℕ)
    (fast : (level == 9) ≡ false) (some_block : 0 < block_size)
    (small : block_size ≤ top_block_size) where
  -- What the loop of do_compress makes of the rest of its input, and that of do_decompress of that.
  pub record Written (fuel c : ℕ) (xs : List ℕ) : Type 0 where
    pub w : List ℕ
    pub last : ℕ
    pub made : All IsByte w
    pub narrow : last < 2 ^ 32
    pub written : Does [] (compress_blocks addr compress_999 fuel level block_size c) last xs w
    pub read :
        (f : ℕ) (rest : List ℕ)
        → length w < f
        → Does rest (decompress_blocks f file_flags block_size c) last (w ++ word_bytes 0) xs

  -- No more input: the loops end.
  none-Written : (fuel c : ℕ) → c < 2 ^ 32 → Written (suc fuel) c []
  unfolding compress_blocks decompress_blocks
  none-Written fuel c n = record {
    w = [];
    last = c;
    made = tt;
    narrow = n;
    written =
        Does-bind [] (xread block_size true) _ [] c [] [] [] [] (nothing block_size)
          (Does-pure [] c);
    read = ended;
  }
    where
      nothing : (n : ℕ) → Does [] (xread n true) [] [] []
      nothing zero = Does-xread_some 0 []
      nothing (suc n) = Does-xread_some (suc n) []

      ended :
          (f : ℕ) (rest : List ℕ)
          → 0 < f
          → Does rest (decompress_blocks f file_flags block_size c) c (word_bytes 0) []
      ended zero rest l = absurd (omega arith)
      ended (suc f) rest l =
          Does-bind rest xread32 _ 0 c (word_bytes 0) [] [] [] (Does-xread32 rest 0 (omega arith))
            (Does-pure rest c)

  -- One block, and what the loops make of the others.
  round-Written :
      (fuel c c' b : ℕ) (buf xs out : List ℕ)
      → take block_size (b ∷ buf ++ xs) ≡ b ∷ buf
      → drop block_size (b ∷ buf ++ xs) ≡ xs
      → All IsByte (b ∷ buf)
      → length (b ∷ buf) ≤ block_size
      → IsPacked addr block_size (b ∷ buf) out
      → adler32 c (some (b ∷ buf)) ≡ some c'
      → Written fuel c' xs
      → Written (suc fuel) c (b ∷ buf ++ xs)
  unfolding compress_blocks
  round-Written fuel c c' b buf xs out t d a h p e r = record {
    w = block_bytes block out ++ r.w;
    last = r.last;
    made = All-append (block_bytes block out) r.w (block_bytes-IsByte block out a p.bytes) r.made;
    narrow = r.narrow;
    written =
        Does-bind [] (xread block_size true) _ block r.last block xs [] _
          (rw (append-nil xs) (rw (t, d) at (Does-xread_some block_size (b ∷ buf ++ xs))))
          (Does-bind [] (update_checksum file_flags c block) _ c' r.last [] xs [] _
            (Does-update _ c c' block e)
            (Does-bind [] (compress_block addr compress_999 level block) _ out r.last [] xs [] _
              (Does-compress_block addr compress_999 level block_size fast _ block out p)
              (Does-bind [] (write_block block out) _ tt r.last [] xs (block_bytes block out) r.w
                (Does-write_block _ block out) r.written)));
    read = read;
  }
    where
      block : List ℕ
      block = b ∷ buf

      read :
          (f : ℕ) (rest : List ℕ)
          → length (block_bytes block out ++ r.w) < f
          → Does rest
              (decompress_blocks f file_flags block_size c)
              r.last
              ((block_bytes block out ++ r.w) ++ word_bytes 0)
              (b ∷ buf ++ xs)
      read zero rest l = absurd (omega arith)
      read (suc f) rest l = rw (append_assoc (block_bytes block out) r.w (word_bytes 0)) (
          Does-decompress_block addr block_size f c c' r.last b buf out rest (r.w ++ word_bytes 0)
            xs h small p e
            (r.read f rest (omega (arith, length-append (block_bytes block out) r.w))))

  pub blocks-Written :
      (fuel c : ℕ) (xs : List ℕ) → c < 2 ^ 32 → All IsByte xs → length xs < fuel → Written fuel c xs
  blocks-Written zero c xs n a h = absurd (omega arith)
  blocks-Written (suc fuel) c [] n a h = none-Written fuel c n
  blocks-Written (suc fuel) c (b ∷ ys) n a h =
      let (buf, t) = some_taken block_size some_block in
      let xs = drop block_size (b ∷ ys) in
      let whole : b ∷ buf ++ xs ≡ b ∷ ys = rw t at (take-append-drop block_size (b ∷ ys)) in
      let bytes : All IsByte (b ∷ buf) = rw t at (All-take block_size (b ∷ ys) a) in
      let fits : length (b ∷ buf) ≤ block_size =
        omega (arith, ap length t, length-take block_size (b ∷ ys)) in
      let (c', e, n') = checksum_step c b buf bytes in
      let (out, p) = block-IsPacked addr block_size (b ∷ buf) bytes fits small in
      subst (λ l. Written (suc fuel) c l) whole
        (round-Written fuel c c' b buf xs out (rw whole t) (rw whole refl) bytes fits p e (
          blocks-Written fuel c' xs n' (All-drop block_size (b ∷ ys) a)
            (omega (arith, length-drop block_size (b ∷ ys)))))
    where
      some_taken : (n : ℕ) → 0 < n → (buf : List ℕ) × (take n (b ∷ ys) ≡ b ∷ buf)
      some_taken zero h = absurd (omega arith)
      some_taken (suc k) h = (take k ys, refl)
