-- ===== src/Frag/Packing.antt =====
-- lzo_cpu/lzo_frag.c: all chunks of an input, compressed and decompressed.
use mathlib.Core.Path.{subst}
use lzo.Base.{ℕ, zero, suc, ◌+◌, ◌-◌, ◌*◌, ◌/◌, ◌^◌, ◌≤◌, ◌<◌, ◌≡◌, refl, arith, sym, ap, ◌∙◌}
use lzo.Base.{false, ltb, ◌==◌, ◌||◌, if◌then◌else◌}
use lzo.Base.{List, [], ◌∷◌, ◌++◌, length, take, drop, All, IsByte, u64}
use lzo.Base.{
  length-append, length-take, length-drop, take_all, take-append_front, drop-append_front,
  drop-drop, take-append-drop, drop_all,
}
use lzo.Lzo1x.Decoder.{e_ok}
use lzo.Frag.{
  ok, Alg, Chunk, compress_block_into, decompress_block, make_chunks, compress_chunks, write_u32,
  write_lengths, write_payload, total_length, read_chunks, decompress_chunks, store,
}
use lzo.Lzo1x.Encoder.Bytes.{All-take, All-drop}
use lzo.Frag.Ints.{or_bytes}
use lzo.Frag.Store.{length-store, store-agrees}
use lzo.Frag.Chunks.{block-RoundTrip}

-- The chunks of a file decompress to these pieces, where the output has `size` bytes.
unfoldable pub Decodes : ℕ → List Chunk → List (List ℕ) → Type 0
Decodes size [] [] = Unit
Decodes size [] (p ∷ pieces) = ⊥
Decodes size (ck ∷ chunks) [] = ⊥
Decodes size (ck ∷ chunks) (p ∷ pieces) =
    (decompress_block ck.input (size - ck.offset) ck.in_size ≡ ok (e_ok, p))
    × Decodes size chunks pieces

module _ (alg : Alg) (addr block_size : ℕ) (input : List ℕ) where
  -- The input from `offset` on as `n` chunks, of which the first is number `i`, on the way through
  -- both programs.
  pub record Packed (n i offset : ℕ) : Type 0 where
    pub comps : List (List ℕ)
    pub parsed : List Chunk
    pub pieces : List (List ℕ)
    pub decodes : Decodes (length input) parsed pieces
    pub joined : write_payload pieces ≡ drop offset input
    pub packed : compress_chunks alg addr (make_chunks block_size input n i) ≡ ok comps
    pub light : length (write_payload comps) ≤ n * 2 ^ 21
    pub tight : 16 * length (write_payload comps) ≤ 17 * (length input - offset) + 1072 * n
    pub table : length (write_lengths comps) ≡ n * 4
    pub sums :
        (total : ℕ) (more : List ℕ)
        → total + length (write_payload comps) < 2 ^ 64
        → total_length n (write_lengths comps ++ more) total
          ≡ ok (total + length (write_payload comps))
    pub reads :
        (more : List ℕ)
        → read_chunks
            (length input)
            block_size
            n
            (write_lengths comps ++ more)
            (write_payload comps)
            offset
          ≡ ok parsed
    pub writes :
        (buf : List ℕ)
        → take offset buf ≡ take offset input
        → length buf ≡ length input
        → decompress_chunks buf parsed ≡ ok input

  pub Packed-nil : (i offset : ℕ) → length input ≤ offset → Packed zero i offset
  unfolding make_chunks compress_chunks write_payload write_lengths total_length read_chunks
      decompress_chunks Decodes
  Packed-nil i offset h = record {
    comps = [];
    parsed = [];
    pieces = [];
    decodes = tt;
    joined = sym (drop_all offset input h);
    packed = refl;
    light = omega arith;
    tight = omega arith;
    table = refl;
    sums = λ total more lt. ap ok (omega arith);
    reads = λ more. refl;
    writes = λ buf e l.
        ap ok (sym (take_all offset buf (omega (arith, l))) ∙ e ∙ take_all offset input h);
  }

  -- Chunk `i` of `size` bytes in front of `n` others, and what the two programs make of it.
  module _ (bytes : All IsByte input) (small : length input < 2 ^ 32) where
    module _ (n i size : ℕ) (fits : i * block_size + size ≤ length input)
        (low : size ≤ 2 ^ 20) where
      abbrev off : ℕ
      off = i * block_size

      abbrev piece : List ℕ
      piece = take size (drop off input)

      length-piece : length piece ≡ size
      length-piece = omega (arith, length-take size (drop off input), length-drop off input)

      abbrev Made : Type 0
      Made =
          (if ltb (length input - off) block_size || block_size == 0
            then length input - off
            else block_size)
          ≡ size

      abbrev Read : Type 0
      Read = (if n == 0 then u64 (length input + 2 ^ 64 - off) else block_size) ≡ size

      make_chunks_cons :
          Made
          → make_chunks block_size input (suc n) i
            ≡ record { input = piece; in_size = size; offset = off }
              ∷ make_chunks block_size input n (suc i)
      unfolding make_chunks
      make_chunks_cons made = rw made refl

      -- The first chunk compressed.
      module _ (comp : List ℕ) (b : length comp ≤ size + size / 16 + 64 + 3) where
        total_length_cons :
            (lengths : List ℕ) (total : ℕ)
            → total + length comp < 2 ^ 64
            → total_length (suc n) (write_u32 (length comp) ++ lengths) total
              ≡ total_length n lengths (total + length comp)
        unfolding total_length
        total_length_cons lengths total h =
            let e : u64 (total + length comp) ≡ total + length comp = omega arith in
            rw (or_bytes (length comp) (omega arith), e) refl

        read_chunks_cons :
            Read
            → (lengths blk : List ℕ) (chunks : List Chunk)
            → read_chunks (length input) block_size n lengths blk (off + size) ≡ ok chunks
            → read_chunks
                (length input)
                block_size
                (suc n)
                (write_u32 (length comp) ++ lengths)
                (comp ++ blk)
                off
              ≡ ok (record { input = comp; in_size = size; offset = off } ∷ chunks)
        unfolding read_chunks
        read_chunks_cons read lengths blk chunks e =
            let r : u64 (off + size) ≡ off + size = omega arith in
            let enough : ltb (length (comp ++ blk)) (length comp) ≡ false =
              ground (arith, length-append comp blk) in
            rw
              (
                or_bytes (length comp) (omega arith),
                read,
                enough,
                r,
                take-append_front comp blk,
                drop-append_front comp blk,
                e,
              )
              refl

      decompress_chunks_cons :
          (comp buf : List ℕ) (chunks : List Chunk)
          → decompress_block comp (length input - off) size ≡ ok (e_ok, piece)
          → length buf ≡ length input
          → decompress_chunks buf (record { input = comp; in_size = size; offset = off } ∷ chunks)
            ≡ decompress_chunks (store buf off piece) chunks
      unfolding decompress_chunks
      decompress_chunks_cons comp buf chunks d len = rw (len, d) refl

      compress_chunks_cons :
          (comp : List ℕ) (comps : List (List ℕ)) (chunks : List Chunk)
          → compress_block_into alg (addr + off) piece (size + size / 16 + 64 + 3) ≡ ok comp
          → compress_chunks alg addr chunks ≡ ok comps
          → compress_chunks alg addr
              (record { input = piece; in_size = size; offset = off } ∷ chunks)
            ≡ ok (comp ∷ comps)
      unfolding compress_chunks
      compress_chunks_cons comp comps chunks c e = rw (c, e) refl

      Packed-cons : Made → Read → Packed n (suc i) (off + size) → Packed (suc n) i off
      unfolding write_payload write_lengths Decodes
      Packed-cons made read p =
          let (comp, c, b, d) = rw length-piece at (
            block-RoundTrip alg (addr + off) (length input - off) piece
              (All-take size (drop off input) (All-drop off input bytes))
              (omega (arith, length-piece)) (omega (arith, length-piece))) in
          record {
            comps = comp ∷ p.comps;
            parsed = record { input = comp; in_size = size; offset = off } ∷ p.parsed;
            pieces = piece ∷ p.pieces;
            decodes = (d, p.decodes);
            joined =
                ap (λ (rest : List ℕ). piece ++ rest) (p.joined ∙ sym (drop-drop off size input))
                ∙ take-append-drop size (drop off input);
            packed =
                ap (compress_chunks alg addr) (make_chunks_cons made)
                ∙ compress_chunks_cons comp p.comps (make_chunks block_size input n (suc i)) c
                    p.packed;
            light = omega (arith, p.light, length-append comp (write_payload p.comps));
            tight = omega (arith, p.tight, b, length-append comp (write_payload p.comps));
            table = omega (arith, p.table);
            sums = λ total more h.
                (let len = length-append comp (write_payload p.comps) in
                  total_length_cons comp b (write_lengths p.comps ++ more) total
                    (omega (arith, len))
                  ∙ p.sums (total + length comp) more (omega (arith, len))
                  ∙ ap ok (omega (arith, len)));
            reads = λ more.
                read_chunks_cons comp b read (write_lengths p.comps ++ more) (write_payload p.comps)
                  p.parsed (p.reads more);
            writes = λ buf e l.
                (let room : off + length piece ≤ length buf = omega (arith, length-piece, l) in
                  decompress_chunks_cons comp buf p.parsed d l
                  ∙ p.writes (store buf off piece)
                      (store-agrees buf off piece room input size length-piece refl e)
                      (length-store buf off piece room ∙ l));
          }

    -- All of the input from chunk `i` on, where `n` more chunks follow.
    pub pack :
        (n i : ℕ)
        → 0 < block_size
        → block_size ≤ 2 ^ 20
        → (i + n) * block_size < length input
        → length input ≤ (i + suc n) * block_size
        → Packed (suc n) i (i * block_size)
    pack zero i pos bounded before behind =
        let rest = length input - i * block_size in
        Packed-cons zero i rest (omega arith) (omega arith) (ground arith) (omega arith)
          (Packed-nil (suc i) (i * block_size + rest) (omega arith))
    pack (suc n) i pos bounded before behind =
        let h : i * block_size + block_size ≤ length input = omega arith in
        Packed-cons (suc n) i block_size h bounded (ground arith) (ground arith) (
          subst (Packed (suc n) (suc i)) (omega arith)
            (pack n (suc i) pos bounded (omega arith) (omega arith)))
