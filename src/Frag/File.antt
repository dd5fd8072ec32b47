-- ===== src/Frag/File.antt =====
-- lzo_cpu/lzo_frag.c: a whole file as its header, its table of lengths and its payload.
use lzo.Base.{ℕ, ◌+◌, ◌-◌, ◌*◌, ◌^◌, ◌<◌, ◌≡◌, refl, arith}
use lzo.Base.{inl, inr, false, ltb, Bool-cases, ltb→lt, ltb→le, take-append_behind}
use lzo.Base.{List, ◌++◌, length, drop, length-append, drop-append_front, take, length-take, true}
use lzo.Frag.{read_chunks}
use lzo.Frag.{
  ok, failed, Alg, magic_tag, write_u16, write_u32, write_lengths, write_payload, decompress_file,
}
use lzo.Frag.Ints.{or_bytes}
use lzo.Frag.Packing.{Packed}

module _ (alg : Alg) (addr block_size count : ℕ) (input : List ℕ) where
  abbrev pub file : List (List ℕ) → List ℕ
  file comps =
      write_u16 magic_tag
      ++ (write_u32 (length input)
          ++ (write_u32 block_size
              ++ (write_u32 count ++ (write_lengths comps ++ write_payload comps))))

  module _ (small : length input < 2 ^ 32) (narrow : block_size < 2 ^ 32) (few : count < 2 ^ 32)
      (malloc : ℕ → List ℕ) (p : Packed alg addr block_size input count 0 0) where
    -- What stands in front of the payload.
    abbrev front : List ℕ
    front =
        write_u16 magic_tag
        ++ (write_u32 (length input)
            ++ (write_u32 block_size ++ (write_u32 count ++ write_lengths p.comps)))

    -- The reading of a whole header and table, with any bytes behind them.
    module _ (more : List ℕ) where
      payload_eq : drop (14 + count * 4) (front ++ more) ≡ more
      payload_eq =
          let e : length front ≡ 14 + count * 4 = omega (arith, p.table) in
          rw e at (drop-append_front front more)

      length-more : length (front ++ more) ≡ 14 + count * 4 + length more
      length-more = omega (arith, p.table, length-append (write_lengths p.comps) more)

    -- The chunks that decompress_file finds.
    pub read_chunks-file :
        read_chunks
          (length input)
          block_size
          count
          (drop 14 (file p.comps))
          (drop (14 + count * 4) (file p.comps))
          0
        ≡ ok p.parsed
    read_chunks-file = rw (payload_eq (write_payload p.comps)) (p.reads (write_payload p.comps))

    decompress_file-short_payload :
        (more : List ℕ)
        → length more < length (write_payload p.comps)
        → decompress_file malloc (front ++ more) ≡ failed
    unfolding decompress_file
    decompress_file-short_payload more h =
        let long : ltb (length (front ++ more)) 14 ≡ false = ground (arith, length-more more) in
        let untruncated : ltb (length (front ++ more)) (14 + count * 4) ≡ false =
          ground (arith, length-more more) in
        let missing : ltb (length more) (0 + length (write_payload p.comps)) ≡ true =
          ground arith in
        rw
          (
            or_bytes (length input) small,
            or_bytes block_size narrow,
            or_bytes count few,
            payload_eq more,
            long,
            untruncated,
            p.sums 0 more (omega (arith, p.light)),
            missing,
          )
          refl

    abbrev header : List ℕ
    header =
        write_u16 magic_tag
        ++ (write_u32 (length input) ++ (write_u32 block_size ++ write_u32 count))

    decompress_file-short_table :
        (rest : List ℕ) → length rest < count * 4 → decompress_file malloc (header ++ rest) ≡ failed
    unfolding decompress_file
    decompress_file-short_table rest h =
        let len = length-append header rest in
        let long : ltb (length (header ++ rest)) 14 ≡ false = ground (arith, len) in
        let truncated : ltb (length (header ++ rest)) (14 + count * 4) ≡ true =
          ground (arith, len) in
        rw
          (
            or_bytes (length input) small,
            or_bytes block_size narrow,
            or_bytes count few,
            long,
            truncated,
          )
          refl

    decompress_file-short :
        (comp : List ℕ) → length comp < 14 → decompress_file malloc comp ≡ failed
    unfolding decompress_file
    decompress_file-short comp h = let e : ltb (length comp) 14 ≡ true = ground arith in rw e refl

    -- A part of the file that is not the whole is refused.
    pub decompress_file-cut :
        (k : ℕ)
        → k < length (file p.comps)
        → decompress_file malloc (take k (file p.comps)) ≡ failed
    decompress_file-cut k h =
        let table = write_lengths p.comps in
        let payload = write_payload p.comps in
        let m = length-more payload in
        elim (Bool-cases (ltb k 14)) [
          | inl t ↦
              decompress_file-short (take k (file p.comps))
                (omega (arith, length-take k (file p.comps), ltb→lt k 14 t))
          | inr f ↦ elim (Bool-cases (ltb k (14 + count * 4))) [
            | inl t ↦ rw (take-append_behind k header (table ++ payload) (ltb→le k 14 f)) (
                decompress_file-short_table (take (k - 14) (table ++ payload)) (
                  omega (
                    arith,
                    ltb→lt k (14 + count * 4) t,
                    ltb→le k 14 f,
                    length-take (k - 14) (table ++ payload),
                  )))
            | inr g ↦
                let e : length front ≡ 14 + count * 4 = omega (arith, p.table) in
                let le = ltb→le k (14 + count * 4) g in
                rw (take-append_behind k front payload (omega (arith, e))) (
                  decompress_file-short_payload (take (k - length front) payload)
                    (omega (arith, e, m, length-take (k - length front) payload)))
          ]
        ]

    pub decompress_file-packed :
        ((n : ℕ) → length (malloc n) ≡ n) → decompress_file malloc (file p.comps) ≡ ok input
    unfolding decompress_file
    decompress_file-packed allocates =
        let payload = write_payload p.comps in
        let long : ltb (length (file p.comps)) 14 ≡ false = ground (arith, length-more payload) in
        let untruncated : ltb (length (file p.comps)) (14 + count * 4) ≡ false =
          ground (arith, length-more payload) in
        let whole : ltb (length payload) (0 + length payload) ≡ false = ground arith in
        rw
          (
            or_bytes (length input) small,
            or_bytes block_size narrow,
            or_bytes count few,
            payload_eq payload,
            long,
            untruncated,
            p.sums 0 payload (omega (arith, p.light)),
            whole,
            p.reads payload,
            p.writes (malloc (length input)) refl (allocates (length input)),
          )
          refl
