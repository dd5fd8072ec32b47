-- ===== src/Lzo1x/RoundTrip/Whole.antt =====
-- The end of the stream, and the round trip of the whole.
use lzo.Base.{ℕ, suc, ◌+◌, ◌-◌, ◌*◌, ◌/◌, ◌^◌, ◌≤◌, ◌<◌, ◌≡◌, refl, ap, arith, u8, u64}
use lzo.Base.{ltb, leb, ◌==◌, Bool-cases, inl, inr, true, false, ◌&&◌, le→ltb}
use lzo.Base.{List, [], ◌∷◌, ◌++◌, length, length-append, slice, length-slice, take_all}
use lzo.Base.{All, IsByte, some}
use lzo.Lzo1x.Format.{Variant}
use lzo.Lzo1x.Decoder.{safe}
use lzo.Lzo1x.Decoder.{done, any_match, start, first_literal_run}
use lzo.Lzo1x.Decoder.{literal_run, e_ok, returned, decompress, m4_match, match_length, eof_found}
use lzo.Lzo1x.Encoder.{store_literals, store_last, eof_code, compress}
use lzo.Lzo1x.Encoder.Bytes.{store_last-bytes, All-append, All-slice}
use lzo.Lzo1x.Encoder.Growth.{length-store_last}
use lzo.Lzo1x.RoundTrip.Reach.{Reach, here, round, Reach-decompress}
use lzo.Lzo1x.RoundTrip.Literals.{
  match_next_lem, first_literal_run_lem, copy_front, literal_run-match,
}
use lzo.Lzo1x.RoundTrip.Emitted.{Reach-eq, handled}
use lzo.Lzo1x.RoundTrip.Blocks.{Written, blocks-IsOutput, literals_read}
use mathlib.Core.Path.{subst}

any_match-eof :
    (v : Variant) (size : ℕ) (out : List ℕ) → any_match v size 17 (0 ∷ 0 ∷ []) out ≡ done e_ok out
unfolding any_match m4_match match_length eof_found
any_match-eof v size out = refl

-- A whole stream of up to 238 literals.
start_short :
    (v : Variant) (size room : ℕ) (lits : List ℕ)
    → 0 < length lits
    → length lits ≤ 238
    → length lits ≤ size
    → length lits + 8 ≤ room
    → Reach v size room
        (start size (u8 (17 + length lits) ∷ (lits ++ eof_code)))
        (any_match v size 17 (0 ∷ 0 ∷ []) lits)
unfolding start
start_short v size room lits h k l c =
    let t = length lits in
    let e : u8 (17 + t) ≡ 17 + t = omega arith in
    let e' : 17 + t - 17 ≡ t = omega arith in
    let first : ltb 17 (17 + t) ≡ true = ground arith in
    let n = length-append lits eof_code in
    let enough = le→ltb (suc (length (lits ++ eof_code))) 1 (omega arith) in
    let fits = le→ltb (size - 0) (u64 t) (omega arith) in
    let more = le→ltb (length (lits ++ eof_code)) (u64 (t + 3)) (omega (arith, n)) in
    elim (Bool-cases (ltb t 4)) [
      | inl few ↦
          rw (e, enough, first, e', few)
            (handled v size room 17 (0 ∷ 0 ∷ []) lits (omega arith) (
              Reach-eq here (
                match_next_lem size 17 lits (0 ∷ 0 ∷ []) [] (ground arith) (omega arith)
                  (omega arith))))
      | inr many ↦
          rw
            (e, enough, first, e', many, fits, more, copy_front size lits eof_code [] (omega arith))
            (handled v size room 17 (0 ∷ 0 ∷ []) lits (omega arith) (
              round (first_literal_run, eof_code, lits) here (omega arith)
                (first_literal_run_lem v size 17 (0 ∷ 0 ∷ []) lits (omega arith))))
    ]

-- Behind other output, or where there are too many, the last literals take the form of the others.
store_last_later :
    (out lits : List ℕ)
    → (length out == 0 && leb (length lits) 238) ≡ false
    → store_last out lits ≡ store_literals out lits
unfolding store_last store_literals
store_last_later out lits h = elim (Bool-cases (length lits == 0)) [
  | inl nothing ↦ rw nothing
  | inr something ↦ rw (something, h)
]

-- A whole stream without a match, of up to 238 literals or of none.
fresh_last :
    (v : Variant) (size room : ℕ) (src : List ℕ)
    → length src ≤ size
    → length src ≤ 238
    → length src + 8 ≤ room
    → Reach v size room
        (start size (store_last [] src ++ eof_code))
        (any_match v size 17 (0 ∷ 0 ∷ []) src)
unfolding store_last
fresh_last v size room [] h k c = handled v size room 17 (0 ∷ 0 ∷ []) [] (omega arith) (
    round (literal_run, eof_code, []) (Reach-eq here (unfold start in refl)) (omega arith)
      (literal_run-match v size 17 (0 ∷ 0 ∷ []) [] (omega arith) (omega arith)))
fresh_last v size room (x ∷ xs) h k c =
    let few : leb (length (x ∷ xs)) 238 ≡ true = ground arith in
    let some_lits : (length (x ∷ xs) == 0) ≡ false = ground arith in
    rw (some_lits, few) (start_short v size room (x ∷ xs) (omega arith) k h c)

module _ (v : Variant) (src : List ℕ) (size room : ℕ) (bytes : All IsByte src)
    (fits : length src ≤ size) (bounded : length src < 2 ^ 62)
    (holds : 17 * length src + 128 ≤ 16 * room) where
  last_read :
      (out : List ℕ) (t : ℕ)
      → t ≤ length src
      → Written v src size room bytes fits bounded holds out (length src - t)
      → Reach v size room
          (start size (store_last out (slice src (length src - t) (length src)) ++ eof_code))
          (any_match v size 17 (0 ∷ 0 ∷ []) src)
  last_read out t h w = elim (Bool-cases (length out == 0 && leb (length lits) 238)) [
    | inr later ↦ rw (store_last_later out lits later) (
        subst
          (λ x.
            Reach v size room (start size (store_literals out lits ++ eof_code))
              (any_match v size 17 (0 ∷ 0 ∷ []) x))
          (take_all (length src) src (omega arith))
          (literals_read v src size room bytes fits bounded holds out (length src - t) (length src)
            17 (0 ∷ 0 ∷ []) w (four later) (omega arith) (omega arith) (omega arith) (omega arith)
            (omega arith)))
    | inl first ↦ only w first
  ]
    where
      lits : List ℕ
      lits = slice src (length src - t) (length src)

      len : length lits ≡ t
      len =
          omega (arith, length-slice (length src - t) (length src) src (omega arith) (omega arith))

      four :
          (length out == 0 && leb (length lits) 238) ≡ false
          → (out ≡ []) × (length src - t ≡ 0)
          → 4 ≤ length src
      four later (e, z) = ground (arith, len, ap length e)

      only :
          Written v src size room bytes fits bounded holds out (length src - t)
          → (length out == 0 && leb (length lits) 238) ≡ true
          → Reach v size room
              (start size (store_last out lits ++ eof_code))
              (any_match v size 17 (0 ∷ 0 ∷ []) src)
      only (inl (e, z)) first =
          let whole : lits ≡ src = rw z (take_all (length src - 0) src (omega arith)) in
          rw (e, whole) (fresh_last v size room src fits (ground (arith, len)) (omega arith))
      only (inr w') first =
          absurd
            (ground (arith, ap length w'.shape, length-append w'.front (w'.low ∷ w'.last ∷ [])))

  -- The whole stream is written, and read to its end.
  pub compress_read :
      (d_bits addr : ℕ)
      → (out : List ℕ) × (compress v d_bits addr src ≡ some out)
        × All IsByte out
        × (length out ≤ length src + length src / 16 + 64 + 3)
        × Reach v size room (start size out) (done e_ok src)
  unfolding compress
  compress_read d_bits addr =
      let (r, e, (h, w, o, s)) =
        blocks-IsOutput v src size room bytes fits bounded holds d_bits addr (length src + 1) 0 0 []
          (omega arith) (omega arith) (omega arith) (omega arith) (inl (refl, omega arith)) tt
          (omega arith) in
      let lits = slice src (length src - r.1) (length src) in
      let code = store_last r.0 lits ++ eof_code in
      let code_bytes : All IsByte code =
        All-append (store_last r.0 lits) eof_code
          (store_last-bytes r.0 lits o (All-slice src (length src - r.1) (length src) bytes))
          (omega arith) in
      let growth : length code ≤ length src + length src / 16 + 64 + 3 = omega (
        arith,
        s,
        length-append (store_last r.0 lits) eof_code,
        length-store_last r.0 lits,
        length-slice (length src - r.1) (length src) src (omega arith) (omega arith),
      ) in
      (code, rw e, code_bytes, growth, Reach-eq (last_read r.0 r.1 h w) (any_match-eof v size src))

-- On every source of less than 2 ^ 62 bytes the compressor `lzo1x_1_compress` (or
-- `lzo1y_1_compress`), for any dictionary size and wherever the source lies in memory, ends; what
-- it writes are bytes, and at most a 16th of the source and 67 bytes more than the source; and the
-- safe decompressor, given a buffer at least as long as the source, returns LZO_E_OK with exactly
-- the source.
pub compress-decompress :
    (v : Variant) (src : List ℕ) (size : ℕ) (bytes : All IsByte src) (fits : length src ≤ size)
    (bounded : length src < 2 ^ 62) (d_bits addr : ℕ)
    → (out : List ℕ) × (compress v d_bits addr src ≡ some out)
      × All IsByte out
      × (length out ≤ length src + length src / 16 + 64 + 3)
      × (decompress v size out ≡ returned e_ok src)
compress-decompress v src size bytes fits bounded d_bits addr =
    let room = length src + length src + 8 in
    let (out, e, a, l, r) =
      compress_read v src size room bytes fits bounded (omega arith) d_bits addr in
    (out, e, a, l, Reach-decompress v size out a r)
