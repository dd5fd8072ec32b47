-- ===== src/Lzo1a/RoundTrip/Pieces.antt =====
-- src/lzo1a.c: the pieces of compressed data, read back: literal runs, matches and R1 matches.
use lzo.Base.{ℕ, suc, ◌+◌, ◌-◌, ◌/◌, ◌%◌, ◌^◌, ◌≤◌, ◌<◌, ◌≡◌, refl, arith, ◌∙◌, ap, u8}
use lzo.Base.{ltb, leb, ◌==◌, true, false}
use lzo.Base.{List, [], ◌∷◌, ◌++◌, length, take, get_or, length-take, take_snoc}
use lzo.Lzo1x.Decoder.{next, copy_literals}
use lzo.Lzo1x.RoundTrip.Matches.{Repeats}
use lzo.Lzo1.Decoder.{r0_length, match_copy}
use lzo.Lzo1.Encoder.{match_code}
use lzo.Lzo1.RoundTrip.Runs.{literals_copied}
use lzo.Lzo1.RoundTrip.Stored.{RunReader}
use lzo.Lzo1.RoundTrip.Matches.{copied, offset_read, match_code-MatchRead}
use lzo.Lzo1a.Decoder.{Mode, any_code, after_literals, mode_round, marker_round, literal_round}
use lzo.Lzo1a.RoundTrip.Coded.{Coded, Coded-nil, Coded-append, Coded-round}

module _ (size : ℕ) where
  -- A short run, of 1 to 31 literals.
  pub short-Coded :
      (lits out : List ℕ)
      → 0 < length lits
      → length lits < 32
      → length out + length lits ≤ size
      → Coded size any_code out (u8 (length lits) ∷ lits) after_literals (out ++ lits)
  short-Coded lits out some_lits few room =
      Coded-round size any_code after_literals out (out ++ lits) (u8 (length lits)) lits λ more.
        let e : u8 (length lits) ≡ length lits = omega arith in
        let pos : (length lits == 0) ≡ false = ground arith in
        let short : ltb (length lits) 32 ≡ true = ground arith in
        unfold mode_round marker_round in
        rw (e, pos, short, literals_copied size lits more out room) refl

  -- A run behind a zero marker, after which the outer loop goes on.
  pub long-Coded :
      (b : ℕ) (lits out : List ℕ)
      → 248 ≤ b
      → r0_length b ≡ length lits
      → length out + length lits ≤ size
      → Coded size any_code out (0 ∷ b ∷ lits) any_code (out ++ lits)
  long-Coded b lits out h e room =
      Coded-round size any_code any_code out (out ++ lits) 0 (b ∷ lits) λ more.
        let long : leb 248 b ≡ true = ground arith in
        unfold mode_round marker_round in
        rw (long) (rw (rw long at e) (rw (literals_copied size lits more out room) refl))

  -- A run behind a zero marker, after which a match must follow.
  pub r0-Coded :
      (b : ℕ) (lits out : List ℕ)
      → b < 248
      → r0_length b ≡ length lits
      → length out + length lits ≤ size
      → Coded size any_code out (0 ∷ b ∷ lits) after_literals (out ++ lits)
  r0-Coded b lits out h e room =
      Coded-round size any_code after_literals out (out ++ lits) 0 (b ∷ lits) λ more.
        let short : leb 248 b ≡ false = ground arith in
        unfold mode_round marker_round in
        rw (short) (rw (rw short at e) (rw (literals_copied size lits more out room) refl))

  -- A code, and some loop in which it leaves the decompressor.
  abbrev pub Last : List ℕ → List ℕ → List ℕ → Type 0
  Last out code out' = (m : Mode) × Coded size any_code out code m out'

  pub mode_runs : RunReader size (λ out code out'. Coded size any_code out code any_code out') Last
  mode_runs = record {
    empty = Coded-nil size any_code;
    joined = Coded-append size any_code any_code any_code;
    closed = λ out code out' code' out'' c (m, c').
        (m, Coded-append size any_code any_code m out code out' code' out'' c c');
    none_left = λ out. (any_code, Coded-nil size any_code out);
    long_run = long-Coded;
    r0_run = λ b lits out h e room. (after_literals, r0-Coded b lits out h e room);
    short_run = λ lits out h k room. (after_literals, short-Coded lits out h k room);
  }

module _ (src : List ℕ) (size q off : ℕ) (near : off ≤ 8192) where
  -- A match, in either loop.
  pub match_code-Coded :
      (m : Mode) (len : ℕ)
      → Repeats src size q off len
      → 3 ≤ len
      → len ≤ 264
      → Coded size m (take q src) (match_code len off) any_code (take (q + len) src)
  match_code-Coded m len r low high =
      let c = match_code-MatchRead src size q off len r low near high in
      rw c.whole (
        Coded-round size m any_code (take q src) (take (q + len) src) c.marker c.rest
          λ more. reads m c.marker (c.rest ++ more) more c.is_match (c.reads more))
    where
      reads :
          (m : Mode) (t : ℕ) (ip more : List ℕ)
          → 32 ≤ t
          → match_copy size t ip (take q src) ≡ next (more, take (q + len) src)
          → mode_round size m (t ∷ ip) (take q src) ≡ next (any_code, (more, take (q + len) src))
      reads any_code t ip more h e =
          let nonzero : (t == 0) ≡ false = ground arith in
          let not_short : ltb t 32 ≡ false = ground arith in
          unfold mode_round marker_round in rw (nonzero, not_short, e) refl
      reads after_literals t ip more h e =
          let a_match : leb 32 t ≡ true = ground arith in
          unfold mode_round literal_round in rw (a_match, e) refl

  -- A R1 match: three bytes copied and one literal.
  pub r1-Coded :
      Repeats src size q off 3
      → q + 3 < length src
      → length src ≤ size
      → Coded size after_literals
          (take q src)
          ((off - 1) % 32 ∷ u8 ((off - 1) / 2 ^ 5) ∷ get_or src (q + 3) 0 ∷ [])
          after_literals
          (take (q + 4) src)
  r1-Coded r inside fits =
      Coded-round size after_literals after_literals (take q src) (take (q + 4) src)
        ((off - 1) % 32) (_ ∷ _ ∷ [])
        λ more.
          let low : leb 32 ((off - 1) % 32) ≡ false = ground arith in
          let same : ((off - 1) % 32) % 32 ≡ (off - 1) % 32 = omega arith in
          let o : 1 + (off - 1) ≡ off = omega (arith, r.ahead) in
          let read = offset_read src size q off 3 r (omega arith) near ((off - 1) % 32) same in
          let s : suc (q + 3) ≡ q + 4 = omega arith in
          let literal : copy_literals size 1 (get_or src (q + 3) 0 ∷ more) (take (q + 3) src)
              ≡ next (more, take (q + 4) src) =
            literals_copied size (get_or src (q + 3) 0 ∷ []) more (take (q + 3) src)
              (omega (arith, length-take (q + 3) src))
            ∙ ap (λ out. next (more, out)) (rw s at (take_snoc (q + 3) src 0 inside)) in
          unfold mode_round literal_round in
          rw
            (
              low,
              rw same at read,
              o,
              copied src size q off 3 r q 3 (omega arith) (omega arith),
              literal,
            )
            refl
