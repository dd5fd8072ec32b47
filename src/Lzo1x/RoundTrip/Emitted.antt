-- ===== src/Lzo1x/RoundTrip/Emitted.antt =====
-- The invariant of the compressor: the output so far, completed in any way, takes the decoder to the
-- end of the part of the source that it stands for.
use lzo.Base.{ℕ, ◌+◌, ◌-◌, ◌*◌, ◌%◌, ◌^◌, ◌≤◌, ◌<◌, ◌≡◌, refl, sym, ◌∙◌, ap, suc, arith}
use lzo.Base.{leb, ◌==◌, Bool-cases, inl, inr, false}
use lzo.Base.{List, [], ◌∷◌, ◌++◌, length, length-append, length-take, take}
use lzo.Lzo1x.Format.{Variant}
use lzo.Lzo1x.Decoder.{safe}
use lzo.Lzo1x.Decoder.{Step, State, next, match_next, match_done, any_match, start, step}
use lzo.Lzo1x.Decoder.{literal_run, first_literal_run, handle_match}
use lzo.Lzo1x.Encoder.{store_run, store_literals}
use lzo.Lzo1x.Encoder.Growth.{length-store_run}
use lzo.Lzo1x.RoundTrip.Reach.{Reach, here, round}
use lzo.Lzo1x.RoundTrip.Literals.{
  match_next_lem, literal_run_lem, first_literal_run_lem, literal_run-match, start-store_run,
  patch_lem,
}
use lzo.Lzo1x.RoundTrip.Matches.{IsRead}
use mathlib.Core.List.{append_assoc, append-nil}
use mathlib.Core.Path.{subst}

-- After a match: the two low bits of the last byte but one count the literals that follow. What
-- follows is at most a 16th longer, but for four bytes, than the part of the source it stands for.
pub record Emitted (v : Variant) (src : List ℕ) (size room : ℕ) (out : List ℕ) (p : ℕ)
    : Type 0 where
  pub front : List ℕ
  pub low : ℕ
  pub last : ℕ
  pub shape : out ≡ front ++ (low ∷ last ∷ [])
  pub free : low % 4 ≡ 0
  pub byte : low < 256
  pub reads :
      (k : ℕ) (rest : List ℕ)
      → k < 4
      → 3 ≤ length rest
      → 16 * length rest ≤ 17 * (length src - p) + 64
      → Reach v size room
          (start size (front ++ ((low + k) ∷ last ∷ rest)))
          (match_done size (low + k) rest (take p src))

pub Reach-eq :
    {v : Variant} {size room : ℕ} {a m n : Step State}
    → Reach v size room a m
    → m ≡ n
    → Reach v size room a n
Reach-eq {v} {size} {room} {a} r e = subst (λ x. Reach v size room a x) e r

match_done_zero :
    (size low : ℕ) (ip out : List ℕ)
    → low % 4 ≡ 0
    → match_done size low ip out ≡ next (literal_run, ip, out)
unfolding match_done
match_done_zero size low ip out h = ground arith

match_done_some :
    (size low t : ℕ) (ip out : List ℕ)
    → low % 4 ≡ 0
    → 0 < t
    → t < 4
    → match_done size (low + t) ip out ≡ match_next size t ip out
unfolding match_done
match_done_some size low t ip out h k l =
    let e : (low + t) % 4 ≡ t = omega arith in
    let e' : (t == 0) ≡ false = ground arith in rw (e, e')

step_handle :
    (v : Variant) (size m : ℕ) (rest out : List ℕ)
    → step v size (handle_match m, rest, out) ≡ any_match v size m rest out
unfolding step
step_handle v size m rest out = refl

module _ (v : Variant) (size room : ℕ) where
  pub handled :
      {a : Step State} (m : ℕ) (rest out : List ℕ)
      → length out + length rest + 3 ≤ room
      → Reach v size room a (next (handle_match m, rest, out))
      → Reach v size room a (any_match v size m rest out)
  handled m rest out c r = round (handle_match m, rest, out) r c (step_handle v size m rest out)

  -- A run of literals in front of a match, from the place where a literal run is expected.
  run_then_match :
      {a : Step State} (lits : List ℕ) (m : ℕ) (rest out : List ℕ)
      → 4 ≤ length lits
      → length lits < 2 ^ 62
      → length out + length lits ≤ size
      → 16 ≤ m
      → 2 ≤ length rest
      → 16 * (length out + length lits + length rest + 4) + 16 + length lits ≤ 16 * room
      → Reach v size room a
          (next (literal_run, store_run (length lits) ++ (lits ++ (m ∷ rest)), out))
      → Reach v size room a (any_match v size m rest (out ++ lits))
  run_then_match lits m rest out h k l b n c r = handled m rest (out ++ lits) (omega (arith, all)) (
      round (first_literal_run, m ∷ rest, out ++ lits)
        (round (literal_run, store_run (length lits) ++ (lits ++ (m ∷ rest)), out) r
          (omega (
            arith,
            length-store_run (length lits),
            length-append (store_run (length lits)) (lits ++ (m ∷ rest)),
            length-append lits (m ∷ rest),
          ))
          (literal_run_lem v size lits (m ∷ rest) out h k l (omega arith)))
        (omega (arith, all)) (first_literal_run_lem v size m rest (out ++ lits) b))
    where
      all : length (out ++ lits) ≡ length out + length lits
      all = length-append out lits

  -- The first literals of a stream.
  pub fresh_literals :
      (lits : List ℕ) (m : ℕ) (rest : List ℕ)
      → 4 ≤ length lits
      → length lits < 2 ^ 62
      → length lits ≤ size
      → 16 ≤ m
      → 2 ≤ length rest
      → 17 * length lits + 16 * length rest + 80 ≤ 16 * room
      → Reach v size room
          (start size (store_literals [] lits ++ (m ∷ rest)))
          (any_match v size m rest lits)
  unfolding store_literals
  fresh_literals lits m rest h k l b n c =
      let some_lits : (length lits == 0) ≡ false = ground arith in
      let many : leb (length lits) 3 ≡ false = ground arith in
      rw (some_lits, many, append_assoc (store_run (length lits)) lits (m ∷ rest))
        (run_then_match lits m rest [] h k (omega arith) b n (omega arith)
          (Reach-eq here (start-store_run size (length lits) (lits ++ (m ∷ rest)) h k)))

  -- The literals between two matches.
  pub Emitted-literals :
      (src out : List ℕ) (p : ℕ) (lits : List ℕ) (m : ℕ) (rest : List ℕ)
      → Emitted v src size room out p
      → length lits < 2 ^ 62
      → length (take p src) + length lits ≤ size
      → 16 ≤ m
      → 2 ≤ length rest
      → p + length lits ≤ length src
      → 16 * length rest + 32 ≤ 17 * (length src - (p + length lits)) + 64
      → 17 * length src + 128 ≤ 16 * room
      → Reach v size room
          (start size (store_literals out lits ++ (m ∷ rest)))
          (any_match v size m rest (take p src ++ lits))
  unfolding store_literals
  Emitted-literals src out p [] m rest w k l b n i j c =
      rw (append-nil, w.shape, append_assoc)
        (handled m rest (take p src) (omega (arith, length-take p src)) (
          round (literal_run, m ∷ rest, take p src)
            (Reach-eq
              (let z : w.low + 0 ≡ w.low = omega arith in
                rw z at (w.reads 0 (m ∷ rest) (omega arith) (omega arith) (omega arith)))
              (match_done_zero size w.low (m ∷ rest) (take p src) w.free))
            (omega (arith, length-take p src)) (literal_run-match v size m rest (take p src) b n)))
  Emitted-literals src out p (x ∷ xs) m rest w k l b n i j c =
      elim (Bool-cases (leb (length lits) 3)) [
        | inl few ↦
            let f : length lits < 4 = ground arith in
            let e = patch_lem w.front w.low w.last (length lits) w.free w.byte f in
            rw
              (
                some_lits,
                few,
                w.shape,
                e,
                append_assoc (w.front ++ ((w.low + length lits) ∷ w.last ∷ [])) lits (m ∷ rest),
                append_assoc w.front ((w.low + length lits) ∷ w.last ∷ []) (lits ++ (m ∷ rest)),
              )
              (handled m rest (take p src ++ lits)
                (omega (arith, length-take p src, length-append (take p src) lits))
                (Reach-eq
                  (w.reads (length lits) (lits ++ (m ∷ rest)) f
                    (omega (arith, length-append lits (m ∷ rest)))
                    (omega (arith, length-append lits (m ∷ rest))))
                  (match_done_some size w.low (length lits) (lits ++ (m ∷ rest)) (take p src) w.free
                      (omega arith) f
                    ∙ match_next_lem size m lits rest (take p src) f l n)))
        | inr many ↦
            rw
              (
                some_lits,
                many,
                w.shape,
                append_assoc (w.front ++ (w.low ∷ w.last ∷ [])) (store_run (length lits) ++ lits)
                    (m ∷ rest),
                append_assoc w.front (w.low ∷ w.last ∷ [])
                    ((store_run (length lits) ++ lits) ++ (m ∷ rest)),
                append_assoc (store_run (length lits)) lits (m ∷ rest),
              )
              (run_then_match lits m rest (take p src) (ground arith) k l b n
                (omega (arith, length-take p src))
                (Reach-eq
                  (let z : w.low + 0 ≡ w.low = omega arith in
                    rw z at (
                      w.reads 0 (store_run (length lits) ++ (lits ++ (m ∷ rest))) (omega arith)
                        (omega (arith, run_length, length-append lits (m ∷ rest)))
                        (omega (
                          arith,
                          run_length,
                          length-append lits (m ∷ rest),
                          length-store_run (length lits),
                        ))))
                  (match_done_zero size w.low _ (take p src) w.free)))
      ]
    where
      lits : List ℕ
      lits = x ∷ xs

      some_lits : (length lits == 0) ≡ false
      some_lits = ground arith

      run_length :
          length (store_run (length lits) ++ (lits ++ (m ∷ rest)))
          ≡ length (store_run (length lits)) + length (lits ++ (m ∷ rest))
      run_length = length-append (store_run (length lits)) (lits ++ (m ∷ rest))

module _ (v : Variant) (src : List ℕ) (size room q off len : ℕ) (out code : List ℕ)
    (c : IsRead v src size q off len code) (short : length code < len)
    (inside : q + len ≤ length src) where
  behind_length :
      (k : ℕ) (rest : List ℕ) → suc (length (c.behind k rest)) ≡ length code + length rest
  behind_length k rest = omega (
    arith,
    ap length (c.first k rest),
    length-append c.front ((c.low + k) ∷ c.last ∷ rest),
    ap length c.shape,
    length-append c.front (c.low ∷ c.last ∷ []),
  )

  -- A match behind output that leads to its first byte is emitted.
  pub match-Emitted :
      ((m : ℕ) (rest : List ℕ)
        → 16 ≤ m
        → 2 ≤ length rest
        → 16 * length rest + 32 ≤ 17 * (length src - q) + 64
        → Reach v size room (start size (out ++ (m ∷ rest))) (any_match v size m rest (take q src)))
      → Emitted v src size room (out ++ code) (q + len)
  match-Emitted before = record {
    front = out ++ c.front;
    low = c.low;
    last = c.last;
    shape = rw c.shape (sym (append_assoc out c.front (c.low ∷ c.last ∷ [])));
    free = c.free;
    byte = c.byte;
    reads = λ k rest h l r.
        rw (append_assoc out c.front ((c.low + k) ∷ c.last ∷ rest), c.first k rest)
          (Reach-eq
            (before (c.marker k) (c.behind k rest) (c.big k) (omega (arith, c.some_left k rest))
              (omega (arith, behind_length k rest)))
            (c.reads k rest h));
  }
