-- ===== src/Lzo1x/RoundTrip/Literals.antt =====
-- Runs of literals, in each of the forms that the compressor gives them, are read back.
use lzo.Base.{ℕ, suc, ◌+◌, ◌-◌, ◌%◌, ◌^◌, ◌≤◌, ◌<◌, ◌≡◌, refl, ◌∙◌, ap, arith, u64, u8}
use lzo.Base.{ltb, leb, Bool-cases, inl, inr, le→ltb, true, false}
use lzo.Base.{List, [], ◌∷◌, ◌++◌, length, length-append, take-append_front, drop-append_front}
use lzo.Base.{get_or, set, bit_or_add4}
use lzo.Lzo1x.Format.{Variant}
use lzo.Lzo1x.Decoder.{safe}
use lzo.Lzo1x.Decoder.{next, match_next, start, step}
use lzo.Lzo1x.Decoder.{
  literal_run, first_literal_run, handle_match, copy_literals, literals, run_length,
}
use lzo.Lzo1x.Decoder.{e_input_overrun}
use lzo.Lzo1x.Decoder.Copy.{copy_literals_lem}
use lzo.Lzo1x.Encoder.{store_long, store_run, patch}
use lzo.Lzo1x.RoundTrip.Lengths.{long_length-store_long}

pub copy_front :
    (size : ℕ) (lits rest out : List ℕ)
    → length out + length lits ≤ size
    → copy_literals size (length lits) (lits ++ rest) out ≡ next (rest, out ++ lits)
copy_front size lits rest out h =
    copy_literals_lem size (length lits) (lits ++ rest) out (omega (arith, length-append lits rest))
      h
    ∙ rw (take-append_front lits rest, drop-append_front lits rest)

-- One to three literals, counted in a match that stands before them.
pub match_next_lem :
    (size m : ℕ) (lits rest out : List ℕ)
    → length lits < 4
    → length out + length lits ≤ size
    → 2 ≤ length rest
    → match_next size (length lits) (lits ++ (m ∷ rest)) out
      ≡ next (handle_match m, rest, out ++ lits)
unfolding match_next
match_next_lem size m lits rest out h k l =
    let room = le→ltb (size - length out) (u64 (length lits)) (omega arith) in
    let more =
      le→ltb (length (lits ++ (m ∷ rest))) (u64 (length lits + 3))
        (omega (arith, length-append lits (m ∷ rest))) in
    rw (room, more, copy_front size lits (m ∷ rest) out k)

-- The length of a run in front of the bytes that it counts.
run_length-store_run :
    (t : ℕ) (rest out : List ℕ)
    → 4 ≤ t
    → t < 2 ^ 62
    → (m : ℕ) × (ip : List ℕ) × (store_run t ++ rest ≡ m ∷ ip)
      × (m < 16)
      × (run_length m ip out ≡ next (t - 3, rest))
      × (length rest ≤ length ip)
unfolding store_run run_length
run_length-store_run t rest out h k = elim (Bool-cases (leb t 18)) [
  | inl short ↦
      let s : t ≤ 18 = ground arith in
      let e : u8 (t - 3) ≡ suc (t - 4) = omega arith in
      let e' : suc (t - 4) ≡ t - 3 = omega arith in
      (suc (t - 4), rest, rw (short, e), omega arith, rw e', omega arith)
  | inr long ↦
      let s : 18 < t = ground arith in
      let e : 0 + (15 + (t - 18)) ≡ t - 3 = omega arith in
      (
        0,
        store_long (t - 18) (t - 18) ++ rest,
        rw long,
        omega arith,
        long_length-store_long e_input_overrun 15 0 (t - 18) (t - 18) rest out (omega arith)
              (omega arith) (omega arith) (omega arith)
            ∙ rw e,
        omega (arith, length-append (store_long (t - 18) (t - 18)) rest),
      )
]

-- A run of four literals or more.
pub literal_run_lem :
    (v : Variant) (size : ℕ) (lits rest out : List ℕ)
    → 4 ≤ length lits
    → length lits < 2 ^ 62
    → length out + length lits ≤ size
    → 3 ≤ length rest
    → step v size (literal_run, store_run (length lits) ++ (lits ++ rest), out)
      ≡ next (first_literal_run, rest, out ++ lits)
unfolding step literals
literal_run_lem v size lits rest out h k l r =
    let (m, ip, e, small, len, n) = run_length-store_run (length lits) (lits ++ rest) out h k in
    let many = length-append lits rest in
    let t : length lits - 3 + 3 ≡ length lits = omega arith in
    let t' : length lits - 3 + 6 ≡ length lits + 3 = omega arith in
    let enough = le→ltb (suc (length ip)) 3 (omega (arith, many)) in
    let low : leb 16 m ≡ false = ground arith in
    let room = le→ltb (size - length out) (u64 (length lits)) (omega arith) in
    let more = le→ltb (length (lits ++ rest)) (u64 (length lits + 3)) (omega (arith, many)) in
    rw e (rw (enough, low, len, t, t', room, more, copy_front size lits rest out l))

pub first_literal_run_lem :
    (v : Variant) (size m : ℕ) (rest out : List ℕ)
    → 16 ≤ m
    → step v size (first_literal_run, m ∷ rest, out) ≡ next (handle_match m, rest, out)
unfolding step
first_literal_run_lem v size m rest out h = let big : leb 16 m ≡ true = ground arith in rw big

pub literal_run-match :
    (v : Variant) (size m : ℕ) (rest out : List ℕ)
    → 16 ≤ m
    → 2 ≤ length rest
    → step v size (literal_run, m ∷ rest, out) ≡ next (handle_match m, rest, out)
unfolding step
literal_run-match v size m rest out h l =
    let big : leb 16 m ≡ true = ground arith in rw (le→ltb (suc (length rest)) 3 (omega arith), big)

-- A stream that begins with a run of four literals or more.
pub start-store_run :
    (size t : ℕ) (rest : List ℕ)
    → 4 ≤ t
    → t < 2 ^ 62
    → start size (store_run t ++ rest) ≡ next (literal_run, store_run t ++ rest, [])
unfolding start
start-store_run size t rest h k =
    let (m, ip, e, small, len, n) = run_length-store_run t rest [] h k in
    let low : ltb 17 m ≡ false = ground arith in
    rw e (rw (le→ltb (suc (length ip)) 1 (omega arith), low))

-- `op[-2] |= t` on an output that ends in a byte with two free bits and one more byte.
pub patch_lem :
    (front : List ℕ) (low last t : ℕ)
    → low % 4 ≡ 0
    → low < 256
    → t < 4
    → patch (front ++ (low ∷ last ∷ [])) t ≡ front ++ ((low + t) ∷ last ∷ [])
unfolding patch
patch_lem front low last t h k l =
    let e : length (front ++ (low ∷ last ∷ [])) - 2 ≡ length front =
      omega (arith, length-append front (low ∷ last ∷ [])) in
    rw (e, get_or-here front, set-here front)
      (ap (λ x. front ++ (x ∷ last ∷ []))
        (let d : u8 (low + t) ≡ low + t = omega arith in rw (bit_or_add4 low t h l k) d))
  where
    get_or-here : (xs : List ℕ) → get_or (xs ++ (low ∷ last ∷ [])) (length xs) 0 ≡ low
    get_or-here [] = refl
    get_or-here (x ∷ xs) = get_or-here xs

    set-here :
        (xs : List ℕ) (b : ℕ) → set (xs ++ (low ∷ last ∷ [])) (length xs) b ≡ xs ++ (b ∷ last ∷ [])
    set-here [] b = refl
    set-here (x ∷ xs) b = ap (◌∷◌ x) (set-here xs b)
