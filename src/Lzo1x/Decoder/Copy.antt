-- ===== src/Lzo1x/Decoder/Copy.antt =====
-- The copy loops of lzo1x_d.ch, described without steps.
use lzo.Base.{ℕ, zero, suc, ◌+◌, ◌-◌, ◌≤◌, ◌<◌, ◌≡◌, refl, ◌∙◌, arith, lt→ltb}
use lzo.Base.{List, [], ◌∷◌, ◌++◌, length, take, drop, get_or}
use lzo.Base.{length-append, get_elem?-lt, get_or-take, take_snoc, length-take}
use lzo.Lzo1x.Decoder.{safe}
use lzo.Lzo1x.Decoder.{next, copy_literals, copy_match}
use mathlib.Core.List.{append_assoc, append-nil}

-- With enough input and room the literals move from the input to the output.
pub copy_literals_lem :
    (size t : ℕ) (ip out : List ℕ)
    → t ≤ length ip
    → length out + t ≤ size
    → copy_literals size t ip out ≡ next (drop t ip, out ++ take t ip)
unfolding copy_literals
copy_literals_lem size zero ip out h k = rw append-nil
copy_literals_lem size (suc t) [] out h k = absurd (omega arith)
copy_literals_lem size (suc t) (b ∷ ip) out h k = rw (lt→ltb (length out) size (omega arith)) (
    copy_literals_lem size t ip (out ++ (b ∷ [])) (omega arith)
      (omega (arith, length-append out (b ∷ [])))
    ∙ rw append_assoc)

-- The output after `t` more bytes, each the one `off` places before it.
unfoldable pub extended : ℕ → ℕ → List ℕ → List ℕ
extended off zero out = out
extended off (suc t) out = extended off t (out ++ (get_or out (length out - off) 0 ∷ []))

pub length-extended : (off t : ℕ) (out : List ℕ) → length (extended off t out) ≡ length out + t
unfolding extended
length-extended off zero out = omega arith
length-extended off (suc t) out =
    let b = get_or out (length out - off) 0 in
    omega (arith, length-extended off t (out ++ (b ∷ [])), length-append out (b ∷ []))

-- With a match position inside the output and enough room a match copy extends the output.
pub copy_match_lem :
    (size off t : ℕ) (out : List ℕ)
    → 0 < off
    → off ≤ length out
    → length out + t ≤ size
    → copy_match size off t out ≡ next (extended off t out)
unfolding copy_match extended
copy_match_lem size off zero out p h k = refl
copy_match_lem size off (suc t) out p h k =
    let b = get_or out (length out - off) 0 in
    ground (
      arith,
      get_elem?-lt out (length out - off) 0,
      length-append out (b ∷ []),
      copy_match_lem size off t (out ++ (b ∷ [])) p,
    )

-- Where the source repeats itself at distance `off`, the copy reproduces the source.
pub extended-take :
    (src : List ℕ) (off t p : ℕ)
    → 0 < off
    → off ≤ p
    → p + t ≤ length src
    → ((i : ℕ) → i < t → get_or src (p + i) 0 ≡ get_or src (p + i - off) 0)
    → extended off t (take p src) ≡ take (p + t) src
unfolding extended
extended-take src off zero p h k l e = let z : p + 0 ≡ p = omega arith in rw z
extended-take src off (suc t) p h k l e =
    let z : p + suc t ≡ suc p + t = omega arith in
    let n : length (take p src) ≡ p = omega (arith, length-take p src) in
    let here : get_or (take p src) (p - off) 0 ≡ get_or src p 0 =
      ground (arith, get_or-take p src (p - off) 0, e 0) in
    rw (n, here, take_snoc p src 0 (omega arith), z)
      (extended-take src off t (suc p) h (omega arith) (omega arith)
        λ i q. ground (arith, e (suc i)))
