-- ===== src/Lzo1x/InPlace/Alike.antt =====
-- Pieces of lzo1x_d.ch in place, where the output has not reached the input that they read.
use lzo.Base.{ℕ, zero, suc, ◌+◌, ◌-◌, ◌^◌, ◌≤◌, ◌≡◌, refl, arith, u64}
use lzo.Base.{Bool, true, false, ltb, if◌then◌else◌}
use lzo.Base.{List, [], ◌∷◌, ◌++◌, length, length-append, get_elem?}
use lzo.Base.{none, some, Option, ◌==◌, ◌||◌, ◌⊎◌, inl, inr, Bool-cases}
use lzo.Lzo1x.Decoder.{safe}
use lzo.Lzo1x.Decoder.{Status, Step, next, done, fault, State, read, write, look_behind, copy_match}
use lzo.Lzo1x.Decoder.{
  e_ok, e_input_overrun, e_output_overrun, e_lookbehind_overrun, e_input_not_consumed,
}
use lzo.Lzo1x.Decoder.{◌>>=◌, ◌>>◌, stop_if, copy_literals, long_length, match_length, run_length}
use lzo.Lzo1x.InPlace.{cell, fetch, copy_run, long_count, match_count, run_count}
use lzo.Lzo1x.RoundTrip.Reach.{held}

-- `m` goes on to what satisfies `P`, or does not go on.
abbrev pub Gives {ℓ} : {A : Type ℓ} → (A → Type 0) → Step A → Type 0
Gives P (next a) = P a
Gives P (done status out) = Unit
Gives P fault = Unit

Gives-bind {ℓ κ} :
    {A : Type ℓ} {B : Type κ} (P : A → Type 0) (R : B → Type 0) (m : Step A) (f : A → Step B)
    → Gives P m
    → ((a : A) → P a → Gives R (f a))
    → Gives R (m >>= f)
Gives-bind P R (next a) f h k = k a h
Gives-bind P R (done status out) f h k = tt
Gives-bind P R fault f h k = tt

Gives-stop {ℓ} :
    {B : Type ℓ} (R : B → Type 0) (b : Bool) (status : Status) (out : List ℕ) (m : Step B)
    → Gives R m
    → Gives R (stop_if b status out >> m)
Gives-stop R true status out m h = tt
Gives-stop R false status out m h = h

write-Gives :
    (size : ℕ) (out : List ℕ) (b : ℕ) → Gives (λ o. length o ≡ suc (length out)) (write size out b)
write-Gives size out b = go (ltb (length out) size)
  where
    go :
        (c : Bool)
        → Gives (λ o. length o ≡ suc (length out)) (if c then next (out ++ (b ∷ [])) else fault)
    go true = omega (arith, length-append out (b ∷ []))
    go false = tt

abbrev pub IsOk : Status → Type 0
IsOk e_ok = Unit
IsOk e_input_overrun = ⊥
IsOk e_output_overrun = ⊥
IsOk e_lookbehind_overrun = ⊥
IsOk e_input_not_consumed = ⊥

-- A round goes on with room left, or returns LZO_E_OK.
abbrev pub Ends : ℕ → Step State → Type 0
Ends room (next s) = held s ≤ room
Ends room (done status out) = IsOk status
Ends room fault = ⊥

-- Two rounds that begin alike and go on alike are alike.
pub bind-alike {ℓ} :
    {A : Type ℓ} (room : ℕ) (P : A → Type 0) (m m' : Step A) (f g : A → Step State)
    → m' ≡ m
    → Gives P m
    → Ends room (m >>= f)
    → ((a : A) → P a → Ends room (f a) → g a ≡ f a)
    → (m' >>= g) ≡ (m >>= f)
bind-alike room P (next a) m' f g e h i k = rw e (k a h i)
bind-alike room P (done status out) m' f g e h i k = rw e refl
bind-alike room P fault m' f g e h i k = rw e refl

pub stop-alike :
    (room : ℕ) (b : Bool) (status : Status) (out : List ℕ) (m m' : Step State)
    → Ends room (stop_if b status out >> m)
    → (Ends room m → m' ≡ m)
    → (stop_if b status out >> m') ≡ (stop_if b status out >> m)
stop-alike room true status out m m' h k = refl
stop-alike room false status out m m' h k = k h

none_past : (xs : List ℕ) (i : ℕ) → length xs ≤ i → get_elem? xs i ≡ none
none_past [] i h = refl
none_past (x ∷ xs) zero h = absurd (omega arith)
none_past (x ∷ xs) (suc i) h = none_past xs i (omega arith)

module _ (room : ℕ) where
  pub cell-untouched :
      (out : List ℕ) (left b : ℕ) → length out + left ≤ room → cell room out left b ≡ b
  unfolding cell
  cell-untouched out left b h = rw (none_past out (room - left) (omega arith), cell) refl

  pub fetch-read : (ip out : List ℕ) → length out + length ip ≤ room → fetch room ip out ≡ read ip
  fetch-read [] out h = refl
  fetch-read (b ∷ ip) out h = rw (cell-untouched out (suc (length ip)) b h)

  -- A run that the limit lets pass stays in the buffer, since it is before the input.
  pub copy_run-copy_literals :
      (size t : ℕ) (ip out : List ℕ) (f : List ℕ × List ℕ → Step State)
      → length out + length ip ≤ room
      → Ends room (copy_literals size t ip out >>= f)
      → copy_run room t ip out ≡ copy_literals size t ip out
  unfolding copy_run copy_literals
  copy_run-copy_literals size zero ip out f h i = refl
  copy_run-copy_literals size (suc t) [] out f h i = refl
  copy_run-copy_literals size (suc t) (b ∷ ip) out f h i =
      let inside : ltb (length out) room ≡ true = ground arith in
      rw (cell-untouched out (suc (length ip)) b h, inside)
        (elim (Bool-cases (ltb (length out) size)) [
          | inl e ↦ rw e (
              copy_run-copy_literals size t ip (out ++ (b ∷ [])) f
                (omega (arith, length-append out (b ∷ []))) (rw e at i))
          | inr e ↦ absurd (rw e at i)
        ])

  look_behind-cases :
      (out : List ℕ) (off : ℕ)
      → (look_behind out off ≡ fault) ⊎ ((b : ℕ) × (look_behind out off ≡ next b))
  look_behind-cases out off = elim (Bool-cases (off == 0 || ltb (length out) off)) [
    | inl e ↦ inl (rw e refl)
    | inr e ↦ rw e (by_byte (get_elem? out (length out - off)))
  ]
    where
      by_byte :
          (x : Option ℕ)
          → ((elim x [ none ↦ fault | some b ↦ next b ]) ≡ fault)
            ⊎ ((b : ℕ) × ((elim x [ none ↦ fault | some b ↦ next b ]) ≡ next b))
      by_byte none = inl refl
      by_byte (some b) = inr (b, refl)

  -- The same for a match, where what follows it needs its output to be in the buffer.
  pub copy_match-room :
      (size off t : ℕ) (out : List ℕ) (f : List ℕ → Step State)
      → ((o : List ℕ) → Ends room (f o) → length o ≤ room)
      → Ends room (copy_match size off t out >>= f)
      → (copy_match room off t out ≡ copy_match size off t out) × (length out + t ≤ room)
  unfolding copy_match
  copy_match-room size off zero out f h i = (refl, omega (arith, h out i))
  copy_match-room size off (suc t) out f h i = elim (look_behind-cases out off) [
    | inl e ↦ absurd (rw (e, copy_match) at i)
    | inr (b, e) ↦ elim (Bool-cases (ltb (length out) size)) [
      | inr g ↦ absurd (rw (e, g, copy_match) at i)
      | inl g ↦
          let (same, l) =
            copy_match-room size off t (out ++ (b ∷ [])) f h (rw (e, g, copy_match) at i) in
          let longer : suc (length out) + t ≤ room = omega (arith, length-append out (b ∷ [])) in
          let inside : ltb (length out) room ≡ true = ground arith in
          (rw (e, copy_match) (rw (g, inside) same), omega arith)
    ]
  ]

  pub long_count-long_length :
      (status : Status) (base t : ℕ) (ip out : List ℕ)
      → length out + length ip ≤ room
      → long_count room status base t ip out ≡ long_length status base t ip out
  unfolding long_count long_length
  long_count-long_length status base t [] out h = refl
  long_count-long_length status base t (zero ∷ ip) out h =
      rw (cell-untouched out (suc (length ip)) zero h, long_count)
        (rw (long_count-long_length status base (u64 (t + 255)) ip out (omega arith)) refl)
  long_count-long_length status base t (suc b ∷ ip) out h =
      rw (cell-untouched out (suc (length ip)) (suc b) h, long_count) refl

  pub match_count-match_length :
      (base t : ℕ) (ip out : List ℕ)
      → length out + length ip ≤ room
      → match_count room base t ip out ≡ match_length base t ip out
  unfolding match_count match_length
  match_count-match_length base zero ip out h =
      rw (long_count-long_length e_output_overrun base 0 ip out h) refl
  match_count-match_length base (suc t) ip out h = refl

  pub run_count-run_length :
      (t : ℕ) (ip out : List ℕ)
      → length out + length ip ≤ room
      → run_count room t ip out ≡ run_length t ip out
  unfolding run_count run_length
  run_count-run_length zero ip out h = long_count-long_length e_input_overrun 15 0 ip out h
  run_count-run_length (suc t) ip out h = refl

-- What is read is no longer to come.
abbrev pub Within : ℕ → ℕ × List ℕ → Type 0
Within n (t, ip) = length ip ≤ n

pub read-Within :
    (ip : List ℕ) (n : ℕ) → length ip ≤ n → Gives (λ r. suc (length r.1) ≤ n) (read ip)
read-Within [] n h = tt
read-Within (b ∷ ip) n h = h

pub long_length-Within :
    (status : Status) (base t : ℕ) (ip out : List ℕ) (n : ℕ)
    → length ip ≤ n
    → Gives (Within n) (long_length status base t ip out)
unfolding long_length
long_length-Within status base t [] out n h = tt
long_length-Within status base t (zero ∷ ip) out n h =
    Gives-stop (Within n) (ltb (2 ^ 64 - 511) (u64 (t + 255))) status out _ (
      Gives-stop (Within n) (ltb (length ip) (u64 1)) e_input_overrun out _
        (long_length-Within status base (u64 (t + 255)) ip out n (omega arith)))
long_length-Within status base t (suc b ∷ ip) out n h = omega arith

pub match_length-Within :
    (base t : ℕ) (ip out : List ℕ) (n : ℕ)
    → length ip ≤ n
    → Gives (Within n) (match_length base t ip out)
unfolding match_length
match_length-Within base zero ip out n h =
    Gives-bind (Within n) (Within n) (long_length e_output_overrun base 0 ip out) _
      (long_length-Within e_output_overrun base 0 ip out n h)
      λ r k. Gives-stop (Within n) (ltb (length r.1) (u64 2)) e_input_overrun out _ k
match_length-Within base (suc t) ip out n h = h

pub run_length-Within :
    (t : ℕ) (ip out : List ℕ) (n : ℕ) → length ip ≤ n → Gives (Within n) (run_length t ip out)
unfolding run_length
run_length-Within zero ip out n h = long_length-Within e_input_overrun 15 0 ip out n h
run_length-Within (suc t) ip out n h = h

-- A run moves bytes from the input to the output.
pub copy_literals-Gives :
    (size t : ℕ) (ip out : List ℕ) (n : ℕ)
    → length out + length ip ≡ n
    → Gives (λ r. length r.1 + length r.0 ≡ n) (copy_literals size t ip out)
unfolding copy_literals
copy_literals-Gives size zero ip out n h = h
copy_literals-Gives size (suc t) [] out n h = tt
copy_literals-Gives size (suc t) (b ∷ ip) out n h =
    Gives-bind _ _ (write size out b) _ (write-Gives size out b)
      λ out' l. copy_literals-Gives size t ip out' n (omega arith)
