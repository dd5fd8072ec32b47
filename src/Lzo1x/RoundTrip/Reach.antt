-- ===== src/Lzo1x/RoundTrip/Reach.antt =====
-- Which pieces of the decoder a run goes through, without counting rounds.
use lzo.Base.{ℕ, zero, suc, ◌+◌, ◌≤◌, ◌≡◌, refl, ◌∙◌, ap, List, length, All, IsByte}
use lzo.Lzo1x.Format.{Variant}
use lzo.Lzo1x.Decoder.{safe}
use lzo.Lzo1x.Decoder.{Status, Step, next, done, fault, State, Outcome, returned, faulted}
use lzo.Lzo1x.Decoder.{step, run, start, decompress}
use lzo.Lzo1x.Decoder.Run.{decompress-Returns}

-- What a buffer holds that the output fills from its front while the input to come stands at its end,
-- with the two bytes before that input, which a match is done with, and its marker.
abbrev pub held : State → ℕ
held (l, ip, out) = length out + length ip + 3

-- `Reach v size room m n`: from `m` the decoder comes to `n`, in some number of rounds, and holds no
-- more than `room` at the beginning of each.
pub data Reach (v : Variant) (size room : ℕ) (m : Step State) : Step State → Type 0 where
  here : Reach v size room m m
  round :
      {n : Step State} (s : State)
      → Reach v size room m (next s)
      → held s ≤ room
      → step v size s ≡ n
      → Reach v size room m n

abbrev pub resume : Variant → ℕ → ℕ → Step State → Outcome
resume v size fuel m = elim m [
  | next s ↦ run v size fuel s
  | done status out ↦ returned status out
  | fault ↦ faulted
]

Reach-resume :
    (v : Variant) (size : ℕ) {room : ℕ} {m n : Step State} {status : Status} {out : List ℕ}
    → Reach v size room m n
    → (fuel : ℕ) → resume v size fuel n ≡ returned status out
    → (g : ℕ) × (resume v size g m ≡ returned status out)
unfolding run
Reach-resume v size here fuel e = (fuel, e)
Reach-resume v size (round s r b d) fuel e =
    Reach-resume v size r (suc fuel) (ap (resume v size fuel) d ∙ e)

-- Two numbers of rounds that both suffice give the same result.
run_agree :
    (v : Variant) (size f g : ℕ) (s : State) {a b : Status} {x y : List ℕ}
    → run v size f s ≡ returned a x
    → run v size g s ≡ returned b y
    → run v size f s ≡ run v size g s
unfolding run
run_agree v size zero g s e d = cc
run_agree v size (suc f) zero s e d = cc
run_agree v size (suc f) (suc g) s {a = a} {b = b} {x = x} {y = y} e d =
    go (λ s' p q. run_agree v size f g s' p q) (step v size s) e d
  where
    go :
        ((s' : State)
          → run v size f s' ≡ returned a x
          → run v size g s' ≡ returned b y
          → run v size f s' ≡ run v size g s')
        → (m : Step State) → resume v size f m ≡ returned a x
        → resume v size g m ≡ returned b y
        → resume v size f m ≡ resume v size g m
    go rec (next s') p q = rec s' p q
    go rec (done status out) p q = refl
    go rec fault p q = refl

resume_agree :
    (v : Variant) (size f g : ℕ) (m : Step State) {a b : Status} {x y : List ℕ}
    → resume v size f m ≡ returned a x
    → resume v size g m ≡ returned b y
    → resume v size f m ≡ resume v size g m
resume_agree v size f g (next s) e d = run_agree v size f g s e d
resume_agree v size f g (done status out) e d = refl
resume_agree v size f g fault e d = refl

-- A decoder that comes to a return gives that return as its result.
pub Reach-decompress :
    (v : Variant) (size : ℕ) {room : ℕ} (input : List ℕ) {status : Status} {out : List ℕ}
    → All IsByte input
    → Reach v size room (start size input) (done status out)
    → decompress v size input ≡ returned status out
unfolding decompress
Reach-decompress v size input a r =
    let (g, e) = Reach-resume v size r 0 refl in
    let (status', out', d, l) = decompress-Returns v size input a in
    resume_agree v size (length input + 1) g (start size input) (unfold decompress in d) e ∙ e
