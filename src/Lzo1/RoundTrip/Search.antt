-- ===== src/Lzo1/RoundTrip/Search.antt =====
-- src/lzo1.c: what the compressor finds in the dictionary is an earlier position with equal bytes.
use lzo.Base.{ℕ, zero, suc, ◌+◌, ◌-◌, ◌≤◌, ◌<◌, ◌≡◌, refl, arith, sym}
use lzo.Base.{ltb, leb, ◌==◌, if◌then◌else◌, Bool-cases, inl, inr, true, ==_iff}
use lzo.Base.{Option, none, some, List}
use lzo.Lzo1x.Encoder.Search.{Agree, Agree-suc}
use lzo.Lzo1.Encoder.{
  Dict, update, Probe, literal, match, differs, probe, first_probe, second_probe, find, extend,
  match_len, byte_at, same_three, dindex1, dindex2,
}
use mathlib.Core.Option.{some-injective, none-ne-some}

-- All entries of the dictionary are positions before `ip`.
abbrev pub IsBefore : ℕ → Dict → Type 0
IsBefore ip dict = (i m : ℕ) → dict i ≡ some m → m < ip

pub update-IsBefore :
    (ip i : ℕ) (dict : Dict) → IsBefore ip dict → IsBefore (ip + 1) (update dict i ip)
update-IsBefore ip i dict h j m e = elim (Bool-cases (j == i)) [
  | inl here ↦ omega (arith, some-injective _ _ (rw here at e))
  | inr there ↦ omega (arith, h j m (rw there at e))
]

-- The dictionary with its first entry.
pub first-IsBefore : (d : ℕ) → IsBefore 1 (update (λ i. none) d 0)
first-IsBefore d = update-IsBefore 0 d (λ i. none) λ i m e. absurd (none-ne-some m e)

-- A position that starts a match of at least three bytes.
abbrev pub IsMatch : List ℕ → ℕ → ℕ → Type 0
IsMatch src ip m = (m < ip) × (ip - m ≤ 8192) × Agree src ip m 3

abbrev ProbeIsMatch : List ℕ → ℕ → Probe → Type 0
ProbeIsMatch src ip literal = Unit
ProbeIsMatch src ip (match m) = IsMatch src ip m
ProbeIsMatch src ip differs = Unit

abbrev pub FoundIsMatch : List ℕ → ℕ → Option ℕ → Type 0
FoundIsMatch src ip none = Unit
FoundIsMatch src ip (some m) = IsMatch src ip m

same_three-Agree : (src : List ℕ) (m p : ℕ) → same_three src m p ≡ true → Agree src p m 3
same_three-Agree src m p e =
    Agree-suc src p m 2
      (Agree-suc src p m 1
        (Agree-suc src p m 0 (λ i h. absurd (omega arith))
          (let x : p + 0 ≡ p = omega arith in
            let y : m + 0 ≡ m = omega arith in rw (x, y) (bytes.0)))
        (bytes.1))
      (bytes.2)
  where
    bytes :
        (byte_at src p ≡ byte_at src m)
        × (byte_at src (p + 1) ≡ byte_at src (m + 1))
        × (byte_at src (p + 2) ≡ byte_at src (m + 2))
    bytes = ground (arith, e)

probe-IsMatch :
    (src : List ℕ) (dict : Dict) (ip d : ℕ)
    → IsBefore ip dict
    → ProbeIsMatch src ip (probe src dict ip d)
unfolding probe
probe-IsMatch src dict ip d h = of (dict d) refl
  where
    of : (o : Option ℕ) → dict d ≡ o → ProbeIsMatch src ip (probe src dict ip d)
    of none e = rw (e, probe) tt
    of (some m) e =
        rw (e, probe)
          (elim (Bool-cases (ltb 8192 (ip - m))) [
            | inl far ↦ rw far tt
            | inr near ↦ rw near (elim (Bool-cases (same_three src m ip)) [
              | inr other ↦ rw other tt
              | inl same ↦ rw same (h d m e, ground arith, same_three-Agree src m ip same)
            ])
          ])

second_probe-IsMatch :
    (src : List ℕ) (ip d : ℕ) (p : Probe)
    → ProbeIsMatch src ip p
    → FoundIsMatch src ip (second_probe d p).0
second_probe-IsMatch src ip d literal h = tt
second_probe-IsMatch src ip d (match m) h = h
second_probe-IsMatch src ip d differs h = tt

first_probe-IsMatch :
    (src : List ℕ) (dict : Dict) (ip d : ℕ) (p : Probe)
    → IsBefore ip dict
    → ProbeIsMatch src ip p
    → FoundIsMatch src ip (first_probe src dict ip d p).0
first_probe-IsMatch src dict ip d literal b h = tt
first_probe-IsMatch src dict ip d (match m) b h = h
first_probe-IsMatch src dict ip d differs b h =
    second_probe-IsMatch src ip (dindex2 src d) (probe src dict ip (dindex2 src d))
      (probe-IsMatch src dict ip (dindex2 src d) b)

pub find-IsMatch :
    (src : List ℕ) (dict : Dict) (ip : ℕ)
    → IsBefore ip dict
    → FoundIsMatch src ip (find src dict ip).0
unfolding find
find-IsMatch src dict ip b =
    first_probe-IsMatch src dict ip (dindex1 src ip) (probe src dict ip (dindex1 src ip)) b
      (probe-IsMatch src dict ip (dindex1 src ip) b)

extend-Agree :
    (src : List ℕ) (ip m limit len : ℕ)
    → Agree src ip m len
    → Agree src ip m (extend src ip m limit len)
      × (len ≤ extend src ip m limit len)
      × (extend src ip m limit len ≤ len + limit)
unfolding extend
extend-Agree src ip m zero len a = (a, omega arith, omega arith)
extend-Agree src ip m (suc limit) len a =
    elim (Bool-cases (byte_at src (m + len) == byte_at src (ip + len))) [
      | inr other ↦ rw other (a, omega arith, omega arith)
      | inl same ↦
          let e : byte_at src (ip + len) ≡ byte_at src (m + len) = sym ((==_iff _ _).0 same) in
          let s : len + 1 ≡ suc len = omega arith in
          let (a', l, u) =
            extend-Agree src ip m limit (suc len) (rw s at (Agree-suc src ip m len a e)) in
          rw same (a', omega arith, omega arith)
    ]

-- A match has 3 to 264 equal bytes, and stays before `in_end`.
pub match_len-Agree :
    (src : List ℕ) (in_end ip m : ℕ)
    → Agree src ip m 3
    → ip + 9 ≤ in_end
    → Agree src ip m (match_len src in_end ip m)
      × (3 ≤ match_len src in_end ip m)
      × (match_len src in_end ip m ≤ 264)
      × (ip + match_len src in_end ip m ≤ in_end)
unfolding match_len
match_len-Agree src in_end ip m a h =
    let (a', l, u) = extend-Agree src ip m 6 3 a in
    elim (Bool-cases (extend src ip m 6 3 == 9)) [
      | inr short ↦ rw short (a', l, omega arith, omega arith)
      | inl nine ↦
          let left = in_end - (ip + 9) in
          let limit = if leb left 255 then left else 255 in
          let b : limit ≤ 255 = ground arith in
          let b' : limit ≤ left = ground arith in
          let n : extend src ip m 6 3 ≡ 9 = (==_iff _ _).0 nine in
          let (a'', l', u') = extend-Agree src ip m limit 9 (rw n at a') in
          rw nine (a'', omega arith, omega arith, omega arith)
    ]
