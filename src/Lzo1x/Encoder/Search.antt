-- ===== src/Lzo1x/Encoder/Search.antt =====
-- The search for a match ends, and what it finds is an earlier position with equal bytes.
use lzo.Base.{ℕ, zero, suc, ◌+◌, ◌-◌, ◌/◌, ◌^◌, ◌≤◌, ◌<◌, ◌≡◌, arith}
use lzo.Base.{leb, ◌==◌, Bool-cases, inl, inr, ==_iff}
use lzo.Base.{List, [], ◌∷◌, All, IsByte, some}
use lzo.Lzo1x.Encoder.{
  Found, exhausted, matched, Dict, search, match_len, byte_at, le32, update, dindex,
}

pub byte_at-lt : (src : List ℕ) (p : ℕ) → All IsByte src → byte_at src p < 256
byte_at-lt [] p a = omega arith
byte_at-lt (b ∷ src) zero a = a.0
byte_at-lt (b ∷ src) (suc p) a = byte_at-lt src p a.1

-- The first `n` bytes at `p` and at `m` are equal.
abbrev pub Agree : List ℕ → ℕ → ℕ → ℕ → Type 0
Agree src p m n = (i : ℕ) → i < n → byte_at src (p + i) ≡ byte_at src (m + i)

pub Agree-suc :
    (src : List ℕ) (p m n : ℕ)
    → Agree src p m n
    → byte_at src (p + n) ≡ byte_at src (m + n)
    → Agree src p m (n + 1)
Agree-suc src p m n a e i h = elim (Bool-cases (i == n)) [
  | inl same ↦ let d : i ≡ n = ground arith in rw d e
  | inr other ↦ a i (ground arith)
]

-- Equal 32-bit words are four equal bytes.
pub le32-Agree :
    (src : List ℕ) (p m : ℕ) → All IsByte src → le32 src p ≡ le32 src m → Agree src p m 4
le32-Agree src p m a e =
    Agree-suc src p m 3
      (Agree-suc src p m 2
        (Agree-suc src p m 1
          (Agree-suc src p m 0 (λ i h. absurd (omega arith))
            (let x : p + 0 ≡ p = omega arith in
              let y : m + 0 ≡ m = omega arith in rw (x, y) word.0))
          word.1)
        word.2)
      word.3
  where
    b : (i : ℕ) → byte_at src i < 256
    b i = byte_at-lt src i a

    word :
        (byte_at src p ≡ byte_at src m)
        × (byte_at src (p + 1) ≡ byte_at src (m + 1))
        × (byte_at src (p + 2) ≡ byte_at src (m + 2))
        × (byte_at src (p + 3) ≡ byte_at src (m + 3))
    word =
        omega (arith, e, b p, b m, b (p + 1), b (m + 1), b (p + 2), b (m + 2), b (p + 3), b (m + 3))

-- All entries of the dictionary are positions of the block before `ip`.
abbrev pub IsBefore : ℕ → ℕ → Dict → Type 0
IsBefore base ip dict = (i : ℕ) → base + dict i < ip

update-IsBefore :
    (base ip i : ℕ) (dict : Dict)
    → IsBefore base ip dict
    → base ≤ ip
    → IsBefore base (ip + 1) (update dict i (ip - base))
update-IsBefore base ip i dict h k j = ground (arith, h j)

-- A match lies before `ip'`, within the block's searched part, and agrees in four bytes.
abbrev pub IsFound : List ℕ → ℕ → ℕ → ℕ → Found → Type 0
IsFound src base ip_end ip exhausted = Unit
IsFound src base ip_end ip (matched ip' m_pos dict) =
    (ip ≤ ip')
    × (ip' < ip_end)
    × (m_pos < ip')
    × (base ≤ m_pos)
    × Agree src ip' m_pos 4
    × IsBefore base (ip' + 1) dict

IsFound-earlier :
    (src : List ℕ) (base ip_end ip ip' : ℕ) (r : Found)
    → ip ≤ ip'
    → IsFound src base ip_end ip' r
    → IsFound src base ip_end ip r
IsFound-earlier src base ip_end ip ip' exhausted h f = f
IsFound-earlier src base ip_end ip ip' (matched q m d) h (a, b, c, e, f, g) =
    (omega arith, b, c, e, f, g)

-- With more rounds than positions left the search ends, and what it finds is a match.
pub search_found :
    (src : List ℕ) (d_bits base ip_end fuel ip ii : ℕ) (dict : Dict)
    → All IsByte src
    → 0 < fuel
    → ip_end < fuel + ip
    → base ≤ ip
    → IsBefore base ip dict
    → (r : Found) × (search src d_bits base ip_end fuel ip ii dict ≡ some r)
      × IsFound src base ip_end ip r
unfolding search
search_found src d_bits base ip_end zero ip ii dict a z f b h = absurd (omega arith)
search_found src d_bits base ip_end (suc fuel) ip ii dict a z f b h =
    elim (Bool-cases (leb ip_end ip)) [
      | inl over ↦ (exhausted, rw over, tt)
      | inr inside ↦ rw inside (elim (Bool-cases (le32 src ip == le32 src m_pos)) [
        | inl same ↦ (
          matched ip m_pos dict',
          rw same,
          (
            omega arith,
            ground arith,
            h i,
            omega arith,
            le32-Agree src ip m_pos a ((==_iff _ _).0 same),
            before,
          ),
        )
        | inr other ↦
            let skip = (ip - ii) / 2 ^ 5 in
            let (r, e, g) =
              search_found src d_bits base ip_end fuel (ip + 1 + skip) ii dict' a (ground arith)
                (omega arith) (omega arith) (λ j. omega (arith, before j)) in
            (r, rw other e, IsFound-earlier src base ip_end ip (ip + 1 + skip) r (omega arith) g)
      ])
    ]
  where
    i : ℕ
    i = dindex src d_bits (le32 src ip)

    m_pos : ℕ
    m_pos = base + dict i

    dict' : Dict
    dict' = update dict i (ip - base)

    before : IsBefore base (ip + 1) dict'
    before = update-IsBefore base ip i dict h b

-- The extension of a match ends, agrees in all its bytes, and stays 8 bytes before the block's end.
pub match_len_lem :
    (src : List ℕ) (ip_end ip m_pos fuel k m : ℕ)
    → ip + m ≤ ip_end + 3 + k
    → k ≤ 7
    → ip_end + 12 < fuel + ip + m
    → Agree src ip m_pos m
    → (n : ℕ) × (match_len src ip_end ip m_pos fuel k m ≡ some n)
      × (m ≤ n)
      × (ip + n ≤ ip_end + 12)
      × Agree src ip m_pos n
unfolding match_len
match_len_lem src ip_end ip m_pos zero k m h l f a = absurd (omega arith)
match_len_lem src ip_end ip m_pos (suc fuel) k m h l f a =
    elim (Bool-cases (byte_at src (ip + m) == byte_at src (m_pos + m))) [
      | inr other ↦ (m, rw other, omega arith, omega arith, a)
      | inl same ↦ rw same (
          let longer = Agree-suc src ip m_pos m a ((==_iff _ _).0 same) in
          elim (Bool-cases (k == 7)) [
            | inr inner ↦
                let (n, e, p, q, g) =
                  match_len_lem src ip_end ip m_pos fuel (k + 1) (m + 1) (omega arith)
                    (ground arith) (omega arith) longer in
                (n, rw inner e, omega arith, q, g)
            | inl eighth ↦ rw eighth (elim (Bool-cases (leb ip_end (ip + (m + 1)))) [
              | inl over ↦ (m + 1, rw over, omega arith, ground arith, longer)
              | inr inside ↦
                  let (n, e, p, q, g) =
                    match_len_lem src ip_end ip m_pos fuel 0 (m + 1) (ground arith) (omega arith)
                      (omega arith) longer in
                  (n, rw inside e, omega arith, q, g)
            ])
          ])
    ]
