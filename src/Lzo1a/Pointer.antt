-- ===== src/Lzo1a/Pointer.antt =====
-- src/lzo1a.c: where the R1 pointer `r1` stands, `n` being the length of the source: three bytes and more
-- before the pending literals, which start at `ii`, or still at `ip_end`.
use lzo.Base.{ℕ, ◌+◌, ◌≤◌, ◌<◌, ◌≡◌, ◌⊎◌, inl, inr, arith}

abbrev pub IsPlaced : ℕ → ℕ → ℕ → Type 0
IsPlaced n ii r1 = (r1 + 3 ≤ ii) ⊎ (n ≤ r1 + 12)

-- Behind a match at `ip`, whether the pointer has moved there or not.
pub IsPlaced-match :
    (n ip ii r1 r1' len : ℕ)
    → 3 ≤ len
    → ii ≤ ip
    → IsPlaced n ii r1
    → ((r1' ≡ ip) ⊎ (r1' ≡ r1))
    → IsPlaced n (ip + len) r1'
IsPlaced-match n ip ii r1 r1' len low pending h (inl e) = inl (omega arith)
IsPlaced-match n ip ii r1 r1' len low pending (inl h) (inr e) = inl (omega arith)
IsPlaced-match n ip ii r1 r1' len low pending (inr h) (inr e) = inr (omega arith)

-- In the loop `ip` is before `ip_end`.
pub IsPlaced-before : (n ip ii r1 : ℕ) → IsPlaced n ii r1 → ip + 12 < n → (r1 + 3 ≤ ii) ⊎ (ip ≤ r1)
IsPlaced-before n ip ii r1 (inl h) k = inl h
IsPlaced-before n ip ii r1 (inr h) k = inr (omega arith)
