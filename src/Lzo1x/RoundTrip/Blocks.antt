-- ===== src/Lzo1x/RoundTrip/Blocks.antt =====
-- The compressor's loops end, and keep the invariant.
use lzo.Base.{ℕ, zero, suc, ◌+◌, ◌-◌, ◌*◌, ◌/◌, ◌^◌, ◌≤◌, ◌<◌, ◌≡◌, refl, arith}
use lzo.Base.{ltb, leb, Bool-cases, inl, inr, ◌⊎◌, if◌then◌else◌, ◌||◌}
use lzo.Base.{
  List, [], ◌∷◌, ◌++◌, length, length-append, length-take, take, slice, take-append-slice,
  length-slice,
}
use lzo.Base.{All, IsByte, some}
use lzo.Lzo1x.Format.{Variant}
use lzo.Lzo1x.Decoder.{safe}
use lzo.Lzo1x.Decoder.{any_match, start}
use lzo.Lzo1x.Encoder.{
  store_literals, match_code, match_len, rounds, do_compress, blocks, Dict, Found, exhausted,
  matched, ◌>>=◌, no_room,
}
use lzo.Lzo1x.Encoder.Search.{search_found, match_len_lem, IsBefore, IsFound, Agree}
use lzo.Lzo1x.Encoder.Bytes.{store_literals-bytes, match_code-bytes, All-append, All-slice}
use lzo.Lzo1x.Encoder.Growth.{length-store_literals, length-match_code}
use lzo.Lzo1x.RoundTrip.Reach.{Reach}
use lzo.Lzo1x.RoundTrip.Matches.{Repeats}
use lzo.Lzo1x.RoundTrip.Matches.Code.{match_code-IsRead}
use lzo.Lzo1x.RoundTrip.Emitted.{Emitted, fresh_literals, Emitted-literals, match-Emitted}

module _ (v : Variant) (src : List ℕ) (size room : ℕ) (bytes : All IsByte src)
    (fits : length src ≤ size) (bounded : length src < 2 ^ 62)
    (holds : 17 * length src + 128 ≤ 16 * room) where
  -- The output stands for the first `p` bytes of the source: there is none yet, or it ends in a match.
  abbrev pub Written : List ℕ → ℕ → Type 0
  Written out p = ((out ≡ []) × (p ≡ 0)) ⊎ Emitted v src size room out p

  -- The literals from `p` to `q` behind such an output lead to the code that follows.
  pub literals_read :
      (out : List ℕ) (p q m : ℕ) (rest : List ℕ)
      → Written out p
      → ((out ≡ []) × (p ≡ 0) → 4 ≤ q)
      → p ≤ q
      → q ≤ length src
      → 16 ≤ m
      → 2 ≤ length rest
      → 16 * length rest + 32 ≤ 17 * (length src - q) + 64
      → Reach v size room
          (start size (store_literals out (slice src p q) ++ (m ∷ rest)))
          (any_match v size m rest (take q src))
  literals_read out p q m rest (inl (e, z)) four h k b n c =
      let l = length-slice p q src h k in
      rw (e, ← take-append-slice p q src h, z)
        (rw z at (
          fresh_literals v size room (slice src p q) m rest (omega (arith, l, four (e, z), z))
            (omega (arith, l)) (omega (arith, l)) b n (omega (arith, l, z))))
  literals_read out p q m rest (inr w) four h k b n c =
      let l = length-slice p q src h k in
      rw (← take-append-slice p q src h) (
        Emitted-literals v size room src out p (slice src p q) m rest w (omega (arith, l))
          (omega (arith, l, length-take p src)) b n (omega (arith, l)) (omega (arith, l)) holds)

  -- A match that was found is one that the format can express.
  found_Repeats :
      (ip m_pos len : ℕ)
      → m_pos < ip
      → ip + len ≤ length src
      → Agree src ip m_pos len
      → Repeats src size ip (ip - m_pos) len
  found_Repeats ip m_pos len h k a = record {
    ahead = omega arith;
    inside = omega arith;
    within = k;
    room = fits;
    equal = λ i l. let e : ip + i - (ip - m_pos) ≡ m_pos + i = omega arith in rw e (a i l);
  }

  -- The result of a loop: an output for all but the last `t` bytes before `in_end`.
  abbrev pub IsOutput : ℕ → List ℕ × ℕ → Type 0
  IsOutput in_end (out, t) =
      (t ≤ in_end)
      × Written out (in_end - t)
      × All IsByte out
      × (16 * length out ≤ 17 * (in_end - t))

  -- `fuel` rounds from any state that holds the invariant give such a result.
  abbrev Continues : ℕ → ℕ → ℕ → ℕ → Type 0
  Continues d_bits base in_end fuel =
      (ip ii ti : ℕ) (dict : Dict) (out : List ℕ)
      → 0 < fuel
      → in_end < fuel + ip
      → base ≤ ip
      → ti ≤ ii
      → ii ≤ ip
      → ii ≤ in_end
      → IsBefore base ip dict
      → Written out (ii - ti)
      → ((out ≡ []) × (ii - ti ≡ 0) → 4 ≤ ip)
      → All IsByte out
      → 16 * length out ≤ 17 * (ii - ti)
      → (r : List ℕ × ℕ) × (rounds v src d_bits base in_end fuel ip ii ti dict out ≡ some r)
        × IsOutput in_end r

  rounds-IsOutput :
      (d_bits base in_end fuel : ℕ)
      → in_end ≤ length src
      → in_end ≤ base + 49152
      → Continues d_bits base in_end fuel
  unfolding rounds
  rounds-IsOutput d_bits base in_end zero a b ip ii ti dict out z f g h i j d w four o s =
      absurd (omega arith)
  rounds-IsOutput d_bits base in_end (suc fuel) a b ip ii ti dict out z f g h i j d w four o s =
      let (r, e, found) =
        search_found src d_bits base ip_end (ip_end - ip + 1) ip ii dict bytes (omega arith)
          (omega arith) g d in
      rw e (go (rounds-IsOutput d_bits base in_end fuel a b) r found)
    where
      ip_end : ℕ
      ip_end = in_end - 20

      go :
          Continues d_bits base in_end fuel
          → (r : Found) → IsFound src base ip_end ip r
          → (q : List ℕ × ℕ) × ((elim r [
            | exhausted ↦ some (out, in_end - (ii - ti))
            | matched ip' m_pos dict' ↦
                match_len src ip_end ip' m_pos (ip_end + 20 - ip') 0 4 >>= λ m_len.
                rounds v src d_bits base in_end fuel
                  (ip' + m_len)
                  (ip' + m_len)
                  0
                  dict'
                  (store_literals out (slice src (ii - ti) ip') ++ match_code v m_len (ip' - m_pos))
          ])
              ≡ some q)
            × IsOutput in_end q
      go rec exhausted found = (
        (out, in_end - (ii - ti)),
        refl,
        (
          omega arith,
          (let p : in_end - (in_end - (ii - ti)) ≡ ii - ti = omega arith in rw p w),
          o,
          omega arith,
        ),
      )
      go rec (matched ip' m_pos dict') (later, below, earlier, inside, same, before) =
          let (n, e, more, end, agree) =
            match_len_lem src ip_end ip' m_pos (ip_end + 20 - ip') 0 4 (omega arith) (omega arith)
              (omega arith) same in
          let rep = found_Repeats ip' m_pos n earlier (omega arith) agree in
          let code =
            match_code-IsRead v src size ip' (ip' - m_pos) n rep (omega arith) more (omega arith) in
          let lits = slice src (ii - ti) ip' in
          let w' =
            match-Emitted v src size room ip' (ip' - m_pos) n (store_literals out lits)
              (match_code v n (ip' - m_pos)) code (length-match_code v n (ip' - m_pos) more)
              (omega arith)
              λ m rest.
                literals_read out (ii - ti) ip' m rest w four' (omega arith) (omega arith) in
          rw e (
            rec (ip' + n) (ip' + n) 0 dict'
              (store_literals out lits ++ match_code v n (ip' - m_pos)) (omega arith) (omega arith)
              (omega arith) (omega arith) (omega arith) (omega arith) (λ k. omega (arith, before k))
              (inr (let z : ip' + n - 0 ≡ ip' + n = omega arith in rw z w')) (λ fresh. omega arith)
              (All-append (store_literals out lits) (match_code v n (ip' - m_pos))
                (store_literals-bytes out lits o (All-slice src (ii - ti) ip' bytes))
                (match_code-bytes v n (ip' - m_pos)))
              (omega (
                arith,
                s,
                length-append (store_literals out lits) (match_code v n (ip' - m_pos)),
                length-store_literals out lits,
                length-match_code v n (ip' - m_pos) more,
                length-slice (ii - ti) ip' src (omega arith) (omega arith),
              )))
        where
          four' : (out ≡ []) × (ii - ti ≡ 0) → 4 ≤ ip'
          four' fresh = omega (arith, four fresh)

  -- What remains of the source behind the first `in_end` bytes is still to come.
  do_compress-IsOutput :
      (d_bits base ll ti : ℕ) (out : List ℕ)
      → base + ll ≤ length src
      → ll ≤ 49152
      → ti ≤ base
      → Written out (base - ti)
      → All IsByte out
      → 16 * length out ≤ 17 * (base - ti)
      → (r : List ℕ × ℕ) × (do_compress v d_bits src base ll ti out ≡ some r)
        × IsOutput (base + ll) r
  unfolding do_compress
  do_compress-IsOutput d_bits base ll ti out a b h w o s =
      rounds-IsOutput d_bits base (base + ll) (ll + 1) a (omega arith)
        (ip + 1 + (ip - base) / 2 ^ 5) base ti (λ _. 0) out (omega arith) (omega arith)
        (omega arith) h (omega arith) (omega arith) (λ k. omega arith) w (λ fresh. ground arith) o s
    where
      ip : ℕ
      ip = base + (if ltb ti 4 then 4 - ti else 0)

  pub blocks-IsOutput :
      (d_bits addr fuel ip t : ℕ) (out : List ℕ)
      → length src < fuel + ip
      → 0 < fuel
      → ip ≤ length src
      → t ≤ ip
      → Written out (ip - t)
      → All IsByte out
      → 16 * length out ≤ 17 * (ip - t)
      → (r : List ℕ × ℕ) × (blocks v d_bits addr src fuel ip t out ≡ some r)
        × IsOutput (length src) r
  unfolding blocks
  blocks-IsOutput d_bits addr zero ip t out f z h k w o s = absurd (omega arith)
  blocks-IsOutput d_bits addr (suc fuel) ip t out f z h k w o s =
      elim (Bool-cases (leb l 20 || no_room addr ip ll t)) [
        | inl over ↦ (
          (out, t + l),
          rw over,
          (
            omega arith,
            (let p : length src - (t + l) ≡ ip - t = omega arith in rw p w),
            o,
            omega arith,
          ),
        )
        | inr more ↦ rw more (
            let (r, e, (h', w', o', s')) =
              do_compress-IsOutput d_bits ip ll t out (ground arith) (ground arith) k w o s in
            rw e (
              blocks-IsOutput d_bits addr fuel (ip + ll) r.1 r.0 (ground arith) (ground arith)
                (ground arith) h' w' o' s'))
      ]
    where
      l : ℕ
      l = length src - ip

      ll : ℕ
      ll = if ltb l 49152 then l else 49152
