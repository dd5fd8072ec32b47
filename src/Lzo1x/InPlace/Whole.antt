-- ===== src/Lzo1x/InPlace/Whole.antt =====
-- lzo1x_c.ch, and lzo1x_d.ch in the buffer that holds what the compressor has written.
use lzo.Base.{ℕ, zero, suc, ◌+◌, ◌/◌, ◌^◌, ◌≤◌, ◌<◌, ◌≡◌, refl, sym, ◌∙◌, ap, arith}
use lzo.Base.{List, [], ◌∷◌, length, All, IsByte, some}
use lzo.Lzo1x.Format.{Variant}
use lzo.Lzo1x.Decoder.{safe}
use lzo.Lzo1x.Decoder.{Step, next, done, fault, State, Outcome, returned, faulted, e_ok}
use lzo.Lzo1x.Decoder.{run, start, decompress}
use lzo.Lzo1x.InPlace.{step_in_place, run_in_place, decompress_in_place}
use lzo.Lzo1x.InPlace.Alike.{Ends}
use lzo.Lzo1x.InPlace.Steps.{step_in_place-step, start_in_place-start}
use lzo.Lzo1x.Encoder.{compress}
use lzo.Lzo1x.RoundTrip.Reach.{Reach, here, round, Reach-decompress, resume}
use lzo.Lzo1x.RoundTrip.Whole.{compress_read}

abbrev resume_in_place : ℕ → Variant → ℕ → ℕ → Step State → Outcome
resume_in_place room v size fuel m = elim m [
  | next s ↦ run_in_place room v size fuel s
  | done status out ↦ returned status out
  | fault ↦ faulted
]

module _ (v : Variant) (size room : ℕ) where
  -- Both decoders from `m`, where both of them from `n` agree.
  AgreeFrom : Step State → Step State → List ℕ → ℕ → Type 0
  AgreeFrom m n out f =
      (g : ℕ) × (resume v size g n ≡ returned e_ok out)
      × (resume_in_place room v size g n ≡ returned e_ok out
          → resume_in_place room v size f m ≡ returned e_ok out)

  Reach-Ends : {m n : Step State} → Reach v size room m n → Ends room n → Ends room m
  Reach-Ends here i = i
  Reach-Ends (round s r b d) i = Reach-Ends r b

  Reach-agree :
      {m n : Step State} {out : List ℕ}
      → Reach v size room m n
      → Ends room n
      → (f : ℕ) → resume v size f m ≡ returned e_ok out
      → AgreeFrom m n out f
  unfolding AgreeFrom run run_in_place
  Reach-agree here i f e = (f, e, λ h. h)
  Reach-agree {m = m} {n = n} {out = out} (round s r b d) i f e =
      let (g, e', k) = Reach-agree {out = out} r b f e in one_more g e' k
    where
      one_more :
          (g : ℕ)
          → run v size g s ≡ returned e_ok out
          → (run_in_place room v size g s ≡ returned e_ok out
              → resume_in_place room v size f m ≡ returned e_ok out)
          → (g : ℕ) × (resume v size g n ≡ returned e_ok out)
            × (resume_in_place room v size g n ≡ returned e_ok out
                → resume_in_place room v size f m ≡ returned e_ok out)
      one_more zero e' k = cc
      one_more (suc g) e' k =
          let same : step_in_place room v size s ≡ n =
            step_in_place-step room size v s (omega arith) (rw d i) ∙ d in
          (
            g,
            ap (resume v size g) (sym d) ∙ e',
            λ h. k (ap (resume_in_place room v size g) same ∙ h),
          )

-- On every source of less than 2 ^ 62 bytes the compressor ends, and what it writes are bytes, at least
-- one, that fit at the end of every buffer that is a 16th of the source and 67 bytes longer than
-- the source; the safe decompressor, called on it there with the front of the same buffer as its output and with an
-- output limit of at least the source's length, returns LZO_E_OK with exactly the source.
pub compress-decompress_in_place :
    (v : Variant) (src : List ℕ) (size room d_bits addr : ℕ)
    → All IsByte src
    → length src ≤ size
    → length src < 2 ^ 62
    → length src + length src / 16 + 64 + 3 ≤ room
    → (out : List ℕ) × (compress v d_bits addr src ≡ some out)
      × All IsByte out
      × (0 < length out)
      × (length out ≤ length src + length src / 16 + 64 + 3)
      × (decompress_in_place v room size out ≡ returned e_ok src)
unfolding decompress_in_place decompress start AgreeFrom
compress-decompress_in_place v src size room d_bits addr bytes fits bounded holds =
    let (out, e, a, l, r) =
      compress_read v src size room bytes fits bounded (omega arith) d_bits addr in
    let whole = Reach-decompress v size out a r in
    let (g, e', k) = Reach-agree v size room {out = src} r tt (length out + 1) whole in
    let same = start_in_place-start room size out (omega arith) (Reach-Ends v size room r tt) in
    (
      out,
      e,
      a,
      some_code out whole,
      l,
      ap (resume_in_place room v size (length out + 1)) same ∙ k (finished g e'),
    )
  where
    some_code : (out : List ℕ) → decompress v size out ≡ returned e_ok src → 0 < length out
    some_code [] e = cc
    some_code (b ∷ rest) e = omega arith

    finished :
        (g : ℕ)
        → resume v size g (done e_ok src) ≡ returned e_ok src
        → resume_in_place room v size g (done e_ok src) ≡ returned e_ok src
    finished g e = refl
