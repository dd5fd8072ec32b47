-- ===== src/Lzo1x/Decoder/Safety/Lengths.antt =====
-- Lengths and literal copies of lzo1x_d.ch do not fault.
use lzo.Base.{ℕ, zero, suc, ◌+◌, ◌-◌, ◌^◌, ◌≤◌, ◌<◌, ◌≡◌, arith}
use lzo.Base.{ltb, ltb→le}
use lzo.Base.{
  List, [], ◌∷◌, length, take, drop, length-append, length-take, length-drop, All, IsByte,
}
use lzo.Base.{u64}
use lzo.Lzo1x.Decoder.{safe}
use lzo.Lzo1x.Decoder.{Status, next, ◌>>=◌, read}
use lzo.Lzo1x.Decoder.{e_input_overrun, e_output_overrun}
use lzo.Lzo1x.Decoder.{handle_match}
use lzo.Lzo1x.Decoder.{copy_literals, long_length, match_length, match_next}
use lzo.Lzo1x.Decoder.Copy.{copy_literals_lem}
use lzo.Lzo1x.Decoder.Safety.{Safe, Safe-bind, Safe-stop_if, Safe-weaken, IsNext}

pub drop-All : (t : ℕ) (ip : List ℕ) → All IsByte ip → All IsByte (drop t ip)
drop-All zero ip h = h
drop-All (suc t) [] h = h
drop-All (suc t) (b ∷ ip) h = drop-All t ip h.1

-- A length read from the input is far from the end of the word, and leaves fewer bytes.
abbrev pub IsLength : ℕ → ℕ × List ℕ → Type 0
IsLength n (t, ip) = All IsByte ip × (t < 2 ^ 64 - 200) × (length ip ≤ n)

pub long_length-Safe :
    (size : ℕ) (s : Status) (base t : ℕ) (ip out : List ℕ)
    → All IsByte ip
    → length out ≤ size
    → 0 < length ip
    → base < 32
    → t ≤ 2 ^ 64 - 511
    → Safe size
        (λ r. IsLength (length ip) r × (length r.1 < length ip))
        (long_length s base t ip out)
unfolding long_length
long_length-Safe size s base t [] out a o h bs l = absurd (omega arith)
long_length-Safe size s base t (zero ∷ ip) out a o h bs l =
    Safe-stop_if size _ (ltb (2 ^ 64 - 511) (u64 (t + 255))) s out _ o λ e.
      Safe-stop_if size _ (ltb (length ip) (u64 1)) e_input_overrun out _ o λ e'.
        Safe-weaken size (λ r. IsLength (length ip) r × (length r.1 < length ip)) _ _
          (long_length-Safe size s base (u64 (t + 255)) ip out a.1 o (ground arith) bs
            (ltb→le _ _ e))
          λ r (g, k). ((g.0, g.1, omega arith), omega arith)
long_length-Safe size s base t (suc b ∷ ip) out a o h bs l =
    ((a.1, omega arith, omega arith), omega arith)

pub match_length-Safe :
    (size base t : ℕ) (ip out : List ℕ)
    → All IsByte ip
    → length out ≤ size
    → 2 ≤ length ip
    → base < 32
    → t < 32
    → Safe size (λ r. IsLength (length ip) r × (2 ≤ length r.1)) (match_length base t ip out)
unfolding match_length
match_length-Safe size base zero ip out a o h bs ts =
    Safe-bind size (λ r. IsLength (length ip) r × (length r.1 < length ip)) _ _ _
      (long_length-Safe size e_output_overrun base 0 ip out a o (omega arith) bs (omega arith))
      λ (t, ip') g.
        Safe-stop_if size _ (ltb (length ip') (u64 2)) e_input_overrun out _ o
          λ e. (g.0, ltb→le _ _ e)
match_length-Safe size base (suc t) ip out a o h bs ts = ((a, omega arith, omega arith), h)

pub copy_literals-Safe :
    (size t : ℕ) (ip out : List ℕ)
    → All IsByte ip
    → t ≤ length ip
    → length out + t ≤ size
    → Safe size
        (λ r. All IsByte r.0 × (length r.1 ≤ size) × (length r.0 + t ≡ length ip))
        (copy_literals size t ip out)
copy_literals-Safe size t ip out a h k = rw (copy_literals_lem size t ip out h k) (
  drop-All t ip a,
  omega (arith, length-append out (take t ip), length-take t ip),
  omega (arith, length-drop t ip),
)

pub match_next-Safe :
    (size t : ℕ) (ip out : List ℕ) (n : ℕ)
    → All IsByte ip
    → length out ≤ size
    → t < 4
    → length ip ≤ n
    → Safe size (IsNext size n) (match_next size t ip out)
unfolding match_next
match_next-Safe size t ip out n a o ts h =
    Safe-stop_if size _ (ltb (size - length out) (u64 t)) e_output_overrun out _ o λ e.
      Safe-stop_if size _ (ltb (length ip) (u64 (t + 3))) e_input_overrun out _ o λ e'.
        Safe-bind size _ _ (copy_literals size t ip out) _
          (copy_literals-Safe size t ip out a (omega (arith, ltb→le _ _ e'))
            (omega (arith, ltb→le _ _ e)))
          λ (ip', out') (a', o', l).
            after ip' out' a' o' (omega (arith, l, ltb→le _ _ e')) (omega (arith, l))
  where
    after :
        (ip' out' : List ℕ)
        → All IsByte ip'
        → length out' ≤ size
        → 3 ≤ length ip'
        → length ip' ≤ n
        → Safe size (IsNext size n) (read ip' >>= λ r. next (handle_match r.0, r.1, out'))
    after [] out' a' o' l l' = absurd (omega arith)
    after (m ∷ ip'') out' (b, a') o' l l' = ((a', o', omega arith, b), omega arith)
