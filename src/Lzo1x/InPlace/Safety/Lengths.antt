-- ===== src/Lzo1x/InPlace/Safety/Lengths.antt =====
-- Lengths, literal copies and the end of a match in place.
use lzo.Base.{ℕ, zero, suc, ◌+◌, ◌-◌, ◌%◌, ◌^◌, ◌≤◌, ◌<◌, ◌≡◌, arith, u64}
use lzo.Base.{true, ltb, ◌==◌, ltb→le, ◌||◌, Bool-cases, inl, inr}
use lzo.Base.{List, [], ◌∷◌, ◌++◌, length, length-append, All, IsByte}
use lzo.Lzo1x.Encoder.Bytes.{All-append}
use lzo.Lzo1x.Decoder.{safe}
use lzo.Lzo1x.Decoder.{Status, next, ◌>>=◌, ◌>>◌, stop_if, need_ip}
use lzo.Lzo1x.Decoder.{e_input_overrun, e_output_overrun, e_lookbehind_overrun}
use lzo.Lzo1x.Decoder.{handle_match}
use lzo.Lzo1x.Decoder.Copy.{copy_match_lem, extended, length-extended}
use lzo.Lzo1x.Decoder.Kept.{copy_match-Keeps}
use lzo.Lzo1x.Decoder.Safety.Lengths.{IsLength}
use lzo.Lzo1x.InPlace.{
  cell, fetch, copy_run, long_count, match_count, run_count, next_match, after_match, make_match,
}
use lzo.Lzo1x.InPlace.Safety.{
  Fits, Sound, Sound-bind, Sound-stop_if, Sound-weaken, IsLeft, cell-IsByte,
}

module _ (room size : ℕ) (limit : size ≤ room) where
  pub copy_run-Sound :
      (t : ℕ) (ip out : List ℕ)
      → All IsByte ip
      → All IsByte out
      → t ≤ length ip
      → length out + t ≤ size
      → Sound size
          (λ r. All IsByte r.0 × Fits size r.1 × (length r.0 + t ≡ length ip))
          (copy_run room t ip out)
  unfolding copy_run
  copy_run-Sound zero ip out a o h k = (a, (o, omega arith), omega arith)
  copy_run-Sound (suc t) [] out a o h k = absurd (omega arith)
  copy_run-Sound (suc t) (b ∷ ip) out a o h k =
      let c = cell room out (suc (length ip)) b in
      let fits : ltb (length out) room ≡ true = ground arith in
      rw fits (
        Sound-weaken size (λ r. All IsByte r.0 × Fits size r.1 × (length r.0 + t ≡ length ip)) _
          (copy_run room t ip (out ++ (c ∷ [])))
          (copy_run-Sound t ip (out ++ (c ∷ [])) a.1
            (All-append out (c ∷ []) o (cell-IsByte room out (suc (length ip)) b o a.0, tt))
            (omega arith) (omega (arith, length-append out (c ∷ []))))
          λ r (g, f, e). (g, f, omega arith))

  pub long_count-Sound :
      (s : Status) (base t : ℕ) (ip out : List ℕ)
      → All IsByte ip
      → Fits size out
      → 0 < length ip
      → base < 32
      → t ≤ 2 ^ 64 - 511
      → Sound size
          (λ r. IsLength (length ip) r × (length r.1 < length ip))
          (long_count room s base t ip out)
  unfolding long_count
  long_count-Sound s base t [] out a o h bs l = absurd (omega arith)
  long_count-Sound s base t (b ∷ ip) out a o h bs l =
      go (cell room out (suc (length ip)) b) (cell-IsByte room out (suc (length ip)) b o.0 a.0)
        λ more l'. long_count-Sound s base (u64 (t + 255)) ip out a.1 o more bs l'
    where
      go :
          (c : ℕ)
          → c < 256
          → (0 < length ip
              → u64 (t + 255) ≤ 2 ^ 64 - 511
              → Sound size
                  (λ r. IsLength (length ip) r × (length r.1 < length ip))
                  (long_count room s base (u64 (t + 255)) ip out))
          → Sound size
              (λ r. IsLength (length (b ∷ ip)) r × (length r.1 < length (b ∷ ip)))
              (elim c [
                | zero ↦
                    stop_if (ltb (2 ^ 64 - 511) (u64 (t + 255))) s out
                    >> (need_ip ip 1 out >> long_count room s base (u64 (t + 255)) ip out)
                | suc d ↦ next (u64 (t + (base + suc d)), ip)
              ])
      go zero small rec = Sound-stop_if size _ (ltb (2 ^ 64 - 511) (u64 (t + 255))) s out _ o λ e.
          Sound-stop_if size _ (ltb (length ip) (u64 1)) e_input_overrun out _ o λ e'.
            Sound-weaken size (λ r. IsLength (length ip) r × (length r.1 < length ip)) _ _
              (rec (ground arith) (ltb→le _ _ e)) λ r (g, k). ((g.0, g.1, omega arith), omega arith)
      go (suc d) small rec = ((a.1, omega arith, omega arith), omega arith)

  pub match_count-Sound :
      (base t : ℕ) (ip out : List ℕ)
      → All IsByte ip
      → Fits size out
      → 2 ≤ length ip
      → base < 32
      → t < 32
      → Sound size (λ r. IsLength (length ip) r × (2 ≤ length r.1)) (match_count room base t ip out)
  unfolding match_count
  match_count-Sound base zero ip out a o h bs ts =
      Sound-bind size (λ r. IsLength (length ip) r × (length r.1 < length ip)) _ _ _
        (long_count-Sound e_output_overrun base 0 ip out a o (omega arith) bs (omega arith))
        λ (t, ip') g.
          Sound-stop_if size _ (ltb (length ip') (u64 2)) e_input_overrun out _ o
            λ e. (g.0, ltb→le _ _ e)
  match_count-Sound base (suc t) ip out a o h bs ts = ((a, omega arith, omega arith), h)

  pub run_count-Sound :
      (t : ℕ) (ip out : List ℕ)
      → All IsByte ip
      → Fits size out
      → 2 ≤ length ip
      → t < 16
      → Sound size (IsLength (length ip)) (run_count room t ip out)
  unfolding run_count
  run_count-Sound zero ip out a o h ts =
      Sound-weaken size (λ r. IsLength (length ip) r × (length r.1 < length ip))
        (IsLength (length ip)) _
        (long_count-Sound e_input_overrun 15 0 ip out a o (omega arith) (omega arith) (omega arith))
        (λ r g. g.0)
  run_count-Sound (suc t) ip out a o h ts = (a, omega arith, omega arith)

  pub next_match-Sound :
      (t : ℕ) (ip out : List ℕ) (n : ℕ)
      → All IsByte ip
      → Fits size out
      → t < 4
      → length ip ≤ n
      → Sound size (IsLeft size n) (next_match room size t ip out)
  unfolding next_match
  next_match-Sound t ip out n a o ts h =
      Sound-stop_if size _ (ltb (size - length out) (u64 t)) e_output_overrun out _ o λ e.
        Sound-stop_if size _ (ltb (length ip) (u64 (t + 3))) e_input_overrun out _ o λ e'.
          Sound-bind size _ _ (copy_run room t ip out) _
            (copy_run-Sound t ip out a o.0 (omega (arith, ltb→le _ _ e'))
              (omega (arith, o.1, ltb→le _ _ e)))
            λ (ip', out') (a', o', l).
              after ip' out' a' o' (omega (arith, l, ltb→le _ _ e')) (omega (arith, l))
    where
      after :
          (ip' out' : List ℕ)
          → All IsByte ip'
          → Fits size out'
          → 3 ≤ length ip'
          → length ip' ≤ n
          → Sound size
              (IsLeft size n)
              (fetch room ip' out' >>= λ r. next (handle_match r.0, r.1, out'))
      after [] out' a' o' l l' = absurd (omega arith)
      after (m ∷ ip'') out' (b, a') o' l l' =
          ((a', o', omega arith, cell-IsByte room out' (suc (length ip'')) m o'.0 b), omega arith)

  after_match-Sound :
      (b : ℕ) (ip out : List ℕ) (n : ℕ)
      → All IsByte ip
      → Fits size out
      → length ip < n
      → Sound size (IsLeft size n) (after_match room size b ip out)
  unfolding after_match
  after_match-Sound b ip out n a o h = elim (Bool-cases (b % 4 == 0)) [
    | inl e ↦ rw e ((a, o), h)
    | inr e ↦ rw e (next_match-Sound (b % 4) ip out n a o (omega arith) (omega arith))
  ]

  pub make_match-Sound :
      (off len b : ℕ) (ip out : List ℕ) (n : ℕ)
      → All IsByte ip
      → Fits size out
      → len < 2 ^ 64
      → length ip < n
      → Sound size (IsLeft size n) (make_match room size off len b ip out)
  unfolding make_match
  make_match-Sound off len b ip out n a o l h =
      Sound-stop_if size _ (ltb (length out) off || off == 0) e_lookbehind_overrun out _ o λ e.
        Sound-stop_if size _ (ltb (size - length out) (u64 len)) e_output_overrun out _ o λ e'.
          let fits : length out + len ≤ size = omega (arith, o.1, ltb→le _ _ e') in
          let copy = copy_match_lem room off len out (ground arith) (ground arith) (omega arith) in
          let drawn : All IsByte (extended off len out) =
            rw copy at (copy_match-Keeps IsByte room off len out o.0) in
          rw copy (
            after_match-Sound (cell room (extended off len out) (length ip + 2) b) ip
              (extended off len out) n a (drawn, omega (arith, length-extended off len out)) h)
