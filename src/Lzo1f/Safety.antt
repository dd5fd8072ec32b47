-- ===== src/Lzo1f/Safety.antt =====
-- src/lzo1f_d.ch: no piece of lzo1f_decompress_safe faults, with five bytes of memory behind the input.
pub mod Rounds
use lzo.Base.{ℕ, zero, suc, ◌+◌, ◌-◌, ◌*◌, ◌/◌, ◌%◌, ◌^◌, ◌≤◌, ◌<◌, ◌≡◌, refl, arith, ◌⊎◌, u64}
use lzo.Base.{ltb, ◌==◌, ◌||◌, if◌then◌else◌, Bool-cases, inl, inr, ltb→le, ltb→lt}
use lzo.Base.{List, [], ◌∷◌, ◌++◌, length, length-append, All, IsByte}
use lzo.Lzo1x.Decoder.{
  Status, Step, next, done, fault, ◌>>=◌, read, copy_literals, copy_match, e_input_overrun,
  e_output_overrun, e_lookbehind_overrun, safe,
}
use lzo.Lzo1x.Decoder.Copy.{copy_match_lem, extended, length-extended}
use lzo.Lzo1x.Decoder.Safety.{Safe, Safe-bind, Safe-stop_if, Safe-weaken}
use lzo.Lzo1x.Decoder.Safety.Lengths.{copy_literals-Safe}
use lzo.Lzo1f.{
  RoundLabel, RoundState, outer_loop, no_eof, inner_loop, match, input_left, zero_bytes, length_of,
  literals_marker, behind_match, close_match, far_match, short_match, eof_reached, long_match,
  run_of_literals, loop_round,
}

module _ (size past : ℕ) (room : 5 ≤ past) where
  -- The memory from `ip` on and the output, with `ip` at most `over` bytes behind `ip_end`.
  pub record IsAt (over : ℕ) (ip out : List ℕ) : Type 0 where
    pub bytes : All IsByte ip
    pub fits : length out ≤ size
    pub short : length ip < 2 ^ 63
    pub near : past ≤ length ip + over

  -- What holds at each label.
  abbrev pub IsReady : RoundState → Type 0
  IsReady (outer_loop, ip, out) = IsAt 5 ip out
  IsReady (no_eof, ip, out) = length out ≤ size
  IsReady (inner_loop t, ip, out) = (t < 256) × IsAt 5 ip out
  IsReady (match t, ip, out) = (t < 256) × IsAt 0 ip out

  -- Each round makes it smaller.
  abbrev pub measure : RoundState → ℕ
  measure (outer_loop, ip, out) = 2 * length ip + 1
  measure (no_eof, ip, out) = 0
  measure (inner_loop t, ip, out) = 2 * length ip + 2
  measure (match t, ip, out) = 2 * length ip + 1

  abbrev pub IsNext : ℕ → RoundState → Type 0
  IsNext n s = IsReady s × (measure s < n)

  -- A length, and the memory behind it, still in front of `ip_end`.
  abbrev pub IsLength : ℕ → List ℕ → ℕ × List ℕ → Type 0
  IsLength n out (t, ip) = IsAt 0 ip out × (0 < t) × (t < 2 ^ 64 - 200) × (length ip ≤ n)

  zero_bytes-Safe :
      (s : Status) (t : ℕ) (ip out : List ℕ)
      → IsAt 0 ip out
      → past < length ip
      → t ≤ 2 ^ 64 - 511
      → Safe size (IsLength (length ip) out) (zero_bytes past s t ip out)
  unfolding zero_bytes
  zero_bytes-Safe s t [] out a h l = absurd (omega arith)
  zero_bytes-Safe s t (zero ∷ ip) out a h l =
      Safe-stop_if size _ (ltb (2 ^ 64 - 511) (u64 (t + 255))) s out _ a.fits λ e.
        Safe-stop_if size _ (ltb (input_left past ip) (u64 1)) e_input_overrun out _ a.fits λ e'.
          Safe-weaken size (IsLength (length ip) out) _ _
            (zero_bytes-Safe s (u64 (t + 255)) ip out
              (record {
                bytes = (a.bytes).1;
                fits = a.fits;
                short = omega (arith, a.short);
                near = omega arith;
              })
              (omega (arith, ltb→le _ _ e', a.short)) (ltb→le _ _ e))
            λ (t', ip') (g, p, b, k). (g, p, b, omega arith)
  zero_bytes-Safe s t (suc b ∷ ip) out a h l = (
    record {
      bytes = (a.bytes).1;
      fits = a.fits;
      short = omega (arith, a.short);
      near = omega arith;
    },
    omega (arith, (a.bytes).0),
    omega (arith, (a.bytes).0),
    omega arith,
  )

  pub length_of-Safe :
      (s : Status) (t : ℕ) (ip out : List ℕ)
      → IsAt 0 ip out
      → t < 256
      → Safe size (IsLength (length ip) out) (length_of past s t ip out)
  unfolding length_of
  length_of-Safe s zero ip out a h =
      Safe-stop_if size _ (ltb (input_left past ip) (u64 1)) e_input_overrun out _ a.fits λ e.
        zero_bytes-Safe s 0 ip out a (omega (arith, ltb→le _ _ e, a.short, a.near)) (omega arith)
  length_of-Safe s (suc t) ip out a h = (a, omega arith, omega arith, omega arith)

  -- Literals, of which there are at most three where `ip` is behind `ip_end`: there NEED_IP finds the
  -- difference wrapped, and lets them pass.
  pub literals_marker-Safe :
      (t : ℕ) (ip out : List ℕ) (n : ℕ)
      → IsAt 1 ip out
      → ((t < 4) ⊎ (past ≤ length ip))
      → t < 2 ^ 64 - 200
      → 2 * length ip < n
      → Safe size (IsNext n) (literals_marker size past t ip out)
  unfolding literals_marker
  literals_marker-Safe t ip out n a few h k =
      Safe-stop_if size _ (ltb (size - length out) (u64 t)) e_output_overrun out _ a.fits λ e.
        Safe-stop_if size _ (ltb (input_left past ip) (u64 (t + 1))) e_input_overrun out _ a.fits
          λ e'.
            let enough = there few (ltb→le _ _ e') in
            Safe-bind size _ _ (copy_literals size t ip out) _
              (copy_literals-Safe size t ip out a.bytes (omega (arith, enough))
                (omega (arith, ltb→le _ _ e, a.fits)))
              λ (ip', out') (b, o, l). marker ip' out' b o l enough.0 enough.1
    where
      there :
          (t < 4) ⊎ (past ≤ length ip)
          → u64 (t + 1) ≤ input_left past ip
          → (t + 1 ≤ length ip) × (past ≤ length ip - (t + 1) + 5)
      there (inl c) e = (omega (arith, a.near), omega (arith, a.near))
      there (inr c) e = (omega (arith, a.short), omega (arith, a.short))

      marker :
          (ip' out' : List ℕ)
          → All IsByte ip'
          → length out' ≤ size
          → length ip' + t ≡ length ip
          → t + 1 ≤ length ip
          → past ≤ length ip - (t + 1) + 5
          → Safe size (IsNext n) (read ip' >>= λ r. next (inner_loop r.0, r.1, out'))
      marker [] out' b o l p q = absurd (omega arith)
      marker (m ∷ ip'') out' b o l p q = (
        (b.0, record { bytes = b.1; fits = o; short = omega (arith, a.short); near = omega arith }),
        omega arith,
      )

  behind_match-Safe :
      (b : ℕ) (ip out : List ℕ) (n : ℕ)
      → IsAt 1 ip out
      → 2 * length ip + 1 < n
      → Safe size (IsNext n) (behind_match size past b ip out)
  unfolding behind_match
  behind_match-Safe b ip out n a k = elim (Bool-cases (b % 4 == 0)) [
    | inl e ↦ rw e (
      record { bytes = a.bytes; fits = a.fits; short = a.short; near = omega (arith, a.near) },
      omega arith,
    )
    | inr e ↦
        rw e
          (literals_marker-Safe (b % 4) ip out n a (inl (omega arith)) (omega arith) (omega arith))
  ]

  pub close_match-Safe :
      (off len b : ℕ) (ip out : List ℕ) (n : ℕ)
      → IsAt 1 ip out
      → len < 2 ^ 64
      → 2 * length ip + 1 < n
      → Safe size (IsNext n) (close_match size past off len b ip out)
  unfolding close_match
  close_match-Safe off len b ip out n a l k =
      Safe-stop_if size _ (ltb (length out) off || off == 0) e_lookbehind_overrun out _ a.fits λ e.
        Safe-stop_if size _ (ltb (size - length out) (u64 len)) e_output_overrun out _ a.fits λ e'.
          let fits : length out + len ≤ size = omega (arith, ltb→le _ _ e', a.fits) in
          rw (copy_match_lem size off len out (ground arith) (ground arith) fits) (
            behind_match-Safe b ip (extended off len out) n
              (record {
                bytes = a.bytes;
                fits = omega (arith, length-extended off len out);
                short = a.short;
                near = a.near;
              })
              k)

  -- A match whose offset byte is read with no test.
  pub near_match-Safe :
      (off : ℕ → ℕ) (len t : ℕ) (ip out : List ℕ) (n : ℕ)
      → IsAt 0 ip out
      → len < 2 ^ 64
      → 2 * length ip ≤ n
      → Safe size (IsNext n) (read ip >>= λ r. close_match size past (off r.0) len t r.1 out)
  near_match-Safe off len t [] out n a l k = absurd (omega (arith, a.near))
  near_match-Safe off len t (b ∷ ip) out n a l k =
      close_match-Safe (off b) len t ip out n
        (record {
          bytes = (a.bytes).1;
          fits = a.fits;
          short = omega (arith, a.short);
          near = omega (arith, a.near);
        })
        l (omega arith)
