-- ===== src/Frag/Store.antt =====
-- lzo_cpu/lzo_frag.c: what a chunk's part of the output holds after it is written.
use lzo.Base.{ℕ, ◌+◌, ◌-◌, ◌≤◌, ◌≡◌, arith, ◌∙◌, ap, sym}
use lzo.Base.{List, ◌++◌, length, take, drop}
use lzo.Base.{length-append, length-take, length-drop, take-append_front, take-append-slice}
use lzo.Frag.{store}
use mathlib.Core.List.{append_assoc}

module _ (buf : List ℕ) (off : ℕ) (bytes : List ℕ) (room : off + length bytes ≤ length buf) where
  front_length : length (take off buf ++ bytes) ≡ off + length bytes
  front_length = omega (arith, length-append (take off buf) bytes, length-take off buf)

  pub length-store : length (store buf off bytes) ≡ length buf
  length-store = omega (
    arith,
    length-append (take off buf) (bytes ++ drop (off + length bytes) buf),
    length-append bytes (drop (off + length bytes) buf),
    length-take off buf,
    length-drop (off + length bytes) buf,
  )

  take-store : take (off + length bytes) (store buf off bytes) ≡ take off buf ++ bytes
  take-store =
      rw (append_assoc (take off buf) bytes (drop (off + length bytes) buf), front_length) at
        (take-append_front (take off buf ++ bytes) (drop (off + length bytes) buf))

  -- A buffer that agrees with `input` up to the chunk agrees up to the chunk's end.
  pub store-agrees :
      (input : List ℕ) (size : ℕ)
      → length bytes ≡ size
      → bytes ≡ take size (drop off input)
      → take off buf ≡ take off input
      → take (off + size) (store buf off bytes) ≡ take (off + size) input
  store-agrees input size len e before =
      let whole = take-append-slice off (off + size) input (omega arith) in
      let k : off + size - off ≡ size = omega arith in
      ap (λ n. take (off + n) (store buf off bytes)) (sym len)
      ∙ take-store
      ∙ rw (before, e) (rw k at whole)
