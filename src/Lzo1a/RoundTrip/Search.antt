-- ===== src/Lzo1a/RoundTrip/Search.antt =====
-- src/lzo1a.c: the test of an entry of the dictionary that has been cleared finds what that of src/lzo1.c
-- finds, and so a match is an earlier position with equal bytes.
use lzo.Base.{ℕ, ◌-◌, ◌≡◌, refl, sym, arith}
use lzo.Base.{◌==◌, false}
use lzo.Base.{Option, none, some, List}
use lzo.Lzo1.Encoder.{
  Dict, Probe, literal, match, differs, first_probe, probe, find, dindex1, dindex2,
}
use lzo.Lzo1.RoundTrip.Search.{IsBefore, FoundIsMatch, find-IsMatch}
use lzo.Lzo1a.Encoder.{try_match, first_look, find_match}
use mathlib.Core.Path.{subst}

module _ (src : List ℕ) (dict : Dict) (ip : ℕ) (before : IsBefore ip dict) where
  try_match-probe : (d : ℕ) → try_match src dict ip d ≡ probe src dict ip d
  unfolding try_match probe
  try_match-probe d = of (dict d) refl
    where
      of : (o : Option ℕ) → dict d ≡ o → try_match src dict ip d ≡ probe src dict ip d
      of none e = rw (e, try_match, probe) refl
      of (some m) e =
          let l = before d m e in
          let ahead : ((ip - m) == 0) ≡ false = ground arith in
          rw (e, try_match, probe) (rw ahead refl)

  first_look-first_probe :
      (d : ℕ) (p : Probe) → first_look src dict ip d p ≡ first_probe src dict ip d p
  first_look-first_probe d literal = refl
  first_look-first_probe d (match m) = refl
  first_look-first_probe d differs = rw (try_match-probe (dindex2 src d)) refl

  pub find_match-find : find_match src dict ip ≡ find src dict ip
  unfolding find_match find
  find_match-find =
      rw (try_match-probe (dindex1 src ip))
        (first_look-first_probe (dindex1 src ip) (probe src dict ip (dindex1 src ip)))

  pub find_match-IsMatch : FoundIsMatch src ip (find_match src dict ip).0
  find_match-IsMatch =
      subst (λ f. FoundIsMatch src ip f.0) (sym find_match-find) (find-IsMatch src dict ip before)
