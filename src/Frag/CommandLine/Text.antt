-- ===== src/Frag/CommandLine/Text.antt =====
-- lzo_cpu/lzo_frag.c: the tests and numbers that the options of the tool use: strcmp, strcasecmp and
-- strtol of the C library, parse_int and alg_from_spec. A string is the list of its characters.
use lzo.Base.{ℕ, ◌+◌, ◌-◌, ◌*◌, ◌^◌, Bool, true, false, ◌&&◌, ◌||◌, ltb, leb, ◌==◌}
use lzo.Base.{if◌then◌else◌, Option, none, some, List, [], ◌∷◌, length}
use lzo.Frag.{Alg, alg_none, alg_1x, alg_1k, alg_1l, alg_1o}

abbrev pub Chars : Type 0
Chars = List ℕ

-- `strcmp(s, t) == 0`
abbrev pub same : Chars → Chars → Bool
same [] [] = true
same [] (d ∷ t) = false
same (c ∷ s) [] = false
same (c ∷ s) (d ∷ t) = c == d && same s t

-- `tolower` of the C locale, for `strcasecmp`
abbrev pub lower : ℕ → ℕ
lower c = if leb 65 c && leb c 90 then c + 32 else c

abbrev pub lowered : Chars → Chars
lowered [] = []
lowered (c ∷ s) = lower c ∷ lowered s

abbrev pub same_case : Chars → Chars → Bool
same_case s t = same (lowered s) (lowered t)

abbrev pub label_1 : Chars
label_1 = 49 ∷ []

abbrev pub label_1x : Chars
label_1x = 49 ∷ 120 ∷ []

abbrev pub label_1k : Chars
label_1k = 49 ∷ 107 ∷ []

abbrev pub label_1l : Chars
label_1l = 49 ∷ 108 ∷ []

abbrev pub label_1o : Chars
label_1o = 49 ∷ 111 ∷ []

unfoldable pub alg_from_spec : Chars → Alg
alg_from_spec s =
    if same_case s label_1 || same_case s label_1x
    then alg_1x
    else if same_case s label_1k
    then alg_1k
    else if same_case s label_1l
    then alg_1l
    else if same_case s label_1o
    then alg_1o
    else alg_none

-- The labels that `-L` accepts.
unfoldable pub allowed : Chars → Bool
allowed s =
    same_case s label_1 || (same_case s label_1k || (same_case s label_1l || same_case s label_1o))

abbrev pub is_digit : ℕ → Bool
is_digit c = leb 48 c && leb c 57

-- `isspace`
abbrev pub is_space : ℕ → Bool
is_space c = c == 32 || (leb 9 c && leb c 13)

-- The digits at the front as a number behind those read so far, and the rest.
unfoldable pub digits : ℕ → Chars → ℕ × Chars
digits n [] = (n, [])
digits n (c ∷ s) =
    let rest = digits (n * 10 + (c - 48)) s in if is_digit c then rest else (n, c ∷ s)

unfoldable pub skip_space : Chars → Chars
skip_space [] = []
skip_space (c ∷ s) = let rest = skip_space s in if is_space c then rest else c ∷ s

-- `strtol(s, &end, 10)`: whether there is a minus sign, the number without it, and `end`; where there is
-- no digit, `end` is all of `s`. A number above LONG_MAX is refused below like LONG_MAX itself.
abbrev pub with_digits : Chars → Bool → Chars → Bool × (ℕ × Chars)
with_digits s minus [] = (minus, (0, s))
with_digits s minus (c ∷ t) = if is_digit c then (minus, digits 0 (c ∷ t)) else (minus, (0, s))

abbrev pub signed : Chars → Chars → Bool × (ℕ × Chars)
signed s [] = (false, (0, s))
signed s (c ∷ t) =
    if c == 45
    then with_digits s true t
    else if c == 43
    then with_digits s false t
    else with_digits s false (c ∷ t)

unfoldable pub strtol : Chars → Bool × (ℕ × Chars)
strtol s = signed s (skip_space s)

abbrev pub int_max : ℕ
int_max = 2 ^ 31 - 1

unfoldable pub parse_int : Chars → Option ℕ
parse_int s =
    let (minus, (v, end)) = strtol s in
    if ltb 0 (length end) then none else if minus || v == 0 || ltb int_max v then none else some v
