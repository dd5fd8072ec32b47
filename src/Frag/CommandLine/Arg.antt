-- ===== src/Frag/CommandLine/Arg.antt =====
-- lzo_cpu/lzo_frag.c: the options as `main` spells them.
use lzo.Base.{[], ◌∷◌, ◌++◌}
use lzo.Frag.CommandLine.Text.{Chars}

abbrev pub d : Chars
d = 45 ∷ 100 ∷ []

abbrev pub v : Chars
v = 45 ∷ 118 ∷ []

abbrev pub verbose : Chars
verbose = 45 ∷ 45 ∷ 118 ∷ 101 ∷ 114 ∷ 98 ∷ 111 ∷ 115 ∷ 101 ∷ []

abbrev pub bench : Chars
bench = 45 ∷ 45 ∷ 98 ∷ 101 ∷ 110 ∷ 99 ∷ 104 ∷ []

abbrev pub upper_b : Chars
upper_b = 45 ∷ 66 ∷ []

abbrev pub t : Chars
t = 45 ∷ 116 ∷ []

abbrev pub threads : Chars
threads = 45 ∷ 45 ∷ 116 ∷ 104 ∷ 114 ∷ 101 ∷ 97 ∷ 100 ∷ 115 ∷ []

abbrev pub benchmark : Chars
benchmark = bench ++ (109 ∷ 97 ∷ 114 ∷ 107 ∷ [])

abbrev pub b : Chars
b = 45 ∷ 98 ∷ []

abbrev pub verify : Chars
verify = 45 ∷ 45 ∷ 118 ∷ 101 ∷ 114 ∷ 105 ∷ 102 ∷ 121 ∷ []

abbrev pub upper_l : Chars
upper_l = 45 ∷ 76 ∷ []

abbrev pub h : Chars
h = 45 ∷ 104 ∷ []

abbrev pub help : Chars
help = 45 ∷ 45 ∷ 104 ∷ 101 ∷ 108 ∷ 112 ∷ []

abbrev pub minus : Chars
minus = 45 ∷ []
