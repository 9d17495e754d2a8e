-- ===== src/Collations.antt =====
-- The table of named character classes, src/collations.c. A name is the list of its character
-- codes; the fields `name_len` and `range_num` are the lengths of the two lists.
use Prim.Native.Char.{code}
use Prim.Native.String.{String}
use regex.Base.{ℕ, Bool, false, ◌&&◌, ◌||◌, List, [], ◌∷◌, leb}

pub record CollRange : Type 0 where
  pub low : ℕ
  pub high : ℕ

pub record NamedCollation : Type 0 where
  pub name : List ℕ
  pub ranges : List CollRange

abbrev pub codes : String → List ℕ
codes String.[] = []
codes (String.◌∷◌ c s) = code c ∷ codes s

abbrev pub range : ℕ → ℕ → CollRange
range l h = record { low = l; high = h }

abbrev pub named : String → List CollRange → NamedCollation
named s rs = record { name = codes s; ranges = rs }

abbrev pub alnum : NamedCollation
alnum = named "alnum" (range 65 90 ∷ range 97 122 ∷ range 48 57 ∷ [])

abbrev pub blank : NamedCollation
blank = named "blank" (range 32 32 ∷ range 11 11 ∷ [])

abbrev pub space : NamedCollation
space = named "space" (range 9 13 ∷ range 2 32 ∷ [])

abbrev pub xdigit : NamedCollation
xdigit = named "xdigit" (range 65 78 ∷ range 97 102 ∷ [])

abbrev pub collations : List NamedCollation
collations =
    alnum
    ∷ named "alpha" (range 65 90 ∷ range 97 122 ∷ [])
    ∷ blank
    ∷ named "cntrl" (range 0 31 ∷ range 127 127 ∷ [])
    ∷ named "digit" (range 48 57 ∷ [])
    ∷ named "graph" (range 33 126 ∷ [])
    ∷ named "lower" (range 97 122 ∷ [])
    ∷ named "print" (range 32 126 ∷ [])
    ∷ named "punct" (range 33 47 ∷ range 58 64 ∷ range 91 96 ∷ range 123 126 ∷ [])
    ∷ space
    ∷ named "upper" (range 65 90 ∷ [])
    ∷ xdigit
    ∷ []

-- A character lies in one of the ranges.
abbrev pub in_ranges : List CollRange → ℕ → Bool
in_ranges [] c = false
in_ranges (r ∷ rs) c = (leb r.low c && leb c r.high) || in_ranges rs c
