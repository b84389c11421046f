-- ===== src/Text/Ops.antt =====
-- The operations of `Text`.
use Prim.Native.Char.{code}
use Prim.Native.String.{String}
use rental_property.Base.{
  ℕ, ◌+◌, ◌-◌, Bool, true, false, ◌&&◌, ◌||◌, List, [], ◌∷◌, map, leb, ◌==◌, if◌then◌else◌,
}

abbrev pub Str : Type 0
Str = List ℕ

-- The code points of a literal. `String` has its own `[]` and `∷`.
abbrev pub codes : String → Str
codes String.[] = []
codes (String.◌∷◌ c s) = code c ∷ codes s

-- A blank of `str.strip`.
unfoldable pub is_space : ℕ → Bool
is_space c = c == 32 || leb 9 c && leb c 13 || leb 28 c && leb c 31

unfoldable pub to_upper : ℕ → ℕ
to_upper c = if leb b'a' c && leb c b'z' then c - 32 else c

unfoldable pub to_lower : ℕ → ℕ
to_lower c = if leb b'A' c && leb c b'Z' then c + 32 else c

-- `s.upper()` and `s.lower()`
unfoldable pub upper : Str → Str
unfolding to_upper
upper = map to_upper

unfoldable pub lower : Str → Str
unfolding to_lower
lower = map to_lower

-- Blanks at either end go; what is a blank is the caller's.
module _ (blank : ℕ → Bool) where
  unfoldable pub lstrip_by : Str → Str
  lstrip_by [] = []
  lstrip_by (c ∷ s) = let rest = lstrip_by s in if blank c then rest else c ∷ s

  unfoldable pub keep_unless_last : ℕ → Str → Str
  keep_unless_last c [] = if blank c then [] else c ∷ []
  keep_unless_last c (d ∷ r) = c ∷ d ∷ r

  unfoldable pub rstrip_by : Str → Str
  unfolding keep_unless_last
  rstrip_by [] = []
  rstrip_by (c ∷ s) = keep_unless_last c (rstrip_by s)

  unfoldable pub strip_by : Str → Str
  unfolding lstrip_by rstrip_by
  strip_by s = rstrip_by (lstrip_by s)

-- `s.strip()`
unfoldable pub strip : Str → Str
unfolding strip_by is_space
strip = strip_by is_space

abbrev pub is_blank : ℕ → Bool
is_blank c = c == 32

-- `trim(s)` of SQL, which takes the space alone
unfoldable pub sql_trim : Str → Str
unfolding strip_by
sql_trim = strip_by is_blank

unfoldable pub str_eq : Str → Str → Bool
str_eq [] [] = true
str_eq (a ∷ s) (b ∷ t) = a == b && str_eq s t
str_eq _ _ = false

-- `len(s)`
unfoldable pub length : Str → ℕ
length [] = 0
length (c ∷ s) = 1 + length s

-- What holds of every code point.
unfoldable pub all_of : (ℕ → Bool) → Str → Bool
all_of test [] = true
all_of test (c ∷ s) = test c && all_of test s

abbrev pub is_empty : Str → Bool
is_empty [] = true
is_empty (_ ∷ _) = false

-- A letter of `s.isalpha()`.
abbrev pub is_letter : ℕ → Bool
is_letter c = leb b'a' c && leb c b'z' || leb b'A' c && leb c b'Z'
