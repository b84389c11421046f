-- ===== src/Text/Normal.antt =====
-- `strip`, `upper` and `lower` of Python on texts that they have normalised, and equality of texts.
use rental_property.Base.{ℕ, ◌≡◌, refl, ◌↔◌, Bool, true, false, not, [], ◌∷◌, map, arith}
use rental_property.Text.Ops.{
  Str, is_space, to_upper, to_lower, upper, lower, lstrip_by, keep_unless_last, rstrip_by, strip_by,
  is_blank, strip, sql_trim, str_eq,
}

pub str_eq_iff : (s t : Str) → (str_eq s t ≡ true) ↔ (s ≡ t)
unfolding str_eq
str_eq_iff [] [] = ground arith
str_eq_iff [] (b ∷ t) = ground arith
str_eq_iff (a ∷ s) [] = ground arith
str_eq_iff (a ∷ s) (b ∷ t) = ground (arith, str_eq_iff s t)

to_upper_idem : (c : ℕ) → to_upper (to_upper c) ≡ to_upper c
unfolding to_upper
to_upper_idem c = ground arith

to_lower_idem : (c : ℕ) → to_lower (to_lower c) ≡ to_lower c
unfolding to_lower
to_lower_idem c = ground arith

is_space-to_upper : (c : ℕ) → is_space (to_upper c) ≡ is_space c
unfolding is_space to_upper
is_space-to_upper c = ground arith

is_space-to_lower : (c : ℕ) → is_space (to_lower c) ≡ is_space c
unfolding is_space to_lower
is_space-to_lower c = ground arith

-- Stripping commutes with a map of letters that keeps the blanks.
module _ (blank : ℕ → Bool) (f : ℕ → ℕ) (keeps : (c : ℕ) → blank (f c) ≡ blank c) where
  lstrip_by-map : (s : Str) → lstrip_by blank (map f s) ≡ map f (lstrip_by blank s)
  unfolding lstrip_by
  lstrip_by-map [] = refl
  lstrip_by-map (c ∷ s) = ground (arith, keeps c, lstrip_by-map s)

  keep_unless_last-map :
      (c : ℕ) (s : Str)
      → keep_unless_last blank (f c) (map f s) ≡ map f (keep_unless_last blank c s)
  unfolding keep_unless_last
  keep_unless_last-map c [] = ground (arith, keeps c)
  keep_unless_last-map c (d ∷ s) = refl

  rstrip_by-map : (s : Str) → rstrip_by blank (map f s) ≡ map f (rstrip_by blank s)
  unfolding rstrip_by
  rstrip_by-map [] = refl
  rstrip_by-map (c ∷ s) = rw (rstrip_by-map s) (keep_unless_last-map c (rstrip_by blank s))

  strip_by-map : (s : Str) → strip_by blank (map f s) ≡ map f (strip_by blank s)
  unfolding strip_by
  strip_by-map s = rw (lstrip_by-map s) (rstrip_by-map (lstrip_by blank s))

map_idem : (f : ℕ → ℕ) → ((c : ℕ) → f (f c) ≡ f c) → (s : Str) → map f (map f s) ≡ map f s
map_idem f h [] = refl
map_idem f h (c ∷ s) = cc (h c, map_idem f h s)

-- Text that does not begin with a blank.
abbrev starts_solid : (ℕ → Bool) → Str → Bool
starts_solid blank [] = true
starts_solid blank (c ∷ s) = not (blank c)

module _ (blank : ℕ → Bool) where
  lstrip_by-starts_solid : (s : Str) → starts_solid blank (lstrip_by blank s) ≡ true
  unfolding lstrip_by
  lstrip_by-starts_solid [] = refl
  lstrip_by-starts_solid (c ∷ s) = ground (arith, lstrip_by-starts_solid s)

  keep_unless_last-solid :
      (c : ℕ) (s : Str) → blank c ≡ false → starts_solid blank (keep_unless_last blank c s) ≡ true
  unfolding keep_unless_last
  keep_unless_last-solid c [] h = ground arith
  keep_unless_last-solid c (d ∷ s) h = ground arith

  rstrip_by-starts_solid :
      (s : Str) → starts_solid blank s ≡ true → starts_solid blank (rstrip_by blank s) ≡ true
  unfolding rstrip_by
  rstrip_by-starts_solid [] h = refl
  rstrip_by-starts_solid (c ∷ s) h = keep_unless_last-solid c (rstrip_by blank s) (ground arith)

-- What is stripped of more blanks has none of fewer left to strip.
module _ (blank fewer : ℕ → Bool) (less : (c : ℕ) → fewer c ≡ true → blank c ≡ true) where
  lstrip_by-solid : (s : Str) → starts_solid blank s ≡ true → lstrip_by fewer s ≡ s
  unfolding lstrip_by
  lstrip_by-solid [] h = refl
  lstrip_by-solid (c ∷ s) h = ground (arith, less c)

  rstrip_by-keep_unless_last :
      (c : ℕ) (s : Str)
      → rstrip_by fewer s ≡ s
      → rstrip_by fewer (keep_unless_last blank c s) ≡ keep_unless_last blank c s
  unfolding keep_unless_last rstrip_by
  rstrip_by-keep_unless_last c [] h = ground (arith, less c)
  rstrip_by-keep_unless_last c (d ∷ s) h = rw h

  rstrip_by-rstrip_by : (s : Str) → rstrip_by fewer (rstrip_by blank s) ≡ rstrip_by blank s
  unfolding rstrip_by
  rstrip_by-rstrip_by [] = refl
  rstrip_by-rstrip_by (c ∷ s) =
      rstrip_by-keep_unless_last c (rstrip_by blank s) (rstrip_by-rstrip_by s)

  strip_by-strip_by : (s : Str) → strip_by fewer (strip_by blank s) ≡ strip_by blank s
  unfolding strip_by
  strip_by-strip_by s =
      let left = lstrip_by blank s in
      let solid = rstrip_by-starts_solid blank left (lstrip_by-starts_solid blank s) in
      rw (lstrip_by-solid (rstrip_by blank left) solid) (rstrip_by-rstrip_by left)

pub strip_idem : (s : Str) → strip (strip s) ≡ strip s
unfolding strip
strip_idem = strip_by-strip_by is_space is_space (λ c h. h)

is_blank→is_space : (c : ℕ) → is_blank c ≡ true → is_space c ≡ true
unfolding is_space
is_blank→is_space c h = ground arith

pub sql_trim-strip : (s : Str) → sql_trim (strip s) ≡ strip s
unfolding sql_trim strip
sql_trim-strip = strip_by-strip_by is_space is_blank is_blank→is_space

pub upper_idem : (s : Str) → upper (upper s) ≡ upper s
unfolding upper
upper_idem = map_idem to_upper to_upper_idem

pub lower_idem : (s : Str) → lower (lower s) ≡ lower s
unfolding lower
lower_idem = map_idem to_lower to_lower_idem

pub strip-upper : (s : Str) → strip (upper s) ≡ upper (strip s)
unfolding upper strip
strip-upper = strip_by-map is_space to_upper is_space-to_upper

pub strip-lower : (s : Str) → strip (lower s) ≡ lower (strip s)
unfolding lower strip
strip-lower = strip_by-map is_space to_lower is_space-to_lower
