-- ===== src/Text/Uuid.antt =====
-- `str(id)` and `uuid.UUID(text)` of Python. Of the texts that `uuid.UUID` takes, the ones with
-- "urn:", "uuid:" or braces and those that `int` reads with blanks or underscores are left out.
use rental_property.Base.{
  ℕ, ◌+◌, ◌-◌, ◌*◌, ◌/◌, ◌%◌, ◌<◌, ◌≡◌, refl, ap, ◌∙◌, true, false, Bool, ◌&&◌, ◌==◌, Option, none,
  some, List, [], ◌∷◌, if◌then◌else◌, ltb, leb, arith,
}
use rental_property.Text.Ops.{Str}

-- From the right: a digit, or a dash.
abbrev layout : List Bool
layout =
    true ∷ true ∷ true ∷ true ∷ true ∷ true ∷ true ∷ true ∷ true ∷ true ∷ true ∷ true ∷ false ∷ true
    ∷ true ∷ true ∷ true ∷ false ∷ true ∷ true ∷ true ∷ true ∷ false ∷ true ∷ true ∷ true ∷ true
    ∷ false ∷ true ∷ true ∷ true ∷ true ∷ true ∷ true ∷ true ∷ true ∷ []

abbrev digit_text : ℕ → ℕ
digit_text d = if ltb d 10 then 48 + d else 87 + d

abbrev digit_of : ℕ → Option ℕ
digit_of c =
    if leb 48 c && leb c 57
    then some (c - 48)
    else if leb 97 c && leb c 102
    then some (c - 87)
    else if leb 65 c && leb c 70
    then some (c - 55)
    else none

unfoldable pub write_digits : List Bool → ℕ → Str → Str
write_digits [] n s = s
write_digits (true ∷ l) n s = write_digits l (n / 16) (digit_text (n % 16) ∷ s)
write_digits (false ∷ l) n s = write_digits l n (b'-' ∷ s)

-- `str(id)`
unfoldable pub uuid_text : ℕ → Str
unfolding write_digits
uuid_text n = write_digits layout n []

-- The number that the digits make, and how many they are.
unfoldable pub read_digits : Str → ℕ → ℕ → Option (ℕ × ℕ)
read_digits [] n count = some (n, count)
read_digits (c ∷ s) n count =
    if c == b'-'
    then read_digits s n count
    else elim (digit_of c) [ none ↦ none | some d ↦ read_digits s (n * 16 + d) (count + 1) ]

abbrev all_digits : Option (ℕ × ℕ) → Option ℕ
all_digits none = none
all_digits (some (n, count)) = if count == 32 then some n else none

-- `uuid.UUID(text)`
unfoldable pub read_uuid : Str → Option ℕ
unfolding read_digits
read_uuid s = all_digits (read_digits s 0 0)

-- What the digits of a layout hold.
abbrev bound_of : List Bool → ℕ
bound_of [] = 1
bound_of (true ∷ l) = bound_of l * 16
bound_of (false ∷ l) = bound_of l

abbrev digits_of : List Bool → ℕ
digits_of [] = 0
digits_of (true ∷ l) = digits_of l + 1
digits_of (false ∷ l) = digits_of l

-- 128 bits.
abbrev pub uuid_bound : ℕ
uuid_bound = bound_of layout

digit_of-digit_text : (d : ℕ) → d < 16 → digit_of (digit_text d) ≡ some d
digit_of-digit_text d h = ground arith

not_dash : (d : ℕ) → (digit_text d == b'-') ≡ false
not_dash d = ground arith

read_digits-digit :
    (d n count : ℕ) (s : Str)
    → d < 16
    → read_digits (digit_text d ∷ s) n count ≡ read_digits s (n * 16 + d) (count + 1)
unfolding read_digits
read_digits-digit d n count s h = rw (not_dash d, digit_of-digit_text d h) refl

read_digits-write_digits :
    (l : List Bool) (n : ℕ) (s : Str)
    → n < bound_of l
    → read_digits (write_digits l n s) 0 0 ≡ read_digits s n (digits_of l)
unfolding write_digits read_digits
read_digits-write_digits [] n s h = let none_left : n ≡ 0 = omega arith in rw none_left refl
read_digits-write_digits (true ∷ l) n s h =
    let whole : n / 16 * 16 + n % 16 ≡ n = omega arith in
    read_digits-write_digits l (n / 16) (digit_text (n % 16) ∷ s) (omega arith)
    ∙ read_digits-digit (n % 16) (n / 16) (digits_of l) s (omega arith)
    ∙ ap (λ k. read_digits s k (digits_of l + 1)) whole
read_digits-write_digits (false ∷ l) n s h = read_digits-write_digits l n (b'-' ∷ s) h

-- The text of an id of 128 bits is read as the id.
pub read_uuid-uuid_text : (n : ℕ) → n < uuid_bound → read_uuid (uuid_text n) ≡ some n
unfolding read_uuid uuid_text
read_uuid-uuid_text n h = rw (read_digits-write_digits layout n [] h) (unfold read_digits in refl)
