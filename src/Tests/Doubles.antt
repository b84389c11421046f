-- ===== src/Tests/Doubles.antt =====
-- What the accounts take as parameters, made for the tests: a Redis of counters, a password hash and
-- a signature.
use rental_property.Base.{
  ℕ, ◌+◌, ◌-◌, ◌<◌, ◌≤◌, ◌≡◌, ◌≢◌, refl, ◌==◌, Bool, false, ◌&&◌, Option, none, some, [], ◌∷◌,
  if◌then◌else◌, ltb, leb, arith, by_option, ==_refl,
}
use rental_property.Base.Integers.{ℤ, pos, negsuc}
use rental_property.Text.{Str, str_eq, str_eq_iff}
use rental_property.Accounts.{
  Counter, Counters, number_of, ends_of, PasswordHash, AccessClaims, Payload, Signature,
}

abbrev pub Held : Type 0
Held = ℕ → Option Counter

abbrev is_over : ℕ → Option ℕ → Bool
is_over at none = false
is_over at (some e) = leb e at

abbrev kept : ℕ → Option Counter → Option Counter
kept at none = none
kept at (some c) = if is_over at c.ends then none else some c

abbrev read : ℕ → ℕ → Held → Option Counter
read k at s = kept at (s k)

abbrev set : ℕ → Option Counter → Held → Held
set k c s j = if j == k then c else s j

abbrev one_more : Option Counter → Counter
one_more old = record { number = number_of old + 1; ends = ends_of old }

abbrev count_up : ℕ → ℕ → Held → ℕ × Held
count_up k at s = let old = read k at s in (number_of old + 1, set k (some (one_more old)) s)

abbrev ending : ℕ → Option Counter → Option Counter
ending e none = none
ending e (some c) = some (record c { ends = some e })

abbrev left : ℕ → Option Counter → ℤ
left at none = negsuc 1
left at (some c) = elim c.ends [ none ↦ negsuc 0 | some e ↦ pos (e - at) ]

pub read-count_up :
    (k at : ℕ) (s : Held)
    → read k at (count_up k at s).1
      ≡ some (record { number = number_of (read k at s) + 1; ends = ends_of (read k at s) })
read-count_up k at s =
    by_option (s k) (λ e. ground (arith, ==_refl k, e))
      λ c e.
        by_option c.ends (λ n. ground (arith, ==_refl k, e, n))
          λ t n. ground (arith, ==_refl k, e, n)

pub read-ending :
    (k ex at : ℕ) (s : Held) (c : Counter)
    → 1 ≤ ex
    → read k at s ≡ some c
    → read k at (set k (ending (at + ex) (read k at s)) s)
      ≡ some (record c { ends = some (at + ex) })
read-ending k ex at s c lasts h = rw h (ground (arith, ==_refl k))

pub read-later :
    (k at later e : ℕ) (s : Held) (c : Counter)
    → read k at s ≡ some c
    → c.ends ≡ some e
    → at ≤ later
    → later < e
    → read k later s ≡ some c
read-later k at later e s c h ends after time =
    by_option (s k) (λ n. absurd (ground (arith, n)))
      λ d there.
        let same : some d ≡ some c = ground (arith, there) in
        let here : d ≡ c = cc in rw (there, here, ends) (ground arith)

pub read-delete : (k at : ℕ) (s : Held) → read k at (set k none s) ≡ none
read-delete k at s = ground (arith, ==_refl k)

abbrev pub counters : Counters
counters = record {
  Store = Held;
  get = read;
  incr = count_up;
  expire = λ k ex at s. set k (ending (at + ex) (read k at s)) s;
  ttl = λ k at s. left at (read k at s);
  delete = λ k s. set k none s;
  incr-get = λ k at s. refl;
  get-incr = read-count_up;
  get-expire = read-ending;
  get-later = read-later;
  get-delete = read-delete;
}

pub marked-filled : (salt : ℕ) (password : Str) → 35 ∷ password ≢ []
marked-filled salt password = ground arith

-- The password after a mark.
abbrev pub marked : PasswordHash
marked = record {
  hash = λ salt password. 35 ∷ password;
  verify = λ password h. str_eq (35 ∷ password) h;
  verify-hash = λ salt password. (str_eq_iff (35 ∷ password) (35 ∷ password)).1 refl;
  hash-filled = marked-filled;
}

-- A text, a zero and another text.
abbrev joined : Str → Str → Str
joined [] t = 0 ∷ t
joined (c ∷ s) t = (c + 1) ∷ joined s t

abbrev parted : Str → Str × Str
parted [] = ([], [])
parted (c ∷ s) = let rest = parted s in if c == 0 then ([], s) else ((c - 1) ∷ rest.0, rest.1)

pub parted-joined : (s t : Str) → parted (joined s t) ≡ (s, t)
parted-joined [] t = refl
parted-joined (c ∷ s) t = ground (arith, parted-joined s t)

abbrev write_claims : AccessClaims → Str
write_claims c = c.iat ∷ c.exp ∷ joined c.sub c.role

abbrev read_claims : ℕ → Str → Option Payload
read_claims now (iat ∷ exp ∷ s) =
    let texts = parted s in
    if leb iat now && ltb now exp
    then some (record { sub = some texts.0; role = some texts.1 })
    else none
read_claims now _ = none

pub read_claims-write_claims :
    (now : ℕ) (c : AccessClaims)
    → c.iat ≤ now
    → now + 1000000 ≤ c.exp
    → read_claims now (write_claims c) ≡ some (record { sub = some c.sub; role = some c.role })
read_claims-write_claims now c before time = rw (parted-joined c.sub c.role) (ground arith)

abbrev pub signature : Signature
signature = record {
  encode = write_claims;
  decode = read_claims;
  decode-encode = read_claims-write_claims;
}
