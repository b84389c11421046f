-- ===== src/Tests/Store.antt =====
-- A Redis that keeps, for each key, its value and the second at which it goes.
use rental_property.Base.{
  ℕ, ◌+◌, ◌==◌, Bool, true, false, Option, none, some, if◌then◌else◌, ltb, arith, by_option,
  ==_refl, ==_ne, is_some, ◌≡◌, refl, ◌≢◌, ◌<◌,
}
use rental_property.Bookings.{Redis}

abbrev pub Entries : Type 0
Entries = ℕ → Option (ℕ × ℕ)

abbrev pub alive : ℕ → Option (ℕ × ℕ) → Option ℕ
alive at none = none
alive at (some (v, ends)) = if ltb at ends then some v else none

abbrev pub read : ℕ → ℕ → Entries → Option ℕ
read k at s = alive at (s k)

abbrev pub write : ℕ → ℕ → ℕ → ℕ → Entries → Bool × Entries
write k v ex at s =
    if is_some (read k at s)
    then (false, s)
    else (true, λ j. if j == k then some (v, at + ex) else s j)

abbrev pub erase : ℕ → Entries → Entries
erase k s j = if j == k then none else s j

pub read-write :
    (k v ex at later : ℕ) (s : Entries)
    → read k at s ≡ none
    → later < at + ex
    → read k later (write k v ex at s).1 ≡ some v
read-write k v ex at later s h time = rw h (ground (arith, ==_refl k))

pub read-write_ne :
    (j k v ex at later : ℕ) (s : Entries)
    → j ≢ k
    → read j later (write k v ex at s).1 ≡ read j later s
read-write_ne j k v ex at later s other =
    by_option (read k at s) (λ e. rw e (ground (arith, ==_ne j k other))) (λ o e. rw e refl)

pub read-erase : (k at : ℕ) (s : Entries) → read k at (erase k s) ≡ none
read-erase k at s = ground (arith, ==_refl k)

pub read-erase_ne : (j k at : ℕ) (s : Entries) → j ≢ k → read j at (erase k s) ≡ read j at s
read-erase_ne j k at s other = ground (arith, ==_ne j k other)

abbrev pub store : Redis
store = record {
  Store = Entries;
  get = read;
  set_nx = write;
  delete = erase;
  set_nx-free = λ k v ex at s h. rw h refl;
  get-set_nx = read-write;
  set_nx-held = λ k v ex at owner s h. rw h refl;
  get-set_nx_ne = read-write_ne;
  get-delete = read-erase;
  get-delete_ne = read-erase_ne;
}
