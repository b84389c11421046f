-- ===== src/Maintenance/Stale.antt =====
-- The bookings that the worker reads: rows of the table, each once, unpaid and overdue.
use rental_property.Base.{
  ℕ, ◌+◌, ◌≤◌, ◌≡◌, refl, ◌∙◌, Bool, true, false, not, ◌&&◌, ◌==◌, Option, some, List, [], ◌∷◌,
  arith, find, count, select, one_if, leb, ==_refl, Bool-cases, inl, inr, All,
}
use rental_property.Base.Table
use rental_property.Models.{Db, Booking, BookingStatus, booking_key, find_booking}
use rental_property.Maintenance.Defs.{is_stale, payment_due, insert_by, sort_by, stale_bookings}

abbrev pub has_id : ℕ → Booking → Bool
has_id k b = b.id == k

-- The primary key of `bookings`.
abbrev pub UniqueIds : Db → Type 0
UniqueIds d = (k : ℕ) → count (has_id k) d.bookings ≤ 1

-- Each booking is the row of its id, and no id comes twice.
abbrev pub AreRows : (ℕ → Option Booking) → List Booking → Type 0
AreRows row [] = Unit
AreRows row (b ∷ bs) = (row b.id ≡ some b) × (count (has_id b.id) bs ≡ 0) × AreRows row bs

pub AreRows-same :
    (row row' : ℕ → Option Booking) (bs : List Booking)
    → ((k : ℕ) → 1 ≤ count (has_id k) bs → row' k ≡ row k)
    → AreRows row bs
    → AreRows row' bs
unfolding count
AreRows-same row row' [] same h = tt
AreRows-same row row' (b ∷ bs) same h = (
  same b.id (ground (arith, ==_refl b.id)) ∙ h.0,
  h.1,
  AreRows-same row row' bs (λ k there. same k (omega arith)) h.2,
)

abbrev row_of : List Booking → ℕ → Option Booking
row_of bs k = find booking_key k bs

table-AreRows : (bs : List Booking) → ((k : ℕ) → count (has_id k) bs ≤ 1) → AreRows (row_of bs) bs
unfolding count find
table-AreRows [] unique = tt
table-AreRows (b ∷ bs) unique = (
  ground (arith, ==_refl b.id),
  ground (arith, ==_refl b.id, unique b.id),
  AreRows-same (row_of bs) (row_of (b ∷ bs)) bs (λ k there. ground (arith, unique k))
      (table-AreRows bs (λ k. omega (arith, unique k))),
)

count-select : (p q : Booking → Bool) (bs : List Booking) → count p (select q bs) ≤ count p bs
unfolding count select
count-select p q [] = omega arith
count-select p q (b ∷ bs) = ground (arith, count-select p q bs)

select-AreRows :
    (row : ℕ → Option Booking) (q : Booking → Bool) (bs : List Booking)
    → AreRows row bs
    → AreRows row (select q bs)
unfolding select
select-AreRows row q [] h = tt
select-AreRows row q (b ∷ bs) h = elim (Bool-cases (q b)) [
  | inl e ↦
      rw e (h.0, omega (arith, count-select (has_id b.id) q bs, h.1), select-AreRows row q bs h.2)
  | inr e ↦ rw e (select-AreRows row q bs h.2)
]

select-All :
    (q : Booking → Bool) (P : Booking → Type 0) (bs : List Booking)
    → ((b : Booking) → q b ≡ true → P b)
    → All P (select q bs)
unfolding select
select-All q P [] holds = tt
select-All q P (b ∷ bs) holds = elim (Bool-cases (q b)) [
  | inl e ↦ rw e (holds b e, select-All q P bs holds)
  | inr e ↦ rw e (select-All q P bs holds)
]

module _ (key : Booking → ℕ) where
  count-insert_by :
      (p : Booking → Bool) (r : Booking) (bs : List Booking)
      → count p (insert_by key r bs) ≡ one_if (p r) + count p bs
  unfolding count insert_by
  count-insert_by p r [] = refl
  count-insert_by p r (b ∷ bs) = ground (arith, count-insert_by p r bs)

  insert_by-AreRows :
      (row : ℕ → Option Booking) (r : Booking) (bs : List Booking)
      → row r.id ≡ some r
      → count (has_id r.id) bs ≡ 0
      → AreRows row bs
      → AreRows row (insert_by key r bs)
  unfolding insert_by count
  insert_by-AreRows row r [] here new h = (here, refl, tt)
  insert_by-AreRows row r (b ∷ bs) here new h = elim (Bool-cases (leb (key r) (key b))) [
    | inl e ↦ rw e (here, new, h)
    | inr e ↦ rw e (
      h.0,
      ground (arith, count-insert_by (has_id b.id) r bs, h.1),
      insert_by-AreRows row r bs here (omega arith) h.2,
    )
  ]

  count-sort_by : (p : Booking → Bool) (bs : List Booking) → count p (sort_by key bs) ≡ count p bs
  unfolding count sort_by
  count-sort_by p [] = refl
  count-sort_by p (b ∷ bs) = omega (arith, count-insert_by p b (sort_by key bs), count-sort_by p bs)

  sort_by-AreRows :
      (row : ℕ → Option Booking) (bs : List Booking) → AreRows row bs → AreRows row (sort_by key bs)
  unfolding sort_by
  sort_by-AreRows row [] h = tt
  sort_by-AreRows row (b ∷ bs) h =
      insert_by-AreRows row b (sort_by key bs) h.0 (count-sort_by (has_id b.id) bs ∙ h.1)
        (sort_by-AreRows row bs h.2)

  insert_by-All :
      (P : Booking → Type 0) (r : Booking) (bs : List Booking)
      → P r
      → All P bs
      → All P (insert_by key r bs)
  unfolding insert_by
  insert_by-All P r [] here h = (here, tt)
  insert_by-All P r (b ∷ bs) here h = elim (Bool-cases (leb (key r) (key b))) [
    | inl e ↦ rw e (here, h)
    | inr e ↦ rw e (h.0, insert_by-All P r bs here h.1)
  ]

  sort_by-All : (P : Booking → Type 0) (bs : List Booking) → All P bs → All P (sort_by key bs)
  unfolding sort_by
  sort_by-All P [] h = tt
  sort_by-All P (b ∷ bs) h = insert_by-All P b (sort_by key bs) h.0 (sort_by-All P bs h.1)

-- What the query asks of a booking.
abbrev pub IsOverdue : (ℕ → Bool) → ℕ → Booking → Type 0
IsOverdue locked now b =
    (b.status ≡ BookingStatus.pending_payment) × (b.payment_due_at ≤ now) × (locked b.id ≡ false)

stale-IsOverdue :
    (locked : ℕ → Bool) (now : ℕ) (b : Booking)
    → (is_stale now b && not (locked b.id)) ≡ true
    → IsOverdue locked now b
stale-IsOverdue locked now b h = ground arith

pub stale_bookings-All :
    (locked : ℕ → Bool) (now : ℕ) (d : Db)
    → All (IsOverdue locked now) (stale_bookings locked now d)
unfolding stale_bookings
stale_bookings-All locked now d = sort_by-All payment_due (IsOverdue locked now) _ (
    select-All (λ b. is_stale now b && not (locked b.id)) (IsOverdue locked now) d.bookings
      (stale-IsOverdue locked now))

pub stale_bookings-AreRows :
    (locked : ℕ → Bool) (now : ℕ) (d : Db)
    → UniqueIds d
    → AreRows (λ k. find_booking k d) (stale_bookings locked now d)
unfolding stale_bookings
stale_bookings-AreRows locked now d unique =
    sort_by-AreRows payment_due (λ k. find_booking k d) _
      (select-AreRows (λ k. find_booking k d) (λ b. is_stale now b && not (locked b.id)) d.bookings
        (table-AreRows d.bookings unique))

-- Every overdue row that nobody locks is read.
pub stale_bookings-count :
    (locked : ℕ → Bool) (now k : ℕ) (b : Booking) (d : Db)
    → find_booking k d ≡ some b
    → is_stale now b ≡ true
    → locked b.id ≡ false
    → 1 ≤ count (has_id k) (stale_bookings locked now d)
unfolding stale_bookings
stale_bookings-count locked now k b d fb stale free =
    let q = λ (x : Booking). is_stale now x && not (locked x.id) in
    omega (
      arith,
      count-sort_by payment_due (has_id k) (select q d.bookings),
      Table.count-select booking_key q k b d.bookings fb (ground (arith, stale, free)),
    )
