-- ===== src/Occupancy/Census.antt =====
-- The counts of the bookings and tenancies of each unit, and what a status says of them.
use rental_property.Base.{
  ℕ, ◌+◌, ◌≤◌, ◌≡◌, sym, ◌∙◌, ◌≢◌, inl, inr, Bool, true, false, ◌&&◌, ◌==◌, none, some, List, arith,
  one_if, find, put, count, eq-or-ne, find-put_self, find-put_ne, find-key, count-put, ==_ne,
  ==_refl,
}
use rental_property.Models.{
  Db, RentalUnit, UnitStatus, Booking, BookingStatus, Tenancy, TenancyStatus, same_tenancy_status,
  unit_key, booking_key, tenancy_key, find_unit, find_booking, find_tenancy,
}
use rental_property.Bookings.{is_notice_of}

-- A booking that waits for its payment or for a decision on it.
abbrev pub is_waiting : BookingStatus → Bool
is_waiting BookingStatus.pending_payment = true
is_waiting BookingStatus.payment_review = true
is_waiting _ = false

abbrev pub is_confirmed : BookingStatus → Bool
is_confirmed BookingStatus.confirmed = true
is_confirmed _ = false

abbrev pub waits_for : ℕ → Booking → Bool
waits_for k b = b.unit_id == k && is_waiting b.status

abbrev pub reserves : ℕ → Booking → Bool
reserves k b = b.unit_id == k && is_confirmed b.status

abbrev pub occupies : ℕ → Tenancy → Bool
occupies k t = t.unit_id == k && same_tenancy_status t.status TenancyStatus.active

abbrev pub leaves : ℕ → Tenancy → Bool
leaves = is_notice_of

-- What the status of a unit says of its waiting bookings, its confirmed bookings, its tenancies
-- without notice and its tenancies under notice.
abbrev pub Fits : UnitStatus → ℕ → ℕ → ℕ → ℕ → Type 0
Fits UnitStatus.available w r a n = (w ≡ 0) × (r ≡ 0) × (a ≡ 0) × (n ≡ 0)
Fits UnitStatus.booking_pending w r a n = (w ≡ 1) × (r ≡ 0) × (a ≡ 0) × (n ≤ 1)
Fits UnitStatus.booked w r a n = (w ≡ 0) × (r ≡ 1) × (a ≡ 0) × (n ≤ 1)
Fits UnitStatus.occupied w r a n = (w ≡ 0) × (r ≡ 0) × (a ≡ 1) × (n ≡ 0)
Fits UnitStatus.notice_given w r a n = (w ≡ 0) × (r ≡ 0) × (a ≡ 0) × (n ≡ 1)
Fits UnitStatus.vacating_soon w r a n = (w ≡ 0) × (r ≡ 0) × (a ≡ 0) × (n ≡ 1)
Fits UnitStatus.inspection w r a n = (w ≡ 0) × (r ≡ 0) × (a ≡ 0) × (n ≡ 0)
Fits UnitStatus.inactive w r a n = (w ≡ 0) × (r ≡ 0) × (a ≡ 0) × (n ≡ 0)

abbrev pub FitsAt : ℕ → UnitStatus → Db → Type 0
FitsAt k s d =
    Fits s (count (waits_for k) d.bookings) (count (reserves k) d.bookings)
      (count (occupies k) d.tenancies) (count (leaves k) d.tenancies)

-- Every unit's status fits the bookings and tenancies that it has.
abbrev pub Consistent : Db → Type 0
Consistent d = (k : ℕ) (u : RentalUnit) → find_unit k d ≡ some u → FitsAt k u.status d

-- The counts of one unit, unchanged.
abbrev SameCensus : ℕ → Db → Db → Type 0
SameCensus k d d' =
    (count (waits_for k) d'.bookings ≡ count (waits_for k) d.bookings)
    × (count (reserves k) d'.bookings ≡ count (reserves k) d.bookings)
    × (count (occupies k) d'.tenancies ≡ count (occupies k) d.tenancies)
    × (count (leaves k) d'.tenancies ≡ count (leaves k) d.tenancies)

abbrev FitsSame : (s : UnitStatus) (k : ℕ) (d d' : Db) → Type 0
FitsSame s k d d' = FitsAt k s d → FitsAt k s d'

SameCensus-FitsAt : (k : ℕ) (s : UnitStatus) (d d' : Db) → SameCensus k d d' → FitsSame s k d d'
SameCensus-FitsAt k UnitStatus.available d d' same h = omega arith
SameCensus-FitsAt k UnitStatus.booking_pending d d' same h = omega arith
SameCensus-FitsAt k UnitStatus.booked d d' same h = omega arith
SameCensus-FitsAt k UnitStatus.occupied d d' same h = omega arith
SameCensus-FitsAt k UnitStatus.notice_given d d' same h = omega arith
SameCensus-FitsAt k UnitStatus.vacating_soon d d' same h = omega arith
SameCensus-FitsAt k UnitStatus.inspection d d' same h = omega arith
SameCensus-FitsAt k UnitStatus.inactive d d' same h = omega arith

-- One unit is written back; the counts of the others stay, and its own fit its new status.
pub write_unit-Consistent :
    (k : ℕ) (u u' : RentalUnit) (d d' : Db)
    → find_unit k d ≡ some u
    → u'.id ≡ k
    → d'.units ≡ put unit_key k u' d.units
    → ((j : ℕ) → j ≢ k → SameCensus j d d')
    → FitsAt k u'.status d'
    → Consistent d
    → Consistent d'
write_unit-Consistent k u u' d d' found key written others fits h j v e = elim (eq-or-ne j k) [
  | inl same ↦
      let now : find_unit k d' ≡ some u' =
        rw written (find-put_self unit_key k u' u d.units key found) in
      let row : v ≡ u' = cc in rw (row, same) fits
  | inr other ↦
      let before : find_unit j d ≡ some v =
        sym (find-put_ne unit_key j k u' d.units key other) ∙ (rw written at e) in
      SameCensus-FitsAt j v.status d d' (others j other) (h j v before)
]

-- One booking is written back, and the unit that it is for keeps its place.
module _ (b b' : Booking) (bs : List Booking) (found : find booking_key b.id bs ≡ some b) where
  pub put_booking-waits_for :
      (j : ℕ)
      → count (waits_for j) (put booking_key b.id b' bs) + one_if (waits_for j b)
        ≡ count (waits_for j) bs + one_if (waits_for j b')
  put_booking-waits_for j = count-put booking_key (waits_for j) b.id b' b bs found

  pub put_booking-reserves :
      (j : ℕ)
      → count (reserves j) (put booking_key b.id b' bs) + one_if (reserves j b)
        ≡ count (reserves j) bs + one_if (reserves j b')
  put_booking-reserves j = count-put booking_key (reserves j) b.id b' b bs found

module _ (t t' : Tenancy) (ts : List Tenancy) (found : find tenancy_key t.id ts ≡ some t) where
  pub put_tenancy-occupies :
      (j : ℕ)
      → count (occupies j) (put tenancy_key t.id t' ts) + one_if (occupies j t)
        ≡ count (occupies j) ts + one_if (occupies j t')
  put_tenancy-occupies j = count-put tenancy_key (occupies j) t.id t' t ts found

  pub put_tenancy-leaves :
      (j : ℕ)
      → count (leaves j) (put tenancy_key t.id t' ts) + one_if (leaves j t)
        ≡ count (leaves j) ts + one_if (leaves j t')
  put_tenancy-leaves j = count-put tenancy_key (leaves j) t.id t' t ts found

-- One booking and its unit are written back.
module _ (b b' : Booking) (u u' : RentalUnit) (d d' : Db) where
  pub put_booking_and_unit-Consistent :
      find_unit b.unit_id d ≡ some u
      → find_booking b.id d ≡ some b
      → b'.unit_id ≡ b.unit_id
      → u'.id ≡ u.id
      → d'.units ≡ put unit_key u.id u' d.units
      → d'.bookings ≡ put booking_key b.id b' d.bookings
      → d'.tenancies ≡ d.tenancies
      → ((w r : ℕ)
          → w + one_if (is_waiting b.status)
            ≡ count (waits_for b.unit_id) d.bookings + one_if (is_waiting b'.status)
          → r + one_if (is_confirmed b.status)
            ≡ count (reserves b.unit_id) d.bookings + one_if (is_confirmed b'.status)
          → Fits u'.status w r
              (count (occupies b.unit_id) d.tenancies)
              (count (leaves b.unit_id) d.tenancies))
      → Consistent d
      → Consistent d'
  put_booking_and_unit-Consistent fu fb unit_id id units bookings tenancies fits h =
      let k = b.unit_id in
      let key : u.id ≡ k = find-key unit_key k u d.units fu in
      let waiting = put_booking-waits_for b b' d.bookings fb in
      let reserved = put_booking-reserves b b' d.bookings fb in
      write_unit-Consistent k u u' d d' fu (id ∙ key) (rw (← key) units)
        (λ j other.
          rw (bookings, tenancies)
            (ground (arith, waiting j, reserved j, ==_ne b.unit_id j (λ e. other (sym e)))))
        (rw (bookings, tenancies)
          (fits (count (waits_for k) (put booking_key b.id b' d.bookings))
            (count (reserves k) (put booking_key b.id b' d.bookings))
            (ground (arith, waiting k, ==_refl k)) (ground (arith, reserved k, ==_refl k))))
        h

-- A unit that a booking waits for has that one booking and no tenancy without notice.
pub Fits-waiting :
    (s : UnitStatus) (w r a n : ℕ) → Fits s w r a n → 1 ≤ w → (w ≡ 1) × (r ≡ 0) × (a ≡ 0) × (n ≤ 1)
Fits-waiting UnitStatus.booking_pending w r a n h p = h
Fits-waiting UnitStatus.available w r a n h p = absurd (omega arith)
Fits-waiting UnitStatus.booked w r a n h p = absurd (omega arith)
Fits-waiting UnitStatus.occupied w r a n h p = absurd (omega arith)
Fits-waiting UnitStatus.notice_given w r a n h p = absurd (omega arith)
Fits-waiting UnitStatus.vacating_soon w r a n h p = absurd (omega arith)
Fits-waiting UnitStatus.inspection w r a n h p = absurd (omega arith)
Fits-waiting UnitStatus.inactive w r a n h p = absurd (omega arith)

-- One booking is written back, and its unit is not there.
pub put_booking-Consistent :
    (b b' : Booking) (d d' : Db)
    → find_unit b.unit_id d ≡ none
    → find_booking b.id d ≡ some b
    → b'.unit_id ≡ b.unit_id
    → d'.units ≡ d.units
    → d'.bookings ≡ put booking_key b.id b' d.bookings
    → d'.tenancies ≡ d.tenancies
    → Consistent d
    → Consistent d'
put_booking-Consistent b b' d d' fu fb unit_id units bookings tenancies h j v e =
    let waiting = put_booking-waits_for b b' d.bookings fb in
    let reserved = put_booking-reserves b b' d.bookings fb in
    let before : find_unit j d ≡ some v = rw units at e in
    let other : b.unit_id ≢ j = λ same. cc in
    SameCensus-FitsAt j v.status d d'
      (rw (bookings, tenancies) (ground (arith, waiting j, reserved j, ==_ne b.unit_id j other)))
      (h j v before)

-- A booking keeps its place, and nothing else of the census changes.
pub same_booking-Consistent :
    (b b' : Booking) (d d' : Db)
    → find_booking b.id d ≡ some b
    → b'.unit_id ≡ b.unit_id
    → is_waiting b'.status ≡ is_waiting b.status
    → is_confirmed b'.status ≡ is_confirmed b.status
    → d'.units ≡ d.units
    → d'.bookings ≡ put booking_key b.id b' d.bookings
    → d'.tenancies ≡ d.tenancies
    → Consistent d
    → Consistent d'
same_booking-Consistent b b' d d' fb unit_id sw sc units bookings tenancies h j v e =
    let waiting = put_booking-waits_for b b' d.bookings fb in
    let reserved = put_booking-reserves b b' d.bookings fb in
    SameCensus-FitsAt j v.status d d'
      (rw (bookings, tenancies) (ground (arith, waiting j, reserved j))) (h j v (rw units at e))

-- One tenancy and its unit are written back.
module _ (t t' : Tenancy) (u u' : RentalUnit) (d d' : Db) where
  pub put_tenancy_and_unit-Consistent :
      find_unit t.unit_id d ≡ some u
      → find_tenancy t.id d ≡ some t
      → t'.unit_id ≡ t.unit_id
      → u'.id ≡ u.id
      → d'.units ≡ put unit_key u.id u' d.units
      → d'.bookings ≡ d.bookings
      → d'.tenancies ≡ put tenancy_key t.id t' d.tenancies
      → ((a n : ℕ)
          → a + one_if (same_tenancy_status t.status TenancyStatus.active)
            ≡ count (occupies t.unit_id) d.tenancies
              + one_if (same_tenancy_status t'.status TenancyStatus.active)
          → n + one_if (same_tenancy_status t.status TenancyStatus.notice_given)
            ≡ count (leaves t.unit_id) d.tenancies
              + one_if (same_tenancy_status t'.status TenancyStatus.notice_given)
          → Fits u'.status
              (count (waits_for t.unit_id) d.bookings)
              (count (reserves t.unit_id) d.bookings)
              a
              n)
      → Consistent d
      → Consistent d'
  put_tenancy_and_unit-Consistent fu ft unit_id id units bookings tenancies fits h =
      let k = t.unit_id in
      let key : u.id ≡ k = find-key unit_key k u d.units fu in
      let active = put_tenancy-occupies t t' d.tenancies ft in
      let leaving = put_tenancy-leaves t t' d.tenancies ft in
      write_unit-Consistent k u u' d d' fu (id ∙ key) (rw (← key) units)
        (λ j other.
          rw (bookings, tenancies)
            (ground (arith, active j, leaving j, ==_ne t.unit_id j (λ e. other (sym e)))))
        (rw (bookings, tenancies)
          (fits (count (occupies k) (put tenancy_key t.id t' d.tenancies))
            (count (leaves k) (put tenancy_key t.id t' d.tenancies))
            (ground (arith, active k, ==_refl k)) (ground (arith, leaving k, ==_refl k))))
        h

pub Fits-booking_pending :
    (s : UnitStatus) (w r a n : ℕ) → Fits s w r a n → 1 ≤ w → s ≡ UnitStatus.booking_pending
Fits-booking_pending s w r a n h p = ground arith
