-- ===== src/Occupancy/Reviewing.antt =====
-- The census through `confirm_booking` and `reject_booking_payment` of bookings.py.
use rental_property.Base.{
  ℕ, ◌≤◌, ◌≡◌, refl, ap, find-key, Bool, true, false, Option, none, some, List, if◌then◌else◌,
  arith, Bool-cases, put, first, count, is_some, first-none, first-some, inl, inr,
}
use rental_property.Text.{Str}
use rental_property.Models.{
  Db, User, Property, RentalUnit, UnitStatus, Booking, BookingStatus, BookingPayment, Tenancy,
  unit_key, booking_key, find_unit, find_booking,
}
use rental_property.Action.{World}
use rental_property.Bookings.{
  apply_confirmation, apply_rejection, is_notice_of, is_uninspected_of, status_under_notice,
}
use rental_property.Occupancy.Census.{
  Consistent, Fits, is_waiting, is_confirmed, waits_for, reserves, occupies, leaves, Fits-waiting,
  put_booking_and_unit-Consistent,
}

-- A database on both sides of the session.
abbrev pub ConsistentWorld : World → Type 0
ConsistentWorld w = Consistent w.session × Consistent w.committed

-- The status that a release chooses, from the notice and the pending inspection that it found.
abbrev pub release_choice : Option Tenancy → Bool → UnitStatus
release_choice (some n) pending = status_under_notice n
release_choice none pending = if pending then UnitStatus.inspection else UnitStatus.available

-- The status that a unit is released to.
abbrev pub released_status : ℕ → List Tenancy → UnitStatus
released_status k ts =
    release_choice (first (is_notice_of k) ts) (is_some (first (is_uninspected_of k) ts))

release_choice-Fits :
    (found : Option Tenancy) (pending : Bool) (a n : ℕ)
    → n ≤ 1
    → a ≡ 0
    → (found ≡ none → n ≡ 0)
    → ((t : Tenancy) → found ≡ some t → 1 ≤ n)
    → Fits (release_choice found pending) 0 0 a n
release_choice-Fits none true a n few empty missing there = ground (arith, missing refl)
release_choice-Fits none false a n few empty missing there = ground (arith, missing refl)
release_choice-Fits (some t) pending a n few empty missing there =
    elim (Bool-cases t.allow_readvertise) [
      | inl e ↦ rw (e, Fits) (ground (arith, there t refl))
      | inr e ↦ rw (e, Fits) (ground (arith, there t refl))
    ]

pub released-Fits :
    (k a : ℕ) (ts : List Tenancy)
    → count (leaves k) ts ≤ 1
    → a ≡ 0
    → Fits (released_status k ts) 0 0 a (count (leaves k) ts)
released-Fits k a ts few empty =
    release_choice-Fits (first (is_notice_of k) ts) (is_some (first (is_uninspected_of k) ts)) a
      (count (leaves k) ts) few empty (first-none (is_notice_of k) ts)
      (λ t. first-some (is_notice_of k) t ts)

-- A waiting booking is closed, and its unit is released.
pub release-Consistent :
    (b b' : Booking) (u : RentalUnit) (d d' : Db)
    → find_unit b.unit_id d ≡ some u
    → find_booking b.id d ≡ some b
    → b'.unit_id ≡ b.unit_id
    → is_waiting b.status ≡ true
    → is_waiting b'.status ≡ false
    → is_confirmed b'.status ≡ false
    → d'.units ≡ put unit_key u.id (record u { status = released_status u.id d.tenancies }) d.units
    → d'.bookings ≡ put booking_key b.id b' d.bookings
    → d'.tenancies ≡ d.tenancies
    → Consistent d
    → Consistent d'
release-Consistent b b' u d d' fu fb unit_id waited closed unconfirmed units bookings tenancies h =
    put_booking_and_unit-Consistent b b' u (record u { status = released_status u.id d.tenancies })
      d d' fu fb unit_id refl units bookings tenancies
      (λ n m en em.
        let key : u.id ≡ b.unit_id = find-key unit_key b.unit_id u d.units fu in
        let (one, zero_reserved, empty, few) =
          Fits-waiting u.status (count (waits_for b.unit_id) d.bookings)
            (count (reserves b.unit_id) d.bookings) (count (occupies b.unit_id) d.tenancies)
            (count (leaves b.unit_id) d.tenancies) (h b.unit_id u fu) (ground arith) in
        let no_waiting : n ≡ 0 = ground arith in
        let no_reserved : m ≡ 0 = ground arith in
        rw (no_waiting, no_reserved, key)
          (released-Fits b.unit_id (count (occupies b.unit_id) d.tenancies) d.tenancies few empty))
      h

module _ (b : Booking) (p : BookingPayment) (u : RentalUnit) (q : Property) (text : Option Str)
    (admin : User) (w : World) where
  -- The tables after a confirmation.
  pub apply_confirmation-tables :
      let d = (apply_confirmation b p u q text admin w).1.session in
      ((apply_confirmation b p u q text admin w).1.committed ≡ d)
      × (d.units ≡ put unit_key u.id (record u { status = UnitStatus.booked }) w.session.units)
      × (d.bookings
          ≡ put booking_key b.id
              (record b { confirmed_at = some w.now; status = BookingStatus.confirmed })
              w.session.bookings)
      × (d.tenancies ≡ w.session.tenancies)
  unfolding apply_confirmation
  apply_confirmation-tables = ground arith

  pub apply_confirmation-Consistent :
      find_unit b.unit_id w.session ≡ some u
      → find_booking b.id w.session ≡ some b
      → b.status ≡ BookingStatus.payment_review
      → u.status ≡ UnitStatus.booking_pending
      → Consistent w.session
      → ConsistentWorld (apply_confirmation b p u q text admin w).1
  apply_confirmation-Consistent fu fb sb su h =
      let (committed, units, bookings, tenancies) = apply_confirmation-tables in
      let fits = h b.unit_id u fu in
      let kept =
        put_booking_and_unit-Consistent b
          (record b { confirmed_at = some w.now; status = BookingStatus.confirmed }) u
          (record u { status = UnitStatus.booked }) w.session
          (apply_confirmation b p u q text admin w).1.session fu fb refl refl units bookings
          tenancies (λ n m en em. ground arith) h in
      (kept, rw committed kept)

module _ (b : Booking) (p : BookingPayment) (u : RentalUnit) (text : Option Str) (admin : User)
    (w : World) where
  pub apply_rejection-tables :
      let d = (apply_rejection b p u text admin w).1.session in
      ((apply_rejection b p u text admin w).1.committed ≡ d)
      × (d.units
          ≡ put unit_key u.id
              (record u { status = released_status u.id w.session.tenancies })
              w.session.units)
      × (d.bookings
          ≡ put booking_key b.id (record b { status = BookingStatus.rejected }) w.session.bookings)
      × (d.tenancies ≡ w.session.tenancies)
  unfolding apply_rejection
  apply_rejection-tables = ground arith

  pub apply_rejection-Consistent :
      find_unit b.unit_id w.session ≡ some u
      → find_booking b.id w.session ≡ some b
      → b.status ≡ BookingStatus.payment_review
      → Consistent w.session
      → ConsistentWorld (apply_rejection b p u text admin w).1
  apply_rejection-Consistent fu fb sb h =
      let (committed, units, bookings, tenancies) = apply_rejection-tables in
      let kept =
        release-Consistent b (record b { status = BookingStatus.rejected }) u w.session
          (apply_rejection b p u text admin w).1.session fu fb refl (cc (ap is_waiting sb)) refl
          refl units bookings tenancies h in
      (kept, rw committed kept)
