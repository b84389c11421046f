-- ===== src/Occupancy/Creating.antt =====
-- The census through `create_booking` of bookings.py.
use rental_property.Base.{
  ℕ, ◌+◌, ◌≤◌, ◌≡◌, true, Option, none, some, [], ◌∷◌, ◌++◌, arith, put, count, find-key,
  count-append, ==_ne, ==_refl, ltb, if◌then◌else◌,
}
use rental_property.Text.{codes}
use rental_property.Models.{
  User, Property, RentalUnit, UnitStatus, Booking, BookingStatus, unit_key, find_unit,
}
use rental_property.Action.{World}
use rental_property.Bookings.{
  Redis, BookingCreate, payment_window, book_unit, create_held_booking-outcome, create_held_booking,
  create_booking, bookable_status, reply_created-outcome,
}
use rental_property.Occupancy.Census.{
  Consistent, Fits, waits_for, reserves, occupies, leaves, write_unit-Consistent,
}
use rental_property.Occupancy.Reviewing.{ConsistentWorld}

-- A unit that can be booked has no booking under way.
Fits-bookable :
    (s : UnitStatus) (w r a n : ℕ)
    → bookable_status s ≡ true
    → Fits s w r a n
    → (w ≡ 0) × (r ≡ 0) × (a ≡ 0) × (n ≤ 1)
unfolding bookable_status
Fits-bookable UnitStatus.available w r a n e h = omega arith
Fits-bookable UnitStatus.vacating_soon w r a n e h = omega arith
Fits-bookable UnitStatus.booking_pending w r a n e h = cc
Fits-bookable UnitStatus.booked w r a n e h = cc
Fits-bookable UnitStatus.occupied w r a n e h = cc
Fits-bookable UnitStatus.notice_given w r a n e h = cc
Fits-bookable UnitStatus.inspection w r a n e h = cc
Fits-bookable UnitStatus.inactive w r a n e h = cc

module _ (u : RentalUnit) (q : Property) (date : ℕ) (user : User) (w : World) where
  -- The booking that is added.
  abbrev pub new_booking : Booking
  new_booking = record {
    id = w.next_uuid;
    unit_id = u.id;
    seeker_id = user.id;
    status = BookingStatus.pending_payment;
    move_in_date = date;
    amount_due = if ltb 0 u.deposit then u.deposit else u.monthly_rent;
    currency = codes "LSL";
    payment_due_at = w.now + payment_window;
    confirmed_at = none;
    cancelled_at = none;
  }

  pub book_unit-tables :
      let d = (book_unit u q date user w).1.session in
      ((book_unit u q date user w).1.committed ≡ d)
      × (d.units
          ≡ put unit_key u.id (record u { status = UnitStatus.booking_pending }) w.session.units)
      × (d.bookings ≡ w.session.bookings ++ new_booking ∷ [])
      × (d.tenancies ≡ w.session.tenancies)
  unfolding book_unit
  book_unit-tables = ground arith

  book_unit-Consistent :
      (k : ℕ)
      → find_unit k w.session ≡ some u
      → bookable_status u.status ≡ true
      → Consistent w.session
      → ConsistentWorld (book_unit u q date user w).1
  book_unit-Consistent k fu su h =
      let (committed, units, bookings, tenancies) = book_unit-tables in
      let d' = (book_unit u q date user w).1.session in
      let key : u.id ≡ k = find-key unit_key k u w.session.units fu in
      let waiting = λ (j : ℕ). count-append (waits_for j) new_booking w.session.bookings in
      let reserved = λ (j : ℕ). count-append (reserves j) new_booking w.session.bookings in
      let before =
        Fits-bookable u.status (count (waits_for k) w.session.bookings)
          (count (reserves k) w.session.bookings) (count (occupies k) w.session.tenancies)
          (count (leaves k) w.session.tenancies) su (h k u fu) in
      let kept : Consistent d' =
        write_unit-Consistent k u (record u { status = UnitStatus.booking_pending }) w.session d' fu
          key (rw (← key) units)
          (λ j other.
            rw (bookings, tenancies)
              (ground (arith, waiting j, reserved j, ==_ne u.id j (λ e. other (cc)))))
          (rw (bookings, tenancies) (ground (arith, waiting k, reserved k, key, ==_refl k, before)))
          h in
      (kept, rw committed kept)

module _ (w : World) (h : ConsistentWorld w) where
  pub create_held_booking-Consistent :
      (form : BookingCreate) (user : User) (owner : Option ℕ)
      → ConsistentWorld (create_held_booking form user owner w).1
  create_held_booking-Consistent form user owner =
      create_held_booking-outcome ConsistentWorld form user owner w h
        λ u q eo fu su fq sq in_time free.
          book_unit-Consistent u q form.move_in_date user w form.unit_id fu su h.0

  module _ (redis : Redis) where
    pub create_booking-Consistent :
        (form : BookingCreate) (user : User) (at : ℕ) (store : redis.Store)
        → ConsistentWorld (create_booking redis form user at store w).2
    unfolding create_booking
    create_booking-Consistent form user at store =
        reply_created-outcome ConsistentWorld redis
          (create_held_booking form user (redis.get form.unit_id at store) w) store
          (create_held_booking-Consistent form user (redis.get form.unit_id at store))
