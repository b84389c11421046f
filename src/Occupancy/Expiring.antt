-- ===== src/Occupancy/Expiring.antt =====
-- The census through `expire_stale_bookings` of maintenance.py.
use rental_property.Base.{
  All, ℕ, ◌+◌, ◌≡◌, refl, ap, none, some, List, [], ◌∷◌, arith, put, count, find-put_ne, by_option,
  one_if, is_some, count-find, ==_refl,
}
use rental_property.Models.{
  RentalUnit, UnitStatus, Booking, BookingStatus, unit_key, booking_key, find_unit, find_booking,
}
use rental_property.Action.{World, ok, ◌>>=◌, pure, after_step, world-bind_pure}
use rental_property.Maintenance.{has_id, AreRows, AreRows-same, expire_booking, expire_all}
use rental_property.Occupancy.Census.{
  is_waiting, waits_for, reserves, occupies, leaves, Fits-booking_pending,
}
use rental_property.Occupancy.Reviewing.{ConsistentWorld, released_status, release-Consistent}

module _ (b : Booking) (w : World) where
  abbrev pub expired_booking : Booking
  expired_booking = record b { status = BookingStatus.expired }

  -- Without its unit a booking is passed over.
  pub expire_booking-no_unit : find_unit b.unit_id w.session ≡ none → (expire_booking b w).1 ≡ w
  unfolding expire_booking
  expire_booking-no_unit fu = ground arith

  pub expire_booking-tables :
      (u : RentalUnit)
      → find_unit b.unit_id w.session ≡ some u
      → let d = (expire_booking b w).1.session in
        ((expire_booking b w).1.committed ≡ w.committed)
        × (d.bookings ≡ put booking_key b.id expired_booking w.session.bookings)
        × (d.tenancies ≡ w.session.tenancies)
  unfolding expire_booking
  expire_booking-tables u fu = ground arith

  pub expire_booking-units :
      (u : RentalUnit)
      → find_unit b.unit_id w.session ≡ some u
      → u.status ≡ UnitStatus.booking_pending
      → (expire_booking b w).1.session.units
        ≡ put unit_key u.id
            (record u { status = released_status u.id w.session.tenancies })
            w.session.units
  unfolding expire_booking
  expire_booking-units u fu su = ground arith

  expire_booking-result :
      (expire_booking b w).0 ≡ ok (one_if (is_some (find_unit b.unit_id w.session)))
  unfolding expire_booking
  expire_booking-result = ground arith

  expire_booking-Consistent :
      find_booking b.id w.session ≡ some b
      → b.status ≡ BookingStatus.pending_payment
      → ConsistentWorld w
      → ConsistentWorld (expire_booking b w).1
  expire_booking-Consistent fb sb h =
      by_option (find_unit b.unit_id w.session) (λ fu. rw (expire_booking-no_unit fu) h)
        (λ u fu.
          let (committed, bookings, tenancies) = expire_booking-tables u fu in
          let su =
            Fits-booking_pending u.status (count (waits_for b.unit_id) w.session.bookings)
              (count (reserves b.unit_id) w.session.bookings)
              (count (occupies b.unit_id) w.session.tenancies)
              (count (leaves b.unit_id) w.session.tenancies) (h.0 b.unit_id u fu)
              (ground (
                arith,
                count-find booking_key (waits_for b.unit_id) b.id b w.session.bookings fb,
                ==_refl b.unit_id,
              )) in
          (
            release-Consistent b expired_booking u w.session (expire_booking b w).1.session fu fb
                refl (cc (ap is_waiting sb)) refl refl (expire_booking-units u fu su) bookings
                tenancies h.0,
            rw committed h.1,
          ))

-- The loop goes on from where the first booking left the world.
pub expire_all-world :
    (b : Booking) (bs : List Booking) (w : World)
    → (expire_all (b ∷ bs) w).1 ≡ (expire_all bs (expire_booking b w).1).1
unfolding expire_all
expire_all-world b bs w =
    let n = one_if (is_some (find_unit b.unit_id w.session)) in
    let w' = (expire_booking b w).1 in
    after_step (λ v. v ≡ (expire_all bs w').1) (expire_booking b)
      (λ (expired : ℕ). expire_all bs >>= λ more. pure (expired + more)) w (ok n, w')
      (ap (λ r. (r, w')) (expire_booking-result b w))
      (world-bind_pure (expire_all bs) (λ more. n + more) w')

-- Expiring one booking leaves the rows of the others as they were read.
pub expire_booking-AreRows :
    (b : Booking) (bs : List Booking) (w : World)
    → count (has_id b.id) bs ≡ 0
    → AreRows (λ k. find_booking k w.session) bs
    → AreRows (λ k. find_booking k (expire_booking b w).1.session) bs
expire_booking-AreRows b bs w once h =
    AreRows-same (λ k. find_booking k w.session)
      (λ k. find_booking k (expire_booking b w).1.session) bs
      (λ k there.
        by_option (find_unit b.unit_id w.session) (λ fu. rw (expire_booking-no_unit b w fu) refl)
          (λ u fu.
            let (committed, bookings, tenancies) = expire_booking-tables b w u fu in
            rw bookings (
              find-put_ne booking_key k b.id (expired_booking b w) w.session.bookings refl
                (λ (same : k ≡ b.id). absurd (ground (arith, once))))))
      h

pub expire_all-Consistent :
    (bs : List Booking) (w : World)
    → AreRows (λ k. find_booking k w.session) bs
    → All (λ b. b.status ≡ BookingStatus.pending_payment) bs
    → ConsistentWorld w
    → ConsistentWorld (expire_all bs w).1
unfolding expire_all
expire_all-Consistent [] w rows unpaid h = h
expire_all-Consistent (b ∷ bs) w rows unpaid h = rw (expire_all-world b bs w) (
    expire_all-Consistent bs (expire_booking b w).1 (expire_booking-AreRows b bs w rows.1 rows.2)
      unpaid.1 (expire_booking-Consistent b w rows.0 unpaid.0 h))

pub expire_booking-next_uuid :
    (b : Booking) (w : World) → (expire_booking b w).1.next_uuid ≡ w.next_uuid
unfolding expire_booking
expire_booking-next_uuid b w = ground arith
