-- ===== src/Occupancy/Worker.antt =====
-- The census and the ids through `run_maintenance` of maintenance.py.
use rental_property.Base.{
  All, ℕ, ◌+◌, ◌*◌, ◌≡◌, refl, inl, Bool, List, [], ◌∷◌, some, arith, by_option,
}
use rental_property.Models.{Booking, BookingStatus, find_unit, find_booking}
use rental_property.Action.{World}
use rental_property.Maintenance.{
  AreRows, IsOverdue, stale_bookings, stale_bookings-AreRows, stale_bookings-All, expire_booking,
  expire_all, remind_all, due_viewings, run_maintenance, run_maintenance-eq, remind_all-SameRentals,
  SameRentals, hour,
}
use rental_property.Occupancy.Census.{Consistent}
use rental_property.Occupancy.Reviewing.{ConsistentWorld}
use rental_property.Occupancy.Expiring.{
  expired_booking, expire_booking-tables, expire_booking-no_unit, expire_booking-AreRows,
  expire_all-world, expire_all-Consistent, expire_booking-next_uuid,
}
use rental_property.Occupancy.Keys.{Keyed, KeyedWorld, Keyed-UniqueIds, put_booking-KeyedWorld}

-- Both invariants, before and after the commit.
abbrev pub Sound : World → Type 0
Sound w = ConsistentWorld w × KeyedWorld w

pub All-unpaid :
    (locked : ℕ → Bool) (now : ℕ) (bs : List Booking)
    → All (IsOverdue locked now) bs
    → All (λ b. b.status ≡ BookingStatus.pending_payment) bs
All-unpaid locked now [] h = tt
All-unpaid locked now (b ∷ bs) h = (h.0.0, All-unpaid locked now bs h.1)

expire_booking-KeyedWorld :
    (b : Booking) (w : World)
    → find_booking b.id w.session ≡ some b
    → KeyedWorld w
    → KeyedWorld (expire_booking b w).1
expire_booking-KeyedWorld b w fb h =
    by_option (find_unit b.unit_id w.session) (λ fu. rw (expire_booking-no_unit b w fu) h)
      (λ u fu.
        let (committed, bookings, tenancies) = expire_booking-tables b w u fu in
        put_booking-KeyedWorld b (expired_booking b w) w (expire_booking b w).1 fb refl bookings
          (inl committed) (omega (arith, expire_booking-next_uuid b w)) h)

expire_all-KeyedWorld :
    (bs : List Booking) (w : World)
    → AreRows (λ k. find_booking k w.session) bs
    → KeyedWorld w
    → KeyedWorld (expire_all bs w).1
unfolding expire_all
expire_all-KeyedWorld [] w rows h = h
expire_all-KeyedWorld (b ∷ bs) w rows h = rw (expire_all-world b bs w) (
    expire_all-KeyedWorld bs (expire_booking b w).1 (expire_booking-AreRows b bs w rows.1 rows.2)
      (expire_booking-KeyedWorld b w rows.0 h))

-- Reading three tables alone, `Sound` sees no difference between two worlds that agree on them.
commit-Sound :
    (w w' : World) → SameRentals w w' → Sound w → Sound (record w' { committed = w'.session })
commit-Sound w w' (units, bookings, tenancies, committed, ids) h =
    let consistent : Consistent w'.session = rw (units, bookings, tenancies) h.0.0 in
    let keyed : Keyed w'.next_uuid w'.session = rw (bookings, ids) h.1.0 in
    ((consistent, consistent), (keyed, keyed))

pub run_maintenance-Sound :
    (locked : ℕ → Bool) (now hours : ℕ) (w : World)
    → Sound w
    → Sound (run_maintenance locked now hours w).1
run_maintenance-Sound locked now hours w h =
    let bs = stale_bookings locked now w.session in
    let w1 = (expire_all bs w).1 in
    let due = due_viewings locked now (now + hours * hour) w1.session in
    let rows =
      stale_bookings-AreRows locked now w.session (Keyed-UniqueIds w.next_uuid w.session h.1.0) in
    let unpaid = All-unpaid locked now bs (stale_bookings-All locked now w.session) in
    let (r, e) = run_maintenance-eq locked now hours w in
    rw e (
      commit-Sound w1 (remind_all now due w1).1 (remind_all-SameRentals now due w1)
        (expire_all-Consistent bs w rows unpaid h.0, expire_all-KeyedWorld bs w rows h.1))
