-- ===== src/Tests/Holding.antt =====
-- One seeker holds the room, and another is kept off it.
use rental_property.Base.{◌≡◌, refl, none, arith, find, true}
use rental_property.Action.{Error, ok, err}
use rental_property.Bookings.{BookingHoldRead, acquire_booking_hold, create_booking}
use rental_property.Bookings.Holds.{acquire_booking_hold-exclusive}
use rental_property.Tests.Data.{start, seeker, rival, move_in_form}
use rental_property.Tests.Store.{Entries, store, write}

abbrev empty : Entries
empty k = none

abbrev held : Entries
held = (write 20 2 600 5 empty).1

abbrev granted : BookingHoldRead
granted = record { unit_id = 20; acquired = true; expires_in_seconds = 600 }

hold_granted : acquire_booking_hold store 20 seeker 5 empty start ≡ (ok granted, held, start)
unfolding acquire_booking_hold find
hold_granted = refl

-- Meanwhile another unit is held by another user.
abbrev more_held : Entries
more_held = (write 21 3 600 100 held).1

acquire_booking_hold-exclusive_example :
    ((e : Error) × (acquire_booking_hold store 20 rival 300 more_held start
        ≡ (err e, more_held, start)))
    × ((e : Error) × (create_booking store move_in_form rival 300 more_held start
          ≡ (err e, more_held, start)))
acquire_booking_hold-exclusive_example =
    acquire_booking_hold-exclusive store 5 300 seeker rival move_in_form empty held more_held start
      start start granted hold_granted (omega arith) refl (ground arith)
