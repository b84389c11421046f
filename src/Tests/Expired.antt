-- ===== src/Tests/Expired.antt =====
-- The worker runs after the deadline of the booking.
use rental_property.Base.{◌≡◌, refl, some, [], ◌∷◌, find, first, put, select, false}
use rental_property.Models.{Booking, BookingStatus, find_booking, find_unit}
use rental_property.Action.{run_request}
use rental_property.Bookings.{create_held_booking}
use rental_property.Maintenance.{is_stale, run_maintenance}
use rental_property.Occupancy.Keys.{Keyed}
use rental_property.Requests.{Request, serve, serve_all, serve_all-IsSound}
use rental_property.Progress.Overdue.{run_maintenance-is_stale}
use rental_property.Tests.Data.{start, start-IsSound, seeker, room, move_in_form}
use rental_property.Tests.Booked.{booked, new_booking}

abbrev expired : Booking
expired = record new_booking { status = BookingStatus.expired }

booked-Keyed : Keyed booked.next_uuid booked.session
unfolding serve_all serve run_request
booked-Keyed =
    (serve_all-IsSound (Request.create move_in_form seeker (some 2) ∷ []) start start-IsSound).1

booking_expired :
    find_booking 100 (run_maintenance (λ _. false) 4000000000 24 booked).1.committed ≡ some expired
unfolding serve_all serve run_request create_held_booking run_maintenance find select first put
booking_expired = refl

room_released :
    find_unit 20 (run_maintenance (λ _. false) 4000000000 24 booked).1.committed ≡ some room
unfolding serve_all serve run_request create_held_booking run_maintenance find select first put
room_released = refl

run_maintenance-is_stale_example : is_stale 4000000000 expired ≡ false
run_maintenance-is_stale_example =
    run_maintenance-is_stale (λ _. false) 4000000000 24 booked 100 expired room booked-Keyed refl
      booking_expired room_released
