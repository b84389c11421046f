-- ===== src/Tests/Lifecycle.antt =====
-- A whole rental, step by step.
use Prim.Native.Nat.{◌≤◌}
use rental_property.Base.{◌+◌, ◌≡◌, refl, some, [], ◌∷◌, map, count, find, first, put}
use rental_property.Models.{
  UnitStatus, BookingStatus, TenancyStatus, RentalUnit, Booking, Tenancy, find_unit,
}
use rental_property.Action.{run_request}
use rental_property.Payments.{claim_payment_reference, claim_normalized}
use rental_property.Bookings.{
  create_held_booking, submit_booking_payment, start_review, confirm_booking,
}
use rental_property.Tenancies.{activate_tenancy, give_notice, end_tenancy, complete_inspection}
use rental_property.Occupancy.{waits_for, reserves, occupies, leaves}
use rental_property.Requests.{serve, serve_all, IsSound, no_double_booking, serve_all-IsSound}
use rental_property.Tests.Data.{start-IsSound, start, lifecycle, room}

lifecycle_ends :
    let d = (serve_all lifecycle start).committed in
    (map (λ (u : RentalUnit). u.status) d.units ≡ UnitStatus.available ∷ [])
    × (map (λ (b : Booking). b.status) d.bookings ≡ BookingStatus.fulfilled ∷ [])
    × (map (λ (t : Tenancy). t.status) d.tenancies ≡ TenancyStatus.ended ∷ [])
unfolding serve_all serve run_request complete_inspection find end_tenancy give_notice
    activate_tenancy confirm_booking submit_booking_payment create_held_booking
    claim_payment_reference claim_normalized first start_review put
lifecycle_ends = (refl, refl, refl)

serve_all-IsSound_example : IsSound (serve_all lifecycle start)
serve_all-IsSound_example = serve_all-IsSound lifecycle start start-IsSound

room_at_end :
    find_unit 20 (serve_all lifecycle start).committed
    ≡ some (record room { available_from = some 105 })
unfolding serve_all serve run_request complete_inspection find end_tenancy give_notice
    activate_tenancy confirm_booking submit_booking_payment create_held_booking
    claim_payment_reference claim_normalized first start_review put
room_at_end = refl

no_double_booking_example :
    let d = (serve_all lifecycle start).committed in
    (count (waits_for 20) d.bookings + count (reserves 20) d.bookings ≤ 1)
    × (count (occupies 20) d.tenancies + count (leaves 20) d.tenancies ≤ 1)
    × (count (waits_for 20) d.bookings
          + count (reserves 20) d.bookings
          + count (occupies 20) d.tenancies
        ≤ 1)
no_double_booking_example =
    no_double_booking lifecycle start 20 (record room { available_from = some 105 }) start-IsSound
      room_at_end
