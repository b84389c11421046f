-- ===== src/Tests/Booked.antt =====
-- The room just after it was booked, and what may become of the booking.
use rental_property.Base.{◌≡◌, refl, none, some, List, [], ◌∷◌, find, true, false}
use rental_property.Text.{codes}
use rental_property.Models.{
  Booking, BookingStatus, BookingPayment, PaymentStatus, find_booking, find_payment,
}
use rental_property.Action.{World, run_request, err, payment_deadline_expired, ◌>>=◌}
use rental_property.Payments.{normalize_payment_reference}
use rental_property.Bookings.{
  create_held_booking, method_text, claim_and_review, read_booking, submit_booking_payment,
}
use rental_property.Maintenance.{is_stale}
use rental_property.Maintenance.Deadline.{submit_booking_payment-is_stale}
use rental_property.Requests.{Request, serve, serve_all, serve_all-IsSound}
use rental_property.Progress.{Reach}
use rental_property.Progress.Requests.{serve_all-Reach}
use rental_property.Tests.Data.{
  start, start-IsSound, seeker, admin, landlord, move_in_form, payment_form,
}

abbrev pub booked : World
booked = serve_all (Request.create move_in_form seeker (some 2) ∷ []) start

abbrev pub new_booking : Booking
new_booking = record {
  id = 100;
  unit_id = 20;
  seeker_id = 2;
  status = BookingStatus.pending_payment;
  move_in_date = 105;
  amount_due = 150000;
  currency = codes "LSL";
  payment_due_at = 3600001000;
  confirmed_at = none;
  cancelled_at = none;
}

abbrev new_payment : BookingPayment
new_payment = record {
  id = 101;
  booking_id = 100;
  amount = 150000;
  currency = codes "LSL";
  status = PaymentStatus.pending;
  method = none;
  reference = none;
  submitted_at = none;
  confirmed_at = none;
  confirmed_by = none;
}

booking_there : find_booking 100 booked.committed ≡ some new_booking
unfolding serve_all serve run_request create_held_booking find
booking_there = refl

booking_in_session : find_booking 100 booked.session ≡ some new_booking
unfolding serve_all serve run_request create_held_booking find
booking_in_session = refl

payment_in_session : find_payment 100 booked.session ≡ some new_payment
unfolding serve_all serve run_request create_held_booking find
payment_in_session = refl

-- Paid, confirmed, and moved in too early, so that it stays confirmed.
abbrev later : List Request
later =
    Request.submit 100 payment_form seeker
    ∷ Request.confirm 100 none admin
    ∷ Request.activate 100 landlord
    ∷ []

serve_all-Reach_example :
    (b : Booking) × (find_booking 100 (serve_all later booked).committed ≡ some b)
    × (b.unit_id ≡ 20)
    × (b.seeker_id ≡ 2)
    × Reach BookingStatus.pending_payment b.status
serve_all-Reach_example =
    serve_all-Reach later booked 100 new_booking
      (serve_all-IsSound (Request.create move_in_form seeker (some 2) ∷ []) start start-IsSound)
      booking_there

submit_booking_payment-is_stale_example :
    (is_stale booked.now new_booking ≡ true
      → submit_booking_payment 100 payment_form seeker booked
        ≡ (err payment_deadline_expired, booked))
    × (is_stale booked.now new_booking ≡ false
        → submit_booking_payment 100 payment_form seeker booked
          ≡ (claim_and_review new_booking new_payment
                  (method_text payment_form.method)
                  (normalize_payment_reference payment_form.reference)
                  seeker
                >>= read_booking)
              booked)
submit_booking_payment-is_stale_example =
    submit_booking_payment-is_stale 100 payment_form seeker new_booking new_payment booked
      booking_in_session payment_in_session refl refl
