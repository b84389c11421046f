-- ===== src/Maintenance/Deadline.antt =====
-- The deadline of a payment, in bookings.py and in maintenance.py.
use rental_property.Base.{ℕ, ◌≡◌, true, false, some, arith}
use rental_property.Models.{
  User, Booking, BookingStatus, BookingPayment, find_booking, find_payment,
}
use rental_property.Action.{World, err, ◌>>=◌, payment_deadline_expired}
use rental_property.Payments.{normalize_payment_reference}
use rental_property.Bookings.{
  BookingPaymentSubmit, method_text, claim_and_review, read_booking, submit_booking_payment,
}
use rental_property.Maintenance.Defs.{is_stale}

-- At every instant an unpaid booking with its payment row is either one that the worker may expire,
-- and then its seeker's submission is refused for the deadline and changes nothing, or one that it
-- leaves alone, and then the submission goes on to claim the reference.
pub submit_booking_payment-is_stale :
    (id : ℕ) (form : BookingPaymentSubmit) (user : User) (b : Booking) (p : BookingPayment)
    (w : World)
    → find_booking id w.session ≡ some b
    → find_payment b.id w.session ≡ some p
    → b.seeker_id ≡ user.id
    → b.status ≡ BookingStatus.pending_payment
    → (is_stale w.now b ≡ true
        → submit_booking_payment id form user w ≡ (err payment_deadline_expired, w))
      × (is_stale w.now b ≡ false
          → submit_booking_payment id form user w
            ≡ (claim_and_review b p
                    (method_text form.method)
                    (normalize_payment_reference form.reference)
                    user
                  >>= read_booking)
                w)
unfolding submit_booking_payment
submit_booking_payment-is_stale id form user b p w fb fp owner sb =
    (λ stale. ground arith, λ fresh. ground arith)
