-- ===== src/Occupancy/Booking.antt =====
-- The census through `submit_booking_payment` and `cancel_booking` of bookings.py, and the handlers.
use rental_property.Base.{ℕ, ◌≡◌, refl, ap, Option, none, some, arith, put, by_option}
use rental_property.Text.{Str}
use rental_property.Models.{
  User, RentalUnit, Booking, BookingStatus, BookingPayment, unit_key, booking_key, find_unit,
  find_booking, found_booking,
}
use rental_property.Action.{World}
use rental_property.Payments.{normalize_payment_reference, with_claims}
use rental_property.Bookings.{
  apply_cancellation, cancel_booking, cancel_booking-outcome, start_review,
  claim_and_review-outcome, submit_booking_payment, submit_booking_payment-outcome, method_text,
  BookingPaymentSubmit, confirm_booking, confirm_booking-outcome, reject_booking_payment,
  reject_booking_payment-outcome,
}
use rental_property.Occupancy.Census.{
  Consistent, is_waiting, is_confirmed, put_booking-Consistent, same_booking-Consistent,
}
use rental_property.Occupancy.Reviewing.{
  ConsistentWorld, released_status, release-Consistent, apply_confirmation-Consistent,
  apply_rejection-Consistent,
}

module _ (b : Booking) (user : User) (w : World) where
  abbrev pub cancelled_booking : Booking
  cancelled_booking = record b { cancelled_at = some w.now; status = BookingStatus.cancelled }

  pub apply_cancellation-tables :
      let d = (apply_cancellation b user w).1.session in
      ((apply_cancellation b user w).1.committed ≡ d)
      × (d.bookings ≡ put booking_key b.id cancelled_booking w.session.bookings)
      × (d.tenancies ≡ w.session.tenancies)
  unfolding apply_cancellation
  apply_cancellation-tables = ground arith

  apply_cancellation-unit :
      (u : RentalUnit)
      → find_unit b.unit_id w.session ≡ some u
      → (apply_cancellation b user w).1.session.units
        ≡ put unit_key u.id
            (record u { status = released_status u.id w.session.tenancies })
            w.session.units
  unfolding apply_cancellation
  apply_cancellation-unit u fu = ground arith

  apply_cancellation-no_unit :
      find_unit b.unit_id w.session ≡ none
      → (apply_cancellation b user w).1.session.units ≡ w.session.units
  unfolding apply_cancellation
  apply_cancellation-no_unit fu = ground arith

  apply_cancellation-Consistent :
      find_booking b.id w.session ≡ some b
      → b.status ≡ BookingStatus.pending_payment
      → Consistent w.session
      → ConsistentWorld (apply_cancellation b user w).1
  apply_cancellation-Consistent fb sb h =
      let d' = (apply_cancellation b user w).1.session in
      let (committed, bookings, tenancies) = apply_cancellation-tables in
      let kept : Consistent d' =
        by_option (find_unit b.unit_id w.session)
          (λ fu.
            put_booking-Consistent b cancelled_booking w.session d' fu fb refl
              (apply_cancellation-no_unit fu) bookings tenancies h)
          (λ u fu.
            release-Consistent b cancelled_booking u w.session d' fu fb refl (cc (ap is_waiting sb))
              refl refl (apply_cancellation-unit u fu) bookings tenancies h) in
      (kept, rw committed kept)

-- A submission moves the booking to review.
module _ (b : Booking) (p : BookingPayment) (m r : Str) (user : User) (w : World) where
  pub start_review-tables :
      let d = (start_review b p m r user w).1.session in
      ((start_review b p m r user w).1.committed ≡ d)
      × (d.units ≡ w.session.units)
      × (d.bookings
          ≡ put booking_key b.id
              (record b { status = BookingStatus.payment_review })
              w.session.bookings)
      × (d.tenancies ≡ w.session.tenancies)
  unfolding start_review
  start_review-tables = ground arith

  start_review-Consistent :
      find_booking b.id w.session ≡ some b
      → b.status ≡ BookingStatus.pending_payment
      → Consistent w.session
      → ConsistentWorld (start_review b p m r user w).1
  start_review-Consistent fb sb h =
      let (committed, units, bookings, tenancies) = start_review-tables in
      let kept =
        same_booking-Consistent b (record b { status = BookingStatus.payment_review }) w.session
          (start_review b p m r user w).1.session fb refl (cc (ap is_waiting sb))
          (cc (ap is_confirmed sb)) units bookings tenancies h in
      (kept, rw committed kept)

module _ (w : World) (h : ConsistentWorld w) where
  pub submit_booking_payment-Consistent :
      (id : ℕ) (form : BookingPaymentSubmit) (user : User)
      → ConsistentWorld (submit_booking_payment id form user w).1
  submit_booking_payment-Consistent id form user =
      submit_booking_payment-outcome ConsistentWorld id form user w h λ b p fb owner sb due fp.
        claim_and_review-outcome ConsistentWorld b p (method_text form.method)
          (normalize_payment_reference form.reference) user w h
          λ c cs e.
            start_review-Consistent b p _ _ user (with_claims cs w)
              (found_booking id b w.session fb) sb h.0

  pub cancel_booking-Consistent :
      (id : ℕ) (user : User) → ConsistentWorld (cancel_booking id user w).1
  cancel_booking-Consistent id user =
      cancel_booking-outcome ConsistentWorld id user w h λ b fb owner sb.
        apply_cancellation-Consistent b user w (found_booking id b w.session fb) sb h.0

  pub confirm_booking-Consistent :
      (id : ℕ) (text : Option Str) (admin : User)
      → ConsistentWorld (confirm_booking id text admin w).1
  confirm_booking-Consistent id text admin =
      confirm_booking-outcome ConsistentWorld id text admin w h λ b p u q fb sb fp sp fu su fq role.
        apply_confirmation-Consistent b p u q text admin w fu (found_booking id b w.session fb) sb
          su h.0

  pub reject_booking_payment-Consistent :
      (id : ℕ) (text : Option Str) (admin : User)
      → ConsistentWorld (reject_booking_payment id text admin w).1
  reject_booking_payment-Consistent id text admin =
      reject_booking_payment-outcome ConsistentWorld id text admin w h λ b p u fb sb fp fu role.
        apply_rejection-Consistent b p u text admin w fu (found_booking id b w.session fb) sb h.0
