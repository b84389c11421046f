-- ===== src/Bookings/Outcomes.antt =====
-- Every handler of bookings.py on every branch, for any predicate `P` of the final world.
use rental_property.Base.{
  ℕ, ◌≤◌, ◌<◌, ◌≡◌, true, false, Option, some, arith, by_option, ◌+◌, List, inl, inr,
}
use rental_property.Text.{Str}
use rental_property.Models.{
  User, UserRole, Property, PropertyStatus, RentalUnit, UnitStatus, Booking, BookingStatus,
  BookingPayment, PaymentStatus, PaymentReferenceClaim, SourceType, find_property, find_unit,
  find_booking, find_payment,
}
use rental_property.Action.{after_step, World, Result, ok, err, Action, ◌>>=◌}
use rental_property.Payments.{
  normalize_payment_reference, claim_payment_reference, claim-cases, with_claims,
}
use rental_property.Bookings.Shared.{bookable_status, read_booking}
use rental_property.Bookings.Create.{
  Redis, BookingCreate, reply_created, day_after, book_unit, create_held_booking,
}
use rental_property.Bookings.Submit.{
  BookingPaymentSubmit, method_text, start_review, claim_and_review, submit_booking_payment,
  apply_cancellation, cancel_booking,
}
use rental_property.Bookings.Review.{
  apply_confirmation, confirm_booking, apply_rejection, reject_booking_payment,
}

read_booking-world : (b : Booking) (w : World) → (read_booking b w).1 ≡ w
unfolding read_booking
read_booking-world b w = ground arith

module _ (P : World → Type 0) where
  -- The reply is read from the final world, and changes nothing.
  pub after_read_booking :
      (m : Action Booking) (w : World) → P (m w).1 → P ((m >>= read_booking) w).1
  after_read_booking m w h = go (m w) h
    where
      go : (x : Result Booking × World) → P x.1 → P (((λ _. x) >>= read_booking) w).1
      go (ok b, w') h' = rw (read_booking-world b w') h'
      go (err e, w') h' = h'

  pub confirm_booking-outcome :
      (id : ℕ) (text : Option Str) (admin : User) (w : World)
      → P w
      → ((b : Booking) (p : BookingPayment) (u : RentalUnit) (q : Property)
          → find_booking id w.session ≡ some b
          → b.status ≡ BookingStatus.payment_review
          → find_payment b.id w.session ≡ some p
          → p.status ≡ PaymentStatus.submitted
          → find_unit b.unit_id w.session ≡ some u
          → u.status ≡ UnitStatus.booking_pending
          → find_property u.property_id w.session ≡ some q
          → admin.role ≡ UserRole.admin
          → P (apply_confirmation b p u q text admin w).1)
      → P (confirm_booking id text admin w).1
  unfolding confirm_booking
  confirm_booking-outcome id text admin w same done =
      by_option (find_booking id w.session) (λ e. ground arith)
        λ b fb.
          by_option (find_payment b.id w.session) (λ e. ground arith)
            λ p fp.
              by_option (find_unit b.unit_id w.session) (λ e. ground arith)
                λ u fu.
                  by_option (find_property u.property_id w.session) (λ e. ground arith)
                    λ q fq. ground (
                      arith,
                      done b p u q fb,
                      after_read_booking (apply_confirmation b p u q text admin) w,
                    )

  pub reject_booking_payment-outcome :
      (id : ℕ) (text : Option Str) (admin : User) (w : World)
      → P w
      → ((b : Booking) (p : BookingPayment) (u : RentalUnit)
          → find_booking id w.session ≡ some b
          → b.status ≡ BookingStatus.payment_review
          → find_payment b.id w.session ≡ some p
          → find_unit b.unit_id w.session ≡ some u
          → admin.role ≡ UserRole.admin
          → P (apply_rejection b p u text admin w).1)
      → P (reject_booking_payment id text admin w).1
  unfolding reject_booking_payment
  reject_booking_payment-outcome id text admin w same done =
      by_option (find_booking id w.session) (λ e. ground arith)
        λ b fb.
          by_option (find_payment b.id w.session) (λ e. ground arith)
            λ p fp.
              by_option (find_unit b.unit_id w.session) (λ e. ground arith)
                λ u fu.
                  ground
                    (arith, done b p u fb, after_read_booking (apply_rejection b p u text admin) w)

  pub cancel_booking-outcome :
      (id : ℕ) (user : User) (w : World)
      → P w
      → ((b : Booking)
          → find_booking id w.session ≡ some b
          → b.seeker_id ≡ user.id
          → b.status ≡ BookingStatus.pending_payment
          → P (apply_cancellation b user w).1)
      → P (cancel_booking id user w).1
  unfolding cancel_booking
  cancel_booking-outcome id user w same done =
      by_option (find_booking id w.session) (λ e. ground arith)
        λ b fb. ground (arith, done b fb, after_read_booking (apply_cancellation b user) w)

  -- A submission that is refused for its reference has used up one id.
  pub submit_booking_payment-outcome :
      (id : ℕ) (form : BookingPaymentSubmit) (user : User) (w : World)
      → let method = method_text form.method in
        let reference = normalize_payment_reference form.reference in
        P w
        → ((b : Booking) (p : BookingPayment)
            → find_booking id w.session ≡ some b
            → b.seeker_id ≡ user.id
            → b.status ≡ BookingStatus.pending_payment
            → w.now < b.payment_due_at
            → find_payment b.id w.session ≡ some p
            → P (claim_and_review b p method reference user w).1)
        → P (submit_booking_payment id form user w).1
  unfolding submit_booking_payment
  submit_booking_payment-outcome id form user w same done =
      by_option (find_booking id w.session) (λ e. ground arith)
        λ b fb.
          by_option (find_payment b.id w.session) (λ e. ground arith)
            λ p fp. ground (
              arith,
              done b p fb,
              read_booking-world b w,
              after_read_booking
                  (claim_and_review b p (method_text form.method)
                    (normalize_payment_reference form.reference) user)
                  w,
            )

  -- A booking is made by a seeker who holds the unit, on a day that the unit is free.
  pub create_held_booking-outcome :
      (form : BookingCreate) (user : User) (hold_owner : Option ℕ) (w : World)
      → P w
      → ((u : RentalUnit) (q : Property)
          → hold_owner ≡ some user.id
          → find_unit form.unit_id w.session ≡ some u
          → bookable_status u.status ≡ true
          → find_property u.property_id w.session ≡ some q
          → q.status ≡ PropertyStatus.active
          → w.today ≤ form.move_in_date
          → day_after u.available_from form.move_in_date ≡ false
          → P (book_unit u q form.move_in_date user w).1)
      → P (create_held_booking form user hold_owner w).1
  unfolding create_held_booking
  create_held_booking-outcome form user hold_owner w same done =
      by_option hold_owner (λ e. ground arith)
        λ owner eo.
          by_option (find_unit form.unit_id w.session) (λ e. ground arith)
            λ u fu.
              by_option (find_property u.property_id w.session) (λ e. ground arith)
                λ q fq. ground (arith, done u q)

  -- A reference that another source has claimed is refused; otherwise the payment goes to review.
  pub claim_and_review-outcome :
      (b : Booking) (p : BookingPayment) (m r : Str) (user : User) (w : World)
      → P (record w { next_uuid = w.next_uuid + 1 })
      → ((c : PaymentReferenceClaim) (cs : List PaymentReferenceClaim)
          → claim_payment_reference m r SourceType.booking b.id w ≡ (ok c, with_claims cs w)
          → P (start_review b p m r user (with_claims cs w)).1)
      → P (claim_and_review b p m r user w).1
  unfolding claim_and_review
  claim_and_review-outcome b p m r user w refused done =
      let claim = claim_payment_reference m r SourceType.booking b.id in
      let review = λ (_ : PaymentReferenceClaim). start_review b p m r user in
      elim (claim-cases m r SourceType.booking b.id w) [
        | inl e ↦ after_step P claim review w _ e refused
        | inr (c, cs, e) ↦ after_step P claim review w _ e (done c cs e)
      ]

  -- The reply to a creation, and the end of its hold, change nothing in the database.
  pub reply_created-outcome :
      (redis : Redis) (x : Result Booking × World) (store : redis.Store)
      → P x.1
      → P (reply_created redis x store).2
  unfolding reply_created
  reply_created-outcome redis (err e, w) store h = h
  reply_created-outcome redis (ok b, w) store h = rw (read_booking-world b w) h
