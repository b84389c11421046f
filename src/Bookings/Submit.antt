-- ===== src/Bookings/Submit.antt =====
-- `submit_booking_payment` and `cancel_booking`: what the seeker does with an unpaid booking.
use rental_property.Base.{
  ℕ, Bool, false, ◌&&◌, ◌==◌, Option, none, some, [], ◌∷◌, if◌then◌else◌, leb,
}
use rental_property.Text.{Str, codes, str_eq}
use rental_property.Models.{
  User, RentalUnit, Booking, BookingStatus, same_booking_status, BookingPayment, PaymentStatus,
  same_payment_status, NotificationType, PayloadItem, SourceType, AuditAction, EntityType, Value,
  Fields, uuid_value, decimal_value, booking_status_value, payment_status_value, unit_status_value,
  optional_value, find_property, find_unit, find_payment,
}
use rental_property.Action.{
  Action, ◌>>=◌, ◌>>◌, pure, raise, gets, get_or_raise, commit, utcnow, raise_if, raise_unless,
  skip, booking_access_denied, payment_record_not_found, already_under_review, not_awaiting_payment,
  payment_deadline_expired, payment_must_be_reviewed, only_unpaid_pending,
}
use rental_property.Audit.{add_audit_event, detail}
use rental_property.Payments.{normalize_payment_reference, claim_payment_reference, update_payment}
use rental_property.Bookings.Shared.{
  notify, notify_admins, save_booking, history, release_unit_after_failed_booking, BookingRead,
  read_booking, booking_for_update,
}

-- The `method` of `BookingPaymentSubmit`
pub data PaymentMethod : Type 0 where
  mobile_money bank_transfer cash card : PaymentMethod

unfoldable pub method_text : PaymentMethod → Str
method_text PaymentMethod.mobile_money = codes "mobile_money"
method_text PaymentMethod.bank_transfer = codes "bank_transfer"
method_text PaymentMethod.cash = codes "cash"
method_text PaymentMethod.card = codes "card"

-- `BookingPaymentSubmit`
pub record BookingPaymentSubmit : Type 0 where
  pub method : PaymentMethod
  pub reference : Str

-- `text == optional text`
abbrev pub is_text : Option Str → Str → Bool
is_text none s = false
is_text (some t) s = str_eq t s

-- The same submission made before.
unfoldable pub is_resubmission : BookingPayment → Str → Str → Bool
is_resubmission payment method reference =
    same_payment_status payment.status PaymentStatus.submitted
    && is_text payment.method method
    && is_text payment.reference reference

-- The payment of a booking that awaits it goes to review, once its reference is claimed.
unfoldable pub start_review : Booking → BookingPayment → Str → Str → User → Action Booking
unfolding update_payment history notify_admins add_audit_event
start_review booking payment method reference user = do
  now ← utcnow
  let payment' : BookingPayment = record payment {
    method = some method;
    reference = some reference;
    status = PaymentStatus.submitted;
    submitted_at = some now;
  }
  update_payment payment payment'
  booking' ←
      history booking BookingStatus.payment_review (some user.id)
        (codes "Payment submitted for admin verification")
  notify_admins NotificationType.payment_review_required (PayloadItem.booking_id booking.id ∷ [])
  add_audit_event AuditAction.booking_payment_submitted EntityType.booking (some booking.id)
      (some user)
      (detail "from_status" (booking_status_value booking.status) (
        detail "to_status" (booking_status_value booking'.status) (
          detail "from_payment_status" (payment_status_value payment.status) (
            detail "to_payment_status" (payment_status_value payment'.status) (
              detail "amount" (decimal_value payment.amount) (
                detail "currency" (Value.text payment.currency) (
                  detail "payment_method" (optional_value Value.text payment'.method)
                    Fields.end)))))))
  commit
  pure booking'

unfoldable pub claim_and_review : Booking → BookingPayment → Str → Str → User → Action Booking
claim_and_review booking payment method reference user = do
  claim ← claim_payment_reference method reference SourceType.booking booking.id
  start_review booking payment method reference user

unfoldable pub submit_booking_payment : ℕ → BookingPaymentSubmit → User → Action BookingRead
unfolding booking_for_update claim_and_review read_booking
submit_booking_payment booking_id payload user = do
  booking ← booking_for_update booking_id
  raise_unless (booking.seeker_id == user.id) booking_access_denied
  payment ← get_or_raise (find_payment booking.id) payment_record_not_found
  let reference = normalize_payment_reference payload.reference
  let method = method_text payload.method
  if same_booking_status booking.status BookingStatus.payment_review
      then if is_resubmission payment method reference
        then read_booking booking
        else raise already_under_review
      else do
        raise_unless (same_booking_status booking.status BookingStatus.pending_payment)
            not_awaiting_payment
        now ← utcnow
        raise_if (leb booking.payment_due_at now) payment_deadline_expired
        booking' ← claim_and_review booking payment method reference user
        read_booking booking'

-- The unit's part of a cancellation: it is released and its owner told, where it is there.
unfoldable pub release_cancelled : Booking → Action (Option RentalUnit)
unfolding release_unit_after_failed_booking notify
release_cancelled booking = do
  found ← gets (find_unit booking.unit_id)
  elim found [
    | none ↦ pure none
    | some unit ↦ do
      unit' ← release_unit_after_failed_booking unit
      property_row ← gets (find_property unit.property_id)
      elim property_row [
        | none ↦ skip
        | some p ↦
            notify p.owner_id NotificationType.booking_cancelled
              (PayloadItem.unit_id unit.id ∷ PayloadItem.booking_id booking.id ∷ [])
      ]
      pure (some unit')
  ]

unfoldable pub cancel_payment : Option BookingPayment → Action (Option BookingPayment)
unfolding update_payment
cancel_payment none = pure none
cancel_payment (some payment) = do
  let payment' : BookingPayment = record payment { status = PaymentStatus.cancelled }
  update_payment payment payment'
  pure (some payment')

unfoldable pub apply_cancellation : Booking → User → Action Booking
unfolding cancel_payment release_cancelled save_booking history add_audit_event
apply_cancellation booking user = do
  payment ← gets (find_payment booking.id)
  payment' ← cancel_payment payment
  unit' ← release_cancelled booking
  now ← utcnow
  booking' ←
      history (record booking { cancelled_at = some now }) BookingStatus.cancelled (some user.id)
        (codes "Cancelled by house seeker")
  add_audit_event AuditAction.booking_cancelled EntityType.booking (some booking.id) (some user) (
      detail "unit_id" (uuid_value booking.unit_id) (
        detail "from_status" (booking_status_value booking.status) (
          detail "to_status" (booking_status_value booking'.status) (
            detail "from_payment_status"
              (optional_value (λ (p : BookingPayment). payment_status_value p.status) payment)
              (detail "to_payment_status"
                (optional_value (λ (p : BookingPayment). payment_status_value p.status) payment')
                (detail "unit_status"
                  (optional_value (λ (u : RentalUnit). unit_status_value u.status) unit')
                  Fields.end))))))
  commit
  pure booking'

unfoldable pub cancel_booking : ℕ → User → Action BookingRead
unfolding booking_for_update apply_cancellation read_booking
cancel_booking booking_id user = do
  booking ← booking_for_update booking_id
  raise_unless (booking.seeker_id == user.id) booking_access_denied
  raise_if (same_booking_status booking.status BookingStatus.payment_review)
      payment_must_be_reviewed
  raise_unless (same_booking_status booking.status BookingStatus.pending_payment)
      only_unpaid_pending
  booking' ← apply_cancellation booking user
  read_booking booking'
