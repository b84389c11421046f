-- ===== src/Providers/Booked.antt =====
-- What a paid event does to the booking that it names: payment_providers.py.
use rental_property.Base.{Bool, not, ◌&&◌, ◌||◌, none, some, [], ◌∷◌, ◌++◌, if◌then◌else◌, leb}
use rental_property.Text.{Str, codes}
use rental_property.Models.{
  Booking, BookingStatus, same_booking_status, BookingPayment, PaymentStatus, same_payment_status,
  PaymentProviderEvent, ProcessingStatus, ProcessingMessage, SourceType, NotificationType,
  PayloadItem, AuditAction, EntityType, Value, Fields, decimal_value, booking_status_value,
  payment_status_value, find_property, find_unit, find_booking, find_payment,
}
use rental_property.Action.{Action, ◌>>=◌, ◌>>◌, gets, utcnow}
use rental_property.Audit.{add_audit_event, detail}
use rental_property.Payments.{is_missing, try_claim, update_payment}
use rental_property.Bookings.{notify, notify_admins, history, is_text}
use rental_property.Providers.Events.{ValidEvent}
use rental_property.Providers.Marks.{
  set_processing, or_review, review_if, matches_money, provider_method, event_reference,
}

-- The same payment, applied to the booking before.
abbrev pub is_applied : Booking → BookingPayment → Str → Str → Bool
is_applied booking payment method reference =
    is_text payment.method method
    && is_text payment.reference reference
    && (same_payment_status payment.status PaymentStatus.submitted
        || same_payment_status payment.status PaymentStatus.confirmed)
    && (same_booking_status booking.status BookingStatus.payment_review
        || same_booking_status booking.status BookingStatus.confirmed
        || same_booking_status booking.status BookingStatus.fulfilled)

abbrev pub is_unpaid : Booking → BookingPayment → Bool
is_unpaid booking payment =
    same_booking_status booking.status BookingStatus.pending_payment
    && same_payment_status payment.status PaymentStatus.pending

-- The payment of a booking goes to review, once the provider's transaction is claimed.
unfoldable pub review_provider_payment :
    PaymentProviderEvent → Booking → BookingPayment → Str → Str → Action PaymentProviderEvent
unfolding update_payment history notify_admins notify add_audit_event set_processing
review_provider_payment row booking payment method reference = do
  now ← utcnow
  let payment' : BookingPayment = record payment {
    method = some method;
    reference = some reference;
    status = PaymentStatus.submitted;
    submitted_at = some now;
  }
  update_payment payment payment'
  booking' ← history booking BookingStatus.payment_review none (
      codes "Payment reported by provider "
      ++ row.provider
      ++ codes "; awaiting Mosala verification")
  notify_admins NotificationType.provider_booking_payment_review
      (PayloadItem.booking_id booking.id ∷ PayloadItem.provider_event_id row.id ∷ [])
  notify booking.seeker_id NotificationType.provider_payment_received
      (PayloadItem.booking_id booking.id ∷ [])
  add_audit_event AuditAction.booking_provider_payment_received EntityType.booking (some booking.id)
      none
      (detail "provider" (Value.text row.provider) (
        detail "from_status" (booking_status_value booking.status) (
          detail "to_status" (booking_status_value booking'.status) (
            detail "from_payment_status" (payment_status_value payment.status) (
              detail "to_payment_status" (payment_status_value payment'.status) (
                detail "amount" (decimal_value payment.amount)
                  (detail "currency" (Value.text payment.currency) Fields.end)))))))
  set_processing row ProcessingStatus.processed ProcessingMessage.booking_moved_to_queue

unfoldable pub claim_for_booking :
    PaymentProviderEvent → Booking → BookingPayment → Str → Str → Action PaymentProviderEvent
unfolding or_review
claim_for_booking row booking payment method reference = do
  claim ← try_claim method reference SourceType.booking booking.id
  or_review row ProcessingMessage.claimed_elsewhere claim
      λ c. review_provider_payment row booking payment method reference

-- An unpaid booking: its deadline, its unit and its property, and the claim.
unfoldable pub pay_booking :
    PaymentProviderEvent → Booking → BookingPayment → Str → Str → Action PaymentProviderEvent
unfolding or_review review_if
pay_booking row booking payment method reference = do
  now ← utcnow
  review_if (leb booking.payment_due_at now) row ProcessingMessage.booking_deadline_passed do
    found_unit ← gets (find_unit booking.unit_id)
    or_review row ProcessingMessage.booking_unit_gone found_unit λ unit. do
      found_property ← gets (find_property unit.property_id)
      or_review row ProcessingMessage.booking_property_gone found_property
          λ property_row. claim_for_booking row booking payment method reference

-- A booking with its payment row.
unfoldable pub apply_to_booking :
    PaymentProviderEvent → ValidEvent → Booking → BookingPayment → Action PaymentProviderEvent
unfolding review_if
apply_to_booking row event booking payment =
    let method = provider_method row in
    let reference = event_reference event in
    review_if (not (matches_money payment.amount payment.currency event)) row
      ProcessingMessage.booking_money_differs
      (review_if (is_missing event.provider_transaction_id) row
        ProcessingMessage.transaction_id_missing
        (if is_applied booking payment method reference
          then set_processing row ProcessingStatus.processed
              ProcessingMessage.booking_already_applied
          else review_if (not (is_unpaid booking payment)) row
              (ProcessingMessage.booking_not_payable booking.status payment.status)
              (pay_booking row booking payment method reference)))

-- `_process_booking_paid`
unfoldable pub process_booking_paid :
    PaymentProviderEvent → ValidEvent → Action PaymentProviderEvent
unfolding or_review
process_booking_paid row event = do
  found ← gets (find_booking event.source_id)
  or_review row ProcessingMessage.booking_missing found λ booking. do
    found_payment ← gets (find_payment booking.id)
    or_review row ProcessingMessage.booking_payment_missing found_payment
        λ payment. apply_to_booking row event booking payment
