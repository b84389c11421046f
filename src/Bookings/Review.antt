-- ===== src/Bookings/Review.antt =====
-- `confirm_booking` and `reject_booking_payment`: what an administrator decides on a payment.
use rental_property.Base.{
  ℕ, Bool, true, false, ◌==◌, Option, none, some, List, [], ◌∷◌, ◌++◌, if◌then◌else◌, first,
  is_some,
}
use rental_property.Text.{Str, codes}
use rental_property.Models.{
  User, UserRole, Property, RentalUnit, UnitStatus, same_unit_status, Booking, BookingStatus,
  same_booking_status, BookingPayment, PaymentStatus, same_payment_status, Account, LedgerDirection,
  LedgerEntry, NotificationType, PayloadItem, AuditAction, EntityType, Value, Fields, uuid_value,
  decimal_value, booking_status_value, payment_status_value, unit_status_value, optional_value,
  find_property, find_unit, find_payment,
}
use rental_property.Action.{
  Action, ◌>>=◌, ◌>>◌, pure, gets, get_or_raise, modify, commit, utcnow, raise_unless, skip,
  not_awaiting_confirmation, submitted_payment_required, unit_booking_state_invalid,
  property_not_found, not_awaiting_review, booking_records_incomplete,
}
use rental_property.Audit.{add_audit_event, detail}
use rental_property.Payments.{update_payment}
use rental_property.Bookings.Shared.{
  require_roles, notify, save_unit, history, release_unit_after_failed_booking, BookingRead,
  read_booking, booking_for_update,
}

abbrev pub admins_only : List UserRole
admins_only = UserRole.admin ∷ []

-- `payload.note or text`
abbrev pub note_or : Str → Option Str → Str
note_or text none = text
note_or text (some []) = text
note_or text (some (c ∷ note)) = c ∷ note

abbrev pub is_entry_of : ℕ → LedgerEntry → Bool
is_entry_of booking_id e = e.booking_id == booking_id

abbrev pub ledger_entry : Booking → BookingPayment → Account → LedgerDirection → LedgerEntry
ledger_entry booking payment account direction = record {
  booking_id = booking.id;
  payment_id = payment.id;
  account = account;
  direction = direction;
  amount = payment.amount;
  currency = payment.currency;
}

-- The two ledger entries of a booking, once.
unfoldable pub post_ledger : Booking → BookingPayment → Action Bool
post_ledger booking payment = do
  existing_ledger ← gets (λ d. first (is_entry_of booking.id) d.ledger)
  if is_some existing_ledger then pure false else do
    modify λ d. record d {
      ledger =
          d.ledger
          ++ (ledger_entry booking payment Account.platform_clearing LedgerDirection.debit
              ∷ ledger_entry booking payment Account.booking_funds_held LedgerDirection.credit
              ∷ []);
    }
    pure true

unfoldable pub apply_confirmation :
    Booking → BookingPayment → RentalUnit → Property → Option Str → User → Action Booking
unfolding update_payment history save_unit post_ledger notify add_audit_event
apply_confirmation booking payment unit property_row note admin = do
  now ← utcnow
  let payment' : BookingPayment = record payment {
    status = PaymentStatus.confirmed;
    confirmed_at = some now;
    confirmed_by = some admin.id;
  }
  update_payment payment payment'
  booking' ←
      history (record booking { confirmed_at = some now }) BookingStatus.confirmed (some admin.id)
        (note_or (codes "Payment verified by admin") note)
  save_unit (record unit { status = UnitStatus.booked })
  ledger_created ← post_ledger booking payment'
  notify booking.seeker_id NotificationType.booking_confirmed
      (PayloadItem.booking_id booking.id ∷ [])
  notify property_row.owner_id NotificationType.booking_confirmed
      (PayloadItem.booking_id booking.id ∷ PayloadItem.unit_id unit.id ∷ [])
  add_audit_event AuditAction.booking_payment_confirmed EntityType.booking (some booking.id)
      (some admin)
      (detail "property_id" (uuid_value property_row.id) (
        detail "unit_id" (uuid_value unit.id) (
          detail "from_status" (booking_status_value booking.status) (
            detail "to_status" (booking_status_value booking'.status) (
              detail "from_payment_status" (payment_status_value payment.status) (
                detail "to_payment_status" (payment_status_value payment'.status) (
                  detail "amount" (decimal_value payment.amount) (
                    detail "currency" (Value.text payment.currency) (
                      detail "payment_method" (optional_value Value.text payment.method)
                        (detail "ledger_created" (Value.flag ledger_created) Fields.end))))))))))
  commit
  pure booking'

unfoldable pub confirm_booking : ℕ → Option Str → User → Action BookingRead
unfolding require_roles booking_for_update apply_confirmation read_booking
confirm_booking booking_id note admin = do
  require_roles admins_only admin
  booking ← booking_for_update booking_id
  raise_unless (same_booking_status booking.status BookingStatus.payment_review)
      not_awaiting_confirmation
  payment ← get_or_raise (find_payment booking.id) submitted_payment_required
  raise_unless (same_payment_status payment.status PaymentStatus.submitted)
      submitted_payment_required
  unit ← get_or_raise (find_unit booking.unit_id) unit_booking_state_invalid
  raise_unless (same_unit_status unit.status UnitStatus.booking_pending) unit_booking_state_invalid
  property_row ← get_or_raise (find_property unit.property_id) property_not_found
  booking' ← apply_confirmation booking payment unit property_row note admin
  read_booking booking'

unfoldable pub apply_rejection :
    Booking → BookingPayment → RentalUnit → Option Str → User → Action Booking
unfolding update_payment history release_unit_after_failed_booking notify add_audit_event
apply_rejection booking payment unit note admin = do
  let payment' : BookingPayment = record payment { status = PaymentStatus.rejected }
  update_payment payment payment'
  booking' ←
      history booking BookingStatus.rejected (some admin.id)
        (note_or (codes "Payment rejected by admin") note)
  unit' ← release_unit_after_failed_booking unit
  property_row ← gets (find_property unit.property_id)
  notify booking.seeker_id NotificationType.booking_rejected
      (PayloadItem.booking_id booking.id ∷ [])
  elim property_row [
    | none ↦ skip
    | some p ↦
        notify p.owner_id NotificationType.booking_released (PayloadItem.unit_id unit.id ∷ [])
  ]
  add_audit_event AuditAction.booking_payment_rejected EntityType.booking (some booking.id)
      (some admin)
      (detail "property_id" (optional_value (λ (p : Property). uuid_value p.id) property_row) (
        detail "unit_id" (uuid_value unit.id) (
          detail "from_status" (booking_status_value booking.status) (
            detail "to_status" (booking_status_value booking'.status) (
              detail "from_payment_status" (payment_status_value payment.status) (
                detail "to_payment_status" (payment_status_value payment'.status) (
                  detail "amount" (decimal_value payment.amount) (
                    detail "currency" (Value.text payment.currency) (
                      detail "payment_method" (optional_value Value.text payment.method)
                        (detail "unit_status" (unit_status_value unit'.status) Fields.end))))))))))
  commit
  pure booking'

unfoldable pub reject_booking_payment : ℕ → Option Str → User → Action BookingRead
unfolding require_roles booking_for_update apply_rejection read_booking
reject_booking_payment booking_id note admin = do
  require_roles admins_only admin
  booking ← booking_for_update booking_id
  raise_unless (same_booking_status booking.status BookingStatus.payment_review) not_awaiting_review
  payment ← get_or_raise (find_payment booking.id) booking_records_incomplete
  unit ← get_or_raise (find_unit booking.unit_id) booking_records_incomplete
  booking' ← apply_rejection booking payment unit note admin
  read_booking booking'
