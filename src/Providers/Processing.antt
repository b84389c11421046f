-- ===== src/Providers/Processing.antt =====
-- What a paid event does to the charge that it names, and what an event does: payment_providers.py.
use rental_property.Base.{ℕ, Bool, not, ◌&&◌, ◌||◌, ◌==◌, none, some, [], ◌∷◌, first, if◌then◌else◌}
use rental_property.Text.{Str}
use rental_property.Models.{
  Property, AdvertCharge, AdvertChargeStatus, same_charge_status, PaymentProviderEvent,
  ProcessingStatus, ProcessingMessage, SourceType, Outcome, NotificationType, PayloadItem,
  AuditAction, EntityType, Value, Fields, uuid_value, decimal_value, charge_status_value,
  find_property,
}
use rental_property.Action.{Action, ◌>>=◌, ◌>>◌, gets, utcnow}
use rental_property.Audit.{add_audit_event, detail}
use rental_property.Payments.{is_missing, try_claim, update_charge}
use rental_property.Bookings.{notify, notify_admins, is_text}
use rental_property.Listings.{is_payable}
use rental_property.Providers.Events.{ValidEvent}
use rental_property.Providers.Marks.{
  set_processing, manual_review, or_review, review_if, matches_money, provider_method,
  event_reference,
}
use rental_property.Providers.Booked.{process_booking_paid}

abbrev pub is_applied_charge : AdvertCharge → Str → Str → Bool
is_applied_charge charge method reference =
    is_text charge.payment_method method
    && is_text charge.payment_reference reference
    && (same_charge_status charge.status AdvertChargeStatus.payment_submitted
        || same_charge_status charge.status AdvertChargeStatus.paid)

-- The charge goes to review, once the provider's transaction is claimed.
unfoldable pub review_provider_charge :
    PaymentProviderEvent → AdvertCharge → Property → Str → Str → Action PaymentProviderEvent
unfolding update_charge notify_admins notify add_audit_event set_processing
review_provider_charge row charge property_row method reference = do
  now ← utcnow
  let charge' : AdvertCharge = record charge {
    payment_method = some method;
    payment_reference = some reference;
    payment_submitted_at = some now;
    status = AdvertChargeStatus.payment_submitted;
  }
  update_charge charge charge'
  notify_admins NotificationType.provider_advert_payment_review (
      PayloadItem.property_id property_row.id
      ∷ PayloadItem.advert_charge_id charge.id
      ∷ PayloadItem.provider_event_id row.id
      ∷ [])
  notify property_row.owner_id NotificationType.provider_payment_received
      (PayloadItem.property_id property_row.id ∷ [])
  add_audit_event AuditAction.advert_charge_provider_payment_received EntityType.property
      (some property_row.id) none
      (detail "provider" (Value.text row.provider) (
        detail "advert_charge_id" (uuid_value charge.id) (
          detail "from_status" (charge_status_value charge.status) (
            detail "to_status" (charge_status_value charge'.status) (
              detail "amount" (decimal_value charge.amount)
                (detail "currency" (Value.text charge.currency) Fields.end))))))
  set_processing row ProcessingStatus.processed ProcessingMessage.charge_moved_to_queue

unfoldable pub claim_for_charge :
    PaymentProviderEvent → AdvertCharge → Property → Str → Str → Action PaymentProviderEvent
unfolding or_review
claim_for_charge row charge property_row method reference = do
  claim ← try_claim method reference SourceType.advert_charge charge.id
  or_review row ProcessingMessage.claimed_elsewhere claim
      λ c. review_provider_charge row charge property_row method reference

-- A charge that is payable: its property, and the claim.
unfoldable pub pay_charge :
    PaymentProviderEvent → AdvertCharge → Str → Str → Action PaymentProviderEvent
unfolding or_review
pay_charge row charge method reference = do
  found ← gets (find_property charge.property_id)
  or_review row ProcessingMessage.charge_property_gone found
      λ property_row. claim_for_charge row charge property_row method reference

unfoldable pub apply_to_charge :
    PaymentProviderEvent → ValidEvent → AdvertCharge → Action PaymentProviderEvent
unfolding review_if
apply_to_charge row event charge =
    let method = provider_method row in
    let reference = event_reference event in
    review_if (not (matches_money charge.amount charge.currency event)) row
      ProcessingMessage.charge_money_differs
      (review_if (is_missing event.provider_transaction_id) row
        ProcessingMessage.transaction_id_missing
        (if is_applied_charge charge method reference
          then set_processing row ProcessingStatus.processed
              ProcessingMessage.charge_already_applied
          else review_if (not (is_payable charge.status)) row
              (ProcessingMessage.charge_not_payable charge.status)
              (pay_charge row charge method reference)))

abbrev pub has_charge_id : ℕ → AdvertCharge → Bool
has_charge_id k c = c.id == k

-- `_process_advert_paid`
unfoldable pub process_advert_paid : PaymentProviderEvent → ValidEvent → Action PaymentProviderEvent
unfolding or_review
process_advert_paid row event = do
  found ← gets (λ d. first (has_charge_id event.source_id) d.charges)
  or_review row ProcessingMessage.charge_missing found λ charge. apply_to_charge row event charge

-- `_process_event`
unfoldable pub process_event : PaymentProviderEvent → ValidEvent → Action PaymentProviderEvent
process_event row event = elim event.outcome [
  | Outcome.refunded ↦ manual_review row ProcessingMessage.refund_reported
  | Outcome.paid ↦ elim event.source_type [
    | SourceType.booking ↦ process_booking_paid row event
    | SourceType.advert_charge ↦ process_advert_paid row event
  ]
  | _ ↦
      set_processing row ProcessingStatus.recorded
        (ProcessingMessage.outcome_recorded event.outcome)
]
