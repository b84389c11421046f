-- ===== src/Providers/Marks.antt =====
-- How the processing of an event ends, and what it compares: payment_providers.py.
use rental_property.Base.{
  ℕ, Bool, false, ◌&&◌, ◌==◌, Option, none, some, [], ◌∷◌, ◌++◌, put, if◌then◌else◌,
}
use rental_property.Text.{Str, codes, upper, str_eq}
use rental_property.Models.{
  PaymentProviderEvent, ProcessingStatus, ProcessingMessage, SourceType, NotificationType,
  PayloadItem, AuditAction, EntityType, Value, Fields, decimal_value, optional_value, outcome_text,
  event_key,
}
use rental_property.Action.{Action, ⊤, ◌>>=◌, ◌>>◌, pure, modify}
use rental_property.Audit.{add_audit_event, detail}
use rental_property.Payments.{normalize_payment_reference, text_or_empty}
use rental_property.Bookings.{notify_admins}
use rental_property.Providers.Events.{ValidEvent}
use rental_property.Providers.Messages.{message_text}

-- An assignment to columns of an event that the session holds.
unfoldable pub save_event : PaymentProviderEvent → Action ⊤
save_event row =
    modify λ d. record d { provider_events = put event_key row.id row d.provider_events }

abbrev pub source_entity : SourceType → EntityType
source_entity SourceType.booking = EntityType.booking
source_entity SourceType.advert_charge = EntityType.advert_charge

unfoldable pub set_processing :
    PaymentProviderEvent → ProcessingStatus → ProcessingMessage → Action PaymentProviderEvent
unfolding save_event
set_processing row status message = do
  let row' : PaymentProviderEvent = record row {
    processing_status = status;
    processing_message = some message;
  }
  save_event row'
  pure row'

-- `_manual_review`
unfoldable pub manual_review :
    PaymentProviderEvent → ProcessingMessage → Action PaymentProviderEvent
unfolding set_processing notify_admins add_audit_event message_text
manual_review row reason = do
  row' ← set_processing row ProcessingStatus.manual_review reason
  notify_admins NotificationType.provider_payment_manual_review (
      PayloadItem.source_type row.source_type
      ∷ PayloadItem.source_id row.source_id
      ∷ PayloadItem.provider_event_id row.id
      ∷ [])
  add_audit_event AuditAction.payment_provider_manual_review (source_entity row.source_type)
      (some row.source_id) none
      (detail "provider" (Value.text row.provider) (
        detail "outcome" (Value.text (outcome_text row.outcome)) (
          detail "amount" (optional_value decimal_value row.amount) (
            detail "currency" (optional_value Value.text row.currency)
              (detail "reason" (Value.text (message_text reason)) Fields.end)))))
  pure row'

-- A check that sends the event to manual review: a row that must be there, and a refusal.
unfoldable pub or_review {ℓ} :
    {A : Type ℓ}
    → PaymentProviderEvent
    → ProcessingMessage
    → Option A
    → (A → Action PaymentProviderEvent)
    → Action PaymentProviderEvent
or_review row reason none k = manual_review row reason
or_review row reason (some a) k = k a

unfoldable pub review_if :
    Bool
    → PaymentProviderEvent
    → ProcessingMessage
    → Action PaymentProviderEvent
    → Action PaymentProviderEvent
review_if c row reason k = if c then manual_review row reason else k

abbrev pub is_amount : Option ℕ → ℕ → Bool
is_amount none expected = false
is_amount (some amount) expected = amount == expected

abbrev pub is_currency : Option Str → Str → Bool
is_currency none expected = false
is_currency (some currency) expected = str_eq (upper currency) (upper expected)

-- `_matches_money`
unfoldable pub matches_money : ℕ → Str → ValidEvent → Bool
matches_money amount currency event =
    is_amount event.amount amount && is_currency event.currency currency

-- `f"provider:{row.provider}"`
unfoldable pub provider_method : PaymentProviderEvent → Str
provider_method row = codes "provider:" ++ row.provider

unfoldable pub event_reference : ValidEvent → Str
unfolding normalize_payment_reference
event_reference event = normalize_payment_reference (text_or_empty event.provider_transaction_id)
