-- ===== src/Providers/Webhooks.antt =====
-- `ingest_payment_webhook` of payment_providers.py, the route in payment_webhooks.py, and the
-- reconciliation by an administrator in payment_reconciliation.py.
use rental_property.Base.{
  ℕ, ◌+◌, ◌*◌, Bool, true, false, not, ◌&&◌, ◌==◌, Option, none, some, List, [], ◌∷◌, ◌++◌, first,
  if◌then◌else◌, ltb,
}
use rental_property.Text.{Str, strip, str_eq, length}
use rental_property.Models.{
  User, PaymentProviderEvent, ProcessingStatus, same_processing_status, ProcessingMessage,
  AuditAction, EntityType, Value, Fields, uuid_value, outcome_text, source_text,
  processing_status_text, find_event,
}
use rental_property.Action.{
  Action, Result, ok, err, ◌>>=◌, ◌>>◌, pure, raise, gets, get_or_raise, modify, commit, utcnow,
  uuid4, raise_unless, provider_not_configured, event_id_reused, body_too_large,
  provider_event_not_found, only_manual_review_resolved,
}
use rental_property.Audit.{add_audit_event, detail}
use rental_property.Bookings.{require_roles, admins_only}
use rental_property.Providers.Names.{Registry, normalize_provider_name, get_payment_provider}
use rental_property.Providers.Events.{NormalizedPaymentEvent, ValidEvent, validate_event}
use rental_property.Providers.Marks.{save_event}
use rental_property.Providers.Processing.{process_event}

abbrev pub Headers : Type 0
Headers = List (Str × Str)

-- `PaymentProviderAdapter`: `verify_and_parse` answers or raises.
abbrev pub Adapter : Type 0
Adapter = Str → Headers → Result NormalizedPaymentEvent

-- The registered adapters, and the digest of a body.
pub record Gateway : Type 0 where
  pub adapters : Registry Adapter
  pub sha256 : Str → ℕ

-- `PaymentWebhookResult`
pub record PaymentWebhookResult : Type 0 where
  pub event : PaymentProviderEvent
  pub duplicate : Bool

-- A computation that leaves the database alone.
abbrev pub lift : {A : Type 0} → Result A → Action A
lift r w = (r, w)

-- `uq_payment_provider_event`
unfoldable pub is_event : Str → Str → PaymentProviderEvent → Bool
is_event provider event_id r = str_eq r.provider provider && str_eq r.event_id event_id

-- A new row of `payment_provider_events`.
unfoldable pub received : ℕ → Str → ValidEvent → ℕ → PaymentProviderEvent
received id provider event digest = record {
  id = id;
  provider = provider;
  event_id = event.event_id;
  event_type = event.event_type;
  provider_transaction_id = event.provider_transaction_id;
  source_type = event.source_type;
  source_id = event.source_id;
  outcome = event.outcome;
  amount = event.amount;
  currency = event.currency;
  occurred_at = event.occurred_at;
  payload_sha256 = digest;
  processing_status = ProcessingStatus.received;
  processing_message = none;
  processed_at = none;
  reconciled_at = none;
  reconciled_by = none;
  resolution_note = none;
}

-- `row.processed_at = _utcnow()`, and the result.
unfoldable pub finish_event : PaymentProviderEvent → Action PaymentWebhookResult
unfolding save_event
finish_event row = do
  now ← utcnow
  let done : PaymentProviderEvent = record row { processed_at = some now }
  save_event done
  pure (record { event = done; duplicate = false })

-- The first delivery of an event.
unfoldable pub process_new : PaymentProviderEvent → ValidEvent → Action PaymentWebhookResult
unfolding finish_event
process_new row event = do
  modify λ d. record d { provider_events = d.provider_events ++ row ∷ [] }
  row' ← process_event row event
  finish_event row'

-- A delivery of an event that is there.
unfoldable pub check_duplicate : PaymentProviderEvent → ℕ → Action PaymentWebhookResult
check_duplicate existing digest =
    if not (existing.payload_sha256 == digest)
    then raise event_id_reused
    else pure (record { event = existing; duplicate = true })

-- `insert … on_conflict_do_nothing … returning`, and what follows it.
unfoldable pub ingest_event : Str → ValidEvent → ℕ → Action PaymentWebhookResult
unfolding received
ingest_event provider event digest = do
  found ← gets (λ d. first (is_event provider event.event_id) d.provider_events)
  id ← uuid4
  elim found [
    | none ↦ process_new (received id provider event digest) event
    | some existing ↦ check_duplicate existing digest
  ]

unfoldable pub ingest_payment_webhook : Gateway → Str → Str → Headers → Action PaymentWebhookResult
ingest_payment_webhook gateway provider body headers = do
  normalized_provider ← lift (normalize_provider_name provider)
  adapter ←
      get_or_raise (λ d. get_payment_provider normalized_provider gateway.adapters)
        provider_not_configured
  raw ← lift (adapter body headers)
  event ← lift (validate_event raw)
  ingest_event normalized_provider event (gateway.sha256 body)

-- `MAX_WEBHOOK_BODY_BYTES`
abbrev pub max_webhook_body_bytes : ℕ
max_webhook_body_bytes = 64 * 1024

-- The loop of `_bounded_body` after `size` bytes, of which there may be `most`.
unfoldable pub join_bounded : ℕ → ℕ → List Str → Result Str
join_bounded most size [] = ok []
join_bounded most size (chunk ∷ chunks) =
    let size' = size + length chunk in
    let rest = join_bounded most size' chunks in
    if ltb most size'
    then err body_too_large
    else elim rest [ err e ↦ err e | ok body ↦ ok (chunk ++ body) ]

-- `_bounded_body`
unfoldable pub bounded_body : List Str → Result Str
bounded_body chunks = join_bounded max_webhook_body_bytes 0 chunks

-- `PaymentWebhookReceipt`
pub record PaymentWebhookReceipt : Type 0 where
  pub provider_event_id : ℕ
  pub provider : Str
  pub event_id : Str
  pub duplicate : Bool
  pub processing_status : ProcessingStatus
  pub processing_message : Option ProcessingMessage
  pub processed_at : Option ℕ

abbrev pub receipt : PaymentWebhookResult → PaymentWebhookReceipt
receipt result = record {
  provider_event_id = result.event.id;
  provider = result.event.provider;
  event_id = result.event.event_id;
  duplicate = result.duplicate;
  processing_status = result.event.processing_status;
  processing_message = result.event.processing_message;
  processed_at = result.event.processed_at;
}

unfoldable pub receive_payment_webhook :
    Gateway → Str → List Str → Headers → Action PaymentWebhookReceipt
receive_payment_webhook gateway provider chunks headers = do
  body ← lift (bounded_body chunks)
  result ← ingest_payment_webhook gateway provider body headers
  commit
  pure (receipt result)

-- What an administrator's resolution writes.
unfoldable pub apply_resolution : PaymentProviderEvent → Str → User → Action PaymentProviderEvent
unfolding save_event add_audit_event
apply_resolution row note admin = do
  now ← utcnow
  let row' : PaymentProviderEvent = record row {
    processing_status = ProcessingStatus.resolved;
    resolution_note = some (strip note);
    reconciled_at = some now;
    reconciled_by = some admin.id;
  }
  save_event row'
  add_audit_event AuditAction.payment_provider_reconciliation_resolved
      EntityType.payment_provider_event (some row.id) (some admin)
      (detail "provider" (Value.text row.provider) (
        detail "provider_event_id" (Value.text row.event_id) (
          detail "source_type" (Value.text (source_text row.source_type)) (
            detail "source_id" (uuid_value row.source_id) (
              detail "outcome" (Value.text (outcome_text row.outcome)) (
                detail "from_status" (Value.text (processing_status_text row.processing_status)) (
                  detail "to_status" (Value.text (processing_status_text row'.processing_status))
                    (detail "resolution_note" (Value.text (strip note)) Fields.end))))))))
  commit
  pure row'

unfoldable pub resolve_payment_provider_event : ℕ → Str → User → Action PaymentProviderEvent
unfolding require_roles
resolve_payment_provider_event event_id note admin = do
  require_roles admins_only admin
  row ← get_or_raise (find_event event_id) provider_event_not_found
  raise_unless (same_processing_status row.processing_status ProcessingStatus.manual_review)
      only_manual_review_resolved
  apply_resolution row note admin
