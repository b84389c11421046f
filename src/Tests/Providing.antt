-- ===== src/Tests/Providing.antt =====
-- A payment provider that reports a payment, at concrete deliveries.
use rental_property.Base.{
  ℕ, ◌↔◌, ◌≡◌, ◌≤◌, ◌<◌, refl, true, none, some, [], ◌∷◌, find, first, put, ℤ, if◌then◌else◌,
}
use rental_property.Text.{Str, codes, strip, length, str_eq, lower, all_of}
use rental_property.Models.{
  SourceType, Outcome, ProcessingStatus, ProcessingMessage, PaymentProviderEvent,
}
use rental_property.Action.{World, Ensures, Error, ok, err, body_too_large}
use rental_property.Providers.{
  received, process_new, process_event, process_booking_paid, manual_review, set_processing,
  finish_event, or_review, apply_resolution, NormalizedPaymentEvent, ValidEvent, Gateway,
  validate_event, ingest_event, bounded_body, max_webhook_body_bytes, is_event, Registry,
  normalize_provider_name, register_payment_provider, unregister_payment_provider, assign,
  resolve_payment_provider_event,
}
use rental_property.Providers.Validation.{Describes, validate_event_iff}
use rental_property.Providers.Registration.{view, same_provider, view-register_payment_provider}
use rental_property.Providers.Bodies.{joined, total_length, bounded_body-total_length}
use rental_property.Providers.Resolution.{IsResolved, resolve_payment_provider_event-once}
use rental_property.Frame.{SideRequest, answer}
use rental_property.Frame.Effects.{OnlyReviews, answer-OnlyReviews}
use rental_property.Tests.Data.{start, admin}
use rental_property.Tests.Booked.{booked}

-- The payment of booking 100, as an adapter writes it.
abbrev reported : NormalizedPaymentEvent
reported = record {
  event_id = codes " evt-1 ";
  event_type = codes "payment";
  provider_transaction_id = some (codes " tx-9 ");
  source_type = codes " Booking";
  source_id = 100;
  outcome = codes "PAID";
  amount = some (ℤ.pos 150000);
  currency = some (codes "lsl");
  occurred_at = some (record { instant = 900; has_timezone = true });
}

abbrev valid : ValidEvent
valid = record {
  event_id = codes "evt-1";
  event_type = codes "payment";
  provider_transaction_id = some (codes "tx-9");
  source_type = SourceType.booking;
  source_id = 100;
  outcome = Outcome.paid;
  amount = some 150000;
  currency = some (codes "LSL");
  occurred_at = some 900;
}

validate_event_iff_example : (validate_event reported ≡ ok valid) ↔ Describes reported valid
validate_event_iff_example = validate_event_iff reported valid

bounded_body-total_length_example :
    let chunks = codes "pay" ∷ codes "load" ∷ [] in
    (total_length chunks ≤ max_webhook_body_bytes
      → (bounded_body chunks ≡ ok (joined chunks))
        × (length (joined chunks) ≤ max_webhook_body_bytes))
    × (max_webhook_body_bytes < total_length chunks → bounded_body chunks ≡ err body_too_large)
bounded_body-total_length_example = bounded_body-total_length (codes "pay" ∷ codes "load" ∷ [])

abbrev one_adapter : Registry ℕ
one_adapter = (codes "mpesa", 7) ∷ []

registers : register_payment_provider (codes " MPesa ") 7 [] ≡ ok one_adapter
unfolding register_payment_provider normalize_provider_name lower strip length all_of assign
registers = refl

view-register_payment_provider_example :
    let same =
      same_provider
        (normalize_provider_name (codes " MPesa "))
        (normalize_provider_name (codes "mpesa")) in
    (view one_adapter (codes "mpesa") ≡ (if same then some 7 else view [] (codes "mpesa")))
    × (view (unregister_payment_provider (codes " MPesa ") one_adapter) (codes "mpesa")
        ≡ (if same then none else view [] (codes "mpesa")))
view-register_payment_provider_example =
    view-register_payment_provider (codes " MPesa ") 7 [] one_adapter registers (codes "mpesa")

abbrev gateway : Gateway
gateway = record { adapters = (codes "mpesa", λ body headers. ok reported) ∷ []; sha256 = length }

abbrev payment_webhook : SideRequest
payment_webhook = SideRequest.webhook gateway (codes "MPesa") (codes "pay" ∷ codes "load" ∷ []) []

answer-OnlyReviews_example : OnlyReviews booked.committed (answer payment_webhook booked).committed
answer-OnlyReviews_example = answer-OnlyReviews payment_webhook booked

abbrev mpesa : Str
mpesa = codes "mpesa"

abbrev digest : ℕ
digest = 7

-- The payment of a booking that is not there.
abbrev unknown : ValidEvent
unknown = record valid { source_id = 999 }

abbrev note_text : Str
note_text = codes " seen "

-- The provider delivers it, and an administrator resolves it.
abbrev delivered : World
delivered = (ingest_event mpesa unknown digest start).1

abbrev resolved : World
resolved = (resolve_payment_provider_event 100 note_text admin delivered).1

abbrev resolved_event : PaymentProviderEvent
resolved_event = record (received 100 mpesa unknown digest) {
  processing_status = ProcessingStatus.resolved;
  processing_message = some ProcessingMessage.booking_missing;
  processed_at = some 1000;
  resolution_note = some (strip note_text);
  reconciled_at = some 1000;
  reconciled_by = some 4;
}

resolution_answers :
    (resolve_payment_provider_event 100 note_text admin delivered).0 ≡ ok resolved_event
unfolding resolve_payment_provider_event ingest_event first find process_new put is_event str_eq
    strip received process_event process_booking_paid manual_review set_processing finish_event
    or_review apply_resolution
resolution_answers = refl

-- The next day.
abbrev next_day : World
next_day = record resolved { now = 90000000000; today = 101 }

resolve_payment_provider_event-once_example :
    Ensures
      (resolve_payment_provider_event 100 note_text admin delivered)
      (λ row w'.
        IsResolved note_text admin delivered row w'
        × ((e : Error) × (resolve_payment_provider_event 100 (codes "again") admin next_day
              ≡ (err e, next_day))))
      (λ w'. w' ≡ delivered)
resolve_payment_provider_event-once_example =
    resolve_payment_provider_event-once 100 note_text (codes "again") admin admin delivered next_day
      refl
