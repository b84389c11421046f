-- ===== src/Providers/Repeat.antt =====
-- Repeated deliveries of an event: `ingest_payment_webhook` of payment_providers.py.
use rental_property.Base.{◌≡◌, ◌⊎◌, false, some, first, put}
use rental_property.Models.{PaymentProviderEvent, ProcessingStatus, ProcessingMessage, event_key}
use rental_property.Action.{World, Result, ok}
use rental_property.Providers.Marks.{manual_review}
use rental_property.Providers.Webhooks.{PaymentWebhookResult, is_event}

-- An event that has been dealt with.
abbrev pub IsFinal : ProcessingStatus → Type 0
IsFinal s =
    (s ≡ ProcessingStatus.recorded)
    ⊎ ((s ≡ ProcessingStatus.processed) ⊎ (s ≡ ProcessingStatus.manual_review))

-- The event with its status and message, returned and written back.
abbrev pub Saved : PaymentProviderEvent → World → Result PaymentProviderEvent × World → Type 0
Saved row w x =
    (s : ProcessingStatus) × (m : ProcessingMessage) × IsFinal s
    × (x.0 ≡ ok (record row { processing_status = s; processing_message = some m }))
    × (x.1.session.provider_events
        ≡ put event_key row.id (record row { processing_status = s; processing_message = some m })
            w.session.provider_events)
    × (x.1.now ≡ w.now)

-- What a first delivery leaves: its answer, and the row that the next delivery finds.
abbrev pub Done : PaymentProviderEvent → World → Result PaymentWebhookResult × World → Type 0
Done row w x =
    (done : PaymentProviderEvent) × (x.0 ≡ ok (record { event = done; duplicate = false }))
    × IsFinal done.processing_status
    × (done.processed_at ≡ some w.now)
    × (done.payload_sha256 ≡ row.payload_sha256)
    × (first (is_event row.provider row.event_id) x.1.session.provider_events ≡ some done)
