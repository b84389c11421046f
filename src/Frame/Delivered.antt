-- ===== src/Frame/Delivered.antt =====
-- A charge that a provider reports as paid, in payment_providers.py, and the route of the webhook.
use rental_property.Base.{
  ◌+◌, ap, ℕ, true, Option, none, some, List, [], ◌∷◌, ◌++◌, ◌≡◌, refl, inl, inr, arith, first,
  by_option,
}
use rental_property.Text.{Str}
use rental_property.Models.{
  Property, PaymentReferenceClaim, AdvertCharge, PaymentProviderEvent, ProcessingStatus,
  ProcessingMessage, SourceType, find_property,
}
use rental_property.Action.{after_step, ok, World, Action, Keeps, Keeps-bind, uuid4, modify}
use rental_property.Payments.{claim-cases, with_claims, try_claim, recover_conflict}
use rental_property.Providers.{
  has_charge_id, ValidEvent, Gateway, Headers, or_review, provider_method, event_reference,
  review_provider_charge, claim_for_charge, pay_charge, apply_to_charge, process_advert_paid,
  process_event, finish_event, process_new, check_duplicate, ingest_event, ingest_payment_webhook,
  receive_payment_webhook, is_event,
}
use rental_property.Listings.{is_payable}
use rental_property.Frame.Reported.{
  set_processing-Keeps, manual_review-Keeps, process_booking_paid-Keeps,
}
use rental_property.Frame.Laws.{Blind, Lasting}
use rental_property.Frame.Tables.{
  commit-Keeps, uuid4-Keeps, notify-Keeps, notify_admins-Keeps, add_audit_event-Keeps,
  save_event-Keeps, update_charge-Keeps, claim_payment_reference-Keeps,
}

-- A charge as it was found by its id.
abbrev pub ChargeAt : AdvertCharge → World → Type 0
ChargeAt c w = (k : ℕ) × (first (has_charge_id k) w.session.charges ≡ some c)

-- A charge that was payable and has gone to review.
abbrev pub KeepsCharged : (World → Type 0) → Type 0
KeepsCharged P =
    (row : PaymentProviderEvent) (c : AdvertCharge) (q : Property) (m r : Str) (w : World)
    → is_payable c.status ≡ true
    → ChargeAt c w
    → P w
    → P (review_provider_charge row c q m r w).1

module _ (P : World → Type 0) (blind : Blind P) where
  stays : (w : World) → P w → P w
  stays w h = h

  review_provider_charge-Blind :
      (row : PaymentProviderEvent) (c : AdvertCharge) (q : Property) (m r : Str)
      → Keeps P (review_provider_charge row c q m r)
  unfolding review_provider_charge
  review_provider_charge-Blind row c q m r = search (
    Keeps-bind P,
    stays,
    update_charge-Keeps P blind,
    notify_admins-Keeps P blind.lasting,
    notify-Keeps P blind.lasting,
    add_audit_event-Keeps P blind.lasting,
    set_processing-Keeps P blind.lasting,
  )

  pub Blind-KeepsCharged : KeepsCharged P
  Blind-KeepsCharged row c q m r w unpaid at = review_provider_charge-Blind row c q m r w

module _ (P : World → Type 0) (laws : Lasting P) (charged : KeepsCharged P) where
  unmoved : (w : World) → P w → P w
  unmoved w h = h

  claim_for_charge-at :
      (row : PaymentProviderEvent) (c : AdvertCharge) (q : Property) (m r : Str) (w : World)
      → is_payable c.status ≡ true
      → ChargeAt c w
      → P w
      → P (claim_for_charge row c q m r w).1
  unfolding claim_for_charge try_claim
  claim_for_charge-at row c q m r w unpaid at h =
      let claims = claim_payment_reference-Keeps P laws m r SourceType.advert_charge c.id w h in
      let next : Option PaymentReferenceClaim → Action PaymentProviderEvent = λ claim.
        or_review row ProcessingMessage.claimed_elsewhere claim
          λ _. review_provider_charge row c q m r in
      elim (claim-cases m r SourceType.advert_charge c.id w) [
        | inl e ↦
            after_step P (try_claim m r SourceType.advert_charge c.id) next w
              (ok none, record w { next_uuid = w.next_uuid + 1 }) (ap recover_conflict e)
              (manual_review-Keeps P laws row ProcessingMessage.claimed_elsewhere _
                (rw e at claims))
        | inr (claim, cs, e) ↦
            after_step P (try_claim m r SourceType.advert_charge c.id) next w
              (ok (some claim), with_claims cs w) (ap recover_conflict e)
              (charged row c q m r (with_claims cs w) unpaid at (rw e at claims))
      ]

  pay_charge-at :
      (row : PaymentProviderEvent) (c : AdvertCharge) (m r : Str) (w : World)
      → is_payable c.status ≡ true
      → ChargeAt c w
      → P w
      → P (pay_charge row c m r w).1
  unfolding pay_charge
  pay_charge-at row c m r w unpaid at h =
      by_option (find_property c.property_id w.session)
        (λ e.
          ground (arith, manual_review-Keeps P laws row ProcessingMessage.charge_property_gone w h))
        λ q fq. ground (arith, claim_for_charge-at row c q m r w unpaid at h)

  apply_to_charge-at :
      (row : PaymentProviderEvent) (event : ValidEvent) (c : AdvertCharge) (w : World)
      → ChargeAt c w
      → P w
      → P (apply_to_charge row event c w).1
  unfolding apply_to_charge
  apply_to_charge-at row event c w at h =
      let paid : is_payable c.status ≡ true
          → P (pay_charge row c (provider_method row) (event_reference event) w).1 =
        λ unpaid. pay_charge-at row c (provider_method row) (event_reference event) w unpaid at h in
      ground (
        arith,
        manual_review-Keeps P laws row ProcessingMessage.charge_money_differs w h,
        manual_review-Keeps P laws row ProcessingMessage.transaction_id_missing w h,
        manual_review-Keeps P laws row (ProcessingMessage.charge_not_payable c.status) w h,
        set_processing-Keeps P laws row ProcessingStatus.processed
            ProcessingMessage.charge_already_applied w h,
        paid,
      )

  process_advert_paid-Keeps :
      (row : PaymentProviderEvent) (event : ValidEvent) → Keeps P (process_advert_paid row event)
  unfolding process_advert_paid
  process_advert_paid-Keeps row event w h =
      by_option (first (has_charge_id event.source_id) w.session.charges)
        (λ e. ground (arith, manual_review-Keeps P laws row ProcessingMessage.charge_missing w h))
        λ c fc. ground (arith, apply_to_charge-at row event c w (event.source_id, fc) h)

  process_event-Keeps :
      (row : PaymentProviderEvent) (event : ValidEvent) → Keeps P (process_event row event)
  unfolding process_event
  process_event-Keeps row event w h = ground (
    arith,
    manual_review-Keeps P laws row ProcessingMessage.refund_reported w h,
    set_processing-Keeps P laws row ProcessingStatus.recorded
        (ProcessingMessage.outcome_recorded event.outcome) w h,
    process_booking_paid-Keeps P laws row event w h,
    process_advert_paid-Keeps row event w h,
  )

  add_event-Keeps :
      (row : PaymentProviderEvent)
      → Keeps P (modify λ d. record d { provider_events = d.provider_events ++ row ∷ [] })
  add_event-Keeps row w h =
      laws.aside w
        (record w {
          session = record w.session { provider_events = w.session.provider_events ++ row ∷ [] };
        })
        (refl, refl, refl, λ u. u, inl refl, omega arith) (refl, refl) refl h

  finish_event-Keeps : (row : PaymentProviderEvent) → Keeps P (finish_event row)
  unfolding finish_event
  finish_event-Keeps row = search (Keeps-bind P, unmoved, save_event-Keeps P laws)

  process_new-Keeps :
      (row : PaymentProviderEvent) (event : ValidEvent) → Keeps P (process_new row event)
  unfolding process_new
  process_new-Keeps row event =
      search (Keeps-bind P, add_event-Keeps, process_event-Keeps, finish_event-Keeps)

  check_duplicate-Keeps :
      (old : PaymentProviderEvent) (digest : ℕ) → Keeps P (check_duplicate old digest)
  unfolding check_duplicate
  check_duplicate-Keeps old digest w h = ground arith

  ingest_event-Keeps :
      (provider : Str) (event : ValidEvent) (digest : ℕ)
      → Keeps P (ingest_event provider event digest)
  unfolding ingest_event
  ingest_event-Keeps provider event digest w h =
      by_option (first (is_event provider event.event_id) w.session.provider_events)
        (λ e. rw e (process_new-Keeps _ event (uuid4 w).1 (uuid4-Keeps P laws w h)))
        λ old e. rw e (check_duplicate-Keeps old digest (uuid4 w).1 (uuid4-Keeps P laws w h))

  ingest_payment_webhook-Keeps :
      (gateway : Gateway) (provider body : Str) (headers : Headers)
      → Keeps P (ingest_payment_webhook gateway provider body headers)
  unfolding ingest_payment_webhook
  ingest_payment_webhook-Keeps gateway provider body headers =
      search (Keeps-bind P, unmoved, ingest_event-Keeps)

  pub receive_payment_webhook-Keeps :
      (gateway : Gateway) (provider : Str) (chunks : List Str) (headers : Headers)
      → Keeps P (receive_payment_webhook gateway provider chunks headers)
  unfolding receive_payment_webhook
  receive_payment_webhook-Keeps gateway provider chunks headers =
      search (Keeps-bind P, unmoved, ingest_payment_webhook-Keeps, commit-Keeps P laws)
