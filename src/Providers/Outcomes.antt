-- ===== src/Providers/Outcomes.antt =====
-- What `_process_event` of payment_providers.py may come to.
use rental_property.Base.{◌+◌, ap, Option, none, some, ◌≡◌, refl, inl, inr, arith, first, by_option}
use rental_property.Text.{Str}
use rental_property.Models.{
  Property, PaymentReferenceClaim, Booking, BookingPayment, AdvertCharge, PaymentProviderEvent,
  ProcessingStatus, ProcessingMessage, SourceType, find_booking, find_payment, find_unit,
  find_property,
}
use rental_property.Action.{World, Result, Action, ok, after_result}
use rental_property.Payments.{claim-cases, with_claims, try_claim, recover_conflict}
use rental_property.Providers.Events.{ValidEvent}
use rental_property.Providers.Marks.{
  set_processing, manual_review, or_review, provider_method, event_reference,
}
use rental_property.Providers.Booked.{
  review_provider_payment, claim_for_booking, pay_booking, apply_to_booking, process_booking_paid,
}
use rental_property.Providers.Processing.{
  review_provider_charge, claim_for_charge, pay_charge, apply_to_charge, has_charge_id,
  process_advert_paid, process_event,
}

-- The events and the clock of another world.
abbrev pub SameEvents : World → World → Type 0
SameEvents w w' = (w'.session.provider_events ≡ w.session.provider_events) × (w'.now ≡ w.now)

-- An event is set, sent to manual review, or has moved a payment to review.
module _ (Q : Result PaymentProviderEvent × World → Type 0) (row : PaymentProviderEvent) (w : World)
    (set : (s : ProcessingStatus) (m : ProcessingMessage)
      → (s ≡ ProcessingStatus.recorded → Q (set_processing row s m w))
        × (s ≡ ProcessingStatus.processed → Q (set_processing row s m w)))
    (manual : (m : ProcessingMessage) (w' : World) → SameEvents w w' → Q (manual_review row m w'))
    (booked : (b : Booking) (p : BookingPayment) (m r : Str) (w' : World)
      → SameEvents w w'
      → Q (review_provider_payment row b p m r w'))
    (charged : (c : AdvertCharge) (q : Property) (m r : Str) (w' : World)
      → SameEvents w w'
      → Q (review_provider_charge row c q m r w')) where
  claim_for_booking-outcome :
      (b : Booking) (p : BookingPayment) (m r : Str) → Q (claim_for_booking row b p m r w)
  unfolding claim_for_booking try_claim
  claim_for_booking-outcome b p m r =
      let next : Option PaymentReferenceClaim → Action PaymentProviderEvent = λ claim.
        or_review row ProcessingMessage.claimed_elsewhere claim
          λ c. review_provider_payment row b p m r in
      elim (claim-cases m r SourceType.booking b.id w) [
        | inl e ↦
            after_result Q (try_claim m r SourceType.booking b.id) next w
              (ok none, record w { next_uuid = w.next_uuid + 1 }) (ap recover_conflict e)
              (manual ProcessingMessage.claimed_elsewhere _ (refl, refl))
        | inr (c, cs, e) ↦
            after_result Q (try_claim m r SourceType.booking b.id) next w
              (ok (some c), with_claims cs w) (ap recover_conflict e)
              (booked b p m r (with_claims cs w) (refl, refl))
      ]

  pay_booking-outcome :
      (b : Booking) (p : BookingPayment) (m r : Str) → Q (pay_booking row b p m r w)
  unfolding pay_booking
  pay_booking-outcome b p m r =
      let late = manual ProcessingMessage.booking_deadline_passed w (refl, refl) in
      by_option (find_unit b.unit_id w.session)
        (λ e. ground (arith, late, manual ProcessingMessage.booking_unit_gone w (refl, refl)))
        λ u fu.
          by_option (find_property u.property_id w.session)
            (λ e.
              ground (arith, late, manual ProcessingMessage.booking_property_gone w (refl, refl)))
            λ q fq. ground (arith, late, claim_for_booking-outcome b p m r)

  apply_to_booking-outcome :
      (event : ValidEvent) (b : Booking) (p : BookingPayment) → Q (apply_to_booking row event b p w)
  unfolding apply_to_booking
  apply_to_booking-outcome event b p = ground (
    arith,
    manual ProcessingMessage.booking_money_differs w (refl, refl),
    manual ProcessingMessage.transaction_id_missing w (refl, refl),
    manual (ProcessingMessage.booking_not_payable b.status p.status) w (refl, refl),
    (set ProcessingStatus.processed ProcessingMessage.booking_already_applied).1 refl,
    pay_booking-outcome b p (provider_method row) (event_reference event),
  )

  process_booking_paid-outcome : (event : ValidEvent) → Q (process_booking_paid row event w)
  unfolding process_booking_paid
  process_booking_paid-outcome event =
      by_option (find_booking event.source_id w.session)
        (λ e. ground (arith, manual ProcessingMessage.booking_missing w (refl, refl)))
        λ b fb.
          by_option (find_payment b.id w.session)
            (λ e. ground (arith, manual ProcessingMessage.booking_payment_missing w (refl, refl)))
            λ p fp. ground (arith, apply_to_booking-outcome event b p)

  claim_for_charge-outcome :
      (c : AdvertCharge) (q : Property) (m r : Str) → Q (claim_for_charge row c q m r w)
  unfolding claim_for_charge try_claim
  claim_for_charge-outcome c q m r =
      let next : Option PaymentReferenceClaim → Action PaymentProviderEvent = λ claim.
        or_review row ProcessingMessage.claimed_elsewhere claim
          λ _. review_provider_charge row c q m r in
      elim (claim-cases m r SourceType.advert_charge c.id w) [
        | inl e ↦
            after_result Q (try_claim m r SourceType.advert_charge c.id) next w
              (ok none, record w { next_uuid = w.next_uuid + 1 }) (ap recover_conflict e)
              (manual ProcessingMessage.claimed_elsewhere _ (refl, refl))
        | inr (claim, cs, e) ↦
            after_result Q (try_claim m r SourceType.advert_charge c.id) next w
              (ok (some claim), with_claims cs w) (ap recover_conflict e)
              (charged c q m r (with_claims cs w) (refl, refl))
      ]

  pay_charge-outcome : (c : AdvertCharge) (m r : Str) → Q (pay_charge row c m r w)
  unfolding pay_charge
  pay_charge-outcome c m r =
      by_option (find_property c.property_id w.session)
        (λ e. ground (arith, manual ProcessingMessage.charge_property_gone w (refl, refl)))
        λ q fq. ground (arith, claim_for_charge-outcome c q m r)

  apply_to_charge-outcome :
      (event : ValidEvent) (c : AdvertCharge) → Q (apply_to_charge row event c w)
  unfolding apply_to_charge
  apply_to_charge-outcome event c = ground (
    arith,
    manual ProcessingMessage.charge_money_differs w (refl, refl),
    manual ProcessingMessage.transaction_id_missing w (refl, refl),
    manual (ProcessingMessage.charge_not_payable c.status) w (refl, refl),
    (set ProcessingStatus.processed ProcessingMessage.charge_already_applied).1 refl,
    pay_charge-outcome c (provider_method row) (event_reference event),
  )

  process_advert_paid-outcome : (event : ValidEvent) → Q (process_advert_paid row event w)
  unfolding process_advert_paid
  process_advert_paid-outcome event =
      by_option (first (has_charge_id event.source_id) w.session.charges)
        (λ e. ground (arith, manual ProcessingMessage.charge_missing w (refl, refl)))
        λ c fc. ground (arith, apply_to_charge-outcome event c)

  pub process_event-outcome : (event : ValidEvent) → Q (process_event row event w)
  unfolding process_event
  process_event-outcome event = ground (
    arith,
    manual ProcessingMessage.refund_reported w (refl, refl),
    (set ProcessingStatus.recorded (ProcessingMessage.outcome_recorded event.outcome)).0 refl,
    process_booking_paid-outcome event,
    process_advert_paid-outcome event,
  )
