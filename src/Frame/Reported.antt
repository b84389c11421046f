-- ===== src/Frame/Reported.antt =====
-- A payment that a provider reports, in payment_providers.py, and the routes around it.
use rental_property.Base.{
  ◌+◌, ap, ℕ, Bool, true, false, Option, none, some, ◌≡◌, refl, inl, inr, arith, by_option,
}
use rental_property.Text.{Str}
use rental_property.Models.{
  User, PaymentReferenceClaim, Booking, BookingStatus, BookingPayment, PaymentProviderEvent,
  ProcessingStatus, ProcessingMessage, SourceType, find_booking, find_payment, find_unit,
  find_property, found_booking,
}
use rental_property.Action.{after_step, ok, World, Action, Keeps, Keeps-bind}
use rental_property.Payments.{claim-cases, with_claims, try_claim, recover_conflict}
use rental_property.Providers.{
  ValidEvent, set_processing, manual_review, or_review, review_if, provider_method, event_reference,
  review_provider_payment, claim_for_booking, pay_booking, apply_to_booking, process_booking_paid,
  apply_resolution, resolve_payment_provider_event,
}
use rental_property.Frame.Laws.{Lasting}
use rental_property.Frame.Tables.{
  commit-Keeps, notify_admins-Keeps, add_audit_event-Keeps, save_event-Keeps,
  claim_payment_reference-Keeps,
}

module _ (P : World → Type 0) (laws : Lasting P) where
  still : (w : World) → P w → P w
  still w h = h

  pub set_processing-Keeps :
      (row : PaymentProviderEvent) (s : ProcessingStatus) (m : ProcessingMessage)
      → Keeps P (set_processing row s m)
  unfolding set_processing
  set_processing-Keeps row s m = search (Keeps-bind P, still, save_event-Keeps P laws)

  pub manual_review-Keeps :
      (row : PaymentProviderEvent) (m : ProcessingMessage) → Keeps P (manual_review row m)
  unfolding manual_review
  manual_review-Keeps row m = search (
    Keeps-bind P,
    still,
    set_processing-Keeps,
    notify_admins-Keeps P laws,
    add_audit_event-Keeps P laws,
  )

  -- The two checks, at one world.
  or_review-at :
      {A : Type 0} (row : PaymentProviderEvent) (m : ProcessingMessage) (o : Option A)
      (k : A → Action PaymentProviderEvent) (w : World)
      → P w
      → ((a : A) → o ≡ some a → P (k a w).1)
      → P (or_review row m o k w).1
  unfolding or_review
  or_review-at row m none k w h found = manual_review-Keeps row m w h
  or_review-at row m (some a) k w h found = found a refl

  review_if-at :
      (c : Bool) (row : PaymentProviderEvent) (m : ProcessingMessage)
      (k : Action PaymentProviderEvent) (w : World)
      → P w
      → (c ≡ false → P (k w).1)
      → P (review_if c row m k w).1
  unfolding review_if
  review_if-at true row m k w h rest = manual_review-Keeps row m w h
  review_if-at false row m k w h rest = rest refl

  module _ (row : PaymentProviderEvent) (b : Booking) (p : BookingPayment) (m r : Str)
      (sb : b.status ≡ BookingStatus.pending_payment) where
    review_provider_payment-at :
        (w : World)
        → find_booking b.id w.session ≡ some b
        → P w
        → P (review_provider_payment row b p m r w).1
    unfolding review_provider_payment
    review_provider_payment-at w fb h =
        laws.reviewed b w (review_provider_payment row b p m r w).1
          (refl, refl, refl, λ u. u, inl refl, omega arith) (refl, refl) fb sb refl h

    claim_for_booking-at :
        (w : World)
        → find_booking b.id w.session ≡ some b
        → P w
        → P (claim_for_booking row b p m r w).1
    unfolding claim_for_booking try_claim
    claim_for_booking-at w fb h =
        let claims = claim_payment_reference-Keeps P laws m r SourceType.booking b.id w h in
        let next : Option PaymentReferenceClaim → Action PaymentProviderEvent = λ claim.
          or_review row ProcessingMessage.claimed_elsewhere claim
            λ c. review_provider_payment row b p m r in
        elim (claim-cases m r SourceType.booking b.id w) [
          | inl e ↦
              after_step P (try_claim m r SourceType.booking b.id) next w
                (ok none, record w { next_uuid = w.next_uuid + 1 }) (ap recover_conflict e)
                (manual_review-Keeps row ProcessingMessage.claimed_elsewhere _ (rw e at claims))
          | inr (c, cs, e) ↦
              after_step P (try_claim m r SourceType.booking b.id) next w
                (ok (some c), with_claims cs w) (ap recover_conflict e)
                (review_provider_payment-at (with_claims cs w) fb (rw e at claims))
        ]

    pay_booking-at :
        (w : World) → find_booking b.id w.session ≡ some b → P w → P (pay_booking row b p m r w).1
    unfolding pay_booking
    pay_booking-at w fb h =
        let late = manual_review-Keeps row ProcessingMessage.booking_deadline_passed w h in
        by_option (find_unit b.unit_id w.session)
          (λ e.
            ground (arith, late, manual_review-Keeps row ProcessingMessage.booking_unit_gone w h))
          λ u fu.
            by_option (find_property u.property_id w.session)
              (λ e.
                ground (
                  arith,
                  late,
                  manual_review-Keeps row ProcessingMessage.booking_property_gone w h,
                ))
              λ q fq. ground (arith, late, claim_for_booking-at w fb h)

  apply_to_booking-at :
      (row : PaymentProviderEvent) (event : ValidEvent) (b : Booking) (p : BookingPayment)
      (w : World)
      → find_booking b.id w.session ≡ some b
      → P w
      → P (apply_to_booking row event b p w).1
  unfolding apply_to_booking
  apply_to_booking-at row event b p w fb h =
      let paid : b.status ≡ BookingStatus.pending_payment
          → P (pay_booking row b p (provider_method row) (event_reference event) w).1 =
        λ sb. pay_booking-at row b p (provider_method row) (event_reference event) sb w fb h in
      ground (
        arith,
        manual_review-Keeps row ProcessingMessage.booking_money_differs w h,
        manual_review-Keeps row ProcessingMessage.transaction_id_missing w h,
        manual_review-Keeps row (ProcessingMessage.booking_not_payable b.status p.status) w h,
        set_processing-Keeps row ProcessingStatus.processed
            ProcessingMessage.booking_already_applied w h,
        paid,
      )

  pub process_booking_paid-Keeps :
      (row : PaymentProviderEvent) (event : ValidEvent) → Keeps P (process_booking_paid row event)
  unfolding process_booking_paid
  process_booking_paid-Keeps row event w h =
      by_option (find_booking event.source_id w.session)
        (λ e. ground (arith, manual_review-Keeps row ProcessingMessage.booking_missing w h))
        λ b fb.
          by_option (find_payment b.id w.session)
            (λ e.
              ground (arith, manual_review-Keeps row ProcessingMessage.booking_payment_missing w h))
            λ p fp. ground (
              arith,
              apply_to_booking-at row event b p w (found_booking event.source_id b w.session fb) h,
            )

  apply_resolution-Keeps :
      (row : PaymentProviderEvent) (text : Str) (admin : User)
      → Keeps P (apply_resolution row text admin)
  unfolding apply_resolution
  apply_resolution-Keeps row text admin = search (
    Keeps-bind P,
    still,
    save_event-Keeps P laws,
    add_audit_event-Keeps P laws,
    commit-Keeps P laws,
  )

  pub resolve_payment_provider_event-Keeps :
      (id : ℕ) (text : Str) (admin : User) → Keeps P (resolve_payment_provider_event id text admin)
  unfolding resolve_payment_provider_event
  resolve_payment_provider_event-Keeps id text admin =
      search (Keeps-bind P, still, apply_resolution-Keeps)
