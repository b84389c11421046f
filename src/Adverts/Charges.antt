-- ===== src/Adverts/Charges.antt =====
-- The rule through the handlers that write a charge: admin.py, advertising.py and
-- payment_providers.py.
use rental_property.Base.{
  ℕ, ◌≡◌, refl, inl, inr, true, false, Option, none, some, arith, by_option, find-key,
}
use rental_property.Text.{Str, codes}
use rental_property.Models.{
  User, Property, AdvertCharge, AdvertChargeStatus, NotificationType, AuditAction, SourceType,
  property_key, find_property, find_charge,
}
use rental_property.Action.{World, after_step, ok}
use rental_property.Payments.{
  normalize_payment_reference, claim_payment_reference, claim-cases, with_claims,
}
use rental_property.Bookings.{note_or, method_text}
use rental_property.Listings.{
  AdvertChargeQuote, AdvertChargePaymentSubmit, is_settled, is_final, is_payable, requoted,
  apply_quote, quote_advert_charge, decide_charge, note_over, confirm_advert_charge_payment,
  reject_advert_charge_payment, find_owned, record_charge_payment, claim_charge_payment,
  submit_advert_charge_payment,
}
use rental_property.Providers.{has_charge_id, review_provider_charge}
use rental_property.Frame.Delivered.{KeepsCharged}
use rental_property.Frame.Tables.{claim_payment_reference-Keeps}
use rental_property.Adverts.Writes.{
  AdvertisedWorld, AdvertisedWorld-Lasting, append_charge-Advertised, committed-AdvertisedWorld,
  find-first,
}
use rental_property.Adverts.ChargeRows.{
  write_charge-AdvertisedWorld, found_charge, decide_charge-Advertised, quoted_charge,
  apply_quote-new, apply_quote-old, record_charge_payment-rows, review_provider_charge-rows,
}

payable-unsettled : (s : AdvertChargeStatus) → is_payable s ≡ true → is_settled s ≡ true → ⊥
payable-unsettled s p q = ground arith

-- A charge that a provider reports as paid was payable.
pub AdvertisedWorld-KeepsCharged : KeepsCharged AdvertisedWorld
AdvertisedWorld-KeepsCharged event c q m r w unpaid (k, fc) h =
    let w' = (review_provider_charge event c q m r w).1 in
    let (properties, charges, committed) = review_provider_charge-rows event c q m r w in
    write_charge-AdvertisedWorld c _ w w'
      (find-first (has_charge_id k) c w.session.charges fc (h.0.1 c.property_id)) refl
      (λ e. absurd (payable-unsettled c.status unpaid e)) properties charges (inl committed) h

module _ (w : World) (h : AdvertisedWorld w) where
  pub confirm_advert_charge_payment-Advertised :
      (id : ℕ) (text : Option Str) (admin : User)
      → AdvertisedWorld (confirm_advert_charge_payment id text admin w).1
  unfolding confirm_advert_charge_payment
  confirm_advert_charge_payment-Advertised id text admin =
      by_option (find_property id w.session) (λ e. ground (arith, h))
        λ row fp.
          by_option (find_charge id w.session) (λ e. ground (arith, h))
            λ c fc.
              let c' : AdvertCharge = record c {
                status = AdvertChargeStatus.paid;
                confirmed_by = some admin.id;
                confirmed_at = some w.now;
                note = note_over text c.note;
              } in
              let done =
                decide_charge-Advertised row c c' NotificationType.advert_charge_paid
                  AuditAction.advert_charge_payment_confirmed admin w (found_charge id c w fc) refl
                  (λ e. refl) h in
              ground (arith, h, done)

  pub reject_advert_charge_payment-Advertised :
      (id : ℕ) (text : Option Str) (admin : User)
      → AdvertisedWorld (reject_advert_charge_payment id text admin w).1
  unfolding reject_advert_charge_payment
  reject_advert_charge_payment-Advertised id text admin =
      by_option (find_property id w.session) (λ e. ground (arith, h))
        λ row fp.
          by_option (find_charge id w.session) (λ e. ground (arith, h))
            λ c fc.
              let c' : AdvertCharge = record c {
                status = AdvertChargeStatus.payment_rejected;
                note = some (
                    note_or (codes "The advertising payment reference could not be verified") text);
              } in
              let done : c.status ≡ AdvertChargeStatus.payment_submitted
                  → AdvertisedWorld
                      (decide_charge row c c' NotificationType.advert_charge_payment_rejected
                        AuditAction.advert_charge_payment_rejected admin w).1 =
                λ s.
                  decide_charge-Advertised row c c' NotificationType.advert_charge_payment_rejected
                    AuditAction.advert_charge_payment_rejected admin w (found_charge id c w fc) refl
                    (λ e. absurd (ground arith)) h in
              ground (arith, h, done)

  apply_quote-Advertised :
      (id : ℕ) (row : Property) (found : Option AdvertCharge) (payload : AdvertChargeQuote)
      (admin : User)
      → find_property id w.session ≡ some row
      → find_charge id w.session ≡ found
      → is_final found ≡ false
      → AdvertisedWorld (apply_quote row found payload admin w).1
  apply_quote-Advertised id row none payload admin fp fc open_charge =
      let w' = (apply_quote row none payload admin w).1 in
      let (properties, charges, committed) = apply_quote-new row payload admin w in
      let key : row.id ≡ id = find-key property_key id row w.session.properties fp in
      committed-AdvertisedWorld w w' (inr committed)
        (append_charge-Advertised w.session w'.session (quoted_charge row payload admin w)
          (rw key fc) properties charges h.0)
        h
  apply_quote-Advertised id row (some c) payload admin fp fc open_charge =
      let w' = (apply_quote row (some c) payload admin w).1 in
      let (properties, charges, committed) = apply_quote-old row c payload admin w in
      write_charge-AdvertisedWorld c (requoted c payload admin w.now) w w' (found_charge id c w fc)
        refl (λ e. absurd (ground arith)) properties charges (inr committed) h

  pub quote_advert_charge-Advertised :
      (id : ℕ) (payload : AdvertChargeQuote) (admin : User)
      → AdvertisedWorld (quote_advert_charge id payload admin w).1
  unfolding quote_advert_charge
  quote_advert_charge-Advertised id payload admin =
      by_option (find_property id w.session) (λ e. ground (arith, h))
        λ row fp.
          let done : is_final (find_charge id w.session) ≡ false
              → AdvertisedWorld (apply_quote row (find_charge id w.session) payload admin w).1 =
            apply_quote-Advertised id row (find_charge id w.session) payload admin fp refl in
          ground (arith, h, done)

claim_charge_payment-Advertised :
    (row : Property) (c : AdvertCharge) (m r : Str) (user : User) (w : World)
    → find_charge c.property_id w.session ≡ some c
    → is_payable c.status ≡ true
    → AdvertisedWorld w
    → AdvertisedWorld (claim_charge_payment row c m r user w).1
unfolding claim_charge_payment
claim_charge_payment-Advertised row c m r user w fc unpaid h =
    let claims =
      claim_payment_reference-Keeps AdvertisedWorld AdvertisedWorld-Lasting m r
        SourceType.advert_charge c.id w h in
    elim (claim-cases m r SourceType.advert_charge c.id w) [
      | inl e ↦
          after_step AdvertisedWorld (claim_payment_reference m r SourceType.advert_charge c.id)
            (λ _. record_charge_payment row c m r user) w _ e (rw e at claims)
      | inr (claim, cs, e) ↦
          let v = with_claims cs w in
          let (properties, charges, committed) = record_charge_payment-rows row c m r user v in
          after_step AdvertisedWorld (claim_payment_reference m r SourceType.advert_charge c.id)
            (λ _. record_charge_payment row c m r user) w (ok claim, v) e
            (write_charge-AdvertisedWorld c _ v (record_charge_payment row c m r user v).1 fc refl
              (λ s. absurd (payable-unsettled c.status unpaid s)) properties charges (inr committed)
              (rw e at claims))
    ]

module _ (w : World) (h : AdvertisedWorld w) where
  pub submit_advert_charge_payment-Advertised :
      (id : ℕ) (payload : AdvertChargePaymentSubmit) (user : User)
      → AdvertisedWorld (submit_advert_charge_payment id payload user w).1
  unfolding submit_advert_charge_payment
  submit_advert_charge_payment-Advertised id payload user =
      by_option (find_owned id user w.session) (λ e. ground (arith, h))
        λ row fp.
          by_option (find_charge id w.session) (λ e. ground (arith, h))
            λ c fc.
              let m = method_text payload.method in
              let r = normalize_payment_reference payload.reference in
              let done : is_payable c.status ≡ true
                  → AdvertisedWorld (claim_charge_payment row c m r user w).1 =
                λ unpaid.
                  claim_charge_payment-Advertised row c m r user w (found_charge id c w fc) unpaid
                    h in
              ground (arith, h, done)
