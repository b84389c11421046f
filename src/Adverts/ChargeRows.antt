-- ===== src/Adverts/ChargeRows.antt =====
-- What the steps that write a charge leave: admin.py, advertising.py and payment_providers.py.
use mathlib.Core.Path.{subst}
use rental_property.Base.{
  ℕ, ◌≡◌, ◌⊎◌, refl, inr, true, none, some, [], ◌∷◌, ◌++◌, arith, find-key, put, if◌then◌else◌,
}
use rental_property.Text.{Str, codes}
use rental_property.Models.{
  User, Property, AdvertCharge, AdvertChargeStatus, NotificationType, AuditAction,
  PaymentProviderEvent, charge_key, find_charge,
}
use rental_property.Action.{World}
use rental_property.Listings.{
  AdvertChargeQuote, is_settled, requoted, quoted_status, quoted_amount, apply_quote, decide_charge,
  record_charge_payment,
}
use rental_property.Providers.{review_provider_charge}
use rental_property.Adverts.Writes.{
  AdvertisedWorld, put_charge-Advertised, committed-AdvertisedWorld,
}

-- A step that writes one charge over, committed or not.
pub write_charge-AdvertisedWorld :
    (c c' : AdvertCharge) (w w' : World)
    → find_charge c.property_id w.session ≡ some c
    → c'.property_id ≡ c.property_id
    → (is_settled c.status ≡ true → is_settled c'.status ≡ true)
    → w'.session.properties ≡ w.session.properties
    → w'.session.charges ≡ put charge_key c.property_id c' w.session.charges
    → (w'.committed ≡ w.committed) ⊎ (w'.committed ≡ w'.session)
    → AdvertisedWorld w
    → AdvertisedWorld w'
write_charge-AdvertisedWorld c c' w w' fc key stays properties charges committed h =
    committed-AdvertisedWorld w w' committed
      (put_charge-Advertised w.session w'.session c c' fc key stays properties charges h.0) h

-- A charge that was found is found under its own property.
pub found_charge :
    (k : ℕ) (c : AdvertCharge) (w : World)
    → find_charge k w.session ≡ some c
    → find_charge c.property_id w.session ≡ some c
found_charge k c w fc = cc (find-key charge_key k c w.session.charges fc)

module _ (row : Property) (c c' : AdvertCharge) (notice : NotificationType) (action : AuditAction)
    (admin : User) (w : World) where
  pub decide_charge-rows :
      let w' = (decide_charge row c c' notice action admin w).1 in
      (w'.session.properties ≡ w.session.properties)
      × (w'.session.charges ≡ put charge_key c'.property_id c' w.session.charges)
      × (w'.committed ≡ w'.session)
  unfolding decide_charge
  decide_charge-rows = ground arith

  pub decide_charge-Advertised :
      find_charge c.property_id w.session ≡ some c
      → c'.property_id ≡ c.property_id
      → (is_settled c.status ≡ true → is_settled c'.status ≡ true)
      → AdvertisedWorld w
      → AdvertisedWorld (decide_charge row c c' notice action admin w).1
  decide_charge-Advertised fc key stays h =
      let w' = (decide_charge row c c' notice action admin w).1 in
      let (properties, charges, committed) = decide_charge-rows in
      write_charge-AdvertisedWorld c c' w w' fc key stays properties
        (subst (λ k. w'.session.charges ≡ put charge_key k c' w.session.charges) key charges)
        (inr committed) h

module _ (row : Property) (payload : AdvertChargeQuote) (admin : User) (w : World) where
  -- The charge that a quote adds.
  abbrev pub quoted_charge : AdvertCharge
  quoted_charge = record {
    id = w.next_uuid;
    property_id = row.id;
    amount = quoted_amount payload;
    currency = codes "LSL";
    status = quoted_status payload;
    note = payload.note;
    quoted_by = admin.id;
    payment_method = none;
    payment_reference = none;
    payment_submitted_at = none;
    confirmed_by = if payload.waive then some admin.id else none;
    confirmed_at = if payload.waive then some w.now else none;
  }

pub apply_quote-new :
    (row : Property) (payload : AdvertChargeQuote) (admin : User) (w : World)
    → let w' = (apply_quote row none payload admin w).1 in
      (w'.session.properties ≡ w.session.properties)
      × (w'.session.charges ≡ w.session.charges ++ quoted_charge row payload admin w ∷ [])
      × (w'.committed ≡ w'.session)
unfolding apply_quote
apply_quote-new row payload admin w = (refl, refl, refl)

pub apply_quote-old :
    (row : Property) (c : AdvertCharge) (payload : AdvertChargeQuote) (admin : User) (w : World)
    → let w' = (apply_quote row (some c) payload admin w).1 in
      (w'.session.properties ≡ w.session.properties)
      × (w'.session.charges
          ≡ put charge_key c.property_id (requoted c payload admin w.now) w.session.charges)
      × (w'.committed ≡ w'.session)
unfolding apply_quote
apply_quote-old row c payload admin w = ground arith

pub record_charge_payment-rows :
    (row : Property) (c : AdvertCharge) (m r : Str) (user : User) (w : World)
    → let w' = (record_charge_payment row c m r user w).1 in
      (w'.session.properties ≡ w.session.properties)
      × (w'.session.charges
          ≡ put charge_key c.property_id
              (record c {
                payment_method = some m;
                payment_reference = some r;
                payment_submitted_at = some w.now;
                status = AdvertChargeStatus.payment_submitted;
              })
              w.session.charges)
      × (w'.committed ≡ w'.session)
unfolding record_charge_payment
record_charge_payment-rows row c m r user w = (refl, refl, refl)

pub review_provider_charge-rows :
    (event : PaymentProviderEvent) (c : AdvertCharge) (q : Property) (m r : Str) (w : World)
    → let w' = (review_provider_charge event c q m r w).1 in
      (w'.session.properties ≡ w.session.properties)
      × (w'.session.charges
          ≡ put charge_key c.property_id
              (record c {
                payment_method = some m;
                payment_reference = some r;
                payment_submitted_at = some w.now;
                status = AdvertChargeStatus.payment_submitted;
              })
              w.session.charges)
      × (w'.committed ≡ w.committed)
unfolding review_provider_charge
review_provider_charge-rows event c q m r w = (refl, refl, refl)
