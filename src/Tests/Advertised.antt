-- ===== src/Tests/Advertised.antt =====
-- A property that is submitted and published.
use rental_property.Base.{
  arith, count, find, first, put, refl, false, List, ◌≡◌, true, some, none, [], ◌∷◌,
}
use rental_property.Text.{codes}
use rental_property.Models.{
  Db, Property, PropertyStatus, AdvertCharge, AdvertChargeStatus, VerificationStatus, find_property,
  find_charge,
}
use rental_property.Action.{World, Ensures, run_request}
use rental_property.Payments.{claim_payment_reference, claim_normalized}
use rental_property.Bookings.{PaymentMethod}
use rental_property.Listings.{
  activate_property, is_settled, submit_property, confirm_advert_charge_payment,
  quote_advert_charge, submit_advert_charge_payment, record_charge_payment,
}
use rental_property.Listings.Published.{
  IsSubmittable, activate_property-settled, submit_property-verified,
}
use rental_property.Frame.{SideRequest, answer}
use rental_property.Requests.{Request, serve, serve_all}
use rental_property.Adverts.{Advertised}
use rental_property.Adverts.Requests.{serve_all-Advertised}
use rental_property.Tests.Data.{start, landlord, admin, house}

abbrev paid_charge : AdvertCharge
paid_charge = record {
  id = 30;
  property_id = 10;
  amount = 5000;
  currency = codes "LSL";
  status = AdvertChargeStatus.paid;
  note = none;
  quoted_by = 4;
  payment_method = some (codes "cash");
  payment_reference = some (codes "R1");
  payment_submitted_at = some 900;
  confirmed_by = some 4;
  confirmed_at = some 950;
}

abbrev with_house : PropertyStatus → World
with_house s = record start {
  session = record start.session {
    properties = record house { status = s } ∷ [];
    charges = paid_charge ∷ [];
    profiles =
        record {
          id = 40;
          user_id = 1;
          business_name = none;
          physical_address = some (codes "Maseru");
          verification_status = VerificationStatus.approved;
          submitted_at = some 1;
          verified_at = some 2;
          rejection_reason = none;
        }
        ∷ [];
  };
}

activate_property-settled_example :
    Ensures
      (activate_property 10 admin (with_house PropertyStatus.approved))
      (λ p w'.
        (p.status ≡ PropertyStatus.active)
        × (find_property 10 w'.committed ≡ some p)
        × (find_property 10 (with_house PropertyStatus.approved).session
            ≡ some (record p { status = PropertyStatus.approved }))
        × ((c : AdvertCharge) × (find_charge 10 (with_house PropertyStatus.approved).session
              ≡ some c)
            × (is_settled c.status ≡ true)))
      (λ w'. w' ≡ with_house PropertyStatus.approved)
activate_property-settled_example =
    activate_property-settled 10 admin (with_house PropertyStatus.approved)

submit_property-verified_example :
    Ensures
      (submit_property 10 landlord (with_house PropertyStatus.draft))
      (λ p w'.
        (p.status ≡ PropertyStatus.pending_verification)
        × (find_property 10 w'.committed ≡ some p)
        × ((row : Property) × IsSubmittable 10 landlord
              (with_house PropertyStatus.draft).session
              row))
      (λ w'. w' ≡ with_house PropertyStatus.draft)
submit_property-verified_example =
    submit_property-verified 10 landlord (with_house PropertyStatus.draft)

abbrev approved_db : Db
approved_db = record start.session {
  properties = record house { status = PropertyStatus.approved } ∷ [];
}

abbrev approved : World
approved = record start { session = approved_db; committed = approved_db }

-- The advert of the house is quoted, paid and confirmed, and the house is published.
abbrev advertising : List Request
advertising =
    Request.side (SideRequest.quote 10 (record { amount = 5000; waive = false; note = none }) admin)
    ∷ Request.side (
        SideRequest.pay_advert 10
          (record { method = PaymentMethod.mobile_money; reference = codes "AD-1" }) landlord)
    ∷ Request.side (SideRequest.confirm_charge 10 none admin)
    ∷ Request.side (SideRequest.publish 10 admin)
    ∷ []

advertising_publishes : find_property 10 (serve_all advertising approved).committed ≡ some house
unfolding serve_all serve answer find run_request activate_property confirm_advert_charge_payment
    submit_advert_charge_payment quote_advert_charge claim_payment_reference claim_normalized first
    record_charge_payment put
advertising_publishes = refl

approved-Advertised : Advertised approved.committed
unfolding find count
approved-Advertised = (λ k p fp active. ground arith, λ k. ground arith)

serve_all-Advertised_example : Advertised (serve_all advertising approved).committed
serve_all-Advertised_example = serve_all-Advertised advertising approved approved-Advertised
