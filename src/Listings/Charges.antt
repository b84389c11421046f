-- ===== src/Listings/Charges.antt =====
-- The landlord pays for the advert: advertising.py.
use rental_property.Base.{ℕ, Bool, ◌||◌, Option, none, some, [], ◌∷◌, if◌then◌else◌, ltb}
use rental_property.Text.{Str}
use rental_property.Models.{
  Db, User, Property, AdvertCharge, AdvertChargeStatus, same_charge_status, SourceType,
  NotificationType, PayloadItem, AuditAction, EntityType, Value, Fields, decimal_value,
  charge_status_value, find_property, find_charge,
}
use rental_property.Action.{
  Action, ◌>>=◌, ◌>>◌, pure, get_or_raise, commit, utcnow, raise_unless, property_not_found,
  charge_not_quoted, charge_not_awaiting_reference, charge_needs_no_payment,
}
use rental_property.Audit.{add_audit_event, detail}
use rental_property.Payments.{normalize_payment_reference, claim_payment_reference, update_charge}
use rental_property.Bookings.{require_roles, notify_admins, PaymentMethod, method_text}
use rental_property.Tenancies.{managers}
use rental_property.Listings.Owners.{landlords_only, owns_or_admin}

-- `_owned_property`: a property that is another's is not found.
abbrev pub find_owned : ℕ → User → Db → Option Property
find_owned property_id user d = elim (find_property property_id d) [
  | none ↦ none
  | some p ↦ if owns_or_admin p user then some p else none
]

unfoldable pub owned_property : ℕ → User → Action Property
owned_property property_id user = get_or_raise (find_owned property_id user) property_not_found

unfoldable pub get_advert_charge : ℕ → User → Action AdvertCharge
unfolding require_roles owned_property
get_advert_charge property_id user = do
  require_roles managers user
  row ← owned_property property_id user
  get_or_raise (find_charge property_id) charge_not_quoted

-- `AdvertChargePaymentSubmit`
pub record AdvertChargePaymentSubmit : Type 0 where
  pub method : PaymentMethod
  pub reference : Str

-- A charge that awaits a payment reference.
abbrev pub is_payable : AdvertChargeStatus → Bool
is_payable s =
    same_charge_status s AdvertChargeStatus.quoted
    || same_charge_status s AdvertChargeStatus.payment_rejected

-- What a submission does once its reference is claimed.
unfoldable pub record_charge_payment :
    Property → AdvertCharge → Str → Str → User → Action AdvertCharge
unfolding update_charge notify_admins add_audit_event
record_charge_payment property_row charge method reference user = do
  now ← utcnow
  let charge' : AdvertCharge = record charge {
    payment_method = some method;
    payment_reference = some reference;
    payment_submitted_at = some now;
    status = AdvertChargeStatus.payment_submitted;
  }
  update_charge charge charge'
  notify_admins NotificationType.advert_charge_payment_review
      (PayloadItem.property_id property_row.id ∷ PayloadItem.advert_charge_id charge.id ∷ [])
  add_audit_event AuditAction.advert_charge_payment_submitted EntityType.property
      (some property_row.id) (some user)
      (detail "from_status" (charge_status_value charge.status) (
        detail "to_status" (charge_status_value charge'.status) (
          detail "amount" (decimal_value charge.amount) (
            detail "currency" (Value.text charge.currency)
              (detail "payment_method" (Value.text method) Fields.end)))))
  commit
  pure charge'

unfoldable pub claim_charge_payment :
    Property → AdvertCharge → Str → Str → User → Action AdvertCharge
claim_charge_payment property_row charge method reference user = do
  claim ← claim_payment_reference method reference SourceType.advert_charge charge.id
  record_charge_payment property_row charge method reference user

unfoldable pub submit_advert_charge_payment :
    ℕ → AdvertChargePaymentSubmit → User → Action AdvertCharge
unfolding require_roles owned_property claim_charge_payment
submit_advert_charge_payment property_id payload user = do
  require_roles landlords_only user
  property_row ← owned_property property_id user
  charge ← get_or_raise (find_charge property_id) charge_not_quoted
  raise_unless (is_payable charge.status) charge_not_awaiting_reference
  raise_unless (ltb 0 charge.amount) charge_needs_no_payment
  claim_charge_payment property_row charge (method_text payload.method)
      (normalize_payment_reference payload.reference) user
