-- ===== src/Listings/Review.antt =====
-- What an administrator decides about a landlord and a property: admin.py.
use rental_property.Base.{ℕ, Bool, ◌||◌, Option, none, some, [], ◌∷◌, if◌then◌else◌}
use rental_property.Text.{Str, codes}
use rental_property.Models.{
  Db, User, Property, PropertyStatus, same_property_status, AdvertCharge, AdvertChargeStatus,
  same_charge_status, LandlordProfile, VerificationStatus, same_verification_status,
  NotificationType, PayloadItem, AuditAction, EntityType, Value, Fields, uuid_value,
  charge_status_value, property_status_text, verification_status_text, find_charge, find_profile,
}
use rental_property.Action.{
  Action, ◌>>=◌, ◌>>◌, pure, get_or_raise, commit, utcnow, raise_unless, landlord_profile_not_found,
  only_pending_landlords, only_pending_properties, approve_before_activation, charge_not_settled,
  property_not_reviewable,
}
use rental_property.Audit.{add_audit_event, detail}
use rental_property.Bookings.{require_roles, notify, admins_only, note_or}
use rental_property.Listings.Owners.{save_property, save_profile, property_or_404}

-- `LandlordVerificationDecision`
pub record LandlordVerificationDecision : Type 0 where
  pub approved : Bool
  pub reason : Option Str

abbrev pub decided_profile : LandlordProfile → LandlordVerificationDecision → ℕ → LandlordProfile
decided_profile profile payload now =
    if payload.approved
    then record profile {
      verification_status = VerificationStatus.approved;
      verified_at = some now;
      rejection_reason = none;
    }
    else record profile {
      verification_status = VerificationStatus.rejected;
      verified_at = none;
      rejection_reason = some (note_or (codes "Verification was not approved") payload.reason);
    }

unfoldable pub apply_landlord_decision :
    LandlordProfile → LandlordVerificationDecision → User → Action LandlordProfile
unfolding save_profile notify add_audit_event
apply_landlord_decision profile payload admin = do
  now ← utcnow
  let profile' = decided_profile profile payload now
  save_profile profile'
  notify profile.user_id
      (if payload.approved
        then NotificationType.landlord_verification_approved
        else NotificationType.landlord_verification_rejected)
      []
  add_audit_event
      (if payload.approved
        then AuditAction.landlord_verification_approved
        else AuditAction.landlord_verification_rejected)
      EntityType.landlord_profile (some profile.id) (some admin)
      (detail "user_id" (uuid_value profile.user_id) (
        detail "from_status" (Value.text (verification_status_text profile.verification_status)) (
          detail "to_status" (Value.text (verification_status_text profile'.verification_status))
            Fields.end)))
  commit
  pure profile'

unfoldable pub decide_landlord_verification :
    ℕ → LandlordVerificationDecision → User → Action LandlordProfile
unfolding require_roles apply_landlord_decision
decide_landlord_verification user_id payload admin = do
  require_roles admins_only admin
  profile ← get_or_raise (find_profile user_id) landlord_profile_not_found
  raise_unless (same_verification_status profile.verification_status VerificationStatus.pending)
      only_pending_landlords
  apply_landlord_decision profile payload admin

-- A property's new status with the notice to its owner and the audit event of the decision.
unfoldable pub move_property :
    Property → PropertyStatus → NotificationType → AuditAction → Fields → User → Action Property
unfolding save_property notify add_audit_event
move_property row status notice action details admin = do
  let row' : Property = record row { status = status }
  save_property row'
  notify row.owner_id notice (PayloadItem.property_id row.id ∷ [])
  add_audit_event action EntityType.property (some row.id) (some admin) (
      detail "from_status" (Value.text (property_status_text row.status))
        (detail "to_status" (Value.text (property_status_text row'.status)) details))
  commit
  pure row'

unfoldable pub approve_property : ℕ → User → Action Property
unfolding require_roles property_or_404 move_property
approve_property property_id admin = do
  require_roles admins_only admin
  row ← property_or_404 property_id
  raise_unless (same_property_status row.status PropertyStatus.pending_verification)
      only_pending_properties
  move_property row PropertyStatus.approved NotificationType.property_approved
      AuditAction.property_approved (detail "owner_id" (uuid_value row.owner_id) Fields.end) admin

abbrev pub is_settled : AdvertChargeStatus → Bool
is_settled s =
    same_charge_status s AdvertChargeStatus.paid || same_charge_status s AdvertChargeStatus.waived

abbrev pub find_settled : ℕ → Db → Option AdvertCharge
find_settled property_id d = elim (find_charge property_id d) [
  | none ↦ none
  | some c ↦ if is_settled c.status then some c else none
]

unfoldable pub activate_property : ℕ → User → Action Property
unfolding require_roles property_or_404 move_property
activate_property property_id admin = do
  require_roles admins_only admin
  row ← property_or_404 property_id
  raise_unless (same_property_status row.status PropertyStatus.approved) approve_before_activation
  charge ← get_or_raise (find_settled property_id) charge_not_settled
  move_property row PropertyStatus.active NotificationType.property_activated
      AuditAction.property_activated
      (detail "advert_charge_status" (charge_status_value charge.status) Fields.end) admin

abbrev pub is_reviewable : PropertyStatus → Bool
is_reviewable s =
    same_property_status s PropertyStatus.pending_verification
    || same_property_status s PropertyStatus.approved

unfoldable pub reject_property : ℕ → User → Action Property
unfolding require_roles property_or_404 move_property
reject_property property_id admin = do
  require_roles admins_only admin
  row ← property_or_404 property_id
  raise_unless (is_reviewable row.status) property_not_reviewable
  move_property row PropertyStatus.rejected NotificationType.property_rejected
      AuditAction.property_rejected (detail "owner_id" (uuid_value row.owner_id) Fields.end) admin
