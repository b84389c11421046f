-- ===== src/Listings/Owners.antt =====
-- What a landlord does: the profile of landlords.py, and the properties and units of properties.py.
use rental_property.Base.{
  ℕ, Bool, false, ◌&&◌, ◌||◌, ◌==◌, Option, none, some, List, [], ◌∷◌, ◌++◌, if◌then◌else◌, put,
  first, count, delete_where, ltb, is_some,
}
use rental_property.Text.{Str, strip}
use rental_property.Models.{
  Db, User, UserRole, same_role, Booking, Tenancy, Property, PropertyStatus, same_property_status,
  RentalUnit, UnitStatus, LandlordProfile, VerificationStatus, same_verification_status,
  property_key, unit_key, profile_key, find_property, find_profile,
}
use rental_property.Action.{
  Action, ⊤, ◌>>=◌, ◌>>◌, pure, gets, get_or_raise, modify, commit, utcnow, uuid4, raise_if,
  raise_unless, property_not_found, property_access_denied, property_not_editable,
  landlord_not_verified, property_without_units, unit_not_found, landlord_profile_not_found,
  profile_under_review, profile_incomplete, verification_already_pending, not_null_violation,
  foreign_key_violation,
}
use rental_property.Payments.{is_missing}
use rental_property.Bookings.{require_roles}
use rental_property.Tenancies.{managers}

abbrev pub landlords_only : List UserRole
landlords_only = UserRole.landlord ∷ []

unfoldable pub save_property : Property → Action ⊤
save_property p = modify λ d. record d { properties = put property_key p.id p d.properties }

unfoldable pub save_profile : LandlordProfile → Action ⊤
save_profile p = modify λ d. record d { profiles = put profile_key p.user_id p d.profiles }

-- `_profile_for_user`
unfoldable pub profile_for_user : ℕ → Action LandlordProfile
profile_for_user user_id = get_or_raise (find_profile user_id) landlord_profile_not_found

-- `LandlordProfileUpdate`
pub record LandlordProfileUpdate : Type 0 where
  pub business_name : Option Str
  pub physical_address : Str

-- `text.strip() if text else None`
abbrev pub stripped : Option Str → Option Str
stripped none = none
stripped (some []) = none
stripped (some (c ∷ s)) = some (strip (c ∷ s))

-- A rejected profile that is edited starts over.
abbrev pub status_after_edit : VerificationStatus → VerificationStatus
status_after_edit s =
    if same_verification_status s VerificationStatus.rejected
    then VerificationStatus.not_submitted
    else s

unfoldable pub update_my_landlord_profile : LandlordProfileUpdate → User → Action LandlordProfile
unfolding require_roles profile_for_user save_profile
update_my_landlord_profile payload user = do
  require_roles landlords_only user
  profile ← profile_for_user user.id
  raise_if (same_verification_status profile.verification_status VerificationStatus.pending)
      profile_under_review
  let profile' : LandlordProfile = record profile {
    business_name = stripped payload.business_name;
    physical_address = some (strip payload.physical_address);
    verification_status = status_after_edit profile.verification_status;
    rejection_reason =
        if same_verification_status profile.verification_status VerificationStatus.rejected
        then none
        else profile.rejection_reason;
  }
  save_profile profile'
  commit
  pure profile'

unfoldable pub submit_landlord_verification : User → Action LandlordProfile
unfolding require_roles profile_for_user save_profile
submit_landlord_verification user = do
  require_roles landlords_only user
  profile ← profile_for_user user.id
  raise_if (is_missing profile.physical_address) profile_incomplete
  if same_verification_status profile.verification_status VerificationStatus.approved
      then pure profile
      else do
        raise_if (same_verification_status profile.verification_status VerificationStatus.pending)
            verification_already_pending
        now ← utcnow
        let profile' : LandlordProfile = record profile {
          verification_status = VerificationStatus.pending;
          submitted_at = some now;
          rejection_reason = none;
        }
        save_profile profile'
        commit
        pure profile'

-- `_property_or_404`
unfoldable pub property_or_404 : ℕ → Action Property
property_or_404 property_id = get_or_raise (find_property property_id) property_not_found

-- `_ensure_owner_or_admin`
abbrev pub owns_or_admin : Property → User → Bool
owns_or_admin p user = p.owner_id == user.id || same_role user.role UserRole.admin

unfoldable pub ensure_owner_or_admin : Property → User → Action ⊤
ensure_owner_or_admin p user = raise_unless (owns_or_admin p user) property_access_denied

-- `_ensure_editable`
abbrev pub is_editable : PropertyStatus → Bool
is_editable s =
    same_property_status s PropertyStatus.draft || same_property_status s PropertyStatus.rejected

unfoldable pub ensure_editable : Property → Action ⊤
ensure_editable p = raise_unless (is_editable p.status) property_not_editable

-- The columns of the payload only describe the property.
unfoldable pub create_property : User → Action Property
unfolding require_roles
create_property user = do
  require_roles landlords_only user
  id ← uuid4
  let row : Property = record { id = id; owner_id = user.id; status = PropertyStatus.draft }
  modify λ d. record d { properties = d.properties ++ row ∷ [] }
  commit
  pure row

-- The guards that the changes of a property's units share.
unfoldable pub editable_property : ℕ → User → Action Property
unfolding require_roles property_or_404 ensure_owner_or_admin ensure_editable
editable_property property_id user = do
  require_roles managers user
  row ← property_or_404 property_id
  ensure_owner_or_admin row user
  ensure_editable row
  pure row

-- `UnitCreate`
pub record UnitCreate : Type 0 where
  pub monthly_rent : ℕ
  pub deposit : ℕ
  pub available_from : Option ℕ

unfoldable pub create_unit : ℕ → UnitCreate → User → Action RentalUnit
unfolding editable_property
create_unit property_id payload user = do
  row ← editable_property property_id user
  id ← uuid4
  let unit : RentalUnit = record {
    id = id;
    property_id = row.id;
    monthly_rent = payload.monthly_rent;
    deposit = payload.deposit;
    status = UnitStatus.available;
    available_from = payload.available_from;
  }
  modify λ d. record d { units = d.units ++ unit ∷ [] }
  commit
  pure unit

-- A field of a PATCH: not sent, sent as null, or sent with a value.
pub data Patch (A : Type 0) : Type 0 where
  unset : Patch A
  null : Patch A
  set : A → Patch A

-- `UnitUpdate`
pub record UnitUpdate : Type 0 where
  pub monthly_rent : Patch ℕ
  pub deposit : Patch ℕ
  pub available_from : Patch ℕ

-- The value of a column that must not be null, or nothing when it is set to null.
abbrev pub patched : {A : Type 0} → Patch A → A → Option A
patched Patch.unset old = some old
patched Patch.null old = none
patched (Patch.set a) old = some a

abbrev pub patched_nullable : {A : Type 0} → Patch A → Option A → Option A
patched_nullable Patch.unset old = old
patched_nullable Patch.null old = none
patched_nullable (Patch.set a) old = some a

abbrev pub is_unit_of : ℕ → ℕ → RentalUnit → Bool
is_unit_of unit_id property_id u = u.id == unit_id && u.property_id == property_id

unfoldable pub update_unit : ℕ → ℕ → UnitUpdate → User → Action RentalUnit
unfolding editable_property
update_unit property_id unit_id payload user = do
  row ← editable_property property_id user
  unit ← get_or_raise (λ d. first (is_unit_of unit_id property_id) d.units) unit_not_found
  rent ← get_or_raise (λ _. patched payload.monthly_rent unit.monthly_rent) not_null_violation
  deposit ← get_or_raise (λ _. patched payload.deposit unit.deposit) not_null_violation
  let unit' : RentalUnit = record unit {
    monthly_rent = rent;
    deposit = deposit;
    available_from = patched_nullable payload.available_from unit.available_from;
  }
  modify λ d. record d { units = put unit_key unit.id unit' d.units }
  commit
  pure unit'

-- The rows that refer to a unit, `ondelete="RESTRICT"`.
abbrev pub is_referred : ℕ → Db → Bool
is_referred unit_id d =
    is_some (first (λ (b : Booking). b.unit_id == unit_id) d.bookings)
    || is_some (first (λ (t : Tenancy). t.unit_id == unit_id) d.tenancies)

unfoldable pub delete_unit : ℕ → ℕ → User → Action ⊤
unfolding editable_property
delete_unit property_id unit_id user = do
  row ← editable_property property_id user
  unit ← get_or_raise (λ d. first (is_unit_of unit_id property_id) d.units) unit_not_found
  referred ← gets (is_referred unit.id)
  raise_if referred foreign_key_violation
  modify λ d. record d { units = delete_where (λ u. u.id == unit.id) d.units }
  commit

abbrev pub is_approved : Option LandlordProfile → Bool
is_approved none = false
is_approved (some p) = same_verification_status p.verification_status VerificationStatus.approved

abbrev pub in_property : ℕ → RentalUnit → Bool
in_property property_id u = u.property_id == property_id

-- The guards of a submission.
unfoldable pub submittable_property : ℕ → User → Action Property
unfolding require_roles property_or_404 ensure_owner_or_admin ensure_editable
submittable_property property_id user = do
  require_roles landlords_only user
  row ← property_or_404 property_id
  ensure_owner_or_admin row user
  ensure_editable row
  profile ← gets (find_profile user.id)
  raise_unless (is_approved profile) landlord_not_verified
  unit_count ← gets (λ d. count (in_property row.id) d.units)
  raise_unless (ltb 0 unit_count) property_without_units
  pure row

unfoldable pub await_verification : Property → Action Property
unfolding save_property
await_verification row = do
  let row' : Property = record row { status = PropertyStatus.pending_verification }
  save_property row'
  commit
  pure row'

unfoldable pub submit_property : ℕ → User → Action Property
unfolding submittable_property
submit_property property_id user = do
  row ← submittable_property property_id user
  await_verification row
