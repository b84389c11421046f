-- ===== src/Tenancies/Shared.antt =====
-- What the tenancy handlers share.
use rental_property.Base.{
  ℕ, Bool, true, false, not, ◌&&◌, ◌||◌, ◌==◌, Option, none, some, List, [], ◌∷◌, if◌then◌else◌,
  ltb, put,
}
use rental_property.Models.{
  User, UserRole, same_role, Property, RentalUnit, Tenancy, TenancyStatus, same_tenancy_status,
  tenancy_key, find_user, find_property, find_unit, find_tenancy,
}
use rental_property.Action.{
  Action, ⊤, ◌>>=◌, pure, get_or_raise, modify, raise_unless, tenancy_records_incomplete,
  tenancy_property_missing, tenancy_unit_missing, tenancy_not_found, tenancy_access_denied,
}

-- `TenancyRead`, without the names
pub record TenancyRead : Type 0 where
  pub id : ℕ
  pub booking_id : ℕ
  pub unit_id : ℕ
  pub property_id : ℕ
  pub tenant_id : ℕ
  pub status : TenancyStatus
  pub start_date : ℕ
  pub expected_move_out : Option ℕ
  pub allow_readvertise : Bool
  pub inspection_completed_at : Option ℕ
  pub created_at : ℕ

-- `_read`
unfoldable pub read_tenancy : Tenancy → Action TenancyRead
read_tenancy tenancy = do
  unit ← get_or_raise (find_unit tenancy.unit_id) tenancy_records_incomplete
  tenant ← get_or_raise (find_user tenancy.tenant_id) tenancy_records_incomplete
  property_row ← get_or_raise (find_property unit.property_id) tenancy_property_missing
  pure (record {
    id = tenancy.id;
    booking_id = tenancy.booking_id;
    unit_id = tenancy.unit_id;
    property_id = property_row.id;
    tenant_id = tenancy.tenant_id;
    status = tenancy.status;
    start_date = tenancy.start_date;
    expected_move_out = tenancy.expected_move_out;
    allow_readvertise = tenancy.allow_readvertise;
    inspection_completed_at = tenancy.inspection_completed_at;
    created_at = tenancy.created_at;
  })

-- `_tenancy_for_update`
unfoldable pub tenancy_for_update : ℕ → Action Tenancy
tenancy_for_update tenancy_id = get_or_raise (find_tenancy tenancy_id) tenancy_not_found

-- `_property_for_tenancy`
unfoldable pub property_for_tenancy : Tenancy → Action (RentalUnit × Property)
property_for_tenancy tenancy = do
  unit ← get_or_raise (find_unit tenancy.unit_id) tenancy_unit_missing
  property_row ← get_or_raise (find_property unit.property_id) tenancy_property_missing
  pure (unit, property_row)

-- `_require_property_access`
abbrev pub has_property_access : Property → User → Bool
has_property_access property_row user =
    same_role user.role UserRole.admin || property_row.owner_id == user.id

unfoldable pub require_property_access : Property → User → Action ⊤
require_property_access property_row user =
    raise_unless (has_property_access property_row user) tenancy_access_denied

unfoldable pub save_tenancy : Tenancy → Action ⊤
save_tenancy t = modify λ d. record d { tenancies = put tenancy_key t.id t d.tenancies }

abbrev pub managers : List UserRole
managers = UserRole.landlord ∷ UserRole.admin ∷ []

-- An active tenancy of the unit, under notice or not.
abbrev pub is_live_of : ℕ → Tenancy → Bool
is_live_of unit_id t =
    t.unit_id == unit_id
    && (same_tenancy_status t.status TenancyStatus.active
        || same_tenancy_status t.status TenancyStatus.notice_given)

abbrev pub is_ended_of : ℕ → Tenancy → Bool
is_ended_of unit_id t = t.unit_id == unit_id && same_tenancy_status t.status TenancyStatus.ended

-- `order_by(ended_at.desc(), created_at.desc())`, where a missing instant comes first: does `t` come
-- strictly before `u`?
abbrev pub after_end : Option ℕ → Option ℕ → Bool
after_end none none = false
after_end none (some _) = true
after_end (some _) none = false
after_end (some a) (some b) = ltb b a

unfoldable pub comes_before : Tenancy → Tenancy → Bool
comes_before t u =
    after_end t.ended_at u.ended_at
    || not (after_end u.ended_at t.ended_at) && ltb u.created_at t.created_at

-- The tenancy of the unit that ended last.
unfoldable pub latest_ended : ℕ → List Tenancy → Option Tenancy
latest_ended unit_id [] = none
latest_ended unit_id (t ∷ ts) =
    let rest = latest_ended unit_id ts in
    if is_ended_of unit_id t
    then elim rest [ none ↦ some t | some u ↦ if comes_before u t then some u else some t ]
    else rest
