-- ===== src/Tenancies/Leave.antt =====
-- `give_notice`, `end_tenancy` and `complete_inspection`.
use rental_property.Base.{
  ℕ, ◌+◌, Bool, ◌||◌, ◌==◌, Option, none, some, [], ◌∷◌, if◌then◌else◌, leb, is_some,
}
use rental_property.Models.{
  User, Property, RentalUnit, UnitStatus, same_unit_status, Tenancy, TenancyStatus,
  same_tenancy_status, NotificationType, PayloadItem, AuditAction, EntityType, Value, Fields,
  uuid_value, date_value, datetime_value, tenancy_status_value, unit_status_value, optional_value,
}
use rental_property.Action.{
  Action, ◌>>=◌, ◌>>◌, pure, commit, utcnow, today, raise_if, raise_unless, skip,
  tenancy_access_denied, notice_already_given, move_out_not_after_today, tenancy_not_ended,
}
use rental_property.Audit.{add_audit_event, detail}
use rental_property.Bookings.{require_roles, notify, save_unit}
use rental_property.Tenancies.Shared.{
  TenancyRead, read_tenancy, tenancy_for_update, property_for_tenancy, require_property_access,
  save_tenancy, managers,
}

-- `TenantNoticeCreate`
pub record TenantNoticeCreate : Type 0 where
  pub expected_move_out : ℕ
  pub allow_readvertise : Bool

unfoldable pub apply_notice :
    Tenancy → RentalUnit → Property → TenantNoticeCreate → User → Action Tenancy
unfolding save_tenancy save_unit notify add_audit_event
apply_notice tenancy unit property_row payload user = do
  now ← utcnow
  let tenancy' : Tenancy = record tenancy {
    status = TenancyStatus.notice_given;
    notice_given_at = some now;
    expected_move_out = some payload.expected_move_out;
    allow_readvertise = payload.allow_readvertise;
  }
  save_tenancy tenancy'
  let unit' : RentalUnit = record unit {
    available_from = some (payload.expected_move_out + 1);
    status =
        if payload.allow_readvertise then UnitStatus.vacating_soon else UnitStatus.notice_given;
  }
  save_unit unit'
  notify property_row.owner_id NotificationType.tenant_notice_given
      (PayloadItem.tenancy_id tenancy.id ∷ PayloadItem.unit_id unit.id ∷ [])
  notify user.id NotificationType.notice_recorded (PayloadItem.tenancy_id tenancy.id ∷ [])
  add_audit_event AuditAction.tenancy_notice_given EntityType.tenancy (some tenancy.id) (some user)
      (detail "property_id" (uuid_value property_row.id) (
        detail "unit_id" (uuid_value unit.id) (
          detail "from_status" (tenancy_status_value tenancy.status) (
            detail "to_status" (tenancy_status_value tenancy'.status) (
              detail "unit_from_status" (unit_status_value unit.status) (
                detail "unit_to_status" (unit_status_value unit'.status) (
                  detail "expected_move_out" (optional_value date_value tenancy'.expected_move_out)
                    (detail "available_from" (optional_value date_value unit'.available_from) (
                      detail "allow_readvertise" (Value.flag tenancy'.allow_readvertise)
                        Fields.end)))))))))
  commit
  pure tenancy'

unfoldable pub give_notice : ℕ → TenantNoticeCreate → User → Action TenancyRead
unfolding tenancy_for_update property_for_tenancy apply_notice read_tenancy
give_notice tenancy_id payload user = do
  tenancy ← tenancy_for_update tenancy_id
  raise_unless (tenancy.tenant_id == user.id) tenancy_access_denied
  raise_unless (same_tenancy_status tenancy.status TenancyStatus.active) notice_already_given
  raise_if (leb payload.expected_move_out (← today)) move_out_not_after_today
  (unit, property_row) ← property_for_tenancy tenancy
  tenancy' ← apply_notice tenancy unit property_row payload user
  read_tenancy tenancy'

-- The unit's status after a move-out: a booking that is under way keeps it.
abbrev pub status_after_end : UnitStatus → UnitStatus
status_after_end s =
    if same_unit_status s UnitStatus.booked || same_unit_status s UnitStatus.booking_pending
    then s
    else UnitStatus.inspection

unfoldable pub apply_end : Tenancy → RentalUnit → Property → User → Action Tenancy
unfolding save_tenancy save_unit notify add_audit_event
apply_end tenancy unit property_row user = do
  now ← utcnow
  let tenancy' : Tenancy = record tenancy {
    status = TenancyStatus.ended;
    ended_at = some now;
    inspection_completed_at = none;
  }
  save_tenancy tenancy'
  let unit' : RentalUnit = record unit { status = status_after_end unit.status }
  save_unit unit'
  notify tenancy.tenant_id NotificationType.tenancy_ended (PayloadItem.tenancy_id tenancy.id ∷ [])
  add_audit_event AuditAction.tenancy_ended EntityType.tenancy (some tenancy.id) (some user) (
      detail "property_id" (uuid_value property_row.id) (
        detail "unit_id" (uuid_value unit.id) (
          detail "tenant_id" (uuid_value tenancy.tenant_id) (
            detail "from_status" (tenancy_status_value tenancy.status) (
              detail "to_status" (tenancy_status_value tenancy'.status) (
                detail "unit_from_status" (unit_status_value unit.status) (
                  detail "unit_to_status" (unit_status_value unit'.status) (
                    detail "ended_at" (optional_value datetime_value tenancy'.ended_at)
                      Fields.end))))))))
  commit
  pure tenancy'

unfoldable pub end_tenancy : ℕ → User → Action TenancyRead
unfolding require_roles tenancy_for_update property_for_tenancy require_property_access apply_end
    read_tenancy
end_tenancy tenancy_id user = do
  require_roles managers user
  tenancy ← tenancy_for_update tenancy_id
  if same_tenancy_status tenancy.status TenancyStatus.ended then read_tenancy tenancy else do
    (unit, property_row) ← property_for_tenancy tenancy
    require_property_access property_row user
    tenancy' ← apply_end tenancy unit property_row user
    read_tenancy tenancy'

-- `inspection_completed_at` is written once.
abbrev pub completed_at : Option ℕ → ℕ → Option ℕ
completed_at none now = some now
completed_at (some at) now = some at

abbrev pub unit_after_inspection : RentalUnit → ℕ → RentalUnit
unit_after_inspection unit date =
    if same_unit_status unit.status UnitStatus.inspection
    then record unit { status = UnitStatus.available; available_from = some date }
    else unit

unfoldable pub apply_inspection : Tenancy → RentalUnit → Property → User → Action Tenancy
unfolding save_tenancy save_unit add_audit_event
apply_inspection tenancy unit property_row user = do
  now ← utcnow
  let tenancy' : Tenancy = record tenancy {
    inspection_completed_at = completed_at tenancy.inspection_completed_at now;
  }
  save_tenancy tenancy'
  date ← today
  let unit' = unit_after_inspection unit date
  save_unit unit'
  if is_some tenancy.inspection_completed_at
      then skip
      else add_audit_event AuditAction.tenancy_inspection_completed EntityType.tenancy
          (some tenancy.id) (some user)
          (detail "property_id" (uuid_value property_row.id) (
            detail "unit_id" (uuid_value unit.id) (
              detail "unit_from_status" (unit_status_value unit.status) (
                detail "unit_to_status" (unit_status_value unit'.status) (
                  detail "inspection_completed_at"
                    (optional_value datetime_value tenancy'.inspection_completed_at)
                    (detail "available_from" (optional_value date_value unit'.available_from)
                      Fields.end))))))
  commit
  pure tenancy'

unfoldable pub complete_inspection : ℕ → User → Action TenancyRead
unfolding require_roles tenancy_for_update property_for_tenancy require_property_access
    apply_inspection read_tenancy
complete_inspection tenancy_id user = do
  require_roles managers user
  tenancy ← tenancy_for_update tenancy_id
  (unit, property_row) ← property_for_tenancy tenancy
  require_property_access property_row user
  raise_unless (same_tenancy_status tenancy.status TenancyStatus.ended) tenancy_not_ended
  tenancy' ← apply_inspection tenancy unit property_row user
  read_tenancy tenancy'
