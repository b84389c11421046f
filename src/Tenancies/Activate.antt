-- ===== src/Tenancies/Activate.antt =====
-- `activate_tenancy`: a confirmed booking becomes a tenancy.
use rental_property.Base.{
  ℕ, Bool, true, false, not, ◌==◌, Option, none, some, [], ◌∷◌, ◌++◌, ltb, is_some, put, first,
}
use rental_property.Text.{codes}
use rental_property.Models.{
  User, UserRole, Property, RentalUnit, UnitStatus, same_unit_status, Booking, BookingStatus,
  same_booking_status, Tenancy, TenancyStatus, NotificationType, PayloadItem, AuditAction,
  EntityType, Fields, uuid_value, date_value, booking_status_value, unit_status_value, role_value,
  user_key, find_user, find_property, find_unit, find_booking,
}
use rental_property.Action.{
  Action, ⊤, ◌>>=◌, ◌>>◌, pure, gets, get_or_raise, modify, commit, utcnow, today, uuid4, raise_if,
  raise_unless, booking_not_found, only_confirmed_bookings, before_move_in_date,
  booking_unit_not_found, property_not_found, unit_not_booked, previous_tenancy_not_ended,
  previous_inspection_pending, tenant_account_missing,
}
use rental_property.Audit.{add_audit_event, detail}
use rental_property.Bookings.{require_roles, notify, save_booking, save_unit, add_history}
use rental_property.Tenancies.Shared.{
  TenancyRead, read_tenancy, require_property_access, managers, is_live_of, latest_ended,
}

abbrev pub is_tenancy_for : ℕ → Tenancy → Bool
is_tenancy_for booking_id t = t.booking_id == booking_id

-- A previous tenancy that nobody has inspected.
abbrev pub is_uninspected : Option Tenancy → Bool
is_uninspected none = false
is_uninspected (some t) = not (is_some t.inspection_completed_at)

abbrev pub role_after_move_in : UserRole → UserRole
role_after_move_in UserRole.house_seeker = UserRole.tenant
role_after_move_in UserRole.tenant = UserRole.tenant
role_after_move_in UserRole.landlord = UserRole.landlord
role_after_move_in UserRole.admin = UserRole.admin

unfoldable pub save_user : User → Action ⊤
save_user u = modify λ d. record d { users = put user_key u.id u d.users }

-- The tenancy is added, the booking fulfilled, the unit occupied.
unfoldable pub move_in : Booking → RentalUnit → Property → User → User → Action Tenancy
unfolding save_booking save_unit add_history save_user notify add_audit_event
move_in booking unit property_row tenant user = do
  tenancy_id ← uuid4
  now ← utcnow
  let tenancy : Tenancy = record {
    id = tenancy_id;
    booking_id = booking.id;
    unit_id = unit.id;
    tenant_id = tenant.id;
    status = TenancyStatus.active;
    start_date = booking.move_in_date;
    notice_given_at = none;
    expected_move_out = none;
    allow_readvertise = true;
    ended_at = none;
    inspection_completed_at = none;
    created_at = now;
  }
  modify λ d. record d { tenancies = d.tenancies ++ tenancy ∷ [] }
  let booking' : Booking = record booking { status = BookingStatus.fulfilled }
  save_booking booking'
  add_history booking.id (some booking.status) BookingStatus.fulfilled (some user.id)
      (codes "Confirmed booking converted into an active tenancy")
  let unit' : RentalUnit = record unit { status = UnitStatus.occupied }
  save_unit unit'
  let tenant' : User = record tenant { role = role_after_move_in tenant.role }
  save_user tenant'
  notify tenant.id NotificationType.tenancy_activated
      (PayloadItem.tenancy_id tenancy.id ∷ PayloadItem.property_id property_row.id ∷ [])
  add_audit_event AuditAction.tenancy_activated EntityType.tenancy (some tenancy.id) (some user) (
      detail "booking_id" (uuid_value booking.id) (
        detail "property_id" (uuid_value property_row.id) (
          detail "unit_id" (uuid_value unit.id) (
            detail "tenant_id" (uuid_value tenant.id) (
              detail "booking_from_status" (booking_status_value booking.status) (
                detail "booking_to_status" (booking_status_value booking'.status) (
                  detail "unit_from_status" (unit_status_value unit.status) (
                    detail "unit_to_status" (unit_status_value unit'.status) (
                      detail "tenant_from_role" (role_value tenant.role) (
                        detail "tenant_to_role" (role_value tenant'.role)
                          (detail "start_date" (date_value tenancy.start_date) Fields.end)))))))))))
  commit
  pure tenancy

-- The checks of `activate_tenancy` on a booking that has no tenancy yet, in order.
unfoldable pub check_move_in : Booking → User → Action (RentalUnit × Property × User)
unfolding require_property_access latest_ended
check_move_in booking user = do
  raise_unless (same_booking_status booking.status BookingStatus.confirmed) only_confirmed_bookings
  raise_if (ltb (← today) booking.move_in_date) (before_move_in_date booking.move_in_date)
  unit ← get_or_raise (find_unit booking.unit_id) booking_unit_not_found
  property_row ← get_or_raise (find_property unit.property_id) property_not_found
  require_property_access property_row user
  raise_unless (same_unit_status unit.status UnitStatus.booked) unit_not_booked
  live_tenancy ← gets (λ d. first (is_live_of unit.id) d.tenancies)
  raise_if (is_some live_tenancy) previous_tenancy_not_ended
  previous_tenancy ← gets (λ d. latest_ended unit.id d.tenancies)
  raise_if (is_uninspected previous_tenancy) previous_inspection_pending
  tenant ← get_or_raise (find_user booking.seeker_id) tenant_account_missing
  pure (unit, property_row, tenant)

unfoldable pub activate_tenancy : ℕ → User → Action TenancyRead
unfolding require_roles read_tenancy check_move_in move_in
activate_tenancy booking_id user = do
  require_roles managers user
  booking ← get_or_raise (find_booking booking_id) booking_not_found
  existing ← gets (λ d. first (is_tenancy_for booking.id) d.tenancies)
  elim existing [
    | some t ↦ read_tenancy t
    | none ↦ do
      (unit, property_row, tenant) ← check_move_in booking user
      tenancy ← move_in booking unit property_row tenant user
      read_tenancy tenancy
  ]
