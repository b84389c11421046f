-- ===== src/Bookings/Shared.antt =====
-- What the booking handlers share: row access, history, notifications, the release of a unit and
-- the reply.
use rental_property.Base.{
  ℕ, Bool, true, false, not, ◌&&◌, ◌||◌, ◌==◌, Option, none, some, List, [], ◌∷◌, ◌++◌, map,
  if◌then◌else◌, is_some, put, first, select,
}
use rental_property.Text.{Str}
use rental_property.Models.{
  User, UserRole, same_role, RentalUnit, UnitStatus, Booking, BookingStatus, PaymentStatus,
  Notification, NotificationType, PayloadItem, Tenancy, TenancyStatus, same_tenancy_status,
  unit_key, booking_key, find_property, find_unit, find_booking, find_payment,
}
use rental_property.Action.{
  Action, ⊤, ◌>>=◌, ◌>>◌, pure, gets, get_or_raise, modify, raise_unless, forbidden_role,
  booking_unit_gone, booking_property_gone, booking_payment_missing, booking_not_found,
}

-- `user.role in roles`
abbrev pub has_role : List UserRole → User → Bool
has_role [] user = false
has_role (r ∷ rs) user = same_role user.role r || has_role rs user

-- `require_roles` of backend/app/api/dependencies.py
unfoldable pub require_roles : List UserRole → User → Action ⊤
require_roles roles user = raise_unless (has_role roles user) forbidden_role

-- `_bookable_status`
unfoldable pub bookable_status : UnitStatus → Bool
bookable_status UnitStatus.available = true
bookable_status UnitStatus.vacating_soon = true
bookable_status _ = false

-- `_notify`
unfoldable pub notify : ℕ → NotificationType → List PayloadItem → Action ⊤
notify user_id notification_type payload = modify λ d. record d {
  notifications =
      d.notifications
      ++ record { user_id = user_id; notification_type = notification_type; payload = payload }
        ∷ [];
}

-- The loop of `_notify` over the active administrators.
abbrev pub is_active_admin : User → Bool
is_active_admin u = same_role u.role UserRole.admin && u.is_active

abbrev pub notice_to : NotificationType → List PayloadItem → User → Notification
notice_to notification_type payload u = record {
  user_id = u.id;
  notification_type = notification_type;
  payload = payload;
}

unfoldable pub notify_admins : NotificationType → List PayloadItem → Action ⊤
notify_admins notification_type payload = modify λ d. record d {
  notifications =
      d.notifications ++ map (notice_to notification_type payload) (select is_active_admin d.users);
}

-- An assignment to columns of a row that the session holds.
unfoldable pub save_booking : Booking → Action ⊤
save_booking b = modify λ d. record d { bookings = put booking_key b.id b d.bookings }

unfoldable pub save_unit : RentalUnit → Action ⊤
save_unit u = modify λ d. record d { units = put unit_key u.id u d.units }

unfoldable pub add_history : ℕ → Option BookingStatus → BookingStatus → Option ℕ → Str → Action ⊤
add_history booking_id from_status to_status actor_id note = modify λ d. record d {
  histories =
      d.histories
      ++ record {
        booking_id = booking_id;
        from_status = from_status;
        to_status = to_status;
        actor_id = actor_id;
        note = note;
      }
        ∷ [];
}

-- `_history`: the status of the booking, and the row that records the change.
unfoldable pub history : Booking → BookingStatus → Option ℕ → Str → Action Booking
unfolding save_booking add_history
history booking to_status actor_id note = do
  let booking' : Booking = record booking { status = to_status }
  save_booking booking'
  add_history booking.id (some booking.status) to_status actor_id note
  pure booking'

abbrev pub is_notice_of : ℕ → Tenancy → Bool
is_notice_of unit_id t =
    t.unit_id == unit_id && same_tenancy_status t.status TenancyStatus.notice_given

-- An ended tenancy of the unit that nobody has inspected.
abbrev pub is_uninspected_of : ℕ → Tenancy → Bool
is_uninspected_of unit_id t =
    t.unit_id == unit_id
    && same_tenancy_status t.status TenancyStatus.ended
    && not (is_some t.inspection_completed_at)

abbrev pub status_under_notice : Tenancy → UnitStatus
status_under_notice notice =
    if notice.allow_readvertise then UnitStatus.vacating_soon else UnitStatus.notice_given

-- `_release_unit_after_failed_booking`
unfoldable pub release_unit_after_failed_booking : RentalUnit → Action RentalUnit
unfolding save_unit
release_unit_after_failed_booking unit = do
  notice ← gets (λ d. first (is_notice_of unit.id) d.tenancies)
  inspection_pending ← gets (λ d. first (is_uninspected_of unit.id) d.tenancies)
  let unit' : RentalUnit = record unit {
    status = elim notice [
      | some n ↦ status_under_notice n
      | none ↦ if is_some inspection_pending then UnitStatus.inspection else UnitStatus.available
    ];
  }
  save_unit unit'
  pure unit'

-- `BookingRead`, without the two titles
pub record BookingRead : Type 0 where
  pub id : ℕ
  pub unit_id : ℕ
  pub property_id : ℕ
  pub seeker_id : ℕ
  pub status : BookingStatus
  pub move_in_date : ℕ
  pub amount_due : ℕ
  pub currency : Str
  pub payment_status : PaymentStatus
  pub payment_method : Option Str
  pub payment_reference : Option Str
  pub payment_due_at : ℕ

-- `_read_booking`
unfoldable pub read_booking : Booking → Action BookingRead
read_booking booking = do
  unit ← get_or_raise (find_unit booking.unit_id) booking_unit_gone
  property_row ← get_or_raise (find_property unit.property_id) booking_property_gone
  payment ← get_or_raise (find_payment booking.id) booking_payment_missing
  pure (record {
    id = booking.id;
    unit_id = booking.unit_id;
    property_id = property_row.id;
    seeker_id = booking.seeker_id;
    status = booking.status;
    move_in_date = booking.move_in_date;
    amount_due = booking.amount_due;
    currency = booking.currency;
    payment_status = payment.status;
    payment_method = payment.method;
    payment_reference = payment.reference;
    payment_due_at = booking.payment_due_at;
  })

-- `_booking_for_update`
unfoldable pub booking_for_update : ℕ → Action Booking
booking_for_update booking_id = get_or_raise (find_booking booking_id) booking_not_found
