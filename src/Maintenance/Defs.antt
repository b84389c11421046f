-- ===== src/Maintenance/Defs.antt =====
-- The operations of maintenance.py.
use rental_property.Base.{
  ℕ, ◌+◌, ◌*◌, Bool, false, not, ◌&&◌, Option, none, some, List, [], ◌∷◌, if◌then◌else◌, is_some,
  ltb, leb, put, first, select,
}
use rental_property.Text.{codes}
use rental_property.Models.{
  Db, Property, RentalUnit, UnitStatus, same_unit_status, Booking, BookingStatus,
  same_booking_status, BookingPayment, PaymentStatus, same_payment_status, NotificationType,
  PayloadItem, Tenancy, ViewingRequest, ViewingStatus, same_viewing_status, AuditAction, EntityType,
  Value, Fields, uuid_value, booking_status_value, payment_status_value, unit_status_value,
  optional_value, find_property, find_unit, find_payment,
}
use rental_property.Action.{Action, ◌>>=◌, ◌>>◌, pure, gets, modify, commit, skip}
use rental_property.Audit.{add_audit_event, detail}
use rental_property.Payments.{update_payment}
use rental_property.Bookings.{
  notify, save_booking, save_unit, add_history, is_notice_of, is_uninspected_of,
}

-- `MaintenanceResult`
pub record MaintenanceResult : Type 0 where
  pub expired_bookings : ℕ
  pub viewing_reminders : ℕ

unfoldable pub unit_status_after_booking_release : Option Tenancy → Bool → UnitStatus
unit_status_after_booking_release (some notice) inspection_pending =
    if notice.allow_readvertise then UnitStatus.vacating_soon else UnitStatus.notice_given
unit_status_after_booking_release none inspection_pending =
    if inspection_pending then UnitStatus.inspection else UnitStatus.available

-- `_active_notice`
abbrev pub active_notice : ℕ → Db → Option Tenancy
active_notice unit_id d = first (is_notice_of unit_id) d.tenancies

-- `_inspection_pending`
abbrev pub inspection_pending : ℕ → Db → Bool
inspection_pending unit_id d = is_some (first (is_uninspected_of unit_id) d.tenancies)

-- A stable insertion sort: `order_by`.
module _ {R : Type 0} (key : R → ℕ) where
  unfoldable pub insert_by : R → List R → List R
  insert_by r [] = r ∷ []
  insert_by r (x ∷ xs) =
      let later = insert_by r xs in if leb (key r) (key x) then r ∷ x ∷ xs else x ∷ later

  unfoldable pub sort_by : List R → List R
  unfolding insert_by
  sort_by [] = []
  sort_by (r ∷ rs) = insert_by r (sort_by rs)

abbrev pub is_stale : ℕ → Booking → Bool
is_stale now b =
    same_booking_status b.status BookingStatus.pending_payment && leb b.payment_due_at now

abbrev pub payment_due : Booking → ℕ
payment_due b = b.payment_due_at

-- The bookings to expire, the earliest deadline first. `locked` are the rows that another
-- transaction holds, which `skip_locked` leaves out.
unfoldable pub stale_bookings : (ℕ → Bool) → ℕ → Db → List Booking
unfolding sort_by
stale_bookings locked now d =
    sort_by payment_due (select (λ b. is_stale now b && not (locked b.id)) d.bookings)

unfoldable pub expire_payment : Option BookingPayment → Action (Option BookingPayment)
unfolding update_payment
expire_payment none = pure none
expire_payment (some payment) =
    if same_payment_status payment.status PaymentStatus.pending
    then (do
      let payment' : BookingPayment = record payment { status = PaymentStatus.expired }
      update_payment payment payment'
      pure (some payment'))
    else pure (some payment)

-- The unit goes back only if it waits for this kind of booking.
unfoldable pub release_expired : RentalUnit → Action RentalUnit
unfolding save_unit unit_status_after_booking_release
release_expired unit =
    if same_unit_status unit.status UnitStatus.booking_pending
    then (do
      notice ← gets (active_notice unit.id)
      pending ← gets (inspection_pending unit.id)
      let unit' : RentalUnit = record unit {
        status =
            unit_status_after_booking_release notice (if is_some notice then false else pending);
      }
      save_unit unit'
      pure unit')
    else pure unit

-- The body of the loop of `expire_stale_bookings`: how many it expired, 0 or 1.
unfoldable pub expire_booking : Booking → Action ℕ
unfolding expire_payment release_expired save_booking add_history notify add_audit_event
expire_booking booking = do
  found ← gets (find_unit booking.unit_id)
  elim found [
    | none ↦ pure 0
    | some unit ↦ do
      payment ← gets (find_payment booking.id)
      let booking' : Booking = record booking { status = BookingStatus.expired }
      save_booking booking'
      payment' ← expire_payment payment
      add_history booking.id (some booking.status) BookingStatus.expired none
          (codes "Payment deadline expired automatically")
      unit' ← release_expired unit
      property_row ← gets (find_property unit.property_id)
      notify booking.seeker_id NotificationType.booking_expired
          (PayloadItem.booking_id booking.id ∷ PayloadItem.unit_id unit.id ∷ [])
      elim property_row [
        | none ↦ skip
        | some p ↦ notify p.owner_id NotificationType.booking_released (
            PayloadItem.booking_id booking.id
            ∷ PayloadItem.unit_id unit.id
            ∷ PayloadItem.property_id p.id
            ∷ [])
      ]
      add_audit_event AuditAction.booking_expired EntityType.booking (some booking.id) none (
          detail "property_id" (optional_value (λ (p : Property). uuid_value p.id) property_row) (
            detail "unit_id" (uuid_value unit.id) (
              detail "from_status" (booking_status_value booking.status) (
                detail "to_status" (booking_status_value booking'.status) (
                  detail "from_payment_status"
                    (optional_value (λ (p : BookingPayment). payment_status_value p.status) payment)
                    (detail "to_payment_status"
                      (optional_value (λ (p : BookingPayment). payment_status_value p.status)
                        payment')
                      (detail "unit_from_status" (unit_status_value unit.status) (
                        detail "unit_to_status" (unit_status_value unit'.status) (
                          detail "reason" (Value.text (codes "payment_deadline_expired"))
                            Fields.end)))))))))
      pure 1
  ]

unfoldable pub expire_all : List Booking → Action ℕ
unfolding expire_booking
expire_all [] = pure 0
expire_all (b ∷ bs) = do expired ← expire_booking b; more ← expire_all bs; pure (expired + more)

unfoldable pub expire_stale_bookings : (ℕ → Bool) → ℕ → Action ℕ
unfolding stale_bookings expire_all
expire_stale_bookings locked now = do expire_all (← gets (stale_bookings locked now))

-- 60 * 60 seconds, in microseconds
abbrev pub hour : ℕ
hour = 60 * 60 * 1000000

abbrev pub within : Option ℕ → ℕ → ℕ → Bool
within none from to = false
within (some t) from to = ltb from t && leb t to

abbrev pub needs_reminder : ℕ → ℕ → ViewingRequest → Bool
needs_reminder now deadline v =
    same_viewing_status v.status ViewingStatus.accepted
    && within v.scheduled_at now deadline
    && not (is_some v.reminder_sent_at)

abbrev pub viewing_key : ViewingRequest → ℕ
viewing_key v = v.id

abbrev pub scheduled : ViewingRequest → ℕ
scheduled v = elim v.scheduled_at [ none ↦ 0 | some t ↦ t ]

-- The body of the loop of `send_upcoming_viewing_reminders`.
unfoldable pub remind : ℕ → ViewingRequest → Action ℕ
unfolding notify
remind now viewing = do
  property_row ← gets (find_property viewing.property_id)
  elim property_row [
    | none ↦ pure 0
    | some p ↦ if not (is_some viewing.scheduled_at) then pure 0 else do
      notify viewing.requester_id NotificationType.viewing_reminder
          (PayloadItem.viewing_id viewing.id ∷ PayloadItem.property_id p.id ∷ [])
      notify p.owner_id NotificationType.viewing_reminder
          (PayloadItem.viewing_id viewing.id ∷ PayloadItem.property_id p.id ∷ [])
      modify λ d. record d {
        viewings =
            put viewing_key viewing.id (record viewing { reminder_sent_at = some now }) d.viewings;
      }
      pure 1
  ]

unfoldable pub remind_all : ℕ → List ViewingRequest → Action ℕ
unfolding remind
remind_all now [] = pure 0
remind_all now (v ∷ vs) = do sent ← remind now v; more ← remind_all now vs; pure (sent + more)

unfoldable pub send_upcoming_viewing_reminders : (ℕ → Bool) → ℕ → ℕ → Action ℕ
unfolding sort_by remind_all
send_upcoming_viewing_reminders locked now reminder_hours = do
  let deadline = now + reminder_hours * hour
  rows ← gets λ d.
      sort_by scheduled
        (select (λ v. needs_reminder now deadline v && not (locked v.id)) d.viewings)
  remind_all now rows

unfoldable pub run_maintenance : (ℕ → Bool) → ℕ → ℕ → Action MaintenanceResult
unfolding expire_stale_bookings send_upcoming_viewing_reminders
run_maintenance locked now viewing_reminder_hours = do
  expired ← expire_stale_bookings locked now
  reminders ← send_upcoming_viewing_reminders locked now viewing_reminder_hours
  commit
  pure (record { expired_bookings = expired; viewing_reminders = reminders })
