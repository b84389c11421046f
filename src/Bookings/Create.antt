-- ===== src/Bookings/Create.antt =====
-- Holding a unit and booking it: `acquire_booking_hold` and `create_booking`.
use rental_property.Base.{
  ℕ, ◌+◌, ◌*◌, ◌≡◌, ◌≢◌, ◌<◌, Bool, true, false, ◌==◌, Option, none, some, List, [], ◌∷◌, ◌++◌,
  if◌then◌else◌, ltb,
}
use rental_property.Text.{codes}
use rental_property.Models.{
  Db, User, UserRole, Property, PropertyStatus, same_property_status, RentalUnit, UnitStatus,
  Booking, BookingStatus, PaymentStatus, NotificationType, PayloadItem, AuditAction, EntityType,
  Value, Fields, uuid_value, decimal_value, date_value, booking_status_value, find_property,
  find_unit,
}
use rental_property.Action.{
  World, Result, ok, err, Action, ⊤, ◌>>=◌, ◌>>◌, pure, get_or_raise, modify, commit, utcnow, today,
  uuid4, raise_if, raise_unless, available_unit_not_found, unit_not_bookable, unit_held,
  move_in_past, hold_required, unit_not_found, property_not_open, unit_no_longer_available,
  only_available_from,
}
use rental_property.Audit.{add_audit_event, detail}
use rental_property.Bookings.Shared.{
  require_roles, bookable_status, notify, save_unit, add_history, BookingRead, read_booking,
}

-- What the program uses of Redis: a key is held for a time, by the value that was set first. The
-- key of a hold is `_hold_key(unit_id)`, here the unit's id, and its value the user's id. The
-- number after them is Redis's own clock, in seconds.
pub record Redis : Type 1 where
  pub Store : Type 0
  -- `GET key`
  pub get : ℕ → ℕ → Store → Option ℕ
  -- `SET key value EX seconds NX`, and whether it was set
  pub set_nx : ℕ → ℕ → ℕ → ℕ → Store → Bool × Store
  -- `DEL key`
  pub delete : ℕ → Store → Store
  pub set_nx-free : (k v ex at : ℕ) (s : Store) → get k at s ≡ none → (set_nx k v ex at s).0 ≡ true
  pub get-set_nx :
      (k v ex at later : ℕ) (s : Store)
      → get k at s ≡ none
      → later < at + ex
      → get k later (set_nx k v ex at s).1 ≡ some v
  pub set_nx-held :
      (k v ex at owner : ℕ) (s : Store) → get k at s ≡ some owner → set_nx k v ex at s ≡ (false, s)
  pub get-set_nx_ne :
      (j k v ex at later : ℕ) (s : Store)
      → j ≢ k
      → get j later (set_nx k v ex at s).1 ≡ get j later s
  pub get-delete : (k at : ℕ) (s : Store) → get k at (delete k s) ≡ none
  pub get-delete_ne : (j k at : ℕ) (s : Store) → j ≢ k → get j at (delete k s) ≡ get j at s

-- `settings.booking_hold_seconds`
abbrev pub booking_hold_seconds : ℕ
booking_hold_seconds = 600

-- A unit of an active property.
abbrev pub find_open_unit : ℕ → Db → Option RentalUnit
find_open_unit unit_id d = elim (find_unit unit_id d) [
  | none ↦ none
  | some u ↦ elim (find_property u.property_id d) [
    | none ↦ none
    | some p ↦ if same_property_status p.status PropertyStatus.active then some u else none
  ]
]

-- `BookingCreate`
pub record BookingCreate : Type 0 where
  pub unit_id : ℕ
  pub move_in_date : ℕ

abbrev pub seekers : List UserRole
seekers = UserRole.house_seeker ∷ UserRole.tenant ∷ []

-- The checks of `acquire_booking_hold`, before Redis is asked.
unfoldable pub check_hold : ℕ → User → Action ⊤
unfolding require_roles bookable_status
check_hold unit_id user = do
  require_roles seekers user
  unit ← get_or_raise (find_open_unit unit_id) available_unit_not_found
  raise_unless (bookable_status unit.status) unit_not_bookable

abbrev pub day_after : Option ℕ → ℕ → Bool
day_after none date = false
day_after (some d) date = ltb date d

abbrev pub only_from : Option ℕ → ℕ
only_from none = 0
only_from (some d) = d

-- 60 minutes, in microseconds
abbrev pub payment_window : ℕ
payment_window = 60 * 60 * 1000000

-- The booking, its first history row, its pending payment and the unit's new status.
unfoldable pub add_booking : RentalUnit → ℕ → ℕ → Action Booking
unfolding add_history save_unit
add_booking unit seeker_id move_in_date = do
  let amount_due = if ltb 0 unit.deposit then unit.deposit else unit.monthly_rent
  now ← utcnow
  booking_id ← uuid4
  let booking : Booking = record {
    id = booking_id;
    unit_id = unit.id;
    seeker_id = seeker_id;
    status = BookingStatus.pending_payment;
    move_in_date = move_in_date;
    amount_due = amount_due;
    currency = codes "LSL";
    payment_due_at = now + payment_window;
    confirmed_at = none;
    cancelled_at = none;
  }
  modify λ d. record d { bookings = d.bookings ++ booking ∷ [] }
  add_history booking_id none BookingStatus.pending_payment (some seeker_id)
      (codes "Booking created after a valid Redis hold")
  payment_id ← uuid4
  modify λ d. record d {
    payments =
        d.payments
        ++ record {
          id = payment_id;
          booking_id = booking_id;
          amount = amount_due;
          currency = codes "LSL";
          status = PaymentStatus.pending;
          method = none;
          reference = none;
          submitted_at = none;
          confirmed_at = none;
          confirmed_by = none;
        }
          ∷ [];
  }
  save_unit (record unit { status = UnitStatus.booking_pending })
  pure booking

-- What `create_booking` does once its checks have passed, up to its commit.
unfoldable pub book_unit : RentalUnit → Property → ℕ → User → Action Booking
unfolding add_booking notify add_audit_event
book_unit unit property_row move_in_date user = do
  booking ← add_booking unit user.id move_in_date
  notify property_row.owner_id NotificationType.booking_started (
      PayloadItem.booking_id booking.id
      ∷ PayloadItem.property_id property_row.id
      ∷ PayloadItem.unit_id unit.id
      ∷ [])
  add_audit_event AuditAction.booking_created EntityType.booking (some booking.id) (some user) (
      detail "property_id" (uuid_value property_row.id) (
        detail "unit_id" (uuid_value unit.id) (
          detail "to_status" (booking_status_value booking.status) (
            detail "amount_due" (decimal_value booking.amount_due) (
              detail "currency" (Value.text booking.currency)
                (detail "move_in_date" (date_value booking.move_in_date) Fields.end))))))
  commit
  pure booking

-- `create_booking` up to its commit; `hold_owner` is what Redis answered.
unfoldable pub create_held_booking : BookingCreate → User → Option ℕ → Action Booking
unfolding require_roles bookable_status book_unit
create_held_booking payload user hold_owner = do
  require_roles seekers user
  raise_if (ltb payload.move_in_date (← today)) move_in_past
  raise_unless (elim hold_owner [ none ↦ false | some owner ↦ owner == user.id ]) hold_required
  unit ← get_or_raise (find_unit payload.unit_id) unit_not_found
  property_row ← get_or_raise (find_property unit.property_id) property_not_open
  raise_unless (same_property_status property_row.status PropertyStatus.active) property_not_open
  raise_unless (bookable_status unit.status) unit_no_longer_available
  raise_if (day_after unit.available_from payload.move_in_date)
      (only_available_from (only_from unit.available_from))
  book_unit unit property_row payload.move_in_date user

-- `BookingHoldRead`
pub record BookingHoldRead : Type 0 where
  pub unit_id : ℕ
  pub acquired : Bool
  pub expires_in_seconds : ℕ

module _ (redis : Redis) where
  open redis use {Store, get, set_nx, delete}

  unfoldable pub acquire_booking_hold :
      ℕ → User → ℕ → Store → World → Result BookingHoldRead × Store × World
  unfolding check_hold
  acquire_booking_hold unit_id user at store w =
      let (checked, w') = check_hold unit_id user w in
      elim checked [
        | err e ↦ (err e, store, w')
        | ok _ ↦
            let (acquired, store') = set_nx unit_id user.id booking_hold_seconds at store in
            if acquired
            then (
              ok (record {
                unit_id = unit_id;
                acquired = true;
                expires_in_seconds = booking_hold_seconds;
              }),
              store',
              w',
            )
            else (err unit_held, store', w')
      ]

  -- The hold goes once the booking is committed, and before the reply is read.
  unfoldable pub reply_created : Result Booking × World → Store → Result BookingRead × Store × World
  unfolding read_booking
  reply_created (err e, w) store = (err e, store, w)
  reply_created (ok booking, w) store =
      let (reply, w') = read_booking booking w in (reply, delete booking.unit_id store, w')

  unfoldable pub create_booking :
      BookingCreate → User → ℕ → Store → World → Result BookingRead × Store × World
  create_booking payload user at store w =
      reply_created (create_held_booking payload user (get payload.unit_id at store) w) store
