-- ===== src/Bookings/Holds.antt =====
-- `acquire_booking_hold` and `create_booking` of bookings.py, for a unit that another user holds.
use rental_property.Base.{
  ℕ, ◌+◌, ◌<◌, ◌≡◌, ◌∙◌, ◌≢◌, refl, true, ==_ne, none, some, arith, by_option, ltb, if◌then◌else◌,
}
use rental_property.Models.{User}
use rental_property.Action.{
  World, ok, err, Error, unit_held, forbidden_role, move_in_past, hold_required,
}
use rental_property.Bookings.Shared.{has_role}
use rental_property.Bookings.Create.{
  Redis, BookingCreate, BookingHoldRead, booking_hold_seconds, seekers, check_hold,
  acquire_booking_hold, create_held_booking, create_booking, reply_created,
}

-- Without the hold the creation is refused, before anything is written.
create_held_booking-not_held :
    (form : BookingCreate) (user : User) (owner : ℕ) (w : World)
    → owner ≢ user.id
    → (e : Error) × (create_held_booking form user (some owner) w ≡ (err e, w))
unfolding create_held_booking
create_held_booking-not_held form user owner w other = (
  if has_role seekers user
      then (if ltb form.move_in_date w.today then move_in_past else hold_required)
      else forbidden_role,
  ground (arith, ==_ne owner user.id other),
)

check_hold-world : (unit_id : ℕ) (user : User) (w : World) → (check_hold unit_id user w).1 ≡ w
unfolding check_hold
check_hold-world unit_id user w = ground arith

module _ (redis : Redis) where
  open redis use {Store, get, set_nx, set_nx-free, get-set_nx, set_nx-held}

  -- What a hold that was acquired says of the store before and after it.
  acquire_booking_hold-ok :
      (unit_id at : ℕ) (user : User) (s s' : Store) (w w' : World) (h : BookingHoldRead)
      → acquire_booking_hold redis unit_id user at s w ≡ (ok h, s', w')
      → ((set_nx unit_id user.id booking_hold_seconds at s).0 ≡ true)
        × (s' ≡ (set_nx unit_id user.id booking_hold_seconds at s).1)
  unfolding acquire_booking_hold
  acquire_booking_hold-ok unit_id at user s s' w w' h e = ground arith

  acquire_booking_hold-held :
      (unit_id at owner : ℕ) (user : User) (s : Store) (w : World)
      → get unit_id at s ≡ some owner
      → (e : Error) × (acquire_booking_hold redis unit_id user at s w ≡ (err e, s, w))
  unfolding acquire_booking_hold
  acquire_booking_hold-held unit_id at owner user s w h = (
    elim (check_hold unit_id user w).0 [ err e ↦ e | ok _ ↦ unit_held ],
    ground (
      arith,
      check_hold-world unit_id user w,
      set_nx-held unit_id user.id booking_hold_seconds at owner s h,
    ),
  )

  -- Once a user has acquired the hold of a unit, every other user is refused the hold and the booking
  -- of the unit, and the store and the world stay as they were: at any time before the hold ends and
  -- in any store that still answers for the unit as the acquisition left it, whatever became of the
  -- other units' holds.
  pub acquire_booking_hold-exclusive :
      (at later : ℕ) (user rival : User) (form : BookingCreate) (s s' t : Store) (w w' v : World)
      (h : BookingHoldRead)
      → acquire_booking_hold redis form.unit_id user at s w ≡ (ok h, s', w')
      → later < at + booking_hold_seconds
      → get form.unit_id later t ≡ get form.unit_id later s'
      → user.id ≢ rival.id
      → ((e : Error) × (acquire_booking_hold redis form.unit_id rival later t v ≡ (err e, t, v)))
        × ((e : Error) × (create_booking redis form rival later t v ≡ (err e, t, v)))
  unfolding create_booking reply_created
  acquire_booking_hold-exclusive at later user rival form s s' t w w' v h e time same other =
      let (acquired, store) = acquire_booking_hold-ok form.unit_id at user s s' w w' h e in
      let free : get form.unit_id at s ≡ none =
        by_option (get form.unit_id at s) (λ n. n)
          (λ o held. absurd (
            ground (
              arith,
              acquired,
              set_nx-held form.unit_id user.id booking_hold_seconds at o s held,
            ))) in
      let kept : get form.unit_id later s' ≡ some user.id =
        rw store (get-set_nx form.unit_id user.id booking_hold_seconds at later s free time) in
      let held : get form.unit_id later t ≡ some user.id = same ∙ kept in
      let (refusal, refused) = create_held_booking-not_held form rival user.id v other in
      (
        acquire_booking_hold-held form.unit_id later user.id rival t v held,
        (refusal, rw (held, refused) refl),
      )
