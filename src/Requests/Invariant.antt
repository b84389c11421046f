-- ===== src/Requests/Invariant.antt =====
-- Unit statuses and booking ids over any sequence of requests.
use rental_property.Base.{ℕ, ◌+◌, ◌≤◌, ◌≡◌, some, List, [], ◌∷◌, arith, count}
use rental_property.Models.{RentalUnit, UnitStatus, find_unit}
use rental_property.Action.{World, Action, run_request}
use rental_property.Occupancy.{Consistent, Fits, waits_for, reserves, occupies, leaves}
use rental_property.Occupancy.Keys.{
  Keyed, create_held_booking-KeyedWorld, submit_booking_payment-KeyedWorld,
  confirm_booking-KeyedWorld, reject_booking_payment-KeyedWorld, cancel_booking-KeyedWorld,
}
use rental_property.Occupancy.Booking.{
  submit_booking_payment-Consistent, confirm_booking-Consistent, reject_booking_payment-Consistent,
  cancel_booking-Consistent,
}
use rental_property.Occupancy.Creating.{create_held_booking-Consistent}
use rental_property.Occupancy.Activating.{
  activate_tenancy-Consistent, give_notice-Consistent, end_tenancy-Consistent,
  complete_inspection-Consistent,
}
use rental_property.Occupancy.Worker.{Sound, run_maintenance-Sound}
use rental_property.Occupancy.KeysOfTenancies.{
  activate_tenancy-KeyedWorld, give_notice-KeyedWorld, end_tenancy-KeyedWorld,
  complete_inspection-KeyedWorld,
}
use rental_property.Frame.{answer-Closes}
use rental_property.Requests.Lasting.{Sound-Blind}
use rental_property.Requests.Defs.{Request, serve, serve_all}

-- The durable database is sound.
abbrev pub IsSound : World → Type 0
IsSound w = Consistent w.committed × Keyed w.next_uuid w.committed

-- A handler that keeps the invariants keeps them as a request.
run_request-IsSound :
    {A : Type 0} (m : Action A) (w : World)
    → ((v : World) → Sound v → Sound (m v).1)
    → IsSound w
    → IsSound (run_request m w).1
unfolding run_request
run_request-IsSound m w keeps h =
    let kept = keeps (record w { session = w.committed }) ((h.0, h.0), (h.1, h.1)) in
    (kept.0.1, kept.1.1)

pub serve-IsSound : (r : Request) (w : World) → IsSound w → IsSound (serve r w)
unfolding serve
serve-IsSound (Request.create form user owner) w h =
    run_request-IsSound _ w
      (λ v s. (
        create_held_booking-Consistent v s.0 form user owner,
        create_held_booking-KeyedWorld v s.1 form user owner,
      ))
      h
serve-IsSound (Request.submit id form user) w h =
    run_request-IsSound _ w
      (λ v s. (
        submit_booking_payment-Consistent v s.0 id form user,
        submit_booking_payment-KeyedWorld v s.1 id form user,
      ))
      h
serve-IsSound (Request.confirm id text admin) w h =
    run_request-IsSound _ w
      (λ v s. (
        confirm_booking-Consistent v s.0 id text admin,
        confirm_booking-KeyedWorld v s.1 id text admin,
      ))
      h
serve-IsSound (Request.reject id text admin) w h =
    run_request-IsSound _ w
      (λ v s. (
        reject_booking_payment-Consistent v s.0 id text admin,
        reject_booking_payment-KeyedWorld v s.1 id text admin,
      ))
      h
serve-IsSound (Request.cancel id user) w h =
    run_request-IsSound _ w
      (λ v s. (cancel_booking-Consistent v s.0 id user, cancel_booking-KeyedWorld v s.1 id user)) h
serve-IsSound (Request.activate id user) w h =
    run_request-IsSound _ w
      (λ v s.
        (activate_tenancy-Consistent v s.0 id user, activate_tenancy-KeyedWorld v s.1 id user))
      h
serve-IsSound (Request.notice id form user) w h =
    run_request-IsSound _ w
      (λ v s.
        (give_notice-Consistent v s.0 id form user, give_notice-KeyedWorld v s.1 id form user))
      h
serve-IsSound (Request.end id user) w h =
    run_request-IsSound _ w
      (λ v s. (end_tenancy-Consistent v s.0 id user, end_tenancy-KeyedWorld v s.1 id user)) h
serve-IsSound (Request.inspect id user) w h =
    run_request-IsSound _ w
      (λ v s. (
        complete_inspection-Consistent v s.0 id user,
        complete_inspection-KeyedWorld v s.1 id user,
      ))
      h
serve-IsSound (Request.maintain locked hours) w h =
    run_request-IsSound _ w (λ v s. run_maintenance-Sound locked w.now hours v s) h
serve-IsSound (Request.side r) w h =
    let (v, kept, e) = answer-Closes Sound Sound-Blind r w ((h.0, h.0), (h.1, h.1)) in
    rw e (kept.0.1, kept.1.1)
serve-IsSound (Request.wait now today) w h = h

-- Every sequence of requests keeps the status of every unit in step with its bookings and
-- tenancies, and the ids of the bookings unique.
pub serve_all-IsSound : (rs : List Request) (w : World) → IsSound w → IsSound (serve_all rs w)
unfolding serve_all
serve_all-IsSound [] w h = h
serve_all-IsSound (r ∷ rs) w h = serve_all-IsSound rs (serve r w) (serve-IsSound r w h)

Fits-single :
    (s : UnitStatus) (w r a n : ℕ) → Fits s w r a n → (w + r ≤ 1) × (a + n ≤ 1) × (w + r + a ≤ 1)
Fits-single s w r a n h = ground arith

-- After any sequence of requests a unit has at most one booking that is waiting or confirmed, at
-- most one tenancy that has not ended, and no such booking beside a tenancy without notice.
pub no_double_booking :
    (rs : List Request) (w : World) (k : ℕ) (u : RentalUnit)
    → IsSound w
    → find_unit k (serve_all rs w).committed ≡ some u
    → let d = (serve_all rs w).committed in
      (count (waits_for k) d.bookings + count (reserves k) d.bookings ≤ 1)
      × (count (occupies k) d.tenancies + count (leaves k) d.tenancies ≤ 1)
      × (count (waits_for k) d.bookings
            + count (reserves k) d.bookings
            + count (occupies k) d.tenancies
          ≤ 1)
no_double_booking rs w k u h fu =
    let d = (serve_all rs w).committed in
    Fits-single u.status (count (waits_for k) d.bookings) (count (reserves k) d.bookings)
      (count (occupies k) d.tenancies) (count (leaves k) d.tenancies)
      ((serve_all-IsSound rs w h).0 k u fu)
