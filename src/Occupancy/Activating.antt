-- ===== src/Occupancy/Activating.antt =====
-- The census through `activate_tenancy`, and the handlers of tenancies.py.
use rental_property.Base.{
  ℕ, ◌+◌, ◌≡◌, refl, sym, true, none, some, List, [], ◌∷◌, ◌++◌, arith, put, first, count, find-key,
  count-append, ==_ne, ==_refl, first-none,
}
use rental_property.Models.{
  User, Property, RentalUnit, UnitStatus, Booking, BookingStatus, Tenancy, TenancyStatus, unit_key,
  booking_key, find_unit, find_booking, found_booking, found_tenancy,
}
use rental_property.Action.{World}
use rental_property.Tenancies.{
  TenantNoticeCreate, give_notice, give_notice-outcome, end_tenancy, end_tenancy-outcome,
  complete_inspection, complete_inspection-outcome, move_in, activate_tenancy,
  activate_tenancy-outcome, is_live_of,
}
use rental_property.Occupancy.Census.{
  Consistent, Fits, waits_for, reserves, occupies, leaves, write_unit-Consistent,
  put_booking-waits_for, put_booking-reserves,
}
use rental_property.Occupancy.Reviewing.{ConsistentWorld}
use rental_property.Occupancy.Moving.{
  apply_notice-Consistent, apply_end-Consistent, apply_inspection-Consistent,
}

-- A live tenancy is under notice or not.
count-is_live_of :
    (k : ℕ) (ts : List Tenancy)
    → count (is_live_of k) ts ≡ count (occupies k) ts + count (leaves k) ts
unfolding count
count-is_live_of k [] = refl
count-is_live_of k (t ∷ ts) = ground (arith, count-is_live_of k ts)

module _ (b : Booking) (u : RentalUnit) (q : Property) (tenant user : User) (w : World) where
  -- The tenancy that is added.
  abbrev pub new_tenancy : Tenancy
  new_tenancy = record {
    id = w.next_uuid;
    booking_id = b.id;
    unit_id = u.id;
    tenant_id = tenant.id;
    status = TenancyStatus.active;
    start_date = b.move_in_date;
    notice_given_at = none;
    expected_move_out = none;
    allow_readvertise = true;
    ended_at = none;
    inspection_completed_at = none;
    created_at = w.now;
  }

  pub move_in-tables :
      let d = (move_in b u q tenant user w).1.session in
      ((move_in b u q tenant user w).1.committed ≡ d)
      × (d.units ≡ put unit_key u.id (record u { status = UnitStatus.occupied }) w.session.units)
      × (d.bookings
          ≡ put booking_key b.id (record b { status = BookingStatus.fulfilled }) w.session.bookings)
      × (d.tenancies ≡ w.session.tenancies ++ new_tenancy ∷ [])
  unfolding move_in
  move_in-tables = (refl, refl, refl, refl)

  move_in-Consistent :
      find_unit b.unit_id w.session ≡ some u
      → find_booking b.id w.session ≡ some b
      → b.status ≡ BookingStatus.confirmed
      → u.status ≡ UnitStatus.booked
      → first (is_live_of u.id) w.session.tenancies ≡ none
      → Consistent w.session
      → ConsistentWorld (move_in b u q tenant user w).1
  move_in-Consistent fu fb sb su fl h =
      let (committed, units, bookings, tenancies) = move_in-tables in
      let d' = (move_in b u q tenant user w).1.session in
      let k = b.unit_id in
      let ts = w.session.tenancies in
      let b' : Booking = record b { status = BookingStatus.fulfilled } in
      let key : u.id ≡ k = find-key unit_key k u w.session.units fu in
      let waiting = put_booking-waits_for b b' w.session.bookings fb in
      let reserved = put_booking-reserves b b' w.session.bookings fb in
      let active = λ (j : ℕ). count-append (occupies j) new_tenancy ts in
      let leaving = λ (j : ℕ). count-append (leaves j) new_tenancy ts in
      let before : Fits UnitStatus.booked (count (waits_for k) w.session.bookings)
          (count (reserves k) w.session.bookings) (count (occupies k) ts) (count (leaves k) ts) =
        rw su at (h k u fu) in
      let kept : Consistent d' =
        write_unit-Consistent k u (record u { status = UnitStatus.occupied }) w.session d' fu key
          (cc (units, key))
          (λ j other.
            rw (bookings, tenancies)
              (ground (
                arith,
                waiting j,
                reserved j,
                active j,
                leaving j,
                ==_ne k j (λ e. other (sym e)),
                key,
              )))
          (rw (bookings, tenancies)
            (ground (
              arith,
              waiting k,
              reserved k,
              active k,
              leaving k,
              key,
              ==_refl k,
              before,
              sb,
              count-is_live_of u.id ts,
              first-none (is_live_of u.id) ts fl,
            )))
          h in
      (kept, rw committed kept)

module _ (w : World) (h : ConsistentWorld w) where
  pub activate_tenancy-Consistent :
      (id : ℕ) (user : User) → ConsistentWorld (activate_tenancy id user w).1
  activate_tenancy-Consistent id user =
      activate_tenancy-outcome ConsistentWorld id user w h
        λ b u q tenant fb fe sb due fu su fq access fl inspected ft.
          move_in-Consistent b u q tenant user w fu (found_booking id b w.session fb) sb su fl h.0

  pub give_notice-Consistent :
      (id : ℕ) (form : TenantNoticeCreate) (user : User)
      → ConsistentWorld (give_notice id form user w).1
  give_notice-Consistent id form user =
      give_notice-outcome ConsistentWorld id form user w h λ t u q ft owner st after fu fq.
        apply_notice-Consistent t u q form user w fu (found_tenancy id t w.session ft) st h.0

  pub end_tenancy-Consistent : (id : ℕ) (user : User) → ConsistentWorld (end_tenancy id user w).1
  end_tenancy-Consistent id user =
      end_tenancy-outcome ConsistentWorld id user w h λ t u q ft st fu fq access.
        apply_end-Consistent t u q user w fu (found_tenancy id t w.session ft) st h.0

  pub complete_inspection-Consistent :
      (id : ℕ) (user : User) → ConsistentWorld (complete_inspection id user w).1
  complete_inspection-Consistent id user =
      complete_inspection-outcome ConsistentWorld id user w h λ t u q ft st fu fq access.
        apply_inspection-Consistent t u q user w fu (found_tenancy id t w.session ft) st h.0
