-- ===== src/Occupancy/Moving.antt =====
-- The census through the straight-line parts of the handlers of tenancies.py.
use rental_property.Base.{
  ℕ, ◌+◌, ◌≡◌, ◌≢◌, refl, Bool, none, some, arith, one_if, put, count, if◌then◌else◌,
}
use rental_property.Models.{
  User, Property, RentalUnit, UnitStatus, Tenancy, TenancyStatus, same_tenancy_status, unit_key,
  tenancy_key, find_unit, find_tenancy,
}
use rental_property.Action.{World}
use rental_property.Tenancies.{
  TenantNoticeCreate, apply_notice, status_after_end, apply_end, completed_at,
  unit_after_inspection, apply_inspection,
}
use rental_property.Occupancy.Census.{
  Consistent, Fits, waits_for, reserves, occupies, leaves, put_tenancy_and_unit-Consistent,
}
use rental_property.Occupancy.Reviewing.{ConsistentWorld}

-- A tenant without notice lives in an occupied unit.
Fits-notice :
    (s : UnitStatus) (readvertise : Bool) (v r a a' n n' : ℕ)
    → Fits s v r a n
    → a' + 1 ≡ a + 0
    → n' + 0 ≡ n + 1
    → Fits (if readvertise then UnitStatus.vacating_soon else UnitStatus.notice_given) v r a' n'
Fits-notice s readvertise v r a a' n n' h ea en = ground arith

-- A tenancy that has not ended is one of the two kinds.
Fits-end :
    (s : UnitStatus) (x : TenancyStatus) (v r a a' n n' : ℕ)
    → x ≢ TenancyStatus.ended
    → Fits s v r a n
    → a' + one_if (same_tenancy_status x TenancyStatus.active) ≡ a + 0
    → n' + one_if (same_tenancy_status x TenancyStatus.notice_given) ≡ n + 0
    → Fits (status_after_end s) v r a' n'
Fits-end s TenancyStatus.active v r a a' n n' ne h ea en = ground arith
Fits-end s TenancyStatus.notice_given v r a a' n n' ne h ea en = ground arith
Fits-end s TenancyStatus.ended v r a a' n n' ne h ea en = absurd (ne refl)

Fits-inspection :
    (u : RentalUnit) (date v r a a' n n' : ℕ)
    → Fits u.status v r a n
    → a' + 0 ≡ a + 0
    → n' + 0 ≡ n + 0
    → Fits (unit_after_inspection u date).status v r a' n'
Fits-inspection u date v r a a' n n' h ea en = ground arith

module _ (t : Tenancy) (u : RentalUnit) (q : Property) (form : TenantNoticeCreate) (user : User)
    (w : World) where
  abbrev pub noticed_tenancy : Tenancy
  noticed_tenancy = record t {
    status = TenancyStatus.notice_given;
    notice_given_at = some w.now;
    expected_move_out = some form.expected_move_out;
    allow_readvertise = form.allow_readvertise;
  }

  abbrev pub noticed_unit : RentalUnit
  noticed_unit = record u {
    available_from = some (form.expected_move_out + 1);
    status = if form.allow_readvertise then UnitStatus.vacating_soon else UnitStatus.notice_given;
  }

  pub apply_notice-tables :
      let d = (apply_notice t u q form user w).1.session in
      ((apply_notice t u q form user w).1.committed ≡ d)
      × (d.units ≡ put unit_key u.id noticed_unit w.session.units)
      × (d.bookings ≡ w.session.bookings)
      × (d.tenancies ≡ put tenancy_key t.id noticed_tenancy w.session.tenancies)
  unfolding apply_notice
  apply_notice-tables = ground arith

  pub apply_notice-Consistent :
      find_unit t.unit_id w.session ≡ some u
      → find_tenancy t.id w.session ≡ some t
      → t.status ≡ TenancyStatus.active
      → Consistent w.session
      → ConsistentWorld (apply_notice t u q form user w).1
  apply_notice-Consistent fu ft st h =
      let (committed, units, bookings, tenancies) = apply_notice-tables in
      let kept =
        put_tenancy_and_unit-Consistent t noticed_tenancy u noticed_unit w.session
          (apply_notice t u q form user w).1.session fu ft refl refl units bookings tenancies
          (λ a n ea en.
            Fits-notice u.status form.allow_readvertise
              (count (waits_for t.unit_id) w.session.bookings)
              (count (reserves t.unit_id) w.session.bookings)
              (count (occupies t.unit_id) w.session.tenancies) a
              (count (leaves t.unit_id) w.session.tenancies) n (h t.unit_id u fu) (rw st at ea)
              (rw st at en))
          h in
      (kept, rw committed kept)

module _ (t : Tenancy) (u : RentalUnit) (q : Property) (user : User) (w : World) where
  abbrev pub ended_tenancy : Tenancy
  ended_tenancy = record t {
    status = TenancyStatus.ended;
    ended_at = some w.now;
    inspection_completed_at = none;
  }

  pub apply_end-tables :
      let d = (apply_end t u q user w).1.session in
      ((apply_end t u q user w).1.committed ≡ d)
      × (d.units
          ≡ put unit_key u.id (record u { status = status_after_end u.status }) w.session.units)
      × (d.bookings ≡ w.session.bookings)
      × (d.tenancies ≡ put tenancy_key t.id ended_tenancy w.session.tenancies)
  unfolding apply_end
  apply_end-tables = (refl, refl, refl, refl)

  pub apply_end-Consistent :
      find_unit t.unit_id w.session ≡ some u
      → find_tenancy t.id w.session ≡ some t
      → t.status ≢ TenancyStatus.ended
      → Consistent w.session
      → ConsistentWorld (apply_end t u q user w).1
  apply_end-Consistent fu ft st h =
      let (committed, units, bookings, tenancies) = apply_end-tables in
      let kept =
        put_tenancy_and_unit-Consistent t ended_tenancy u
          (record u { status = status_after_end u.status }) w.session
          (apply_end t u q user w).1.session fu ft refl refl units bookings tenancies
          (λ a n ea en.
            Fits-end u.status t.status (count (waits_for t.unit_id) w.session.bookings)
              (count (reserves t.unit_id) w.session.bookings)
              (count (occupies t.unit_id) w.session.tenancies) a
              (count (leaves t.unit_id) w.session.tenancies) n st (h t.unit_id u fu) ea en)
          h in
      (kept, rw committed kept)

  abbrev pub inspected_tenancy : Tenancy
  inspected_tenancy = record t {
    inspection_completed_at = completed_at t.inspection_completed_at w.now;
  }

  pub apply_inspection-tables :
      let d = (apply_inspection t u q user w).1.session in
      ((apply_inspection t u q user w).1.committed ≡ d)
      × (d.units
          ≡ put unit_key
              (unit_after_inspection u w.today).id
              (unit_after_inspection u w.today)
              w.session.units)
      × (d.bookings ≡ w.session.bookings)
      × (d.tenancies ≡ put tenancy_key t.id inspected_tenancy w.session.tenancies)
  unfolding apply_inspection
  apply_inspection-tables = ground arith

  unit_after_inspection-id : (unit_after_inspection u w.today).id ≡ u.id
  unit_after_inspection-id = ground arith

  pub apply_inspection-Consistent :
      find_unit t.unit_id w.session ≡ some u
      → find_tenancy t.id w.session ≡ some t
      → t.status ≡ TenancyStatus.ended
      → Consistent w.session
      → ConsistentWorld (apply_inspection t u q user w).1
  apply_inspection-Consistent fu ft st h =
      let (committed, units, bookings, tenancies) = apply_inspection-tables in
      let kept =
        put_tenancy_and_unit-Consistent t inspected_tenancy u (unit_after_inspection u w.today)
          w.session (apply_inspection t u q user w).1.session fu ft refl unit_after_inspection-id
          (cc (units, unit_after_inspection-id)) bookings tenancies
          (λ a n ea en.
            Fits-inspection u w.today (count (waits_for t.unit_id) w.session.bookings)
              (count (reserves t.unit_id) w.session.bookings)
              (count (occupies t.unit_id) w.session.tenancies) a
              (count (leaves t.unit_id) w.session.tenancies) n (h t.unit_id u fu) (rw st at ea)
              (rw st at en))
          h in
      (kept, rw committed kept)
