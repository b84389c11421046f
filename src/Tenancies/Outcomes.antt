-- ===== src/Tenancies/Outcomes.antt =====
-- Every handler of tenancies.py on every branch, for any predicate `P` of the final world.
use rental_property.Base.{ℕ, ◌≤◌, ◌<◌, ◌≡◌, ◌≢◌, true, false, none, some, arith, by_option, first}
use rental_property.Models.{
  User, Property, RentalUnit, UnitStatus, Booking, BookingStatus, Tenancy, TenancyStatus, find_user,
  find_property, find_unit, find_booking, find_tenancy,
}
use rental_property.Action.{World, Result, ok, err, Action, ◌>>=◌}
use rental_property.Tenancies.Shared.{read_tenancy, has_property_access, is_live_of, latest_ended}
use rental_property.Tenancies.Activate.{is_tenancy_for, is_uninspected, move_in, activate_tenancy}
use rental_property.Tenancies.Leave.{
  TenantNoticeCreate, apply_notice, give_notice, apply_end, end_tenancy, apply_inspection,
  complete_inspection,
}

pub read_tenancy-world : (t : Tenancy) (w : World) → (read_tenancy t w).1 ≡ w
unfolding read_tenancy
read_tenancy-world t w = ground arith

module _ (P : World → Type 0) where
  after_read_tenancy : (m : Action Tenancy) (w : World) → P (m w).1 → P ((m >>= read_tenancy) w).1
  after_read_tenancy m w h = go (m w) h
    where
      go : (x : Result Tenancy × World) → P x.1 → P (((λ _. x) >>= read_tenancy) w).1
      go (ok t, w') h' = rw (read_tenancy-world t w') h'
      go (err e, w') h' = h'

  pub give_notice-outcome :
      (id : ℕ) (form : TenantNoticeCreate) (user : User) (w : World)
      → P w
      → ((t : Tenancy) (u : RentalUnit) (q : Property)
          → find_tenancy id w.session ≡ some t
          → t.tenant_id ≡ user.id
          → t.status ≡ TenancyStatus.active
          → w.today < form.expected_move_out
          → find_unit t.unit_id w.session ≡ some u
          → find_property u.property_id w.session ≡ some q
          → P (apply_notice t u q form user w).1)
      → P (give_notice id form user w).1
  unfolding give_notice
  give_notice-outcome id form user w same done =
      by_option (find_tenancy id w.session) (λ e. ground arith)
        λ t ft.
          by_option (find_unit t.unit_id w.session) (λ e. ground arith)
            λ u fu.
              by_option (find_property u.property_id w.session) (λ e. ground arith)
                λ q fq.
                  ground (arith, done t u q ft, after_read_tenancy (apply_notice t u q form user) w)

  pub end_tenancy-outcome :
      (id : ℕ) (user : User) (w : World)
      → P w
      → ((t : Tenancy) (u : RentalUnit) (q : Property)
          → find_tenancy id w.session ≡ some t
          → t.status ≢ TenancyStatus.ended
          → find_unit t.unit_id w.session ≡ some u
          → find_property u.property_id w.session ≡ some q
          → has_property_access q user ≡ true
          → P (apply_end t u q user w).1)
      → P (end_tenancy id user w).1
  unfolding end_tenancy
  end_tenancy-outcome id user w same done =
      by_option (find_tenancy id w.session) (λ e. ground arith)
        λ t ft.
          by_option (find_unit t.unit_id w.session) (λ e. ground (arith, read_tenancy-world t w))
            λ u fu.
              by_option (find_property u.property_id w.session)
                (λ e. ground (arith, read_tenancy-world t w))
                λ q fq. ground (
                  arith,
                  done t u q ft,
                  read_tenancy-world t w,
                  after_read_tenancy (apply_end t u q user) w,
                )

  pub complete_inspection-outcome :
      (id : ℕ) (user : User) (w : World)
      → P w
      → ((t : Tenancy) (u : RentalUnit) (q : Property)
          → find_tenancy id w.session ≡ some t
          → t.status ≡ TenancyStatus.ended
          → find_unit t.unit_id w.session ≡ some u
          → find_property u.property_id w.session ≡ some q
          → has_property_access q user ≡ true
          → P (apply_inspection t u q user w).1)
      → P (complete_inspection id user w).1
  unfolding complete_inspection
  complete_inspection-outcome id user w same done =
      by_option (find_tenancy id w.session) (λ e. ground arith)
        λ t ft.
          by_option (find_unit t.unit_id w.session) (λ e. ground arith)
            λ u fu.
              by_option (find_property u.property_id w.session) (λ e. ground arith)
                λ q fq.
                  ground (arith, done t u q ft, after_read_tenancy (apply_inspection t u q user) w)

  pub activate_tenancy-outcome :
      (id : ℕ) (user : User) (w : World)
      → P w
      → ((b : Booking) (u : RentalUnit) (q : Property) (tenant : User)
          → find_booking id w.session ≡ some b
          → first (is_tenancy_for b.id) w.session.tenancies ≡ none
          → b.status ≡ BookingStatus.confirmed
          → b.move_in_date ≤ w.today
          → find_unit b.unit_id w.session ≡ some u
          → u.status ≡ UnitStatus.booked
          → find_property u.property_id w.session ≡ some q
          → has_property_access q user ≡ true
          → first (is_live_of u.id) w.session.tenancies ≡ none
          → is_uninspected (latest_ended u.id w.session.tenancies) ≡ false
          → find_user b.seeker_id w.session ≡ some tenant
          → P (move_in b u q tenant user w).1)
      → P (activate_tenancy id user w).1
  unfolding activate_tenancy
  activate_tenancy-outcome id user w same done =
      by_option (find_booking id w.session) (λ e. ground arith)
        λ b fb.
          by_option (first (is_tenancy_for b.id) w.session.tenancies)
            (λ fe.
              by_option (find_unit b.unit_id w.session) (λ e. ground arith)
                λ u fu.
                  by_option (find_property u.property_id w.session) (λ e. ground arith)
                    λ q fq.
                      by_option (first (is_live_of u.id) w.session.tenancies)
                        (λ fl.
                          by_option (find_user b.seeker_id w.session) (λ e. ground arith)
                            λ tenant ft. ground (
                              arith,
                              done b u q tenant fb,
                              after_read_tenancy (move_in b u q tenant user) w,
                            ))
                        (λ t e. ground arith))
            (λ t e. ground (arith, read_tenancy-world t w))
