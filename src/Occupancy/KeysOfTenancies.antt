-- ===== src/Occupancy/KeysOfTenancies.antt =====
-- The ids of the bookings, through the handlers of tenancies.py.
use rental_property.Base.{ℕ, ◌≡◌, refl, inr, some, arith}
use rental_property.Models.{
  User, Property, RentalUnit, Booking, BookingStatus, Tenancy, find_booking, found_booking,
}
use rental_property.Action.{World}
use rental_property.Tenancies.{
  TenantNoticeCreate, apply_notice, give_notice, give_notice-outcome, apply_end, end_tenancy,
  end_tenancy-outcome, apply_inspection, complete_inspection, complete_inspection-outcome, move_in,
  activate_tenancy, activate_tenancy-outcome,
}
use rental_property.Occupancy.Moving.{
  apply_notice-tables, apply_end-tables, apply_inspection-tables,
}
use rental_property.Occupancy.Activating.{move_in-tables}
use rental_property.Occupancy.Keys.{KeyedWorld, same_bookings-KeyedWorld, put_booking-KeyedWorld}

module _ (w : World) (h : KeyedWorld w) where
  move_in-KeyedWorld :
      (b : Booking) (u : RentalUnit) (q : Property) (tenant user : User)
      → find_booking b.id w.session ≡ some b
      → KeyedWorld (move_in b u q tenant user w).1
  unfolding move_in
  move_in-KeyedWorld b u q tenant user fb =
      let (committed, units, bookings, tenancies) = move_in-tables b u q tenant user w in
      put_booking-KeyedWorld b (record b { status = BookingStatus.fulfilled }) w
        (move_in b u q tenant user w).1 fb refl bookings (inr committed) (omega arith) h

  pub activate_tenancy-KeyedWorld :
      (id : ℕ) (user : User) → KeyedWorld (activate_tenancy id user w).1
  activate_tenancy-KeyedWorld id user =
      activate_tenancy-outcome KeyedWorld id user w h
        λ b u q tenant fb fe sb due fu su fq access fl inspected ft.
          move_in-KeyedWorld b u q tenant user (found_booking id b w.session fb)

  apply_notice-KeyedWorld :
      (t : Tenancy) (u : RentalUnit) (q : Property) (form : TenantNoticeCreate) (user : User)
      → KeyedWorld (apply_notice t u q form user w).1
  unfolding apply_notice
  apply_notice-KeyedWorld t u q form user =
      let (committed, units, bookings, tenancies) = apply_notice-tables t u q form user w in
      same_bookings-KeyedWorld w (apply_notice t u q form user w).1 bookings (inr committed)
        (omega arith) h

  pub give_notice-KeyedWorld :
      (id : ℕ) (form : TenantNoticeCreate) (user : User) → KeyedWorld (give_notice id form user w).1
  give_notice-KeyedWorld id form user =
      give_notice-outcome KeyedWorld id form user w h
        λ t u q ft owner st after fu fq. apply_notice-KeyedWorld t u q form user

  apply_end-KeyedWorld :
      (t : Tenancy) (u : RentalUnit) (q : Property) (user : User)
      → KeyedWorld (apply_end t u q user w).1
  unfolding apply_end
  apply_end-KeyedWorld t u q user =
      let (committed, units, bookings, tenancies) = apply_end-tables t u q user w in
      same_bookings-KeyedWorld w (apply_end t u q user w).1 bookings (inr committed) (omega arith) h

  pub end_tenancy-KeyedWorld : (id : ℕ) (user : User) → KeyedWorld (end_tenancy id user w).1
  end_tenancy-KeyedWorld id user =
      end_tenancy-outcome KeyedWorld id user w h
        λ t u q ft st fu fq access. apply_end-KeyedWorld t u q user

  apply_inspection-KeyedWorld :
      (t : Tenancy) (u : RentalUnit) (q : Property) (user : User)
      → KeyedWorld (apply_inspection t u q user w).1
  unfolding apply_inspection
  apply_inspection-KeyedWorld t u q user =
      let (committed, units, bookings, tenancies) = apply_inspection-tables t u q user w in
      same_bookings-KeyedWorld w (apply_inspection t u q user w).1 bookings (inr committed)
        (ground arith) h

  pub complete_inspection-KeyedWorld :
      (id : ℕ) (user : User) → KeyedWorld (complete_inspection id user w).1
  complete_inspection-KeyedWorld id user =
      complete_inspection-outcome KeyedWorld id user w h
        λ t u q ft st fu fq access. apply_inspection-KeyedWorld t u q user
