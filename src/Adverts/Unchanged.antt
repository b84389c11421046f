-- ===== src/Adverts/Unchanged.antt =====
-- Properties and charges through the handlers of bookings and tenancies, and the worker's steps.
use rental_property.Base.{ℕ, Option, ◌≡◌, ◌⊎◌, refl, inl, inr, arith}
use rental_property.Models.{
  User, Property, RentalUnit, Booking, BookingPayment, Tenancy, ViewingRequest,
}
use rental_property.Text.{Str}
use rental_property.Action.{World}
use rental_property.Bookings.{
  book_unit, start_review, apply_cancellation, apply_confirmation, apply_rejection,
}
use rental_property.Tenancies.{
  TenantNoticeCreate, move_in, apply_notice, apply_end, apply_inspection,
}
use rental_property.Maintenance.{expire_booking, remind}
use rental_property.Adverts.Writes.{AdvertisedWorld, same-Advertised, committed-AdvertisedWorld}

-- A step that writes neither table.
abbrev pub SameListings : World → World → Type 0
SameListings w w' =
    (w'.session.properties ≡ w.session.properties)
    × (w'.session.charges ≡ w.session.charges)
    × ((w'.committed ≡ w.committed) ⊎ (w'.committed ≡ w'.session))

pub SameListings-Advertised :
    (w w' : World) → SameListings w w' → AdvertisedWorld w → AdvertisedWorld w'
SameListings-Advertised w w' (properties, charges, committed) h =
    committed-AdvertisedWorld w w' committed
      (same-Advertised w.session w'.session properties charges h.0) h

pub apply_confirmation-SameListings :
    (b : Booking) (p : BookingPayment) (u : RentalUnit) (q : Property) (text : Option Str)
    (admin : User) (w : World)
    → SameListings w (apply_confirmation b p u q text admin w).1
unfolding apply_confirmation
apply_confirmation-SameListings b p u q text admin w =
    (ground arith, ground arith, inr (ground arith))

pub apply_rejection-SameListings :
    (b : Booking) (p : BookingPayment) (u : RentalUnit) (text : Option Str) (admin : User)
    (w : World)
    → SameListings w (apply_rejection b p u text admin w).1
unfolding apply_rejection
apply_rejection-SameListings b p u text admin w = (ground arith, ground arith, inr (ground arith))

pub book_unit-SameListings :
    (u : RentalUnit) (q : Property) (date : ℕ) (user : User) (w : World)
    → SameListings w (book_unit u q date user w).1
unfolding book_unit
book_unit-SameListings u q date user w = (refl, refl, inr refl)

pub start_review-SameListings :
    (b : Booking) (p : BookingPayment) (m r : Str) (user : User) (w : World)
    → SameListings w (start_review b p m r user w).1
unfolding start_review
start_review-SameListings b p m r user w = (refl, refl, inr refl)

pub apply_cancellation-SameListings :
    (b : Booking) (user : User) (w : World) → SameListings w (apply_cancellation b user w).1
unfolding apply_cancellation
apply_cancellation-SameListings b user w = (ground arith, ground arith, inr (ground arith))

pub move_in-SameListings :
    (b : Booking) (u : RentalUnit) (q : Property) (tenant user : User) (w : World)
    → SameListings w (move_in b u q tenant user w).1
unfolding move_in
move_in-SameListings b u q tenant user w = (refl, refl, inr refl)

pub apply_notice-SameListings :
    (t : Tenancy) (u : RentalUnit) (q : Property) (form : TenantNoticeCreate) (user : User)
    (w : World)
    → SameListings w (apply_notice t u q form user w).1
unfolding apply_notice
apply_notice-SameListings t u q form user w = (refl, refl, inr refl)

pub apply_end-SameListings :
    (t : Tenancy) (u : RentalUnit) (q : Property) (user : User) (w : World)
    → SameListings w (apply_end t u q user w).1
unfolding apply_end
apply_end-SameListings t u q user w = (refl, refl, inr refl)

pub apply_inspection-SameListings :
    (t : Tenancy) (u : RentalUnit) (q : Property) (user : User) (w : World)
    → SameListings w (apply_inspection t u q user w).1
unfolding apply_inspection
apply_inspection-SameListings t u q user w = (ground arith, ground arith, inr (ground arith))

pub expire_booking-SameListings : (b : Booking) (w : World) → SameListings w (expire_booking b w).1
unfolding expire_booking
expire_booking-SameListings b w = (ground arith, ground arith, inl (ground arith))

pub remind-SameListings :
    (now : ℕ) (v : ViewingRequest) (w : World) → SameListings w (remind now v w).1
unfolding remind
remind-SameListings now v w = (ground arith, ground arith, inl (ground arith))
