-- ===== src/Accounting/Unchanged.antt =====
-- The ledger and the claims through the handlers that post nothing and claim nothing.
use rental_property.Base.{ℕ, refl, inl, inr, arith}
use rental_property.Models.{
  User, Property, RentalUnit, Booking, BookingPayment, Tenancy, ViewingRequest,
}
use rental_property.Text.{Str}
use rental_property.Action.{World}
use rental_property.Bookings.{book_unit, start_review, apply_cancellation}
use rental_property.Tenancies.{
  TenantNoticeCreate, move_in, apply_notice, apply_end, apply_inspection,
}
use rental_property.Maintenance.{expire_booking, remind}
use rental_property.Accounting.Books.{SameBooks}

pub book_unit-SameBooks :
    (u : RentalUnit) (q : Property) (date : ℕ) (user : User) (w : World)
    → SameBooks w (book_unit u q date user w).1
unfolding book_unit
book_unit-SameBooks u q date user w = (refl, refl, inl refl)

pub start_review-SameBooks :
    (b : Booking) (p : BookingPayment) (m r : Str) (user : User) (w : World)
    → SameBooks w (start_review b p m r user w).1
unfolding start_review
start_review-SameBooks b p m r user w = (refl, refl, inl refl)

pub apply_cancellation-SameBooks :
    (b : Booking) (user : User) (w : World) → SameBooks w (apply_cancellation b user w).1
unfolding apply_cancellation
apply_cancellation-SameBooks b user w = (ground arith, ground arith, inl (ground arith))

pub move_in-SameBooks :
    (b : Booking) (u : RentalUnit) (q : Property) (tenant user : User) (w : World)
    → SameBooks w (move_in b u q tenant user w).1
unfolding move_in
move_in-SameBooks b u q tenant user w = (refl, refl, inl refl)

pub apply_notice-SameBooks :
    (t : Tenancy) (u : RentalUnit) (q : Property) (form : TenantNoticeCreate) (user : User)
    (w : World)
    → SameBooks w (apply_notice t u q form user w).1
unfolding apply_notice
apply_notice-SameBooks t u q form user w = (refl, refl, inl refl)

pub apply_end-SameBooks :
    (t : Tenancy) (u : RentalUnit) (q : Property) (user : User) (w : World)
    → SameBooks w (apply_end t u q user w).1
unfolding apply_end
apply_end-SameBooks t u q user w = (refl, refl, inl refl)

pub apply_inspection-SameBooks :
    (t : Tenancy) (u : RentalUnit) (q : Property) (user : User) (w : World)
    → SameBooks w (apply_inspection t u q user w).1
unfolding apply_inspection
apply_inspection-SameBooks t u q user w = (ground arith, ground arith, inl (ground arith))

pub expire_booking-SameBooks : (b : Booking) (w : World) → SameBooks w (expire_booking b w).1
unfolding expire_booking
expire_booking-SameBooks b w = (ground arith, ground arith, inr (ground arith))

pub remind-SameBooks : (now : ℕ) (v : ViewingRequest) (w : World) → SameBooks w (remind now v w).1
unfolding remind
remind-SameBooks now v w = (ground arith, ground arith, inr (ground arith))
