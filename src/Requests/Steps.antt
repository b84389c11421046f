-- ===== src/Requests/Steps.antt =====
-- The interface between a rule on the rows of the database and the requests: what the straight-line
-- parts of the handlers have to keep.
use rental_property.Base.{ℕ, ◌≡◌, Option, List}
use rental_property.Text.{Str}
use rental_property.Models.{
  Db, User, Property, RentalUnit, Booking, BookingPayment, Tenancy, ViewingRequest,
  PaymentReferenceClaim, SourceType,
}
use rental_property.Action.{World, Action, Keeps, run_request, ok}
use rental_property.Payments.{claim_payment_reference, with_claims}
use rental_property.Bookings.{
  book_unit, start_review, apply_cancellation, apply_confirmation, apply_rejection,
}
use rental_property.Tenancies.{
  TenantNoticeCreate, move_in, apply_notice, apply_end, apply_inspection,
}
use rental_property.Maintenance.{expire_booking, remind}
use rental_property.Frame.{SideRequest, answer}

-- The rule on both sides of a session.
abbrev pub Both : (Db → Type 0) → World → Type 0
Both I w = I w.session × I w.committed

pub run_request-Both :
    {A : Type 0} (I : Db → Type 0) (m : Action A) (w : World)
    → Keeps (Both I) m
    → I w.committed
    → I (run_request m w).1.committed
unfolding run_request
run_request-Both I m w keeps h = (keeps (record w { session = w.committed }) (h, h)).1

pub record Steps (I : Db → Type 0) : Type 0 where
  pub created :
      (u : RentalUnit) (q : Property) (date : ℕ) (user : User) (w : World)
      → Both I w
      → Both I (book_unit u q date user w).1
  -- The reference has just been claimed.
  pub reviewed :
      (b : Booking) (p : BookingPayment) (m r : Str) (user : User) (w : World)
      (c : PaymentReferenceClaim) (cs : List PaymentReferenceClaim)
      → claim_payment_reference m r SourceType.booking b.id w ≡ (ok c, with_claims cs w)
      → Both I w
      → Both I (start_review b p m r user (with_claims cs w)).1
  pub cancelled :
      (b : Booking) (user : User) (w : World) → Both I w → Both I (apply_cancellation b user w).1
  pub confirmed :
      (b : Booking) (p : BookingPayment) (u : RentalUnit) (q : Property) (text : Option Str)
      (admin : User) (w : World)
      → Both I w
      → Both I (apply_confirmation b p u q text admin w).1
  pub rejected :
      (b : Booking) (p : BookingPayment) (u : RentalUnit) (text : Option Str) (admin : User)
      (w : World)
      → Both I w
      → Both I (apply_rejection b p u text admin w).1
  pub moved_in :
      (b : Booking) (u : RentalUnit) (q : Property) (tenant user : User) (w : World)
      → Both I w
      → Both I (move_in b u q tenant user w).1
  pub noticed :
      (t : Tenancy) (u : RentalUnit) (q : Property) (form : TenantNoticeCreate) (user : User)
      (w : World)
      → Both I w
      → Both I (apply_notice t u q form user w).1
  pub ended :
      (t : Tenancy) (u : RentalUnit) (q : Property) (user : User) (w : World)
      → Both I w
      → Both I (apply_end t u q user w).1
  pub inspected :
      (t : Tenancy) (u : RentalUnit) (q : Property) (user : User) (w : World)
      → Both I w
      → Both I (apply_inspection t u q user w).1
  pub expired : (b : Booking) (w : World) → Both I w → Both I (expire_booking b w).1
  pub reminded : (now : ℕ) (v : ViewingRequest) (w : World) → Both I w → Both I (remind now v w).1
  pub answered : (r : SideRequest) (w : World) → I w.committed → I (answer r w).committed
