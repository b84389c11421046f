-- ===== src/Occupancy/Keys.antt =====
-- The ids of the bookings, through the handlers of bookings.py and the worker.
use rental_property.Base.{
  ℕ, ◌+◌, ◌≤◌, ◌≡◌, refl, ◌⊎◌, inl, inr, [], ◌∷◌, ◌++◌, arith, one_if, ltb, put, count, count-put,
  count-append, Option, some,
}
use rental_property.Text.{Str}
use rental_property.Models.{
  Db, User, Property, RentalUnit, Booking, BookingStatus, BookingPayment, booking_key, find_booking,
  found_booking,
}
use rental_property.Action.{World}
use rental_property.Payments.{with_claims, normalize_payment_reference}
use rental_property.Bookings.{
  BookingCreate, BookingPaymentSubmit, method_text, book_unit, create_held_booking,
  create_held_booking-outcome, start_review, claim_and_review-outcome, submit_booking_payment,
  submit_booking_payment-outcome, apply_cancellation, cancel_booking, cancel_booking-outcome,
  apply_confirmation, confirm_booking, confirm_booking-outcome, apply_rejection,
  reject_booking_payment, reject_booking_payment-outcome,
}
use rental_property.Maintenance.{has_id, UniqueIds}
use rental_property.Occupancy.Reviewing.{apply_confirmation-tables, apply_rejection-tables}
use rental_property.Occupancy.Booking.{
  cancelled_booking, apply_cancellation-tables, start_review-tables,
}
use rental_property.Occupancy.Creating.{new_booking, book_unit-tables}

-- At most one row for each id, and none for an id that is still to come.
abbrev pub Keyed : ℕ → Db → Type 0
Keyed n d = (k : ℕ) → count (has_id k) d.bookings ≤ one_if (ltb k n)

pub Keyed-UniqueIds : (n : ℕ) (d : Db) → Keyed n d → UniqueIds d
Keyed-UniqueIds n d h k = ground (arith, h k)

abbrev pub KeyedWorld : World → Type 0
KeyedWorld w = Keyed w.next_uuid w.session × Keyed w.next_uuid w.committed

-- A world in which some ids more have been given out, and its bookings are those of `w`.
pub same_bookings-KeyedWorld :
    (w w' : World)
    → w'.session.bookings ≡ w.session.bookings
    → (w'.committed ≡ w.committed) ⊎ (w'.committed ≡ w'.session)
    → w.next_uuid ≤ w'.next_uuid
    → KeyedWorld w
    → KeyedWorld w'
same_bookings-KeyedWorld w w' bookings committed more h =
    let kept : Keyed w'.next_uuid w'.session = λ k. rw bookings (ground (arith, h.0 k)) in
    (kept, elim committed [ inl e ↦ rw e (λ k. ground (arith, h.1 k)) | inr e ↦ rw e kept ])

-- One booking is written back under its id.
pub put_booking-KeyedWorld :
    (b b' : Booking) (w w' : World)
    → find_booking b.id w.session ≡ some b
    → b'.id ≡ b.id
    → w'.session.bookings ≡ put booking_key b.id b' w.session.bookings
    → (w'.committed ≡ w.committed) ⊎ (w'.committed ≡ w'.session)
    → w.next_uuid ≤ w'.next_uuid
    → KeyedWorld w
    → KeyedWorld w'
put_booking-KeyedWorld b b' w w' fb id bookings committed more h =
    let kept : Keyed w'.next_uuid w'.session = λ k.
      rw bookings
        (ground (arith, h.0 k, count-put booking_key (has_id k) b.id b' b w.session.bookings fb)) in
    (kept, elim committed [ inl e ↦ rw e (λ k. ground (arith, h.1 k)) | inr e ↦ rw e kept ])

-- One booking is added under the next id.
pub append_booking-KeyedWorld :
    (b : Booking) (w w' : World)
    → b.id ≡ w.next_uuid
    → w'.session.bookings ≡ w.session.bookings ++ b ∷ []
    → w'.committed ≡ w'.session
    → w.next_uuid + 1 ≤ w'.next_uuid
    → KeyedWorld w
    → KeyedWorld w'
append_booking-KeyedWorld b w w' id bookings committed more h =
    let kept : Keyed w'.next_uuid w'.session =
      λ k. rw bookings (ground (arith, h.0 k, count-append (has_id k) b w.session.bookings)) in
    (kept, rw committed kept)

module _ (w : World) (h : KeyedWorld w) where
  book_unit-KeyedWorld :
      (u : RentalUnit) (q : Property) (date : ℕ) (user : User)
      → KeyedWorld (book_unit u q date user w).1
  unfolding book_unit
  book_unit-KeyedWorld u q date user =
      let (committed, units, bookings, tenancies) = book_unit-tables u q date user w in
      append_booking-KeyedWorld (new_booking u q date user w) w (book_unit u q date user w).1 refl
        bookings committed (omega arith) h

  pub create_held_booking-KeyedWorld :
      (form : BookingCreate) (user : User) (owner : Option ℕ)
      → KeyedWorld (create_held_booking form user owner w).1
  create_held_booking-KeyedWorld form user owner =
      create_held_booking-outcome KeyedWorld form user owner w h
        λ u q eo fu su fq sq in_time free. book_unit-KeyedWorld u q form.move_in_date user

  apply_confirmation-KeyedWorld :
      (b : Booking) (p : BookingPayment) (u : RentalUnit) (q : Property) (text : Option Str)
      (admin : User)
      → find_booking b.id w.session ≡ some b
      → KeyedWorld (apply_confirmation b p u q text admin w).1
  unfolding apply_confirmation
  apply_confirmation-KeyedWorld b p u q text admin fb =
      let (committed, units, bookings, tenancies) =
        apply_confirmation-tables b p u q text admin w in
      put_booking-KeyedWorld b _ w (apply_confirmation b p u q text admin w).1 fb refl bookings
        (inr committed) (ground arith) h

  pub confirm_booking-KeyedWorld :
      (id : ℕ) (text : Option Str) (admin : User) → KeyedWorld (confirm_booking id text admin w).1
  confirm_booking-KeyedWorld id text admin =
      confirm_booking-outcome KeyedWorld id text admin w h λ b p u q fb sb fp sp fu su fq role.
        apply_confirmation-KeyedWorld b p u q text admin (found_booking id b w.session fb)

  apply_rejection-KeyedWorld :
      (b : Booking) (p : BookingPayment) (u : RentalUnit) (text : Option Str) (admin : User)
      → find_booking b.id w.session ≡ some b
      → KeyedWorld (apply_rejection b p u text admin w).1
  unfolding apply_rejection
  apply_rejection-KeyedWorld b p u text admin fb =
      let (committed, units, bookings, tenancies) = apply_rejection-tables b p u text admin w in
      put_booking-KeyedWorld b (record b { status = BookingStatus.rejected }) w
        (apply_rejection b p u text admin w).1 fb refl bookings (inr committed) (ground arith) h

  pub reject_booking_payment-KeyedWorld :
      (id : ℕ) (text : Option Str) (admin : User)
      → KeyedWorld (reject_booking_payment id text admin w).1
  reject_booking_payment-KeyedWorld id text admin =
      reject_booking_payment-outcome KeyedWorld id text admin w h λ b p u fb sb fp fu role.
        apply_rejection-KeyedWorld b p u text admin (found_booking id b w.session fb)

  apply_cancellation-KeyedWorld :
      (b : Booking) (user : User)
      → find_booking b.id w.session ≡ some b
      → KeyedWorld (apply_cancellation b user w).1
  unfolding apply_cancellation
  apply_cancellation-KeyedWorld b user fb =
      let (committed, bookings, tenancies) = apply_cancellation-tables b user w in
      put_booking-KeyedWorld b (cancelled_booking b user w) w (apply_cancellation b user w).1 fb
        refl bookings (inr committed) (ground arith) h

  pub cancel_booking-KeyedWorld : (id : ℕ) (user : User) → KeyedWorld (cancel_booking id user w).1
  cancel_booking-KeyedWorld id user =
      cancel_booking-outcome KeyedWorld id user w h
        λ b fb owner sb. apply_cancellation-KeyedWorld b user (found_booking id b w.session fb)

start_review-KeyedWorld :
    (b : Booking) (p : BookingPayment) (m r : Str) (user : User) (w : World)
    → KeyedWorld w
    → find_booking b.id w.session ≡ some b
    → KeyedWorld (start_review b p m r user w).1
unfolding start_review
start_review-KeyedWorld b p m r user w h fb =
    let (committed, units, bookings, tenancies) = start_review-tables b p m r user w in
    put_booking-KeyedWorld b (record b { status = BookingStatus.payment_review }) w
      (start_review b p m r user w).1 fb refl bookings (inr committed) (ground arith) h

pub submit_booking_payment-KeyedWorld :
    (w : World)
    → KeyedWorld w
    → (id : ℕ) (form : BookingPaymentSubmit) (user : User)
    → KeyedWorld (submit_booking_payment id form user w).1
submit_booking_payment-KeyedWorld w h id form user =
    submit_booking_payment-outcome KeyedWorld id form user w h λ b p fb owner sb due fp.
      claim_and_review-outcome KeyedWorld b p (method_text form.method)
        (normalize_payment_reference form.reference) user w
        ((λ k. ground (arith, h.0 k)), λ k. ground (arith, h.1 k))
        λ c cs e.
          start_review-KeyedWorld b p _ _ user (with_claims cs w)
            ((λ k. ground (arith, h.0 k)), λ k. ground (arith, h.1 k))
            (found_booking id b w.session fb)
