-- ===== src/Bookings/Atomic.antt =====
-- `confirm_booking` of bookings.py: its result together with what it commits.
use mathlib.Core.Path.{subst}
use rental_property.Base.{
  ℕ, ◌≡◌, refl, Option, some, arith, by_option, find-put_self, find-key, find, put, sym, ◌∙◌,
}
use rental_property.Text.{Str}
use rental_property.Models.{
  User, Property, RentalUnit, UnitStatus, Booking, BookingStatus, BookingPayment, PaymentStatus,
  find_property, find_unit, find_booking, find_payment, unit_key, booking_key, payment_key,
}
use rental_property.Action.{
  World, Result, ok, err, Error, Ensures, ◌>>=◌, bind-ok, forbidden_role, booking_not_found,
  not_awaiting_confirmation, submitted_payment_required, unit_booking_state_invalid,
  property_not_found,
}
use rental_property.Bookings.Shared.{BookingRead, read_booking}
use rental_property.Bookings.Review.{apply_confirmation, confirm_booking}

-- What a confirmation has committed.
abbrev pub IsConfirmed : ℕ → User → World → World → Type 0
IsConfirmed id admin w w' =
    (b : Booking) × (p : BookingPayment) × (u : RentalUnit) × (find_booking id w.session ≡ some b)
    × (find_payment b.id w.session ≡ some p)
    × (find_unit b.unit_id w.session ≡ some u)
    × (b.status ≡ BookingStatus.payment_review)
    × (p.status ≡ PaymentStatus.submitted)
    × (u.status ≡ UnitStatus.booking_pending)
    × (find_booking id w'.committed
        ≡ some (record b { status = BookingStatus.confirmed; confirmed_at = some w.now }))
    × (find_payment b.id w'.committed
        ≡ some (record p {
          status = PaymentStatus.confirmed;
          confirmed_at = some w.now;
          confirmed_by = some admin.id;
        }))
    × (find_unit b.unit_id w'.committed ≡ some (record u { status = UnitStatus.booked }))

read_booking-returns :
    (b : Booking) (u : RentalUnit) (q : Property) (p : BookingPayment) (w : World)
    → find_unit b.unit_id w.session ≡ some u
    → find_property u.property_id w.session ≡ some q
    → find_payment b.id w.session ≡ some p
    → (reply : BookingRead) × (read_booking b w ≡ (ok reply, w)) × (reply.status ≡ b.status)
unfolding read_booking
read_booking-returns b u q p w fu fq fp = (
  record {
    id = b.id;
    unit_id = b.unit_id;
    property_id = q.id;
    seeker_id = b.seeker_id;
    status = b.status;
    move_in_date = b.move_in_date;
    amount_due = b.amount_due;
    currency = b.currency;
    payment_status = p.status;
    payment_method = p.method;
    payment_reference = p.reference;
    payment_due_at = b.payment_due_at;
  },
  ground arith,
  refl,
)

module _ (id : ℕ) (b : Booking) (p : BookingPayment) (u : RentalUnit) (q : Property)
    (text : Option Str) (admin : User) (w : World) (fb : find_booking id w.session ≡ some b)
    (fp : find_payment b.id w.session ≡ some p) (fu : find_unit b.unit_id w.session ≡ some u) where
  abbrev confirmed_booking : Booking
  confirmed_booking = record b { status = BookingStatus.confirmed; confirmed_at = some w.now }

  abbrev confirmed_payment : BookingPayment
  confirmed_payment = record p {
    status = PaymentStatus.confirmed;
    confirmed_at = some w.now;
    confirmed_by = some admin.id;
  }

  apply_confirmation-returns : (apply_confirmation b p u q text admin w).0 ≡ ok confirmed_booking
  unfolding apply_confirmation
  apply_confirmation-returns = ground arith

  apply_confirmation-rows :
      let w' = (apply_confirmation b p u q text admin w).1 in
      (w'.session.units
        ≡ put unit_key u.id (record u { status = UnitStatus.booked }) w.session.units)
      × (w'.session.bookings ≡ put booking_key b.id confirmed_booking w.session.bookings)
      × (w'.session.payments ≡ put payment_key p.booking_id confirmed_payment w.session.payments)
      × (w'.session.properties ≡ w.session.properties)
      × (w'.committed ≡ w'.session)
  unfolding apply_confirmation
  apply_confirmation-rows = ground arith

  apply_confirmation-found :
      let d = (apply_confirmation b p u q text admin w).1.session in
      (find_booking id d ≡ some confirmed_booking)
      × (find_payment b.id d ≡ some confirmed_payment)
      × (find_unit b.unit_id d ≡ some (record u { status = UnitStatus.booked }))
  apply_confirmation-found =
      let (units, bookings, payments, properties, committed) = apply_confirmation-rows in
      let kb : b.id ≡ id = find-key booking_key id b w.session.bookings fb in
      let kp : p.booking_id ≡ b.id = find-key payment_key b.id p w.session.payments fp in
      let ku : u.id ≡ b.unit_id = find-key unit_key b.unit_id u w.session.units fu in
      let fb' : find booking_key b.id w.session.bookings ≡ some b = cc in
      let fp' : find payment_key p.booking_id w.session.payments ≡ some p = cc in
      let fu' : find unit_key u.id w.session.units ≡ some u = cc in
      (
        cc (find-put_self booking_key b.id confirmed_booking b w.session.bookings refl fb'),
        cc (find-put_self payment_key p.booking_id confirmed_payment p w.session.payments refl fp'),
        cc (
            find-put_self unit_key u.id (record u { status = UnitStatus.booked }) u w.session.units
              refl fu'),
      )

  apply_confirmation-reply :
      find_property u.property_id w.session ≡ some q
      → (reply : BookingRead) × ((apply_confirmation b p u q text admin >>= read_booking) w
          ≡ (ok reply, (apply_confirmation b p u q text admin w).1))
        × (reply.status ≡ BookingStatus.confirmed)
  apply_confirmation-reply fq =
      let w' = (apply_confirmation b p u q text admin w).1 in
      let (units, bookings, payments, properties, committed) = apply_confirmation-rows in
      let (found_b, found_p, found_u) = apply_confirmation-found in
      let found_q : find_property u.property_id w'.session ≡ some q = rw properties fq in
      let (reply, read, status) =
        read_booking-returns confirmed_booking (record u { status = UnitStatus.booked }) q
          confirmed_payment w' found_u found_q found_p in
      (
        reply,
        bind-ok (apply_confirmation b p u q text admin) read_booking w confirmed_booking
              apply_confirmation-returns
            ∙ read,
        status,
      )

-- Every branch of a confirmation, its result included.
confirm_booking-result :
    (Q : Result BookingRead × World → Type 0) (id : ℕ) (text : Option Str) (admin : User)
    (w : World)
    → ((e : Error) → Q (err e, w))
    → ((b : Booking) (p : BookingPayment) (u : RentalUnit) (q : Property)
        → find_booking id w.session ≡ some b
        → b.status ≡ BookingStatus.payment_review
        → find_payment b.id w.session ≡ some p
        → p.status ≡ PaymentStatus.submitted
        → find_unit b.unit_id w.session ≡ some u
        → u.status ≡ UnitStatus.booking_pending
        → find_property u.property_id w.session ≡ some q
        → Q ((apply_confirmation b p u q text admin >>= read_booking) w))
    → Q (confirm_booking id text admin w)
unfolding confirm_booking
confirm_booking-result Q id text admin w refused done =
    by_option (find_booking id w.session)
      (λ e. ground (
        arith,
        refused forbidden_role,
        refused booking_not_found,
        refused not_awaiting_confirmation,
        refused submitted_payment_required,
        refused unit_booking_state_invalid,
        refused property_not_found,
      ))
      λ b fb.
        by_option (find_payment b.id w.session)
          (λ e. ground (
            arith,
            refused forbidden_role,
            refused booking_not_found,
            refused not_awaiting_confirmation,
            refused submitted_payment_required,
            refused unit_booking_state_invalid,
            refused property_not_found,
          ))
          λ p fp.
            by_option (find_unit b.unit_id w.session)
              (λ e. ground (
                arith,
                refused forbidden_role,
                refused booking_not_found,
                refused not_awaiting_confirmation,
                refused submitted_payment_required,
                refused unit_booking_state_invalid,
                refused property_not_found,
              ))
              λ u fu.
                by_option (find_property u.property_id w.session)
                  (λ e. ground (
                    arith,
                    refused forbidden_role,
                    refused booking_not_found,
                    refused not_awaiting_confirmation,
                    refused submitted_payment_required,
                    refused unit_booking_state_invalid,
                    refused property_not_found,
                  ))
                  λ q fq. ground (
                    arith,
                    refused forbidden_role,
                    refused booking_not_found,
                    refused not_awaiting_confirmation,
                    refused submitted_payment_required,
                    refused unit_booking_state_invalid,
                    refused property_not_found,
                    done b p u q fb,
                  )

-- A confirmation that answers has moved the booking, its submitted payment and its unit, all three,
-- in the committed database; one that raises has changed nothing, neither in the session nor in
-- the committed database.
pub confirm_booking-atomic :
    (id : ℕ) (text : Option Str) (admin : User) (w : World)
    → Ensures
        (confirm_booking id text admin w)
        (λ reply w'. (reply.status ≡ BookingStatus.confirmed) × IsConfirmed id admin w w')
        (λ w'. w' ≡ w)
confirm_booking-atomic id text admin w =
    confirm_booking-result (λ x. Ensures x done failed) id text admin w (λ e. refl)
      λ b p u q fb sb fp sp fu su fq.
        let (reply, e, status) = apply_confirmation-reply id b p u q text admin w fb fp fu fq in
        let (found_b, found_p, found_u) =
          apply_confirmation-found id b p u q text admin w fb fp fu in
        let (units, bookings, payments, properties, committed) =
          apply_confirmation-rows id b p u q text admin w fb fp fu in
        subst (λ x. Ensures x done failed) (sym e)
          (
            status,
            (
              b,
              p,
              u,
              fb,
              fp,
              fu,
              sb,
              sp,
              su,
              rw committed found_b,
              rw committed found_p,
              rw committed found_u,
            ),
          )
  where
    done : BookingRead → World → Type 0
    done reply w' = (reply.status ≡ BookingStatus.confirmed) × IsConfirmed id admin w w'

    failed : World → Type 0
    failed w' = w' ≡ w
