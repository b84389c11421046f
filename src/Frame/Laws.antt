-- ===== src/Frame/Laws.antt =====
-- The interface between the invariants of bookings and the handlers that are about other tables.
use rental_property.Base.{◌≤◌, ◌≡◌, ◌⊎◌, some, put}
use rental_property.Models.{Booking, BookingStatus, booking_key, find_booking}
use rental_property.Action.{World}
use rental_property.Payments.{ClaimsUnique}

-- What a step leaves: the commit may be part of it.
abbrev pub Leaves : World → World → Type 0
Leaves w w' =
    (w'.session.units ≡ w.session.units)
    × (w'.session.tenancies ≡ w.session.tenancies)
    × (w'.session.ledger ≡ w.session.ledger)
    × (ClaimsUnique w.session → ClaimsUnique w'.session)
    × ((w'.committed ≡ w.committed) ⊎ (w'.committed ≡ w'.session))
    × (w.next_uuid ≤ w'.next_uuid)

-- The properties and their charges are as they were.
abbrev pub SameAdverts : World → World → Type 0
SameAdverts w w' =
    (w'.session.properties ≡ w.session.properties) × (w'.session.charges ≡ w.session.charges)

-- A property of worlds that does not look beyond those tables and the adverts, and that a booking
-- whose payment goes to review keeps.
pub record Lasting (P : World → Type 0) : Type 0 where
  pub aside :
      (w w' : World)
      → Leaves w w'
      → SameAdverts w w'
      → w'.session.bookings ≡ w.session.bookings
      → P w
      → P w'
  pub reviewed :
      (b : Booking) (w w' : World)
      → Leaves w w'
      → SameAdverts w w'
      → find_booking b.id w.session ≡ some b
      → b.status ≡ BookingStatus.pending_payment
      → w'.session.bookings
        ≡ put booking_key b.id
            (record b { status = BookingStatus.payment_review })
            w.session.bookings
      → P w
      → P w'

-- One that does not look at the adverts either.
pub record Blind (P : World → Type 0) : Type 0 where
  pub lasting : Lasting P
  pub adverts : (w w' : World) → Leaves w w' → w'.session.bookings ≡ w.session.bookings → P w → P w'
