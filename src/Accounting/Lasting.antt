-- ===== src/Accounting/Lasting.antt =====
-- The ledger and the claims through the requests of Frame.
use rental_property.Base.{inl, inr}
use rental_property.Action.{World}
use rental_property.Frame.{Lasting, Blind, Leaves}
use rental_property.Accounting.Books.{BooksBalance, Balanced}

Leaves-Balanced : (w w' : World) → Leaves w w' → Balanced w → Balanced w'
Leaves-Balanced w w' (units, tenancies, ledger, claims, inl e, ids) h =
    ((rw ledger h.0.0, claims h.0.1), rw e h.1)
Leaves-Balanced w w' (units, tenancies, ledger, claims, inr e, ids) h =
    let kept : BooksBalance w'.session = (rw ledger h.0.0, claims h.0.1) in (kept, rw e kept)

Balanced-Lasting : Lasting Balanced
Balanced-Lasting = record {
  aside = λ w w' left adverts bookings h. Leaves-Balanced w w' left h;
  reviewed = λ b w w' left adverts fb sb bookings h. Leaves-Balanced w w' left h;
}

pub Balanced-Blind : Blind Balanced
Balanced-Blind = record {
  lasting = Balanced-Lasting;
  adverts = λ w w' left bookings h. Leaves-Balanced w w' left h;
}
