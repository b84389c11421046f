-- ===== src/Requests/Lasting.antt =====
-- The statuses of units and the ids of bookings through the requests of Frame.
use rental_property.Base.{refl, inl, inr, ◌⊎◌, ◌≡◌}
use rental_property.Models.{BookingStatus}
use rental_property.Action.{World}
use rental_property.Frame.{Lasting, Blind}
use rental_property.Occupancy.{Consistent, same_booking-Consistent}
use rental_property.Occupancy.Keys.{same_bookings-KeyedWorld, put_booking-KeyedWorld}
use rental_property.Occupancy.Reviewing.{ConsistentWorld}
use rental_property.Occupancy.Worker.{Sound}

-- A session that is consistent, committed or not.
committed-ConsistentWorld :
    (w w' : World)
    → (w'.committed ≡ w.committed) ⊎ (w'.committed ≡ w'.session)
    → ConsistentWorld w
    → Consistent w'.session
    → ConsistentWorld w'
committed-ConsistentWorld w w' (inl e) h kept = (kept, rw e h.1)
committed-ConsistentWorld w w' (inr e) h kept = (kept, rw e kept)

Sound-Lasting : Lasting Sound
Sound-Lasting = record {
  aside = λ w w' (units, tenancies, ledger, claims, committed, ids) adverts bookings h. (
    committed-ConsistentWorld w w' committed h.0 (rw (units, bookings, tenancies) h.0.0),
    same_bookings-KeyedWorld w w' bookings committed ids h.1,
  );
  reviewed = λ b w w' (units, tenancies, ledger, claims, committed, ids) adverts fb sb bookings h. (
    committed-ConsistentWorld w w' committed h.0 (
        same_booking-Consistent b (record b { status = BookingStatus.payment_review }) w.session
          w'.session fb refl (rw sb refl) (rw sb refl) units bookings tenancies h.0.0),
    put_booking-KeyedWorld b (record b { status = BookingStatus.payment_review }) w w' fb refl
        bookings committed ids h.1,
  );
}

pub Sound-Blind : Blind Sound
Sound-Blind = record {
  lasting = Sound-Lasting;
  adverts = λ w w' (units, tenancies, ledger, claims, committed, ids) bookings h. (
    committed-ConsistentWorld w w' committed h.0 (rw (units, bookings, tenancies) h.0.0),
    same_bookings-KeyedWorld w w' bookings committed ids h.1,
  );
}
