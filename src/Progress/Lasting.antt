-- ===== src/Progress/Lasting.antt =====
-- The bookings through the requests of Frame.
use mathlib.Core.Path.{subst}
use rental_property.Base.{◌⊎◌, ◌≡◌, inl, inr, refl, sym}
use rental_property.Models.{Db, BookingStatus}
use rental_property.Action.{World}
use rental_property.Frame.{Lasting, Blind}
use rental_property.Progress.Edges.{
  Edge, Follows, Follows-trans, same-Follows, put-Follows, FollowsWorld,
}

committed-FollowsWorld :
    (d : Db) (w w' : World)
    → (w'.committed ≡ w.committed) ⊎ (w'.committed ≡ w'.session)
    → FollowsWorld d w
    → Follows w.session w'.session
    → FollowsWorld d w'
committed-FollowsWorld d w w' (inl e) h moved =
    (Follows-trans d w.session w'.session h.0 moved, rw e h.1)
committed-FollowsWorld d w w' (inr e) h moved =
    let kept = Follows-trans d w.session w'.session h.0 moved in (kept, rw e kept)

FollowsWorld-Lasting : (d : Db) → Lasting (FollowsWorld d)
FollowsWorld-Lasting d = record {
  aside = λ w w' (units, tenancies, ledger, claims, committed, ids) adverts bookings h.
      committed-FollowsWorld d w w' committed h (same-Follows w.session w'.session bookings);
  reviewed = λ b w w' (units, tenancies, ledger, claims, committed, ids) adverts fb sb bookings h.
      committed-FollowsWorld d w w' committed h (
        put-Follows b (record b { status = BookingStatus.payment_review }) w.session w'.session fb
          refl refl refl (subst (λ s. Edge s BookingStatus.payment_review) (sym sb) Edge.pay)
          bookings);
}

pub FollowsWorld-Blind : (d : Db) → Blind (FollowsWorld d)
FollowsWorld-Blind d = record {
  lasting = FollowsWorld-Lasting d;
  adverts = λ w w' (units, tenancies, ledger, claims, committed, ids) bookings h.
      committed-FollowsWorld d w w' committed h (same-Follows w.session w'.session bookings);
}
