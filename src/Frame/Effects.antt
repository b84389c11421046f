-- ===== src/Frame/Effects.antt =====
-- What the requests of Frame do to bookings and money.
use rental_property.Base.{
  ℕ, ◌≡◌, ◌⊎◌, inl, inr, refl, ◌∙◌, some, find, put, find-put_self, find-put_ne, eq-or-ne, arith,
}
use rental_property.Models.{Db, Booking, BookingStatus, booking_key, find_booking}
use rental_property.Action.{World}
use rental_property.Frame.Laws.{Leaves, Lasting, Blind}
use rental_property.Frame.Side.{SideRequest, answer, answer-Closes}

-- A booking as it was, or one that was unpaid, under review.
abbrev pub StaysOrReviewed : Db → Db → Type 0
StaysOrReviewed d d' =
    (k : ℕ) (b : Booking)
    → find_booking k d ≡ some b
    → (find_booking k d' ≡ some b)
      ⊎ ((b.status ≡ BookingStatus.pending_payment)
          × (find_booking k d' ≡ some (record b { status = BookingStatus.payment_review })))

-- Money and rooms are as they were, and bookings have at most gone to review.
abbrev pub OnlyReviews : Db → Db → Type 0
OnlyReviews d d' =
    (d'.units ≡ d.units)
    × (d'.tenancies ≡ d.tenancies)
    × (d'.ledger ≡ d.ledger)
    × StaysOrReviewed d d'

put-StaysOrReviewed :
    (b : Booking) (d d' d'' : Db)
    → StaysOrReviewed d d'
    → find_booking b.id d' ≡ some b
    → b.status ≡ BookingStatus.pending_payment
    → d''.bookings
      ≡ put booking_key b.id (record b { status = BookingStatus.payment_review }) d'.bookings
    → StaysOrReviewed d d''
put-StaysOrReviewed b d d' d'' h fb sb bookings k x fx =
    let b' : Booking = record b { status = BookingStatus.payment_review } in
    let new : find booking_key b.id (put booking_key b.id b' d'.bookings) ≡ some b' =
      find-put_self booking_key b.id b' b d'.bookings refl fb in
    elim (eq-or-ne k b.id) [
      | inl same ↦ elim (h k x fx) [
        | inl stays ↦
            let row : some x ≡ some b = cc in
            let old : x ≡ b = cc in inr (cc, rw (bookings, same, old) new)
        | inr (unpaid, moved) ↦
            let row : some (record x { status = BookingStatus.payment_review }) ≡ some b = cc in
            absurd (ground arith)
      ]
      | inr other ↦
          let there = find-put_ne booking_key k b.id b' d'.bookings refl other in
          elim (h k x fx) [
            | inl stays ↦ inl (rw bookings (there ∙ stays))
            | inr (unpaid, moved) ↦ inr (unpaid, rw bookings (there ∙ moved))
          ]
    ]

-- On both sides of the session.
abbrev OnlyReviewsWorld : Db → World → Type 0
OnlyReviewsWorld d w = OnlyReviews d w.session × OnlyReviews d w.committed

committed-OnlyReviewsWorld :
    (d : Db) (w w' : World)
    → Leaves w w'
    → StaysOrReviewed d w'.session
    → OnlyReviewsWorld d w
    → OnlyReviewsWorld d w'
committed-OnlyReviewsWorld d w w' (units, tenancies, ledger, claims, inl e, ids) moved
      ((u, t, l, s), h) =
    ((units ∙ u, tenancies ∙ t, ledger ∙ l, moved), rw e h)
committed-OnlyReviewsWorld d w w' (units, tenancies, ledger, claims, inr e, ids) moved
      ((u, t, l, s), h) =
    let kept : OnlyReviews d w'.session = (units ∙ u, tenancies ∙ t, ledger ∙ l, moved) in
    (kept, rw e kept)

OnlyReviewsWorld-Lasting : (d : Db) → Lasting (OnlyReviewsWorld d)
OnlyReviewsWorld-Lasting d = record {
  aside = λ w w' left adverts bookings h.
      let moved : StaysOrReviewed d w'.session = rw bookings h.0.3 in
      committed-OnlyReviewsWorld d w w' left moved h;
  reviewed = λ b w w' left adverts fb sb bookings h.
      committed-OnlyReviewsWorld d w w' left
        (put-StaysOrReviewed b d w.session w'.session h.0.3 fb sb bookings) h;
}

OnlyReviewsWorld-Blind : (d : Db) → Blind (OnlyReviewsWorld d)
OnlyReviewsWorld-Blind d = record {
  lasting = OnlyReviewsWorld-Lasting d;
  adverts = λ w w' left bookings h.
      let moved : StaysOrReviewed d w'.session = rw bookings h.0.3 in
      committed-OnlyReviewsWorld d w w' left moved h;
}

-- A profile, a property, an advertising charge, a webhook of a payment provider whatever it
-- reports, its reconciliation, a saved property or a viewing: no request about these posts to the
-- ledger or changes a unit or a tenancy, and a booking that was committed before is as it was or
-- has gone from pending payment to payment review.
pub answer-OnlyReviews :
    (r : SideRequest) (w : World) → OnlyReviews w.committed (answer r w).committed
answer-OnlyReviews r w =
    let same : OnlyReviews w.committed w.committed = (refl, refl, refl, λ k b h. inl h) in
    let (v, kept, e) =
      answer-Closes (OnlyReviewsWorld w.committed) (OnlyReviewsWorld-Blind w.committed) r w
        (same, same) in
    rw e kept.1
