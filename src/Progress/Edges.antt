-- ===== src/Progress/Edges.antt =====
-- The changes that a booking's status may make, and how one written row makes them.
use mathlib.Core.Path.{subst}
use rental_property.Base.{
  ℕ, ◌≡◌, refl, sym, ◌∙◌, inl, inr, some, [], ◌∷◌, ◌++◌, find, put, find-put_self, find-put_ne,
  find-append_old, eq-or-ne,
}
use rental_property.Models.{Db, Booking, BookingStatus, find_booking, booking_key}
use rental_property.Action.{World}

-- One change.
pub data Edge : BookingStatus → BookingStatus → Type 0 where
  pay : Edge BookingStatus.pending_payment BookingStatus.payment_review
  give_up : Edge BookingStatus.pending_payment BookingStatus.cancelled
  run_out : Edge BookingStatus.pending_payment BookingStatus.expired
  accept : Edge BookingStatus.payment_review BookingStatus.confirmed
  refuse : Edge BookingStatus.payment_review BookingStatus.rejected
  move_in : Edge BookingStatus.confirmed BookingStatus.fulfilled

-- Any number of changes.
pub data Reach (s : BookingStatus) : BookingStatus → Type 0 where
  here : Reach s s
  next : {t u : BookingStatus} → Reach s t → Edge t u → Reach s u

Reach-trans : {s t u : BookingStatus} → Reach s t → Reach t u → Reach s u
Reach-trans r here = r
Reach-trans r (next q e) = next (Reach-trans r q) e

-- Every booking of `d` is in `d'`, for the same unit and by the same seeker, and its status has
-- only moved along the edges.
abbrev pub Follows : Db → Db → Type 0
Follows d d' =
    (k : ℕ) (b : Booking)
    → find_booking k d ≡ some b
    → (b' : Booking) × (find_booking k d' ≡ some b')
      × (b'.unit_id ≡ b.unit_id)
      × (b'.seeker_id ≡ b.seeker_id)
      × Reach b.status b'.status

pub Follows-refl : (d : Db) → Follows d d
Follows-refl d k b h = (b, h, refl, refl, here)

pub Follows-trans : (d d' d'' : Db) → Follows d d' → Follows d' d'' → Follows d d''
Follows-trans d d' d'' f g k b h =
    let (b', h', unit', seeker', r') = f k b h in
    let (b'', h'', unit'', seeker'', r'') = g k b' h' in
    (b'', h'', unit'' ∙ unit', seeker'' ∙ seeker', Reach-trans r' r'')

pub same-Follows : (d d' : Db) → d'.bookings ≡ d.bookings → Follows d d'
same-Follows d d' e k b h = (b, rw e h, refl, refl, here)

pub append-Follows : (v : Booking) (d d' : Db) → d'.bookings ≡ d.bookings ++ v ∷ [] → Follows d d'
append-Follows v d d' e k b h =
    (b, rw e (find-append_old booking_key k v b d.bookings h), refl, refl, here)

pub put-Follows :
    (b b' : Booking) (d d' : Db)
    → find_booking b.id d ≡ some b
    → b'.id ≡ b.id
    → b'.unit_id ≡ b.unit_id
    → b'.seeker_id ≡ b.seeker_id
    → Edge b.status b'.status
    → d'.bookings ≡ put booking_key b.id b' d.bookings
    → Follows d d'
put-Follows b b' d d' fb id unit seeker edge bookings k x h = elim (eq-or-ne k b.id) [
  | inl same ↦
      let row : some x ≡ some b = cc in
      let old : x ≡ b = cc in
      let new : find booking_key b.id (put booking_key b.id b' d.bookings) ≡ some b' =
        find-put_self booking_key b.id b' b d.bookings id fb in
      (b', cc, cc, cc, subst (λ (y : Booking). Reach y.status b'.status) (sym old) (next here edge))
  | inr other ↦
      (x, rw bookings (find-put_ne booking_key k b.id b' d.bookings id other ∙ h), refl, refl, here)
]

-- On both sides of the session.
abbrev pub FollowsWorld : Db → World → Type 0
FollowsWorld d w = Follows d w.session × Follows d w.committed
