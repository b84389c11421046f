-- ===== src/Accounting/Requests.antt =====
-- The ledger and the claims over any sequence of requests.
use rental_property.Base.{◌≤◌, ◌≡◌, Option, List, arith, count, count-delete_where}
use rental_property.Text.{Str}
use rental_property.Models.{
  Db, User, Property, RentalUnit, Booking, BookingPayment, PaymentStatus, SourceType,
  PaymentReferenceClaim,
}
use rental_property.Action.{World, ok}
use rental_property.Payments.{
  is_claim_of, is_released_by, release_rejected_claim, claim_payment_reference,
  claim_payment_reference-ClaimsUnique, ClaimsUnique, with_claims,
}
use rental_property.Bookings.{
  start_review, book_unit, apply_cancellation, apply_confirmation, apply_rejection,
}
use rental_property.Tenancies.{move_in, apply_notice, apply_end, apply_inspection}
use rental_property.Maintenance.{expire_booking, remind}
use rental_property.Frame.{answer-Closes}
use rental_property.Accounting.Lasting.{Balanced-Blind}
use rental_property.Requests.{Request, serve_all}
use rental_property.Requests.Steps.{Steps}
use rental_property.Requests.Serving.{serve_all-Both}
use rental_property.Accounting.Books.{
  Balanced, BooksBalance, posted, posted-LedgerPaired, SameBooks-Balanced,
}
use rental_property.Accounting.Unchanged.{
  book_unit-SameBooks, start_review-SameBooks, apply_cancellation-SameBooks, move_in-SameBooks,
  apply_notice-SameBooks, apply_end-SameBooks, apply_inspection-SameBooks, expire_booking-SameBooks,
  remind-SameBooks,
}

-- A confirmation posts the booking's two entries, unless there are entries of it.
pub apply_confirmation-posted :
    (b : Booking) (p : BookingPayment) (u : RentalUnit) (q : Property) (text : Option Str)
    (admin : User) (w : World)
    → let w' = (apply_confirmation b p u q text admin w).1 in
      (w'.session.ledger ≡ posted b p w.session.ledger)
      × (w'.session.claims ≡ w.session.claims)
      × (w'.committed ≡ w'.session)
unfolding apply_confirmation
apply_confirmation-posted b p u q text admin w = (ground arith, ground arith, ground arith)

release_rejected_claim-count :
    (old new : BookingPayment) (d : Db) (m r : Str)
    → count (is_claim_of m r) (release_rejected_claim old new d).claims
      ≤ count (is_claim_of m r) d.claims
unfolding release_rejected_claim
release_rejected_claim-count old new d m r =
    ground (arith, count-delete_where (is_claim_of m r) (is_released_by new) d.claims)

-- A rejection releases the claim through the trigger, and posts nothing.
pub apply_rejection-released :
    (b : Booking) (p : BookingPayment) (u : RentalUnit) (text : Option Str) (admin : User)
    (w : World)
    → let w' = (apply_rejection b p u text admin w).1 in
      let p' : BookingPayment = record p { status = PaymentStatus.rejected } in
      (w'.session.ledger ≡ w.session.ledger)
      × (w'.session.claims ≡ (release_rejected_claim p p' w.session).claims)
      × (w'.committed ≡ w'.session)
unfolding apply_rejection
apply_rejection-released b p u text admin w = (ground arith, ground arith, ground arith)

apply_confirmation-Balanced :
    (b : Booking) (p : BookingPayment) (u : RentalUnit) (q : Property) (text : Option Str)
    (admin : User) (w : World)
    → Balanced w
    → Balanced (apply_confirmation b p u q text admin w).1
apply_confirmation-Balanced b p u q text admin w h =
    let w' = (apply_confirmation b p u q text admin w).1 in
    let (ledger, claims, committed) = apply_confirmation-posted b p u q text admin w in
    let kept : BooksBalance w'.session =
      (rw ledger (posted-LedgerPaired b p w.session.ledger h.0.0), rw claims h.0.1) in
    (kept, rw committed kept)

apply_rejection-Balanced :
    (b : Booking) (p : BookingPayment) (u : RentalUnit) (text : Option Str) (admin : User)
    (w : World)
    → Balanced w
    → Balanced (apply_rejection b p u text admin w).1
apply_rejection-Balanced b p u text admin w h =
    let w' = (apply_rejection b p u text admin w).1 in
    let p' : BookingPayment = record p { status = PaymentStatus.rejected } in
    let (ledger, claims, committed) = apply_rejection-released b p u text admin w in
    let kept : BooksBalance w'.session = (
      rw ledger h.0.0,
      rw claims (λ m r. omega (arith, release_rejected_claim-count p p' w.session m r, h.0.1 m r)),
    ) in
    (kept, rw committed kept)

start_review-Balanced :
    (b : Booking) (p : BookingPayment) (m r : Str) (user : User) (w : World)
    (c : PaymentReferenceClaim) (cs : List PaymentReferenceClaim)
    → claim_payment_reference m r SourceType.booking b.id w ≡ (ok c, with_claims cs w)
    → Balanced w
    → Balanced (start_review b p m r user (with_claims cs w)).1
start_review-Balanced b p m r user w c cs e h =
    let unique : ClaimsUnique (claim_payment_reference m r SourceType.booking b.id w).1.session =
      claim_payment_reference-ClaimsUnique m r SourceType.booking b.id w h.0.1 in
    let claimed : Balanced (with_claims cs w) = ((h.0.0, rw e at unique), h.1) in
    SameBooks-Balanced (with_claims cs w) (start_review b p m r user (with_claims cs w)).1
      (start_review-SameBooks b p m r user (with_claims cs w)) claimed

BooksBalance-Steps : Steps BooksBalance
BooksBalance-Steps = record {
  created = λ u q date user w.
      SameBooks-Balanced w (book_unit u q date user w).1 (book_unit-SameBooks u q date user w);
  cancelled = λ b user w.
      SameBooks-Balanced w (apply_cancellation b user w).1 (apply_cancellation-SameBooks b user w);
  moved_in = λ b u q tenant user w.
      SameBooks-Balanced w (move_in b u q tenant user w).1 (move_in-SameBooks b u q tenant user w);
  noticed = λ t u q form user w.
      SameBooks-Balanced w (apply_notice t u q form user w).1
        (apply_notice-SameBooks t u q form user w);
  ended = λ t u q user w.
      SameBooks-Balanced w (apply_end t u q user w).1 (apply_end-SameBooks t u q user w);
  inspected = λ t u q user w.
      SameBooks-Balanced w (apply_inspection t u q user w).1
        (apply_inspection-SameBooks t u q user w);
  expired = λ b w. SameBooks-Balanced w (expire_booking b w).1 (expire_booking-SameBooks b w);
  reminded = λ now v w. SameBooks-Balanced w (remind now v w).1 (remind-SameBooks now v w);
  confirmed = apply_confirmation-Balanced;
  rejected = apply_rejection-Balanced;
  reviewed = start_review-Balanced;
  answered =
      λ r w h. let (v, kept, e) = answer-Closes Balanced Balanced-Blind r w (h, h) in rw e kept.1;
}

-- Whatever requests come in whatever order, the committed ledger keeps, for every booking, debits
-- equal to credits and at most one posting of two entries, and no committed payment reference has
-- two claims, provided that this held before them.
pub serve_all-BooksBalance :
    (rs : List Request) (w : World)
    → BooksBalance w.committed
    → BooksBalance (serve_all rs w).committed
serve_all-BooksBalance = serve_all-Both BooksBalance BooksBalance-Steps
