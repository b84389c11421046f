-- ===== src/Tests/Money.antt =====
-- One payment reference, from its claim to its release, and a booking under review.
use rental_property.Base.{◌≡◌, refl, arith, none, some, [], ◌∷◌, count, first, find, put, true}
use rental_property.Text.{Str, codes, strip, lower, upper, str_eq}
use rental_property.Models.{
  SourceType, PaymentReferenceClaim, BookingPayment, PaymentStatus, RentalUnit, UnitStatus,
  BookingStatus, AuditAction, EntityType, Value, Fields,
}
use rental_property.Action.{World, ok, err, reference_already_submitted, Ensures, run_request}
use rental_property.Audit.{add_audit_event, detail}
use rental_property.Audit.Redaction.{AuditsClean, add_audit_event-AuditsClean}
use rental_property.Payments.{
  normalize_payment_reference, normalize_method, claim_payment_reference, claim_normalized,
  release_rejected_claim, is_claim_of, is_held_by,
}
use rental_property.Payments.Exclusive.{claim-exclusive, claim-release_rejected_claim}
use rental_property.Bookings.{
  BookingRead, confirm_booking, create_held_booking, submit_booking_payment, start_review,
  release_unit_after_failed_booking,
}
use rental_property.Bookings.Atomic.{IsConfirmed, confirm_booking-atomic}
use rental_property.Maintenance.{release_expired}
use rental_property.Maintenance.Release.{release_expired-release_unit_after_failed_booking}
use rental_property.Requests.{Request, serve, serve_all}
use rental_property.Accounting.{BooksBalance, total}
use rental_property.Accounting.Requests.{serve_all-BooksBalance}
use rental_property.Tests.Data.{
  start, start_db, seeker, admin, room, lifecycle, move_in_form, payment_form,
}

abbrev mobile_money : Str
mobile_money = codes "mobile_money"

abbrev claim_of_100 : PaymentReferenceClaim
claim_of_100 = record {
  id = 100;
  method = mobile_money;
  reference = codes "MP-123";
  source_type = SourceType.booking;
  source_id = 100;
}

abbrev claimed : World
claimed = record start { session = record start_db { claims = claim_of_100 ∷ [] }; next_uuid = 101 }

claim_runs :
    claim_payment_reference mobile_money (codes " mp-123 ") SourceType.booking 100 start
    ≡ (ok claim_of_100, claimed)
unfolding claim_payment_reference claim_normalized first strip lower upper normalize_method
    normalize_payment_reference
claim_runs = refl

claim-exclusive_example :
    claim_payment_reference
      (codes "Mobile_Money")
      (codes "Mp-123")
      SourceType.advert_charge
      7
      claimed
    ≡ (err reference_already_submitted, record claimed { next_uuid = 102 })
unfolding strip lower upper
claim-exclusive_example =
    claim-exclusive mobile_money (codes " mp-123 ") (codes "Mobile_Money") (codes "Mp-123")
      SourceType.booking SourceType.advert_charge 100 7 start claimed claim_of_100
      (unfold normalize_method in refl) (unfold normalize_payment_reference in refl) refl claim_runs

abbrev submitted_payment : BookingPayment
submitted_payment = record {
  id = 101;
  booking_id = 100;
  amount = 150000;
  currency = codes "LSL";
  status = PaymentStatus.submitted;
  method = some (normalize_method mobile_money);
  reference = some (normalize_payment_reference (codes " mp-123 "));
  submitted_at = some 1000;
  confirmed_at = none;
  confirmed_by = none;
}

abbrev rejected_payment : BookingPayment
rejected_payment = record submitted_payment { status = PaymentStatus.rejected }

claim_there :
    first
      (is_claim_of (normalize_method mobile_money) (normalize_payment_reference (codes " mp-123 ")))
      claimed.session.claims
    ≡ some claim_of_100
unfolding first is_claim_of str_eq strip lower upper normalize_method normalize_payment_reference
claim_there = refl

same_reference :
    normalize_payment_reference (codes "mp-123") ≡ normalize_payment_reference (codes " mp-123 ")
unfolding strip upper normalize_payment_reference
same_reference = refl

claim-release_rejected_claim_example :
    let w' : World = record claimed {
      session = release_rejected_claim submitted_payment rejected_payment claimed.session;
    } in
    (c : PaymentReferenceClaim) × ((claim_payment_reference mobile_money
        (codes "mp-123")
        SourceType.booking
        200
        w').0
      ≡ ok c)
    × (is_held_by SourceType.booking 200 c ≡ true)
claim-release_rejected_claim_example =
    claim-release_rejected_claim submitted_payment rejected_payment mobile_money (codes " mp-123 ")
      mobile_money (codes "mp-123") claim_of_100 SourceType.booking 200 claimed refl refl refl refl
      (λ m r. unfold count in ground arith) claim_there (unfold is_held_by in refl) refl
      same_reference

books_start : BooksBalance start.committed
unfolding count total
books_start = (λ k. ground arith, λ m r. ground arith)

serve_all-BooksBalance_example : BooksBalance (serve_all lifecycle start).committed
serve_all-BooksBalance_example = serve_all-BooksBalance lifecycle start books_start

abbrev under_review : World
under_review =
    serve_all
      (Request.create move_in_form seeker (some 2) ∷ Request.submit 100 payment_form seeker ∷ [])
      start

confirm_booking-atomic_example :
    Ensures
      (confirm_booking 100 none admin under_review)
      (λ reply w'. (reply.status ≡ BookingStatus.confirmed) × IsConfirmed 100 admin under_review w')
      (λ w'. w' ≡ under_review)
confirm_booking-atomic_example = confirm_booking-atomic 100 none admin under_review

confirmation_answers :
    (reply : BookingRead) × ((confirm_booking 100 none admin under_review).0 ≡ ok reply)
unfolding serve_all serve run_request confirm_booking submit_booking_payment create_held_booking
    claim_payment_reference claim_normalized first find start_review put
confirmation_answers = (_, refl)

abbrev pending_room : RentalUnit
pending_room = record room { status = UnitStatus.booking_pending }

release_expired_example :
    release_expired pending_room under_review
    ≡ release_unit_after_failed_booking pending_room under_review
release_expired_example =
    release_expired-release_unit_after_failed_booking pending_room under_review refl

abbrev card_details : Fields
card_details = detail "payment_reference" (Value.text (codes "MP-123")) Fields.end

add_audit_event-AuditsClean_example :
    let (r, w') =
      add_audit_event AuditAction.booking_created EntityType.booking
        (some 100)
        (some seeker)
        card_details
        start in
    (r ≡ ok tt) × (w'.committed ≡ start.committed) × AuditsClean w'.session
add_audit_event-AuditsClean_example =
    add_audit_event-AuditsClean AuditAction.booking_created EntityType.booking (some 100)
      (some seeker) card_details start tt
