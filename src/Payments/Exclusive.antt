-- ===== src/Payments/Exclusive.antt =====
-- A reference that another source has claimed (payments.py), and one that the trigger has released.
use mathlib.Core.Path.{subst}
use rental_property.Base.{
  ℕ, ◌+◌, ◌≡◌, ◌==◌, ◌&&◌, refl, ap, true, false, none, some, arith, first, first-count,
  delete_where, first-some_and, count-delete_where_and,
}
use rental_property.Text.{
  Str, strip, lower, upper, sql_trim, sql_trim-strip, strip-lower, strip-upper, lower_idem,
  upper_idem,
}
use rental_property.Models.{
  Db, SourceType, same_source, PaymentReferenceClaim, BookingPayment, PaymentStatus,
  same_payment_status,
}
use rental_property.Action.{World, Result, ok, err, reference_already_submitted, Ensures}
use rental_property.Payments.Defs.{
  normalize_payment_reference, normalize_method, is_claim_of, is_held_by, claim_normalized,
  claim_payment_reference, release_rejected_claim, is_released_by,
}
use rental_property.Payments.Claims.{
  ClaimsUnique, claim_normalized-old, claim_normalized-new, claim_normalized-holder, claim_row,
}

held_by_one :
    (t t' : SourceType) (id id' : ℕ) (c : PaymentReferenceClaim)
    → is_held_by t id c ≡ true
    → same_source t t' && id == id' ≡ false
    → is_held_by t' id' c ≡ false
unfolding is_held_by
held_by_one t t' id id' c h other = ground arith

holder-of :
    (m r : Str) (t : SourceType) (id : ℕ) (w w' : World) (c : PaymentReferenceClaim)
    → claim_normalized m r t id w ≡ (ok c, w')
    → (first (is_claim_of m r) w'.session.claims ≡ some c) × (is_held_by t id c ≡ true)
holder-of m r t id w w' c e =
    subst
      (λ x.
        Ensures x
          (λ d v. (first (is_claim_of m r) v.session.claims ≡ some d) × (is_held_by t id d ≡ true))
          (λ v.
            (v.session ≡ w.session)
            × ((d : PaymentReferenceClaim) × (first (is_claim_of m r) w.session.claims ≡ some d)
                × (is_held_by t id d ≡ false))))
      e (claim_normalized-holder m r t id w)

-- Once a source has claimed a reference, a claim of it by any other source is refused, however the
-- method and the reference are spelled, and leaves the session as it was.
pub claim-exclusive :
    (m r m' r' : Str) (t t' : SourceType) (id id' : ℕ) (w w' : World) (c : PaymentReferenceClaim)
    → normalize_method m' ≡ normalize_method m
    → normalize_payment_reference r' ≡ normalize_payment_reference r
    → same_source t t' && id == id' ≡ false
    → claim_payment_reference m r t id w ≡ (ok c, w')
    → claim_payment_reference m' r' t' id' w'
      ≡ (err reference_already_submitted, record w' { next_uuid = w'.next_uuid + 1 })
unfolding claim_payment_reference
claim-exclusive m r m' r' t t' id id' w w' c em er other e =
    let (there, held) =
      holder-of (normalize_method m) (normalize_payment_reference r) t id w w' c e in
    let refused =
      claim_normalized-old (normalize_method m) (normalize_payment_reference r) t' id' w' c there in
    rw (em, er, refused, held_by_one t t' id id' c held other) refl

trimmed_method : (m : Str) → lower (sql_trim (normalize_method m)) ≡ normalize_method m
unfolding normalize_method
trimmed_method m =
    rw (← strip-lower m) (rw (sql_trim-strip (lower m)) (rw (strip-lower m) (lower_idem (strip m))))

trimmed_reference :
    (r : Str) → upper (sql_trim (normalize_payment_reference r)) ≡ normalize_payment_reference r
unfolding normalize_payment_reference
trimmed_reference r =
    rw (← strip-upper r) (rw (sql_trim-strip (upper r)) (rw (strip-upper r) (upper_idem (strip r))))

released_claims-none :
    (old new : BookingPayment) (m r : Str) (c : PaymentReferenceClaim) (d : Db)
    → same_payment_status old.status PaymentStatus.rejected ≡ false
    → new.status ≡ PaymentStatus.rejected
    → new.method ≡ some (normalize_method m)
    → new.reference ≡ some (normalize_payment_reference r)
    → ClaimsUnique d
    → first (is_claim_of (normalize_method m) (normalize_payment_reference r)) d.claims ≡ some c
    → is_held_by SourceType.booking new.booking_id c ≡ true
    → first
        (is_claim_of (normalize_method m) (normalize_payment_reference r))
        (release_rejected_claim old new d).claims
      ≡ none
unfolding release_rejected_claim
released_claims-none old new m r c d so sn method ref unique there held =
    let test = is_claim_of (normalize_method m) (normalize_payment_reference r) in
    let held_by = is_held_by SourceType.booking new.booking_id in
    let gone : first test (delete_where (λ x. test x && held_by x) d.claims) ≡ none =
      first-count test (delete_where (λ x. test x && held_by x) d.claims) (
        omega (
          arith,
          count-delete_where_and test held_by d.claims,
          first-some_and test held_by c d.claims there held,
          unique (normalize_method m) (normalize_payment_reference r),
        )) in
    rw (sn, method, ref, so, is_released_by, trimmed_method m, trimmed_reference r) gone

-- After the trigger has run on a booking's payment that has become rejected, its reference can be
-- claimed by any source, however it is spelled, provided that the reference was claimed, that its
-- claim was the booking's, that no reference has two claims, and that the payment's method and
-- reference are stored as they are normalised.
pub claim-release_rejected_claim :
    (old new : BookingPayment) (m r m' r' : Str) (c : PaymentReferenceClaim) (t : SourceType)
    (id : ℕ) (w : World)
    → same_payment_status old.status PaymentStatus.rejected ≡ false
    → new.status ≡ PaymentStatus.rejected
    → new.method ≡ some (normalize_method m)
    → new.reference ≡ some (normalize_payment_reference r)
    → ClaimsUnique w.session
    → first (is_claim_of (normalize_method m) (normalize_payment_reference r)) w.session.claims
      ≡ some c
    → is_held_by SourceType.booking new.booking_id c ≡ true
    → normalize_method m' ≡ normalize_method m
    → normalize_payment_reference r' ≡ normalize_payment_reference r
    → let w' : World = record w { session = release_rejected_claim old new w.session } in
      (c' : PaymentReferenceClaim) × ((claim_payment_reference m' r' t id w').0 ≡ ok c')
      × (is_held_by t id c' ≡ true)
unfolding claim_payment_reference
claim-release_rejected_claim old new m r m' r' c t id w so sn method ref unique there held em er =
    let nm = normalize_method m in
    let nr = normalize_payment_reference r in
    let w' : World = record w { session = release_rejected_claim old new w.session } in
    let gone : first (is_claim_of nm nr) w'.session.claims ≡ none =
      released_claims-none old new m r c w.session so sn method ref unique there held in
    (
      claim_row nm nr t id w',
      rw (em, er)
          (ap (λ (x : Result PaymentReferenceClaim × World). x.0)
            (claim_normalized-new nm nr t id w' gone)),
      unfold is_held_by in ground arith,
    )
