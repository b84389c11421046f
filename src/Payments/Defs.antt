-- ===== src/Payments/Defs.antt =====
-- The operations of payments.py, and the trigger.
use rental_property.Base.{
  ℕ, Bool, true, false, not, ◌&&◌, ◌||◌, ◌==◌, Option, none, some, [], ◌∷◌, ◌++◌, if◌then◌else◌,
  is_some, put, first, delete_where,
}
use rental_property.Text.{Str, strip, lower, upper, sql_trim, str_eq}
use rental_property.Models.{
  Db, SourceType, same_source, PaymentReferenceClaim, BookingPayment, AdvertCharge,
  AdvertChargeStatus, same_charge_status, charge_key, PaymentStatus, same_payment_status,
  payment_key,
}
use rental_property.Action.{
  World, Result, ok, err, Action, ⊤, ◌>>=◌, ◌>>◌, pure, raise, gets, get_or_raise, modify, uuid4,
  claim_unresolved, reference_already_submitted,
}

unfoldable pub normalize_payment_reference : Str → Str
normalize_payment_reference reference = upper (strip reference)

unfoldable pub normalize_method : Str → Str
normalize_method method = lower (strip method)

-- `method == m and reference == r`, the columns of the unique constraint.
unfoldable pub is_claim_of : Str → Str → PaymentReferenceClaim → Bool
is_claim_of m r c = str_eq c.method m && str_eq c.reference r

unfoldable pub is_held_by : SourceType → ℕ → PaymentReferenceClaim → Bool
is_held_by source_type source_id c =
    same_source c.source_type source_type && c.source_id == source_id

-- `insert … on_conflict_do_nothing … returning`
unfoldable pub insert_claim : Str → Str → SourceType → ℕ → Action (Option PaymentReferenceClaim)
insert_claim method reference source_type source_id = do
  existing ← gets (λ d. first (is_claim_of method reference) d.claims)
  id ← uuid4
  let row : PaymentReferenceClaim = record {
    id = id;
    method = method;
    reference = reference;
    source_type = source_type;
    source_id = source_id;
  }
  elim existing [
    | some _ ↦ pure none
    | none ↦ modify (λ d. record d { claims = d.claims ++ row ∷ [] }) >> pure (some row)
  ]

-- The rest of `claim_payment_reference`, once its two texts are normalised.
unfoldable pub claim_normalized : Str → Str → SourceType → ℕ → Action PaymentReferenceClaim
unfolding insert_claim
claim_normalized method reference source_type source_id = do
  created ← insert_claim method reference source_type source_id
  elim created [
    | some row ↦ pure row
    | none ↦ do
      existing ← get_or_raise (λ d. first (is_claim_of method reference) d.claims) claim_unresolved
      if is_held_by source_type source_id existing
          then pure existing
          else raise reference_already_submitted
  ]

unfoldable pub claim_payment_reference : Str → Str → SourceType → ℕ → Action PaymentReferenceClaim
claim_payment_reference method reference =
    claim_normalized (normalize_method method) (normalize_payment_reference reference)

-- `except PaymentReferenceConflict`: nothing was claimed, and the rest of the request goes on.
abbrev pub recover_conflict :
    Result PaymentReferenceClaim × World → Result (Option PaymentReferenceClaim) × World
recover_conflict (ok c, w) = (ok (some c), w)
recover_conflict (err reference_already_submitted, w) = (ok none, w)
recover_conflict (err e, w) = (err e, w)

unfoldable pub try_claim : Str → Str → SourceType → ℕ → Action (Option PaymentReferenceClaim)
try_claim method reference source_type source_id w =
    recover_conflict (claim_payment_reference method reference source_type source_id w)

-- `not text` for an optional text
abbrev pub is_missing : Option Str → Bool
is_missing none = true
is_missing (some []) = true
is_missing (some (_ ∷ _)) = false

abbrev pub text_or_empty : Option Str → Str
text_or_empty none = []
text_or_empty (some s) = s

unfoldable pub release_payment_reference_claim :
    Option Str → Option Str → SourceType → ℕ → Action Bool
release_payment_reference_claim method reference source_type source_id =
    if is_missing method || is_missing reference then pure false else do
      let normalized_method = normalize_method (text_or_empty method)
      let normalized_reference = normalize_payment_reference (text_or_empty reference)
      let matches = is_claim_of normalized_method normalized_reference
      claim ← gets (λ d. first matches d.claims)
      elim claim [
        | none ↦ pure false
        | some c ↦ if not (is_held_by source_type source_id c) then pure false else do
          modify λ d. record d { claims = delete_where (λ r. r.id == c.id) d.claims }
          pure true
      ]

-- The claim that the trigger releases, by the columns of the payment.
abbrev pub is_released_by : BookingPayment → PaymentReferenceClaim → Bool
is_released_by new c =
    is_claim_of (lower (sql_trim (text_or_empty new.method)))
      (upper (sql_trim (text_or_empty new.reference))) c
    && is_held_by SourceType.booking new.booking_id c

-- `release_rejected_booking_payment_reference_claim`, the trigger on `booking_payments`
unfoldable pub release_rejected_claim : BookingPayment → BookingPayment → Db → Db
release_rejected_claim old new d =
    if same_payment_status new.status PaymentStatus.rejected
      && not (same_payment_status old.status new.status)
      && is_some new.method
      && is_some new.reference
    then record d { claims = delete_where (is_released_by new) d.claims }
    else d

-- An update of one row of `booking_payments`, with the trigger after it.
unfoldable pub update_payment : BookingPayment → BookingPayment → Action ⊤
unfolding release_rejected_claim
update_payment old new = do
  modify λ d. record d { payments = put payment_key new.booking_id new d.payments }
  modify (release_rejected_claim old new)

abbrev pub is_released_by_charge : AdvertCharge → PaymentReferenceClaim → Bool
is_released_by_charge new c =
    is_claim_of (lower (sql_trim (text_or_empty new.payment_method)))
      (upper (sql_trim (text_or_empty new.payment_reference))) c
    && is_held_by SourceType.advert_charge new.id c

-- `release_rejected_advert_payment_reference_claim`, the trigger on `advert_charges`
unfoldable pub release_rejected_charge_claim : AdvertCharge → AdvertCharge → Db → Db
release_rejected_charge_claim old new d =
    if same_charge_status new.status AdvertChargeStatus.payment_rejected
      && not (same_charge_status old.status new.status)
      && is_some new.payment_method
      && is_some new.payment_reference
    then record d { claims = delete_where (is_released_by_charge new) d.claims }
    else d

-- An update of one row of `advert_charges`, with the trigger after it.
unfoldable pub update_charge : AdvertCharge → AdvertCharge → Action ⊤
unfolding release_rejected_charge_claim
update_charge old new = do
  modify λ d. record d { charges = put charge_key new.property_id new d.charges }
  modify (release_rejected_charge_claim old new)
