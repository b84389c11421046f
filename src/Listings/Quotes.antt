-- ===== src/Listings/Quotes.antt =====
-- What an administrator decides about an advertising charge: admin.py.
use rental_property.Base.{
  ℕ, Bool, false, ◌||◌, Option, none, some, [], ◌∷◌, ◌++◌, if◌then◌else◌, ltb,
}
use rental_property.Text.{Str, codes}
use rental_property.Models.{
  Db, User, Property, PropertyStatus, same_property_status, AdvertCharge, AdvertChargeStatus,
  same_charge_status, NotificationType, PayloadItem, AuditAction, EntityType, Value, Fields,
  decimal_value, charge_status_value, optional_value, find_charge,
}
use rental_property.Action.{
  Action, ◌>>=◌, ◌>>◌, pure, gets, get_or_raise, modify, commit, utcnow, uuid4, raise_if,
  raise_unless, approve_before_quoting, charge_must_be_positive, charge_final,
  charge_not_awaiting_verification,
}
use rental_property.Audit.{add_audit_event, detail}
use rental_property.Payments.{update_charge}
use rental_property.Bookings.{require_roles, notify, admins_only, note_or}
use rental_property.Listings.Owners.{property_or_404}

-- `AdvertChargeQuote`
pub record AdvertChargeQuote : Type 0 where
  pub amount : ℕ
  pub note : Option Str
  pub waive : Bool

-- A charge that is paid, waived or under verification.
abbrev pub is_final : Option AdvertCharge → Bool
is_final none = false
is_final (some c) =
    same_charge_status c.status AdvertChargeStatus.paid
    || same_charge_status c.status AdvertChargeStatus.waived
    || same_charge_status c.status AdvertChargeStatus.payment_submitted

abbrev pub quoted_status : AdvertChargeQuote → AdvertChargeStatus
quoted_status payload =
    if payload.waive then AdvertChargeStatus.waived else AdvertChargeStatus.quoted

abbrev pub quoted_amount : AdvertChargeQuote → ℕ
quoted_amount payload = if payload.waive then 0 else payload.amount

-- The quote written over a charge, in the two branches of the handler.
abbrev pub requoted : AdvertCharge → AdvertChargeQuote → User → ℕ → AdvertCharge
requoted charge payload admin now = record charge {
  amount = quoted_amount payload;
  status = quoted_status payload;
  note = payload.note;
  quoted_by = admin.id;
  payment_method = none;
  payment_reference = none;
  payment_submitted_at = none;
  confirmed_by = if payload.waive then some admin.id else none;
  confirmed_at = if payload.waive then some now else none;
}

-- A new charge, or the one that is there, written over.
unfoldable pub write_quote :
    ℕ → Option AdvertCharge → AdvertChargeQuote → User → Action AdvertCharge
unfolding update_charge
write_quote property_id none payload admin = do
  now ← utcnow
  id ← uuid4
  let charge : AdvertCharge = record {
    id = id;
    property_id = property_id;
    amount = quoted_amount payload;
    currency = codes "LSL";
    status = quoted_status payload;
    note = payload.note;
    quoted_by = admin.id;
    payment_method = none;
    payment_reference = none;
    payment_submitted_at = none;
    confirmed_by = if payload.waive then some admin.id else none;
    confirmed_at = if payload.waive then some now else none;
  }
  modify λ d. record d { charges = d.charges ++ charge ∷ [] }
  pure charge
write_quote property_id (some charge) payload admin = do
  now ← utcnow
  let charge' = requoted charge payload admin now
  update_charge charge charge'
  pure charge'

unfoldable pub apply_quote :
    Property → Option AdvertCharge → AdvertChargeQuote → User → Action AdvertCharge
unfolding write_quote notify add_audit_event
apply_quote row found payload admin = do
  charge ← write_quote row.id found payload admin
  notify row.owner_id NotificationType.advert_charge_quoted (PayloadItem.property_id row.id ∷ [])
  add_audit_event
      (if payload.waive then AuditAction.advert_charge_waived else AuditAction.advert_charge_quoted)
      EntityType.property (some row.id) (some admin)
      (detail "from_status"
        (optional_value (λ (c : AdvertCharge). charge_status_value c.status) found)
        (detail "to_status" (charge_status_value (quoted_status payload)) (
          detail "amount" (decimal_value (quoted_amount payload))
            (detail "currency" (Value.text (codes "LSL")) Fields.end))))
  commit
  pure charge

unfoldable pub quote_advert_charge : ℕ → AdvertChargeQuote → User → Action AdvertCharge
unfolding require_roles property_or_404 apply_quote
quote_advert_charge property_id payload admin = do
  require_roles admins_only admin
  row ← property_or_404 property_id
  raise_unless (same_property_status row.status PropertyStatus.approved) approve_before_quoting
  raise_unless (payload.waive || ltb 0 payload.amount) charge_must_be_positive
  found ← gets (find_charge property_id)
  raise_if (is_final found) charge_final
  apply_quote row found payload admin

-- A decision on a submitted payment: the charge as it is written back, its notice and its event.
unfoldable pub decide_charge :
    Property
    → AdvertCharge
    → AdvertCharge
    → NotificationType
    → AuditAction
    → User
    → Action AdvertCharge
unfolding update_charge notify add_audit_event
decide_charge row charge charge' notice action admin = do
  update_charge charge charge'
  notify row.owner_id notice (PayloadItem.property_id row.id ∷ [])
  add_audit_event action EntityType.property (some row.id) (some admin) (
      detail "from_status" (charge_status_value charge.status) (
        detail "to_status" (charge_status_value charge'.status) (
          detail "amount" (decimal_value charge.amount) (
            detail "currency" (Value.text charge.currency) (
              detail "payment_method" (optional_value Value.text charge.payment_method)
                Fields.end)))))
  commit
  pure charge'

-- `if payload.note: charge.note = payload.note`
abbrev pub note_over : Option Str → Option Str → Option Str
note_over none old = old
note_over (some []) old = old
note_over (some (c ∷ note)) old = some (c ∷ note)

-- The charge of a property whose payment awaits verification.
abbrev pub find_submitted : ℕ → Db → Option AdvertCharge
find_submitted property_id d = elim (find_charge property_id d) [
  | none ↦ none
  | some c ↦
      if same_charge_status c.status AdvertChargeStatus.payment_submitted then some c else none
]

unfoldable pub confirm_advert_charge_payment : ℕ → Option Str → User → Action AdvertCharge
unfolding require_roles property_or_404 decide_charge
confirm_advert_charge_payment property_id note admin = do
  require_roles admins_only admin
  row ← property_or_404 property_id
  charge ← get_or_raise (find_submitted property_id) charge_not_awaiting_verification
  now ← utcnow
  decide_charge row charge
      (record charge {
        status = AdvertChargeStatus.paid;
        confirmed_by = some admin.id;
        confirmed_at = some now;
        note = note_over note charge.note;
      })
      NotificationType.advert_charge_paid AuditAction.advert_charge_payment_confirmed admin

unfoldable pub reject_advert_charge_payment : ℕ → Option Str → User → Action AdvertCharge
unfolding require_roles property_or_404 decide_charge
reject_advert_charge_payment property_id note admin = do
  require_roles admins_only admin
  row ← property_or_404 property_id
  charge ← get_or_raise (find_submitted property_id) charge_not_awaiting_verification
  decide_charge row charge
      (record charge {
        status = AdvertChargeStatus.payment_rejected;
        note =
            some (note_or (codes "The advertising payment reference could not be verified") note);
      })
      NotificationType.advert_charge_payment_rejected AuditAction.advert_charge_payment_rejected
      admin
