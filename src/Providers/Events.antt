-- ===== src/Providers/Events.antt =====
-- `NormalizedPaymentEvent` and `_validate_event` of payment_providers.py.
use rental_property.Base.{
  ℕ, Bool, false, not, ◌||◌, ◌==◌, Option, none, some, if◌then◌else◌, ltb, ℤ,
}
use rental_property.Text.{
  Str, codes, strip, lower, upper, str_eq, length, all_of, is_empty, is_letter,
}
use rental_property.Models.{SourceType, Outcome}
use rental_property.Action.{
  Result, ok, err, Error, ⊤, event_id_invalid, event_type_invalid, unsupported_source_type,
  unsupported_outcome, transaction_id_invalid, currency_invalid, amount_negative,
  event_time_without_timezone,
}

-- An instant, and whether its time zone is known.
pub record Timestamp : Type 0 where
  pub instant : ℕ
  pub has_timezone : Bool

-- `NormalizedPaymentEvent`, as an adapter returns it
pub record NormalizedPaymentEvent : Type 0 where
  pub event_id : Str
  pub event_type : Str
  pub provider_transaction_id : Option Str
  pub source_type : Str
  pub source_id : ℕ
  pub outcome : Str
  pub amount : Option ℤ
  pub currency : Option Str
  pub occurred_at : Option Timestamp

-- `NormalizedPaymentEvent`, as `_validate_event` returns it: the two texts with few values are read.
pub record ValidEvent : Type 0 where
  pub event_id : Str
  pub event_type : Str
  pub provider_transaction_id : Option Str
  pub source_type : SourceType
  pub source_id : ℕ
  pub outcome : Outcome
  pub amount : Option ℕ
  pub currency : Option Str
  pub occurred_at : Option ℕ

-- A chain of checks stops at the first error.
infixl 5 ◌>>=◌ ◌>>◌
abbrev pub ◌>>=◌ : {A B : Type 0} → Result A → (A → Result B) → Result B
◌>>=◌ r f = elim r [ ok a ↦ f a | err e ↦ err e ]

abbrev pub ◌>>◌ : {B : Type 0} → Result ⊤ → Result B → Result B
r >> s = r >>= λ _. s

abbrev pub refuse_if : Bool → Error → Result ⊤
refuse_if c e = if c then err e else ok tt

-- `not text or len(text) > most`
unfoldable pub is_out_of : ℕ → Str → Bool
is_out_of most s = is_empty s || ltb most (length s)

unfoldable pub is_out_of_optional : ℕ → Option Str → Bool
unfolding is_out_of
is_out_of_optional most none = false
is_out_of_optional most (some s) = is_out_of most s

unfoldable pub is_no_currency : Option Str → Bool
is_no_currency none = false
is_no_currency (some s) = not (length s == 3) || not (all_of is_letter s)

-- `_ALLOWED_SOURCES`
unfoldable pub read_source : Str → Result SourceType
read_source s =
    if str_eq s (codes "booking")
    then ok SourceType.booking
    else if str_eq s (codes "advert_charge")
    then ok SourceType.advert_charge
    else err unsupported_source_type

-- `_ALLOWED_OUTCOMES`
unfoldable pub read_outcome : Str → Result Outcome
read_outcome s =
    if str_eq s (codes "paid")
    then ok Outcome.paid
    else if str_eq s (codes "pending")
    then ok Outcome.pending
    else if str_eq s (codes "failed")
    then ok Outcome.failed
    else if str_eq s (codes "cancelled")
    then ok Outcome.cancelled
    else if str_eq s (codes "refunded")
    then ok Outcome.refunded
    else err unsupported_outcome

unfoldable pub read_amount : Option ℤ → Result (Option ℕ)
read_amount none = ok none
read_amount (some (ℤ.pos n)) = ok (some n)
read_amount (some (ℤ.negsuc n)) = err amount_negative

unfoldable pub read_time : Option Timestamp → Result (Option ℕ)
read_time none = ok none
read_time (some t) = if t.has_timezone then ok (some t.instant) else err event_time_without_timezone

abbrev pub map_text : (Str → Str) → Option Str → Option Str
map_text f none = none
map_text f (some s) = some (f s)

-- `_validate_event`
unfoldable pub validate_event : NormalizedPaymentEvent → Result ValidEvent
validate_event event = do
  let event_id = strip event.event_id
  let event_type = strip event.event_type
  let transaction_id = map_text strip event.provider_transaction_id
  let currency = map_text (λ s. upper (strip s)) event.currency
  refuse_if (is_out_of 180 event_id) event_id_invalid
  refuse_if (is_out_of 80 event_type) event_type_invalid
  source_type ← read_source (lower (strip event.source_type))
  outcome ← read_outcome (lower (strip event.outcome))
  refuse_if (is_out_of_optional 180 transaction_id) transaction_id_invalid
  refuse_if (is_no_currency currency) currency_invalid
  amount ← read_amount event.amount
  occurred_at ← read_time event.occurred_at
  ok (record {
    event_id = event_id;
    event_type = event_type;
    provider_transaction_id = transaction_id;
    source_type = source_type;
    source_id = event.source_id;
    outcome = outcome;
    amount = amount;
    currency = currency;
    occurred_at = occurred_at;
  })
