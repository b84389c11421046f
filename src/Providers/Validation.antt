-- ===== src/Providers/Validation.antt =====
-- `_validate_event` of payment_providers.py.
use rental_property.Base.{
  ◌↔◌, ==_iff, ℕ, ◌≤◌, ◌≡◌, refl, true, false, Option, none, some, [], ◌∷◌, arith, ℤ,
}
use rental_property.Text.{
  Str, strip, lower, upper, length, str_eq, str_eq_iff, all_of, is_letter, codes,
}
use rental_property.Models.{SourceType, Outcome, source_text, outcome_text}
use rental_property.Action.{ok}
use rental_property.Providers.Events.{
  Timestamp, NormalizedPaymentEvent, ValidEvent, validate_event, read_source, read_outcome,
  read_amount, read_time, is_out_of, is_out_of_optional, is_no_currency, map_text,
}

-- What a validated event is made of.
abbrev pub IsValidated : NormalizedPaymentEvent → ValidEvent → Type 0
IsValidated e v =
    (v.event_id ≡ strip e.event_id)
    × (v.event_type ≡ strip e.event_type)
    × (v.provider_transaction_id ≡ map_text strip e.provider_transaction_id)
    × (v.currency ≡ map_text (λ s. upper (strip s)) e.currency)
    × (v.source_id ≡ e.source_id)
    × (is_out_of 180 v.event_id ≡ false)
    × (is_out_of 80 v.event_type ≡ false)
    × (is_out_of_optional 180 v.provider_transaction_id ≡ false)
    × (is_no_currency v.currency ≡ false)

validate_event-IsValidated :
    (e : NormalizedPaymentEvent) (v : ValidEvent) → validate_event e ≡ ok v → IsValidated e v
unfolding validate_event
validate_event-IsValidated e v h = ground arith

-- A text that is neither missing nor too long.
is_out_of-bounds :
    (most : ℕ) (s : Str) → is_out_of most s ≡ false → (1 ≤ length s) × (length s ≤ most)
unfolding is_out_of length
is_out_of-bounds most [] h = absurd (ground arith)
is_out_of-bounds most (c ∷ s) h = ground arith

-- The lengths of an optional text.
abbrev pub LengthWithin : ℕ → ℕ → Option Str → Type 0
LengthWithin least most none = Unit
LengthWithin least most (some s) = (least ≤ length s) × (length s ≤ most)

is_out_of_optional-LengthWithin :
    (most : ℕ) (o : Option Str) → is_out_of_optional most o ≡ false → LengthWithin 1 most o
unfolding is_out_of_optional
is_out_of_optional-LengthWithin most none h = tt
is_out_of_optional-LengthWithin most (some s) h = is_out_of-bounds most s h

is_out_of-within : (most : ℕ) (s : Str) → 1 ≤ length s → length s ≤ most → is_out_of most s ≡ false
unfolding is_out_of length
is_out_of-within most [] least most_of = absurd (ground arith)
is_out_of-within most (c ∷ s) least most_of = ground arith

is_out_of_optional-within :
    (most : ℕ) (o : Option Str) → LengthWithin 1 most o → is_out_of_optional most o ≡ false
unfolding is_out_of_optional
is_out_of_optional-within most none h = refl
is_out_of_optional-within most (some s) (least, most_of) = is_out_of-within most s least most_of

-- A currency of three letters.
abbrev pub IsCurrency : Option Str → Type 0
IsCurrency none = Unit
IsCurrency (some s) = (length s ≡ 3) × (all_of is_letter s ≡ true)

is_no_currency_iff : (o : Option Str) → (is_no_currency o ≡ false) ↔ IsCurrency o
unfolding is_no_currency
is_no_currency_iff none = (λ e. tt, λ h. refl)
is_no_currency_iff (some s) = ground (arith, ==_iff (length s) 3)

-- The amount as an adapter gives it, not below zero, and the time, with its timezone.
abbrev pub signed : Option ℕ → Option ℤ
signed none = none
signed (some n) = some (ℤ.pos n)

abbrev pub zoned : Option ℕ → Option Timestamp
zoned none = none
zoned (some t) = some (record { instant = t; has_timezone = true })

-- The event that an adapter's event describes.
abbrev pub Describes : NormalizedPaymentEvent → ValidEvent → Type 0
Describes e v =
    (v.event_id ≡ strip e.event_id)
    × (v.event_type ≡ strip e.event_type)
    × (v.provider_transaction_id ≡ map_text strip e.provider_transaction_id)
    × (v.currency ≡ map_text (λ s. upper (strip s)) e.currency)
    × (v.source_id ≡ e.source_id)
    × (lower (strip e.source_type) ≡ source_text v.source_type)
    × (lower (strip e.outcome) ≡ outcome_text v.outcome)
    × (e.amount ≡ signed v.amount)
    × (e.occurred_at ≡ zoned v.occurred_at)
    × LengthWithin 1 180 (some v.event_id)
    × LengthWithin 1 80 (some v.event_type)
    × LengthWithin 1 180 v.provider_transaction_id
    × IsCurrency v.currency

read_source-ok : (s : Str) (t : SourceType) → read_source s ≡ ok t → s ≡ source_text t
unfolding read_source source_text
read_source-ok s t h =
    ground (arith, str_eq_iff s (codes "booking"), str_eq_iff s (codes "advert_charge"))

read_source-source_text : (t : SourceType) → read_source (source_text t) ≡ ok t
unfolding read_source source_text str_eq
read_source-source_text SourceType.booking = refl
read_source-source_text SourceType.advert_charge = refl

read_outcome-ok : (s : Str) (o : Outcome) → read_outcome s ≡ ok o → s ≡ outcome_text o
unfolding read_outcome outcome_text
read_outcome-ok s o h = ground (
  arith,
  str_eq_iff s (codes "paid"),
  str_eq_iff s (codes "pending"),
  str_eq_iff s (codes "failed"),
  str_eq_iff s (codes "cancelled"),
  str_eq_iff s (codes "refunded"),
)

read_outcome-outcome_text : (o : Outcome) → read_outcome (outcome_text o) ≡ ok o
unfolding read_outcome outcome_text str_eq
read_outcome-outcome_text Outcome.paid = refl
read_outcome-outcome_text Outcome.pending = refl
read_outcome-outcome_text Outcome.failed = refl
read_outcome-outcome_text Outcome.cancelled = refl
read_outcome-outcome_text Outcome.refunded = refl

read_amount_iff : (z : Option ℤ) (o : Option ℕ) → (read_amount z ≡ ok o) ↔ (z ≡ signed o)
unfolding read_amount
read_amount_iff none none = ground arith
read_amount_iff none (some n) = ground arith
read_amount_iff (some (ℤ.pos m)) none = ground arith
read_amount_iff (some (ℤ.pos m)) (some n) = ground arith
read_amount_iff (some (ℤ.negsuc m)) none = ground arith
read_amount_iff (some (ℤ.negsuc m)) (some n) = ground arith

read_time_iff : (t : Option Timestamp) (o : Option ℕ) → (read_time t ≡ ok o) ↔ (t ≡ zoned o)
unfolding read_time
read_time_iff none none = ground arith
read_time_iff none (some n) = ground arith
read_time_iff (some t) none = ground arith
read_time_iff (some t) (some n) = ground arith

validate_event-reads :
    (e : NormalizedPaymentEvent) (v : ValidEvent)
    → validate_event e ≡ ok v
    → (read_source (lower (strip e.source_type)) ≡ ok v.source_type)
      × (read_outcome (lower (strip e.outcome)) ≡ ok v.outcome)
      × (read_amount e.amount ≡ ok v.amount)
      × (read_time e.occurred_at ≡ ok v.occurred_at)
unfolding validate_event
validate_event-reads e v h = ground arith

validate_event_complete :
    (e : NormalizedPaymentEvent) (v : ValidEvent) → Describes e v → validate_event e ≡ ok v
unfolding validate_event
validate_event_complete e v
      (
        ids, types, transactions, currencies, about, source, outcome, amount, time, id, type,
        transaction, currency,
      ) =
    let source_read : read_source (lower (strip e.source_type)) ≡ ok v.source_type =
      rw source (read_source-source_text v.source_type) in
    let outcome_read : read_outcome (lower (strip e.outcome)) ≡ ok v.outcome =
      rw outcome (read_outcome-outcome_text v.outcome) in
    ground (
      arith,
      is_out_of-within 180 v.event_id id.0 id.1,
      is_out_of-within 80 v.event_type type.0 type.1,
      is_out_of_optional-within 180 v.provider_transaction_id transaction,
      (is_no_currency_iff v.currency).1 currency,
      source_read,
      outcome_read,
      (read_amount_iff e.amount v.amount).1 amount,
      (read_time_iff e.occurred_at v.occurred_at).1 time,
    )

-- An adapter's event passes validation, as a given event, exactly when it describes that event:
-- its texts without the blanks around them, the currency in capitals, are the event's; its source
-- and its outcome, in small letters, are among the texts that are allowed and stand for the
-- event's; its amount is not negative and its time has a timezone; and the lengths are within 1 to
-- 180 for the ids, 1 to 80 for the type, and the currency has three letters.
pub validate_event_iff :
    (e : NormalizedPaymentEvent) (v : ValidEvent) → (validate_event e ≡ ok v) ↔ Describes e v
validate_event_iff e v = (described, validate_event_complete e v)
  where
    described : validate_event e ≡ ok v → Describes e v
    described h =
        let (ids, types, transactions, currencies, about, id, type, transaction, currency) =
          validate_event-IsValidated e v h in
        let (source, outcome, amount, time) = validate_event-reads e v h in
        (
          ids,
          types,
          transactions,
          currencies,
          about,
          read_source-ok (lower (strip e.source_type)) v.source_type source,
          read_outcome-ok (lower (strip e.outcome)) v.outcome outcome,
          (read_amount_iff e.amount v.amount).0 amount,
          (read_time_iff e.occurred_at v.occurred_at).0 time,
          is_out_of-bounds 180 v.event_id id,
          is_out_of-bounds 80 v.event_type type,
          is_out_of_optional-LengthWithin 180 v.provider_transaction_id transaction,
          (is_no_currency_iff v.currency).0 currency,
        )
