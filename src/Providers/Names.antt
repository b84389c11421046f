-- ===== src/Providers/Names.antt =====
-- Provider names and the registry of adapters: payment_providers.py.
use rental_property.Base.{
  ℕ, Bool, false, ◌&&◌, ◌||◌, ◌==◌, Option, none, some, List, [], ◌∷◌, if◌then◌else◌, leb,
}
use rental_property.Text.{Str, strip, lower, str_eq, length, all_of}
use rental_property.Action.{Result, ok, err, provider_name_invalid}

abbrev pub is_name_start : ℕ → Bool
is_name_start c = leb b'a' c && leb c b'z' || leb b'0' c && leb c b'9'

abbrev pub is_name_part : ℕ → Bool
is_name_part c = is_name_start c || c == b'_' || c == b'-'

-- `_PROVIDER_RE`: a letter or a digit, then at most 39 letters, digits, `_` or `-`.
unfoldable pub is_provider_name : Str → Bool
is_provider_name [] = false
is_provider_name (c ∷ s) = is_name_start c && leb (length s) 39 && all_of is_name_part s

unfoldable pub normalize_provider_name : Str → Result Str
unfolding is_provider_name
normalize_provider_name provider =
    let normalized = lower (strip provider) in
    if is_provider_name normalized then ok normalized else err provider_name_invalid

-- `_adapters`, a dictionary by normalised name
abbrev pub Registry : Type 0 → Type 0
Registry A = List (Str × A)

module _ {A : Type 0} where
  unfoldable pub lookup : Str → Registry A → Option A
  lookup name [] = none
  lookup name (entry ∷ rest) = if str_eq entry.0 name then some entry.1 else lookup name rest

  unfoldable pub assign : Str → A → Registry A → Registry A
  assign name a [] = (name, a) ∷ []
  assign name a (entry ∷ rest) =
      if str_eq entry.0 name then (name, a) ∷ rest else entry ∷ assign name a rest

  unfoldable pub discard : Str → Registry A → Registry A
  discard name [] = []
  discard name (entry ∷ rest) =
      if str_eq entry.0 name then discard name rest else entry ∷ discard name rest

  unfoldable pub register_payment_provider : Str → A → Registry A → Result (Registry A)
  register_payment_provider provider adapter adapters = elim (normalize_provider_name provider) [
    | err e ↦ err e
    | ok name ↦ ok (assign name adapter adapters)
  ]

  unfoldable pub unregister_payment_provider : Str → Registry A → Registry A
  unregister_payment_provider provider adapters = elim (normalize_provider_name provider) [
    | err _ ↦ adapters
    | ok name ↦ discard name adapters
  ]

  unfoldable pub get_payment_provider : Str → Registry A → Option A
  get_payment_provider provider adapters = elim (normalize_provider_name provider) [
    | err _ ↦ none
    | ok name ↦ lookup name adapters
  ]
