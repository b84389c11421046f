-- ===== src/Providers/Registration.antt =====
-- The registry of adapters of payment_providers.py.
use rental_property.Base.{
  ◌≡◌, refl, Bool, true, false, Option, none, some, [], ◌∷◌, arith, if◌then◌else◌,
}
use rental_property.Text.{
  Str, strip, lower, str_eq, str_eq_iff, strip_idem, lower_idem, strip-lower,
}
use rental_property.Action.{Result, ok, err, Error}
use rental_property.Providers.Names.{
  is_provider_name, normalize_provider_name, Registry, lookup, assign, discard,
  register_payment_provider, unregister_payment_provider, get_payment_provider,
}

normalize_provider_name-ok :
    (p n : Str)
    → normalize_provider_name p ≡ ok n
    → (n ≡ lower (strip p)) × (is_provider_name n ≡ true)
unfolding normalize_provider_name
normalize_provider_name-ok p n h = ground arith

-- A normalised name is normalised to itself.
pub normalize_provider_name_idem :
    (p n : Str) → normalize_provider_name p ≡ ok n → normalize_provider_name n ≡ ok n
unfolding normalize_provider_name
normalize_provider_name_idem p n h =
    let (e, valid) = normalize_provider_name-ok p n h in
    let same : lower (strip n) ≡ n =
      rw (e, strip-lower (strip p), strip_idem p, lower_idem (strip p)) refl in
    rw (same, valid) refl

module _ {A : Type 0} where
  lookup-assign :
      (j k : Str) (a : A) (r : Registry A)
      → lookup j (assign k a r) ≡ (if str_eq k j then some a else lookup j r)
  unfolding lookup assign
  lookup-assign j k a [] = ground arith
  lookup-assign j k a (x ∷ r) =
      ground (arith, lookup-assign j k a r, str_eq_iff x.0 k, str_eq_iff x.0 j, str_eq_iff k j)

  lookup-discard :
      (j k : Str) (r : Registry A)
      → lookup j (discard k r) ≡ (if str_eq k j then none else lookup j r)
  unfolding lookup discard
  lookup-discard j k [] = ground arith
  lookup-discard j k (x ∷ r) =
      ground (arith, lookup-discard j k r, str_eq_iff x.0 k, str_eq_iff x.0 j, str_eq_iff k j)

-- A case split that keeps the equation.
by_result :
    {A B : Type 0} (x : Result A) → ((e : Error) → x ≡ err e → B) → ((a : A) → x ≡ ok a → B) → B
by_result (err e) failed done = failed e refl
by_result (ok a) failed done = done a refl

-- Two names that are written for one provider.
abbrev pub same_provider : Result Str → Result Str → Bool
same_provider (ok n) (ok m) = str_eq n m
same_provider _ _ = false

-- The registry as its users see it: from the name that a caller writes to an adapter.
abbrev pub view : {A : Type 0} → Registry A → Str → Option A
view r p = get_payment_provider p r

module _ {A : Type 0} where
  get_payment_provider-assign :
      (p n : Str) (a : A) (r : Registry A)
      → get_payment_provider p (assign n a r) ≡ (
          if same_provider (ok n) (normalize_provider_name p)
          then some a
          else get_payment_provider p r)
  unfolding get_payment_provider
  get_payment_provider-assign p n a r =
      elim (normalize_provider_name p)
        as (λ x. elim x [ err _ ↦ none | ok name ↦ lookup name (assign n a r) ] ≡ (
          if same_provider (ok n) x
          then some a
          else elim x [ err _ ↦ none | ok name ↦ lookup name r ])) [
            | err e ↦ refl
            | ok m ↦ lookup-assign m n a r
          ]

  get_payment_provider-discard :
      (p n : Str) (r : Registry A)
      → get_payment_provider p (discard n r) ≡ (
          if same_provider (ok n) (normalize_provider_name p)
          then none
          else get_payment_provider p r)
  unfolding get_payment_provider
  get_payment_provider-discard p n r =
      elim (normalize_provider_name p)
        as (λ x. elim x [ err _ ↦ none | ok name ↦ lookup name (discard n r) ] ≡ (
          if same_provider (ok n) x
          then none
          else elim x [ err _ ↦ none | ok name ↦ lookup name r ])) [
            | err e ↦ refl
            | ok m ↦ lookup-discard m n r
          ]

  unregister_payment_provider-ok :
      (q n : Str) (r : Registry A)
      → normalize_provider_name q ≡ ok n
      → unregister_payment_provider q r ≡ discard n r
  unfolding unregister_payment_provider
  unregister_payment_provider-ok q n r e = rw (e, unregister_payment_provider) refl

  -- The registry is a partial function from names, read up to spelling: a registration that
  -- answers sets it at one provider, an unregistration clears it there, and every other provider
  -- is found as before.
  pub view-register_payment_provider :
      (q : Str) (a : A) (r r' : Registry A)
      → register_payment_provider q a r ≡ ok r'
      → (p : Str)
      → let same = same_provider (normalize_provider_name q) (normalize_provider_name p) in
        (view r' p ≡ (if same then some a else view r p))
        × (view (unregister_payment_provider q r') p ≡ (if same then none else view r p))
  unfolding register_payment_provider
  view-register_payment_provider q a r r' h p =
      by_result (normalize_provider_name q) (λ e x. absurd (ground arith))
        λ n x.
          let stored : r' ≡ assign n a r = ground arith in
          let kept : get_payment_provider p r' ≡ (
              if same_provider (ok n) (normalize_provider_name p)
              then some a
              else get_payment_provider p r) =
            rw stored (get_payment_provider-assign p n a r) in
          let cleared = get_payment_provider-discard p n r' in
          (
            rw x kept,
            rw (x, unregister_payment_provider-ok q n r' x) (ground (arith, cleared, kept)),
          )
