-- ===== src/Providers/Resolution.antt =====
-- `resolve_payment_provider_event` of payment_reconciliation.py.
use mathlib.Core.Path.{subst}
use rental_property.Base.{
  ◌∙◌, ℕ, ◌≡◌, refl, if◌then◌else◌, some, arith, by_option, find, put, find-put_self, find-key,
}
use rental_property.Text.{Str, strip}
use rental_property.Models.{User, PaymentProviderEvent, ProcessingStatus, event_key, find_event}
use rental_property.Action.{
  World, Result, ok, err, Error, Ensures, Ensures-ok, forbidden_role, provider_event_not_found,
  only_manual_review_resolved,
}
use rental_property.Bookings.{has_role, admins_only}
use rental_property.Providers.Webhooks.{apply_resolution, resolve_payment_provider_event}

resolve_payment_provider_event-result :
    (Q : Result PaymentProviderEvent × World → Type 0) (id : ℕ) (text : Str) (admin : User)
    (w : World)
    → ((e : Error) → Q (err e, w))
    → ((row : PaymentProviderEvent)
        → find_event id w.session ≡ some row
        → Q (apply_resolution row text admin w))
    → Q (resolve_payment_provider_event id text admin w)
unfolding resolve_payment_provider_event
resolve_payment_provider_event-result Q id text admin w refused done =
    by_option (find_event id w.session)
      (λ e. ground (arith, refused forbidden_role, refused provider_event_not_found))
      λ row found.
        ground (arith, refused forbidden_role, refused only_manual_review_resolved, done row found)

-- A resolved event is refused.
resolve_payment_provider_event-refused :
    (id : ℕ) (text : Str) (admin : User) (row : PaymentProviderEvent) (w : World)
    → find_event id w.session ≡ some row
    → row.processing_status ≡ ProcessingStatus.resolved
    → (e : Error) × (resolve_payment_provider_event id text admin w ≡ (err e, w))
unfolding resolve_payment_provider_event
resolve_payment_provider_event-refused id text admin row w found s = (
  if has_role admins_only admin then only_manual_review_resolved else forbidden_role,
  ground arith,
)

-- What is returned, stored and committed.
abbrev pub IsResolved : Str → User → World → PaymentProviderEvent → World → Type 0
IsResolved text admin w row w' =
    (row.processing_status ≡ ProcessingStatus.resolved)
    × (row.resolution_note ≡ some (strip text))
    × (row.reconciled_by ≡ some admin.id)
    × (row.reconciled_at ≡ some w.now)
    × (find_event row.id w'.session ≡ some row)
    × (w'.committed ≡ w'.session)

module _ (id : ℕ) (row : PaymentProviderEvent) (text : Str) (admin : User) (w : World) where
  abbrev resolved_row : PaymentProviderEvent
  resolved_row = record row {
    processing_status = ProcessingStatus.resolved;
    resolution_note = some (strip text);
    reconciled_at = some w.now;
    reconciled_by = some admin.id;
  }

  apply_resolution-rows :
      let x = apply_resolution row text admin w in
      (x.0 ≡ ok resolved_row)
      × (x.1.session.provider_events ≡ put event_key row.id resolved_row w.session.provider_events)
      × (x.1.committed ≡ x.1.session)
  unfolding apply_resolution
  apply_resolution-rows = (refl, refl, refl)

  apply_resolution-found :
      find_event id w.session ≡ some row
      → find_event row.id (apply_resolution row text admin w).1.session ≡ some resolved_row
  apply_resolution-found fe =
      let (answer, events, committed) = apply_resolution-rows in
      let key : row.id ≡ id = find-key event_key id row w.session.provider_events fe in
      let here : find event_key row.id w.session.provider_events ≡ some row = cc in
      rw events
        (find-put_self event_key row.id resolved_row row w.session.provider_events refl here)

-- A resolution that answers has marked the event, with the note without the blanks around it, the
-- administrator and the time, and committed that; a later resolution, with any note and by anyone,
-- is refused and changes nothing in any world where the event's row is as the first one left it,
-- whatever the clock says and whatever else is stored. One that is refused has changed nothing.
pub resolve_payment_provider_event-once :
    (id : ℕ) (text text' : Str) (admin admin' : User) (w v : World)
    → find_event id v.session
      ≡ find_event id (resolve_payment_provider_event id text admin w).1.session
    → Ensures
        (resolve_payment_provider_event id text admin w)
        (λ row w'.
          IsResolved text admin w row w'
          × ((e : Error) × (resolve_payment_provider_event id text' admin' v ≡ (err e, v))))
        (λ w'. w' ≡ w)
resolve_payment_provider_event-once id text text' admin admin' w v =
    resolve_payment_provider_event-result
      (λ x. find_event id v.session ≡ find_event id x.1.session → Ensures x done failed) id text
      admin w (λ e same. refl)
      λ row fe same.
        let (answer, events, committed) = apply_resolution-rows id row text admin w in
        let found = apply_resolution-found id row text admin w fe in
        let key : row.id ≡ id = find-key event_key id row w.session.provider_events fe in
        let there : find_event id (apply_resolution row text admin w).1.session
            ≡ some (resolved_row id row text admin w) =
          subst
            (λ k.
              find_event k (apply_resolution row text admin w).1.session
              ≡ some (resolved_row id row text admin w))
            key found in
        Ensures-ok (apply_resolution row text admin w) done failed
          (resolved_row id row text admin w) answer
          (
            (refl, refl, refl, refl, found, committed),
            resolve_payment_provider_event-refused id text' admin'
                (resolved_row id row text admin w) v (same ∙ there) refl,
          )
  where
    done : PaymentProviderEvent → World → Type 0
    done row w' =
        IsResolved text admin w row w'
        × ((e : Error) × (resolve_payment_provider_event id text' admin' v ≡ (err e, v)))

    failed : World → Type 0
    failed w' = w' ≡ w
