-- ===== src/Frame/Tables.antt =====
-- The writes that the handlers are made of, one table each.
use rental_property.Base.{refl, inl, inr, Option, List, arith}
use rental_property.Text.{Str}
use rental_property.Models.{
  Db, User, Property, AdvertCharge, LandlordProfile, ViewingRequest, PaymentProviderEvent,
  NotificationType, PayloadItem, AuditAction, EntityType, Fields, SourceType,
}
use rental_property.Base.{ℕ, ◌≤◌, count, count-delete_where}
use rental_property.Action.{World, Keeps, commit, uuid4}
use rental_property.Audit.{add_audit_event}
use rental_property.Payments.{
  is_claim_of, is_released_by_charge, release_rejected_charge_claim, update_charge,
  claim_payment_reference, claim_payment_reference-ClaimsUnique, with_claims, try_claim,
  claim-cases,
}
use rental_property.Bookings.{notify, notify_admins}
use rental_property.Listings.{save_property, save_profile}
use rental_property.Providers.{save_event}
use rental_property.Engagement.{save_viewing}
use rental_property.Frame.Laws.{Lasting, Blind}

release_rejected_charge_claim-count :
    (old new : AdvertCharge) (d : Db) (m r : Str)
    → count (is_claim_of m r) (release_rejected_charge_claim old new d).claims
      ≤ count (is_claim_of m r) d.claims
unfolding release_rejected_charge_claim
release_rejected_charge_claim-count old new d m r =
    ground (arith, count-delete_where (is_claim_of m r) (is_released_by_charge new) d.claims)

module _ (P : World → Type 0) (laws : Lasting P) where
  pub commit-Keeps : Keeps P commit
  commit-Keeps w h =
      laws.aside w (commit w).1 (refl, refl, refl, λ u. u, inr refl, omega arith) (refl, refl) refl
        h

  pub uuid4-Keeps : Keeps P uuid4
  uuid4-Keeps w h =
      laws.aside w (uuid4 w).1 (refl, refl, refl, λ u. u, inl refl, omega arith) (refl, refl) refl h

  pub notify-Keeps :
      (to : ℕ) (kind : NotificationType) (payload : List PayloadItem)
      → Keeps P (notify to kind payload)
  unfolding notify
  notify-Keeps to kind payload w h =
      laws.aside w (notify to kind payload w).1 (refl, refl, refl, λ u. u, inl refl, omega arith)
        (refl, refl) refl h

  pub notify_admins-Keeps :
      (kind : NotificationType) (payload : List PayloadItem) → Keeps P (notify_admins kind payload)
  unfolding notify_admins
  notify_admins-Keeps kind payload w h =
      laws.aside w (notify_admins kind payload w).1
        (refl, refl, refl, λ u. u, inl refl, omega arith) (refl, refl) refl h

  pub add_audit_event-Keeps :
      (action : AuditAction) (entity : EntityType) (id : Option ℕ) (actor : Option User)
      (details : Fields)
      → Keeps P (add_audit_event action entity id actor details)
  unfolding add_audit_event
  add_audit_event-Keeps action entity id actor details w h =
      laws.aside w (add_audit_event action entity id actor details w).1
        (refl, refl, refl, λ u. u, inl refl, omega arith) (refl, refl) refl h

  pub save_profile-Keeps : (p : LandlordProfile) → Keeps P (save_profile p)
  unfolding save_profile
  save_profile-Keeps p w h =
      laws.aside w (save_profile p w).1 (refl, refl, refl, λ u. u, inl refl, omega arith)
        (refl, refl) refl h

  pub save_event-Keeps : (e : PaymentProviderEvent) → Keeps P (save_event e)
  unfolding save_event
  save_event-Keeps e w h =
      laws.aside w (save_event e w).1 (refl, refl, refl, λ u. u, inl refl, omega arith) (refl, refl)
        refl h

  pub save_viewing-Keeps : (v : ViewingRequest) → Keeps P (save_viewing v)
  unfolding save_viewing
  save_viewing-Keeps v w h =
      laws.aside w (save_viewing v w).1 (refl, refl, refl, λ u. u, inl refl, omega arith)
        (refl, refl) refl h

  pub claim_payment_reference-Keeps :
      (m r : Str) (t : SourceType) (id : ℕ) → Keeps P (claim_payment_reference m r t id)
  claim_payment_reference-Keeps m r t id w h =
      let unique = claim_payment_reference-ClaimsUnique m r t id w in
      elim (claim-cases m r t id w) [
        | inl e ↦
            rw e
              (laws.aside w _ (refl, refl, refl, λ u. u, inl refl, omega arith) (refl, refl) refl h)
        | inr (c, cs, e) ↦ rw e (
            laws.aside w (with_claims cs w)
              (refl, refl, refl, rw e at unique, inl refl, omega arith) (refl, refl) refl h)
      ]

  -- A claim that is refused is recovered from.
  pub try_claim-Keeps : (m r : Str) (t : SourceType) (id : ℕ) → Keeps P (try_claim m r t id)
  unfolding try_claim
  try_claim-Keeps m r t id w h =
      let kept = claim_payment_reference-Keeps m r t id w h in
      elim (claim-cases m r t id w) [
        | inl e ↦ rw e (rw e at kept)
        | inr (c, cs, e) ↦ rw e (rw e at kept)
      ]

module _ (P : World → Type 0) (blind : Blind P) where
  pub save_property-Keeps : (p : Property) → Keeps P (save_property p)
  unfolding save_property
  save_property-Keeps p w h =
      blind.adverts w (save_property p w).1 (refl, refl, refl, λ u. u, inl refl, omega arith) refl h

  -- The trigger may release a claim, and never adds one.
  pub update_charge-Keeps : (old new : AdvertCharge) → Keeps P (update_charge old new)
  unfolding update_charge
  update_charge-Keeps old new w h =
      blind.adverts w (update_charge old new w).1
        (
          ground arith,
          ground arith,
          ground arith,
          λ u m r. omega (arith, release_rejected_charge_claim-count old new _ m r, u m r),
          inl refl,
          omega arith,
        )
        (ground arith) h
