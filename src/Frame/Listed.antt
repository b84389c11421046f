-- ===== src/Frame/Listed.antt =====
-- The handlers of landlords.py, properties.py, advertising.py and admin.py, step by step.
use rental_property.Base.{ℕ, ◌+◌, Option, none, some, [], ◌∷◌, ◌++◌, refl, inl, inr, arith}
use rental_property.Text.{Str}
use rental_property.Models.{
  User, Property, LandlordProfile, AdvertCharge, PropertyStatus, NotificationType, AuditAction,
  Fields,
}
use rental_property.Action.{World, Keeps, Keeps-bind, Keeps-if}
use rental_property.Listings.{
  LandlordVerificationDecision, LandlordProfileUpdate, AdvertChargePaymentSubmit, AdvertChargeQuote,
  apply_landlord_decision, decide_landlord_verification, move_property, approve_property,
  activate_property, reject_property, write_quote, apply_quote, quote_advert_charge, decide_charge,
  confirm_advert_charge_payment, reject_advert_charge_payment, record_charge_payment,
  claim_charge_payment, submit_advert_charge_payment, update_my_landlord_profile,
  submit_landlord_verification, create_property, submittable_property, await_verification,
  submit_property, landlords_only, requoted,
}
use rental_property.Bookings.{require_roles}
use rental_property.Frame.Laws.{Lasting, Blind}
use rental_property.Frame.Tables.{
  commit-Keeps, notify-Keeps, notify_admins-Keeps, add_audit_event-Keeps, save_property-Keeps,
  save_profile-Keeps, update_charge-Keeps, claim_payment_reference-Keeps,
}

module _ (P : World → Type 0) where
  nothing : (w : World) → P w → P w
  nothing w h = h

module _ (P : World → Type 0) (laws : Lasting P) where
  apply_landlord_decision-Keeps :
      (profile : LandlordProfile) (payload : LandlordVerificationDecision) (admin : User)
      → Keeps P (apply_landlord_decision profile payload admin)
  unfolding apply_landlord_decision
  apply_landlord_decision-Keeps profile payload admin = search (
    Keeps-bind P,
    nothing P,
    save_profile-Keeps P laws,
    notify-Keeps P laws,
    add_audit_event-Keeps P laws,
    commit-Keeps P laws,
  )

  pub decide_landlord_verification-Keeps :
      (id : ℕ) (payload : LandlordVerificationDecision) (admin : User)
      → Keeps P (decide_landlord_verification id payload admin)
  unfolding decide_landlord_verification
  decide_landlord_verification-Keeps id payload admin =
      search (Keeps-bind P, nothing P, apply_landlord_decision-Keeps)

  pub update_my_landlord_profile-Keeps :
      (payload : LandlordProfileUpdate) (user : User)
      → Keeps P (update_my_landlord_profile payload user)
  unfolding update_my_landlord_profile
  update_my_landlord_profile-Keeps payload user =
      search (Keeps-bind P, nothing P, save_profile-Keeps P laws, commit-Keeps P laws)

  pub submit_landlord_verification-Keeps :
      (user : User) → Keeps P (submit_landlord_verification user)
  unfolding submit_landlord_verification
  submit_landlord_verification-Keeps user =
      search (Keeps-bind P, Keeps-if P, nothing P, save_profile-Keeps P laws, commit-Keeps P laws)
        depth 12 fits 9000

module _ (P : World → Type 0) (blind : Blind P) where
  abbrev laws : Lasting P
  laws = blind.lasting

  move_property-Keeps :
      (row : Property) (status : PropertyStatus) (notice : NotificationType) (action : AuditAction)
      (details : Fields) (admin : User)
      → Keeps P (move_property row status notice action details admin)
  unfolding move_property
  move_property-Keeps row status notice action details admin = search (
    Keeps-bind P,
    nothing P,
    save_property-Keeps P blind,
    notify-Keeps P laws,
    add_audit_event-Keeps P laws,
    commit-Keeps P laws,
  )

  pub approve_property-Keeps : (id : ℕ) (admin : User) → Keeps P (approve_property id admin)
  unfolding approve_property
  approve_property-Keeps id admin = search (Keeps-bind P, nothing P, move_property-Keeps)

  pub activate_property-Keeps : (id : ℕ) (admin : User) → Keeps P (activate_property id admin)
  unfolding activate_property
  activate_property-Keeps id admin = search (Keeps-bind P, nothing P, move_property-Keeps)

  pub reject_property-Keeps : (id : ℕ) (admin : User) → Keeps P (reject_property id admin)
  unfolding reject_property
  reject_property-Keeps id admin = search (Keeps-bind P, nothing P, move_property-Keeps)

  write_quote-Keeps :
      (id : ℕ) (found : Option AdvertCharge) (payload : AdvertChargeQuote) (admin : User)
      → Keeps P (write_quote id found payload admin)
  unfolding write_quote
  write_quote-Keeps id none payload admin w h =
      blind.adverts w (write_quote id none payload admin w).1
        (refl, refl, refl, λ u. u, inl refl, omega arith) refl h
  write_quote-Keeps id (some charge) payload admin w h =
      update_charge-Keeps P blind charge (requoted charge payload admin w.now) w h

  apply_quote-Keeps :
      (row : Property) (found : Option AdvertCharge) (payload : AdvertChargeQuote) (admin : User)
      → Keeps P (apply_quote row found payload admin)
  unfolding apply_quote
  apply_quote-Keeps row found payload admin = search (
    Keeps-bind P,
    nothing P,
    write_quote-Keeps,
    notify-Keeps P laws,
    add_audit_event-Keeps P laws,
    commit-Keeps P laws,
  )

  pub quote_advert_charge-Keeps :
      (id : ℕ) (payload : AdvertChargeQuote) (admin : User)
      → Keeps P (quote_advert_charge id payload admin)
  unfolding quote_advert_charge
  quote_advert_charge-Keeps id payload admin =
      search (Keeps-bind P, nothing P, apply_quote-Keeps) depth 12 fits 9000

  decide_charge-Keeps :
      (row : Property) (old new : AdvertCharge) (notice : NotificationType) (action : AuditAction)
      (admin : User)
      → Keeps P (decide_charge row old new notice action admin)
  unfolding decide_charge
  decide_charge-Keeps row old new notice action admin = search (
    Keeps-bind P,
    nothing P,
    update_charge-Keeps P blind,
    notify-Keeps P laws,
    add_audit_event-Keeps P laws,
    commit-Keeps P laws,
  )

  pub confirm_advert_charge_payment-Keeps :
      (id : ℕ) (text : Option Str) (admin : User)
      → Keeps P (confirm_advert_charge_payment id text admin)
  unfolding confirm_advert_charge_payment
  confirm_advert_charge_payment-Keeps id text admin =
      search (Keeps-bind P, nothing P, decide_charge-Keeps)

  pub reject_advert_charge_payment-Keeps :
      (id : ℕ) (text : Option Str) (admin : User)
      → Keeps P (reject_advert_charge_payment id text admin)
  unfolding reject_advert_charge_payment
  reject_advert_charge_payment-Keeps id text admin =
      search (Keeps-bind P, nothing P, decide_charge-Keeps)

  record_charge_payment-Keeps :
      (row : Property) (charge : AdvertCharge) (method reference : Str) (user : User)
      → Keeps P (record_charge_payment row charge method reference user)
  unfolding record_charge_payment
  record_charge_payment-Keeps row charge method reference user = search (
    Keeps-bind P,
    nothing P,
    update_charge-Keeps P blind,
    notify_admins-Keeps P laws,
    add_audit_event-Keeps P laws,
    commit-Keeps P laws,
  )

  claim_charge_payment-Keeps :
      (row : Property) (charge : AdvertCharge) (method reference : Str) (user : User)
      → Keeps P (claim_charge_payment row charge method reference user)
  unfolding claim_charge_payment
  claim_charge_payment-Keeps row charge method reference user =
      search (Keeps-bind P, claim_payment_reference-Keeps P laws, record_charge_payment-Keeps)

  pub submit_advert_charge_payment-Keeps :
      (id : ℕ) (payload : AdvertChargePaymentSubmit) (user : User)
      → Keeps P (submit_advert_charge_payment id payload user)
  unfolding submit_advert_charge_payment
  submit_advert_charge_payment-Keeps id payload user =
      search (Keeps-bind P, nothing P, claim_charge_payment-Keeps) depth 12

  pub create_property-Keeps : (user : User) → Keeps P (create_property user)
  unfolding create_property
  create_property-Keeps user =
      Keeps-bind P (require_roles landlords_only user) _ (nothing P) λ _ w h.
        let row : Property = record {
          id = w.next_uuid;
          owner_id = user.id;
          status = PropertyStatus.draft;
        } in
        let d = record w.session { properties = w.session.properties ++ row ∷ [] } in
        blind.adverts w (record w { session = d; committed = d; next_uuid = w.next_uuid + 1 })
          (refl, refl, refl, λ u. u, inr refl, omega arith) refl h

  submittable_property-Keeps : (id : ℕ) (user : User) → Keeps P (submittable_property id user)
  unfolding submittable_property
  submittable_property-Keeps id user w h = ground arith

  await_verification-Keeps : (row : Property) → Keeps P (await_verification row)
  unfolding await_verification
  await_verification-Keeps row =
      search (Keeps-bind P, nothing P, save_property-Keeps P blind, commit-Keeps P laws)

  pub submit_property-Keeps : (id : ℕ) (user : User) → Keeps P (submit_property id user)
  unfolding submit_property
  submit_property-Keeps id user =
      search (Keeps-bind P, submittable_property-Keeps, await_verification-Keeps)
