-- ===== src/Listings/Published.antt =====
-- What must be settled before a property is submitted and before it is published: properties.py
-- and admin.py.
use rental_property.Base.{
  ℕ, ◌≤◌, ◌≡◌, refl, true, some, arith, by_option, find, put, find-put_self, find-key, count,
}
use rental_property.Models.{
  Db, User, Property, PropertyStatus, AdvertCharge, LandlordProfile, VerificationStatus,
  NotificationType, AuditAction, Fields, property_key, find_property, find_charge, find_profile,
  charge_status_value,
}
use rental_property.Action.{
  World, Result, ok, err, Error, Ensures, Ensures-ok, forbidden_role, property_not_found,
  approve_before_activation, charge_not_settled, property_access_denied, property_not_editable,
  landlord_not_verified, property_without_units,
}
use rental_property.Audit.{detail}
use rental_property.Listings.Owners.{is_editable, in_property, await_verification, submit_property}
use rental_property.Listings.Review.{move_property, activate_property, is_settled}

module _ (id : ℕ) (row : Property) (status : PropertyStatus) (notice : NotificationType)
    (action : AuditAction) (details : Fields) (admin : User) (w : World) where
  pub move_property-rows :
      let x = move_property row status notice action details admin w in
      (x.0 ≡ ok (record row { status = status }))
      × (x.1.session.properties
          ≡ put property_key row.id (record row { status = status }) w.session.properties)
      × (x.1.committed ≡ x.1.session)
  unfolding move_property
  move_property-rows = (refl, refl, refl)

  -- The property as it is found afterwards.
  move_property-found :
      find_property id w.session ≡ some row
      → find_property id (move_property row status notice action details admin w).1.committed
        ≡ some (record row { status = status })
  move_property-found fp =
      let (answer, properties, committed) = move_property-rows in
      let key : row.id ≡ id = find-key property_key id row w.session.properties fp in
      let here : find property_key row.id w.session.properties ≡ some row = cc in
      rw (committed, properties, ← key)
        (find-put_self property_key row.id (record row { status = status }) row w.session.properties
          refl here)

pub activate_property-result :
    (Q : Result Property × World → Type 0) (id : ℕ) (admin : User) (w : World)
    → ((e : Error) → Q (err e, w))
    → ((row : Property) (c : AdvertCharge)
        → find_property id w.session ≡ some row
        → row.status ≡ PropertyStatus.approved
        → find_charge id w.session ≡ some c
        → is_settled c.status ≡ true
        → Q (
            move_property row PropertyStatus.active NotificationType.property_activated
              AuditAction.property_activated
              (detail "advert_charge_status" (charge_status_value c.status) Fields.end)
              admin
              w))
    → Q (activate_property id admin w)
unfolding activate_property
activate_property-result Q id admin w refused done =
    by_option (find_property id w.session)
      (λ e. ground (arith, refused forbidden_role, refused property_not_found))
      λ row fp.
        by_option (find_charge id w.session)
          (λ e. ground (
            arith,
            refused forbidden_role,
            refused approve_before_activation,
            refused charge_not_settled,
          ))
          λ c fc. ground (
            arith,
            refused forbidden_role,
            refused approve_before_activation,
            refused charge_not_settled,
            done row c fp,
          )

-- An activation that answers was of an approved property whose advertising charge had been paid or
-- waived, and has committed the property as active; one that is refused has changed nothing.
pub activate_property-settled :
    (id : ℕ) (admin : User) (w : World)
    → Ensures
        (activate_property id admin w)
        (λ p w'.
          (p.status ≡ PropertyStatus.active)
          × (find_property id w'.committed ≡ some p)
          × (find_property id w.session ≡ some (record p { status = PropertyStatus.approved }))
          × ((c : AdvertCharge) × (find_charge id w.session ≡ some c)
              × (is_settled c.status ≡ true)))
        (λ w'. w' ≡ w)
activate_property-settled id admin w =
    activate_property-result (λ x. Ensures x done failed) id admin w (λ e. refl)
      λ row c fp approved fc settled.
        let details = detail "advert_charge_status" (charge_status_value c.status) Fields.end in
        let moved =
          move_property-rows id row PropertyStatus.active NotificationType.property_activated
            AuditAction.property_activated details admin w in
        Ensures-ok _ done failed (record row { status = PropertyStatus.active }) moved.0
          (
            refl,
            move_property-found id row PropertyStatus.active NotificationType.property_activated
                AuditAction.property_activated details admin w fp,
            rw (← approved) fp,
            (c, fc, settled),
          )
  where
    done : Property → World → Type 0
    done p w' =
        (p.status ≡ PropertyStatus.active)
        × (find_property id w'.committed ≡ some p)
        × (find_property id w.session ≡ some (record p { status = PropertyStatus.approved }))
        × ((c : AdvertCharge) × (find_charge id w.session ≡ some c) × (is_settled c.status ≡ true))

    failed : World → Type 0
    failed w' = w' ≡ w

-- What a submission was let through with.
abbrev pub IsSubmittable : ℕ → User → Db → Property → Type 0
IsSubmittable id user d row =
    (find_property id d ≡ some row)
    × (is_editable row.status ≡ true)
    × (row.owner_id ≡ user.id)
    × (1 ≤ count (in_property row.id) d.units)
    × ((profile : LandlordProfile) × (find_profile user.id d ≡ some profile)
        × (profile.verification_status ≡ VerificationStatus.approved))

pub submit_property-result :
    (Q : Result Property × World → Type 0) (id : ℕ) (user : User) (w : World)
    → ((e : Error) → Q (err e, w))
    → ((row : Property) (profile : LandlordProfile)
        → find_property id w.session ≡ some row
        → is_editable row.status ≡ true
        → row.owner_id ≡ user.id
        → 1 ≤ count (in_property row.id) w.session.units
        → find_profile user.id w.session ≡ some profile
        → profile.verification_status ≡ VerificationStatus.approved
        → Q (await_verification row w))
    → Q (submit_property id user w)
unfolding submit_property
submit_property-result Q id user w refused done =
    by_option (find_property id w.session)
      (λ e. ground (arith, refused forbidden_role, refused property_not_found))
      λ row fp.
        by_option (find_profile user.id w.session)
          (λ e. ground (
            arith,
            refused forbidden_role,
            refused property_access_denied,
            refused property_not_editable,
            refused landlord_not_verified,
          ))
          λ profile fl. ground (
            arith,
            refused forbidden_role,
            refused property_access_denied,
            refused property_not_editable,
            refused landlord_not_verified,
            refused property_without_units,
            done row profile fp,
          )

module _ (id : ℕ) (row : Property) (w : World) where
  abbrev awaiting : Property
  awaiting = record row { status = PropertyStatus.pending_verification }

  pub await_verification-rows :
      let x = await_verification row w in
      (x.0 ≡ ok awaiting)
      × (x.1.session.properties ≡ put property_key row.id awaiting w.session.properties)
      × (x.1.committed ≡ x.1.session)
  unfolding await_verification
  await_verification-rows = (refl, refl, refl)

  await_verification-found :
      find_property id w.session ≡ some row
      → find_property id (await_verification row w).1.committed ≡ some awaiting
  await_verification-found fp =
      let (answer, properties, committed) = await_verification-rows in
      let key : row.id ≡ id = find-key property_key id row w.session.properties fp in
      let here : find property_key row.id w.session.properties ≡ some row = cc in
      rw (committed, properties, ← key)
        (find-put_self property_key row.id awaiting row w.session.properties refl here)

-- A property that was submitted for verification belongs to the landlord who submitted it, has a
-- unit, was a draft or rejected, and the landlord had been verified; it is committed as awaiting
-- verification. A submission that is refused has changed nothing.
pub submit_property-verified :
    (id : ℕ) (user : User) (w : World)
    → Ensures
        (submit_property id user w)
        (λ p w'.
          (p.status ≡ PropertyStatus.pending_verification)
          × (find_property id w'.committed ≡ some p)
          × ((row : Property) × IsSubmittable id user w.session row))
        (λ w'. w' ≡ w)
submit_property-verified id user w =
    submit_property-result (λ x. Ensures x done failed) id user w (λ e. refl)
      λ row profile fp editable owner units fl verified.
        let (answer, properties, committed) = await_verification-rows id row w in
        Ensures-ok _ done failed (awaiting id row w) answer (
          refl,
          await_verification-found id row w fp,
          (row, (fp, editable, owner, units, (profile, fl, verified))),
        )
  where
    done : Property → World → Type 0
    done p w' =
        (p.status ≡ PropertyStatus.pending_verification)
        × (find_property id w'.committed ≡ some p)
        × ((row : Property) × IsSubmittable id user w.session row)

    failed : World → Type 0
    failed w' = w' ≡ w
