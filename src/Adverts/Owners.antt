-- ===== src/Adverts/Owners.antt =====
-- The rule through the handlers that write a property: properties.py and admin.py.
use rental_property.Base.{
  ℕ, ◌+◌, ◌≡◌, refl, inr, true, some, [], ◌∷◌, ◌++◌, arith, by_option, find, find-key,
}
use rental_property.Models.{
  Db, User, Property, PropertyStatus, AdvertCharge, NotificationType, AuditAction, Fields,
  property_key, find_property, find_charge, uuid_value, charge_status_value,
}
use rental_property.Action.{World}
use rental_property.Audit.{detail}
use rental_property.Listings.{
  move_property, approve_property, reject_property, activate_property, await_verification,
  submit_property, create_property, is_settled,
}
use rental_property.Listings.Published.{
  activate_property-result, submit_property-result, move_property-rows, await_verification-rows,
}
use rental_property.Adverts.Writes.{
  AdvertisedWorld, put_property-Advertised, append_property-Advertised, committed-AdvertisedWorld,
}

module _ (id : ℕ) (row : Property) (status : PropertyStatus) (notice : NotificationType)
    (action : AuditAction) (details : Fields) (admin : User) (w : World) where
  move_property-charges :
      (move_property row status notice action details admin w).1.session.charges ≡ w.session.charges
  unfolding move_property
  move_property-charges = refl

  move_property-Advertised :
      find_property id w.session ≡ some row
      → (status ≡ PropertyStatus.active
          → (c : AdvertCharge) × (find_charge row.id w.session ≡ some c)
            × (is_settled c.status ≡ true))
      → AdvertisedWorld w
      → AdvertisedWorld (move_property row status notice action details admin w).1
  move_property-Advertised fp settled h =
      let w' = (move_property row status notice action details admin w).1 in
      let (answer, properties, committed) =
        move_property-rows id row status notice action details admin w in
      let key : row.id ≡ id = find-key property_key id row w.session.properties fp in
      let here : find property_key row.id w.session.properties ≡ some row = cc in
      committed-AdvertisedWorld w w' (inr committed)
        (put_property-Advertised w.session w'.session row (record row { status = status }) here refl
          properties move_property-charges settled h.0)
        h

module _ (w : World) (h : AdvertisedWorld w) where
  pub approve_property-Advertised :
      (id : ℕ) (admin : User) → AdvertisedWorld (approve_property id admin w).1
  unfolding approve_property
  approve_property-Advertised id admin =
      by_option (find_property id w.session) (λ e. ground (arith, h))
        λ row fp.
          let moved =
            move_property-Advertised id row PropertyStatus.approved
              NotificationType.property_approved AuditAction.property_approved
              (detail "owner_id" (uuid_value row.owner_id) Fields.end) admin w fp
              (λ e. absurd (ground arith)) h in
          ground (arith, h, moved)

  pub reject_property-Advertised :
      (id : ℕ) (admin : User) → AdvertisedWorld (reject_property id admin w).1
  unfolding reject_property
  reject_property-Advertised id admin =
      by_option (find_property id w.session) (λ e. ground (arith, h))
        λ row fp.
          let moved =
            move_property-Advertised id row PropertyStatus.rejected
              NotificationType.property_rejected AuditAction.property_rejected
              (detail "owner_id" (uuid_value row.owner_id) Fields.end) admin w fp
              (λ e. absurd (ground arith)) h in
          ground (arith, h, moved)

  pub activate_property-Advertised :
      (id : ℕ) (admin : User) → AdvertisedWorld (activate_property id admin w).1
  activate_property-Advertised id admin =
      activate_property-result (λ x. AdvertisedWorld x.1) id admin w (λ e. h)
        λ row c fp approved fc settled.
          let key : row.id ≡ id = find-key property_key id row w.session.properties fp in
          move_property-Advertised id row PropertyStatus.active NotificationType.property_activated
            AuditAction.property_activated
            (detail "advert_charge_status" (charge_status_value c.status) Fields.end) admin w fp
            (λ e. (c, rw key fc, settled)) h

  await_verification-charges :
      (row : Property) → (await_verification row w).1.session.charges ≡ w.session.charges
  unfolding await_verification
  await_verification-charges row = refl

  pub submit_property-Advertised :
      (id : ℕ) (user : User) → AdvertisedWorld (submit_property id user w).1
  submit_property-Advertised id user =
      submit_property-result (λ x. AdvertisedWorld x.1) id user w (λ e. h)
        λ row profile fp editable owner units fl verified.
          let w' = (await_verification row w).1 in
          let (answer, properties, committed) = await_verification-rows id row w in
          let key : row.id ≡ id = find-key property_key id row w.session.properties fp in
          let here : find property_key row.id w.session.properties ≡ some row = cc in
          committed-AdvertisedWorld w w' (inr committed)
            (put_property-Advertised w.session w'.session row
              (record row { status = PropertyStatus.pending_verification }) here refl properties
              (await_verification-charges row) (λ e. absurd (ground arith)) h.0)
            h

  pub create_property-Advertised : (user : User) → AdvertisedWorld (create_property user w).1
  unfolding create_property
  create_property-Advertised user =
      let row : Property = record {
        id = w.next_uuid;
        owner_id = user.id;
        status = PropertyStatus.draft;
      } in
      let d : Db = record w.session { properties = w.session.properties ++ row ∷ [] } in
      let added : AdvertisedWorld
          (record w { session = d; committed = d; next_uuid = w.next_uuid + 1 }) =
        (
          append_property-Advertised w.session d row refl refl refl h.0,
          append_property-Advertised w.session d row refl refl refl h.0,
        ) in
      ground (arith, h, added)
