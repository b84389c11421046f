-- ===== src/Tenancies/Repeat.antt =====
-- `end_tenancy` of tenancies.py, asked a second time.
use mathlib.Core.Path.{subst}
use rental_property.Base.{
  ℕ, ◌≡◌, refl, sym, ◌∙◌, ap, true, none, some, arith, by_option, find, put, find-key,
  find-put_self,
}
use rental_property.Models.{
  User, Property, RentalUnit, Tenancy, TenancyStatus, tenancy_key, find_tenancy, find_unit,
  find_property,
}
use rental_property.Action.{
  World, Result, ok, err, Error, ◌>>=◌, bind-ok, forbidden_role, tenancy_not_found,
  tenancy_unit_missing, tenancy_property_missing, tenancy_access_denied,
}
use rental_property.Bookings.{has_role}
use rental_property.Tenancies.Shared.{TenancyRead, read_tenancy, managers}
use rental_property.Tenancies.Leave.{apply_end, end_tenancy}
use rental_property.Tenancies.Outcomes.{read_tenancy-world}

-- The reply is of a tenancy that has ended, and can be read again.
abbrev IsEnded : ℕ → Result TenancyRead × World → Type 0
IsEnded id x =
    (reply : TenancyRead) (w' : World)
    → x ≡ (ok reply, w')
    → (t : Tenancy) × (find_tenancy id w'.session ≡ some t)
      × (t.status ≡ TenancyStatus.ended)
      × (read_tenancy t w' ≡ (ok reply, w'))

read-IsEnded :
    (id : ℕ) (t : Tenancy) (w : World)
    → find_tenancy id w.session ≡ some t
    → t.status ≡ TenancyStatus.ended
    → IsEnded id (read_tenancy t w)
read-IsEnded id t w ft st reply w' e =
    let same : w ≡ w' =
      sym (read_tenancy-world t w) ∙ ap (λ (x : Result TenancyRead × World). x.1) e in
    (
      t,
      subst (λ (v : World). find_tenancy id v.session ≡ some t) same ft,
      st,
      subst (λ v. read_tenancy t v ≡ (ok reply, w')) same e,
    )

module _ (id : ℕ) (t : Tenancy) (u : RentalUnit) (q : Property) (user : User) (w : World)
    (ft : find_tenancy id w.session ≡ some t) where
  abbrev gone : Tenancy
  gone = record t {
    status = TenancyStatus.ended;
    ended_at = some w.now;
    inspection_completed_at = none;
  }

  apply_end-effect :
      ((apply_end t u q user w).0 ≡ ok gone)
      × ((apply_end t u q user w).1.session.tenancies
          ≡ put tenancy_key t.id gone w.session.tenancies)
  unfolding apply_end
  apply_end-effect = (refl, refl)

  apply_end-IsEnded : IsEnded id ((apply_end t u q user >>= read_tenancy) w)
  apply_end-IsEnded =
      let w1 = (apply_end t u q user w).1 in
      let key : t.id ≡ id = find-key tenancy_key id t w.session.tenancies ft in
      let here : find tenancy_key t.id w.session.tenancies ≡ some t = cc in
      let rows = apply_end-effect.1 in
      let there : find tenancy_key t.id (put tenancy_key t.id gone w.session.tenancies)
          ≡ some gone =
        find-put_self tenancy_key t.id gone t w.session.tenancies refl here in
      let found : find_tenancy id w1.session ≡ some gone = cc in
      subst (IsEnded id)
        (sym (bind-ok (apply_end t u q user) read_tenancy w gone apply_end-effect.0))
        (read-IsEnded id gone w1 found refl)

end_tenancy-result :
    (Q : Result TenancyRead × World → Type 0) (id : ℕ) (user : User) (w : World)
    → ((e : Error) → Q (err e, w))
    → ((t : Tenancy)
        → find_tenancy id w.session ≡ some t
        → t.status ≡ TenancyStatus.ended
        → Q (read_tenancy t w))
    → ((t : Tenancy) (u : RentalUnit) (q : Property)
        → find_tenancy id w.session ≡ some t
        → Q ((apply_end t u q user >>= read_tenancy) w))
    → Q (end_tenancy id user w)
unfolding end_tenancy
end_tenancy-result Q id user w refused again ended =
    by_option (find_tenancy id w.session)
      (λ e. ground (arith, refused forbidden_role, refused tenancy_not_found))
      λ t ft.
        by_option (find_unit t.unit_id w.session)
          (λ e. ground (arith, refused forbidden_role, refused tenancy_unit_missing, again t ft))
          λ u fu.
            by_option (find_property u.property_id w.session)
              (λ e.
                ground
                  (arith, refused forbidden_role, refused tenancy_property_missing, again t ft))
              λ q fq. ground (
                arith,
                refused forbidden_role,
                refused tenancy_access_denied,
                again t ft,
                ended t u q ft,
              )

end_tenancy-ended :
    (id : ℕ) (user : User) (t : Tenancy) (w : World)
    → has_role managers user ≡ true
    → find_tenancy id w.session ≡ some t
    → t.status ≡ TenancyStatus.ended
    → end_tenancy id user w ≡ read_tenancy t w
unfolding end_tenancy
end_tenancy-ended id user t w role ft st = ground arith

-- Once a move-out has been answered, a repeated request gets the same answer and changes nothing,
-- from any landlord or administrator, whether the property is theirs or not.
pub end_tenancy-again :
    (id : ℕ) (user other : User) (w w' : World) (reply : TenancyRead)
    → has_role managers other ≡ true
    → end_tenancy id user w ≡ (ok reply, w')
    → end_tenancy id other w' ≡ (ok reply, w')
end_tenancy-again id user other w w' reply role e =
    let (t, ft, st, read) =
      end_tenancy-result (IsEnded id) id user w (λ x r v h. absurd (ground arith))
        (λ t ft st. read-IsEnded id t w ft st) (λ t u q ft. apply_end-IsEnded id t u q user w ft)
        reply w' e in
    end_tenancy-ended id other t w' role ft st ∙ read
