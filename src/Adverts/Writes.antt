-- ===== src/Adverts/Writes.antt =====
-- The rule on active properties and their charges, through one write of either table.
use rental_property.Base.{
  ℕ, ◌≤◌, ◌≡◌, ◌⊎◌, inl, inr, refl, sym, ◌∙◌, Bool, true, false, ◌==◌, none, some, List, [], ◌∷◌,
  ◌++◌, arith, find, put, count, first, find-put_self, find-put_ne, find-append_old, count-put,
  count-append, eq-or-ne, Bool-cases, ==_refl,
}
use rental_property.Models.{
  Db, Property, PropertyStatus, AdvertCharge, property_key, charge_key, find_property, find_charge,
}
use rental_property.Action.{World}
use rental_property.Listings.{is_settled}
use rental_property.Frame.{Lasting}

-- Every active property has a charge that was paid or waived.
abbrev pub Paid : Db → Type 0
Paid d =
    (k : ℕ) (p : Property)
    → find_property k d ≡ some p
    → p.status ≡ PropertyStatus.active
    → (c : AdvertCharge) × (find_charge k d ≡ some c) × (is_settled c.status ≡ true)

-- `unique=True` of `advert_charges.property_id`.
abbrev pub is_charge_of : ℕ → AdvertCharge → Bool
is_charge_of k c = c.property_id == k

abbrev pub OneCharge : Db → Type 0
OneCharge d = (k : ℕ) → count (is_charge_of k) d.charges ≤ 1

abbrev pub Advertised : Db → Type 0
Advertised d = Paid d × OneCharge d

abbrev pub AdvertisedWorld : World → Type 0
AdvertisedWorld w = Advertised w.session × Advertised w.committed

module _ (d d' : Db) where
  pub same-Advertised :
      d'.properties ≡ d.properties → d'.charges ≡ d.charges → Advertised d → Advertised d'
  same-Advertised properties charges h =
      (λ k p fp active. rw charges (h.0 k p (rw properties at fp) active), rw charges h.1)

  -- A property is written back.
  pub put_property-Advertised :
      (p p' : Property)
      → find_property p.id d ≡ some p
      → p'.id ≡ p.id
      → d'.properties ≡ put property_key p.id p' d.properties
      → d'.charges ≡ d.charges
      → (p'.status ≡ PropertyStatus.active
          → (c : AdvertCharge) × (find_charge p.id d ≡ some c) × (is_settled c.status ≡ true))
      → Advertised d
      → Advertised d'
  put_property-Advertised p p' fp id properties charges settled h = (
    λ k q fq active.
        let found : find property_key k (put property_key p.id p' d.properties) ≡ some q =
          rw properties at fq in
        elim (eq-or-ne k p.id) [
          | inl same ↦
              let new : find property_key p.id (put property_key p.id p' d.properties) ≡ some p' =
                find-put_self property_key p.id p' p d.properties id fp in
              let row : some q ≡ some p' = cc in
              let here : q ≡ p' = cc in
              let live : p'.status ≡ PropertyStatus.active = rw here at active in
              rw (charges, same) (settled live)
          | inr other ↦
              let old : find property_key k d.properties ≡ some q =
                sym (find-put_ne property_key k p.id p' d.properties id other) ∙ found in
              rw charges (h.0 k q old active)
        ],
    rw charges h.1,
  )

  -- A charge is written back: if it was settled, it stays so.
  pub put_charge-Advertised :
      (c c' : AdvertCharge)
      → find_charge c.property_id d ≡ some c
      → c'.property_id ≡ c.property_id
      → (is_settled c.status ≡ true → is_settled c'.status ≡ true)
      → d'.properties ≡ d.properties
      → d'.charges ≡ put charge_key c.property_id c' d.charges
      → Advertised d
      → Advertised d'
  put_charge-Advertised c c' fc key stays properties charges h = (
    λ k p fp active.
        let (x, fx, settled) = h.0 k p (rw properties at fp) active in
        elim (eq-or-ne k c.property_id) [
          | inl same ↦
              let new : find charge_key c.property_id (put charge_key c.property_id c' d.charges)
                  ≡ some c' =
                find-put_self charge_key c.property_id c' c d.charges key fc in
              let row : some x ≡ some c = cc in
              let here : x ≡ c = cc in (c', rw (charges, same) new, stays (rw here at settled))
          | inr other ↦ (
            x,
            rw charges (find-put_ne charge_key k c.property_id c' d.charges key other ∙ fx),
            settled,
          )
        ],
    λ k. rw charges (
        ground
          (arith, h.1 k, count-put charge_key (is_charge_of k) c.property_id c' c d.charges fc)),
  )

find-none-count :
    (k : ℕ) (cs : List AdvertCharge) → find charge_key k cs ≡ none → count (is_charge_of k) cs ≡ 0
unfolding find count
find-none-count k [] h = refl
find-none-count k (x ∷ cs) h = ground (arith, find-none-count k cs)

find-append-none :
    (k : ℕ) (p : Property) (v : Property) (ps : List Property)
    → find property_key k (ps ++ v ∷ []) ≡ some p
    → (find property_key k ps ≡ some p) ⊎ (p ≡ v)
unfolding find
find-append-none k p v [] h = ground arith
find-append-none k p v (x ∷ ps) h = ground (arith, find-append-none k p v ps)

module _ (d d' : Db) where
  -- A property is added, and is not active.
  pub append_property-Advertised :
      (v : Property)
      → v.status ≡ PropertyStatus.draft
      → d'.properties ≡ d.properties ++ v ∷ []
      → d'.charges ≡ d.charges
      → Advertised d
      → Advertised d'
  append_property-Advertised v draft properties charges h = (
    λ k p fp active. elim (find-append-none k p v d.properties (rw properties at fp)) [
      | inl old ↦ rw charges (h.0 k p old active)
      | inr same ↦
          let status : v.status ≡ PropertyStatus.active = rw same at active in absurd (ground arith)
    ],
    rw charges h.1,
  )

  -- A charge is added where there was none.
  pub append_charge-Advertised :
      (v : AdvertCharge)
      → find_charge v.property_id d ≡ none
      → d'.properties ≡ d.properties
      → d'.charges ≡ d.charges ++ v ∷ []
      → Advertised d
      → Advertised d'
  append_charge-Advertised v new properties charges h = (
    λ k p fp active.
        let (x, fx, settled) = h.0 k p (rw properties at fp) active in
        (x, rw charges (find-append_old charge_key k v x d.charges fx), settled),
    λ k. rw charges (
        ground (
          arith,
          h.1 k,
          find-none-count v.property_id d.charges new,
          count-append (is_charge_of k) v d.charges,
        )),
  )

first-is_charge_of :
    (test : AdvertCharge → Bool) (c : AdvertCharge) (cs : List AdvertCharge)
    → first test cs ≡ some c
    → 1 ≤ count (is_charge_of c.property_id) cs
unfolding first count
first-is_charge_of test c [] h = ground arith
first-is_charge_of test c (x ∷ cs) h = elim (Bool-cases (test x)) [
  | inl e ↦
      let row : some x ≡ some c = ground arith in
      let here : x ≡ c = cc in rw (here, ==_refl c.property_id) (omega arith)
  | inr e ↦
      let later : first test cs ≡ some c = ground arith in
      ground (arith, first-is_charge_of test c cs later)
]

-- The charge that is found by its id is the one of its property.
pub find-first :
    (test : AdvertCharge → Bool) (c : AdvertCharge) (cs : List AdvertCharge)
    → first test cs ≡ some c
    → count (is_charge_of c.property_id) cs ≤ 1
    → find charge_key c.property_id cs ≡ some c
unfolding find first count
find-first test c [] h one = ground arith
find-first test c (x ∷ cs) h one = elim (Bool-cases (test x)) [
  | inl e ↦
      let row : some x ≡ some c = ground arith in
      let here : x ≡ c = cc in rw (here, ==_refl c.property_id) refl
  | inr e ↦
      let later : first test cs ≡ some c = ground arith in
      let there = first-is_charge_of test c cs later in
      let other : (x.property_id == c.property_id) ≡ false = ground arith in
      rw other (find-first test c cs later (ground arith))
]

-- On both sides of the session.
pub committed-AdvertisedWorld :
    (w w' : World)
    → (w'.committed ≡ w.committed) ⊎ (w'.committed ≡ w'.session)
    → Advertised w'.session
    → AdvertisedWorld w
    → AdvertisedWorld w'
committed-AdvertisedWorld w w' (inl e) kept h = (kept, rw e h.1)
committed-AdvertisedWorld w w' (inr e) kept h = (kept, rw e kept)

pub AdvertisedWorld-Lasting : Lasting AdvertisedWorld
AdvertisedWorld-Lasting = record {
  aside =
      λ w w' (units, tenancies, ledger, claims, committed, ids) (properties, charges) bookings h.
        committed-AdvertisedWorld w w' committed
          (same-Advertised w.session w'.session properties charges h.0) h;
  reviewed =
      λ b w w' (units, tenancies, ledger, claims, committed, ids) (properties, charges) fb sb
          bookings h.
        committed-AdvertisedWorld w w' committed
          (same-Advertised w.session w'.session properties charges h.0) h;
}
