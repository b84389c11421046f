-- ===== src/Payments/Claims.antt =====
-- `claim_payment_reference` of payments.py on each branch, and the uniqueness of the claims.
use rental_property.Base.{
  ℕ, ◌+◌, ◌≤◌, ◌≡◌, refl, ◌⊎◌, inl, inr, true, false, none, some, List, [], ◌∷◌, ◌++◌, arith, first,
  count, Option-cases, Bool-cases, first-append_new, first-none, count-append, if◌then◌else◌,
}
use rental_property.Text.{Str, str_eq, str_eq_iff}
use rental_property.Models.{Db, SourceType, PaymentReferenceClaim}
use rental_property.Action.{World, ok, err, reference_already_submitted, Ensures}
use rental_property.Payments.Defs.{
  normalize_payment_reference, normalize_method, is_claim_of, is_held_by, claim_normalized,
  claim_payment_reference,
}

-- No two claims are of one reference: the table's unique constraint.
abbrev pub ClaimsUnique : Db → Type 0
ClaimsUnique d = (m r : Str) → count (is_claim_of m r) d.claims ≤ 1

str_eq_refl : (s : Str) → str_eq s s ≡ true
str_eq_refl s = (str_eq_iff s s).1 refl

is_claim_of_self : (c : PaymentReferenceClaim) → is_claim_of c.method c.reference c ≡ true
unfolding is_claim_of
is_claim_of_self c = ground (arith, str_eq_refl c.method, str_eq_refl c.reference)

is_claim_of-eq :
    (m r : Str) (c : PaymentReferenceClaim)
    → is_claim_of m r c ≡ true
    → (c.method ≡ m) × (c.reference ≡ r)
unfolding is_claim_of
is_claim_of-eq m r c h = ground (arith, str_eq_iff c.method m, str_eq_iff c.reference r)

module _ (m r : Str) (t : SourceType) (id : ℕ) (w : World) where
  -- The row that a claim inserts.
  abbrev pub claim_row : PaymentReferenceClaim
  claim_row = record {
    id = w.next_uuid;
    method = m;
    reference = r;
    source_type = t;
    source_id = id;
  }

  pub claim_normalized-new :
      first (is_claim_of m r) w.session.claims ≡ none
      → claim_normalized m r t id w ≡ (
        ok claim_row,
        record w {
          session = record w.session { claims = w.session.claims ++ claim_row ∷ [] };
          next_uuid = w.next_uuid + 1;
        },
      )
  unfolding claim_normalized
  claim_normalized-new h = ground arith

  pub claim_normalized-old :
      (c : PaymentReferenceClaim)
      → first (is_claim_of m r) w.session.claims ≡ some c
      → claim_normalized m r t id w ≡ (
        (if is_held_by t id c then ok c else err reference_already_submitted),
        record w { next_uuid = w.next_uuid + 1 },
      )
  unfolding claim_normalized
  claim_normalized-old c h = ground arith

  claim_normalized-ClaimsUnique :
      ClaimsUnique w.session → ClaimsUnique (claim_normalized m r t id w).1.session
  claim_normalized-ClaimsUnique h m' r' =
      elim (Option-cases (first (is_claim_of m r) w.session.claims)) [
        | inr (c, e) ↦ rw (claim_normalized-old c e) (h m' r')
        | inl e ↦ rw (claim_normalized-new e) (
            ground (
              arith,
              h m' r',
              count-append (is_claim_of m' r') claim_row w.session.claims,
              is_claim_of-eq m' r' claim_row,
              first-none (is_claim_of m r) w.session.claims e,
            ))
      ]

  -- Who holds the reference after a claim: the claimer, or the one who held it before.
  pub claim_normalized-holder :
      Ensures
        (claim_normalized m r t id w)
        (λ c w'. (first (is_claim_of m r) w'.session.claims ≡ some c) × (is_held_by t id c ≡ true))
        (λ w'.
          (w'.session ≡ w.session)
          × ((c : PaymentReferenceClaim) × (first (is_claim_of m r) w.session.claims ≡ some c)
              × (is_held_by t id c ≡ false)))
  claim_normalized-holder = elim (Option-cases (first (is_claim_of m r) w.session.claims)) [
    | inl e ↦ rw (claim_normalized-new e) (
      first-append_new (is_claim_of m r) claim_row w.session.claims e (is_claim_of_self claim_row),
      unfold is_held_by in ground arith,
    )
    | inr (c, e) ↦ rw (claim_normalized-old c e) (elim (Bool-cases (is_held_by t id c)) [
      | inl held ↦ rw held (e, held)
      | inr other ↦ rw other (refl, (c, e, other))
    ])
  ]

-- A claim touches the claims alone, and uses up one id.
abbrev pub with_claims : List PaymentReferenceClaim → World → World
with_claims cs w = record w {
  session = record w.session { claims = cs };
  next_uuid = w.next_uuid + 1;
}

pub claim_normalized-cases :
    (m r : Str) (t : SourceType) (id : ℕ) (w : World)
    → (claim_normalized m r t id w
        ≡ (err reference_already_submitted, record w { next_uuid = w.next_uuid + 1 }))
      ⊎ ((c : PaymentReferenceClaim) × (cs : List PaymentReferenceClaim) × (claim_normalized m r t
              id w
            ≡ (ok c, with_claims cs w)))
claim_normalized-cases m r t id w = elim (Option-cases (first (is_claim_of m r) w.session.claims)) [
  | inl e ↦ inr (
    claim_row m r t id w,
    w.session.claims ++ claim_row m r t id w ∷ [],
    claim_normalized-new m r t id w e,
  )
  | inr (c, e) ↦ elim (Bool-cases (is_held_by t id c)) [
    | inl held ↦ inr (c, w.session.claims, rw (claim_normalized-old m r t id w c e, held))
    | inr other ↦ inl (rw (claim_normalized-old m r t id w c e, other))
  ]
]

pub claim-cases :
    (m r : Str) (t : SourceType) (id : ℕ) (w : World)
    → (claim_payment_reference m r t id w
        ≡ (err reference_already_submitted, record w { next_uuid = w.next_uuid + 1 }))
      ⊎ ((c : PaymentReferenceClaim) × (cs : List PaymentReferenceClaim) × (claim_payment_reference
              m r t id w
            ≡ (ok c, with_claims cs w)))
unfolding claim_payment_reference
claim-cases m r = claim_normalized-cases (normalize_method m) (normalize_payment_reference r)

-- A claim keeps the references unique.
pub claim_payment_reference-ClaimsUnique :
    (m r : Str) (t : SourceType) (id : ℕ) (w : World)
    → ClaimsUnique w.session
    → ClaimsUnique (claim_payment_reference m r t id w).1.session
unfolding claim_payment_reference
claim_payment_reference-ClaimsUnique m r =
    claim_normalized-ClaimsUnique (normalize_method m) (normalize_payment_reference r)
