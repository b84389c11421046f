-- ===== src/Progress/Overdue.antt =====
-- The overdue bookings after a run of the worker (maintenance.py).
use rental_property.Base.{
  ℕ, ◌+◌, ◌*◌, ◌≤◌, ◌≡◌, refl, sym, ◌⊎◌, inl, inr, Bool, true, false, none, some, List, [], ◌∷◌,
  arith, find-put_self, find-put_ne, find-put-none, find-key, count, by_option, eq-or-ne,
  Bool-cases, one_if, ==_ne,
}
use rental_property.Models.{
  Db, RentalUnit, UnitStatus, same_unit_status, Booking, booking_key, unit_key, find_booking,
  find_unit,
}
use rental_property.Action.{World}
use rental_property.Maintenance.{
  has_id, AreRows, is_stale, expire_booking, expire_all, stale_bookings, stale_bookings-AreRows,
  stale_bookings-count, due_viewings, remind_all-SameRentals, hour, run_maintenance,
  run_maintenance-eq,
}
use rental_property.Occupancy.Reviewing.{released_status}
use rental_property.Occupancy.Expiring.{
  expired_booking, expire_booking-tables, expire_booking-no_unit, expire_booking-AreRows,
  expire_booking-units, expire_all-world,
}
use rental_property.Occupancy.Keys.{Keyed, Keyed-UniqueIds}

-- If the booking `k` is overdue, its unit is not there.
abbrev IsCleared : ℕ → ℕ → Db → Type 0
IsCleared now k d =
    (b : Booking) → find_booking k d ≡ some b → is_stale now b ≡ true → find_unit b.unit_id d ≡ none

expire_booking-same_units :
    (b : Booking) (w : World) (u : RentalUnit)
    → find_unit b.unit_id w.session ≡ some u
    → same_unit_status u.status UnitStatus.booking_pending ≡ false
    → (expire_booking b w).1.session.units ≡ w.session.units
unfolding expire_booking
expire_booking-same_units b w u fu other = ground arith

expire_booking-find_unit :
    (b : Booking) (w : World) (j : ℕ)
    → find_unit j w.session ≡ none
    → find_unit j (expire_booking b w).1.session ≡ none
expire_booking-find_unit b w j missing =
    by_option (find_unit b.unit_id w.session) (λ fu. rw (expire_booking-no_unit b w fu) missing)
      λ u fu. elim (Bool-cases (same_unit_status u.status UnitStatus.booking_pending)) [
        | inl pending ↦ rw (expire_booking-units b w u fu (ground arith)) (
            find-put-none unit_key j u.id
              (record u { status = released_status u.id w.session.tenancies }) w.session.units refl
              missing)
        | inr other ↦ rw (expire_booking-same_units b w u fu other) missing
      ]

-- The booking that was expired is cleared, and the others stay so.
expire_booking_self :
    (now : ℕ) (b : Booking) (w : World)
    → find_booking b.id w.session ≡ some b
    → IsCleared now b.id (expire_booking b w).1.session
expire_booking_self now b w fb x fx stale =
    by_option (find_unit b.unit_id w.session)
      (λ fu.
        let same = expire_booking-no_unit b w fu in
        let before : find_booking b.id w.session ≡ some x = rw same at fx in
        let row : some x ≡ some b = cc in let old : x ≡ b = cc in rw (same, old) fu)
      λ u fu.
        let (committed, bookings, tenancies) = expire_booking-tables b w u fu in
        let new =
          find-put_self booking_key b.id (expired_booking b w) b w.session.bookings refl fb in
        let row : some x ≡ some (expired_booking b w) = cc in
        let old : x ≡ expired_booking b w = cc in absurd (ground (arith, stale, old))

expire_booking-IsCleared :
    (now k : ℕ) (b : Booking) (w : World)
    → find_booking b.id w.session ≡ some b
    → IsCleared now k w.session
    → IsCleared now k (expire_booking b w).1.session
expire_booking-IsCleared now k b w fb h = elim (eq-or-ne k b.id) [
  | inl same ↦ rw same (expire_booking_self now b w fb)
  | inr other ↦ λ x fx stale.
      by_option (find_unit b.unit_id w.session)
        (λ fu. let same = expire_booking-no_unit b w fu in rw same (h x (rw same at fx) stale))
        λ u fu.
          let (committed, bookings, tenancies) = expire_booking-tables b w u fu in
          let apart =
            find-put_ne booking_key k b.id (expired_booking b w) w.session.bookings refl other in
          let before : find_booking k w.session ≡ some x = cc in
          expire_booking-find_unit b w x.unit_id (h x before stale)
]

expire_all-IsCleared :
    (now k : ℕ) (bs : List Booking) (w : World)
    → AreRows (λ j. find_booking j w.session) bs
    → IsCleared now k w.session ⊎ (1 ≤ count (has_id k) bs)
    → IsCleared now k (expire_all bs w).1.session
unfolding expire_all count
expire_all-IsCleared now k [] w rows (inl h) = h
expire_all-IsCleared now k [] w rows (inr h) = absurd (omega arith)
expire_all-IsCleared now k (b ∷ bs) w rows h = rw (expire_all-world b bs w) (
    expire_all-IsCleared now k bs (expire_booking b w).1
      (expire_booking-AreRows b bs w rows.1 rows.2) (step h))
  where
    step :
        IsCleared now k w.session ⊎ (1 ≤ one_if (has_id k b) + count (has_id k) bs)
        → IsCleared now k (expire_booking b w).1.session ⊎ (1 ≤ count (has_id k) bs)
    step (inl g) = inl (expire_booking-IsCleared now k b w rows.0 g)
    step (inr g) = elim (eq-or-ne k b.id) [
      | inl same ↦ inl (rw same (expire_booking_self now b w rows.0))
      | inr other ↦ inr (ground (arith, ==_ne b.id k (λ e. other (sym e))))
    ]

-- Before the loop: a row is not overdue, or it is one of those that are read.
stale_bookings-IsCleared :
    (locked : ℕ → Bool) (now k : ℕ) (d : Db)
    → locked k ≡ false
    → IsCleared now k d ⊎ (1 ≤ count (has_id k) (stale_bookings locked now d))
stale_bookings-IsCleared locked now k d free =
    by_option (find_booking k d)
      (λ none_there. inl (λ x fx stale. absurd (ground (arith, fx, none_there))))
      λ b fb. elim (Bool-cases (is_stale now b)) [
        | inl overdue ↦
            let key : b.id ≡ k = find-key booking_key k b d.bookings fb in
            inr (stale_bookings-count locked now k b d fb overdue (rw key free))
        | inr fresh ↦ inl λ x fx stale.
            let row : some x ≡ some b = cc in
            let old : x ≡ b = cc in absurd (ground (arith, fresh, rw old at stale))
      ]

-- After a run of the worker, no booking of the committed database that nobody locked and whose unit
-- is there is unpaid past its deadline, provided that the ids of the bookings were unique.
pub run_maintenance-is_stale :
    (locked : ℕ → Bool) (now hours : ℕ) (w : World) (k : ℕ) (b : Booking) (u : RentalUnit)
    → Keyed w.next_uuid w.session
    → locked k ≡ false
    → find_booking k (run_maintenance locked now hours w).1.committed ≡ some b
    → find_unit b.unit_id (run_maintenance locked now hours w).1.committed ≡ some u
    → is_stale now b ≡ false
run_maintenance-is_stale locked now hours w k b u keyed free fb fu =
    let bs = stale_bookings locked now w.session in
    let w1 = (expire_all bs w).1 in
    let due = due_viewings locked now (now + hours * hour) w1.session in
    let rows =
      stale_bookings-AreRows locked now w.session (Keyed-UniqueIds w.next_uuid w.session keyed) in
    let (units, bookings, tenancies, committed, ids) = remind_all-SameRentals now due w1 in
    let (r, e) = run_maintenance-eq locked now hours w in
    let cleared =
      expire_all-IsCleared now k bs w rows (stale_bookings-IsCleared locked now k w.session free) in
    let fb' : find_booking k w1.session ≡ some b = rw (e, bookings) at fb in
    let fu' : find_unit b.unit_id w1.session ≡ some u = rw (e, units) at fu in
    elim (Bool-cases (is_stale now b)) [
      | inl overdue ↦ absurd (ground (arith, cleared b fb' overdue, fu'))
      | inr fresh ↦ fresh
    ]
