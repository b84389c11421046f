-- ===== src/Maintenance/Totals.antt =====
-- The loops of maintenance.py, and a whole run.
use rental_property.Base.{
  ℕ, ◌+◌, ◌≡◌, refl, ap, ◌∙◌, List, [], ◌∷◌, arith, one_if, is_some, Option-cases, inl, inr, not,
  ◌&&◌, ◌*◌, Bool, select,
}
use rental_property.Models.{Db, Booking, ViewingRequest, find_unit, find_property}
use rental_property.Action.{
  World, Result, ok, ◌>>=◌, ◌>>◌, pure, commit, bind-ok, world-bind_pure, Action,
}
use rental_property.Maintenance.Defs.{
  expire_booking, expire_all, stale_bookings, expire_stale_bookings, remind, remind_all, scheduled,
  sort_by, needs_reminder, send_upcoming_viewing_reminders, run_maintenance, hour,
  MaintenanceResult,
}

pub expire_booking-result :
    (b : Booking) (w : World)
    → (expire_booking b w).0 ≡ ok (one_if (is_some (find_unit b.unit_id w.session)))
unfolding expire_booking
expire_booking-result b w = ground arith

-- How many bookings of a list have a unit to release.
pub expire_all-returns : (bs : List Booking) (w : World) → (n : ℕ) × ((expire_all bs w).0 ≡ ok n)
unfolding expire_all
expire_all-returns [] w = (0, refl)
expire_all-returns (b ∷ bs) w =
    let n = one_if (is_some (find_unit b.unit_id w.session)) in
    let w' = (expire_booking b w).1 in
    let (m, e) = expire_all-returns bs w' in
    (
      n + m,
      ap (λ (x : Result ℕ × World). x.0)
          (bind-ok (expire_booking b) (λ (k : ℕ). expire_all bs >>= λ l. pure (k + l)) w n
              (expire_booking-result b w)
            ∙ bind-ok (expire_all bs) (λ (l : ℕ). pure (n + l)) w' m e),
    )

-- `gets f >>= k` asks once, and goes on.
pub expire_stale_bookings-eq :
    (locked : ℕ → Bool) (now : ℕ) (w : World)
    → expire_stale_bookings locked now w ≡ expire_all (stale_bookings locked now w.session) w
unfolding expire_stale_bookings
expire_stale_bookings-eq locked now w = refl

remind-returns : (now : ℕ) (v : ViewingRequest) (w : World) → (n : ℕ) × ((remind now v w).0 ≡ ok n)
unfolding remind
remind-returns now v w = elim (Option-cases (find_property v.property_id w.session)) [
  | inl e ↦ (0, ground arith)
  | inr (p, e) ↦ (one_if (is_some v.scheduled_at), ground arith)
]

remind_all-returns :
    (now : ℕ) (vs : List ViewingRequest) (w : World) → (n : ℕ) × ((remind_all now vs w).0 ≡ ok n)
unfolding remind_all
remind_all-returns now [] w = (0, refl)
remind_all-returns now (v ∷ vs) w =
    let (n, e) = remind-returns now v w in
    let w' = (remind now v w).1 in
    let (m, e') = remind_all-returns now vs w' in
    (
      n + m,
      ap (λ (x : Result ℕ × World). x.0)
          (bind-ok (remind now v) (λ (k : ℕ). remind_all now vs >>= λ l. pure (k + l)) w n e
            ∙ bind-ok (remind_all now vs) (λ (l : ℕ). pure (n + l)) w' m e'),
    )

pub remind_all-world :
    (now : ℕ) (v : ViewingRequest) (vs : List ViewingRequest) (w : World)
    → (remind_all now (v ∷ vs) w).1 ≡ (remind_all now vs (remind now v w).1).1
unfolding remind_all
remind_all-world now v vs w =
    let (n, e) = remind-returns now v w in
    ap (λ (x : Result ℕ × World). x.1)
      (bind-ok (remind now v) (λ (k : ℕ). remind_all now vs >>= λ l. pure (k + l)) w n e)
    ∙ world-bind_pure (remind_all now vs) (λ m. n + m) (remind now v w).1

-- The viewings to remind of, as they are read.
abbrev pub due_viewings : (ℕ → Bool) → ℕ → ℕ → Db → List ViewingRequest
due_viewings locked now deadline d =
    sort_by scheduled (
      select (λ (v : ViewingRequest). needs_reminder now deadline v && not (locked v.id))
        d.viewings)

-- One run of the worker always returns: it expires, reminds and commits, in this order.
pub run_maintenance-eq :
    (locked : ℕ → Bool) (now hours : ℕ) (w : World)
    → let w1 = (expire_all (stale_bookings locked now w.session) w).1 in
      let w2 = (remind_all now (due_viewings locked now (now + hours * hour) w1.session) w1).1 in
      (r : MaintenanceResult) × (run_maintenance locked now hours w
        ≡ (ok r, record w2 { committed = w2.session }))
unfolding run_maintenance
run_maintenance-eq locked now hours w =
    let w1 = (expire_all (stale_bookings locked now w.session) w).1 in
    let due = due_viewings locked now (now + hours * hour) w1.session in
    let (n, e) = expire_all-returns (stale_bookings locked now w.session) w in
    let (m, e') = remind_all-returns now due w1 in
    (
      record { expired_bookings = n; viewing_reminders = m },
      bind-ok (expire_all (stale_bookings locked now w.session)) (λ (a : ℕ). finish a) w n e
          ∙ bind-ok (remind_all now due)
              (λ (b : ℕ). commit >> pure (record { expired_bookings = n; viewing_reminders = b }))
              w1 m e',
    )
  where
    finish : ℕ → Action MaintenanceResult
    finish a = do
      b ← send_upcoming_viewing_reminders locked now hours
      commit
      pure (record { expired_bookings = a; viewing_reminders = b })

-- A reminder touches no unit, no booking and no tenancy.
abbrev pub SameRentals : World → World → Type 0
SameRentals w w' =
    (w'.session.units ≡ w.session.units)
    × (w'.session.bookings ≡ w.session.bookings)
    × (w'.session.tenancies ≡ w.session.tenancies)
    × (w'.committed ≡ w.committed)
    × (w'.next_uuid ≡ w.next_uuid)

remind-SameRentals : (now : ℕ) (v : ViewingRequest) (w : World) → SameRentals w (remind now v w).1
unfolding remind
remind-SameRentals now v w = ground arith

pub remind_all-SameRentals :
    (now : ℕ) (vs : List ViewingRequest) (w : World) → SameRentals w (remind_all now vs w).1
unfolding remind_all
remind_all-SameRentals now [] w = (refl, refl, refl, refl, refl)
remind_all-SameRentals now (v ∷ vs) w =
    let (a, b, c, d, e) = remind-SameRentals now v w in
    let (a', b', c', d', e') = remind_all-SameRentals now vs (remind now v w).1 in
    rw (remind_all-world now v vs w) (a' ∙ a, b' ∙ b, c' ∙ c, d' ∙ d, e' ∙ e)
