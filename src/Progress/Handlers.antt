-- ===== src/Progress/Handlers.antt =====
-- The bookings through each handler, and through the worker.
use mathlib.Core.Path.{subst}
use rental_property.Base.{
  ℕ, ◌+◌, ◌*◌, ◌≡◌, refl, sym, Bool, Option, some, List, [], ◌∷◌, All, put, by_option,
}
use rental_property.Text.{Str}
use rental_property.Models.{
  Db, User, Booking, BookingStatus, booking_key, find_booking, find_unit, found_booking,
}
use rental_property.Action.{World}
use rental_property.Payments.{normalize_payment_reference, with_claims}
use rental_property.Bookings.{
  BookingCreate, BookingPaymentSubmit, method_text, create_held_booking,
  create_held_booking-outcome, start_review, book_unit, claim_and_review-outcome,
  submit_booking_payment, submit_booking_payment-outcome, apply_cancellation, cancel_booking,
  cancel_booking-outcome, apply_confirmation, confirm_booking, confirm_booking-outcome,
  apply_rejection, reject_booking_payment, reject_booking_payment-outcome,
}
use rental_property.Tenancies.{
  TenantNoticeCreate, move_in, apply_notice, apply_end, apply_inspection, activate_tenancy,
  activate_tenancy-outcome, give_notice, give_notice-outcome, end_tenancy, end_tenancy-outcome,
  complete_inspection, complete_inspection-outcome,
}
use rental_property.Maintenance.{
  AreRows, stale_bookings-AreRows, stale_bookings-All, expire_booking, expire_all, stale_bookings,
  due_viewings, remind_all, remind_all-SameRentals, hour, run_maintenance, run_maintenance-eq,
}
use rental_property.Occupancy.Reviewing.{apply_confirmation-tables, apply_rejection-tables}
use rental_property.Occupancy.Booking.{
  cancelled_booking, apply_cancellation-tables, start_review-tables,
}
use rental_property.Occupancy.Creating.{new_booking, book_unit-tables}
use rental_property.Occupancy.Moving.{
  apply_notice-tables, apply_end-tables, apply_inspection-tables,
}
use rental_property.Occupancy.Activating.{move_in-tables}
use rental_property.Occupancy.Expiring.{
  expired_booking, expire_booking-tables, expire_booking-no_unit, expire_booking-AreRows,
  expire_all-world,
}
use rental_property.Occupancy.Keys.{Keyed, Keyed-UniqueIds}
use rental_property.Occupancy.Worker.{All-unpaid}
use rental_property.Progress.Edges.{
  Edge, Follows, Follows-trans, same-Follows, append-Follows, put-Follows, FollowsWorld,
}

-- A booking in the one status is written back in the other, and that is committed.
write-FollowsWorld :
    (b b' : Booking) (s : BookingStatus) (d : Db) (w w' : World)
    → find_booking b.id w.session ≡ some b
    → b.status ≡ s
    → Edge s b'.status
    → b'.id ≡ b.id
    → b'.unit_id ≡ b.unit_id
    → b'.seeker_id ≡ b.seeker_id
    → w'.session.bookings ≡ put booking_key b.id b' w.session.bookings
    → w'.committed ≡ w'.session
    → Follows d w.session
    → FollowsWorld d w'
write-FollowsWorld b b' s d w w' fb sb edge id unit seeker bookings committed h =
    let moved =
      put-Follows b b' w.session w'.session fb id unit seeker
        (subst (λ t. Edge t b'.status) (sym sb) edge) bookings in
    let kept : Follows d w'.session = Follows-trans d w.session w'.session h moved in
    (kept, rw committed kept)

-- The bookings stay, and that is committed.
keep-FollowsWorld :
    (d : Db) (w w' : World)
    → w'.session.bookings ≡ w.session.bookings
    → w'.committed ≡ w'.session
    → Follows d w.session
    → FollowsWorld d w'
keep-FollowsWorld d w w' bookings committed h =
    let kept : Follows d w'.session =
      Follows-trans d w.session w'.session h (same-Follows w.session w'.session bookings) in
    (kept, rw committed kept)

module _ (d : Db) (w : World) (h : FollowsWorld d w) where
  pub create_held_booking-Follows :
      (form : BookingCreate) (user : User) (owner : Option ℕ)
      → FollowsWorld d (create_held_booking form user owner w).1
  create_held_booking-Follows form user owner =
      create_held_booking-outcome (FollowsWorld d) form user owner w h
        λ u q held fu su fq active future free.
          let w' = (book_unit u q form.move_in_date user w).1 in
          let (committed, units, bookings, tenancies) =
            book_unit-tables u q form.move_in_date user w in
          let kept : Follows d w'.session = Follows-trans d w.session w'.session h.0 (
            append-Follows (new_booking u q form.move_in_date user w) w.session w'.session
              bookings) in
          (kept, rw committed kept)

  pub submit_booking_payment-Follows :
      (id : ℕ) (form : BookingPaymentSubmit) (user : User)
      → FollowsWorld d (submit_booking_payment id form user w).1
  submit_booking_payment-Follows id form user =
      let m = method_text form.method in
      let r = normalize_payment_reference form.reference in
      submit_booking_payment-outcome (FollowsWorld d) id form user w h λ b p fb owner sb due fp.
        claim_and_review-outcome (FollowsWorld d) b p m r user w h λ c cs e.
          let v = with_claims cs w in
          let (committed, units, bookings, tenancies) = start_review-tables b p m r user v in
          write-FollowsWorld b (record b { status = BookingStatus.payment_review })
            BookingStatus.pending_payment d v (start_review b p m r user v).1
            (found_booking id b w.session fb) sb Edge.pay refl refl refl bookings committed h.0

  pub confirm_booking-Follows :
      (id : ℕ) (text : Option Str) (admin : User)
      → FollowsWorld d (confirm_booking id text admin w).1
  confirm_booking-Follows id text admin =
      confirm_booking-outcome (FollowsWorld d) id text admin w h
        λ b p u q fb sb fp sp fu su fq role.
          let (committed, units, bookings, tenancies) =
            apply_confirmation-tables b p u q text admin w in
          write-FollowsWorld b
            (record b { confirmed_at = some w.now; status = BookingStatus.confirmed })
            BookingStatus.payment_review d w (apply_confirmation b p u q text admin w).1
            (found_booking id b w.session fb) sb Edge.accept refl refl refl bookings committed h.0

  pub reject_booking_payment-Follows :
      (id : ℕ) (text : Option Str) (admin : User)
      → FollowsWorld d (reject_booking_payment id text admin w).1
  reject_booking_payment-Follows id text admin =
      reject_booking_payment-outcome (FollowsWorld d) id text admin w h λ b p u fb sb fp fu role.
        let (committed, units, bookings, tenancies) = apply_rejection-tables b p u text admin w in
        write-FollowsWorld b (record b { status = BookingStatus.rejected })
          BookingStatus.payment_review d w (apply_rejection b p u text admin w).1
          (found_booking id b w.session fb) sb Edge.refuse refl refl refl bookings committed h.0

  pub cancel_booking-Follows : (id : ℕ) (user : User) → FollowsWorld d (cancel_booking id user w).1
  cancel_booking-Follows id user =
      cancel_booking-outcome (FollowsWorld d) id user w h λ b fb owner sb.
        let (committed, bookings, tenancies) = apply_cancellation-tables b user w in
        write-FollowsWorld b (cancelled_booking b user w) BookingStatus.pending_payment d w
          (apply_cancellation b user w).1 (found_booking id b w.session fb) sb Edge.give_up refl
          refl refl bookings committed h.0

  pub activate_tenancy-Follows :
      (id : ℕ) (user : User) → FollowsWorld d (activate_tenancy id user w).1
  activate_tenancy-Follows id user =
      activate_tenancy-outcome (FollowsWorld d) id user w h
        λ b u q tenant fb fe sb due fu su fq access fl inspected ft.
          let (committed, units, bookings, tenancies) = move_in-tables b u q tenant user w in
          write-FollowsWorld b (record b { status = BookingStatus.fulfilled })
            BookingStatus.confirmed d w (move_in b u q tenant user w).1
            (found_booking id b w.session fb) sb Edge.move_in refl refl refl bookings committed h.0

  pub give_notice-Follows :
      (id : ℕ) (form : TenantNoticeCreate) (user : User)
      → FollowsWorld d (give_notice id form user w).1
  give_notice-Follows id form user =
      give_notice-outcome (FollowsWorld d) id form user w h λ t u q ft owner st after fu fq.
        let (committed, units, bookings, tenancies) = apply_notice-tables t u q form user w in
        keep-FollowsWorld d w (apply_notice t u q form user w).1 bookings committed h.0

  pub end_tenancy-Follows : (id : ℕ) (user : User) → FollowsWorld d (end_tenancy id user w).1
  end_tenancy-Follows id user =
      end_tenancy-outcome (FollowsWorld d) id user w h λ t u q ft st fu fq access.
        let (committed, units, bookings, tenancies) = apply_end-tables t u q user w in
        keep-FollowsWorld d w (apply_end t u q user w).1 bookings committed h.0

  pub complete_inspection-Follows :
      (id : ℕ) (user : User) → FollowsWorld d (complete_inspection id user w).1
  complete_inspection-Follows id user =
      complete_inspection-outcome (FollowsWorld d) id user w h λ t u q ft st fu fq access.
        let (committed, units, bookings, tenancies) = apply_inspection-tables t u q user w in
        keep-FollowsWorld d w (apply_inspection t u q user w).1 bookings committed h.0

expire_booking-Follows :
    (d : Db) (b : Booking) (w : World)
    → find_booking b.id w.session ≡ some b
    → b.status ≡ BookingStatus.pending_payment
    → Follows d w.session
    → Follows d (expire_booking b w).1.session
expire_booking-Follows d b w fb sb h =
    by_option (find_unit b.unit_id w.session) (λ fu. rw (expire_booking-no_unit b w fu) h)
      λ u fu.
        let w' = (expire_booking b w).1 in
        let (committed, bookings, tenancies) = expire_booking-tables b w u fu in
        Follows-trans d w.session w'.session h (
          put-Follows b (expired_booking b w) w.session w'.session fb refl refl refl
            (subst (λ t. Edge t BookingStatus.expired) (sym sb) Edge.run_out) bookings)

expire_all-Follows :
    (d : Db) (bs : List Booking) (w : World)
    → AreRows (λ k. find_booking k w.session) bs
    → All (λ b. b.status ≡ BookingStatus.pending_payment) bs
    → Follows d w.session
    → Follows d (expire_all bs w).1.session
unfolding expire_all
expire_all-Follows d [] w rows unpaid h = h
expire_all-Follows d (b ∷ bs) w rows unpaid h = rw (expire_all-world b bs w) (
    expire_all-Follows d bs (expire_booking b w).1 (expire_booking-AreRows b bs w rows.1 rows.2)
      unpaid.1 (expire_booking-Follows d b w rows.0 unpaid.0 h))

pub run_maintenance-Follows :
    (d : Db) (locked : ℕ → Bool) (now hours : ℕ) (w : World)
    → Keyed w.next_uuid w.session
    → Follows d w.session
    → FollowsWorld d (run_maintenance locked now hours w).1
run_maintenance-Follows d locked now hours w keyed h =
    let bs = stale_bookings locked now w.session in
    let w1 = (expire_all bs w).1 in
    let due = due_viewings locked now (now + hours * hour) w1.session in
    let w2 = (remind_all now due w1).1 in
    let rows =
      stale_bookings-AreRows locked now w.session (Keyed-UniqueIds w.next_uuid w.session keyed) in
    let unpaid = All-unpaid locked now bs (stale_bookings-All locked now w.session) in
    let (units, bookings, tenancies, committed, ids) = remind_all-SameRentals now due w1 in
    let expired = expire_all-Follows d bs w rows unpaid h in
    let kept : Follows d w2.session =
      Follows-trans d w1.session w2.session expired (same-Follows w1.session w2.session bookings) in
    let (r, e) = run_maintenance-eq locked now hours w in rw e (kept, kept)
