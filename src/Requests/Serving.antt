-- ===== src/Requests/Serving.antt =====
-- A rule that has the steps is kept by every handler, and by any sequence of requests.
use rental_property.Base.{ℕ, Bool, ◌+◌, ◌*◌, Option, List, [], ◌∷◌}
use rental_property.Text.{Str}
use rental_property.Models.{Db, User, Booking, ViewingRequest}
use rental_property.Action.{World}
use rental_property.Payments.{normalize_payment_reference}
use rental_property.Bookings.{
  BookingCreate, BookingPaymentSubmit, method_text, create_held_booking,
  create_held_booking-outcome, claim_and_review-outcome, submit_booking_payment,
  submit_booking_payment-outcome, cancel_booking, cancel_booking-outcome, confirm_booking,
  confirm_booking-outcome, reject_booking_payment, reject_booking_payment-outcome,
}
use rental_property.Tenancies.{
  TenantNoticeCreate, activate_tenancy, activate_tenancy-outcome, give_notice, give_notice-outcome,
  end_tenancy, end_tenancy-outcome, complete_inspection, complete_inspection-outcome,
}
use rental_property.Maintenance.{
  expire_booking, remind, remind_all, remind_all-world, expire_all, stale_bookings, due_viewings,
  hour, run_maintenance, run_maintenance-eq,
}
use rental_property.Occupancy.Expiring.{expire_all-world}
use rental_property.Requests.Defs.{Request, serve, serve_all}
use rental_property.Requests.Steps.{Both, Steps, run_request-Both}

module _ (I : Db → Type 0) (steps : Steps I) where
  expire_all-Both : (bs : List Booking) (w : World) → Both I w → Both I (expire_all bs w).1
  unfolding expire_all
  expire_all-Both [] w h = h
  expire_all-Both (b ∷ bs) w h =
      rw (expire_all-world b bs w) (expire_all-Both bs (expire_booking b w).1 (steps.expired b w h))

  remind_all-Both :
      (now : ℕ) (vs : List ViewingRequest) (w : World) → Both I w → Both I (remind_all now vs w).1
  unfolding remind_all
  remind_all-Both now [] w h = h
  remind_all-Both now (v ∷ vs) w h =
      rw (remind_all-world now v vs w)
        (remind_all-Both now vs (remind now v w).1 (steps.reminded now v w h))

  module _ (w : World) (h : Both I w) where
    confirm_booking-Both :
        (id : ℕ) (text : Option Str) (admin : User) → Both I (confirm_booking id text admin w).1
    confirm_booking-Both id text admin =
        confirm_booking-outcome (Both I) id text admin w h
          λ b p u q fb sb fp sp fu su fq role. steps.confirmed b p u q text admin w h

    reject_booking_payment-Both :
        (id : ℕ) (text : Option Str) (admin : User)
        → Both I (reject_booking_payment id text admin w).1
    reject_booking_payment-Both id text admin =
        reject_booking_payment-outcome (Both I) id text admin w h
          λ b p u fb sb fp fu role. steps.rejected b p u text admin w h

    submit_booking_payment-Both :
        (id : ℕ) (form : BookingPaymentSubmit) (user : User)
        → Both I (submit_booking_payment id form user w).1
    submit_booking_payment-Both id form user =
        let m = method_text form.method in
        let r = normalize_payment_reference form.reference in
        submit_booking_payment-outcome (Both I) id form user w h λ b p fb owner sb due fp.
          claim_and_review-outcome (Both I) b p m r user w h
            λ c cs e. steps.reviewed b p m r user w c cs e h

    cancel_booking-Both : (id : ℕ) (user : User) → Both I (cancel_booking id user w).1
    cancel_booking-Both id user =
        cancel_booking-outcome (Both I) id user w h λ b fb owner sb. steps.cancelled b user w h

    create_held_booking-Both :
        (form : BookingCreate) (user : User) (owner : Option ℕ)
        → Both I (create_held_booking form user owner w).1
    create_held_booking-Both form user owner =
        create_held_booking-outcome (Both I) form user owner w h
          λ u q held fu su fq active future free. steps.created u q form.move_in_date user w h

    activate_tenancy-Both : (id : ℕ) (user : User) → Both I (activate_tenancy id user w).1
    activate_tenancy-Both id user =
        activate_tenancy-outcome (Both I) id user w h
          λ b u q tenant fb fe sb due fu su fq access fl inspected ft.
            steps.moved_in b u q tenant user w h

    give_notice-Both :
        (id : ℕ) (form : TenantNoticeCreate) (user : User) → Both I (give_notice id form user w).1
    give_notice-Both id form user =
        give_notice-outcome (Both I) id form user w h
          λ t u q ft owner st after fu fq. steps.noticed t u q form user w h

    end_tenancy-Both : (id : ℕ) (user : User) → Both I (end_tenancy id user w).1
    end_tenancy-Both id user =
        end_tenancy-outcome (Both I) id user w h
          λ t u q ft st fu fq access. steps.ended t u q user w h

    complete_inspection-Both : (id : ℕ) (user : User) → Both I (complete_inspection id user w).1
    complete_inspection-Both id user =
        complete_inspection-outcome (Both I) id user w h
          λ t u q ft st fu fq access. steps.inspected t u q user w h

    run_maintenance-Both :
        (locked : ℕ → Bool) (now hours : ℕ) → Both I (run_maintenance locked now hours w).1
    run_maintenance-Both locked now hours =
        let w1 = (expire_all (stale_bookings locked now w.session) w).1 in
        let due = due_viewings locked now (now + hours * hour) w1.session in
        let (r, e) = run_maintenance-eq locked now hours w in
        let done =
          remind_all-Both now due w1 (expire_all-Both (stale_bookings locked now w.session) w h) in
        rw e (done.0, done.0)

  serve-Both : (r : Request) (w : World) → I w.committed → I (serve r w).committed
  unfolding serve
  serve-Both (Request.create form user owner) w =
      run_request-Both I _ w (λ v h. create_held_booking-Both v h form user owner)
  serve-Both (Request.submit id form user) w =
      run_request-Both I _ w (λ v h. submit_booking_payment-Both v h id form user)
  serve-Both (Request.confirm id text admin) w =
      run_request-Both I _ w (λ v h. confirm_booking-Both v h id text admin)
  serve-Both (Request.reject id text admin) w =
      run_request-Both I _ w (λ v h. reject_booking_payment-Both v h id text admin)
  serve-Both (Request.cancel id user) w =
      run_request-Both I _ w (λ v h. cancel_booking-Both v h id user)
  serve-Both (Request.activate id user) w =
      run_request-Both I _ w (λ v h. activate_tenancy-Both v h id user)
  serve-Both (Request.notice id form user) w =
      run_request-Both I _ w (λ v h. give_notice-Both v h id form user)
  serve-Both (Request.end id user) w = run_request-Both I _ w (λ v h. end_tenancy-Both v h id user)
  serve-Both (Request.inspect id user) w =
      run_request-Both I _ w (λ v h. complete_inspection-Both v h id user)
  serve-Both (Request.maintain locked hours) w =
      run_request-Both I _ w (λ v h. run_maintenance-Both v h locked w.now hours)
  serve-Both (Request.side r) w = steps.answered r w
  serve-Both (Request.wait now today) w = λ h. h

  pub serve_all-Both :
      (rs : List Request) (w : World) → I w.committed → I (serve_all rs w).committed
  unfolding serve_all
  serve_all-Both [] w h = h
  serve_all-Both (r ∷ rs) w h = serve_all-Both rs (serve r w) (serve-Both r w h)
