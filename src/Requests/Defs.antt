-- ===== src/Requests/Defs.antt =====
-- The requests, and a sequence of them.
use rental_property.Base.{ℕ, Bool, Option, List, [], ◌∷◌}
use rental_property.Text.{Str}
use rental_property.Models.{User}
use rental_property.Action.{World, run_request}
use rental_property.Bookings.{
  BookingCreate, BookingPaymentSubmit, create_held_booking, submit_booking_payment, confirm_booking,
  reject_booking_payment, cancel_booking,
}
use rental_property.Tenancies.{
  TenantNoticeCreate, activate_tenancy, give_notice, end_tenancy, complete_inspection,
}
use rental_property.Frame.{SideRequest, answer}
use rental_property.Maintenance.{run_maintenance}

-- A request with its parameters; `side` is one that Frame is about. Who holds the unit is what Redis answers, so it is a parameter of
-- `create`; `wait` lets the clock go on, to an instant and a date.
pub data Request : Type 0 where
  create : BookingCreate → User → Option ℕ → Request
  submit : ℕ → BookingPaymentSubmit → User → Request
  confirm : ℕ → Option Str → User → Request
  reject : ℕ → Option Str → User → Request
  cancel : ℕ → User → Request
  activate : ℕ → User → Request
  notice : ℕ → TenantNoticeCreate → User → Request
  end : ℕ → User → Request
  inspect : ℕ → User → Request
  maintain : (ℕ → Bool) → ℕ → Request
  side : SideRequest → Request
  wait : ℕ → ℕ → Request

-- A handler runs in a session of its own, and only what it committed is left.
unfoldable pub serve : Request → World → World
serve (Request.create form user owner) w = (run_request (create_held_booking form user owner) w).1
serve (Request.submit id form user) w = (run_request (submit_booking_payment id form user) w).1
serve (Request.confirm id text admin) w = (run_request (confirm_booking id text admin) w).1
serve (Request.reject id text admin) w = (run_request (reject_booking_payment id text admin) w).1
serve (Request.cancel id user) w = (run_request (cancel_booking id user) w).1
serve (Request.activate id user) w = (run_request (activate_tenancy id user) w).1
serve (Request.notice id form user) w = (run_request (give_notice id form user) w).1
serve (Request.end id user) w = (run_request (end_tenancy id user) w).1
serve (Request.inspect id user) w = (run_request (complete_inspection id user) w).1
serve (Request.maintain locked hours) w = (run_request (run_maintenance locked w.now hours) w).1
serve (Request.side r) w = answer r w
serve (Request.wait now today) w = record w { now = now; today = today }

unfoldable pub serve_all : List Request → World → World
serve_all [] w = w
serve_all (r ∷ rs) w = serve_all rs (serve r w)
