-- ===== src/Progress/Requests.antt =====
-- The bookings of the committed database over any sequence of requests.
use rental_property.Base.{ℕ, Bool, ◌≡◌, some, List, [], ◌∷◌}
use rental_property.Models.{Db, Booking, find_booking}
use rental_property.Action.{World, Action, run_request}
use rental_property.Maintenance.{run_maintenance}
use rental_property.Frame.{answer-Closes}
use rental_property.Progress.Lasting.{FollowsWorld-Blind}
use rental_property.Requests.{Request, serve, serve_all, IsSound, serve-IsSound}
use rental_property.Progress.Edges.{Reach, Follows, Follows-refl, FollowsWorld}
use rental_property.Progress.Handlers

run_request-Follows :
    {A : Type 0} (d : Db) (m : Action A) (w : World)
    → ((v : World) → FollowsWorld d v → FollowsWorld d (m v).1)
    → Follows d w.committed
    → Follows d (run_request m w).1.committed
unfolding run_request
run_request-Follows d m w keeps h = (keeps (record w { session = w.committed }) (h, h)).1

maintained-Follows :
    (d : Db) (locked : ℕ → Bool) (hours : ℕ) (w : World)
    → IsSound w
    → Follows d w.committed
    → Follows d (run_request (run_maintenance locked w.now hours) w).1.committed
unfolding run_request
maintained-Follows d locked hours w s h =
    (Handlers.run_maintenance-Follows d locked w.now hours (record w { session = w.committed }) s.1
      h).1

serve-Follows :
    (d : Db) (r : Request) (w : World)
    → IsSound w
    → Follows d w.committed
    → Follows d (serve r w).committed
unfolding serve
serve-Follows d (Request.create form user owner) w s =
    run_request-Follows d _ w (λ v h. Handlers.create_held_booking-Follows d v h form user owner)
serve-Follows d (Request.submit id form user) w s =
    run_request-Follows d _ w (λ v h. Handlers.submit_booking_payment-Follows d v h id form user)
serve-Follows d (Request.confirm id text admin) w s =
    run_request-Follows d _ w (λ v h. Handlers.confirm_booking-Follows d v h id text admin)
serve-Follows d (Request.reject id text admin) w s =
    run_request-Follows d _ w (λ v h. Handlers.reject_booking_payment-Follows d v h id text admin)
serve-Follows d (Request.cancel id user) w s =
    run_request-Follows d _ w (λ v h. Handlers.cancel_booking-Follows d v h id user)
serve-Follows d (Request.activate id user) w s =
    run_request-Follows d _ w (λ v h. Handlers.activate_tenancy-Follows d v h id user)
serve-Follows d (Request.notice id form user) w s =
    run_request-Follows d _ w (λ v h. Handlers.give_notice-Follows d v h id form user)
serve-Follows d (Request.end id user) w s =
    run_request-Follows d _ w (λ v h. Handlers.end_tenancy-Follows d v h id user)
serve-Follows d (Request.inspect id user) w s =
    run_request-Follows d _ w (λ v h. Handlers.complete_inspection-Follows d v h id user)
serve-Follows d (Request.maintain locked hours) w s = maintained-Follows d locked hours w s
serve-Follows d (Request.side r) w s = λ h.
    let (v, kept, e) = answer-Closes (FollowsWorld d) (FollowsWorld-Blind d) r w (h, h) in
    rw e kept.1
serve-Follows d (Request.wait now today) w s = λ h. h

serve_all-Follows :
    (d : Db) (rs : List Request) (w : World)
    → IsSound w
    → Follows d w.committed
    → Follows d (serve_all rs w).committed
unfolding serve_all
serve_all-Follows d [] w s h = h
serve_all-Follows d (r ∷ rs) w s h =
    serve_all-Follows d rs (serve r w) (serve-IsSound r w s) (serve-Follows d r w s h)

-- From a sound world, no sequence of requests loses a booking: it stays in the committed database,
-- for the same unit and by the same seeker, and its status has only moved along the edges from
-- pending payment to payment review, cancellation or expiry, from payment review to confirmation
-- or rejection, and from confirmation to fulfilment.
pub serve_all-Reach :
    (rs : List Request) (w : World) (k : ℕ) (b : Booking)
    → IsSound w
    → find_booking k w.committed ≡ some b
    → (b' : Booking) × (find_booking k (serve_all rs w).committed ≡ some b')
      × (b'.unit_id ≡ b.unit_id)
      × (b'.seeker_id ≡ b.seeker_id)
      × Reach b.status b'.status
serve_all-Reach rs w k b s = serve_all-Follows w.committed rs w s (Follows-refl w.committed) k b
