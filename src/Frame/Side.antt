-- ===== src/Frame/Side.antt =====
-- The requests of the marketplace around the bookings, each with its parameters.
use rental_property.Base.{ℕ, ◌≡◌, refl, Option, List}
use rental_property.Text.{Str}
use rental_property.Models.{User}
use rental_property.Action.{World, Action, Keeps, run_request}
use rental_property.Listings.{
  LandlordVerificationDecision, LandlordProfileUpdate, AdvertChargePaymentSubmit, AdvertChargeQuote,
  decide_landlord_verification, approve_property, activate_property, reject_property,
  quote_advert_charge, confirm_advert_charge_payment, reject_advert_charge_payment,
  submit_advert_charge_payment, update_my_landlord_profile, submit_landlord_verification,
  create_property, submit_property,
}
use rental_property.Providers.{
  Gateway, Headers, receive_payment_webhook, resolve_payment_provider_event,
}
use rental_property.Engagement.{
  ViewingRequestCreate, ViewingDecision, save_favourite, unsave_property, request_viewing,
  decide_viewing, cancel_viewing,
}
use rental_property.Frame.Laws.{Lasting, Blind}
use rental_property.Frame.Listed
use rental_property.Frame.Engaged
use rental_property.Frame.Reported
use rental_property.Frame.Delivered

-- The adapters that are registered when a webhook comes are a parameter of `webhook`.
pub data SideRequest : Type 0 where
  edit_profile : LandlordProfileUpdate → User → SideRequest
  ask_verification : User → SideRequest
  decide_landlord : ℕ → LandlordVerificationDecision → User → SideRequest
  new_property : User → SideRequest
  offer : ℕ → User → SideRequest
  approve : ℕ → User → SideRequest
  turn_down : ℕ → User → SideRequest
  publish : ℕ → User → SideRequest
  quote : ℕ → AdvertChargeQuote → User → SideRequest
  pay_advert : ℕ → AdvertChargePaymentSubmit → User → SideRequest
  confirm_charge : ℕ → Option Str → User → SideRequest
  reject_charge : ℕ → Option Str → User → SideRequest
  webhook : Gateway → Str → List Str → Headers → SideRequest
  resolve : ℕ → Str → User → SideRequest
  save : ℕ → User → SideRequest
  unsave : ℕ → User → SideRequest
  ask_viewing : ViewingRequestCreate → User → SideRequest
  set_viewing : ℕ → ViewingDecision → User → SideRequest
  drop_viewing : ℕ → User → SideRequest

unfoldable pub answer : SideRequest → World → World
answer (SideRequest.edit_profile form user) w =
    (run_request (update_my_landlord_profile form user) w).1
answer (SideRequest.ask_verification user) w = (run_request (submit_landlord_verification user) w).1
answer (SideRequest.decide_landlord id form admin) w =
    (run_request (decide_landlord_verification id form admin) w).1
answer (SideRequest.new_property user) w = (run_request (create_property user) w).1
answer (SideRequest.offer id user) w = (run_request (submit_property id user) w).1
answer (SideRequest.approve id admin) w = (run_request (approve_property id admin) w).1
answer (SideRequest.turn_down id admin) w = (run_request (reject_property id admin) w).1
answer (SideRequest.publish id admin) w = (run_request (activate_property id admin) w).1
answer (SideRequest.quote id form admin) w = (run_request (quote_advert_charge id form admin) w).1
answer (SideRequest.pay_advert id form user) w =
    (run_request (submit_advert_charge_payment id form user) w).1
answer (SideRequest.confirm_charge id text admin) w =
    (run_request (confirm_advert_charge_payment id text admin) w).1
answer (SideRequest.reject_charge id text admin) w =
    (run_request (reject_advert_charge_payment id text admin) w).1
answer (SideRequest.webhook gateway provider chunks headers) w =
    (run_request (receive_payment_webhook gateway provider chunks headers) w).1
answer (SideRequest.resolve id text admin) w =
    (run_request (resolve_payment_provider_event id text admin) w).1
answer (SideRequest.save id user) w = (run_request (save_favourite id user) w).1
answer (SideRequest.unsave id user) w = (run_request (unsave_property id user) w).1
answer (SideRequest.ask_viewing form user) w = (run_request (request_viewing form user) w).1
answer (SideRequest.set_viewing id form user) w = (run_request (decide_viewing id form user) w).1
answer (SideRequest.drop_viewing id user) w = (run_request (cancel_viewing id user) w).1

-- The session that a request starts with.
abbrev pub opened : World → World
opened w = record w { session = w.committed }

-- A world that a request ends in, before its session closes.
abbrev pub Closes : (World → Type 0) → World → Type 0
Closes P w = (v : World) × P v × (w ≡ opened v)

run_request-Closes :
    {A : Type 0} (P : World → Type 0) (m : Action A) (w : World)
    → Keeps P m
    → P (opened w)
    → Closes P (run_request m w).1
unfolding run_request
run_request-Closes P m w keeps h = ((m (opened w)).1, keeps (opened w) h, refl)

module _ (P : World → Type 0) (blind : Blind P) where
  abbrev laws : Lasting P
  laws = blind.lasting

  pub answer-Closes : (r : SideRequest) (w : World) → P (opened w) → Closes P (answer r w)
  unfolding answer
  answer-Closes (SideRequest.edit_profile form user) w =
      run_request-Closes P _ w (Listed.update_my_landlord_profile-Keeps P laws form user)
  answer-Closes (SideRequest.ask_verification user) w =
      run_request-Closes P _ w (Listed.submit_landlord_verification-Keeps P laws user)
  answer-Closes (SideRequest.decide_landlord id form admin) w =
      run_request-Closes P _ w (Listed.decide_landlord_verification-Keeps P laws id form admin)
  answer-Closes (SideRequest.new_property user) w =
      run_request-Closes P _ w (Listed.create_property-Keeps P blind user)
  answer-Closes (SideRequest.offer id user) w =
      run_request-Closes P _ w (Listed.submit_property-Keeps P blind id user)
  answer-Closes (SideRequest.approve id admin) w =
      run_request-Closes P _ w (Listed.approve_property-Keeps P blind id admin)
  answer-Closes (SideRequest.turn_down id admin) w =
      run_request-Closes P _ w (Listed.reject_property-Keeps P blind id admin)
  answer-Closes (SideRequest.publish id admin) w =
      run_request-Closes P _ w (Listed.activate_property-Keeps P blind id admin)
  answer-Closes (SideRequest.quote id form admin) w =
      run_request-Closes P _ w (Listed.quote_advert_charge-Keeps P blind id form admin)
  answer-Closes (SideRequest.pay_advert id form user) w =
      run_request-Closes P _ w (Listed.submit_advert_charge_payment-Keeps P blind id form user)
  answer-Closes (SideRequest.confirm_charge id text admin) w =
      run_request-Closes P _ w (Listed.confirm_advert_charge_payment-Keeps P blind id text admin)
  answer-Closes (SideRequest.reject_charge id text admin) w =
      run_request-Closes P _ w (Listed.reject_advert_charge_payment-Keeps P blind id text admin)
  answer-Closes (SideRequest.webhook gateway provider chunks headers) w = run_request-Closes P _ w (
      Delivered.receive_payment_webhook-Keeps P laws (Delivered.Blind-KeepsCharged P blind) gateway
        provider chunks headers)
  answer-Closes (SideRequest.resolve id text admin) w =
      run_request-Closes P _ w (Reported.resolve_payment_provider_event-Keeps P laws id text admin)
  answer-Closes (SideRequest.save id user) w =
      run_request-Closes P _ w (Engaged.save_favourite-Keeps P laws id user)
  answer-Closes (SideRequest.unsave id user) w =
      run_request-Closes P _ w (Engaged.unsave_property-Keeps P laws id user)
  answer-Closes (SideRequest.ask_viewing form user) w =
      run_request-Closes P _ w (Engaged.request_viewing-Keeps P laws form user)
  answer-Closes (SideRequest.set_viewing id form user) w =
      run_request-Closes P _ w (Engaged.decide_viewing-Keeps P laws id form user)
  answer-Closes (SideRequest.drop_viewing id user) w =
      run_request-Closes P _ w (Engaged.cancel_viewing-Keeps P laws id user)
