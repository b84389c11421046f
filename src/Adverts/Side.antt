-- ===== src/Adverts/Side.antt =====
-- The rule through every request of Frame.
use rental_property.Action.{World}
use rental_property.Requests.Steps.{run_request-Both}
use rental_property.Frame.{SideRequest, answer}
use rental_property.Frame.Listed
use rental_property.Frame.Engaged
use rental_property.Frame.Reported
use rental_property.Frame.Delivered
use rental_property.Adverts.Writes.{Advertised, AdvertisedWorld, AdvertisedWorld-Lasting}
use rental_property.Adverts.Charges.{AdvertisedWorld-KeepsCharged}
use rental_property.Adverts.Charges
use rental_property.Adverts.Owners

pub answer-Advertised :
    (r : SideRequest) (w : World) → Advertised w.committed → Advertised (answer r w).committed
unfolding answer
answer-Advertised (SideRequest.edit_profile form user) w =
    run_request-Both Advertised _ w
      (Listed.update_my_landlord_profile-Keeps AdvertisedWorld AdvertisedWorld-Lasting form user)
answer-Advertised (SideRequest.ask_verification user) w =
    run_request-Both Advertised _ w
      (Listed.submit_landlord_verification-Keeps AdvertisedWorld AdvertisedWorld-Lasting user)
answer-Advertised (SideRequest.decide_landlord id form admin) w = run_request-Both Advertised _ w (
    Listed.decide_landlord_verification-Keeps AdvertisedWorld AdvertisedWorld-Lasting id form admin)
answer-Advertised (SideRequest.new_property user) w =
    run_request-Both Advertised _ w (λ v h. Owners.create_property-Advertised v h user)
answer-Advertised (SideRequest.offer id user) w =
    run_request-Both Advertised _ w (λ v h. Owners.submit_property-Advertised v h id user)
answer-Advertised (SideRequest.approve id admin) w =
    run_request-Both Advertised _ w (λ v h. Owners.approve_property-Advertised v h id admin)
answer-Advertised (SideRequest.turn_down id admin) w =
    run_request-Both Advertised _ w (λ v h. Owners.reject_property-Advertised v h id admin)
answer-Advertised (SideRequest.publish id admin) w =
    run_request-Both Advertised _ w (λ v h. Owners.activate_property-Advertised v h id admin)
answer-Advertised (SideRequest.quote id form admin) w =
    run_request-Both Advertised _ w
      (λ v h. Charges.quote_advert_charge-Advertised v h id form admin)
answer-Advertised (SideRequest.pay_advert id form user) w =
    run_request-Both Advertised _ w
      (λ v h. Charges.submit_advert_charge_payment-Advertised v h id form user)
answer-Advertised (SideRequest.confirm_charge id text admin) w =
    run_request-Both Advertised _ w
      (λ v h. Charges.confirm_advert_charge_payment-Advertised v h id text admin)
answer-Advertised (SideRequest.reject_charge id text admin) w =
    run_request-Both Advertised _ w
      (λ v h. Charges.reject_advert_charge_payment-Advertised v h id text admin)
answer-Advertised (SideRequest.webhook gateway provider chunks headers) w =
    run_request-Both Advertised _ w (
      Delivered.receive_payment_webhook-Keeps AdvertisedWorld AdvertisedWorld-Lasting
        AdvertisedWorld-KeepsCharged gateway provider chunks headers)
answer-Advertised (SideRequest.resolve id text admin) w = run_request-Both Advertised _ w (
    Reported.resolve_payment_provider_event-Keeps AdvertisedWorld AdvertisedWorld-Lasting id text
      admin)
answer-Advertised (SideRequest.save id user) w =
    run_request-Both Advertised _ w
      (Engaged.save_favourite-Keeps AdvertisedWorld AdvertisedWorld-Lasting id user)
answer-Advertised (SideRequest.unsave id user) w =
    run_request-Both Advertised _ w
      (Engaged.unsave_property-Keeps AdvertisedWorld AdvertisedWorld-Lasting id user)
answer-Advertised (SideRequest.ask_viewing form user) w =
    run_request-Both Advertised _ w
      (Engaged.request_viewing-Keeps AdvertisedWorld AdvertisedWorld-Lasting form user)
answer-Advertised (SideRequest.set_viewing id form user) w =
    run_request-Both Advertised _ w
      (Engaged.decide_viewing-Keeps AdvertisedWorld AdvertisedWorld-Lasting id form user)
answer-Advertised (SideRequest.drop_viewing id user) w =
    run_request-Both Advertised _ w
      (Engaged.cancel_viewing-Keeps AdvertisedWorld AdvertisedWorld-Lasting id user)
