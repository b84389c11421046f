-- ===== src/Tests/Leaving.antt =====
-- The tenant has moved out, and another landlord asks again.
use rental_property.Base.{◌≡◌, refl, none, some, [], ◌∷◌, find, first, put, true}
use rental_property.Models.{User, TenancyStatus}
use rental_property.Action.{World, ok, run_request}
use rental_property.Payments.{claim_payment_reference, claim_normalized}
use rental_property.Bookings.{
  create_held_booking, submit_booking_payment, start_review, confirm_booking,
}
use rental_property.Tenancies.{TenancyRead, activate_tenancy, give_notice, end_tenancy}
use rental_property.Tenancies.Repeat.{end_tenancy-again}
use rental_property.Requests.{Request, serve, serve_all}
use rental_property.Tests.Data.{
  start, seeker, admin, landlord, move_in_form, payment_form, notice_form,
}

-- Owns no property.
abbrev stranger : User
stranger = record landlord { id = 9; phone = none }

abbrev under_notice : World
under_notice =
    serve_all
      (Request.create move_in_form seeker (some 2)
        ∷ Request.submit 100 payment_form seeker
        ∷ Request.confirm 100 none admin
        ∷ Request.wait 2000 105
        ∷ Request.activate 100 landlord
        ∷ Request.notice 103 notice_form seeker
        ∷ [])
      start

abbrev moved_out : World
moved_out = (end_tenancy 103 landlord under_notice).1

abbrev last_reply : TenancyRead
last_reply = record {
  id = 103;
  booking_id = 100;
  unit_id = 20;
  property_id = 10;
  tenant_id = 2;
  status = TenancyStatus.ended;
  start_date = 105;
  expected_move_out = some 200;
  allow_readvertise = true;
  inspection_completed_at = none;
  created_at = 2000;
}

move_out_runs : end_tenancy 103 landlord under_notice ≡ (ok last_reply, moved_out)
unfolding serve_all serve run_request find end_tenancy give_notice activate_tenancy confirm_booking
    submit_booking_payment create_held_booking claim_payment_reference claim_normalized first
    start_review put
move_out_runs = refl

end_tenancy-again_example : end_tenancy 103 stranger moved_out ≡ (ok last_reply, moved_out)
end_tenancy-again_example =
    end_tenancy-again 103 landlord stranger under_notice moved_out last_reply refl move_out_runs
