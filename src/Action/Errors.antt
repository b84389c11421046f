-- ===== src/Action/Errors.antt =====
-- The exceptions of the modelled code, one constructor for each text that it raises with.
use rental_property.Base.{ℕ}

pub data Error : Type 0 where
  -- backend/app/api/dependencies.py
  forbidden_role : Error
  -- backend/app/api/routes/bookings.py
  booking_unit_gone booking_property_gone booking_payment_missing booking_not_found : Error
  available_unit_not_found unit_not_bookable unit_held : Error
  move_in_past hold_required unit_not_found property_not_open unit_no_longer_available : Error
  only_available_from : ℕ → Error
  booking_access_denied payment_record_not_found already_under_review : Error
  not_awaiting_payment payment_deadline_expired reference_already_submitted : Error
  not_awaiting_confirmation submitted_payment_required unit_booking_state_invalid : Error
  property_not_found not_awaiting_review booking_records_incomplete : Error
  payment_must_be_reviewed only_unpaid_pending : Error
  -- backend/app/api/routes/tenancies.py
  tenancy_records_incomplete tenancy_property_missing tenancy_unit_missing : Error
  tenancy_not_found tenancy_access_denied only_confirmed_bookings : Error
  before_move_in_date : ℕ → Error
  booking_unit_not_found unit_not_booked previous_tenancy_not_ended : Error
  previous_inspection_pending tenant_account_missing notice_already_given : Error
  move_out_not_after_today tenancy_not_ended : Error
  -- backend/app/services/payments.py
  claim_unresolved : Error
  -- backend/app/services/payment_providers.py and backend/app/api/routes/payment_webhooks.py
  provider_name_invalid event_id_invalid event_type_invalid unsupported_source_type : Error
  unsupported_outcome transaction_id_invalid currency_invalid amount_negative : Error
  event_time_without_timezone signature_invalid provider_payload_invalid : Error
  event_unresolved event_id_reused provider_not_configured body_too_large : Error
  -- backend/app/api/routes/payment_reconciliation.py
  provider_event_not_found only_manual_review_resolved : Error
  -- backend/app/api/routes/advertising.py
  charge_not_quoted charge_not_awaiting_reference charge_needs_no_payment : Error
  -- backend/app/api/routes/admin.py
  landlord_profile_not_found only_pending_landlords only_pending_properties : Error
  approve_before_quoting charge_must_be_positive charge_final : Error
  charge_not_awaiting_verification approve_before_activation charge_not_settled : Error
  property_not_reviewable : Error
  -- backend/app/api/routes/landlords.py
  profile_under_review profile_incomplete verification_already_pending : Error
  -- backend/app/api/routes/properties.py
  property_access_denied property_not_editable landlord_not_verified property_without_units : Error
  -- backend/app/api/routes/engagement.py
  active_property_not_found viewing_records_incomplete viewing_not_found : Error
  viewing_property_missing viewing_access_denied viewing_finalized viewing_time_past : Error
  viewing_closed : Error
  -- a constraint of the database
  not_null_violation foreign_key_violation unique_violation : Error
  -- backend/app/api/routes/auth.py and dependencies.py
  account_exists too_many_logins invalid_credentials session_reused session_invalid : Error
  authentication_required : Error
  -- backend/app/services/sessions.py
  refresh_token_invalid refresh_reuse_detected refresh_token_expired session_inactive : Error
