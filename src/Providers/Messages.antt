-- ===== src/Providers/Messages.antt =====
-- The texts of `processing_message` in payment_providers.py.
use rental_property.Base.{◌++◌}
use rental_property.Text.{Str, codes}
use rental_property.Models.{
  ProcessingMessage, booking_status_text, payment_status_text, charge_status_text, outcome_text,
}

unfoldable pub message_text : ProcessingMessage → Str
unfolding booking_status_text payment_status_text charge_status_text outcome_text
message_text ProcessingMessage.booking_missing = codes "Booking does not exist"
message_text ProcessingMessage.booking_payment_missing = codes "Booking payment record is missing"
message_text ProcessingMessage.booking_money_differs =
    codes "Provider amount or currency does not match booking"
message_text ProcessingMessage.transaction_id_missing =
    codes "Paid callback is missing provider transaction id"
message_text ProcessingMessage.booking_already_applied =
    codes "Provider payment was already applied to this booking"
message_text ProcessingMessage.booking_deadline_passed =
    codes "Provider payment arrived after booking deadline"
message_text ProcessingMessage.booking_unit_gone = codes "Booking unit no longer exists"
message_text ProcessingMessage.booking_property_gone = codes "Booking property no longer exists"
message_text ProcessingMessage.claimed_elsewhere =
    codes "Provider transaction is already claimed elsewhere"
message_text ProcessingMessage.booking_moved_to_queue =
    codes "Booking payment moved to Mosala verification queue"
message_text ProcessingMessage.charge_missing = codes "Advertising charge does not exist"
message_text ProcessingMessage.charge_money_differs =
    codes "Provider amount or currency does not match advert charge"
message_text ProcessingMessage.charge_already_applied =
    codes "Provider payment was already applied to this advert charge"
message_text ProcessingMessage.charge_property_gone = codes "Advertising property no longer exists"
message_text ProcessingMessage.charge_moved_to_queue =
    codes "Advertising payment moved to Mosala verification queue"
message_text ProcessingMessage.refund_reported =
    codes "Provider reported a refund; reconciliation is required"
message_text (ProcessingMessage.booking_not_payable b p) =
    codes "Booking/payment state is "
    ++ booking_status_text b
    ++ codes "/"
    ++ payment_status_text p
    ++ codes ", not payable"
message_text (ProcessingMessage.charge_not_payable c) =
    codes "Advert charge state " ++ charge_status_text c ++ codes " is not payable"
message_text (ProcessingMessage.outcome_recorded o) =
    codes "Provider outcome " ++ outcome_text o ++ codes " recorded without state change"
