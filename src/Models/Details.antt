-- ===== src/Models/Details.antt =====
-- The `.value` of each enumeration, as the audit details carry it.
use rental_property.Base.{ℕ, Option, none, some}
use rental_property.Text.{Str, codes}
use rental_property.Models.Json.{Scalar, Value}
use rental_property.Models.Status.{
  PropertyStatus, AdvertChargeStatus, Outcome, SourceType, ProcessingStatus, VerificationStatus,
  UserRole, UnitStatus, BookingStatus, PaymentStatus, TenancyStatus,
}

unfoldable pub role_value : UserRole → Value
role_value UserRole.house_seeker = Value.text (codes "house_seeker")
role_value UserRole.tenant = Value.text (codes "tenant")
role_value UserRole.landlord = Value.text (codes "landlord")
role_value UserRole.admin = Value.text (codes "admin")

unfoldable pub unit_status_value : UnitStatus → Value
unit_status_value UnitStatus.available = Value.text (codes "available")
unit_status_value UnitStatus.booking_pending = Value.text (codes "booking_pending")
unit_status_value UnitStatus.booked = Value.text (codes "booked")
unit_status_value UnitStatus.occupied = Value.text (codes "occupied")
unit_status_value UnitStatus.notice_given = Value.text (codes "notice_given")
unit_status_value UnitStatus.vacating_soon = Value.text (codes "vacating_soon")
unit_status_value UnitStatus.inspection = Value.text (codes "inspection")
unit_status_value UnitStatus.inactive = Value.text (codes "inactive")

unfoldable pub booking_status_text : BookingStatus → Str
booking_status_text BookingStatus.pending_payment = codes "pending_payment"
booking_status_text BookingStatus.payment_review = codes "payment_review"
booking_status_text BookingStatus.confirmed = codes "confirmed"
booking_status_text BookingStatus.fulfilled = codes "fulfilled"
booking_status_text BookingStatus.rejected = codes "rejected"
booking_status_text BookingStatus.cancelled = codes "cancelled"
booking_status_text BookingStatus.expired = codes "expired"

unfoldable pub booking_status_value : BookingStatus → Value
unfolding booking_status_text
booking_status_value s = Value.text (booking_status_text s)

unfoldable pub payment_status_text : PaymentStatus → Str
payment_status_text PaymentStatus.pending = codes "pending"
payment_status_text PaymentStatus.submitted = codes "submitted"
payment_status_text PaymentStatus.confirmed = codes "confirmed"
payment_status_text PaymentStatus.rejected = codes "rejected"
payment_status_text PaymentStatus.refunded = codes "refunded"
payment_status_text PaymentStatus.cancelled = codes "cancelled"
payment_status_text PaymentStatus.expired = codes "expired"

unfoldable pub payment_status_value : PaymentStatus → Value
unfolding payment_status_text
payment_status_value s = Value.text (payment_status_text s)

unfoldable pub tenancy_status_value : TenancyStatus → Value
tenancy_status_value TenancyStatus.active = Value.text (codes "active")
tenancy_status_value TenancyStatus.notice_given = Value.text (codes "notice_given")
tenancy_status_value TenancyStatus.ended = Value.text (codes "ended")

-- An optional value is `None` or itself.
unfoldable pub optional_value {ℓ} : {A : Type ℓ} → (A → Value) → Option A → Value
optional_value f none = Value.null
optional_value f (some a) = f a

unfoldable pub uuid_value : ℕ → Value
uuid_value n = Value.scalar (Scalar.uuid n)

unfoldable pub decimal_value : ℕ → Value
decimal_value n = Value.scalar (Scalar.decimal n)

unfoldable pub date_value : ℕ → Value
date_value n = Value.scalar (Scalar.date n)

unfoldable pub datetime_value : ℕ → Value
datetime_value n = Value.scalar (Scalar.datetime n)

unfoldable pub charge_status_text : AdvertChargeStatus → Str
charge_status_text AdvertChargeStatus.quoted = codes "quoted"
charge_status_text AdvertChargeStatus.payment_submitted = codes "payment_submitted"
charge_status_text AdvertChargeStatus.payment_rejected = codes "payment_rejected"
charge_status_text AdvertChargeStatus.paid = codes "paid"
charge_status_text AdvertChargeStatus.waived = codes "waived"

unfoldable pub charge_status_value : AdvertChargeStatus → Value
unfolding charge_status_text
charge_status_value s = Value.text (charge_status_text s)

unfoldable pub outcome_text : Outcome → Str
outcome_text Outcome.paid = codes "paid"
outcome_text Outcome.pending = codes "pending"
outcome_text Outcome.failed = codes "failed"
outcome_text Outcome.cancelled = codes "cancelled"
outcome_text Outcome.refunded = codes "refunded"

unfoldable pub source_text : SourceType → Str
source_text SourceType.booking = codes "booking"
source_text SourceType.advert_charge = codes "advert_charge"

unfoldable pub processing_status_text : ProcessingStatus → Str
processing_status_text ProcessingStatus.received = codes "received"
processing_status_text ProcessingStatus.recorded = codes "recorded"
processing_status_text ProcessingStatus.processed = codes "processed"
processing_status_text ProcessingStatus.manual_review = codes "manual_review"
processing_status_text ProcessingStatus.resolved = codes "resolved"

unfoldable pub verification_status_text : VerificationStatus → Str
verification_status_text VerificationStatus.not_submitted = codes "not_submitted"
verification_status_text VerificationStatus.pending = codes "pending"
verification_status_text VerificationStatus.approved = codes "approved"
verification_status_text VerificationStatus.rejected = codes "rejected"

unfoldable pub property_status_text : PropertyStatus → Str
property_status_text PropertyStatus.draft = codes "draft"
property_status_text PropertyStatus.pending_verification = codes "pending_verification"
property_status_text PropertyStatus.approved = codes "approved"
property_status_text PropertyStatus.active = codes "active"
property_status_text PropertyStatus.rejected = codes "rejected"
property_status_text PropertyStatus.suspended = codes "suspended"
