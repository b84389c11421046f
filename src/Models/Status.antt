-- ===== src/Models/Status.antt =====
-- The string enumerations of the models, with the Boolean tests that the program makes on them.
use rental_property.Base.{Bool, true, false}

-- class UserRole
pub data UserRole : Type 0 where
  house_seeker tenant landlord admin : UserRole

-- class PropertyStatus
pub data PropertyStatus : Type 0 where
  draft pending_verification approved active rejected suspended : PropertyStatus

-- class UnitStatus
pub data UnitStatus : Type 0 where
  available booking_pending booked occupied notice_given vacating_soon inspection inactive :
      UnitStatus

-- class BookingStatus
pub data BookingStatus : Type 0 where
  pending_payment payment_review confirmed fulfilled rejected cancelled expired : BookingStatus

-- class PaymentStatus
pub data PaymentStatus : Type 0 where
  pending submitted confirmed rejected refunded cancelled expired : PaymentStatus

-- class LedgerDirection
pub data LedgerDirection : Type 0 where
  debit credit : LedgerDirection

-- class TenancyStatus
pub data TenancyStatus : Type 0 where
  active notice_given ended : TenancyStatus

-- class VerificationStatus
pub data VerificationStatus : Type 0 where
  not_submitted pending approved rejected : VerificationStatus

-- class AdvertChargeStatus
pub data AdvertChargeStatus : Type 0 where
  quoted payment_submitted payment_rejected paid waived : AdvertChargeStatus

-- `_ALLOWED_OUTCOMES` of backend/app/services/payment_providers.py
pub data Outcome : Type 0 where
  paid pending failed cancelled refunded : Outcome

-- The values of `processing_status`: `_ALLOWED_PROCESSING_STATUSES` of
-- backend/app/api/routes/payment_reconciliation.py
pub data ProcessingStatus : Type 0 where
  received recorded processed manual_review resolved : ProcessingStatus

-- class ViewingStatus
pub data ViewingStatus : Type 0 where
  pending accepted declined rescheduled cancelled : ViewingStatus

-- The source types of payment claims and provider events.
pub data SourceType : Type 0 where
  booking advert_charge : SourceType

-- `a == b` on the values of each enumeration.
abbrev pub same_role : UserRole → UserRole → Bool
same_role UserRole.house_seeker UserRole.house_seeker = true
same_role UserRole.tenant UserRole.tenant = true
same_role UserRole.landlord UserRole.landlord = true
same_role UserRole.admin UserRole.admin = true
same_role _ _ = false

abbrev pub same_property_status : PropertyStatus → PropertyStatus → Bool
same_property_status PropertyStatus.draft PropertyStatus.draft = true
same_property_status PropertyStatus.pending_verification PropertyStatus.pending_verification = true
same_property_status PropertyStatus.approved PropertyStatus.approved = true
same_property_status PropertyStatus.active PropertyStatus.active = true
same_property_status PropertyStatus.rejected PropertyStatus.rejected = true
same_property_status PropertyStatus.suspended PropertyStatus.suspended = true
same_property_status _ _ = false

abbrev pub same_unit_status : UnitStatus → UnitStatus → Bool
same_unit_status UnitStatus.available UnitStatus.available = true
same_unit_status UnitStatus.booking_pending UnitStatus.booking_pending = true
same_unit_status UnitStatus.booked UnitStatus.booked = true
same_unit_status UnitStatus.occupied UnitStatus.occupied = true
same_unit_status UnitStatus.notice_given UnitStatus.notice_given = true
same_unit_status UnitStatus.vacating_soon UnitStatus.vacating_soon = true
same_unit_status UnitStatus.inspection UnitStatus.inspection = true
same_unit_status UnitStatus.inactive UnitStatus.inactive = true
same_unit_status _ _ = false

abbrev pub same_booking_status : BookingStatus → BookingStatus → Bool
same_booking_status BookingStatus.pending_payment BookingStatus.pending_payment = true
same_booking_status BookingStatus.payment_review BookingStatus.payment_review = true
same_booking_status BookingStatus.confirmed BookingStatus.confirmed = true
same_booking_status BookingStatus.fulfilled BookingStatus.fulfilled = true
same_booking_status BookingStatus.rejected BookingStatus.rejected = true
same_booking_status BookingStatus.cancelled BookingStatus.cancelled = true
same_booking_status BookingStatus.expired BookingStatus.expired = true
same_booking_status _ _ = false

abbrev pub same_payment_status : PaymentStatus → PaymentStatus → Bool
same_payment_status PaymentStatus.pending PaymentStatus.pending = true
same_payment_status PaymentStatus.submitted PaymentStatus.submitted = true
same_payment_status PaymentStatus.confirmed PaymentStatus.confirmed = true
same_payment_status PaymentStatus.rejected PaymentStatus.rejected = true
same_payment_status PaymentStatus.refunded PaymentStatus.refunded = true
same_payment_status PaymentStatus.cancelled PaymentStatus.cancelled = true
same_payment_status PaymentStatus.expired PaymentStatus.expired = true
same_payment_status _ _ = false

abbrev pub same_tenancy_status : TenancyStatus → TenancyStatus → Bool
same_tenancy_status TenancyStatus.active TenancyStatus.active = true
same_tenancy_status TenancyStatus.notice_given TenancyStatus.notice_given = true
same_tenancy_status TenancyStatus.ended TenancyStatus.ended = true
same_tenancy_status _ _ = false

abbrev pub same_viewing_status : ViewingStatus → ViewingStatus → Bool
same_viewing_status ViewingStatus.pending ViewingStatus.pending = true
same_viewing_status ViewingStatus.accepted ViewingStatus.accepted = true
same_viewing_status ViewingStatus.declined ViewingStatus.declined = true
same_viewing_status ViewingStatus.rescheduled ViewingStatus.rescheduled = true
same_viewing_status ViewingStatus.cancelled ViewingStatus.cancelled = true
same_viewing_status _ _ = false

abbrev pub same_source : SourceType → SourceType → Bool
same_source SourceType.booking SourceType.booking = true
same_source SourceType.advert_charge SourceType.advert_charge = true
same_source _ _ = false

abbrev pub same_direction : LedgerDirection → LedgerDirection → Bool
same_direction LedgerDirection.debit LedgerDirection.debit = true
same_direction LedgerDirection.credit LedgerDirection.credit = true
same_direction _ _ = false

abbrev pub same_verification_status : VerificationStatus → VerificationStatus → Bool
same_verification_status VerificationStatus.not_submitted VerificationStatus.not_submitted = true
same_verification_status VerificationStatus.pending VerificationStatus.pending = true
same_verification_status VerificationStatus.approved VerificationStatus.approved = true
same_verification_status VerificationStatus.rejected VerificationStatus.rejected = true
same_verification_status _ _ = false

abbrev pub same_charge_status : AdvertChargeStatus → AdvertChargeStatus → Bool
same_charge_status AdvertChargeStatus.quoted AdvertChargeStatus.quoted = true
same_charge_status AdvertChargeStatus.payment_submitted AdvertChargeStatus.payment_submitted = true
same_charge_status AdvertChargeStatus.payment_rejected AdvertChargeStatus.payment_rejected = true
same_charge_status AdvertChargeStatus.paid AdvertChargeStatus.paid = true
same_charge_status AdvertChargeStatus.waived AdvertChargeStatus.waived = true
same_charge_status _ _ = false

abbrev pub same_processing_status : ProcessingStatus → ProcessingStatus → Bool
same_processing_status ProcessingStatus.received ProcessingStatus.received = true
same_processing_status ProcessingStatus.recorded ProcessingStatus.recorded = true
same_processing_status ProcessingStatus.processed ProcessingStatus.processed = true
same_processing_status ProcessingStatus.manual_review ProcessingStatus.manual_review = true
same_processing_status ProcessingStatus.resolved ProcessingStatus.resolved = true
same_processing_status _ _ = false
