-- ===== src/Models/Rows.antt =====
-- The rows of the tables: backend/app/models/{rental, booking, tenancy, payment, auth, engagement,
-- advertising, audit}.py. An id is a number, an instant a number of microseconds, a date a day number, an
-- amount a number of cents. The finer parts of a decimal are not kept. Columns that only describe a row to a reader (addresses, coordinates,
-- photographs, the title and body of a notification) are left out.
use rental_property.Base.{ℕ, Bool, Option, List}
use rental_property.Text.{Str}
use rental_property.Models.Json.{Fields}
use rental_property.Models.Status.{
  VerificationStatus, AdvertChargeStatus, Outcome, ProcessingStatus, UserRole, PropertyStatus,
  UnitStatus, BookingStatus, PaymentStatus, LedgerDirection, TenancyStatus, ViewingStatus,
  SourceType,
}

-- class User
pub record User : Type 0 where
  pub id : ℕ
  pub email : Option Str
  pub phone : Option Str
  pub display_name : Str
  pub hashed_password : Str
  pub role : UserRole
  pub is_active : Bool

-- class Property
pub record Property : Type 0 where
  pub id : ℕ
  pub owner_id : ℕ
  pub status : PropertyStatus

-- class Unit
pub record RentalUnit : Type 0 where
  pub id : ℕ
  pub property_id : ℕ
  pub monthly_rent : ℕ
  pub deposit : ℕ
  pub status : UnitStatus
  pub available_from : Option ℕ

-- class Booking
pub record Booking : Type 0 where
  pub id : ℕ
  pub unit_id : ℕ
  pub seeker_id : ℕ
  pub status : BookingStatus
  pub move_in_date : ℕ
  pub amount_due : ℕ
  pub currency : Str
  pub payment_due_at : ℕ
  pub confirmed_at : Option ℕ
  pub cancelled_at : Option ℕ

-- class BookingStatusHistory
pub record BookingStatusHistory : Type 0 where
  pub booking_id : ℕ
  pub from_status : Option BookingStatus
  pub to_status : BookingStatus
  pub actor_id : Option ℕ
  pub note : Str

-- class BookingPayment
pub record BookingPayment : Type 0 where
  pub id : ℕ
  pub booking_id : ℕ
  pub amount : ℕ
  pub currency : Str
  pub status : PaymentStatus
  pub method : Option Str
  pub reference : Option Str
  pub submitted_at : Option ℕ
  pub confirmed_at : Option ℕ
  pub confirmed_by : Option ℕ

-- The two accounts that the program posts to.
pub data Account : Type 0 where
  platform_clearing booking_funds_held : Account

-- class LedgerEntry
pub record LedgerEntry : Type 0 where
  pub booking_id : ℕ
  pub payment_id : ℕ
  pub account : Account
  pub direction : LedgerDirection
  pub amount : ℕ
  pub currency : Str

-- The values of `notification_type`.
pub data NotificationType : Type 0 where
  booking_started payment_review_required booking_confirmed booking_rejected booking_released :
      NotificationType
  booking_cancelled booking_expired viewing_reminder tenancy_activated tenant_notice_given :
      NotificationType
  notice_recorded tenancy_ended : NotificationType
  provider_payment_manual_review provider_booking_payment_review provider_payment_received :
      NotificationType
  provider_advert_payment_review advert_charge_payment_review advert_charge_quoted :
      NotificationType
  advert_charge_paid advert_charge_payment_rejected property_approved property_activated :
      NotificationType
  property_rejected landlord_verification_approved landlord_verification_rejected : NotificationType
  viewing_requested viewing_updated viewing_cancelled : NotificationType

-- The keys of a notification's `payload`, each with the id that it carries.
pub data PayloadItem : Type 0 where
  booking_id property_id unit_id tenancy_id viewing_id : ℕ → PayloadItem
  source_id provider_event_id advert_charge_id : ℕ → PayloadItem
  source_type : SourceType → PayloadItem

-- class Notification
pub record Notification : Type 0 where
  pub user_id : ℕ
  pub notification_type : NotificationType
  pub payload : List PayloadItem

-- class Tenancy
pub record Tenancy : Type 0 where
  pub id : ℕ
  pub booking_id : ℕ
  pub unit_id : ℕ
  pub tenant_id : ℕ
  pub status : TenancyStatus
  pub start_date : ℕ
  pub notice_given_at : Option ℕ
  pub expected_move_out : Option ℕ
  pub allow_readvertise : Bool
  pub ended_at : Option ℕ
  pub inspection_completed_at : Option ℕ
  pub created_at : ℕ

-- class PaymentReferenceClaim
pub record PaymentReferenceClaim : Type 0 where
  pub id : ℕ
  pub method : Str
  pub reference : Str
  pub source_type : SourceType
  pub source_id : ℕ

-- class AdvertCharge
pub record AdvertCharge : Type 0 where
  pub id : ℕ
  pub property_id : ℕ
  pub amount : ℕ
  pub currency : Str
  pub status : AdvertChargeStatus
  pub note : Option Str
  pub quoted_by : ℕ
  pub payment_method : Option Str
  pub payment_reference : Option Str
  pub payment_submitted_at : Option ℕ
  pub confirmed_by : Option ℕ
  pub confirmed_at : Option ℕ

-- class LandlordProfile
pub record LandlordProfile : Type 0 where
  pub id : ℕ
  pub user_id : ℕ
  pub business_name : Option Str
  pub physical_address : Option Str
  pub verification_status : VerificationStatus
  pub submitted_at : Option ℕ
  pub verified_at : Option ℕ
  pub rejection_reason : Option Str

-- The values of `processing_message`, one constructor for each text.
pub data ProcessingMessage : Type 0 where
  booking_missing booking_payment_missing booking_money_differs transaction_id_missing :
      ProcessingMessage
  booking_already_applied booking_deadline_passed booking_unit_gone booking_property_gone :
      ProcessingMessage
  claimed_elsewhere booking_moved_to_queue charge_missing charge_money_differs : ProcessingMessage
  charge_already_applied charge_property_gone charge_moved_to_queue refund_reported :
      ProcessingMessage
  booking_not_payable : BookingStatus → PaymentStatus → ProcessingMessage
  charge_not_payable : AdvertChargeStatus → ProcessingMessage
  outcome_recorded : Outcome → ProcessingMessage

-- class PaymentProviderEvent
pub record PaymentProviderEvent : Type 0 where
  pub id : ℕ
  pub provider : Str
  pub event_id : Str
  pub event_type : Str
  pub provider_transaction_id : Option Str
  pub source_type : SourceType
  pub source_id : ℕ
  pub outcome : Outcome
  pub amount : Option ℕ
  pub currency : Option Str
  pub occurred_at : Option ℕ
  pub payload_sha256 : ℕ
  pub processing_status : ProcessingStatus
  pub processing_message : Option ProcessingMessage
  pub processed_at : Option ℕ
  pub reconciled_at : Option ℕ
  pub reconciled_by : Option ℕ
  pub resolution_note : Option Str

-- class FavouriteProperty
pub record FavouriteProperty : Type 0 where
  pub id : ℕ
  pub user_id : ℕ
  pub property_id : ℕ

-- class ViewingRequest
pub record ViewingRequest : Type 0 where
  pub id : ℕ
  pub property_id : ℕ
  pub requester_id : ℕ
  pub status : ViewingStatus
  pub preferred_at : ℕ
  pub scheduled_at : Option ℕ
  pub reminder_sent_at : Option ℕ

-- class RefreshToken
pub record RefreshToken : Type 0 where
  pub id : ℕ
  pub user_id : ℕ
  pub token_hash : ℕ
  pub family_id : ℕ
  pub expires_at : ℕ
  pub revoked_at : Option ℕ
  pub replaced_by_id : Option ℕ
  pub last_used_at : Option ℕ

-- The values of `action` that the modelled code records.
pub data AuditAction : Type 0 where
  booking_created booking_payment_submitted booking_payment_confirmed : AuditAction
  booking_payment_rejected booking_cancelled booking_expired : AuditAction
  booking_provider_payment_received payment_provider_manual_review : AuditAction
  payment_provider_reconciliation_resolved advert_charge_provider_payment_received : AuditAction
  advert_charge_payment_submitted advert_charge_quoted advert_charge_waived : AuditAction
  advert_charge_payment_confirmed advert_charge_payment_rejected : AuditAction
  property_approved property_activated property_rejected : AuditAction
  landlord_verification_approved landlord_verification_rejected : AuditAction
  tenancy_activated tenancy_notice_given tenancy_ended tenancy_inspection_completed : AuditAction

-- The values of `entity_type`.
pub data EntityType : Type 0 where
  booking tenancy property advert_charge landlord_profile payment_provider_event : EntityType

-- class AuditEvent
pub record AuditEvent : Type 0 where
  pub actor_id : Option ℕ
  pub actor_role : Option UserRole
  pub action : AuditAction
  pub entity_type : EntityType
  pub entity_id : Option ℕ
  pub details : Fields
