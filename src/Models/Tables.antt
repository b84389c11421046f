-- ===== src/Models/Tables.antt =====
-- The tables together.
use rental_property.Base.{ℕ, ◌≡◌, Option, some, List, find, find-key}
use rental_property.Models.Rows.{
  User, Property, RentalUnit, Booking, BookingStatusHistory, BookingPayment, LedgerEntry,
  Notification, Tenancy, PaymentReferenceClaim, ViewingRequest, RefreshToken, AuditEvent,
  LandlordProfile, AdvertCharge, PaymentProviderEvent, FavouriteProperty,
}

-- New rows are added at the end of a table.
pub record Db : Type 0 where
  pub users : List User
  pub properties : List Property
  pub units : List RentalUnit
  pub bookings : List Booking
  pub histories : List BookingStatusHistory
  pub payments : List BookingPayment
  pub ledger : List LedgerEntry
  pub notifications : List Notification
  pub tenancies : List Tenancy
  pub claims : List PaymentReferenceClaim
  pub viewings : List ViewingRequest
  pub tokens : List RefreshToken
  pub audits : List AuditEvent
  pub profiles : List LandlordProfile
  pub charges : List AdvertCharge
  pub provider_events : List PaymentProviderEvent
  pub favourites : List FavouriteProperty

-- The keys that rows are found by. A payment is found by its booking.
abbrev pub user_key : User → ℕ
user_key r = r.id

abbrev pub property_key : Property → ℕ
property_key r = r.id

abbrev pub unit_key : RentalUnit → ℕ
unit_key r = r.id

abbrev pub booking_key : Booking → ℕ
booking_key r = r.id

abbrev pub payment_key : BookingPayment → ℕ
payment_key r = r.booking_id

abbrev pub tenancy_key : Tenancy → ℕ
tenancy_key r = r.id

-- A charge is found by its property, a profile by its user.
abbrev pub charge_key : AdvertCharge → ℕ
charge_key r = r.property_id

abbrev pub profile_key : LandlordProfile → ℕ
profile_key r = r.user_id

abbrev pub event_key : PaymentProviderEvent → ℕ
event_key r = r.id

abbrev pub find_charge : ℕ → Db → Option AdvertCharge
find_charge k d = find charge_key k d.charges

abbrev pub find_profile : ℕ → Db → Option LandlordProfile
find_profile k d = find profile_key k d.profiles

abbrev pub find_event : ℕ → Db → Option PaymentProviderEvent
find_event k d = find event_key k d.provider_events

abbrev pub find_user : ℕ → Db → Option User
find_user k d = find user_key k d.users

abbrev pub find_property : ℕ → Db → Option Property
find_property k d = find property_key k d.properties

abbrev pub find_unit : ℕ → Db → Option RentalUnit
find_unit k d = find unit_key k d.units

abbrev pub find_booking : ℕ → Db → Option Booking
find_booking k d = find booking_key k d.bookings

abbrev pub find_payment : ℕ → Db → Option BookingPayment
find_payment k d = find payment_key k d.payments

abbrev pub find_tenancy : ℕ → Db → Option Tenancy
find_tenancy k d = find tenancy_key k d.tenancies

-- A row that was found has the key that it was found by.
pub found_booking :
    (k : ℕ) (b : Booking) (d : Db) → find_booking k d ≡ some b → find_booking b.id d ≡ some b
found_booking k b d h = cc (find-key booking_key k b d.bookings h)

pub found_tenancy :
    (k : ℕ) (t : Tenancy) (d : Db) → find_tenancy k d ≡ some t → find_tenancy t.id d ≡ some t
found_tenancy k t d h = cc (find-key tenancy_key k t d.tenancies h)
