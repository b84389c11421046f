-- ===== src/Tests/Data.antt =====
-- A landlord (1), a seeker (2), another seeker (3), an administrator (4) and one property (10)
-- with one unit (20).
use rental_property.Base.{arith, find, count, true, none, some, List, [], ◌∷◌}
use rental_property.Text.{codes}
use rental_property.Models.{User, UserRole, Property, PropertyStatus, RentalUnit, UnitStatus, Db}
use rental_property.Action.{World}
use rental_property.Bookings.{BookingCreate, BookingPaymentSubmit, PaymentMethod}
use rental_property.Tenancies.{TenantNoticeCreate}
use rental_property.Requests.{Request, IsSound}

abbrev pub landlord : User
landlord = record {
  id = 1;
  email = none;
  phone = some (codes "58000001");
  display_name = codes "Landlord";
  hashed_password = codes "#password";
  role = UserRole.landlord;
  is_active = true;
}

abbrev pub seeker : User
seeker = record {
  id = 2;
  email = none;
  phone = some (codes "58000002");
  display_name = codes "Seeker";
  hashed_password = codes "#password";
  role = UserRole.house_seeker;
  is_active = true;
}

abbrev pub rival : User
rival = record {
  id = 3;
  email = none;
  phone = some (codes "58000003");
  display_name = codes "Rival";
  hashed_password = codes "#password";
  role = UserRole.house_seeker;
  is_active = true;
}

abbrev pub admin : User
admin = record {
  id = 4;
  email = none;
  phone = some (codes "58000004");
  display_name = codes "Administrator";
  hashed_password = codes "#password";
  role = UserRole.admin;
  is_active = true;
}

abbrev pub house : Property
house = record { id = 10; owner_id = 1; status = PropertyStatus.active }

abbrev pub room : RentalUnit
room = record {
  id = 20;
  property_id = 10;
  monthly_rent = 150000;
  deposit = 0;
  status = UnitStatus.available;
  available_from = none;
}

abbrev pub start_db : Db
start_db = record {
  users = landlord ∷ seeker ∷ rival ∷ admin ∷ [];
  properties = house ∷ [];
  units = room ∷ [];
  bookings = [];
  histories = [];
  payments = [];
  ledger = [];
  notifications = [];
  tenancies = [];
  claims = [];
  viewings = [];
  tokens = [];
  audits = [];
  profiles = [];
  charges = [];
  provider_events = [];
  favourites = [];
}

abbrev pub start : World
start = record {
  session = start_db;
  committed = start_db;
  now = 1000;
  today = 100;
  next_uuid = 100;
}

abbrev pub move_in_form : BookingCreate
move_in_form = record { unit_id = 20; move_in_date = 105 }

abbrev pub payment_form : BookingPaymentSubmit
payment_form = record { method = PaymentMethod.mobile_money; reference = codes " mp-123 " }

abbrev pub notice_form : TenantNoticeCreate
notice_form = record { expected_move_out = 200; allow_readvertise = true }

-- Booked (100), paid, confirmed; moved in (103) on day 105; under notice, and moved out.
abbrev pub lifecycle : List Request
lifecycle =
    Request.create move_in_form seeker (some 2)
    ∷ Request.submit 100 payment_form seeker
    ∷ Request.confirm 100 none admin
    ∷ Request.wait 2000 105
    ∷ Request.activate 100 landlord
    ∷ Request.notice 103 notice_form seeker
    ∷ Request.end 103 landlord
    ∷ Request.inspect 103 landlord
    ∷ []

pub start-IsSound : IsSound start
unfolding find count
start-IsSound = (λ k u e. ground arith, λ k. ground arith)
