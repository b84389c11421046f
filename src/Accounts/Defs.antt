-- ===== src/Accounts/Defs.antt =====
-- The handlers. A reply with a user holds its row.
use rental_property.Base.{
  ℕ, ◌*◌, Bool, true, false, ◌&&◌, ◌||◌, Option, none, some, [], ◌∷◌, ◌++◌, if◌then◌else◌, is_some,
  first,
}
use rental_property.Text.{Str, strip, lower, str_eq}
use rental_property.Models.{
  Db, User, UserRole, LandlordProfile, VerificationStatus, same_role, find_user,
}
use rental_property.Action.{
  World, Result, ok, err, Error, Action, ⊤, ◌>>=◌, ◌>>◌, pure, raise, raise_if, gets, modify,
  commit, utcnow, uuid4, skip, account_exists, too_many_logins, invalid_credentials, session_reused,
  session_invalid, authentication_required, unique_violation, refresh_token_invalid,
  refresh_reuse_detected, refresh_token_expired, session_inactive,
}
use rental_property.Sessions.{
  IssuedRefreshToken, refresh_token_days, issue_refresh_token, rotate_refresh_token,
  revoke_refresh_token, revoke_all_user_refresh_tokens,
}
use rental_property.Accounts.Limits.{
  Counters, consume_rate_limit, rate_limit_key, login_rate_limit_attempts,
  login_rate_limit_window_seconds,
}
use rental_property.Accounts.Security.{
  PasswordHash, Signature, verify_password, create_access_token, decode_access_token,
  access_token_minutes,
}

pub data RegisterRole : Type 0 where
  house_seeker landlord : RegisterRole

abbrev pub register_role : RegisterRole → UserRole
register_role RegisterRole.house_seeker = UserRole.house_seeker
register_role RegisterRole.landlord = UserRole.landlord

-- `RegisterRequest`
pub record RegisterRequest : Type 0 where
  pub email : Option Str
  pub phone : Str
  pub display_name : Str
  pub password : Str
  pub role : RegisterRole

-- `LoginRequest`
pub record LoginRequest : Type 0 where
  pub identifier : Str
  pub password : Str

-- `TokenRead`
pub record TokenRead : Type 0 where
  pub access_token : Str
  pub refresh_token : ℕ
  pub expires_in_seconds : ℕ
  pub refresh_expires_in_seconds : ℕ
  pub user : User

abbrev pub is_text : Option Str → Str → Bool
is_text none s = false
is_text (some t) s = str_eq t s

-- `User.phone == phone`, and `func.lower(User.email) == email`
abbrev pub has_phone : Str → User → Bool
has_phone phone u = is_text u.phone phone

abbrev pub has_email : Str → User → Bool
has_email email u = elim u.email [ none ↦ false | some e ↦ str_eq (lower e) email ]

-- `payload.email.strip().lower() if payload.email else None`
abbrev pub normalize_email : Option Str → Option Str
normalize_email none = none
normalize_email (some []) = none
normalize_email (some (c ∷ s)) = some (lower (strip (c ∷ s)))

-- `if email:`
abbrev pub shares_email : Option Str → User → Bool
shares_email none u = false
shares_email (some []) u = false
shares_email (some (c ∷ s)) u = has_email (c ∷ s) u

-- `unique=True` of `users.email` and `users.phone`
abbrev pub same_email : Option Str → User → Bool
same_email none u = false
same_email (some e) u = is_text u.email e

abbrev pub same_phone : Option Str → User → Bool
same_phone none u = false
same_phone (some p) u = is_text u.phone p

abbrev pub clashes : User → User → Bool
clashes row u = same_email row.email u || same_phone row.phone u

abbrev pub is_duplicate : Str → Option Str → User → Bool
is_duplicate phone email u = has_phone phone u || shares_email email u

-- `db.add(user)` and the flush
unfoldable pub insert_user : User → Action ⊤
insert_user row = do
  other ← gets (λ d. first (clashes row) d.users)
  raise_if (is_some other) unique_violation
  modify λ d. record d { users = d.users ++ row ∷ [] }

unfoldable pub add_profile : ℕ → Action ⊤
add_profile user_id = do
  id ← uuid4
  let profile : LandlordProfile = record {
    id = id;
    user_id = user_id;
    business_name = none;
    physical_address = none;
    verification_status = VerificationStatus.not_submitted;
    submitted_at = none;
    verified_at = none;
    rejection_reason = none;
  }
  modify λ d. record d { profiles = d.profiles ++ profile ∷ [] }

-- `hashed_password` is the hash that was drawn.
unfoldable pub create_user : RegisterRequest → Str → Action User
unfolding insert_user add_profile
create_user payload hashed_password = do
  id ← uuid4
  let user : User = record {
    id = id;
    email = normalize_email payload.email;
    phone = some (strip payload.phone);
    display_name = strip payload.display_name;
    hashed_password = hashed_password;
    role = register_role payload.role;
    is_active = true;
  }
  insert_user user
  if same_role (register_role payload.role) UserRole.landlord then add_profile user.id else skip
  commit
  pure user

unfoldable pub register : PasswordHash → ℕ → RegisterRequest → Action User
register passwords salt payload = do
  existing ←
      gets (λ d. first (is_duplicate (strip payload.phone) (normalize_email payload.email)) d.users)
  raise_if (is_some existing) account_exists
  create_user payload (passwords.hash salt payload.password)

-- The account of a login.
abbrev pub is_account_of : Str → User → Bool
is_account_of identifier u = has_phone identifier u || has_email (lower identifier) u

abbrev pub find_account : Str → Db → Option User
find_account identifier d = first (is_account_of identifier) d.users

unfoldable pub token_response : Signature → User → ℕ → ℕ → TokenRead
token_response jwt user refresh_token now = record {
  access_token = create_access_token jwt user.id user.role now;
  refresh_token = refresh_token;
  expires_in_seconds = access_token_minutes * 60;
  refresh_expires_in_seconds = refresh_token_days * 24 * 60 * 60;
  user = user;
}

-- The account that may log in with the password. Without an account the password is checked against
-- a hash that is no account's, and the answer is not used.
abbrev pub verified_account : PasswordHash → LoginRequest → Db → Option User
verified_account passwords payload d = elim (find_account (strip payload.identifier) d) [
  | none ↦ none
  | some u ↦
      if u.is_active && verify_password passwords payload.password u.hashed_password
      then some u
      else none
]

module _ (hash_token : ℕ → ℕ) (jwt : Signature) where
  -- The part of `login` after the password.
  unfoldable pub open_session : User → ℕ → Action TokenRead
  unfolding issue_refresh_token token_response
  open_session user raw = do
    refresh ← issue_refresh_token hash_token raw user.id none
    commit
    now ← utcnow
    pure (token_response jwt user refresh.raw_token now)

  -- What the two errors of the sessions become.
  abbrev pub session_error : Error → Error
  session_error refresh_reuse_detected = session_reused
  session_error refresh_token_invalid = session_invalid
  session_error refresh_token_expired = session_invalid
  session_error session_inactive = session_invalid
  session_error e = e

  abbrev pub refreshed : Result (User × IssuedRefreshToken) × World → Result TokenRead × World
  refreshed (ok (user, refresh), w) = (ok (token_response jwt user refresh.raw_token w.now), w)
  refreshed (err e, w) = (err (session_error e), w)

  unfoldable pub refresh_session : ℕ → ℕ → Action TokenRead
  refresh_session refresh_token new_raw w =
      refreshed (rotate_refresh_token hash_token refresh_token new_raw w)

unfoldable pub logout : (ℕ → ℕ) → ℕ → Action ⊤
logout hash_token refresh_token = revoke_refresh_token hash_token refresh_token

unfoldable pub logout_all : User → Action ⊤
logout_all user = do changed ← revoke_all_user_refresh_tokens user.id; skip

module _ (redis : Counters) (passwords : PasswordHash) (digest : Str → ℕ) (hash_token : ℕ → ℕ)
    (jwt : Signature) where
  open redis use {Store, delete}

  -- `at` is the second that Redis reads, `raw` the raw token that is drawn.
  unfoldable pub login : LoginRequest → ℕ → ℕ → Store → World → Result TokenRead × Store × World
  unfolding open_session
  login payload at raw s w =
      let key = rate_limit_key digest (strip payload.identifier) in
      let ((allowed, retry), s1) =
        consume_rate_limit redis key login_rate_limit_attempts login_rate_limit_window_seconds at
          s in
      if allowed
      then elim (verified_account passwords payload w.session) [
        | none ↦ (err invalid_credentials, s1, w)
        | some user ↦ let (r, w') = open_session hash_token jwt user raw w in (r, delete key s1, w')
      ]
      else (err too_many_logins, s1, w)

abbrev pub find_active_user : ℕ → Db → Option User
find_active_user user_id d = elim (find_user user_id d) [
  | none ↦ none
  | some u ↦ if u.is_active then some u else none
]

unfoldable pub get_optional_user : Signature → Option Str → Action (Option User)
get_optional_user jwt none = pure none
get_optional_user jwt (some token) = do
  now ← utcnow
  elim (decode_access_token jwt now token) [
    | none ↦ pure none
    | some read ↦ gets (find_active_user read.0)
  ]

unfoldable pub get_current_user : Signature → Option Str → Action User
unfolding get_optional_user
get_current_user jwt credentials = do
  user ← get_optional_user jwt credentials
  elim user [ none ↦ raise authentication_required | some u ↦ pure u ]
