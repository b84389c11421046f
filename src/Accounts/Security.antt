-- ===== src/Accounts/Security.antt =====
-- backend/app/core/security.py. The password library and the signature of the tokens are
-- parameters.
use rental_property.Base.{
  arith, ℕ, ◌+◌, ◌*◌, ◌<◌, ◌≤◌, ◌≡◌, ◌≢◌, Bool, true, false, Option, none, some, [], ◌∷◌, refl, ◌∙◌,
}
use rental_property.Text.{Str, codes}
use rental_property.Text.Uuid.{uuid_text, read_uuid, uuid_bound, read_uuid-uuid_text}
use rental_property.Models.{UserRole}

-- `PasswordHash.recommended()`; the salt that a hash draws is an argument.
pub record PasswordHash : Type 0 where
  pub hash : ℕ → Str → Str
  pub verify : Str → Str → Bool
  pub verify-hash : (salt : ℕ) (password : Str) → verify password (hash salt password) ≡ true
  pub hash-filled : (salt : ℕ) (password : Str) → hash salt password ≢ []

unfoldable pub verify_password : PasswordHash → Str → Str → Bool
verify_password passwords password [] = false
verify_password passwords password (c ∷ s) = passwords.verify password (c ∷ s)

-- `user.role`
unfoldable pub role_text : UserRole → Str
role_text UserRole.house_seeker = codes "house_seeker"
role_text UserRole.tenant = codes "tenant"
role_text UserRole.landlord = codes "landlord"
role_text UserRole.admin = codes "admin"

-- The payload that is signed.
pub record AccessClaims : Type 0 where
  pub sub : Str
  pub role : Str
  pub iat : ℕ
  pub exp : ℕ

-- What a payload has under the two keys that are read.
pub record Payload : Type 0 where
  pub sub : Option Str
  pub role : Option Str

-- `jwt.encode` and `jwt.decode` with the secret key: a payload that was signed is read back while
-- its time lasts. PyJWT keeps whole seconds, so the last second is not promised. A token is a text.
pub record Signature : Type 0 where
  pub encode : AccessClaims → Str
  pub decode : ℕ → Str → Option Payload
  pub decode-encode :
      (now : ℕ) (c : AccessClaims)
      → c.iat ≤ now
      → now + 1000000 ≤ c.exp
      → decode now (encode c) ≡ some (record { sub = some c.sub; role = some c.role })

-- `settings.access_token_minutes`
abbrev pub access_token_minutes : ℕ
access_token_minutes = 60

-- In microseconds.
abbrev pub access_token_window : ℕ
access_token_window = access_token_minutes * 60 * 1000000

unfoldable pub create_access_token : Signature → ℕ → UserRole → ℕ → Str
create_access_token jwt user_id role now = jwt.encode (record {
  sub = uuid_text user_id;
  role = role_text role;
  iat = now;
  exp = now + access_token_window;
})

-- `payload["sub"]` as an id and `payload["role"]`; a missing key and a text that is no id are errors.
unfoldable pub read_payload : Option Str → Option Str → Option (ℕ × Str)
read_payload none role = none
read_payload (some sub) none = none
read_payload (some sub) (some role) = elim (read_uuid sub) [
  | none ↦ none
  | some subject ↦ some (subject, role)
]

-- `none` is the ValueError.
unfoldable pub decode_access_token : Signature → ℕ → Str → Option (ℕ × Str)
unfolding read_payload
decode_access_token jwt now token = elim (jwt.decode now token) [
  | none ↦ none
  | some payload ↦ read_payload payload.sub payload.role
]

-- A token that was created is read as its user's, until its last second.
pub decode_access_token-create_access_token :
    (jwt : Signature) (id : ℕ) (role : UserRole) (created now : ℕ)
    → id < uuid_bound
    → created ≤ now
    → now + 1000000 ≤ created + access_token_window
    → decode_access_token jwt now (create_access_token jwt id role created)
      ≡ some (id, role_text role)
unfolding decode_access_token create_access_token
decode_access_token-create_access_token jwt id role created now small after time =
    let claims : AccessClaims = record {
      sub = uuid_text id;
      role = role_text role;
      iat = created;
      exp = created + access_token_window;
    } in
    ground (arith, jwt.decode-encode now claims after time, read_uuid-uuid_text id small)

verify_password-filled :
    (passwords : PasswordHash) (password h : Str)
    → h ≢ []
    → verify_password passwords password h ≡ passwords.verify password h
unfolding verify_password
verify_password-filled passwords password [] other = absurd (other refl)
verify_password-filled passwords password (c ∷ h) other = refl

pub verify_password-hash :
    (passwords : PasswordHash) (salt : ℕ) (password : Str)
    → verify_password passwords password (passwords.hash salt password) ≡ true
verify_password-hash passwords salt password =
    verify_password-filled passwords password (passwords.hash salt password)
      (passwords.hash-filled salt password)
    ∙ passwords.verify-hash salt password
