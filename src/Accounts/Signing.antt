-- ===== src/Accounts/Signing.antt =====
-- What `login` of auth.py gives out, and what `get_current_user` of dependencies.py makes of it.
use rental_property.Base.{
  ℕ, ◌+◌, ◌<◌, ◌≤◌, ◌≡◌, ◌∙◌, refl, true, none, some, [], ◌∷◌, ◌++◌, arith, by_option,
}
use rental_property.Text.{Str, strip}
use rental_property.Text.Uuid.{uuid_bound}
use rental_property.Models.{Db, User, RefreshToken, find_user}
use rental_property.Action.{World, Result, Error, ok, err, Ensures, Ensures-cases}
use rental_property.Accounts.Limits.{
  Counters, number_of, consume_rate_limit, rate_limit_key, login_rate_limit_attempts,
  login_rate_limit_window_seconds,
}
use rental_property.Accounts.Counting.{consume_rate_limit-counts}
use rental_property.Accounts.Security.{
  PasswordHash, Signature, verify_password, access_token_window,
  decode_access_token-create_access_token,
}
use rental_property.Accounts.Defs.{
  LoginRequest, TokenRead, login, open_session, token_response, verified_account, find_account,
  get_current_user,
}

verified_account-some :
    (passwords : PasswordHash) (form : LoginRequest) (d : Db) (u : User)
    → verified_account passwords form d ≡ some u
    → (find_account (strip form.identifier) d ≡ some u)
      × (u.is_active ≡ true)
      × (verify_password passwords form.password u.hashed_password ≡ true)
verified_account-some passwords form d u e =
    by_option (find_account (strip form.identifier) d) (λ missing. absurd (ground (arith, missing)))
      λ v there. ground (arith, there)

-- The user has a new refresh token, which is committed.
abbrev pub IsSignedIn : (ℕ → ℕ) → User → ℕ → World → World → Type 0
IsSignedIn hash_token u raw w w' =
    (row : RefreshToken) × (w'.committed.tokens ≡ w.session.tokens ++ row ∷ [])
    × (row.user_id ≡ u.id)
    × (row.token_hash ≡ hash_token raw)
    × (row.revoked_at ≡ none)

module _ (hash_token : ℕ → ℕ) (jwt : Signature) where
  pub open_session-outcome :
      (u : User) (raw : ℕ) (w : World)
      → let (r, w') = open_session hash_token jwt u raw w in
        (r ≡ ok (token_response jwt u raw w.now)) × IsSignedIn hash_token u raw w w'
  unfolding open_session
  open_session-outcome u raw w = (refl, (_, refl, refl, refl, refl))

  -- A user of an access token, while its time lasts.
  get_current_user-token_response :
      (u v : User) (raw : ℕ) (now : ℕ) (w : World)
      → u.id < uuid_bound
      → now ≤ w.now
      → w.now + 1000000 ≤ now + access_token_window
      → find_user u.id w.session ≡ some v
      → v.is_active ≡ true
      → get_current_user jwt (some (token_response jwt u raw now).access_token) w ≡ (ok v, w)
  unfolding get_current_user token_response
  get_current_user-token_response u v raw now w small after time there active =
      let read =
        decode_access_token-create_access_token jwt u.id u.role now w.now small after time in
      ground (arith, read, there, active)

module _ (redis : Counters) (passwords : PasswordHash) (digest : Str → ℕ) (hash_token : ℕ → ℕ)
    (jwt : Signature) (form : LoginRequest) (at raw : ℕ) (s : redis.Store) (w : World) where
  abbrev answered : Result TokenRead × redis.Store × World
  answered = login redis passwords digest hash_token jwt form at raw s w

  login-ok :
      (t : TokenRead)
      → answered.0 ≡ ok t
      → (u : User) × (verified_account passwords form w.session ≡ some u)
        × (answered.2 ≡ (open_session hash_token jwt u raw w).1)
        × (ok t ≡ (open_session hash_token jwt u raw w).0)
  unfolding login
  login-ok t e =
      by_option (verified_account passwords form w.session)
        (λ missing. absurd (ground (arith, missing, e)))
        λ u there. (u, there, ground (arith, there, e), ground (arith, there, e))

  -- The attempts that Redis has counted for the identifier.
  abbrev pub attempts : redis.Store → ℕ
  attempts v = number_of (redis.get (rate_limit_key digest (strip form.identifier)) at v)

  login-cleared : (t : TokenRead) → answered.0 ≡ ok t → attempts answered.1 ≡ 0
  unfolding login
  login-cleared t e =
      by_option (verified_account passwords form w.session)
        (λ missing. absurd (ground (arith, missing, e)))
        λ u there. ground (
          arith,
          there,
          e,
          redis.get-delete (rate_limit_key digest (strip form.identifier)) at
              (consume_rate_limit redis (rate_limit_key digest (strip form.identifier))
                login_rate_limit_attempts login_rate_limit_window_seconds at s).1,
        )

  login-err :
      (e : Error) → answered.0 ≡ err e → (answered.2 ≡ w) × (attempts answered.1 ≡ attempts s + 1)
  unfolding login
  login-err e refused =
      let counted =
        consume_rate_limit-counts redis (rate_limit_key digest (strip form.identifier))
          login_rate_limit_attempts login_rate_limit_window_seconds at s (omega arith) in
      by_option (verified_account passwords form w.session)
        (λ missing. ground (arith, missing, counted))
        λ u there.
          let (opened, signed) = open_session-outcome hash_token jwt u raw w in
          ground (arith, there, opened, refused, counted)

  -- A login that answers is by a password that an active account's hash verifies, has committed a
  -- refresh token for it, and has cleared the count of attempts in Redis; one that is refused has
  -- changed nothing in the database, and counts as one attempt more.
  pub login-verified :
      Ensures
        (answered.0, answered.2)
        (λ t w'.
          (find_account (strip form.identifier) w.session ≡ some t.user)
          × (t.user.is_active ≡ true)
          × (verify_password passwords form.password t.user.hashed_password ≡ true)
          × IsSignedIn hash_token t.user t.refresh_token w w'
          × (attempts answered.1 ≡ 0))
        (λ w'. (w' ≡ w) × (attempts answered.1 ≡ attempts s + 1))
  unfolding token_response
  login-verified =
      Ensures-cases (answered.0, answered.2) _ _
        (λ t e.
          let (u, there, after, answer) = login-ok t e in
          let (found, active, valid) = verified_account-some passwords form w.session u there in
          let (opened, signed) = open_session-outcome hash_token jwt u raw w in
          let same : ok t ≡ ok (token_response jwt u raw w.now) = answer ∙ opened in
          let here : t ≡ token_response jwt u raw w.now = cc in
          rw (here, after) (found, active, valid, signed, login-cleared t e))
        login-err

  -- The access token that a login answered with belongs to the account that logged in: until its
  -- last second a request with it is the request of that account's row, while the account is
  -- active. The account's id has 128 bits.
  pub get_current_user-login :
      (t : TokenRead) (later : World) (v : User)
      → answered.0 ≡ ok t
      → t.user.id < uuid_bound
      → w.now ≤ later.now
      → later.now + 1000000 ≤ w.now + access_token_window
      → find_user t.user.id later.session ≡ some v
      → v.is_active ≡ true
      → get_current_user jwt (some t.access_token) later ≡ (ok v, later)
  unfolding token_response
  get_current_user-login t later v e small after time there active =
      let (u, found, left, answer) = login-ok t e in
      let (opened, signed) = open_session-outcome hash_token jwt u raw w in
      let same : ok t ≡ ok (token_response jwt u raw w.now) = answer ∙ opened in
      let here : t ≡ token_response jwt u raw w.now = cc in
      let row : find_user u.id later.session ≡ some v = rw here at there in
      let id : u.id < uuid_bound = rw here at small in
      rw here (
        get_current_user-token_response hash_token jwt u v raw w.now later id after time row active)
