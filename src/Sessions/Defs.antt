-- ===== src/Sessions/Defs.antt =====
-- The operations. A raw token is a number; the hash of backend/app/core/security.py is a parameter,
-- and so is the raw token that `create_refresh_token` draws.
use rental_property.Base.{
  ℕ, ◌+◌, ◌*◌, Bool, not, ◌&&◌, ◌==◌, Option, none, some, [], ◌∷◌, ◌++◌, if◌then◌else◌, leb,
  is_some, put, first, count, update_where,
}
use rental_property.Models.{User, RefreshToken, find_user}
use rental_property.Action.{
  Action, ⊤, ◌>>=◌, ◌>>◌, pure, raise, gets, get_or_raise, modify, commit, utcnow, uuid4, skip,
  refresh_token_invalid, refresh_reuse_detected, refresh_token_expired, session_inactive,
}

-- `IssuedRefreshToken`
pub record IssuedRefreshToken : Type 0 where
  pub raw_token : ℕ
  pub row : RefreshToken

-- `settings.refresh_token_days`
abbrev pub refresh_token_days : ℕ
refresh_token_days = 30

-- In microseconds.
abbrev pub refresh_token_window : ℕ
refresh_token_window = refresh_token_days * 24 * 60 * 60 * 1000000

abbrev pub token_key : RefreshToken → ℕ
token_key r = r.id

abbrev pub has_hash : ℕ → RefreshToken → Bool
has_hash h r = r.token_hash == h

abbrev pub is_live_in : ℕ → RefreshToken → Bool
is_live_in family_id r = r.family_id == family_id && not (is_some r.revoked_at)

abbrev pub is_live_for : ℕ → RefreshToken → Bool
is_live_for user_id r = r.user_id == user_id && not (is_some r.revoked_at)

abbrev pub revoked : ℕ → RefreshToken → RefreshToken
revoked at r = record r { revoked_at = some at }

unfoldable pub save_token : RefreshToken → Action ⊤
save_token r = modify λ d. record d { tokens = put token_key r.id r d.tokens }

-- A missing user is an inactive one.
abbrev pub active_user : Option User → Option User
active_user none = none
active_user (some u) = if u.is_active then some u else none

module _ (hash : ℕ → ℕ) where
  unfoldable pub issue_refresh_token : ℕ → ℕ → Option ℕ → Action IssuedRefreshToken
  issue_refresh_token raw user_id family_id = do
    now ← utcnow
    family ← elim family_id [ some f ↦ pure f | none ↦ uuid4 ]
    id ← uuid4
    let row : RefreshToken = record {
      id = id;
      user_id = user_id;
      token_hash = hash raw;
      family_id = family;
      expires_at = now + refresh_token_window;
      revoked_at = none;
      replaced_by_id = none;
      last_used_at = none;
    }
    modify λ d. record d { tokens = d.tokens ++ row ∷ [] }
    pure (record { raw_token = raw; row = row })

  -- The token is replaced by a new one of its family.
  unfoldable pub replace_token : RefreshToken → User → ℕ → Action (User × IssuedRefreshToken)
  unfolding issue_refresh_token save_token
  replace_token row user raw = do
    replacement ← issue_refresh_token raw user.id (some row.family_id)
    now ← utcnow
    save_token (record row {
      revoked_at = some now;
      last_used_at = some now;
      replaced_by_id = some replacement.row.id;
    })
    commit
    pure (user, replacement)

  -- `new_raw` is the raw token that is drawn if the rotation gets that far.
  unfoldable pub rotate_refresh_token : ℕ → ℕ → Action (User × IssuedRefreshToken)
  unfolding save_token replace_token
  rotate_refresh_token raw_token new_raw = do
    now ← utcnow
    row ← get_or_raise (λ d. first (has_hash (hash raw_token)) d.tokens) refresh_token_invalid
    if is_some row.revoked_at
        then (do
          modify λ d. record d {
            tokens = update_where (is_live_in row.family_id) (revoked now) d.tokens;
          }
          commit
          raise refresh_reuse_detected)
        else if leb row.expires_at now
        then save_token (revoked now row) >> commit >> raise refresh_token_expired
        else do
          found ← gets (λ d. active_user (find_user row.user_id d))
          elim found [
            | none ↦ save_token (revoked now row) >> commit >> raise session_inactive
            | some user ↦ replace_token row user new_raw
          ]

  unfoldable pub revoke_refresh_token : ℕ → Action ⊤
  unfolding save_token
  revoke_refresh_token raw_token = do
    now ← utcnow
    row ← gets (λ d. first (has_hash (hash raw_token)) d.tokens)
    elim row [
      | none ↦ skip
      | some r ↦ if is_some r.revoked_at then skip else save_token (revoked now r) >> commit
    ]

unfoldable pub revoke_all_user_refresh_tokens : ℕ → Action ℕ
revoke_all_user_refresh_tokens user_id = do
  now ← utcnow
  changed ← gets (λ d. count (is_live_for user_id) d.tokens)
  modify λ d. record d { tokens = update_where (is_live_for user_id) (revoked now) d.tokens }
  commit
  pure changed
