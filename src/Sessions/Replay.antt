-- ===== src/Sessions/Replay.antt =====
-- `rotate_refresh_token` of sessions.py with a token that was used or revoked.
use rental_property.Base.{
  ℕ, ◌≡◌, refl, Bool, true, false, some, List, [], ◌∷◌, arith, is_some, first, count, update_where,
  find, by_option, first-put, first-append_old, find-append_old, first-test, ◌++◌,
}
use rental_property.Models.{find_user, User, RefreshToken}
use rental_property.Action.{World, ok, err, refresh_reuse_detected}
use rental_property.Sessions.Defs.{
  IssuedRefreshToken, has_hash, is_live_in, revoked, rotate_refresh_token, token_key, replace_token,
  active_user,
}

revoked-live :
    (p : ℕ → RefreshToken → Bool) (now k : ℕ) (rs : List RefreshToken)
    → ((r : RefreshToken) → p k (revoked now r) ≡ false)
    → count (p k) (update_where (p k) (revoked now) rs) ≡ 0
unfolding count update_where
revoked-live p now k [] dead = refl
revoked-live p now k (r ∷ rs) dead = ground (arith, dead r, revoked-live p now k rs dead)

-- A refresh token that was revoked, because it was rotated or its session was closed, is refused,
-- and showing it leaves no live token in its family, neither in the session nor committed.
pub rotate_refresh_token-reuse :
    (hash : ℕ → ℕ) (raw new_raw : ℕ) (r : RefreshToken) (w : World)
    → first (has_hash (hash raw)) w.session.tokens ≡ some r
    → is_some r.revoked_at ≡ true
    → let (result, w') = rotate_refresh_token hash raw new_raw w in
      (result ≡ err refresh_reuse_detected)
      × (count (is_live_in r.family_id) w'.committed.tokens ≡ 0)
      × (w'.session ≡ w'.committed)
unfolding rotate_refresh_token
rotate_refresh_token-reuse hash raw new_raw r w found dead = (
  ground arith,
  ground (arith, revoked-live is_live_in w.now r.family_id w.session.tokens (λ x. ground arith)),
  ground arith,
)

module _ (hash : ℕ → ℕ) (raw new_raw : ℕ) (r : RefreshToken) (w : World)
    (found : first (has_hash (hash raw)) w.session.tokens ≡ some r) where
  abbrev rotated : RefreshToken
  rotated = record r {
    revoked_at = some w.now;
    last_used_at = some w.now;
    replaced_by_id = some w.next_uuid;
  }

  rotated_row :
      (user : User)
      → find token_key r.id w.session.tokens ≡ some r
      → first (has_hash (hash raw)) (replace_token hash r user new_raw w).1.session.tokens
        ≡ some rotated
  unfolding replace_token
  rotated_row user key =
      first-put token_key (has_hash (hash raw)) r.id rotated r (w.session.tokens ++ _ ∷ [])
        (first-append_old (has_hash (hash raw)) _ r w.session.tokens found)
        (find-append_old token_key r.id _ r w.session.tokens key) refl
        (first-test (has_hash (hash raw)) r w.session.tokens found)

  rotate_refresh_token-replaces :
      (x : User × IssuedRefreshToken)
      → (rotate_refresh_token hash raw new_raw w).0 ≡ ok x
      → (user : User) × (rotate_refresh_token hash raw new_raw w
          ≡ replace_token hash r user new_raw w)
  unfolding rotate_refresh_token
  rotate_refresh_token-replaces x e =
      by_option (active_user (find_user r.user_id w.session))
        (λ missing. absurd (ground (arith, found, missing, e)))
        λ user there. (user, ground (arith, found, there, e))

  -- A refresh token works once: after a rotation with it has succeeded, a second one with it is
  -- refused whatever token it would draw, and closes the family, the replacement that the first one
  -- issued included, provided that the ids of the tokens were unique.
  pub rotate_refresh_token-replay :
      (other_raw : ℕ) (x : User × IssuedRefreshToken)
      → find token_key r.id w.session.tokens ≡ some r
      → (rotate_refresh_token hash raw new_raw w).0 ≡ ok x
      → let w' = (rotate_refresh_token hash raw new_raw w).1 in
        let (result, w'') = rotate_refresh_token hash raw other_raw w' in
        (result ≡ err refresh_reuse_detected)
        × (count (is_live_in r.family_id) w''.committed.tokens ≡ 0)
        × (w''.session ≡ w''.committed)
  rotate_refresh_token-replay other_raw x key e =
      let (user, replaced) = rotate_refresh_token-replaces x e in
      rw replaced (
        rotate_refresh_token-reuse hash raw other_raw rotated
          (replace_token hash r user new_raw w).1 (rotated_row user key) refl)
