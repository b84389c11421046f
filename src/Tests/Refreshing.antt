-- ===== src/Tests/Refreshing.antt =====
-- A refresh token is used twice.
use rental_property.Base.{ℕ, ◌+◌, ◌≡◌, refl, none, some, [], ◌∷◌, first, find, count, ◌==◌}
use rental_property.Models.{RefreshToken}
use rental_property.Action.{World, ok, err, refresh_reuse_detected}
use rental_property.Sessions.{rotate_refresh_token, is_live_in, refresh_token_window}
use rental_property.Sessions.Replay.{rotate_refresh_token-replay}
use rental_property.Tests.Data.{start, start_db, seeker}

abbrev successor : ℕ → ℕ
successor n = n + 1

abbrev stored : RefreshToken
stored = record {
  id = 50;
  user_id = 2;
  token_hash = 8;
  family_id = 60;
  expires_at = 5000;
  revoked_at = none;
  replaced_by_id = none;
  last_used_at = none;
}

abbrev signed_in : World
signed_in = record start { session = record start_db { tokens = stored ∷ [] } }

abbrev replacement : RefreshToken
replacement = record {
  id = 100;
  user_id = 2;
  token_hash = 10;
  family_id = 60;
  expires_at = 1000 + refresh_token_window;
  revoked_at = none;
  replaced_by_id = none;
  last_used_at = none;
}

stored_there : first (λ r. r.token_hash == successor 7) signed_in.session.tokens ≡ some stored
unfolding first
stored_there = refl

stored_key : find (λ (r : RefreshToken). r.id) 50 signed_in.session.tokens ≡ some stored
unfolding find
stored_key = refl

rotation_runs :
    (rotate_refresh_token successor 7 9 signed_in).0
    ≡ ok (seeker, record { raw_token = 9; row = replacement })
unfolding rotate_refresh_token first find
rotation_runs = refl

rotate_refresh_token-replay_example :
    let w' = (rotate_refresh_token successor 7 9 signed_in).1 in
    let (result, w'') = rotate_refresh_token successor 7 11 w' in
    (result ≡ err refresh_reuse_detected)
    × (count (is_live_in 60) w''.committed.tokens ≡ 0)
    × (w''.session ≡ w''.committed)
rotate_refresh_token-replay_example =
    rotate_refresh_token-replay successor 7 9 stored signed_in stored_there 11
      (seeker, record { raw_token = 9; row = replacement }) stored_key rotation_runs
