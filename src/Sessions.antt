-- ===== src/Sessions.antt =====
-- backend/app/services/sessions.py: refresh tokens, their rotation and their revocation.
mod Defs
pub mod Replay
unfoldable pub use Defs.*
