-- ===== src/Engagement.antt =====
-- Saved properties and viewing requests: backend/app/api/routes/engagement.py.
mod Defs
pub mod Favourites
unfoldable pub use Defs.*
