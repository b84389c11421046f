-- ===== src/Audit.antt =====
-- backend/app/services/audit.py: audit events, and the redaction of their details.
mod Defs
pub mod Redaction
unfoldable pub use Defs.*
