-- ===== src/Tenancies.antt =====
-- backend/app/api/routes/tenancies.py: moving in, notice, moving out and the inspection.
mod Shared
mod Activate
mod Leave
mod Outcomes
pub mod Repeat
unfoldable pub use Shared.*
unfoldable pub use Activate.*
unfoldable pub use Leave.*
pub use Outcomes.*
