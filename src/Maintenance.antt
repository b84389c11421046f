-- ===== src/Maintenance.antt =====
-- backend/app/services/maintenance.py: what the worker does by itself, at intervals.
mod Defs
pub mod Release
pub mod Deadline
mod Stale
mod Totals
unfoldable pub use Defs.*
pub use Stale.*
pub use Totals.*
