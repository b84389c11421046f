-- ===== src/Models.antt =====
-- The tables of the database (backend/app/models) and the enumerations of their columns.
mod Status
mod Json
mod Details
mod Rows
mod Tables
pub use Status.*
pub use Json.*
unfoldable pub use Details.*
pub use Rows.*
pub use Tables.*
