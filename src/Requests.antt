-- ===== src/Requests.antt =====
-- Everything that changes a booking, a tenancy or a unit's status while the system runs: the
-- requests to the API and the runs of the worker, in any order.
mod Defs
mod Lasting
mod Invariant
pub mod Steps
pub mod Serving
unfoldable pub use Defs.*
pub use Invariant.*
