-- ===== src/Bookings.antt =====
-- backend/app/api/routes/bookings.py: the life of a booking, from the hold on a unit to its
-- confirmation, rejection or cancellation.
mod Shared
mod Create
mod Submit
mod Review
mod Outcomes
pub mod Holds
pub mod Atomic
unfoldable pub use Shared.*
unfoldable pub use Create.*
unfoldable pub use Submit.*
unfoldable pub use Review.*
pub use Outcomes.*
