-- ===== src/Occupancy.antt =====
-- The status of a unit against its bookings and tenancies, through the handlers of bookings.py,
-- tenancies.py and maintenance.py.
mod Census
pub mod Reviewing
pub mod Booking
pub mod Creating
pub mod Moving
pub mod Activating
pub mod Expiring
pub mod Keys
pub mod KeysOfTenancies
pub mod Worker
unfoldable pub use Census.*
