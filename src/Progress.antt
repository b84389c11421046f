-- ===== src/Progress.antt =====
-- The life of a booking over any sequence of requests (bookings.py, tenancies.py, maintenance.py).
mod Edges
pub mod Handlers
mod Lasting
pub mod Overdue
pub mod Requests
pub use Edges.*
