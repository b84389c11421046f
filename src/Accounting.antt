-- ===== src/Accounting.antt =====
-- The money side of the requests: the ledger of bookings.py and the claims of payments.py.
mod Books
pub mod Unchanged
mod Lasting
pub mod Requests
unfoldable pub use Books.*
