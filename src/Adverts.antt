-- ===== src/Adverts.antt =====
-- Which properties are advertised, against their charges, over any sequence of requests: admin.py,
-- advertising.py, properties.py and payment_providers.py.
mod Writes
pub mod Owners
mod ChargeRows
pub mod Charges
mod Unchanged
mod Side
pub mod Requests
pub use Writes.*
