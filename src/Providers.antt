-- ===== src/Providers.antt =====
-- payment_providers.py, payment_webhooks.py and payment_reconciliation.py.
mod Names
mod Events
mod Messages
mod Marks
mod Booked
mod Processing
mod Webhooks
pub mod Validation
pub mod Registration
pub mod Bodies
mod Outcomes
pub mod Repeat
pub mod Resolution
unfoldable pub use Names.*
unfoldable pub use Events.*
unfoldable pub use Messages.*
unfoldable pub use Marks.*
unfoldable pub use Booked.*
unfoldable pub use Processing.*
unfoldable pub use Webhooks.*
