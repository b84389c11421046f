-- ===== src/Listings.antt =====
-- Advertising a property: backend/app/api/routes/properties.py and landlords.py (the owner's side),
-- advertising.py (paying the charge) and admin.py (review, charge and publication).
mod Owners
mod Charges
mod Review
mod Quotes
pub mod Published
unfoldable pub use Owners.*
unfoldable pub use Charges.*
unfoldable pub use Review.*
unfoldable pub use Quotes.*
