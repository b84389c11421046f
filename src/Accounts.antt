-- ===== src/Accounts.antt =====
-- Accounts, login and access tokens: backend/app/api/routes/auth.py, backend/app/api/dependencies.py,
-- backend/app/core/rate_limit.py and backend/app/core/security.py.
mod Limits
mod Security
mod Defs
pub mod Counting
pub mod Guesses
pub mod Signing
pub mod Registering
unfoldable pub use Limits.*
unfoldable pub use Security.*
unfoldable pub use Defs.*
