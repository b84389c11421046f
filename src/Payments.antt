-- ===== src/Payments.antt =====
-- backend/app/services/payments.py: the claims on payment references, and the trigger of
-- backend/alembic/versions/20260922_0013_release_rejected_payment_claims.py that releases them.
mod Defs
mod Claims
pub mod Exclusive
unfoldable pub use Defs.*
pub use Claims.*
