-- ===== src/Action.antt =====
-- A request handler: a computation on the session's view of the database that may raise.
--
-- `session` is what the handler's own queries see, `committed` what is durable. An exception leaves
-- both as they are at that point: what was flushed is seen no more once the session closes
-- (`run_request`), what was committed stays.
mod Errors
mod Monad
mod Ending
mod Keeping
pub use Errors.*
unfoldable pub use Monad.*
pub use Ending.*
pub use Keeping.*
