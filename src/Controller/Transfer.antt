-- ===== src/Controller/Transfer.antt =====
-- src/controller/transfer.rs: the Transferring phase and the cleanup of its resources.
pub mod Verdict
mod Crs
mod Attempt
mod Snapshot
unfoldable pub use Crs.*
unfoldable pub use Attempt.*
unfoldable pub use Snapshot.*
