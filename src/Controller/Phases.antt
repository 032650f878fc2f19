-- ===== src/Controller/Phases.antt =====
-- src/controller/state_machine.rs: the phases up to the transfer, the adoption and the cleanup.
mod Pending
mod Lock
mod Quiesce
mod Select
mod Finish
unfoldable pub use Pending.*
unfoldable pub use Lock.*
unfoldable pub use Quiesce.*
unfoldable pub use Select.*
unfoldable pub use Finish.*
