-- ===== src/Controller/Target.antt =====
-- src/controller/target.rs: the choice of the target node and pool.
mod Ledger
mod Judge
mod Choice
unfoldable pub use Ledger.*
unfoldable pub use Judge.*
unfoldable pub use Choice.*
