-- ===== src/Authority.antt =====
-- What src/controller may do, by the status that is recorded: the phase diagram of README.md, the
-- data that each phase needs, and which mutation each recorded status authorises. `Rules` and the
-- modules after it show that `reconcile` keeps to it, whatever the API server answers.
pub mod Diagram
pub mod Warrant
pub mod Rules
pub mod Steps
pub mod Swap
pub mod Early
pub mod Select
pub mod Transfer
pub mod Finish
pub mod Abort
pub mod Reconcile
pub mod History
pub mod Promises
pub mod Endings
pub mod Cleanup
pub mod Unwind
