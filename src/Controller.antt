-- ===== src/Controller.antt =====
-- src/controller: the reconciler, its helpers and its phases.
pub mod Context
pub mod Quantity
pub mod Nodes
pub mod Pods
pub mod Placement
pub mod Colocation
pub mod Target
pub mod Steps
pub mod Transfer
pub mod PvSwap
pub mod Abort
pub mod Phases
pub mod StateMachine
pub mod Trigger
