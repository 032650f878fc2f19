-- ===== src/Behaviour.antt =====
-- What single routines of src/controller compute: properties that need no history.
pub mod Verdict
pub mod NewPv
pub mod PodCheck
pub mod Reclaim
pub mod Creation
pub mod Updates
pub mod Anchors
pub mod MostFree
pub mod Topologies
pub mod Selection
pub mod Succession
pub mod Unwinding
pub mod Completion
pub mod Obliging
pub mod Votes
pub mod Eligible
pub mod Rivals
