-- ===== src/Crd.antt =====
-- src/crd: the custom resources.
pub mod Openebs
pub mod Evacuation
pub mod Params
