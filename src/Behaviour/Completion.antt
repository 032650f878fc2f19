-- ===== src/Behaviour/Completion.antt =====
-- src/controller/state_machine.rs, `cleaning_up`, and the snapshot of src/controller/transfer.rs: what
-- has to be done before an evacuation is recorded as complete.
pub mod Snapshot
pub mod Final
pub mod Absent
pub mod Parts
use zfs_evacuation_controlle.Base.{◌≡◌, some}
use zfs_evacuation_controlle.Crd.Evacuation.{EvacuationStatus}
use zfs_evacuation_controlle.Behaviour.Unwinding.{
  Duty, backup_gone, restore_gone, unlocked, source_gone, snapshot_gone, trigger_off,
}

-- What is owed before the end, after the commit.
abbrev pub IsOwed : EvacuationStatus → Duty → Type 0
IsOwed st (backup_gone target t) = st.transfer ≡ some t
IsOwed st (restore_gone target t) = st.transfer ≡ some t
IsOwed st (snapshot_gone target t) = (st.target ≡ some target) × (st.transfer ≡ some t)
IsOwed st (source_gone source) = st.source ≡ some source
IsOwed st (unlocked r) = st.pvc_ref ≡ some r
IsOwed st trigger_off = Unit
IsOwed st d = ⊥
