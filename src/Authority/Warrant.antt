-- ===== src/Authority/Warrant.antt =====
-- Which mutations a recorded status authorises.
use zfs_evacuation_controlle.Base.{String, true, Option, none, some, ◌≡◌}
use zfs_evacuation_controlle.Crd.Evacuation.{Evacuation, EvacuationStatus, Phase}
use zfs_evacuation_controlle.Effect.{
  Call, Value, Kind, Answer, ok, Monitor, patch_status, create_pv, patch_reclaim_policy,
  create_zfs_volume, create_snapshot, create_backup, create_restore, create_evacuation,
  create_params, replace_params, patch_finalizers, delete, patch_evacuate_annotation_null,
  patch_evacuating_label,
}
use zfs_evacuation_controlle.Controller.Transfer.{bkp_name, rst_name}
use zfs_evacuation_controlle.Authority.Diagram.{Follows}

-- Some value is recorded and `P` holds of it.
abbrev pub Recorded : {A : Type 0} → Option A → (A → Type 0) → Type 0
Recorded none P = ⊥
Recorded (some a) P = P a

-- The phases in which the lock, the guard and the datasets are given up.
pub data IsClosing : Phase → Type 0 where
  by_cleanup : {p : Phase} → p ≡ Phase.cleaning_up → IsClosing p
  by_abort : {p : Phase} → p ≡ Phase.aborting → IsClosing p

-- The source dataset goes after the swap, or in an abort under the original policy Delete. What such
-- an abort has to read first, Behaviour/Reclaim says.
pub data MayDestroySource (s : EvacuationStatus) : Type 0 where
  swapped : s.phase ≡ Phase.cleaning_up → s.committed ≡ true → MayDestroySource s
  reclaimed :
      s.phase ≡ Phase.aborting → s.original_reclaim_policy ≡ some "Delete" → MayDestroySource s

-- The dataset that a volume's name stands for.
pub data MayDestroy (s : EvacuationStatus) (name : String) : Type 0 where
  the_source :
      Recorded s.source (λ x. x.volume_handle ≡ name) → MayDestroySource s → MayDestroy s name
  the_target :
      Recorded s.target (λ x. x.new_volume_handle ≡ name)
      → s.phase ≡ Phase.aborting
      → MayDestroy s name

-- The finalizers of a volume: the source's in Guarding, those of either where it is given up.
pub data MayRelease (s : EvacuationStatus) (name : String) : Type 0 where
  to_guard :
      Recorded s.source (λ x. x.volume_handle ≡ name) → s.phase ≡ Phase.guarding → MayRelease s name
  to_free_source :
      Recorded s.source (λ x. x.volume_handle ≡ name) → IsClosing s.phase → MayRelease s name
  to_free_target :
      Recorded s.target (λ x. x.new_volume_handle ≡ name)
      → s.phase ≡ Phase.aborting
      → MayRelease s name

-- `Retain` before anything is copied; the original policy once the claim is bound again.
pub data MaySetPolicy (s : EvacuationStatus) (policy : String) : Type 0 where
  retain : s.phase ≡ Phase.retaining → policy ≡ "Retain" → MaySetPolicy s policy
  restore_by_abort :
      s.phase ≡ Phase.aborting → s.original_reclaim_policy ≡ some policy → MaySetPolicy s policy
  restore_by_swap :
      s.phase ≡ Phase.swapping
      → s.committed ≡ true
      → s.original_reclaim_policy ≡ some policy
      → MaySetPolicy s policy

-- The keys of the attach lock.
pub data MayChangeLock : Phase → Type 0 where
  at_locking : {p : Phase} → p ≡ Phase.locking → MayChangeLock p
  at_closing : {p : Phase} → IsClosing p → MayChangeLock p

-- A write that the server has accepted is the recorded status from then on.
abbrev pub recorded_after : EvacuationStatus → (c : Call) → Answer (Value c) → EvacuationStatus
recorded_after s (patch_status name t) (ok _) = t
recorded_after s _ _ = s

module _ (evac : Evacuation) where
  -- In the state of the monitor, the status as it was last written.
  abbrev pub Allowed : EvacuationStatus → Call → Type 0
  Allowed s (patch_status name t) = (name ≡ evac.metadata.name) × Follows s t
  Allowed s (delete Kind.pv name) =
      (name ≡ evac.spec.pv_name) × (s.phase ≡ Phase.swapping) × (s.committed ≡ true)
  Allowed s (delete Kind.zfs_volume name) = MayDestroy s name
  Allowed s (delete Kind.zfs_snapshot name) =
      (s.phase ≡ Phase.cleaning_up) × Recorded s.transfer (λ t. t.snap_name ≡ name)
  Allowed s (delete Kind.zfs_backup name) =
      Recorded s.transfer (λ t. bkp_name evac.metadata.name t.attempt ≡ name)
  Allowed s (delete Kind.zfs_restore name) =
      Recorded s.transfer (λ t. rst_name evac.metadata.name t.attempt ≡ name)
  Allowed s (delete Kind.evacuation name) = ⊥
  Allowed s (create_evacuation e) = ⊥
  Allowed s (create_pv pv) = (s.phase ≡ Phase.swapping) × (s.committed ≡ true)
  Allowed s (create_backup b) =
      (s.phase ≡ Phase.transferring)
      × Recorded s.transfer (λ t. b.metadata.name ≡ bkp_name evac.metadata.name t.attempt)
  Allowed s (create_restore r) =
      (s.phase ≡ Phase.transferring)
      × Recorded s.transfer (λ t. r.metadata.name ≡ rst_name evac.metadata.name t.attempt)
  Allowed s (create_zfs_volume v) = Recorded s.target (λ t. v.metadata.name ≡ t.new_volume_handle)
  Allowed s (create_snapshot v) =
      (s.phase ≡ Phase.cleaning_up) × Recorded s.transfer (λ t. v.metadata.name ≡ t.snap_name)
  Allowed s (patch_finalizers Kind.pv name fins) =
      (name ≡ evac.spec.pv_name) × (s.phase ≡ Phase.swapping) × (s.committed ≡ true)
  Allowed s (patch_finalizers Kind.zfs_volume name fins) = MayRelease s name
  Allowed s (patch_finalizers Kind.evacuation name fins) = name ≡ evac.metadata.name
  Allowed s (patch_reclaim_policy name policy) = (name ≡ evac.spec.pv_name) × MaySetPolicy s policy
  Allowed s (create_params spec) = MayChangeLock s.phase
  Allowed s (replace_params p) = MayChangeLock s.phase
  Allowed s (patch_evacuate_annotation_null name) = s.phase ≡ Phase.cleaning_up
  Allowed s (patch_evacuating_label namespace name value) = MayChangeLock s.phase
  Allowed s _ = Unit

  abbrev pub authority : Monitor
  authority = record { State = EvacuationStatus; Allowed = Allowed; next = recorded_after }
