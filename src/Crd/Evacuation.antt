-- ===== src/Crd/Evacuation.antt =====
-- src/crd/zfs_evacuation.rs: the controller's own custom resources.
use zfs_evacuation_controlle.Base.{ℕ, String, Bool, false, Option, none, List, []}
use zfs_evacuation_controlle.Kube.{Meta, Condition}

abbrev pub evacuate_annotation : String
evacuate_annotation = "zfsevac.alumino.us/evacuate"

abbrev pub guard_finalizer : String
guard_finalizer = "zfsevac.alumino.us/guard"

abbrev pub evacuation_finalizer : String
evacuation_finalizer = "zfsevac.alumino.us/cleanup"

abbrev pub evacuating_label : String
evacuating_label = "zfsevac.alumino.us/evacuating"

abbrev pub params_name : String
params_name = "zfs-evacuation-locks"

pub data EvacuationTrigger : Type 0 where
  annotation node_taint : EvacuationTrigger

pub data EvacuationMode : Type 0 where
  when_idle when_claimed : EvacuationMode

pub record EvacuationSpec : Type 0 where
  pub pv_name : String
  pub trigger : EvacuationTrigger
  pub mode : EvacuationMode
  pub target_node : Option String
  pub target_pool : Option String
  pub settle_seconds : Option ℕ
  pub transfer_timeout_seconds : Option ℕ
  pub max_attempts : Option ℕ
  pub headroom_percent : Option ℕ

pub data Phase : Type 0 where
  pending guarding retaining locking quiescing target_selecting transferring : Phase
  adopting committing swapping cleaning_up completed aborting failed : Phase

pub record PvcRef : Type 0 where
  pub namespace : String
  pub name : String
  pub uid : String

pub record SourceInfo : Type 0 where
  pub node : String
  pub node_id : String
  pub pool : String
  pub volume_handle : String
  pub pv_uid : String
  pub capacity_bytes : ℕ

pub record TargetInfo : Type 0 where
  pub node : String
  pub node_id : String
  pub pool : String
  pub new_volume_handle : String

pub record TransferStatus : Type 0 where
  pub attempt : ℕ
  pub snap_name : String
  pub ports : List ℕ
  pub bytes_relayed : Option ℕ
  pub started_at : Option String
  pub failure_reason : Option String
  pub target_snap_delete_issued : Bool

pub data ColocationRole : Type 0 where
  leader follower : ColocationRole

pub record ColocationMember : Type 0 where
  pub pv_name : String
  pub capacity_bytes : ℕ

pub record ColocationStatus : Type 0 where
  pub pod : String
  pub members : List ColocationMember
  pub role : ColocationRole
  pub followed : Option String

-- `conditions` and `observed_generation` are part of the schema; no code reads or writes them.
pub record EvacuationStatus : Type 0 where
  pub phase : Phase
  pub conditions : List Condition
  pub observed_generation : Option ℕ
  pub message : Option String
  pub pvc_ref : Option PvcRef
  pub source : Option SourceInfo
  pub target : Option TargetInfo
  pub original_reclaim_policy : Option String
  pub old_pv_manifest : Option String
  pub new_pv_manifest : Option String
  pub committed : Bool
  pub cancelled : Bool
  pub transfer : Option TransferStatus
  pub quiesced_at : Option String
  pub locked_at : Option String
  pub colocation : Option ColocationStatus

-- `ZFSEvacuationStatus::default()`
abbrev pub default_status : EvacuationStatus
default_status = record {
  phase = Phase.pending;
  conditions = [];
  observed_generation = none;
  message = none;
  pvc_ref = none;
  source = none;
  target = none;
  original_reclaim_policy = none;
  old_pv_manifest = none;
  new_pv_manifest = none;
  committed = false;
  cancelled = false;
  transfer = none;
  quiesced_at = none;
  locked_at = none;
  colocation = none;
}

pub record Evacuation : Type 0 where
  pub metadata : Meta
  pub spec : EvacuationSpec
  pub status : Option EvacuationStatus
