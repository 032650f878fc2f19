-- ===== src/Effect/Calls.antt =====
-- The calls that src/controller makes: `kube::Api` operations, and what it senses locally.
use zfs_evacuation_controlle.Base.{ℕ, String, Bool, Option, List}
use zfs_evacuation_controlle.Kube.{
  Meta, Node, Pod, PersistentVolume, PersistentVolumeClaim, StorageClass,
}
use zfs_evacuation_controlle.Crd.Openebs.{ZfsVolume, ZfsSnapshot, ZfsBackup, ZfsRestore, ZfsNode}
use zfs_evacuation_controlle.Crd.Evacuation.{Evacuation, EvacuationStatus}
use zfs_evacuation_controlle.Crd.Params.{ParamsSpec, EvacuationParams}

-- The types whose objects are deleted by name or have their finalizers rewritten.
pub data Kind : Type 0 where
  pv evacuation zfs_volume zfs_snapshot zfs_backup zfs_restore : Kind

-- One constructor for each use of an API operation; a merge patch is named by what it sets.
pub data Call : Type 0 where
  get_pv : String → Call
  list_pvs : Call
  create_pv : PersistentVolume → Call
  patch_reclaim_policy : String → String → Call
  patch_evacuate_annotation_null : String → Call
  get_pvc : String → String → Call
  patch_evacuating_label : String → String → Option String → Call
  list_pods : String → Call
  get_node : String → Call
  list_nodes : Call
  get_storage_class : String → Call
  get_zfs_volume : String → Call
  list_zfs_volumes : Call
  create_zfs_volume : ZfsVolume → Call
  get_snapshot : String → Call
  list_snapshots : String → Call
  create_snapshot : ZfsSnapshot → Call
  get_backup : String → Call
  create_backup : ZfsBackup → Call
  get_restore : String → Call
  create_restore : ZfsRestore → Call
  list_zfs_nodes : Call
  get_evacuation : String → Call
  list_evacuations : Call
  create_evacuation : Evacuation → Call
  patch_status : String → EvacuationStatus → Call
  get_params : Call
  create_params : ParamsSpec → Call
  replace_params : EvacuationParams → Call
  get_meta : Kind → String → Call
  patch_finalizers : Kind → String → List String → Call
  delete : Kind → String → Call

-- What a successful call returns.
abbrev pub Value : Call → Type 0
Value (get_pv _) = Option PersistentVolume
Value list_pvs = List PersistentVolume
Value (get_pvc _ _) = Option PersistentVolumeClaim
Value (list_pods _) = List Pod
Value (get_node _) = Option Node
Value list_nodes = List Node
Value (get_storage_class _) = Option StorageClass
Value (get_zfs_volume _) = Option ZfsVolume
Value list_zfs_volumes = List ZfsVolume
Value (get_snapshot _) = Option ZfsSnapshot
Value (list_snapshots _) = List ZfsSnapshot
Value (get_backup _) = Option ZfsBackup
Value (get_restore _) = Option ZfsRestore
Value list_zfs_nodes = List ZfsNode
Value (get_evacuation _) = Option Evacuation
Value list_evacuations = List Evacuation
Value get_params = Option EvacuationParams
Value (get_meta _ _) = Option Meta
Value _ = Unit {0}

-- `kube::Error`: the server's status code, or a failure to reach it.
pub data KubeError : Type 0 where
  api : ℕ → KubeError
  transport : KubeError

-- src/controller/mod.rs, `Error`; a context is part of the text.
pub data Error : Type 0 where
  kube : KubeError → Error
  other : String → Error

pub data Answer {ℓ} (A : Type ℓ) : Type ℓ where
  ok : A → Answer A
  err : KubeError → Answer A

-- What the relay of an attempt shows: src/controller/transfer.rs, `RelayObs`.
pub record RelayObs : Type 0 where
  pub attempt : ℕ
  pub bytes : ℕ
  pub last_activity : ℕ
  pub task_finished : Bool
  pub source_connected : Bool

-- An address range of the relay's allowlist, as src/transfer/relay.rs, `IpNet`.
pub data IpAddr : Type 0 where
  v4 : ℕ → IpAddr
  v6 : ℕ → IpAddr

pub record IpNet : Type 0 where
  pub addr : IpAddr
  pub prefix : ℕ

-- What a handler reads or does in its own process: clocks, random numbers, the table of relays
-- (`Ctx::transfers`, whose entries the relay tasks update), the selection lock.
pub data Sense : Type 0 where
  now_rfc3339 : Sense
  secs_since : String → Sense
  now_secs : Sense
  random_u128 : Sense
  random_u16 : Sense
  lock_selection : Sense
  observe_relay : String → Sense
  remove_relay : String → Sense
  spawn_relay : List IpNet → List IpNet → Sense
  insert_relay : String → ℕ → Sense

-- `spawn_relay` gives the two ports, or fails to bind; `remove_relay` tells if there was an entry.
abbrev pub Reply : Sense → Type 0
Reply now_rfc3339 = String
Reply (secs_since _) = Option ℕ
Reply now_secs = ℕ
Reply random_u128 = ℕ
Reply random_u16 = ℕ
Reply lock_selection = Unit {0}
Reply (observe_relay _) = Option RelayObs
Reply (remove_relay _) = Bool
Reply (spawn_relay _ _) = Option (ℕ × ℕ)
Reply (insert_relay _ _) = Unit {0}
