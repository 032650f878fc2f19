-- ===== src/Crd/Openebs.antt =====
-- src/crd/openebs.rs: the custom resources of zfs-localpv that the controller reads and writes.
use zfs_evacuation_controlle.Base.{String, Option, none, some, List, [], StrMap, false}
use zfs_evacuation_controlle.Kube.{Meta}

abbrev pub zfs_finalizer : String
zfs_finalizer = "zfs.openebs.io/finalizer"

abbrev pub zfs_vol_label : String
zfs_vol_label = "openebs.io/persistent-volume"

abbrev pub marked_for_deletion : String
marked_for_deletion = "openebs.io/marked-for-deletion"

abbrev pub node_id_topology_key : String
node_id_topology_key = "openebs.io/nodeid"

abbrev pub poolname_attribute : String
poolname_attribute = "openebs.io/poolname"

abbrev pub zfs_driver : String
zfs_driver = "zfs.csi.openebs.io"

abbrev pub zfs_status_ready : String
zfs_status_ready = "Ready"

abbrev pub zfs_status_pending : String
zfs_status_pending = "Pending"

abbrev pub bkp_status_init : String
bkp_status_init = "Init"

abbrev pub bkp_status_done : String
bkp_status_done = "Done"

abbrev pub bkp_status_failed : String
bkp_status_failed = "Failed"

abbrev pub bkp_status_invalid : String
bkp_status_invalid = "Invalid"

-- `extra` holds the properties that ride along verbatim.
pub record VolumeInfo : Type 0 where
  pub owner_node_id : String
  pub pool_name : String
  pub capacity : Option String
  pub snapname : Option String
  pub fs_type : Option String
  pub volume_type : Option String
  pub extra : StrMap

-- `state` is `status.state`, with no status as `none`.
pub record ZfsVolume : Type 0 where
  pub metadata : Meta
  pub spec : VolumeInfo
  pub state : Option String

pub record ZfsSnapshot : Type 0 where
  pub metadata : Meta
  pub spec : VolumeInfo
  pub state : Option String

pub record ZfsBackup : Type 0 where
  pub metadata : Meta
  pub volume_name : String
  pub owner_node_id : String
  pub snap_name : Option String
  pub prev_snap_name : Option String
  pub backup_dest : String
  pub status : Option String

pub record ZfsRestoreSpec : Type 0 where
  pub volume_name : String
  pub owner_node_id : String
  pub restore_src : String

pub record ZfsRestore : Type 0 where
  pub metadata : Meta
  pub spec : ZfsRestoreSpec
  pub vol_spec : Option VolumeInfo
  pub status : Option String

pub record ZfsPool : Type 0 where
  pub name : String
  pub uuid : Option String
  pub free : Option String

pub record ZfsNode : Type 0 where
  pub metadata : Meta
  pub pools : List ZfsPool

-- `ObjectMeta { name: Some(name), ..Default::default() }`
abbrev pub named : String → Meta
named n = record {
  name = n;
  uid = none;
  resource_version = none;
  labels = [];
  annotations = none;
  finalizers = none;
  deleting = false;
}

-- `ZFSRestore::new`
abbrev pub new_restore : String → ZfsRestoreSpec → VolumeInfo → ZfsRestore
new_restore name spec vol_spec = record {
  metadata = named name;
  spec = spec;
  vol_spec = some vol_spec;
  status = none;
}
