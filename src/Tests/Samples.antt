-- ===== src/Tests/Samples.antt =====
-- Sample objects: one volume of node-a, its claim, and statuses in several phases.
use zfs_evacuation_controlle.Base.{String, true, false, Option, none, some, [], ◌∷◌}
use zfs_evacuation_controlle.Kube.{
  Meta, PersistentVolume, PvSpec, CsiSource, PersistentVolumeClaim, Node,
}
use zfs_evacuation_controlle.Crd.Openebs.{named, zfs_driver, poolname_attribute, ZfsVolume}
use zfs_evacuation_controlle.Crd.Params.{ParamsSpec}
use zfs_evacuation_controlle.Crd.Evacuation.{
  Evacuation, EvacuationSpec, EvacuationStatus, EvacuationTrigger, EvacuationMode, Phase, PvcRef,
  SourceInfo, TargetInfo, TransferStatus, default_status, evacuation_finalizer,
}
use zfs_evacuation_controlle.Effect.{RelayObs, IpAddr}
use zfs_evacuation_controlle.Controller.Context.{Ctx, Libs}
use zfs_evacuation_controlle.Controller.Transfer.Verdict.{TransferObs}

abbrev pub claim : PvcRef
claim = record { namespace = "db"; name = "data"; uid = "u-claim" }

abbrev pub source : SourceInfo
source = record {
  node = "node-a";
  node_id = "id-a";
  pool = "tank";
  volume_handle = "pvc-old";
  pv_uid = "u-pv";
  capacity_bytes = 1000;
}

abbrev pub target : TargetInfo
target = record {
  node = "node-b";
  node_id = "id-b";
  pool = "tank/k8s";
  new_volume_handle = "pvc-new";
}

abbrev pub transfer : TransferStatus
transfer = record {
  attempt = 1;
  snap_name = "zevac-a1-beef";
  ports = 7000 ∷ 7001 ∷ [];
  bytes_relayed = none;
  started_at = none;
  failure_reason = none;
  target_snap_delete_issued = false;
}

abbrev pub csi : CsiSource
csi = record {
  driver = zfs_driver;
  volume_handle = "pvc-old";
  fs_type = some "zfs";
  volume_attributes = some ((poolname_attribute, "tank") ∷ ("k", "v") ∷ []);
}

abbrev pub pv_spec : PvSpec
pv_spec = record {
  csi = some csi;
  claim_ref = none;
  reclaim_policy = some "Delete";
  node_affinity = none;
  storage_class_name = some "zfs";
  capacity = none;
  access_modes = none;
}

abbrev meta_of : String → Option String → Meta
meta_of n u = let m = named n in record m { uid = u }

abbrev pub old_pv : PersistentVolume
old_pv = record {
  metadata = meta_of "pv-1" (some "u-pv");
  spec = some pv_spec;
  phase = some "Bound";
}

abbrev pub libs : Libs
libs = record {
  pv_to_string = λ pv. some pv.metadata.name;
  pv_from_str = λ s. some (record { metadata = named s; spec = none; phase = none });
  kube_error_text = λ e. "error";
  parse_ip = λ cs. some (IpAddr.v4 10);
  f64_parse = λ cs. none;
  f64_is_negative = λ x. false;
  f64_mul = λ x y. 0;
  f64_of_u128 = λ n. n;
  f64_to_u128 = λ x. x;
}

abbrev pub ctx : Ctx
ctx = record {
  cfg = record {
    openebs_ns = "openebs";
    pod_ip = "10.0.0.1";
    pod_namespace = "zfsevac";
    stall_seconds = 300;
    taint_key = "zfsevac/evacuate";
  };
  libs = libs;
}

abbrev pub spec : EvacuationSpec
spec = record {
  pv_name = "pv-1";
  trigger = EvacuationTrigger.node_taint;
  mode = EvacuationMode.when_idle;
  target_node = none;
  target_pool = none;
  settle_seconds = none;
  transfer_timeout_seconds = none;
  max_attempts = none;
  headroom_percent = none;
}

abbrev pub evacuation : Option EvacuationStatus → Evacuation
evacuation st =
    let m = named "pv-1" in
    record {
      metadata = record m { finalizers = some (evacuation_finalizer ∷ []) };
      spec = spec;
      status = st;
    }

-- A status of the given phase with all that is recorded before the commit.
abbrev pub at_phase : Phase → EvacuationStatus
at_phase p =
    let d = default_status in
    record d {
      phase = p;
      pvc_ref = some claim;
      source = some source;
      target = some target;
      transfer = some transfer;
      original_reclaim_policy = some "Delete";
    }

-- After the commit.
abbrev pub committed_at : Phase → EvacuationStatus
committed_at p =
    let s = at_phase p in
    record s { committed = true; old_pv_manifest = some "old"; new_pv_manifest = some "pv-1" }

abbrev pub params : ParamsSpec
params = record { pvc_keys = "db/data" ∷ "db/logs" ∷ []; claimable_pvc_keys = "web/www" ∷ [] }

abbrev pub relay : RelayObs
relay = record {
  attempt = 1;
  bytes = 512;
  last_activity = 90;
  task_finished = false;
  source_connected = true;
}

abbrev pub observed : TransferObs
observed = record {
  attempt = 1;
  failure_reason = none;
  bkp_status = "InProgress";
  rst_status = "InProgress";
  rst_exists = true;
  mem = some relay;
  elapsed_secs = 5000;
  now_secs = 100;
  timeout_secs = 3600;
  stall_secs = 300;
}

abbrev pub pvc : PersistentVolumeClaim
pvc = record { metadata = meta_of "data" (some "u-claim"); spec = none; conditions = none }

-- A node whose name is its id, with one address.
abbrev pub node_named : String → Node
node_named n = record {
  metadata = named n;
  spec = none;
  status = some (record {
    addresses = some (record { type_ = "InternalIP"; address = "10.0.0.7" } ∷ []);
    conditions = some (record { type_ = "Ready"; status = "True" } ∷ []);
  });
}

abbrev pub volume : ZfsVolume
volume = record {
  metadata = named "pvc-old";
  spec = record {
    owner_node_id = "id-a";
    pool_name = "tank";
    capacity = some "1000";
    snapname = none;
    fs_type = some "zfs";
    volume_type = some "DATASET";
    extra = [];
  };
  state = some "Ready";
}
