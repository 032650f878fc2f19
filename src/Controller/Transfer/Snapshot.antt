-- ===== src/Controller/Transfer/Snapshot.antt =====
-- src/controller/transfer.rs: the transfer snapshot that the received stream left on the target.
use zfs_evacuation_controlle.Base.{
  String, true, Option, none, some, [], insert, contains, unwrap_or, is_some, map_option,
  if◌then◌else◌,
}
use zfs_evacuation_controlle.Crd.Openebs.{
  VolumeInfo, ZfsSnapshot, named, zfs_finalizer, zfs_status_pending, zfs_vol_label,
}
use zfs_evacuation_controlle.Crd.Evacuation.{EvacuationStatus, TransferStatus, TargetInfo}
use zfs_evacuation_controlle.Effect.{
  M, ret, ask, try, ◌>>=◌, ◌>>◌, Kind, get_snapshot, get_zfs_volume, create_snapshot, delete,
}
use zfs_evacuation_controlle.Controller.Context.{write_status}
use zfs_evacuation_controlle.Controller.Nodes.{node_by_id}
use zfs_evacuation_controlle.Controller.Steps.{
  strip_zfs_finalizer_if_node_gone, absent_or_there, adapt_to_target,
}

unfoldable pub target_snapshot_cr : TargetInfo → String → VolumeInfo → ZfsSnapshot
unfolding adapt_to_target
target_snapshot_cr target snap_name info =
    let meta = named snap_name in
    record {
      metadata = record meta {
        labels =
            insert zfs_vol_label target.new_volume_handle
              (insert "kubernetes.io/nodename" target.node_id meta.labels);
      };
      spec = adapt_to_target info target;
      state = some zfs_status_pending;
    }

-- The status with the delete recorded.
abbrev pub snap_delete_issued : EvacuationStatus → EvacuationStatus
snap_delete_issued st = record st {
  transfer =
      map_option {A = TransferStatus} (λ t. record t { target_snap_delete_issued = true })
        st.transfer;
}

-- The message to wait with, if any, and the status, which the source changes in place.
abbrev pub SnapResult : Type 0
SnapResult = Option String × EvacuationStatus

unfoldable pub mark_target_snap_delete_issued : String → EvacuationStatus → M EvacuationStatus
mark_target_snap_delete_issued evac_name st = do
  write_status evac_name (snap_delete_issued st)
  ret (snap_delete_issued st)

abbrev pub destroying : String
destroying = "waiting for target transfer snapshot destruction"

-- `…?; Ok(Some(msg))`
unfoldable pub with_message : String → M EvacuationStatus → M SnapResult
with_message msg m = m >>= λ st. ret (some msg, st)

-- The delete has gone out.
unfoldable pub await_snapshot :
    TransferStatus → TargetInfo → EvacuationStatus → Option ZfsSnapshot → M SnapResult
await_snapshot t target st none = ret (none, st)
await_snapshot t target st (some _) = do
  strip_zfs_finalizer_if_node_gone Kind.zfs_snapshot t.snap_name target.node_id
  ret (some destroying, st)

-- No resource stands for the snapshot yet: register one, unless the volume itself is gone.
unfoldable pub register_snapshot : TransferStatus → TargetInfo → EvacuationStatus → M SnapResult
register_snapshot t target st = do
  zv ← ask (get_zfs_volume target.new_volume_handle)
  elim zv [
    | none ↦ ret (none, st)
    | some z ↦ do
      created ← try (create_snapshot (target_snapshot_cr target t.snap_name z.spec))
      absent_or_there created
      ret (some "registering target transfer snapshot", st)
  ]

unfoldable pub delete_snapshot : String → TransferStatus → EvacuationStatus → M EvacuationStatus
delete_snapshot evac_name t st = do
  ask (delete Kind.zfs_snapshot t.snap_name)
  mark_target_snap_delete_issued evac_name st

-- The resource is there.
unfoldable pub dispose_snapshot :
    String → TransferStatus → TargetInfo → EvacuationStatus → ZfsSnapshot → M SnapResult
dispose_snapshot evac_name t target st cr =
    if cr.metadata.deleting
    then with_message destroying (mark_target_snap_delete_issued evac_name st)
    else if contains zfs_finalizer (unwrap_or [] cr.metadata.finalizers)
    then with_message destroying (delete_snapshot evac_name t st)
    else do
      node ← node_by_id target.node_id
      with_message "waiting for target agent to register transfer snapshot"
          (if is_some node then ret st else delete_snapshot evac_name t st)

unfoldable pub destroy_recorded :
    String → EvacuationStatus → TransferStatus → TargetInfo → M SnapResult
destroy_recorded evac_name st t target = do
  existing ← ask (get_snapshot t.snap_name)
  if t.target_snap_delete_issued then await_snapshot t target st existing else elim existing [
    | none ↦ register_snapshot t target st
    | some cr ↦ dispose_snapshot evac_name t target st cr
  ]

unfoldable pub destroy_target_snapshot : String → EvacuationStatus → M SnapResult
destroy_target_snapshot evac_name st = elim st.transfer [
  | none ↦ ret (none, st)
  | some t ↦ elim st.target [
    | none ↦ ret (none, st)
    | some target ↦ destroy_recorded evac_name st t target
  ]
]
