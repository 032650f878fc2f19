-- ===== src/Controller/Phases/Finish.antt =====
-- src/controller/state_machine.rs: `adopting` and `cleaning_up`.
use zfs_evacuation_controlle.Base.{
  Bool, true, none, some, eqs, and_then, is_some, unwrap_or, lookup, if◌then◌else◌,
}
use zfs_evacuation_controlle.Crd.Openebs.{ZfsVolume, zfs_status_ready}
use zfs_evacuation_controlle.Crd.Evacuation.{
  Evacuation, EvacuationStatus, Phase, SourceInfo, TargetInfo, guard_finalizer, evacuate_annotation,
}
use zfs_evacuation_controlle.Effect.{
  M, ret, ask, try, require, ◌>>=◌, ◌>>◌, Kind, get_pv, get_zfs_volume, create_zfs_volume, delete,
  patch_evacuate_annotation_null,
}
use zfs_evacuation_controlle.Controller.Context.{Action, requeue_secs}
use zfs_evacuation_controlle.Controller.Steps.{
  advance, wait, set_finalizers, dropping, remove_evac_finalizer, strip_zfs_finalizer_if_node_gone,
  absent_or_there, target_zfsvolume,
}
use zfs_evacuation_controlle.Controller.Transfer.{
  SnapResult, cleanup_transfer_crs, destroy_target_snapshot,
}
use zfs_evacuation_controlle.Controller.PvSwap.{abort_with}
use zfs_evacuation_controlle.Controller.Abort.{unlock_pvc}

-- The dataset has arrived: have the target's agent adopt it.
unfoldable pub register_volume : SourceInfo → TargetInfo → M Action
register_volume source target = do
  found ← ask (get_zfs_volume source.volume_handle)
  src ← require found "source ZFSVolume disappeared"
  created ← try (create_zfs_volume (target_zfsvolume src.spec target))
  absent_or_there created
  ret (requeue_secs 3)

unfoldable pub check_adoption : Evacuation → EvacuationStatus → ZfsVolume → M Action
check_adoption evac st zv =
    let name = evac.metadata.name in
    let state = unwrap_or "" zv.state in
    if eqs state zfs_status_ready
    then advance name st Phase.committing
    else if eqs state "Failed"
    then abort_with name st "new ZFSVolume reported Failed during adoption"
    else wait name st "waiting for target node agent to adopt dataset" 5

unfoldable pub adopting : Evacuation → EvacuationStatus → M Action
unfolding register_volume check_adoption
adopting evac st = do
  source ← require st.source "no source recorded"
  target ← require st.target "no target recorded"
  found ← ask (get_zfs_volume target.new_volume_handle)
  elim found [ none ↦ register_volume source target | some zv ↦ check_adoption evac st zv ]

-- 3, the source volume: delete it, then drop the guard that holds the delete up.
unfoldable pub destroy_source : Evacuation → EvacuationStatus → SourceInfo → ZfsVolume → M Action
destroy_source evac st source zv = do
  (if zv.metadata.deleting then ret tt else ask (delete Kind.zfs_volume source.volume_handle))
  set_finalizers Kind.zfs_volume source.volume_handle (dropping guard_finalizer)
  strip_zfs_finalizer_if_node_gone Kind.zfs_volume source.volume_handle source.node_id
  wait evac.metadata.name st "waiting for source dataset destruction" 10

-- 5, the trigger must not fire again.
unfoldable pub clear_trigger : Evacuation → M (Unit {0})
clear_trigger evac = do
  found ← ask (get_pv evac.spec.pv_name)
  if is_some (and_then found (λ pv. and_then pv.metadata.annotations (lookup evacuate_annotation)))
      then ask (patch_evacuate_annotation_null evac.spec.pv_name)
      else ret tt

-- Completed is on record before our finalizer goes: the object may vanish with it.
unfoldable pub record_completed : Evacuation → EvacuationStatus → M Action
record_completed evac st = do
  action ← advance evac.metadata.name st Phase.completed
  remove_evac_finalizer evac.metadata.name
  ret action

-- 4 to the end. `message` is set and then cleared by `advance`, as in the source.
unfoldable pub complete : Evacuation → EvacuationStatus → M Action
complete evac st = do
  unlock_pvc st
  clear_trigger evac
  record_completed evac (record st { message = some "evacuation complete" })

unfoldable pub clean_source : Evacuation → EvacuationStatus → SourceInfo → M Action
unfolding destroy_source complete
clean_source evac st source = do
  found ← ask (get_zfs_volume source.volume_handle)
  elim found [ some zv ↦ destroy_source evac st source zv | none ↦ complete evac st ]

-- 2 has ended: wait, or go on with the status that it left.
unfoldable pub after_snapshot : Evacuation → SourceInfo → SnapResult → M Action
after_snapshot evac source (some msg, st) = wait evac.metadata.name st msg 5
after_snapshot evac source (none, st) = clean_source evac st source

unfoldable pub clean_target : Evacuation → EvacuationStatus → SourceInfo → M Action
unfolding clean_source
clean_target evac st source =
    destroy_target_snapshot evac.metadata.name st >>= after_snapshot evac source

-- 1, the resources of the transfer, which go first: true once they are gone.
unfoldable pub transfer_gone : Evacuation → EvacuationStatus → M Bool
transfer_gone evac st = elim st.transfer [
  | none ↦ ret true
  | some t ↦ cleanup_transfer_crs evac.metadata.name t.attempt st
]

unfoldable pub cleaning_up : Evacuation → EvacuationStatus → M Action
unfolding clean_target transfer_gone
cleaning_up evac st = do
  source ← require st.source "no source recorded"
  gone ← transfer_gone evac st
  if gone
      then clean_target evac st source
      else wait evac.metadata.name st "waiting for transfer CRs to clean up" 10
