-- ===== src/Controller/Abort.antt =====
-- src/controller/abort.rs: the unwinding of an evacuation before its commit point.
use zfs_evacuation_controlle.Base.{
  String, Bool, true, false, not, ◌&&◌, Option, none, some, eqs, and_then, is_some, is_some_and,
  unwrap_or, ◌<>◌, if◌then◌else◌,
}
use zfs_evacuation_controlle.Crd.Openebs.{ZfsVolume, bkp_status_done}
use zfs_evacuation_controlle.Crd.Evacuation.{
  Evacuation, EvacuationStatus, Phase, SourceInfo, TargetInfo, TransferStatus, guard_finalizer,
}
use zfs_evacuation_controlle.Crd.Params.{unlock}
use zfs_evacuation_controlle.Effect.{
  M, ret, ask, try, require, ◌>>=◌, ◌>>◌, Kind, get_pv, get_pvc, get_restore, get_zfs_volume,
  create_zfs_volume, patch_reclaim_policy, patch_evacuating_label, delete,
}
use zfs_evacuation_controlle.Controller.Context.{
  Action, requeue_secs, await_change, write_status, update_params,
}
use zfs_evacuation_controlle.Controller.Steps.{
  say, set_finalizers, dropping, remove_evac_finalizer, strip_zfs_finalizer_if_node_gone,
  absent_or_there, target_zfsvolume,
}
use zfs_evacuation_controlle.Controller.Transfer.{rst_name, drop_relay, cleanup_transfer_crs}
use zfs_evacuation_controlle.Controller.PvSwap.{has_uid}

unfoldable pub requeue_msg : String → EvacuationStatus → String → M Action
requeue_msg name st msg = do say name st msg; ret (requeue_secs 5)

-- Steps 2 and 3 end with an early return (an action to return), or let the unwinding go on.
abbrev pub Progress : Type 0
Progress = Option Action

abbrev pub later : M Action → M Progress
later m = m >>= λ a. ret (some a)

-- 2, the target's volume is there: have the agent destroy it.
unfoldable pub destroy_target : String → EvacuationStatus → TargetInfo → ZfsVolume → M Progress
destroy_target name st target zv = do
  (if zv.metadata.deleting then ret tt else ask (delete Kind.zfs_volume target.new_volume_handle))
  strip_zfs_finalizer_if_node_gone Kind.zfs_volume target.new_volume_handle target.node_id
  later (requeue_msg name st "abort: destroying target dataset")

-- 3, the transfer's resources.
unfoldable pub drop_transfer : String → EvacuationStatus → TransferStatus → M Progress
drop_transfer name st t = do
  gone ← cleanup_transfer_crs name t.attempt st
  if gone then ret none else later (requeue_msg name st "abort: cleaning up transfer CRs")

-- 2, a dataset landed and no volume stands for it: register one, to be destroyed.
unfoldable pub adopt_orphan : String → EvacuationStatus → TargetInfo → TransferStatus → M Progress
adopt_orphan name st target t = do
  src ← require st.source "no source recorded"
  found ← ask (get_zfs_volume src.volume_handle)
  elim found [
    | none ↦ drop_transfer name st t
    | some src_zv ↦ do
      created ← try (create_zfs_volume (target_zfsvolume src_zv.spec target))
      absent_or_there created
      later (requeue_msg name st "abort: adopting orphan dataset for destruction")
  ]

unfoldable pub undo_transfer : String → EvacuationStatus → TargetInfo → TransferStatus → M Progress
undo_transfer name st target t = do
  rst ← ask (get_restore (rst_name name t.attempt))
  let restore_done = is_some_and (λ s. eqs s bkp_status_done) (and_then rst (λ r. r.status))
  found ← ask (get_zfs_volume target.new_volume_handle)
  elim found [
    | some zv ↦ destroy_target name st target zv
    | none ↦ if restore_done then adopt_orphan name st target t else drop_transfer name st t
  ]

unfoldable pub undo_target : String → EvacuationStatus → M Progress
undo_target name st = elim st.target [
  | none ↦ ret none
  | some target ↦ elim st.transfer [ none ↦ ret none | some t ↦ undo_transfer name st target t ]
]

-- 4, the reclaim policy of the original PV.
unfoldable pub restore_policy_of : Evacuation → SourceInfo → String → M (Unit {0})
restore_policy_of evac source orig = do
  found ← ask (get_pv evac.spec.pv_name)
  if is_some_and (λ pv. has_uid source.pv_uid pv.metadata) found
      then ask (patch_reclaim_policy evac.spec.pv_name orig)
      else ret tt

unfoldable pub restore_policy : Evacuation → EvacuationStatus → M (Unit {0})
restore_policy evac st = elim st.source [
  | none ↦ ret tt
  | some source ↦ elim st.original_reclaim_policy [
    | none ↦ ret tt
    | some orig ↦ restore_policy_of evac source orig
  ]
]

-- 5, the attach lock. The answer to the label patch is ignored.
unfoldable pub unlock_pvc : EvacuationStatus → M (Unit {0})
unlock_pvc st = elim st.pvc_ref [
  | none ↦ ret tt
  | some r ↦ do
    update_params (unlock (r.namespace <> "/" <> r.name))
    try (patch_evacuating_label r.namespace r.name none)
    ret tt
]

-- 6, a deletion that the user asked for meanwhile.
unfoldable pub pvc_is_gone : EvacuationStatus → M Bool
pvc_is_gone st = elim st.pvc_ref [
  | none ↦ ret false
  | some r ↦ do pvc ← ask (get_pvc r.namespace r.name); ret (not (is_some pvc))
]

unfoldable pub reclaim_source : SourceInfo → M (Unit {0})
reclaim_source source = do
  found ← ask (get_zfs_volume source.volume_handle)
  if is_some_and (λ zv. not zv.metadata.deleting) found
      then ask (delete Kind.zfs_volume source.volume_handle)
      else ret tt

unfoldable pub honor_deletion : Evacuation → EvacuationStatus → SourceInfo → M (Unit {0})
honor_deletion evac st source = do
  pvc_gone ← pvc_is_gone st
  pv ← ask (get_pv evac.spec.pv_name)
  if (pvc_gone && not (is_some pv)) && is_some_and (λ p. eqs p "Delete") st.original_reclaim_policy
      then reclaim_source source
      else ret tt

-- 7, the guard, last.
unfoldable pub drop_guard : SourceInfo → M (Unit {0})
drop_guard source = do
  set_finalizers Kind.zfs_volume source.volume_handle (dropping guard_finalizer)
  strip_zfs_finalizer_if_node_gone Kind.zfs_volume source.volume_handle source.node_id

unfoldable pub release_source : Evacuation → EvacuationStatus → M (Unit {0})
release_source evac st = elim st.source [
  | none ↦ ret tt
  | some source ↦ (do honor_deletion evac st source; drop_guard source)
]

-- The end of the abort: Failed, or gone with the object.
unfoldable pub conclude : Evacuation → EvacuationStatus → M Action
conclude evac st =
    if evac.metadata.deleting
    then (do remove_evac_finalizer evac.metadata.name; ret await_change)
    else do
      write_status evac.metadata.name (record st {
        phase = Phase.failed;
        message = some (unwrap_or "evacuation aborted" st.message);
      })
      ret await_change

unfoldable pub unwind : Evacuation → EvacuationStatus → M Action
unwind evac st = do restore_policy evac st; unlock_pvc st; release_source evac st; conclude evac st

abbrev pub is_aborting : Phase → Bool
is_aborting Phase.aborting = true
is_aborting _ = false

-- The status is first brought to Aborting.
unfoldable pub run : Evacuation → EvacuationStatus → M Action
run evac st0 = do
  let name = evac.metadata.name
  let st = record st0 { phase = Phase.aborting }
  (if is_aborting st0.phase then ret tt else write_status name st)
  drop_relay name
  early ← undo_target name st
  elim early [ some action ↦ ret action | none ↦ unwind evac st ]
