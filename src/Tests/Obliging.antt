-- ===== src/Tests/Obliging.antt =====
-- The last reconciliations, of sample objects in surroundings where nothing is left.
use zfs_evacuation_controlle.Base.{String, true, none, some, [], refl, Bool}
use zfs_evacuation_controlle.Crd.Evacuation.{EvacuationStatus, Phase}
use zfs_evacuation_controlle.Effect.{
  Call, Value, ok, Sense, Reply, get_pv, list_pvs, create_pv, patch_reclaim_policy,
  patch_evacuate_annotation_null, get_pvc, patch_evacuating_label, list_pods, get_node, list_nodes,
  get_storage_class, list_zfs_volumes, create_zfs_volume, list_snapshots, create_snapshot,
  create_backup, create_restore, list_zfs_nodes, get_evacuation, list_evacuations, get_params,
  create_params, replace_params, get_meta, patch_finalizers, patch_status, delete, get_zfs_volume,
  get_snapshot, get_backup, get_restore, now_rfc3339, secs_since, now_secs, random_u128, random_u16,
  lock_selection, observe_relay, remove_relay, spawn_relay, insert_relay,
}
use zfs_evacuation_controlle.Controller.StateMachine.{reconcile}
use zfs_evacuation_controlle.Behaviour.Obliging.{Surroundings, played, Ended, Shows, IsObliging}
use zfs_evacuation_controlle.Behaviour.Obliging.Ends.{
  HasPhase, is_source, in_cleaning, cleaning_evac, cleaning_completes,
}
use zfs_evacuation_controlle.Behaviour.Obliging.Aborts.{
  is_target, in_abort, aborting_evac, abort_fails,
}
use zfs_evacuation_controlle.Tests.Samples.{
  ctx, evacuation, source, transfer, committed_at, at_phase,
}

-- Nothing is there, and every call is accepted.
abbrev pub value_of : (c : Call) → Value c
value_of (get_pv n) = none
value_of list_pvs = []
value_of (create_pv pv) = tt
value_of (patch_reclaim_policy n p) = tt
value_of (patch_evacuate_annotation_null n) = tt
value_of (get_pvc ns n) = none
value_of (patch_evacuating_label ns n v) = tt
value_of (list_pods ns) = []
value_of (get_node n) = none
value_of list_nodes = []
value_of (get_storage_class n) = none
value_of (get_zfs_volume n) = none
value_of list_zfs_volumes = []
value_of (create_zfs_volume zv) = tt
value_of (get_snapshot n) = none
value_of (list_snapshots n) = []
value_of (create_snapshot cr) = tt
value_of (get_backup n) = none
value_of (create_backup cr) = tt
value_of (get_restore n) = none
value_of (create_restore cr) = tt
value_of list_zfs_nodes = []
value_of (get_evacuation n) = none
value_of list_evacuations = []
value_of (Call.create_evacuation e) = tt
value_of (patch_status n st) = tt
value_of get_params = none
value_of (create_params p) = tt
value_of (replace_params p) = tt
value_of (get_meta k n) = none
value_of (patch_finalizers k n fins) = tt
value_of (delete k n) = tt

abbrev pub reply_of : (q : Sense) → Reply q
reply_of now_rfc3339 = "2024-01-01T00:00:00Z"
reply_of (secs_since t) = some 0
reply_of now_secs = 0
reply_of random_u128 = 7
reply_of random_u16 = 7
reply_of lock_selection = tt
reply_of (observe_relay n) = none
reply_of (remove_relay n) = true
reply_of (spawn_relay a b) = none
reply_of (insert_relay n a) = tt

abbrev emptied : Surroundings
emptied = record { answer = λ n c. ok (value_of c); reply = λ n q. reply_of q }

value_of-Shows : (gone : String → Bool) (c : Call) → Shows gone c (value_of c)
value_of-Shows gone (get_zfs_volume n) = λ _. refl
value_of-Shows gone (get_snapshot n) = refl
value_of-Shows gone (get_backup n) = refl
value_of-Shows gone (get_restore n) = refl
value_of-Shows gone _ = tt

emptied-IsObliging : (gone : String → Bool) → IsObliging gone emptied
emptied-IsObliging gone n c = value_of-Shows gone c

-- The snapshot's delete is on record.
abbrev cleaned_status : EvacuationStatus
cleaned_status =
    let s = committed_at Phase.cleaning_up in
    let t = transfer in record s { transfer = some (record t { target_snap_delete_issued = true }) }

cleaning_completes_example : Ended (HasPhase Phase.completed) (
    played emptied 0
      (in_cleaning ctx (evacuation none) cleaned_status source)
      (reconcile ctx (cleaning_evac ctx (evacuation none) cleaned_status source)))
cleaning_completes_example =
    cleaning_completes ctx (evacuation none) cleaned_status source emptied
      (emptied-IsObliging (is_source ctx (evacuation none) cleaned_status source)) refl

abort_fails_example : Ended (HasPhase Phase.failed) (
    played emptied 0
      (in_abort ctx (evacuation none) (at_phase Phase.aborting))
      (reconcile ctx (aborting_evac ctx (evacuation none) (at_phase Phase.aborting))))
abort_fails_example =
    abort_fails ctx (evacuation none) (at_phase Phase.aborting) emptied
      (emptied-IsObliging (is_target ctx (evacuation none) (at_phase Phase.aborting)))
