-- ===== src/Tests/Intents.antt =====
-- The promises on what is destroyed, copied and locked, at sample objects.
use zfs_evacuation_controlle.Base.{
  ℕ, String, false, Option, none, some, [], ◌∷◌, refl, lookup, show,
}
use zfs_evacuation_controlle.Crd.Evacuation.{Evacuation, EvacuationStatus, Phase}
use zfs_evacuation_controlle.Crd.Params.{EvacuationParams, lock, unlock}
use zfs_evacuation_controlle.Effect.{Call, Kind, delete, replace_params, create_backup, ok}
use zfs_evacuation_controlle.Controller.StateMachine.{
  reconcile, reconcile_status, carry_on, proceed, check_cancel, dispatch, cancel_reason,
  trigger_withdrawn, claim_lost,
}
use zfs_evacuation_controlle.Controller.Steps.{ensure_evac_finalizer}
use zfs_evacuation_controlle.Controller.Phases.{
  locking, cleaning_up, clean_target, clean_source, destroy_source, after_snapshot,
}
use zfs_evacuation_controlle.Controller.Context.{update_params, write_status}
use zfs_evacuation_controlle.Controller.Abort.{
  run, undo_target, unwind, restore_policy, restore_policy_of, unlock_pvc, release_source,
  honor_deletion, pvc_is_gone, reclaim_source,
}
use zfs_evacuation_controlle.Controller.Transfer.{
  drop_relay, cleanup_transfer_crs, cleanup_backup, cleanup_restore, destroy_target_snapshot,
  destroy_recorded, register_snapshot, transferring, start_attempt, relay_peers, peer_list,
  pod_ranges, launch, observe, elapsed_of, act_on, restore_cr, backup_cr, new_transfer,
  snap_name_of, rst_name,
}
use zfs_evacuation_controlle.Controller.Transfer.Verdict.{transfer_verdict}
use zfs_evacuation_controlle.Controller.Transfer.{create_restore as make_restore}
use zfs_evacuation_controlle.Authority.Diagram.{IsCommitted, HasSource, HasTarget}
use zfs_evacuation_controlle.Controller.Nodes.{node_by_id, node_id_of, node_ips}
use zfs_evacuation_controlle.Authority.History.{Makes}
use zfs_evacuation_controlle.Authority.Promises.{
  dataset_destruction, DestructionOf, Intends, transfer_intent, lock_change, LockedOrClosing,
}
use zfs_evacuation_controlle.Tests.Samples.{
  ctx, evacuation, at_phase, committed_at, old_pv, pvc, volume, node_named, relay, target, source,
}

cleaning_sound : IsCommitted (committed_at Phase.cleaning_up)
cleaning_sound = record {
  committed = refl;
  source = refl;
  pvc_ref = refl;
  target = refl;
  transfer = refl;
  old_pv_manifest = refl;
  new_pv_manifest = refl;
}

abbrev cleaning_evac : Evacuation
cleaning_evac = evacuation (some (committed_at Phase.cleaning_up))

destruction_run :
    Makes
      (committed_at Phase.cleaning_up)
      (reconcile ctx cleaning_evac)
      (committed_at Phase.cleaning_up)
      (delete Kind.zfs_volume "pvc-old")
unfolding reconcile reconcile_status carry_on ensure_evac_finalizer proceed check_cancel dispatch
    cleaning_up cleanup_transfer_crs cleanup_backup cleanup_restore destroy_target_snapshot
    clean_target destroy_recorded register_snapshot after_snapshot clean_source destroy_source
destruction_run = Makes.answered (ok none) (
    Makes.answered (ok none) (
      Makes.answered (ok none)
        (Makes.answered (ok none) (Makes.answered (ok (some volume)) Makes.here))))

locking_sound : HasSource (at_phase Phase.locking)
locking_sound = record { uncommitted = refl; source = refl; pvc_ref = refl }

abbrev locking_evac : Evacuation
locking_evac = evacuation (some (at_phase Phase.locking))

abbrev locked_params : EvacuationParams
locked_params = record {
  resource_version = "7";
  spec = record { pvc_keys = "db/data" ∷ []; claimable_pvc_keys = [] };
}

abbrev empty_params : EvacuationParams
empty_params = record {
  resource_version = "7";
  spec = record { pvc_keys = []; claimable_pvc_keys = [] };
}

lock_run :
    Makes
      (at_phase Phase.locking)
      (reconcile ctx locking_evac)
      (at_phase Phase.locking)
      (replace_params locked_params)
unfolding reconcile reconcile_status carry_on ensure_evac_finalizer proceed check_cancel dispatch
    cancel_reason trigger_withdrawn claim_lost locking update_params lock
lock_run = Makes.answered (ok (some old_pv)) (
    Makes.answered (ok none)
      (Makes.answered (ok (some pvc)) (Makes.answered (ok (some empty_params)) Makes.here)))

lock_change_example : LockedOrClosing ctx locking_evac locking_sound (at_phase Phase.locking)
lock_change_example =
    lock_change ctx locking_evac locking_sound (at_phase Phase.locking) locked_params lock_run

dataset_destruction_example :
    DestructionOf ctx cleaning_evac cleaning_sound (committed_at Phase.cleaning_up) "pvc-old"
dataset_destruction_example =
    dataset_destruction ctx cleaning_evac cleaning_sound (committed_at Phase.cleaning_up) "pvc-old"
      destruction_run

-- An abort before anything was copied, of a volume whose claim and PV are gone: the source is deleted.
abbrev aborting : EvacuationStatus
aborting = let st = at_phase Phase.aborting in record st { target = none; transfer = none }

reclaim_run :
    Makes aborting
      (reconcile ctx (evacuation (some aborting)))
      aborting
      (delete Kind.zfs_volume "pvc-old")
unfolding reconcile reconcile_status carry_on ensure_evac_finalizer proceed check_cancel dispatch
    run drop_relay undo_target unwind restore_policy restore_policy_of unlock_pvc update_params
    release_source honor_deletion pvc_is_gone reclaim_source unlock
reclaim_run = Makes.sensed false (
    Makes.answered (ok none) (
      Makes.answered (ok none) (
        Makes.answered (ok tt) (
          Makes.answered (ok none)
            (Makes.answered (ok none) (Makes.answered (ok (some volume)) Makes.here))))))

transferring_sound : HasTarget (at_phase Phase.transferring)
transferring_sound = record { uncommitted = refl; source = refl; pvc_ref = refl; target = refl }

abbrev transferring_evac : Evacuation
transferring_evac = evacuation (some (at_phase Phase.transferring))

-- A live relay and no restore yet: the restore is created.
restore_run :
    Makes
      (at_phase Phase.transferring)
      (reconcile ctx transferring_evac)
      (at_phase Phase.transferring)
      (Call.create_restore (restore_cr ctx "pv-1" 1 7001 volume target))
unfolding reconcile reconcile_status carry_on ensure_evac_finalizer proceed check_cancel dispatch
    cancel_reason trigger_withdrawn claim_lost transferring observe elapsed_of act_on make_restore
    transfer_verdict restore_cr rst_name
restore_run = Makes.answered (ok (some old_pv)) (
    Makes.answered (ok none) (
      Makes.answered (ok (some pvc)) (
        Makes.answered (ok none) (
          Makes.answered (ok none) (
            Makes.sensed (some relay)
              (Makes.sensed 100 (Makes.answered (ok (some volume)) Makes.here)))))))

-- No attempt yet: the record is written, and then the backup is created.
abbrev unstarted : EvacuationStatus
unstarted = let s = at_phase Phase.transferring in record s { transfer = none }

unstarted_sound : HasTarget unstarted
unstarted_sound = record { uncommitted = refl; source = refl; pvc_ref = refl; target = refl }

abbrev started : EvacuationStatus
started = record unstarted {
  transfer = some (new_transfer 1 (snap_name_of 1 48879) 7000 7001 "now");
  message = some "transfer attempt 1 starting";
}

abbrev unstarted_evac : Evacuation
unstarted_evac = evacuation (some unstarted)

abbrev random : ℕ
random = 48879

abbrev now : String
now = "now"

abbrev ports : Option (ℕ × ℕ)
ports = some (7000, 7001)

backup_run :
    Makes unstarted
      (reconcile ctx unstarted_evac)
      started
      (create_backup (backup_cr ctx "pv-1" 1 source (snap_name_of 1 48879) 7000))
unfolding reconcile reconcile_status carry_on ensure_evac_finalizer proceed check_cancel dispatch
    cancel_reason trigger_withdrawn claim_lost transferring start_attempt node_by_id node_id_of
    relay_peers peer_list pod_ranges node_ips launch write_status lookup show
backup_run = Makes.answered (ok (some old_pv)) (
    Makes.answered (ok none) (
      Makes.answered (ok (some pvc)) (
        Makes.sensed none (
          Makes.answered (ok (some (node_named "id-a"))) (
            Makes.answered (ok (some (node_named "id-b"))) (
              Makes.sensed ports (
                Makes.sensed tt (
                  Makes.sensed random (Makes.sensed now (Makes.answered (ok tt) Makes.here))))))))))

transfer_intent_example :
    Intends ctx unstarted_evac unstarted_sound started
      (create_backup (backup_cr ctx "pv-1" 1 source (snap_name_of 1 48879) 7000))
transfer_intent_example =
    transfer_intent ctx unstarted_evac unstarted_sound started
      (create_backup (backup_cr ctx "pv-1" 1 source (snap_name_of 1 48879) 7000)) backup_run
