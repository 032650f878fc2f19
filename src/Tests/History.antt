-- ===== src/Tests/History.antt =====
-- The promises of a reconciliation at sample objects.
use zfs_evacuation_controlle.Base.{none, some, [], ◌≡◌, refl, ◌≤◌}
use zfs_evacuation_controlle.Kube.{PersistentVolume}
use zfs_evacuation_controlle.Crd.Evacuation.{Evacuation, EvacuationStatus, Phase, default_status}
use zfs_evacuation_controlle.Crd.Openebs.{named}
use zfs_evacuation_controlle.Effect.{Kind, delete, create_pv, patch_reclaim_policy, ok}
use zfs_evacuation_controlle.Controller.StateMachine.{
  reconcile, reconcile_status, carry_on, proceed, check_cancel, dispatch, cancel_reason,
}
use zfs_evacuation_controlle.Controller.Steps.{
  ensure_evac_finalizer, blocking_reason, fail, advance,
}
use zfs_evacuation_controlle.Controller.Context.{write_status}
use zfs_evacuation_controlle.Controller.Phases.{pending}
use zfs_evacuation_controlle.Controller.Pods.{pods_referencing_pvc}
use zfs_evacuation_controlle.Controller.PvSwap.{
  swapping, delete_old_pv, create_new_pv, finish_swap, claim_of,
}
use zfs_evacuation_controlle.Authority.Diagram.{IsSound, IsCommitted}
use zfs_evacuation_controlle.Authority.Reconcile.{reconcile-Safely}
use zfs_evacuation_controlle.Authority.Rules.{Safely}
use zfs_evacuation_controlle.Authority.History.{
  Makes, Leaves, created, reconciled, IsFrozen, rank, Reached-IsSound,
}
use zfs_evacuation_controlle.Authority.Promises.{
  phase_never_back, commit_is_final, pv_deletion, pv_creation, policy_change, PolicyOf,
}
use zfs_evacuation_controlle.Authority.Endings.{terminal_is_final}
use zfs_evacuation_controlle.Tests.Samples.{ctx, evacuation, committed_at, old_pv, pv_spec, claim}

committed_sound : IsCommitted (committed_at Phase.swapping)
committed_sound = record {
  committed = refl;
  source = refl;
  pvc_ref = refl;
  target = refl;
  transfer = refl;
  old_pv_manifest = refl;
  new_pv_manifest = refl;
}

abbrev swapping_evac : Evacuation
swapping_evac = evacuation (some (committed_at Phase.swapping))

-- A new evacuation whose PV is not found: Pending writes Failed.
abbrev refused : EvacuationStatus
refused =
    let d = default_status in record d { phase = Phase.failed; message = some "PV pv-1 not found" }

refusal : Leaves default_status (reconcile ctx (evacuation none)) refused
unfolding reconcile reconcile_status carry_on ensure_evac_finalizer proceed check_cancel dispatch
    cancel_reason pending fail write_status
refusal = Leaves.answered (ok none) (Leaves.answered (ok tt) Leaves.stopped)

reconcile-Safely_example :
    Safely swapping_evac (committed_at Phase.swapping) (reconcile ctx swapping_evac)
reconcile-Safely_example = reconcile-Safely ctx swapping_evac committed_sound

Reached-IsSound_example : IsSound refused
Reached-IsSound_example = Reached-IsSound refused (reconciled ctx (evacuation none) created refusal)

phase_never_back_example : rank Phase.pending ≤ rank Phase.failed
phase_never_back_example = phase_never_back ctx (evacuation none) refl refused refusal

-- Swapping with the old PV there and no pods: the PV is deleted.
deletion_run :
    Makes
      (committed_at Phase.swapping)
      (reconcile ctx swapping_evac)
      (committed_at Phase.swapping)
      (delete Kind.pv "pv-1")
unfolding reconcile reconcile_status carry_on ensure_evac_finalizer proceed check_cancel dispatch
    swapping delete_old_pv blocking_reason pods_referencing_pvc
deletion_run = Makes.answered (ok (some old_pv)) (Makes.answered (ok []) Makes.here)

pv_deletion_example :
    (swapping_evac.spec.pv_name ≡ swapping_evac.spec.pv_name)
    × (Phase.swapping ≡ Phase.swapping)
    × IsCommitted (committed_at Phase.swapping)
pv_deletion_example =
    pv_deletion ctx swapping_evac committed_sound (committed_at Phase.swapping) "pv-1" deletion_run

-- With it gone, the replacement is created.
abbrev parsed : PersistentVolume
parsed = record { metadata = named "pv-1"; spec = none; phase = none }

creation_run :
    Makes
      (committed_at Phase.swapping)
      (reconcile ctx swapping_evac)
      (committed_at Phase.swapping)
      (create_pv parsed)
unfolding reconcile reconcile_status carry_on ensure_evac_finalizer proceed check_cancel dispatch
    swapping create_new_pv
creation_run = Makes.answered (ok none) Makes.here

pv_creation_example : (Phase.swapping ≡ Phase.swapping) × IsCommitted (committed_at Phase.swapping)
pv_creation_example =
    pv_creation ctx swapping_evac committed_sound (committed_at Phase.swapping) parsed creation_run

-- The replacement is there and bound: CleaningUp is written.
abbrev bound_pv : PersistentVolume
bound_pv = record {
  metadata = named "pv-1";
  spec = some (record pv_spec { claim_ref = some (claim_of claim) });
  phase = some "Bound";
}

swap_run :
    Leaves
      (committed_at Phase.swapping)
      (reconcile ctx swapping_evac)
      (committed_at Phase.cleaning_up)
unfolding reconcile reconcile_status carry_on ensure_evac_finalizer proceed check_cancel dispatch
    swapping finish_swap advance write_status
swap_run =
    Leaves.answered (ok (some bound_pv))
      (Leaves.answered (ok tt) (Leaves.answered (ok tt) Leaves.stopped))

commit_is_final_example : IsFrozen (committed_at Phase.swapping) (committed_at Phase.cleaning_up)
commit_is_final_example =
    commit_is_final ctx swapping_evac committed_sound (committed_at Phase.cleaning_up) refl swap_run

policy_run :
    Makes
      (committed_at Phase.swapping)
      (reconcile ctx swapping_evac)
      (committed_at Phase.swapping)
      (patch_reclaim_policy "pv-1" "Delete")
unfolding reconcile reconcile_status carry_on ensure_evac_finalizer proceed check_cancel dispatch
    swapping finish_swap
policy_run = Makes.answered (ok (some bound_pv)) Makes.here

policy_change_example :
    PolicyOf ctx swapping_evac committed_sound (committed_at Phase.swapping) "pv-1" "Delete"
policy_change_example =
    policy_change ctx swapping_evac committed_sound (committed_at Phase.swapping) "pv-1" "Delete"
      policy_run

terminal_is_final_example : refused ≡ refused
terminal_is_final_example =
    terminal_is_final ctx (evacuation (some refused)) refused refl refl Leaves.stopped
