-- ===== src/Tests/Routines.antt =====
-- The routines at sample objects.
use zfs_evacuation_controlle.Base.{
  String, false, none, some, List, [], ◌∷◌, ◌≡◌, ◌↔◌, refl, contains, first, if◌then◌else◌,
}
use zfs_evacuation_controlle.Kube.{PersistentVolume}
use zfs_evacuation_controlle.Crd.Params.{lock, unlock}
use zfs_evacuation_controlle.Crd.Params.Locking.{keys_after, lock_reports, unlock-lock, listed}
use zfs_evacuation_controlle.Crd.Evacuation.{EvacuationMode, Phase}
use zfs_evacuation_controlle.Effect.{ret, Safe}
use zfs_evacuation_controlle.Controller.Colocation.{
  Anchor, pick_anchor, count_votes, best_node, add_vote, max_vote, beaten_by,
}
use zfs_evacuation_controlle.Controller.PvSwap.{swapping, committing, render_new_pv}
use zfs_evacuation_controlle.Controller.Context.{update_params}
use zfs_evacuation_controlle.Controller.Target.{
  SelectionInput, select_target, Candidate, most_free_first,
}
use zfs_evacuation_controlle.Controller.Transfer.Verdict.{TransferVerdict, transfer_verdict}
use zfs_evacuation_controlle.Behaviour.Verdict.{Due}
use zfs_evacuation_controlle.Behaviour.Verdict.Exact.{transfer_verdict_iff}
use zfs_evacuation_controlle.Behaviour.NewPv.{Replaces, render_new_pv_lem}
use zfs_evacuation_controlle.Behaviour.PodCheck.{Guarded, Checked}
use zfs_evacuation_controlle.Behaviour.PodCheck.Swap.{swapping-Checked, committing-Checked}
use zfs_evacuation_controlle.Behaviour.PodCheck.Settle.{quiescing-Checked}
use zfs_evacuation_controlle.Controller.Phases.{quiescing}
use zfs_evacuation_controlle.Controller.Trigger.{tick}
use zfs_evacuation_controlle.Behaviour.Creation.{Seen, creation_watch, Anyway}
use zfs_evacuation_controlle.Behaviour.Creation.Poll.{tick-Safe}
use zfs_evacuation_controlle.Controller.Transfer.{transferring}
use zfs_evacuation_controlle.Behaviour.Succession.{Watched, unseen}
use zfs_evacuation_controlle.Behaviour.Succession.Writes.{transferring-Watched}
use zfs_evacuation_controlle.Behaviour.Updates.{
  Exchange, exchange_watch, Settled, update_params-Safe,
}
use zfs_evacuation_controlle.Behaviour.Anchors.{Picked, pick_anchor-Picked}
use zfs_evacuation_controlle.Behaviour.MostFree.{Best, most_free_first-Best}
use zfs_evacuation_controlle.Behaviour.Reclaim.{Reclaims, unread}
use zfs_evacuation_controlle.Behaviour.Reclaim.Run.{run-Reclaims}
use zfs_evacuation_controlle.Controller.Abort.{run}
use zfs_evacuation_controlle.Behaviour.Selection.{readings, nothing_read}
use zfs_evacuation_controlle.Behaviour.Selection.Choice.{DecidedOr, select_target-Decided}
use zfs_evacuation_controlle.Tests.Samples.{
  ctx, claim, evacuation, at_phase, committed_at, old_pv, pv_spec, csi, target, params, observed,
  spec, transfer,
}

swapping-Checked_example :
    Checked
      (evacuation none)
      ctx
      (committed_at Phase.swapping)
      claim
      Guarded.deletion
      false
      (swapping ctx (evacuation none) (committed_at Phase.swapping))
swapping-Checked_example =
    swapping-Checked (evacuation none) ctx (committed_at Phase.swapping) claim refl

committing-Checked_example :
    Checked
      (evacuation none)
      ctx
      (at_phase Phase.committing)
      claim
      Guarded.commit_write
      false
      (committing ctx (evacuation none) (at_phase Phase.committing))
committing-Checked_example =
    committing-Checked (evacuation none) ctx (at_phase Phase.committing) claim refl refl

transfer_verdict_iff_example :
    (transfer_verdict observed ≡ TransferVerdict.continue 512)
    ↔ Due observed (TransferVerdict.continue 512)
transfer_verdict_iff_example = transfer_verdict_iff observed (TransferVerdict.continue 512)

render_new_pv_lem_example :
    (new : PersistentVolume) × (render_new_pv old_pv claim target ≡ ret new)
    × Replaces old_pv claim target new pv_spec csi
render_new_pv_lem_example = render_new_pv_lem old_pv claim target pv_spec csi refl refl

abbrev input : SelectionInput
input = record {
  evac_name = "pv-1";
  spec = spec;
  source_node_id = "id-a";
  source_pool = "tank";
  capacity_bytes = 1000;
  pv = old_pv;
  group_extra_bytes = 0;
  anchor = none;
  placement = none;
}

select_target-Decided_example :
    Safe readings (DecidedOr ctx input) nothing_read (select_target ctx input)
select_target-Decided_example = select_target-Decided ctx input

abbrev candidates : List Candidate
candidates =
    record { node = "b"; node_id = "id-b"; pool = "tank"; free = 5 }
    ∷ record { node = "c"; node_id = "id-c"; pool = "tank"; free = 8 }
    ∷ []

most_free_first-Best_example : Best candidates (first (most_free_first candidates))
most_free_first-Best_example = most_free_first-Best candidates

abbrev anchor : String → Anchor
anchor n = record { node = n; pv_name = "pv-"; how = "status.target" }

abbrev anchors : List Anchor
anchors = anchor "id-b" ∷ anchor "id-c" ∷ anchor "id-c" ∷ []

picks_c : pick_anchor anchors ≡ some (anchor "id-c")
unfolding pick_anchor count_votes best_node add_vote max_vote beaten_by
picks_c = refl

pick_anchor-Picked_example : Picked anchors (pick_anchor anchors)
pick_anchor-Picked_example = pick_anchor-Picked anchors

update_params-Safe_example :
    Safe
      (exchange_watch (lock "db/data" EvacuationMode.when_idle))
      (Settled (lock "db/data" EvacuationMode.when_idle))
      Exchange.idle
      (update_params (lock "db/data" EvacuationMode.when_idle))
update_params-Safe_example = update_params-Safe (lock "db/data" EvacuationMode.when_idle)

keys_after_example :
    (contains "web/www"
        (listed EvacuationMode.when_claimed (lock "web/www" EvacuationMode.when_idle params).0)
      ≡ false)
    × (contains "web/www" (listed EvacuationMode.when_claimed (unlock "web/www" params).0) ≡ false)
keys_after_example =
    keys_after "web/www" EvacuationMode.when_idle params EvacuationMode.when_claimed "web/www"

lock_reports_example :
    ((lock "web/www" EvacuationMode.when_idle params).0 ≡ (
      if (lock "web/www" EvacuationMode.when_idle params).1
      then (lock "web/www" EvacuationMode.when_idle params).0
      else params))
    × ((unlock "web/www" params).0
        ≡ (if (unlock "web/www" params).1 then (unlock "web/www" params).0 else params))
    × ((lock "web/www" EvacuationMode.when_idle
          (lock "web/www" EvacuationMode.when_idle params).0).1
        ≡ false)
lock_reports_example = lock_reports "web/www" EvacuationMode.when_idle params

unlock-lock_example :
    (unlock "web/www" (lock "web/www" EvacuationMode.when_idle params).0).0
    ≡ (unlock "web/www" params).0
unlock-lock_example = unlock-lock "web/www" EvacuationMode.when_idle params

-- An attempt that is on record, in Transferring.
attempt_known : (at_phase Phase.transferring).transfer ≡ some transfer
attempt_known = refl

transferring-Watched_example :
    Watched
      (evacuation none)
      transfer
      3
      unseen
      (transferring ctx (evacuation none) (at_phase Phase.transferring))
transferring-Watched_example =
    transferring-Watched ctx (evacuation none) (at_phase Phase.transferring) transfer refl
      attempt_known

quiescing-Checked_example :
    Checked
      (evacuation none)
      ctx
      (at_phase Phase.quiescing)
      claim
      Guarded.settling
      false
      (quiescing ctx (evacuation none) (at_phase Phase.quiescing))
quiescing-Checked_example =
    quiescing-Checked (evacuation none) ctx (at_phase Phase.quiescing) claim refl refl

tick-Safe_example : Safe (creation_watch ctx) (Anyway ctx) Seen.nothing (tick ctx)
tick-Safe_example = tick-Safe ctx

run-Reclaims_example :
    Reclaims
      (evacuation none)
      (at_phase Phase.aborting)
      unread
      (run (evacuation none) (at_phase Phase.aborting))
run-Reclaims_example = run-Reclaims (evacuation none) (at_phase Phase.aborting)
