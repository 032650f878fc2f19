-- ===== src/Behaviour/Obliging/Aborts.antt =====
-- src/controller/abort.rs, `run`: it reaches its end against such a server.
use zfs_evacuation_controlle.Base.{
  String, Bool, true, false, not, ◌&&◌, Option, none, some, ◌≡◌, refl, eqs, eq→eqs, and_then,
  is_some, is_some_and, if◌then◌else◌,
}
use zfs_evacuation_controlle.Crd.Openebs.{ZfsVolume, ZfsRestore, bkp_status_done}
use zfs_evacuation_controlle.Crd.Evacuation.{
  Evacuation, EvacuationStatus, Phase, SourceInfo, TargetInfo, TransferStatus,
}
use zfs_evacuation_controlle.Effect.{
  ret, ok, err, Kind, get_pv, get_pvc, get_zfs_volume, get_restore,
}
use zfs_evacuation_controlle.Controller.Context.{Ctx, write_status}
use zfs_evacuation_controlle.Controller.PvSwap.{has_uid}
use zfs_evacuation_controlle.Controller.Transfer.{rst_name, drop_relay}
use zfs_evacuation_controlle.Controller.Abort.{
  Progress, drop_transfer, adopt_orphan, destroy_target, undo_transfer, undo_target,
  restore_policy_of, restore_policy, pvc_is_gone, reclaim_source, honor_deletion, drop_guard,
  release_source, conclude, unwind, run,
}
use zfs_evacuation_controlle.Controller.StateMachine.{reconcile, reconcile_status, carry_on}
use zfs_evacuation_controlle.Behaviour.Obliging.{
  Surroundings, played, Ended, IsObliging, played-Ended, Yields, Yields-after, IsSteady,
  IsSteady-bind, IsSteady-ask, IsSteady-if, IsSteady-option,
}
use zfs_evacuation_controlle.Behaviour.Obliging.Parts.{
  SomeResult, unlock_pvc-IsSteady, ensure-IsSteady, cleanup-IsSteady, set_finalizers-IsSteady,
  strip-IsSteady,
}
use zfs_evacuation_controlle.Behaviour.Obliging.Ends.{HasPhase}

-- The unwinding goes on.
abbrev GoesOn : Progress → Type 0
GoesOn p = p ≡ none

module _ (gone : String → Bool) where
  drop_transfer-IsSteady :
      (name : String) (st : EvacuationStatus) (t : TransferStatus)
      → IsSteady gone GoesOn (drop_transfer name st t)
  unfolding drop_transfer
  drop_transfer-IsSteady name st t =
      IsSteady-bind gone (λ b. b ≡ true) GoesOn _ _ (cleanup-IsSteady gone name t.attempt st)
        (λ b e. rw e refl)

  undo_transfer-IsSteady :
      (name : String) (st : EvacuationStatus) (target : TargetInfo) (t : TransferStatus)
      → gone target.new_volume_handle ≡ true
      → IsSteady gone GoesOn (undo_transfer name st target t)
  unfolding undo_transfer
  undo_transfer-IsSteady name st target t absent =
      IsSteady-ask gone GoesOn (get_restore (rst_name name t.attempt)) _ refl λ rst no_restore.
        IsSteady-ask gone GoesOn (get_zfs_volume target.new_volume_handle) _ refl
          λ found no_volume. onward rst found no_restore (no_volume absent)
    where
      onward :
          (rst : Option ZfsRestore) (found : Option ZfsVolume)
          → rst ≡ none
          → found ≡ none
          → IsSteady gone GoesOn (elim found [
            | some zv ↦ destroy_target name st target zv
            | none ↦
                if is_some_and (λ s. eqs s bkp_status_done) (and_then rst (λ r. r.status))
                then adopt_orphan name st target t
                else drop_transfer name st t
          ])
      onward none none no_restore no_volume = drop_transfer-IsSteady name st t
      onward (some r) found no_restore no_volume = cc
      onward none (some zv) no_restore no_volume = cc

  restore_policy-IsSteady :
      (evac : Evacuation) (st : EvacuationStatus)
      → IsSteady gone SomeResult (restore_policy evac st)
  unfolding restore_policy restore_policy_of
  restore_policy-IsSteady evac st = IsSteady-option gone SomeResult st.source _ _ tt λ source.
      IsSteady-option gone SomeResult st.original_reclaim_policy _ _ tt λ orig.
        IsSteady-ask gone SomeResult (get_pv evac.spec.pv_name) _ refl λ found _.
          IsSteady-if gone SomeResult (is_some_and (λ pv. has_uid source.pv_uid pv.metadata) found)
            _ _ (refl, elim [ ok u ↦ λ o. tt | err e ↦ λ o. absurd o ]) tt

  reclaim_source-IsSteady : (source : SourceInfo) → IsSteady gone SomeResult (reclaim_source source)
  unfolding reclaim_source
  reclaim_source-IsSteady source =
      IsSteady-ask gone SomeResult (get_zfs_volume source.volume_handle) _ refl λ found _.
        IsSteady-if gone SomeResult (is_some_and (λ zv. not zv.metadata.deleting) found) _ _
          (refl, elim [ ok u ↦ λ o. tt | err e ↦ λ o. absurd o ]) tt

  pvc_is_gone-IsSteady : (st : EvacuationStatus) → IsSteady gone SomeResult (pvc_is_gone st)
  unfolding pvc_is_gone
  pvc_is_gone-IsSteady st =
      IsSteady-option gone SomeResult st.pvc_ref _ _ tt
        λ r. IsSteady-ask gone SomeResult (get_pvc r.namespace r.name) _ refl (λ pvc _. tt)

  honor_deletion-IsSteady :
      (evac : Evacuation) (st : EvacuationStatus) (source : SourceInfo)
      → IsSteady gone SomeResult (honor_deletion evac st source)
  unfolding honor_deletion
  honor_deletion-IsSteady evac st source =
      IsSteady-bind gone SomeResult SomeResult _ _ (pvc_is_gone-IsSteady st) λ pvc_gone _.
        IsSteady-ask gone SomeResult (get_pv evac.spec.pv_name) _ refl λ pv _.
          IsSteady-if gone SomeResult
            ((pvc_gone && not (is_some pv))
              && is_some_and (λ p. eqs p "Delete") st.original_reclaim_policy)
            _ _ (reclaim_source-IsSteady source) tt

  release_source-IsSteady :
      (evac : Evacuation) (st : EvacuationStatus)
      → IsSteady gone SomeResult (release_source evac st)
  unfolding release_source drop_guard
  release_source-IsSteady evac st = IsSteady-option gone SomeResult st.source _ _ tt λ source.
      IsSteady-bind gone SomeResult SomeResult _ _ (honor_deletion-IsSteady evac st source) λ u _.
        IsSteady-bind gone SomeResult SomeResult _ _
          (set_finalizers-IsSteady gone Kind.zfs_volume source.volume_handle _)
          (λ u' _. strip-IsSteady gone Kind.zfs_volume source.volume_handle source.node_id)

module _ (ctx : Ctx) (e : Evacuation) (b : EvacuationStatus) where
  -- An evacuation in Aborting that is not being deleted.
  abbrev pub in_abort : EvacuationStatus
  in_abort = record b { phase = Phase.aborting }

  abbrev pub aborting_evac : Evacuation
  aborting_evac =
      let m = e.metadata in
      record e { metadata = record m { deleting = false }; status = some in_abort }

  abbrev pub is_target : String → Bool
  is_target name = is_some_and (λ t. eqs name t.new_volume_handle) b.target

  undo_target-IsSteady : (name : String) → IsSteady is_target GoesOn (undo_target name in_abort)
  unfolding undo_target
  undo_target-IsSteady name =
      by_record b.target b.transfer (λ target e. rw e (eq→eqs target.new_volume_handle _ refl))
    where
      by_record :
          (target : Option TargetInfo) (transfer : Option TransferStatus)
          → ((t : TargetInfo) → target ≡ some t → is_target t.new_volume_handle ≡ true)
          → IsSteady is_target GoesOn (elim target [
            | none ↦ ret none
            | some t ↦ elim transfer [ none ↦ ret none | some x ↦ undo_transfer name in_abort t x ]
          ])
      by_record none transfer absent = refl
      by_record (some t) none absent = refl
      by_record (some t) (some x) absent =
          undo_transfer-IsSteady is_target name in_abort t x (absent t refl)

  conclude-Yields :
      (s : EvacuationStatus)
      → Yields is_target (HasPhase Phase.failed) s (conclude aborting_evac in_abort)
  unfolding conclude write_status
  conclude-Yields s = elim [ ok u ↦ λ o. refl | err x ↦ λ o. absurd o ]

  unwind-Yields :
      (s : EvacuationStatus)
      → Yields is_target (HasPhase Phase.failed) s (unwind aborting_evac in_abort)
  unfolding unwind
  unwind-Yields s =
      Yields-after is_target SomeResult (HasPhase Phase.failed) s _ _
        (restore_policy-IsSteady is_target aborting_evac in_abort)
        λ u _.
          Yields-after is_target SomeResult (HasPhase Phase.failed) s _ _
            (unlock_pvc-IsSteady is_target in_abort)
            λ u' _.
              Yields-after is_target SomeResult (HasPhase Phase.failed) s _ _
                (release_source-IsSteady is_target aborting_evac in_abort)
                (λ u'' _. conclude-Yields s)

  run-Yields : Yields is_target (HasPhase Phase.failed) in_abort (run aborting_evac in_abort)
  unfolding run drop_relay
  run-Yields = λ had.
      Yields-after is_target GoesOn (HasPhase Phase.failed) in_abort _ _
        (undo_target-IsSteady e.metadata.name) (λ early p. rw p (unwind-Yields in_abort))

  aborted-Yields : Yields is_target (HasPhase Phase.failed) in_abort (reconcile ctx aborting_evac)
  unfolding reconcile reconcile_status carry_on
  aborted-Yields =
      Yields-after is_target SomeResult (HasPhase Phase.failed) in_abort _ _
        (ensure-IsSteady is_target aborting_evac) (λ _ _. run-Yields)

  -- In Aborting, of an object that is not being deleted, in surroundings where every call is accepted
  -- and the backup, the restore and the target's volume are read as absent, a reconciliation returns
  -- and leaves Failed recorded, whatever else the calls show.
  pub abort_fails :
      (env : Surroundings)
      → IsObliging is_target env
      → Ended (HasPhase Phase.failed) (played env 0 in_abort (reconcile ctx aborting_evac))
  abort_fails env obliging =
      played-Ended is_target (HasPhase Phase.failed) env 0 in_abort _ obliging aborted-Yields
