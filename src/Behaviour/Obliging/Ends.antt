-- ===== src/Behaviour/Obliging/Ends.antt =====
-- src/controller/state_machine.rs, `cleaning_up`: it reaches its end against such a server.
use zfs_evacuation_controlle.Base.{
  String, Bool, true, false, Option, none, some, ◌≡◌, refl, sym, subst, eqs, eq→eqs, ◌&&◌, and_then,
  is_some, lookup, if◌then◌else◌,
}
use zfs_evacuation_controlle.Crd.Evacuation.{
  Evacuation, EvacuationStatus, Phase, SourceInfo, TargetInfo, TransferStatus, evacuate_annotation,
}
use zfs_evacuation_controlle.Effect.{M, ret, ok, err, get_pv, get_snapshot, ◌>>=◌}
use zfs_evacuation_controlle.Controller.Context.{Ctx, Action, write_status}
use zfs_evacuation_controlle.Controller.Steps.{advance}
use zfs_evacuation_controlle.Controller.Transfer.{
  SnapResult, await_snapshot, destroy_recorded, destroy_target_snapshot,
}
use zfs_evacuation_controlle.Controller.Phases.{
  clear_trigger, record_completed, complete, clean_source, after_snapshot, clean_target,
  transfer_gone, cleaning_up,
}
use zfs_evacuation_controlle.Controller.StateMachine.{
  reconcile, reconcile_status, carry_on, proceed, check_cancel, dispatch,
}
use zfs_evacuation_controlle.Behaviour.Obliging.{
  Surroundings, played, Ended, IsObliging, played-Ended, Yields, Yields-after, Yields-known,
  IsSteady, IsSteady-ask, IsSteady-if, IsSteady-option,
}
use zfs_evacuation_controlle.Behaviour.Obliging.Parts.{
  SomeResult, unlock_pvc-IsSteady, ensure-IsSteady, remove-IsSteady, cleanup-IsSteady,
}

-- The delete of the snapshot has been issued for the attempt on record, if there is one.
abbrev pub IsIssued : Option TransferStatus → Type 0
IsIssued none = Unit
IsIssued (some t) = t.target_snap_delete_issued ≡ true

abbrev pub HasPhase : {A : Type 0} → Phase → EvacuationStatus → A → Type 0
HasPhase p s a = s.phase ≡ p

-- The cleaning may go on, with the same status.
abbrev IsUntouched : EvacuationStatus → SnapResult → Type 0
IsUntouched st r = r ≡ (none, st)

module _ (gone : String → Bool) where
  -- Without the snapshot the status is left as it is.
  await_snapshot-IsSteady :
      (st : EvacuationStatus) (t : TransferStatus) (target : TargetInfo)
      → t.target_snap_delete_issued ≡ true
      → (name : String) → IsSteady gone (IsUntouched st) (destroy_recorded name st t target)
  unfolding destroy_recorded await_snapshot
  await_snapshot-IsSteady st t target issued name =
      IsSteady-ask gone (IsUntouched st) (get_snapshot t.snap_name) _ refl
        λ found absent. rw (issued, absent) refl

  snapshot-IsSteady :
      (st : EvacuationStatus) (name : String)
      → IsIssued st.transfer
      → IsSteady gone (IsUntouched st) (destroy_target_snapshot name st)
  unfolding destroy_target_snapshot
  snapshot-IsSteady st name issued = by_record st.transfer issued
    where
      by_record :
          (transfer : Option TransferStatus)
          → IsIssued transfer
          → IsSteady gone (IsUntouched st) (elim transfer [
            | none ↦ ret (none, st)
            | some t ↦ elim st.target [
              | none ↦ ret (none, st)
              | some target ↦ destroy_recorded name st t target
            ]
          ])
      by_record none issued' = refl
      by_record (some t) issued' =
          IsSteady-option gone (IsUntouched st) st.target _ _ refl
            (λ target. await_snapshot-IsSteady st t target issued' name)

  clear_trigger-IsSteady : (evac : Evacuation) → IsSteady gone SomeResult (clear_trigger evac)
  unfolding clear_trigger
  clear_trigger-IsSteady evac =
      IsSteady-ask gone SomeResult (get_pv evac.spec.pv_name) _ refl λ found _.
        IsSteady-if gone SomeResult
          (is_some
            (and_then found (λ pv. and_then pv.metadata.annotations (lookup evacuate_annotation))))
          _ _ (refl, elim [ ok u ↦ λ o. tt | err e ↦ λ o. absurd o ]) tt

  record_completed-Yields :
      (evac : Evacuation) (st s : EvacuationStatus)
      → Yields gone (HasPhase Phase.completed) s (record_completed evac st)
  unfolding record_completed advance write_status
  record_completed-Yields evac st s = elim [
    | ok u ↦ λ o.
        Yields-after gone SomeResult (HasPhase Phase.completed) _ _ _
          (remove-IsSteady gone evac.metadata.name) (λ a _. refl)
    | err e ↦ λ o. absurd o
  ]

  complete-Yields :
      (evac : Evacuation) (st s : EvacuationStatus)
      → Yields gone (HasPhase Phase.completed) s (complete evac st)
  unfolding complete
  complete-Yields evac st s =
      Yields-after gone SomeResult (HasPhase Phase.completed) s _ _ (unlock_pvc-IsSteady gone st)
        λ u _.
          Yields-after gone SomeResult (HasPhase Phase.completed) s _ _
            (clear_trigger-IsSteady evac) λ u' _. record_completed-Yields evac _ s

  module _ (evac : Evacuation) (source : SourceInfo)
      (absent : gone source.volume_handle ≡ true) where
    clean_source-Yields :
        (st s : EvacuationStatus)
        → Yields gone (HasPhase Phase.completed) s (clean_source evac st source)
    unfolding clean_source
    clean_source-Yields st s = elim [
      | ok none ↦ λ o. complete-Yields evac st s
      | ok (some zv) ↦ λ o. let never = o absent in cc
      | err e ↦ λ o. absurd o
    ]

    transfer_gone-IsSteady :
        (st : EvacuationStatus) → IsSteady gone (λ b. b ≡ true) (transfer_gone evac st)
    unfolding transfer_gone
    transfer_gone-IsSteady st =
        IsSteady-option gone (λ b. b ≡ true) st.transfer _ _ refl
          (λ t. cleanup-IsSteady gone evac.metadata.name t.attempt st)

    clean_target-Yields :
        (st s : EvacuationStatus)
        → IsIssued st.transfer
        → Yields gone (HasPhase Phase.completed) s (clean_target evac st source)
    unfolding clean_target after_snapshot
    clean_target-Yields st s issued =
        Yields-after gone (IsUntouched st) (HasPhase Phase.completed) s _ _
          (snapshot-IsSteady st evac.metadata.name issued)
          (λ r e.
            subst (λ x. Yields gone (HasPhase Phase.completed) s (after_snapshot evac source x))
              (sym e) (clean_source-Yields st s))

    cleaning_up-Yields :
        (st s : EvacuationStatus)
        → st.source ≡ some source
        → IsIssued st.transfer
        → Yields gone (HasPhase Phase.completed) s (cleaning_up evac st)
    unfolding cleaning_up
    cleaning_up-Yields st s at issued =
        Yields-known gone (HasPhase Phase.completed) s st.source source _ _ at (
          Yields-after gone (λ b. b ≡ true) (HasPhase Phase.completed) s _ _
            (transfer_gone-IsSteady st) λ b e. rw e (clean_target-Yields st s issued))

module _ (ctx : Ctx) (e : Evacuation) (b : EvacuationStatus) (source : SourceInfo) where
  -- An evacuation in CleaningUp, deleted or not.
  abbrev pub in_cleaning : EvacuationStatus
  in_cleaning = record b { phase = Phase.cleaning_up; committed = true; source = some source }

  abbrev pub cleaning_evac : Evacuation
  cleaning_evac = record e { status = some in_cleaning }

  abbrev pub is_source : String → Bool
  is_source name = eqs name source.volume_handle

  dispatched-Yields :
      IsIssued b.transfer
      → Yields is_source
          (HasPhase Phase.completed)
          in_cleaning
          (proceed ctx cleaning_evac in_cleaning)
  unfolding proceed check_cancel dispatch
  dispatched-Yields issued =
      cleaning_up-Yields is_source cleaning_evac source (eq→eqs source.volume_handle _ refl)
        in_cleaning in_cleaning refl issued

  cleaned-Yields :
      IsIssued b.transfer
      → Yields is_source (HasPhase Phase.completed) in_cleaning (reconcile ctx cleaning_evac)
  unfolding reconcile reconcile_status carry_on
  cleaned-Yields issued =
      by_deletion e.metadata.deleting _ _ _ _ tt (ensure-IsSteady is_source cleaning_evac)
        (λ _. dispatched-Yields issued)
    where
      by_deletion :
          (dying : Bool) (x : M Action) (t u : M (Unit {0})) (k : Unit {0} → M Action)
          → IsSteady is_source SomeResult t
          → IsSteady is_source SomeResult u
          → ((a : Unit {0}) → Yields is_source (HasPhase Phase.completed) in_cleaning (k a))
          → Yields is_source
              (HasPhase Phase.completed)
              in_cleaning
              (if dying && false then x else ((if dying then t else u) >>= k))
      by_deletion true x t u k ht hu hk =
          Yields-after is_source SomeResult (HasPhase Phase.completed) in_cleaning t k ht
            (λ a _. hk a)
      by_deletion false x t u k ht hu hk =
          Yields-after is_source SomeResult (HasPhase Phase.completed) in_cleaning u k hu
            (λ a _. hk a)

  -- In CleaningUp with the delete of the snapshot issued, in surroundings where every call is accepted
  -- and the backup, the restore, the snapshot and the source's volume are read as absent, a
  -- reconciliation returns and leaves Completed recorded, whatever else the calls show.
  pub cleaning_completes :
      (env : Surroundings)
      → IsObliging is_source env
      → IsIssued b.transfer
      → Ended (HasPhase Phase.completed) (played env 0 in_cleaning (reconcile ctx cleaning_evac))
  cleaning_completes env obliging issued =
      played-Ended is_source (HasPhase Phase.completed) env 0 in_cleaning _ obliging
        (cleaned-Yields issued)
