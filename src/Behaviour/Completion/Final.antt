-- ===== src/Behaviour/Completion/Final.antt =====
-- src/controller/state_machine.rs, `cleaning_up`: it records the end only when all is cleaned.
use zfs_evacuation_controlle.Base.{
  Bool, true, false, none, some, ◌≡◌, refl, sym, ap, ◌∙◌, some_inj, subst, eq→eqs, if◌then◌else◌,
}
use zfs_evacuation_controlle.Crd.Evacuation.{
  Evacuation, EvacuationStatus, SourceInfo, TargetInfo, TransferStatus,
}
use zfs_evacuation_controlle.Effect.{
  ok, err, Safe, Safe-bind, Safe-if, Safe-known, Safe-option, Safe-require, Safe-lift, done,
}
use zfs_evacuation_controlle.Controller.Steps.{wait}
use zfs_evacuation_controlle.Controller.StateMachine.{is_terminal}
use zfs_evacuation_controlle.Controller.Transfer.{SnapResult}
use zfs_evacuation_controlle.Controller.Phases.{
  complete, clean_source, after_snapshot, clean_target, transfer_gone, cleaning_up,
}
use zfs_evacuation_controlle.Behaviour.Unwinding.{
  Duty, backup_gone, restore_gone, unlocked, source_gone, snapshot_gone, trigger_off, volume_gone,
  policy_back, unguarded, duty_watch, Anyway, Watched, middle_returning,
}
use zfs_evacuation_controlle.Behaviour.Unwinding.Sequence.{
  free, after_middle, then_free, after_returning, IsMiddle-Watched,
}
use zfs_evacuation_controlle.Behaviour.Unwinding.Parts.{unlock_pvc-IsMiddle}
use zfs_evacuation_controlle.Behaviour.Unwinding.Unlocking.{unlock_pvc-Performs}
use zfs_evacuation_controlle.Behaviour.Unwinding.Gone.{
  Gone, shown, cleanup-backup-Gone, cleanup-restore-Gone,
}
use zfs_evacuation_controlle.Behaviour.Completion.{IsOwed}
use zfs_evacuation_controlle.Behaviour.Completion.Snapshot.{
  IsLeft, Cleaned, destroy_target_snapshot-IsLeft, destroy_target_snapshot-IsMiddle,
}
use zfs_evacuation_controlle.Behaviour.Completion.Absent.{destroy_target_snapshot-Cleaned}
use zfs_evacuation_controlle.Behaviour.Completion.Parts.{
  wait-IsMiddle, destroy_source-IsMiddle, transfer_gone-IsMiddle, clear_trigger-Performs,
}

module _ (evac : Evacuation) where
  module _ (d : Duty) where
    clean_source-Watched :
        (st : EvacuationStatus) (source : SourceInfo) (s : Bool)
        → is_terminal st.phase ≡ false
        → ((s' : Bool) → Watched evac d s' (complete evac st))
        → Watched evac d s (clean_source evac st source)
    unfolding clean_source
    clean_source-Watched st source s open' h = (
      (λ e. cc),
      λ r.
          Safe-lift (duty_watch evac d) (Anyway evac d) _ (λ _. tt) r _
            λ found.
              Safe-option (duty_watch evac d) (Anyway evac d) _ found _ _ (λ _. h _)
                (λ zv _.
                  IsMiddle-Watched evac d _ _ (destroy_source-IsMiddle evac st source zv open')),
    )

    -- What comes after the snapshot has the status with its phase and claim as before.
    after_snapshot-Watched :
        (st : EvacuationStatus) (source : SourceInfo) (s : Bool) (result : SnapResult)
        → is_terminal st.phase ≡ false
        → IsLeft st result
        → ((st' : EvacuationStatus)
            → is_terminal st'.phase ≡ false
            → st'.pvc_ref ≡ st.pvc_ref
            → Watched evac d s (clean_source evac st' source))
        → Watched evac d s (after_snapshot evac source result)
    unfolding after_snapshot
    after_snapshot-Watched st source s (none, st') open' left h =
        h st' (ap is_terminal left.0 ∙ open') left.1
    after_snapshot-Watched st source s (some msg, st') open' left h =
        IsMiddle-Watched evac d s _ (wait-IsMiddle evac st' msg 5 (ap is_terminal left.0 ∙ open'))

    clean_target-Watched :
        (st : EvacuationStatus) (source : SourceInfo) (s : Bool)
        → is_terminal st.phase ≡ false
        → ((st' : EvacuationStatus) (s' : Bool)
            → is_terminal st'.phase ≡ false
            → st'.pvc_ref ≡ st.pvc_ref
            → Watched evac d s' (clean_source evac st' source))
        → Watched evac d s (clean_target evac st source)
    unfolding clean_target
    clean_target-Watched st source s open' h =
        middle_returning evac d (IsLeft st) (Anyway evac d) s _ _
          (destroy_target_snapshot-IsMiddle evac.metadata.name st open')
          (destroy_target_snapshot-IsLeft evac.metadata.name st)
          (λ s' result left.
            after_snapshot-Watched st source s' result open' left (λ st' o e. h st' s' o e))
          (λ _ _. tt)

    -- All that comes after the resources of the transfer, where it is watched.
    from_transfer :
        (st : EvacuationStatus) (s : Bool)
        → is_terminal st.phase ≡ false
        → ((source : SourceInfo) (s' : Bool)
            → st.source ≡ some source
            → Watched evac d s' (clean_target evac st source))
        → Watched evac d s (cleaning_up evac st)
    unfolding cleaning_up
    from_transfer st s open' h =
        Safe-require (duty_watch evac d) (Anyway evac d) s (λ _. tt) st.source _ _
          λ source at. after_middle evac d s _ _ (transfer_gone-IsMiddle evac st) λ s' gone.
            Safe-if (duty_watch evac d) (Anyway evac d) s' gone _ _ (λ _. h source s' at)
              (λ _. IsMiddle-Watched evac d s' _ (wait-IsMiddle evac st _ 10 open'))

    -- The same, where that part performs the duty.
    gone_first :
        (st : EvacuationStatus)
        → is_terminal st.phase ≡ false
        → ((s : Bool) → Safe (duty_watch evac d) Gone s (transfer_gone evac st))
        → Watched evac d false (cleaning_up evac st)
    unfolding cleaning_up
    gone_first st open' h =
        Safe-require (duty_watch evac d) (Anyway evac d) false (λ _. tt) st.source _ _
          λ source at.
            Safe-bind (duty_watch evac d) Gone (Anyway evac d) false _ _ (h false) (onward source)
              (λ _ _ _. tt)
      where
        onward :
            (source : SourceInfo) (s' : Bool) (gone : Bool)
            → Gone s' (done gone)
            → Watched evac d s' (
                if gone
                then clean_target evac st source
                else wait evac.metadata.name st "waiting for transfer CRs to clean up" 10)
        onward source s' true at = free evac d s' _ at
        onward source s' false at = IsMiddle-Watched evac d s' _ (wait-IsMiddle evac st _ 10 open')

  -- The snapshot was read as absent, or the cleaning goes no further.
  snapshot-Watched :
      (target : TargetInfo) (t : TransferStatus) (st : EvacuationStatus) (source : SourceInfo)
      (s : Bool) (result : SnapResult)
      → is_terminal st.phase ≡ false
      → Cleaned s (done result)
      → IsLeft st result
      → Watched evac (snapshot_gone target t) s (after_snapshot evac source result)
  unfolding after_snapshot
  snapshot-Watched target t st source s (none, st') open' at left =
      free evac (snapshot_gone target t) s _ at
  snapshot-Watched target t st source s (some msg, st') open' at left =
      IsMiddle-Watched evac (snapshot_gone target t) s _
        (wait-IsMiddle evac st' msg 5 (ap is_terminal left.0 ∙ open'))

  -- The source's volume is read before the end.
  source-Watched :
      (st : EvacuationStatus) (source : SourceInfo) (s : Bool)
      → is_terminal st.phase ≡ false
      → Watched evac (source_gone source) s (clean_source evac st source)
  unfolding clean_source
  source-Watched st source s open' = (
    (λ e. cc),
    elim [
      | ok none ↦
          free evac (source_gone source) _ _ (shown s _ (eq→eqs source.volume_handle _ refl))
      | ok (some zv) ↦
          IsMiddle-Watched evac (source_gone source) _ _
            (destroy_source-IsMiddle evac st source zv open')
      | err e ↦ tt
    ],
  )

  -- In a status that is not terminal, CleaningUp records Completed, or lets the object go, only after
  -- the calls of the same reconciliation have shown that the move has left nothing of what is on
  -- record: the backup and the restore of the attempt, the snapshot on the target and the source's
  -- volume read as absent; the claim in no lock list; and the annotation absent from the PV or its
  -- removal accepted.
  pub cleaning_up-Watched :
      (st : EvacuationStatus) (d : Duty)
      → is_terminal st.phase ≡ false
      → IsOwed st d
      → Watched evac d false (cleaning_up evac st)
  unfolding transfer_gone clean_target after_snapshot clean_source complete
  cleaning_up-Watched st (backup_gone target t) open' owed =
      gone_first (backup_gone target t) st open' λ s.
        Safe-known (duty_watch evac (backup_gone target t)) Gone s st.transfer t _ _ owed
          (cleanup-backup-Gone evac target t s st)
  cleaning_up-Watched st (restore_gone target t) open' owed =
      gone_first (restore_gone target t) st open' λ s.
        Safe-known (duty_watch evac (restore_gone target t)) Gone s st.transfer t _ _ owed
          (cleanup-restore-Gone evac target t s st)
  cleaning_up-Watched st (snapshot_gone target t) open' owed =
      from_transfer (snapshot_gone target t) st false open' λ source s _.
        after_returning evac (snapshot_gone target t) Cleaned (IsLeft st) s _ _
          (destroy_target_snapshot-Cleaned evac target t st open' s owed.0 owed.1)
          (destroy_target_snapshot-IsLeft evac.metadata.name st)
          (λ s' result at left. snapshot-Watched target t st source s' result open' at left)
  cleaning_up-Watched st (source_gone source) open' owed =
      from_transfer (source_gone source) st false open' λ found s at.
        subst (λ x. Watched evac (source_gone source) s (clean_target evac st x))
          (some_inj source found (sym owed ∙ at))
          (clean_target-Watched (source_gone source) st source s open'
            λ st' s' o _. source-Watched st' source s' o)
  cleaning_up-Watched st (unlocked r) open' owed =
      from_transfer (unlocked r) st false open' λ source s _.
        clean_target-Watched (unlocked r) st source s open' λ st' s' o e.
          clean_source-Watched (unlocked r) st' source s' o λ s''.
            then_free evac (unlocked r) s'' _ _ (unlock_pvc-Performs evac r st' s'' (e ∙ owed))
  cleaning_up-Watched st trigger_off open' owed =
      from_transfer trigger_off st false open' λ source s _.
        clean_target-Watched trigger_off st source s open' λ st' s' o _.
          clean_source-Watched trigger_off st' source s' o λ s''.
            after_middle evac trigger_off s'' _ _ (unlock_pvc-IsMiddle st')
              λ x _. then_free evac trigger_off x _ _ (clear_trigger-Performs evac x)
  cleaning_up-Watched st (volume_gone target t) open' owed = absurd owed
  cleaning_up-Watched st (policy_back source orig) open' owed = absurd owed
  cleaning_up-Watched st (unguarded source) open' owed = absurd owed
