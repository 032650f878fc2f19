-- ===== src/Behaviour/Unwinding/Run.antt =====
-- src/controller/abort.rs, `run`: an abort ends only when all is undone.
use zfs_evacuation_controlle.Base.{Bool, false, none, some, ◌≡◌, refl, arith}
use zfs_evacuation_controlle.Crd.Evacuation.{Evacuation, EvacuationStatus, Phase}
use zfs_evacuation_controlle.Effect.{ret, ◌>>=◌, Safe, Safe-bind, done}
use zfs_evacuation_controlle.Controller.Context.{write_status}
use zfs_evacuation_controlle.Controller.Abort.{Progress, is_aborting, undo_target, unwind, run}
use zfs_evacuation_controlle.Controller.StateMachine.{is_terminal}
use zfs_evacuation_controlle.Behaviour.Unwinding.{
  Duty, volume_gone, backup_gone, restore_gone, policy_back, unlocked, unguarded, source_gone,
  snapshot_gone, trigger_off, IsDue, duty_watch, Anyway, Watched, IsMiddle-if,
}
use zfs_evacuation_controlle.Behaviour.Unwinding.Sequence.{free, after_middle, then_free}
use zfs_evacuation_controlle.Behaviour.Unwinding.Parts.{
  drop_relay-IsMiddle, undo_target-IsMiddle, restore_policy-IsMiddle, unlock_pvc-IsMiddle,
}
use zfs_evacuation_controlle.Behaviour.Unwinding.Performed.{
  restore_policy-Performs, release_source-Performs,
}
use zfs_evacuation_controlle.Behaviour.Unwinding.Unlocking.{unlock_pvc-Performs}
use zfs_evacuation_controlle.Behaviour.Unwinding.Target.{
  Finished, volume_gone-Finished, backup_gone-Finished, restore_gone-Finished,
}

module _ (evac : Evacuation) where
  module _ (d : Duty) where
    -- After the target, where that part performs the duty, or else the unwinding does.
    on_early :
        (st : EvacuationStatus) (s : Bool) (early : Progress)
        → (early ≡ none → Watched evac d s (unwind evac st))
        → Watched evac d s (elim early [ some action ↦ ret action | none ↦ unwind evac st ])
    on_early st s none h = h refl
    on_early st s (some action) h = tt

    finished_first :
        (st : EvacuationStatus) (s : Bool)
        → Safe (duty_watch evac d) Finished s (undo_target evac.metadata.name st)
        → Watched evac d s (
            undo_target evac.metadata.name st >>= λ early. elim early [
              | some action ↦ ret action
              | none ↦ unwind evac st
            ])
    finished_first st s h =
        Safe-bind (duty_watch evac d) Finished (Anyway evac d) s _ _ h onward (λ _ _ _. tt)
      where
        onward :
            (s' : Bool) (early : Progress)
            → Finished s' (done early)
            → Watched evac d s' (elim early [ some action ↦ ret action | none ↦ unwind evac st ])
        onward s' none at = free evac d s' (unwind evac st) at
        onward s' (some action) at = tt

    unwound_later :
        (st : EvacuationStatus) (s : Bool)
        → is_terminal st.phase ≡ false
        → ((s' : Bool) → Watched evac d s' (unwind evac st))
        → Watched evac d s (
            undo_target evac.metadata.name st >>= λ early. elim early [
              | some action ↦ ret action
              | none ↦ unwind evac st
            ])
    unwound_later st s open' h =
        after_middle evac d s _ _ (undo_target-IsMiddle evac.metadata.name st open')
          (λ s' early. on_early st s' early (λ _. h s'))

  -- From where the target is undone, each duty in its place.
  rest-Watched :
      (st : EvacuationStatus) (d : Duty) (s : Bool)
      → is_terminal st.phase ≡ false
      → IsDue st d
      → Watched evac d s (
          undo_target evac.metadata.name st >>= λ early. elim early [
            | some action ↦ ret action
            | none ↦ unwind evac st
          ])
  unfolding unwind
  rest-Watched st (volume_gone target t) s open' due =
      finished_first (volume_gone target t) st s
        (volume_gone-Finished evac target t st open' due.0 due.1 s)
  rest-Watched st (backup_gone target t) s open' due =
      finished_first (backup_gone target t) st s
        (backup_gone-Finished evac target t st open' due.0 due.1 s)
  rest-Watched st (restore_gone target t) s open' due =
      finished_first (restore_gone target t) st s
        (restore_gone-Finished evac target t st open' due.0 due.1 s)
  rest-Watched st (policy_back source orig) s open' due =
      unwound_later (policy_back source orig) st s open' λ s'.
        then_free evac (policy_back source orig) s' _ _
          (restore_policy-Performs evac source orig st s' due.0 due.1)
  rest-Watched st (unlocked r) s open' due = unwound_later (unlocked r) st s open' λ s'.
      after_middle evac (unlocked r) s' _ _ (restore_policy-IsMiddle evac st)
        λ s'' _. then_free evac (unlocked r) s'' _ _ (unlock_pvc-Performs evac r st s'' due)
  rest-Watched st (unguarded source) s open' due = unwound_later (unguarded source) st s open' λ s'.
      after_middle evac (unguarded source) s' _ _ (restore_policy-IsMiddle evac st) λ s'' _.
        after_middle evac (unguarded source) s'' _ _ (unlock_pvc-IsMiddle st) λ s''' _.
          then_free evac (unguarded source) s''' _ _
            (release_source-Performs evac source st s''' due)
  rest-Watched st (source_gone source) s open' due = absurd due
  rest-Watched st (snapshot_gone target t) s open' due = absurd due
  rest-Watched st trigger_off s open' due = absurd due

  aborting-IsDue :
      (st : EvacuationStatus) (d : Duty)
      → IsDue st d
      → IsDue (record st { phase = Phase.aborting }) d
  aborting-IsDue st (volume_gone target t) due = due
  aborting-IsDue st (backup_gone target t) due = due
  aborting-IsDue st (restore_gone target t) due = due
  aborting-IsDue st (policy_back source orig) due = due
  aborting-IsDue st (unlocked r) due = due
  aborting-IsDue st (unguarded source) due = due
  aborting-IsDue st (source_gone source) due = due
  aborting-IsDue st (snapshot_gone target t) due = due
  aborting-IsDue st trigger_off due = due

  -- In an abort, Failed is recorded, or the object is let go, only after the calls of the same
  -- reconciliation have shown that each thing on record is undone: the target's volume, and the backup
  -- and the restore of the attempt, read as absent; the original reclaim policy set, or the PV gone or
  -- another; the claim in no lock list; and no guard on the source's volume.
  pub run-Watched :
      (st : EvacuationStatus) (d : Duty) → IsDue st d → Watched evac d false (run evac st)
  unfolding run write_status
  run-Watched st d due =
      after_middle evac d false _ _
        (IsMiddle-if (is_aborting st.phase) _ _ tt (refl, λ r. ground arith))
        λ s _. after_middle evac d s _ _ (drop_relay-IsMiddle evac.metadata.name) λ s' _.
          rest-Watched (record st { phase = Phase.aborting }) d s' refl (aborting-IsDue st d due)
