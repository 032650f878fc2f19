-- ===== src/Authority/Promises.antt =====
-- src/controller/state_machine.rs, `reconcile`: what README.md promises of one reconciliation, cut
-- off after any of its calls, whatever the API server answers and the local senses show.
use zfs_evacuation_controlle.Base.{String, true, false, some, ◌≡◌, ◌≤◌, ◌⊎◌, subst, inl, inr}
use zfs_evacuation_controlle.Kube.{PersistentVolume}
use zfs_evacuation_controlle.Crd.Evacuation.{Evacuation, EvacuationStatus, Phase}
use zfs_evacuation_controlle.Effect.{
  Call, Kind, delete, create_pv, patch_reclaim_policy, replace_params, create_backup,
  create_restore,
}
use zfs_evacuation_controlle.Controller.Context.{Ctx}
use zfs_evacuation_controlle.Controller.StateMachine.{reconcile}
use zfs_evacuation_controlle.Controller.Transfer.{bkp_name, rst_name}
use zfs_evacuation_controlle.Crd.Openebs.{ZfsBackup, ZfsRestore}
use zfs_evacuation_controlle.Crd.Params.{EvacuationParams}
use zfs_evacuation_controlle.Authority.Diagram.{IsSound, Needs, IsCommitted, HasTarget}
use zfs_evacuation_controlle.Authority.Warrant.{
  Allowed, Recorded, MayDestroy, the_source, the_target, swapped, reclaimed, MaySetPolicy, retain,
  restore_by_abort, restore_by_swap, MayChangeLock, at_locking, at_closing, by_abort, by_cleanup,
}
use zfs_evacuation_controlle.Authority.Reconcile.{reconcile-Safely, status_of}
use zfs_evacuation_controlle.Authority.History.{
  Makes, Leaves, Onward, IsFrozen, rank, Leaves-Onward, Makes-Allowed,
}

-- What is recorded in the phases that need the whole of the swap.
committed_at : (s : EvacuationStatus) (p : Phase) → s.phase ≡ p → IsSound s → Needs p s
committed_at s p at sound = subst (λ q. Needs q s) at sound

module _ (ctx : Ctx) (evac : Evacuation) (sound : IsSound (status_of evac))
    (s : EvacuationStatus) where
  left : Leaves (status_of evac) (reconcile ctx evac) s → Onward (status_of evac) s
  left =
      Leaves-Onward evac (status_of evac) s (reconcile ctx evac) sound
        (reconcile-Safely ctx evac sound)

  made :
      (c : Call)
      → Makes (status_of evac) (reconcile ctx evac) s c
      → Onward (status_of evac) s × Allowed evac s c
  made c =
      Makes-Allowed evac (status_of evac) s (reconcile ctx evac) c sound
        (reconcile-Safely ctx evac sound)

  -- From a sound status, at whatever call the reconciliation stops, the phase that is then recorded
  -- is not before the one it started from, in the order of the diagram.
  pub phase_never_back :
      Leaves (status_of evac) (reconcile ctx evac) s → rank (status_of evac).phase ≤ rank s.phase
  phase_never_back run = (left run).ranked

  -- From a sound and committed status, at whatever call the reconciliation stops, the status is
  -- committed still, with the same source, claim, target and original reclaim policy.
  pub commit_is_final :
      (status_of evac).committed ≡ true
      → Leaves (status_of evac) (reconcile ctx evac) s
      → IsFrozen (status_of evac) s
  commit_is_final committed run = (left run).frozen committed

  -- From a sound status, a PV that is deleted is the evacuation's own, and at that moment Swapping
  -- and the commit are recorded with source, claim, target, transfer and both PV manifests.
  pub pv_deletion :
      (name : String)
      → Makes (status_of evac) (reconcile ctx evac) s (delete Kind.pv name)
      → (name ≡ evac.spec.pv_name) × (s.phase ≡ Phase.swapping) × IsCommitted s
  pv_deletion name run =
      let m = made (delete Kind.pv name) run in
      (m.1.0, m.1.1, committed_at s Phase.swapping m.1.1 m.0.sound)

  -- From a sound status, a PV is created only with Swapping recorded, and with all of the swap.
  pub pv_creation :
      (pv : PersistentVolume)
      → Makes (status_of evac) (reconcile ctx evac) s (create_pv pv)
      → (s.phase ≡ Phase.swapping) × IsCommitted s
  pv_creation pv run =
      let m = made (create_pv pv) run in (m.1.0, committed_at s Phase.swapping m.1.0 m.0.sound)

  -- The source after the swap; the source of an abort under the policy Delete; or the target of an
  -- abort.
  abbrev pub DestructionOf : String → Type 0
  DestructionOf name =
      (Recorded s.source (λ x. x.volume_handle ≡ name)
        × (s.phase ≡ Phase.cleaning_up)
        × IsCommitted s)
      ⊎ (Recorded s.source (λ x. x.volume_handle ≡ name)
          × (s.phase ≡ Phase.aborting)
          × (s.committed ≡ false)
          × (s.original_reclaim_policy ≡ some "Delete"))
      ⊎ (Recorded s.target (λ x. x.new_volume_handle ≡ name)
          × (s.phase ≡ Phase.aborting)
          × (s.committed ≡ false))

  destruction_lem : (name : String) → IsSound s → MayDestroy s name → DestructionOf name
  destruction_lem name now (the_source r (swapped at c)) =
      inl (r, at, committed_at s Phase.cleaning_up at now)
  destruction_lem name now (the_source r (reclaimed at p)) =
      inr (inl (r, at, committed_at s Phase.aborting at now, p))
  destruction_lem name now (the_target r at) =
      inr (inr (r, at, committed_at s Phase.aborting at now))

  -- From a sound status, a ZFSVolume that is deleted is the recorded source's in CleaningUp, with the
  -- whole swap committed; or the source's in an abort whose original policy is Delete; or the
  -- target's in an abort. Both aborts are uncommitted.
  pub dataset_destruction :
      (name : String)
      → Makes (status_of evac) (reconcile ctx evac) s (delete Kind.zfs_volume name)
      → DestructionOf name
  dataset_destruction name run =
      let m = made (delete Kind.zfs_volume name) run in destruction_lem name m.0.sound m.1

  abbrev pub PolicyOf : String → String → Type 0
  PolicyOf name policy =
      (name ≡ evac.spec.pv_name)
      × (((s.phase ≡ Phase.retaining) × (policy ≡ "Retain"))
          ⊎ ((s.original_reclaim_policy ≡ some policy)
              × ((s.phase ≡ Phase.aborting) ⊎ IsCommitted s)))

  policy_lem :
      (name policy : String)
      → IsSound s
      → (name ≡ evac.spec.pv_name) × MaySetPolicy s policy
      → PolicyOf name policy
  policy_lem name policy now (e, retain at p) = (e, inl (at, p))
  policy_lem name policy now (e, restore_by_abort at p) = (e, inr (p, inl at))
  policy_lem name policy now (e, restore_by_swap at c p) =
      (e, inr (p, inr (committed_at s Phase.swapping at now)))

  -- From a sound status, a reclaim policy is set on the evacuation's own PV only: to Retain in
  -- Retaining, or to the recorded original policy, in an abort or after the commit.
  pub policy_change :
      (name policy : String)
      → Makes (status_of evac) (reconcile ctx evac) s (patch_reclaim_policy name policy)
      → PolicyOf name policy
  policy_change name policy run =
      let m = made (patch_reclaim_policy name policy) run in policy_lem name policy m.0.sound m.1

  -- From a sound status, a backup is created only in Transferring, under the name of the attempt that
  -- is already recorded, with source, claim and target recorded and nothing committed.
  copy_intent :
      (b : ZfsBackup)
      → Makes (status_of evac) (reconcile ctx evac) s (create_backup b)
      → (s.phase ≡ Phase.transferring)
        × Recorded s.transfer (λ t. b.metadata.name ≡ bkp_name evac.metadata.name t.attempt)
        × HasTarget s
  copy_intent b run =
      let m = made (create_backup b) run in
      (m.1.0, m.1.1, committed_at s Phase.transferring m.1.0 m.0.sound)

  -- From a sound status, a restore is created only in Transferring, under the name of the attempt
  -- that is already recorded, with source, claim and target recorded and nothing committed.
  restore_intent :
      (r : ZfsRestore)
      → Makes (status_of evac) (reconcile ctx evac) s (create_restore r)
      → (s.phase ≡ Phase.transferring)
        × Recorded s.transfer (λ t. r.metadata.name ≡ rst_name evac.metadata.name t.attempt)
        × HasTarget s
  restore_intent r run =
      let m = made (create_restore r) run in
      (m.1.0, m.1.1, committed_at s Phase.transferring m.1.0 m.0.sound)

  -- In Transferring, under a name of the attempt on record, nothing being committed.
  abbrev pub Intends : Call → Type 0
  Intends (create_backup b) =
      (s.phase ≡ Phase.transferring)
      × Recorded s.transfer (λ t. b.metadata.name ≡ bkp_name evac.metadata.name t.attempt)
      × HasTarget s
  Intends (create_restore r) =
      (s.phase ≡ Phase.transferring)
      × Recorded s.transfer (λ t. r.metadata.name ≡ rst_name evac.metadata.name t.attempt)
      × HasTarget s
  Intends c = Unit

  -- From a sound status, a backup or a restore is created only in Transferring, under the name of the
  -- attempt that is already recorded, with source, claim and target recorded and nothing committed.
  pub transfer_intent : (c : Call) → Makes (status_of evac) (reconcile ctx evac) s c → Intends c
  transfer_intent (create_backup b) run = copy_intent b run
  transfer_intent (create_restore r) run = restore_intent r run
  transfer_intent c run = tt

  abbrev pub LockedOrClosing : Type 0
  LockedOrClosing =
      (s.phase ≡ Phase.locking)
      ⊎ (s.phase ≡ Phase.aborting)
      ⊎ ((s.phase ≡ Phase.cleaning_up) × IsCommitted s)

  lock_lem : IsSound s → MayChangeLock s.phase → LockedOrClosing
  lock_lem now (at_locking at) = inl at
  lock_lem now (at_closing (by_abort at)) = inr (inl at)
  lock_lem now (at_closing (by_cleanup at)) =
      inr (inr (at, committed_at s Phase.cleaning_up at now))

  -- From a sound status, an existing lock list is rewritten only in Locking, in an abort, or in
  -- CleaningUp after the commit.
  pub lock_change :
      (p : EvacuationParams)
      → Makes (status_of evac) (reconcile ctx evac) s (replace_params p)
      → LockedOrClosing
  lock_change p run = let m = made (replace_params p) run in lock_lem m.0.sound m.1
