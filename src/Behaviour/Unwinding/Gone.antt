-- ===== src/Behaviour/Unwinding/Gone.antt =====
-- src/controller/transfer.rs, `cleanup_transfer_crs`: it tells that all is gone only where it has read so.
use zfs_evacuation_controlle.Base.{
  String, Bool, true, false, ◌&&◌, ◌||◌, Option, none, some, ◌≡◌, refl, arith, eq→eqs,
}
use zfs_evacuation_controlle.Crd.Evacuation.{
  Evacuation, EvacuationStatus, TargetInfo, TransferStatus,
}
use zfs_evacuation_controlle.Effect.{ok, err, Kind, Safe, Safe-bind, Outcome, done}
use zfs_evacuation_controlle.Controller.Transfer.{
  bkp_name, rst_name, cleanup_backup, cleanup_restore, cleanup_transfer_crs,
}
use zfs_evacuation_controlle.Behaviour.Unwinding.{backup_gone, restore_gone, duty_watch, middle}
use zfs_evacuation_controlle.Behaviour.Unwinding.Parts.{
  delete_or_strip-IsMiddle, cleanup_backup-IsMiddle, cleanup_restore-IsMiddle,
}

-- Where a cleanup tells that all is gone, the duty is done.
abbrev pub Gone : Bool → Outcome Bool → Type 0
Gone s (done true) = s ≡ true
Gone s _ = Unit

pub shown : (s b : Bool) → b ≡ true → (s || (b && true)) ≡ true
shown s b h = ground arith

-- Of the two cleanups, the first keeps its finding, and the second has it last.
backup_first :
    (s s' b r : Bool) → Gone s (done b) → (s ≡ true → s' ≡ true) → Gone s' (done (b && r))
backup_first s s' true true h kept = kept h
backup_first s s' true false h kept = tt
backup_first s s' false r h kept = tt

restore_last : (s b r : Bool) → Gone s (done r) → Gone s (done (b && r))
restore_last s true r h = h
restore_last s false r h = tt

module _ (evac : Evacuation) (target : TargetInfo) (t : TransferStatus) where
  cleanup_backup-Gone :
      (s : Bool) (id : Option String)
      → Safe
          (duty_watch evac (backup_gone target t))
          Gone
          s
          (cleanup_backup (bkp_name evac.metadata.name t.attempt) id)
  unfolding cleanup_backup
  cleanup_backup-Gone s id = (
    (λ e. cc),
    elim [
      | ok none ↦ shown s _ (eq→eqs (bkp_name evac.metadata.name t.attempt) _ refl)
      | ok (some c) ↦
          middle evac (backup_gone target t) Gone _ _ _
            (delete_or_strip-IsMiddle Kind.zfs_backup _ c.metadata.deleting id refl) (λ _ _ _. tt)
            (λ _ _. tt)
      | err e ↦ tt
    ],
  )

  cleanup_restore-Gone :
      (s : Bool) (id : Option String)
      → Safe
          (duty_watch evac (restore_gone target t))
          Gone
          s
          (cleanup_restore (rst_name evac.metadata.name t.attempt) id)
  unfolding cleanup_restore
  cleanup_restore-Gone s id = (
    (λ e. cc),
    elim [
      | ok none ↦ shown s _ (eq→eqs (rst_name evac.metadata.name t.attempt) _ refl)
      | ok (some c) ↦
          middle evac (restore_gone target t) Gone _ _ _
            (delete_or_strip-IsMiddle Kind.zfs_restore _ c.metadata.deleting id refl) (λ _ _ _. tt)
            (λ _ _. tt)
      | err e ↦ tt
    ],
  )

  pub cleanup-backup-Gone :
      (s : Bool) (st : EvacuationStatus)
      → Safe
          (duty_watch evac (backup_gone target t))
          Gone
          s
          (cleanup_transfer_crs evac.metadata.name t.attempt st)
  unfolding cleanup_transfer_crs
  cleanup-backup-Gone s st =
      Safe-bind (duty_watch evac (backup_gone target t)) Gone Gone s _ _ (cleanup_backup-Gone s _)
        (λ s' b h.
          middle evac (backup_gone target t) Gone s' _ _ (cleanup_restore-IsMiddle _ _)
            (λ s'' r kept. backup_first s' s'' b r h kept) (λ _ _. tt))
        (λ _ _ _. tt)

  pub cleanup-restore-Gone :
      (s : Bool) (st : EvacuationStatus)
      → Safe
          (duty_watch evac (restore_gone target t))
          Gone
          s
          (cleanup_transfer_crs evac.metadata.name t.attempt st)
  unfolding cleanup_transfer_crs
  cleanup-restore-Gone s st =
      middle evac (restore_gone target t) Gone s _ _ (cleanup_backup-IsMiddle _ _)
        (λ s' b _.
          Safe-bind (duty_watch evac (restore_gone target t)) Gone Gone s' _ _
            (cleanup_restore-Gone s' _) (λ s'' r h. restore_last s'' b r h) (λ _ _ _. tt))
        (λ _ _. tt)
