-- ===== src/Behaviour/Unwinding/Target.antt =====
-- src/controller/abort.rs, `run`: the part that undoes the transfer and the target, which lets the
-- unwinding go on only once they are gone.
use zfs_evacuation_controlle.Base.{
  String, Bool, true, false, Option, none, some, ◌≡◌, refl, arith, eqs, eq→eqs, and_then,
  is_some_and, if◌then◌else◌,
}
use zfs_evacuation_controlle.Crd.Openebs.{ZfsVolume, ZfsRestore, bkp_status_done}
use zfs_evacuation_controlle.Crd.Evacuation.{
  Evacuation, EvacuationStatus, TargetInfo, TransferStatus,
}
use zfs_evacuation_controlle.Effect.{
  ret, ok, err, Kind, Safe, Safe-bind, Safe-if, Safe-known, Safe-option, Safe-require, Safe-lift,
  Outcome, done, raised,
}
use zfs_evacuation_controlle.Controller.Transfer.{cleanup_transfer_crs}
use zfs_evacuation_controlle.Controller.Abort.{
  Progress, later, requeue_msg, destroy_target, drop_transfer, adopt_orphan, undo_transfer,
  undo_target,
}
use zfs_evacuation_controlle.Controller.StateMachine.{is_terminal}
use zfs_evacuation_controlle.Behaviour.Unwinding.{
  Duty, volume_gone, backup_gone, restore_gone, duty_watch, IsMiddle-if, middle, done_already,
}
use zfs_evacuation_controlle.Behaviour.Unwinding.Parts.{
  strip-IsMiddle, absent_or_there-IsMiddle, requeue_msg-IsMiddle, drop_transfer-IsMiddle,
  adopt_orphan-IsMiddle,
}
use zfs_evacuation_controlle.Behaviour.Unwinding.Gone.{
  Gone, shown, cleanup-backup-Gone, cleanup-restore-Gone,
}

-- Where the unwinding goes on, the duty is done.
abbrev pub Finished : Bool → Outcome Progress → Type 0
Finished s (done none) = s ≡ true
Finished s _ = Unit

finished : (s : Bool) (o : Outcome Progress) → s ≡ true → Finished s o
finished s (done none) at = at
finished s (done (some a)) at = tt
finished s (raised e) at = tt

module _ (evac : Evacuation) (target : TargetInfo) (t : TransferStatus) where
  module _ (st : EvacuationStatus) (open' : is_terminal st.phase ≡ false) where
    module _ (d : Duty) where
      later-Finished :
          (s : Bool) (msg : String)
          → Safe (duty_watch evac d) Finished s (later (requeue_msg evac.metadata.name st msg))
      later-Finished s msg =
          middle evac d Finished s _ _ (requeue_msg-IsMiddle evac.metadata.name st open' msg)
            (λ _ _ _. tt) (λ _ _. tt)

      destroy_target-Finished :
          (s : Bool) (zv : ZfsVolume)
          → Safe (duty_watch evac d) Finished s (destroy_target evac.metadata.name st target zv)
      unfolding destroy_target
      destroy_target-Finished s zv =
          middle evac d Finished s _ _
            (IsMiddle-if zv.metadata.deleting _ _ tt (refl, λ r. ground arith))
            (λ s' _ _.
              middle evac d Finished s' _ _
                (strip-IsMiddle Kind.zfs_volume target.new_volume_handle target.node_id refl)
                (λ s'' _ _. later-Finished s'' _) (λ _ _. tt))
            (λ _ _. tt)

      -- A cleanup that is watched makes the same of `drop_transfer`.
      drop_transfer-Finished :
          ((s : Bool)
            → Safe
                (duty_watch evac d)
                Gone
                s
                (cleanup_transfer_crs evac.metadata.name t.attempt st))
          → (s : Bool) → Safe (duty_watch evac d) Finished s (drop_transfer evac.metadata.name st t)
      unfolding drop_transfer
      drop_transfer-Finished cleaned s =
          Safe-bind (duty_watch evac d) Gone Finished s _ _ (cleaned s) onward (λ _ _ _. tt)
        where
          onward :
              (s' : Bool) (gone : Bool)
              → Gone s' (done gone)
              → Safe (duty_watch evac d) Finished s' (
                  if gone
                  then ret none
                  else later (requeue_msg evac.metadata.name st "abort: cleaning up transfer CRs"))
          onward s' true at = at
          onward s' false at = later-Finished s' "abort: cleaning up transfer CRs"

      module _
          (dropped : (s : Bool)
            → Safe (duty_watch evac d) Finished s (drop_transfer evac.metadata.name st t)) where
        adopt_orphan-Finished :
            (s : Bool)
            → Safe (duty_watch evac d) Finished s (adopt_orphan evac.metadata.name st target t)
        unfolding adopt_orphan
        adopt_orphan-Finished s =
            Safe-require (duty_watch evac d) Finished s (λ _. tt) st.source _ _
              λ src _. (
                (λ e. cc),
                λ r.
                    Safe-lift (duty_watch evac d) Finished _ (λ _. tt) r _
                      λ found.
                        Safe-option (duty_watch evac d) Finished _ found _ _ (λ _. dropped _)
                          λ zv _. (
                            (λ e. cc),
                            λ x.
                                middle evac d Finished _ _ _ (absent_or_there-IsMiddle x)
                                  (λ s' _ _. later-Finished s' _) (λ _ _. tt),
                          ),
              )

        undo_transfer-Finished :
            (s : Bool)
            → Safe (duty_watch evac d) Finished s (undo_transfer evac.metadata.name st target t)
        unfolding undo_transfer
        undo_transfer-Finished s = (
          (λ e. cc),
          λ r.
              Safe-lift (duty_watch evac d) Finished _ (λ _. tt) r _
                λ rst. (
                  (λ e. cc),
                  λ x. Safe-lift (duty_watch evac d) Finished _ (λ _. tt) x _ (by_volume _ rst),
                ),
        )
          where
            by_volume :
                (s' : Bool) (rst : Option ZfsRestore) (found : Option ZfsVolume)
                → Safe (duty_watch evac d) Finished s' (elim found [
                  | some zv ↦ destroy_target evac.metadata.name st target zv
                  | none ↦
                      if is_some_and (λ y. eqs y bkp_status_done) (and_then rst (λ y. y.status))
                      then adopt_orphan evac.metadata.name st target t
                      else drop_transfer evac.metadata.name st t
                ])
            by_volume s' rst none =
                Safe-if (duty_watch evac d) Finished s'
                  (is_some_and (λ y. eqs y bkp_status_done) (and_then rst (λ y. y.status))) _ _
                  (λ _. adopt_orphan-Finished s') (λ _. dropped s')
            by_volume s' rst (some zv) = destroy_target-Finished s' zv

    -- The volume is read as absent before anything else is undone.
    volume-Finished :
        (s : Bool)
        → Safe
            (duty_watch evac (volume_gone target t))
            Finished
            s
            (undo_transfer evac.metadata.name st target t)
    unfolding undo_transfer
    volume-Finished s = (
      (λ e. cc),
      λ r.
          Safe-lift (duty_watch evac (volume_gone target t)) Finished _ (λ _. tt) r _
            λ rst. (
              (λ e. cc),
              elim [
                | ok none ↦
                    done_already evac (volume_gone target t) Finished _ _
                      (IsMiddle-if
                        (is_some_and (λ y. eqs y bkp_status_done) (and_then rst (λ y. y.status))) _
                        _ (adopt_orphan-IsMiddle evac.metadata.name st open' target t)
                        (drop_transfer-IsMiddle evac.metadata.name st open' t))
                      (shown _ _ (eq→eqs target.new_volume_handle _ refl)) finished
                | ok (some zv) ↦ destroy_target-Finished (volume_gone target t) _ zv
                | err e ↦ tt
              ],
            ),
    )

    module _ (at : st.target ≡ some target) (since : st.transfer ≡ some t) where
      undo_target-Finished :
          (d : Duty) (s : Bool)
          → Safe (duty_watch evac d) Finished s (undo_transfer evac.metadata.name st target t)
          → Safe (duty_watch evac d) Finished s (undo_target evac.metadata.name st)
      unfolding undo_target
      undo_target-Finished d s h =
          Safe-known (duty_watch evac d) Finished s st.target target _ _ at
            (Safe-known (duty_watch evac d) Finished s st.transfer t _ _ since h)

      pub volume_gone-Finished :
          (s : Bool)
          → Safe
              (duty_watch evac (volume_gone target t))
              Finished
              s
              (undo_target evac.metadata.name st)
      volume_gone-Finished s = undo_target-Finished (volume_gone target t) s (volume-Finished s)

      pub backup_gone-Finished :
          (s : Bool)
          → Safe
              (duty_watch evac (backup_gone target t))
              Finished
              s
              (undo_target evac.metadata.name st)
      backup_gone-Finished s = undo_target-Finished (backup_gone target t) s (
          undo_transfer-Finished (backup_gone target t)
            (drop_transfer-Finished (backup_gone target t)
              (λ x. cleanup-backup-Gone evac target t x st))
            s)

      pub restore_gone-Finished :
          (s : Bool)
          → Safe
              (duty_watch evac (restore_gone target t))
              Finished
              s
              (undo_target evac.metadata.name st)
      restore_gone-Finished s = undo_target-Finished (restore_gone target t) s (
          undo_transfer-Finished (restore_gone target t)
            (drop_transfer-Finished (restore_gone target t)
              (λ x. cleanup-restore-Gone evac target t x st))
            s)
