-- ===== src/Behaviour/Completion/Snapshot.antt =====
-- src/controller/transfer.rs, `destroy_target_snapshot`: what it leaves of the status.
use zfs_evacuation_controlle.Base.{
  String, Bool, true, false, [], Option, none, some, ◌≡◌, refl, arith, contains, unwrap_or, is_some,
}
use zfs_evacuation_controlle.Crd.Openebs.{ZfsSnapshot, zfs_finalizer, ZfsVolume}
use zfs_evacuation_controlle.Crd.Evacuation.{EvacuationStatus, TransferStatus, TargetInfo}
use zfs_evacuation_controlle.Effect.{
  M, ret, Kind, lift, try, create_snapshot, ◌>>=◌, ◌>>◌, Outcome, done, Returns, Returns-bind,
  Returns-after, Returns-if, Returns-option,
}
use zfs_evacuation_controlle.Controller.Context.{write_status}
use zfs_evacuation_controlle.Controller.Transfer.{
  SnapResult, destroying, target_snapshot_cr, mark_target_snap_delete_issued, with_message,
  await_snapshot, register_snapshot, delete_snapshot, dispose_snapshot, destroy_recorded,
  destroy_target_snapshot,
}
use zfs_evacuation_controlle.Controller.Steps.{strip_zfs_finalizer_if_node_gone, absent_or_there}
use zfs_evacuation_controlle.Controller.StateMachine.{is_terminal}
use zfs_evacuation_controlle.Behaviour.Unwinding.{
  IsMiddle, IsMiddle-bind, IsMiddle-lift, IsMiddle-if, IsMiddle-option,
}
use zfs_evacuation_controlle.Behaviour.Unwinding.Parts.{
  node_by_id-IsMiddle, strip-IsMiddle, absent_or_there-IsMiddle,
}

-- The status as it was, up to the record of the transfer.
abbrev pub IsLeft : EvacuationStatus → SnapResult → Type 0
IsLeft st result = (result.1.phase ≡ st.phase) × (result.1.pvc_ref ≡ st.pvc_ref)

abbrev IsMarked : EvacuationStatus → EvacuationStatus → Type 0
IsMarked st st' = (st'.phase ≡ st.phase) × (st'.pvc_ref ≡ st.pvc_ref)

-- Where the cleaning goes on, the duty is done.
abbrev pub Cleaned : Bool → Outcome SnapResult → Type 0
Cleaned s (done (none, st)) = s ≡ true
Cleaned s _ = Unit

module _ (name : String) (st : EvacuationStatus) where
  mark-IsMarked : Returns (IsMarked st) (mark_target_snap_delete_issued name st)
  unfolding mark_target_snap_delete_issued write_status
  mark-IsMarked = ground arith

  delete_snapshot-IsMarked :
      (t : TransferStatus) → Returns (IsMarked st) (delete_snapshot name t st)
  unfolding delete_snapshot
  delete_snapshot-IsMarked t = λ r. Returns-after (IsMarked st) _ _ (λ _. mark-IsMarked)

  with_message-IsLeft :
      (msg : String) (tree : M EvacuationStatus)
      → Returns (IsMarked st) tree
      → Returns (IsLeft st) (with_message msg tree)
  unfolding with_message
  with_message-IsLeft msg tree h = Returns-bind (IsMarked st) (IsLeft st) tree _ h (λ a m. m)

  await_snapshot-IsLeft :
      (t : TransferStatus) (target : TargetInfo) (cr : Option ZfsSnapshot)
      → Returns (IsLeft st) (await_snapshot t target st cr)
  unfolding await_snapshot
  await_snapshot-IsLeft t target none = (refl, refl)
  await_snapshot-IsLeft t target (some cr) =
      Returns-after (IsLeft st)
        (strip_zfs_finalizer_if_node_gone Kind.zfs_snapshot t.snap_name target.node_id)
        (λ _. ret (some destroying, st)) (λ _. (refl, refl))

  register_snapshot-IsLeft :
      (t : TransferStatus) (target : TargetInfo)
      → Returns (IsLeft st) (register_snapshot t target st)
  unfolding register_snapshot
  register_snapshot-IsLeft t target = λ r. Returns-after (IsLeft st) (lift r) _ by_volume
    where
      by_volume :
          (zv : Option ZfsVolume)
          → Returns (IsLeft st) (elim zv [
            | none ↦ ret (none, st)
            | some z ↦ do
              created ← try (create_snapshot (target_snapshot_cr target t.snap_name z.spec))
              absent_or_there created
              ret (some "registering target transfer snapshot", st)
          ])
      by_volume none = (refl, refl)
      by_volume (some z) = λ x.
          Returns-after (IsLeft st) (absent_or_there x)
            (λ _. ret (some "registering target transfer snapshot", st)) (λ _. (refl, refl))

  dispose_snapshot-IsLeft :
      (t : TransferStatus) (target : TargetInfo) (cr : ZfsSnapshot)
      → Returns (IsLeft st) (dispose_snapshot name t target st cr)
  unfolding dispose_snapshot
  dispose_snapshot-IsLeft t target cr =
      Returns-if (IsLeft st) cr.metadata.deleting _ _
        (with_message-IsLeft destroying (mark_target_snap_delete_issued name st) mark-IsMarked)
        (Returns-if (IsLeft st) (contains zfs_finalizer (unwrap_or [] cr.metadata.finalizers)) _ _
          (with_message-IsLeft destroying (delete_snapshot name t st) (delete_snapshot-IsMarked t))
          (Returns-after (IsLeft st) _ _ λ node. with_message-IsLeft _ _ (
            Returns-if (IsMarked st) (is_some node) _ _ (refl, refl) (delete_snapshot-IsMarked t))))

  destroy_recorded-IsLeft :
      (t : TransferStatus) (target : TargetInfo)
      → Returns (IsLeft st) (destroy_recorded name st t target)
  unfolding destroy_recorded
  destroy_recorded-IsLeft t target = λ r. Returns-after (IsLeft st) _ _ λ existing.
      Returns-if (IsLeft st) t.target_snap_delete_issued _ _
        (await_snapshot-IsLeft t target existing)
        (Returns-option (IsLeft st) existing _ _ (register_snapshot-IsLeft t target)
          (dispose_snapshot-IsLeft t target))

  pub destroy_target_snapshot-IsLeft : Returns (IsLeft st) (destroy_target_snapshot name st)
  unfolding destroy_target_snapshot
  destroy_target_snapshot-IsLeft =
      Returns-option (IsLeft st) st.transfer _ _ (refl, refl)
        λ t. Returns-option (IsLeft st) st.target _ _ (refl, refl) (destroy_recorded-IsLeft t)

  -- The part writes no terminal phase.
  module _ (open' : is_terminal st.phase ≡ false) where
    pub mark-IsMiddle : IsMiddle (mark_target_snap_delete_issued name st)
    unfolding mark_target_snap_delete_issued write_status
    mark-IsMiddle = (open', λ r. ground arith)

    pub delete_snapshot-IsMiddle : (t : TransferStatus) → IsMiddle (delete_snapshot name t st)
    unfolding delete_snapshot
    delete_snapshot-IsMiddle t = (refl, λ r. IsMiddle-lift r _ (λ _. mark-IsMiddle))

    with_message-IsMiddle :
        (msg : String) (tree : M EvacuationStatus)
        → IsMiddle tree
        → IsMiddle (with_message msg tree)
    unfolding with_message
    with_message-IsMiddle msg tree h = IsMiddle-bind tree _ h (λ _. tt)

    pub await_snapshot-IsMiddle :
        (t : TransferStatus) (target : TargetInfo) (cr : Option ZfsSnapshot)
        → IsMiddle (await_snapshot t target st cr)
    unfolding await_snapshot
    await_snapshot-IsMiddle t target none = tt
    await_snapshot-IsMiddle t target (some cr) =
        IsMiddle-bind _ _ (strip-IsMiddle Kind.zfs_snapshot t.snap_name target.node_id refl)
          (λ _. tt)

    pub register_snapshot-IsMiddle :
        (t : TransferStatus) (target : TargetInfo) → IsMiddle (register_snapshot t target st)
    unfolding register_snapshot
    register_snapshot-IsMiddle t target = (
      refl,
      λ r. IsMiddle-lift r _ λ zv.
          IsMiddle-option zv _ _ tt
            λ z. (refl, λ x. IsMiddle-bind _ _ (absent_or_there-IsMiddle x) (λ _. tt)),
    )

    dispose_snapshot-IsMiddle :
        (t : TransferStatus) (target : TargetInfo) (cr : ZfsSnapshot)
        → IsMiddle (dispose_snapshot name t target st cr)
    unfolding dispose_snapshot
    dispose_snapshot-IsMiddle t target cr =
        IsMiddle-if cr.metadata.deleting _ _ (with_message-IsMiddle _ _ mark-IsMiddle) (
          IsMiddle-if (contains zfs_finalizer (unwrap_or [] cr.metadata.finalizers)) _ _
            (with_message-IsMiddle _ _ (delete_snapshot-IsMiddle t))
            (IsMiddle-bind _ _ (node_by_id-IsMiddle target.node_id) λ node.
              with_message-IsMiddle _ _
                (IsMiddle-if (is_some node) _ _ tt (delete_snapshot-IsMiddle t))))

    pub destroy_target_snapshot-IsMiddle : IsMiddle (destroy_target_snapshot name st)
    unfolding destroy_target_snapshot destroy_recorded
    destroy_target_snapshot-IsMiddle = IsMiddle-option st.transfer _ _ tt λ t.
        IsMiddle-option st.target _ _ tt λ target. (
          refl,
          λ r. IsMiddle-lift r _ λ existing.
              IsMiddle-if t.target_snap_delete_issued _ _
                (await_snapshot-IsMiddle t target existing)
                (IsMiddle-option existing _ _ (register_snapshot-IsMiddle t target)
                  (dispose_snapshot-IsMiddle t target)),
        )
