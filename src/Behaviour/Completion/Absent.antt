-- ===== src/Behaviour/Completion/Absent.antt =====
-- src/controller/transfer.rs, `destroy_target_snapshot`: it lets the cleaning go on only without the
-- snapshot.
use zfs_evacuation_controlle.Base.{
  String, Bool, true, false, not, [], Option, none, some, ◌≡◌, refl, ◌||◌, ◌&&◌, eqs, eq→eqs,
  contains, unwrap_or, is_some, if◌then◌else◌,
}
use zfs_evacuation_controlle.Crd.Openebs.{ZfsSnapshot, zfs_finalizer}
use zfs_evacuation_controlle.Crd.Evacuation.{
  Evacuation, EvacuationStatus, TransferStatus, TargetInfo,
}
use zfs_evacuation_controlle.Effect.{
  M, ok, err, Kind, Safe, Safe-if, Safe-known, Outcome, done, raised,
}
use zfs_evacuation_controlle.Controller.Transfer.{
  SnapResult, with_message, await_snapshot, register_snapshot, dispose_snapshot, destroy_recorded,
  destroy_target_snapshot,
}
use zfs_evacuation_controlle.Controller.StateMachine.{is_terminal}
use zfs_evacuation_controlle.Behaviour.Unwinding.{
  snapshot_gone, duty_watch, IsMiddle, IsMiddle-if, middle, done_already,
}
use zfs_evacuation_controlle.Behaviour.Unwinding.Parts.{node_by_id-IsMiddle, strip-IsMiddle}
use zfs_evacuation_controlle.Behaviour.Unwinding.Gone.{shown}
use zfs_evacuation_controlle.Behaviour.Completion.Snapshot.{
  Cleaned, mark-IsMiddle, delete_snapshot-IsMiddle, await_snapshot-IsMiddle,
  register_snapshot-IsMiddle,
}

cleaned : (s : Bool) (o : Outcome SnapResult) → s ≡ true → Cleaned s o
cleaned s (done (none, st)) at = at
cleaned s (done (some msg, st)) at = tt
cleaned s (raised e) at = tt

module _ (evac : Evacuation) (target : TargetInfo) (t : TransferStatus) (st : EvacuationStatus)
    (open' : is_terminal st.phase ≡ false) where
  with_message-Cleaned :
      (s : Bool) (msg : String) (tree : M EvacuationStatus)
      → IsMiddle tree
      → Safe (duty_watch evac (snapshot_gone target t)) Cleaned s (with_message msg tree)
  unfolding with_message
  with_message-Cleaned s msg tree h =
      middle evac (snapshot_gone target t) Cleaned s tree _ h (λ _ _ _. tt) (λ _ _. tt)

  await_snapshot-Cleaned :
      (s : Bool) (cr : ZfsSnapshot)
      → Safe
          (duty_watch evac (snapshot_gone target t))
          Cleaned
          s
          (await_snapshot t target st (some cr))
  unfolding await_snapshot
  await_snapshot-Cleaned s cr =
      middle evac (snapshot_gone target t) Cleaned s _ _
        (strip-IsMiddle Kind.zfs_snapshot t.snap_name target.node_id refl) (λ _ _ _. tt) (λ _ _. tt)

  dispose_snapshot-Cleaned :
      (s : Bool) (cr : ZfsSnapshot)
      → Safe
          (duty_watch evac (snapshot_gone target t))
          Cleaned
          s
          (dispose_snapshot evac.metadata.name t target st cr)
  unfolding dispose_snapshot
  dispose_snapshot-Cleaned s cr =
      let name = evac.metadata.name in
      Safe-if (duty_watch evac (snapshot_gone target t)) Cleaned s cr.metadata.deleting _ _
        (λ _. with_message-Cleaned s _ _ (mark-IsMiddle name st open'))
        (λ _.
          Safe-if (duty_watch evac (snapshot_gone target t)) Cleaned s
            (contains zfs_finalizer (unwrap_or [] cr.metadata.finalizers)) _ _
            (λ _. with_message-Cleaned s _ _ (delete_snapshot-IsMiddle name st open' t))
            (λ _.
              middle evac (snapshot_gone target t) Cleaned s _ _
                (node_by_id-IsMiddle target.node_id)
                (λ s' node _.
                  with_message-Cleaned s' _ _
                    (IsMiddle-if (is_some node) _ _ tt (delete_snapshot-IsMiddle name st open' t)))
                (λ _ _. tt)))

  -- The snapshot is read first: what goes on without a message has read it as absent.
  existing-Cleaned :
      (s : Bool) (existing : Option ZfsSnapshot)
      → Safe
          (duty_watch evac (snapshot_gone target t))
          Cleaned
          (s || (eqs t.snap_name t.snap_name && not (is_some existing)))
          (if t.target_snap_delete_issued
            then await_snapshot t target st existing
            else elim existing [
              | none ↦ register_snapshot t target st
              | some cr ↦ dispose_snapshot evac.metadata.name t target st cr
            ])
  existing-Cleaned s none =
      done_already evac (snapshot_gone target t) Cleaned _ _
        (IsMiddle-if t.target_snap_delete_issued _ _
          (await_snapshot-IsMiddle evac.metadata.name st open' t target none)
          (register_snapshot-IsMiddle evac.metadata.name st open' t target))
        (shown s _ (eq→eqs t.snap_name _ refl)) cleaned
  existing-Cleaned s (some cr) =
      Safe-if (duty_watch evac (snapshot_gone target t)) Cleaned _ t.target_snap_delete_issued _ _
        (λ _. await_snapshot-Cleaned _ cr) (λ _. dispose_snapshot-Cleaned _ cr)

  pub destroy_target_snapshot-Cleaned :
      (s : Bool)
      → st.target ≡ some target
      → st.transfer ≡ some t
      → Safe
          (duty_watch evac (snapshot_gone target t))
          Cleaned
          s
          (destroy_target_snapshot evac.metadata.name st)
  unfolding destroy_target_snapshot destroy_recorded
  destroy_target_snapshot-Cleaned s at since =
      Safe-known (duty_watch evac (snapshot_gone target t)) Cleaned s st.transfer t _ _ since (
        Safe-known (duty_watch evac (snapshot_gone target t)) Cleaned s st.target target _ _ at
          ((λ e. cc), elim [ ok existing ↦ existing-Cleaned s existing | err e ↦ tt ]))
