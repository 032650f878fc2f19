-- ===== src/Authority/Cleanup.antt =====
-- src/controller/state_machine.rs, `cleaning_up`, and the snapshot of src/controller/transfer.rs.
use zfs_evacuation_controlle.Base.{
  String, Option, none, some, [], ◌∙◌, ◌≡◌, refl, sym, subst, arith, is_some, unwrap_or, contains,
}
use zfs_evacuation_controlle.Crd.Openebs.{ZfsSnapshot, zfs_finalizer}
use zfs_evacuation_controlle.Crd.Evacuation.{
  Evacuation, EvacuationStatus, Phase, SourceInfo, TargetInfo, TransferStatus,
}
use zfs_evacuation_controlle.Effect.{M, Kind, Outcome, done, raised, Safe, Safe-bind, ok, err}
use zfs_evacuation_controlle.Controller.Context.{write_status}
use zfs_evacuation_controlle.Controller.Transfer.{
  SnapResult, mark_target_snap_delete_issued, await_snapshot, register_snapshot, delete_snapshot,
  dispose_snapshot, destroy_recorded, destroy_target_snapshot, target_snapshot_cr, with_message,
}
use zfs_evacuation_controlle.Controller.Phases.{
  after_snapshot, clean_target, transfer_gone, cleaning_up,
}
use zfs_evacuation_controlle.Authority.Diagram.{IsCommitted}
use zfs_evacuation_controlle.Authority.Warrant.{authority}
use zfs_evacuation_controlle.Authority.Rules.{
  Anyhow, Safely, Stays, Safe-Stays, option-Stays, require-Safely, Stays-Safely, if-Safely, if-Safe,
  lift-Safe, option-Safe,
}
use zfs_evacuation_controlle.Authority.Steps.{
  Any, wait-Safely, node_by_id-Stays, strip_zfs_finalizer-Stays, absent_or_there-Stays,
}
use zfs_evacuation_controlle.Authority.Transfer.{cleanup_transfer_crs-Stays}
use zfs_evacuation_controlle.Authority.Finish.{clean_source-Safely}

-- The status that the removal of the snapshot leaves is the recorded one.
record Kept (s st : EvacuationStatus) : Type 0 where
  phase : st.phase ≡ Phase.cleaning_up
  sound : IsCommitted st
  source : st.source ≡ s.source

abbrev Marked : EvacuationStatus → EvacuationStatus → Outcome EvacuationStatus → Type 0
Marked s s' (done st) = (s' ≡ st) × Kept s st
Marked s s' (raised e) = Unit

abbrev Settled : EvacuationStatus → EvacuationStatus → Outcome SnapResult → Type 0
Settled s s' (done r) = (s' ≡ r.1) × Kept s r.1
Settled s s' (raised e) = Unit

module _ (evac : Evacuation) (st : EvacuationStatus) where
  module _ (at : st.phase ≡ Phase.cleaning_up) (sound : IsCommitted st) where
    unchanged : Kept st st
    unchanged = record { phase = at; sound = sound; source = refl }

    with_message-Safe :
        (msg : String) (m : M EvacuationStatus)
        → Safe (authority evac) (Marked st) st m
        → Safe (authority evac) (Settled st) st (with_message msg m)
    unfolding with_message
    with_message-Safe msg m h =
        Safe-bind (authority evac) (Marked st) (Settled st) st m _ h (λ s' st' k. k) (λ s' e k. tt)

    module _ (t : TransferStatus) (e : st.transfer ≡ some t) where
      mark-Safe :
          Safe
            (authority evac)
            (Marked st)
            st
            (mark_target_snap_delete_issued evac.metadata.name st)
      unfolding mark_target_snap_delete_issued write_status
      mark-Safe = ((refl, ground arith), elim [ ok _ ↦ (refl, ground arith) | err x ↦ tt ])

      delete_snapshot-Safe :
          Safe (authority evac) (Marked st) st (delete_snapshot evac.metadata.name t st)
      unfolding delete_snapshot
      delete_snapshot-Safe =
          ((at, rw e refl), λ r. lift-Safe evac (Marked st) st (λ x. tt) r _ (λ _ _. mark-Safe))

      dispose_snapshot-Safe :
          (target : TargetInfo) (cr : ZfsSnapshot)
          → Safe
              (authority evac)
              (Settled st)
              st
              (dispose_snapshot evac.metadata.name t target st cr)
      unfolding dispose_snapshot
      dispose_snapshot-Safe target cr =
          if-Safe evac (Settled st) st cr.metadata.deleting _ _
            (λ _. with_message-Safe _ _ mark-Safe)
            (λ _.
              if-Safe evac (Settled st) st
                (contains zfs_finalizer (unwrap_or [] cr.metadata.finalizers)) _ _
                (λ _. with_message-Safe _ _ delete_snapshot-Safe)
                (λ _.
                  Safe-Stays evac Any (Settled st) st _ _ (node_by_id-Stays evac st _)
                    (λ node _. with_message-Safe _ _ (
                      if-Safe evac (Marked st) st (is_some node) _ _ (λ _. (refl, unchanged))
                        (λ _. delete_snapshot-Safe)))
                    (λ x. tt)))

      register_snapshot-Safe :
          (target : TargetInfo)
          → Safe (authority evac) (Settled st) st (register_snapshot t target st)
      unfolding register_snapshot target_snapshot_cr
      register_snapshot-Safe target = (
        tt,
        λ r.
            lift-Safe evac (Settled st) st (λ x. tt) r _
              elim [
                | none ↦ λ _. (refl, unchanged)
                | some z ↦ λ _. (
                  (at, rw e refl),
                  λ q.
                      Safe-Stays evac Any (Settled st) st _ _ (absent_or_there-Stays evac st q)
                        (λ _ _. (refl, unchanged)) (λ x. tt),
                )
              ],
      )

      await_snapshot-Safe :
          (target : TargetInfo) (existing : Option ZfsSnapshot)
          → Safe (authority evac) (Settled st) st (await_snapshot t target st existing)
      unfolding await_snapshot
      await_snapshot-Safe target none = (refl, unchanged)
      await_snapshot-Safe target (some cr) =
          Safe-Stays evac Any (Settled st) st _ _
            (strip_zfs_finalizer-Stays evac st Kind.zfs_snapshot t.snap_name target.node_id
              (λ fins. tt))
            (λ _ _. (refl, unchanged)) (λ x. tt)

      destroy_recorded-Safe :
          (target : TargetInfo)
          → Safe (authority evac) (Settled st) st (destroy_recorded evac.metadata.name st t target)
      unfolding destroy_recorded
      destroy_recorded-Safe target = (
        tt,
        λ r.
            lift-Safe evac (Settled st) st (λ x. tt) r _
              λ existing _.
                if-Safe evac (Settled st) st t.target_snap_delete_issued _ _
                  (λ _. await_snapshot-Safe target existing)
                  (λ _.
                    option-Safe evac (Settled st) st existing _ _
                      (λ _. register_snapshot-Safe target)
                      (λ cr _. dispose_snapshot-Safe target cr)),
      )

    destroy_target_snapshot-Safe :
        Safe (authority evac) (Settled st) st (destroy_target_snapshot evac.metadata.name st)
    unfolding destroy_target_snapshot
    destroy_target_snapshot-Safe =
        option-Safe evac (Settled st) st st.transfer _ _ (λ _. (refl, unchanged))
          λ t e.
            option-Safe evac (Settled st) st st.target _ _ (λ _. (refl, unchanged))
              (λ target _. destroy_recorded-Safe t e target)

    after_snapshot-Safely :
        (source : SourceInfo) (r : SnapResult)
        → st.source ≡ some source
        → Kept st r.1
        → Safely evac r.1 (after_snapshot evac source r)
    unfolding after_snapshot
    after_snapshot-Safely source (none, st') e k =
        clean_source-Safely evac st' k.phase k.sound source (k.source ∙ e)
    after_snapshot-Safely source (some m, st') e k =
        let p = k.phase in let q = k.sound in wait-Safely evac st' st' m 5 (ground arith)

    clean_target-Safely :
        (source : SourceInfo)
        → st.source ≡ some source
        → Safely evac st (clean_target evac st source)
    unfolding clean_target
    clean_target-Safely source e =
        Safe-bind (authority evac) (Settled st) (Anyhow evac) st _ _ destroy_target_snapshot-Safe
          (λ s' r k.
            subst (λ z. Safely evac z (after_snapshot evac source r)) (sym k.0)
              (after_snapshot-Safely source r e k.1))
          (λ s' x _. tt)

    transfer_gone-Stays : Stays evac st Any (transfer_gone evac st)
    unfolding transfer_gone
    transfer_gone-Stays =
        option-Stays evac st Any st.transfer _ _ (λ _. tt)
          (λ t e. cleanup_transfer_crs-Stays evac st t st e)

    pub cleaning_up-Safely : Safely evac st (cleaning_up evac st)
    unfolding cleaning_up
    cleaning_up-Safely = require-Safely evac st st.source _ _ λ source e.
        Stays-Safely evac st Any _ _ transfer_gone-Stays λ gone _.
          if-Safely evac st gone _ _ (λ _. clean_target-Safely source e)
            (λ _. wait-Safely evac st st _ 10 (ground arith))
