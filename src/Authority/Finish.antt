-- ===== src/Authority/Finish.antt =====
-- src/controller/state_machine.rs, `adopting` and `cleaning_up`, and the removal of the transfer
-- snapshot in src/controller/transfer.rs, under the authority monitor.
use zfs_evacuation_controlle.Base.{
  String, Option, none, some, ◌≡◌, refl, arith, is_some, eqs, unwrap_or, and_then, lookup,
}
use zfs_evacuation_controlle.Crd.Openebs.{ZfsVolume, zfs_status_ready}
use zfs_evacuation_controlle.Crd.Evacuation.{
  Evacuation, EvacuationStatus, Phase, SourceInfo, TargetInfo, evacuate_annotation,
}
use zfs_evacuation_controlle.Effect.{Kind, Safe-bind}
use zfs_evacuation_controlle.Controller.Context.{write_status}
use zfs_evacuation_controlle.Controller.Steps.{target_zfsvolume}
use zfs_evacuation_controlle.Controller.PvSwap.{abort_with}
use zfs_evacuation_controlle.Controller.Abort.{unlock_pvc}
use zfs_evacuation_controlle.Controller.Phases.{
  register_volume, check_adoption, adopting, destroy_source, clear_trigger, record_completed,
  complete, clean_source,
}
use zfs_evacuation_controlle.Authority.Diagram.{HasTransfer, IsCommitted}
use zfs_evacuation_controlle.Authority.Warrant.{
  MayChangeLock, at_closing, by_cleanup, the_source, swapped, to_free_source, authority,
}
use zfs_evacuation_controlle.Authority.Rules.{
  Anyhow, Safely, Stays, Stays-bind, if-Stays, lift-Stays, option-Stays, require-Safely,
  lift-Safely, Stays-Safely, if-Safely,
}
use zfs_evacuation_controlle.Authority.Steps.{
  Any, advance-Safely, wait-Safely, strip_zfs_finalizer-Stays, set_finalizers-Stays,
  update_params-Stays, remove_evac_finalizer-Stays,
}

module _ (evac : Evacuation) (st : EvacuationStatus) where
  module _ (at : st.phase ≡ Phase.adopting) (sound : HasTransfer st) where
    check_adoption-Safely : (zv : ZfsVolume) → Safely evac st (check_adoption evac st zv)
    unfolding check_adoption abort_with write_status
    check_adoption-Safely zv =
        if-Safely evac st (eqs (unwrap_or "" zv.state) zfs_status_ready) _ _
          (λ _. advance-Safely evac st st Phase.committing (ground arith))
          (λ _.
            if-Safely evac st (eqs (unwrap_or "" zv.state) "Failed") _ _ (λ _. ground arith)
              (λ _. wait-Safely evac st st _ 5 (ground arith)))

    register_volume-Safely :
        (source : SourceInfo) (target : TargetInfo)
        → st.target ≡ some target
        → Safely evac st (register_volume source target)
    unfolding register_volume target_zfsvolume
    register_volume-Safely source target e = (
      tt,
      λ r.
          lift-Safely evac st r _
            λ found _. require-Safely evac st found _ _ λ src _. (rw e refl, λ q. ground arith),
    )

    pub adopting-Safely : Safely evac st (adopting evac st)
    unfolding adopting
    adopting-Safely = require-Safely evac st st.source _ _ λ source _.
        require-Safely evac st st.target _ _ λ target e. (
          tt,
          λ r. lift-Safely evac st r _ elim [
            | none ↦ λ _. register_volume-Safely source target e
            | some zv ↦ λ _. check_adoption-Safely zv
          ],
        )

  pub unlock_pvc-Stays : MayChangeLock st.phase → Stays evac st Any (unlock_pvc st)
  unfolding unlock_pvc
  unlock_pvc-Stays may =
      option-Stays evac st Any st.pvc_ref _ _ (λ _. tt)
        λ r _.
          Stays-bind evac Any Any st _ _ (update_params-Stays evac st _ may)
            (λ _ _. (refl, may, λ q. tt))

  module _ (at : st.phase ≡ Phase.cleaning_up) (sound : IsCommitted st) where
    destroy_source-Safely :
        (source : SourceInfo) (zv : ZfsVolume)
        → st.source ≡ some source
        → Safely evac st (destroy_source evac st source zv)
    unfolding destroy_source
    destroy_source-Safely source zv e =
        Stays-Safely evac st Any _ _
          (if-Stays evac st Any zv.metadata.deleting _ _ tt
            (refl, the_source (rw e refl) (swapped at sound.committed), λ r. ground arith))
          λ _ _.
            Stays-Safely evac st Any _ _
              (set_finalizers-Stays evac st Kind.zfs_volume source.volume_handle _
                (λ fins. to_free_source (rw e refl) (by_cleanup at)))
              λ _ _.
                Stays-Safely evac st Any _ _
                  (strip_zfs_finalizer-Stays evac st Kind.zfs_volume source.volume_handle
                    source.node_id (λ fins. to_free_source (rw e refl) (by_cleanup at)))
                  (λ _ _. wait-Safely evac st st _ 10 (ground arith))

    clear_trigger-Stays : Stays evac st Any (clear_trigger evac)
    unfolding clear_trigger
    clear_trigger-Stays = (
      refl,
      tt,
      λ r. lift-Stays evac st Any r _ λ found.
          if-Stays evac st Any
            (is_some (
              and_then found (λ pv. and_then pv.metadata.annotations (lookup evacuate_annotation))))
            _ _ (refl, at, λ q. ground arith) tt,
    )

    record_completed-Safely :
        (msg : Option String) → Safely evac st (record_completed evac (record st { message = msg }))
    unfolding record_completed
    record_completed-Safely msg =
        Safe-bind (authority evac) (Anyhow evac) (Anyhow evac) st _ _
          (advance-Safely evac st (record st { message = msg }) Phase.completed (ground arith))
          (λ s' action _.
            Stays-Safely evac s' Any _ _ (remove_evac_finalizer-Stays evac s') (λ _ _. tt))
          (λ s' e _. tt)

    complete-Safely : Safely evac st (complete evac st)
    unfolding complete
    complete-Safely =
        Stays-Safely evac st Any _ _ (unlock_pvc-Stays (at_closing (by_cleanup at))) λ _ _.
          Stays-Safely evac st Any _ _ clear_trigger-Stays
            λ _ _. record_completed-Safely (some "evacuation complete")

    pub clean_source-Safely :
        (source : SourceInfo)
        → st.source ≡ some source
        → Safely evac st (clean_source evac st source)
    unfolding clean_source
    clean_source-Safely source e = (
      tt,
      λ r.
          lift-Safely evac st r _
            elim [ none ↦ λ _. complete-Safely | some zv ↦ λ _. destroy_source-Safely source zv e ],
    )
