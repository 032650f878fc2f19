-- ===== src/Authority/Swap.antt =====
-- src/controller/pv_swap.rs under the authority monitor.
use zfs_evacuation_controlle.Base.{String, Option, none, some, ◌≡◌, refl, arith, is_empty}
use zfs_evacuation_controlle.Kube.{PersistentVolume}
use zfs_evacuation_controlle.Crd.Evacuation.{
  Evacuation, EvacuationStatus, Phase, PvcRef, SourceInfo, TargetInfo,
}
use zfs_evacuation_controlle.Effect.{Kind}
use zfs_evacuation_controlle.Controller.Context.{Ctx, write_status}
use zfs_evacuation_controlle.Controller.PvSwap.{
  render_new_pv, commit, commit_record, commit_pods, abort_with, committing, has_uid,
  unexpected_pods, delete_old_pv, create_new_pv, finish_swap, release_old_pv, is_rebound, swapping,
  reset_policy,
}
use zfs_evacuation_controlle.Authority.Diagram.{HasTransfer, IsCommitted}
use zfs_evacuation_controlle.Authority.Warrant.{restore_by_swap}
use zfs_evacuation_controlle.Authority.Rules.{
  Safely, Stays, require-Safely, lift-Safely, Stays-Safely, if-Safely,
}
use zfs_evacuation_controlle.Authority.Steps.{
  Any, advance-Safely, fail-Safely, wait-Safely, blocking_reason-Stays, pods_referencing_pvc-Stays,
  set_finalizers-Stays,
}

module _ (evac : Evacuation) (ctx : Ctx) (st : EvacuationStatus) where
  module _ (at : st.phase ≡ Phase.committing) (sound : HasTransfer st) where
    render_new_pv-Stays :
        (old_pv : PersistentVolume) (pvc_ref : PvcRef) (target : TargetInfo)
        → Stays evac st Any (render_new_pv old_pv pvc_ref target)
    unfolding render_new_pv
    render_new_pv-Stays old_pv pvc_ref target = ground arith

    commit-Safely :
        (pvc_ref : PvcRef) (target : TargetInfo) (old_pv : PersistentVolume)
        → Safely evac st (commit ctx evac st pvc_ref target old_pv)
    unfolding commit
    commit-Safely pvc_ref target old_pv =
        Stays-Safely evac st Any _ _ (render_new_pv-Stays old_pv pvc_ref target) λ new_pv _.
          require-Safely evac st (ctx.libs.pv_to_string old_pv) _ _ λ old_manifest _.
            require-Safely evac st (ctx.libs.pv_to_string new_pv) _ _ λ new_manifest _.
              advance-Safely evac st (commit_record old_manifest new_manifest st) Phase.swapping
                (ground arith)

    abort_with-Safely : (msg : String) → Safely evac st (abort_with evac.metadata.name st msg)
    unfolding abort_with write_status
    abort_with-Safely msg = ground arith

    commit_pods-Safely :
        (pvc_ref : PvcRef) (source : SourceInfo) (target : TargetInfo)
        → Safely evac st (commit_pods ctx evac st pvc_ref source target)
    unfolding commit_pods
    commit_pods-Safely pvc_ref source target =
        Stays-Safely evac st Any _ _ (pods_referencing_pvc-Stays evac st _ _) λ pods _.
          if-Safely evac st (is_empty (unexpected_pods evac.spec.mode pods)) _ _
            (λ _. Stays-Safely evac st Any _ _ (blocking_reason-Stays evac st ctx _ st pods) elim [
              | some msg ↦ λ _. wait-Safely evac st st msg 15 (ground arith)
              | none ↦ λ _. (
                tt,
                λ r. lift-Safely evac st r _ λ found _. require-Safely evac st found _ _ λ old_pv _.
                    if-Safely evac st (has_uid source.pv_uid old_pv.metadata) _ _
                      (λ _. commit-Safely pvc_ref target old_pv)
                      (λ _. fail-Safely evac st st _ (ground arith)),
              )
            ])
            (λ _. abort_with-Safely _)

    pub committing-Safely : Safely evac st (committing ctx evac st)
    unfolding committing
    committing-Safely = require-Safely evac st st.pvc_ref _ _ λ pvc_ref _.
        require-Safely evac st st.source _ _ λ source _.
          require-Safely evac st st.target _ _ λ target _. (
            tt,
            λ r. lift-Safely evac st r _ λ found _. require-Safely evac st found _ _ λ pvc _.
                if-Safely evac st (has_uid pvc_ref.uid pvc.metadata) _ _
                  (λ _. commit_pods-Safely pvc_ref source target) (λ _. abort_with-Safely _),
          )

  module _ (at : st.phase ≡ Phase.swapping) (sound : IsCommitted st) where
    release_old_pv-Safely : Safely evac st (release_old_pv evac)
    unfolding release_old_pv
    release_old_pv-Safely =
        Stays-Safely evac st Any _ _
          (set_finalizers-Stays evac st Kind.pv evac.spec.pv_name _
            (λ fins. (refl, at, sound.committed)))
          (λ _ _. tt)

    delete_old_pv-Safely :
        (pvc_ref : PvcRef) (pv : PersistentVolume)
        → Safely evac st (delete_old_pv ctx evac st pvc_ref pv)
    unfolding delete_old_pv
    delete_old_pv-Safely pvc_ref pv =
        if-Safely evac st pv.metadata.deleting _ _ (λ _. release_old_pv-Safely)
          λ _. Stays-Safely evac st Any _ _ (pods_referencing_pvc-Stays evac st _ _) λ pods _.
            Stays-Safely evac st Any _ _ (blocking_reason-Stays evac st ctx evac.spec.mode st pods)
              elim [
                | some msg ↦ λ _. wait-Safely evac st st msg 10 (ground arith)
                | none ↦ λ _. (
                  (refl, at, sound.committed),
                  λ r. lift-Safely evac st r _ λ _ _. release_old_pv-Safely,
                )
              ]

    create_new_pv-Safely : Safely evac st (create_new_pv ctx st)
    unfolding create_new_pv
    create_new_pv-Safely = require-Safely evac st st.new_pv_manifest _ _ λ manifest _.
        require-Safely evac st (ctx.libs.pv_from_str manifest) _ _
          λ new_pv _. ((at, sound.committed), λ r. ground arith)

    reset_policy-Stays :
        (policy : Option String)
        → st.original_reclaim_policy ≡ policy
        → Stays evac st Any (reset_policy evac.spec.pv_name policy)
    reset_policy-Stays none e = tt
    reset_policy-Stays (some orig) e =
        (refl, (refl, restore_by_swap at sound.committed e), λ r. ground arith)

    finish_swap-Safely : Safely evac st (finish_swap evac st)
    unfolding finish_swap
    finish_swap-Safely =
        Stays-Safely evac st Any _ _ (reset_policy-Stays st.original_reclaim_policy refl)
          λ _ _. advance-Safely evac st st Phase.cleaning_up (ground arith)

    pub swapping-Safely : Safely evac st (swapping ctx evac st)
    unfolding swapping
    swapping-Safely = require-Safely evac st st.source _ _ λ source _.
        require-Safely evac st st.pvc_ref _ _ λ pvc_ref _. (
          tt,
          λ r. lift-Safely evac st r _ elim [
            | none ↦ λ _. create_new_pv-Safely
            | some pv ↦ λ _.
                if-Safely evac st (has_uid source.pv_uid pv.metadata) _ _
                  (λ _. delete_old_pv-Safely pvc_ref pv)
                  (λ _.
                    if-Safely evac st (is_rebound pvc_ref pv) _ _ (λ _. finish_swap-Safely)
                      (λ _. tt))
          ],
        )
