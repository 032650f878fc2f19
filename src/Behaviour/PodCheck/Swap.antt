-- ===== src/Behaviour/PodCheck/Swap.antt =====
-- src/controller/pv_swap.rs: the check of the pods before the commit and before the deletion.
use zfs_evacuation_controlle.Base.{
  String, true, false, none, some, ◌≡◌, refl, arith, ℕ, if_elim, is_empty, if◌then◌else◌,
}
use zfs_evacuation_controlle.Kube.{PersistentVolume}
use zfs_evacuation_controlle.Crd.Evacuation.{
  Evacuation, EvacuationStatus, PvcRef, SourceInfo, TargetInfo,
}
use zfs_evacuation_controlle.Effect.{ret, ok, err}
use zfs_evacuation_controlle.Controller.Context.{Ctx, write_status, requeue_secs}
use zfs_evacuation_controlle.Controller.Steps.{set_finalizers, wait, say, advance, fail}
use zfs_evacuation_controlle.Controller.PvSwap.{
  swapping, delete_old_pv, release_old_pv, create_new_pv, finish_swap, committing, commit_pods,
  commit_old_pv, commit, abort_with, render_new_pv, has_uid, unexpected_pods, is_rebound,
}
use zfs_evacuation_controlle.Behaviour.PodCheck.{
  commit_write, deletion, Unguarded, Checked, unguarded-Checked, required, known, lifted, listed,
  unblocked,
}

release_old_pv-Unguarded : (evac : Evacuation) → Unguarded deletion (release_old_pv evac)
unfolding release_old_pv set_finalizers
release_old_pv-Unguarded evac = ground arith

create_new_pv-Unguarded :
    (ctx : Ctx) (st : EvacuationStatus) → Unguarded deletion (create_new_pv ctx st)
unfolding create_new_pv
create_new_pv-Unguarded ctx st = ground arith

finish_swap-Unguarded :
    (evac : Evacuation) (st : EvacuationStatus) → Unguarded deletion (finish_swap evac st)
unfolding finish_swap advance write_status
finish_swap-Unguarded evac st = ground arith

wait-Unguarded :
    (name : String) (st : EvacuationStatus) (msg : String) (secs : ℕ)
    → Unguarded deletion (wait name st msg secs)
unfolding wait say write_status
wait-Unguarded name st msg secs = ground arith

module _ (evac : Evacuation) (ctx : Ctx) (st : EvacuationStatus) (r : PvcRef) where
  delete_old_pv-Checked :
      (pv : PersistentVolume)
      → Checked evac ctx st r deletion false (delete_old_pv ctx evac st r pv)
  unfolding delete_old_pv
  delete_old_pv-Checked pv =
      if_elim (Checked evac ctx st r deletion false) pv.metadata.deleting _ _
        (λ _. unguarded-Checked evac ctx st r deletion false _ (release_old_pv-Unguarded evac))
        (λ _. listed evac ctx st r deletion false _ λ s pods quietly.
          unblocked evac ctx st r deletion s pods _ quietly
            (
              (λ _. refl),
              elim [
                | ok x ↦
                    unguarded-Checked evac ctx st r deletion true _ (release_old_pv-Unguarded evac)
                | err e ↦ tt
              ],
            )
            (λ msg. wait-Unguarded evac.metadata.name st msg 10))

  rebound-Unguarded :
      (pv : PersistentVolume)
      → Unguarded deletion (if is_rebound r pv then finish_swap evac st else ret (requeue_secs 3))
  rebound-Unguarded pv =
      if_elim (Unguarded deletion) (is_rebound r pv) _ _ (λ _. finish_swap-Unguarded evac st)
        (λ _. tt)

  -- In Swapping, a PV is deleted only after a list of the claim's namespace, taken in the same
  -- reconciliation, that shows no pod in the way: none that uses the claim, or in WhenClaimed none
  -- that is scheduled.
  pub swapping-Checked :
      st.pvc_ref ≡ some r → Checked evac ctx st r deletion false (swapping ctx evac st)
  unfolding swapping
  swapping-Checked e = required evac ctx st r deletion false st.source _ _ λ source _.
      known evac ctx st r deletion false st.pvc_ref r _ _ e (
        (λ h. cc),
        λ x. lifted evac ctx st r deletion false x _ elim [
          | none ↦ unguarded-Checked evac ctx st r deletion false _ (create_new_pv-Unguarded ctx st)
          | some pv ↦
              if_elim (Checked evac ctx st r deletion false) (has_uid source.pv_uid pv.metadata) _ _
                (λ _. delete_old_pv-Checked pv)
                (λ _. unguarded-Checked evac ctx st r deletion false _ (rebound-Unguarded pv))
        ],
      )

  commit_old_pv-Checked :
      (source : SourceInfo) (target : TargetInfo)
      → Checked evac ctx st r commit_write true (commit_old_pv ctx evac st r source target)
  unfolding commit_old_pv commit advance fail write_status render_new_pv
  commit_old_pv-Checked source target = ground arith

  module _ (early : st.committed ≡ false) where
    waiting-Unguarded : (msg : String) → Unguarded commit_write (wait evac.metadata.name st msg 15)
    unfolding wait say write_status
    waiting-Unguarded msg = ground arith

    abort-Unguarded : (msg : String) → Unguarded commit_write (abort_with evac.metadata.name st msg)
    unfolding abort_with write_status
    abort-Unguarded msg = ground arith

    commit_pods-Checked :
        (source : SourceInfo) (target : TargetInfo)
        → Checked evac ctx st r commit_write false (commit_pods ctx evac st r source target)
    unfolding commit_pods
    commit_pods-Checked source target = listed evac ctx st r commit_write false _ λ s pods quietly.
        if_elim (Checked evac ctx st r commit_write s)
          (is_empty (unexpected_pods evac.spec.mode pods)) _ _
          (λ _.
            unblocked evac ctx st r commit_write s pods _ quietly
              (commit_old_pv-Checked source target) waiting-Unguarded)
          (λ _. unguarded-Checked evac ctx st r commit_write s _ (abort-Unguarded _))

    -- In Committing, from an uncommitted status, a committed status is written only after a list of
    -- the claim's namespace, taken in the same reconciliation, that shows no pod in the way.
    pub committing-Checked :
        st.pvc_ref ≡ some r → Checked evac ctx st r commit_write false (committing ctx evac st)
    unfolding committing
    committing-Checked e = known evac ctx st r commit_write false st.pvc_ref r _ _ e (
        required evac ctx st r commit_write false st.source _ _ λ source _.
          required evac ctx st r commit_write false st.target _ _ λ target _. (
            (λ h. cc),
            λ x. lifted evac ctx st r commit_write false x _ λ found.
                required evac ctx st r commit_write false found _ _ λ pvc _.
                  if_elim (Checked evac ctx st r commit_write false) (has_uid r.uid pvc.metadata) _
                    _ (λ _. commit_pods-Checked source target)
                    (λ _. unguarded-Checked evac ctx st r commit_write false _ (abort-Unguarded _)),
          ))
