-- ===== src/Behaviour/PodCheck/Settle.antt =====
-- src/controller/state_machine.rs, `quiescing`: the check of the pods before TargetSelecting.
use zfs_evacuation_controlle.Base.{
  String, true, false, Option, none, some, ◌≡◌, arith, ℕ, ltb, unwrap_or, ◌-◌, ◌^◌, if_elim,
  if◌then◌else◌,
}
use zfs_evacuation_controlle.Crd.Evacuation.{Evacuation, EvacuationStatus, Phase, PvcRef}
use zfs_evacuation_controlle.Effect.{ret, ◌>>=◌}
use zfs_evacuation_controlle.Controller.Context.{
  Ctx, write_status, requeue_secs, lock_propagation_seconds,
}
use zfs_evacuation_controlle.Controller.Steps.{wait, say, advance}
use zfs_evacuation_controlle.Controller.Phases.{quiescing, check_quiet, settle_down, since}
use zfs_evacuation_controlle.Behaviour.PodCheck.{
  settling, Unguarded, Checked, known, listed, unblocked,
}

module _ (evac : Evacuation) (ctx : Ctx) (st : EvacuationStatus) (r : PvcRef) where
  module _ (at : st.phase ≡ Phase.quiescing) where
    holding-Unguarded :
        (msg : String)
        → Unguarded settling (wait evac.metadata.name (record st { quiesced_at = none }) msg 15)
    unfolding wait say write_status
    holding-Unguarded msg = ground arith

    settle_down-Checked :
        (elapsed : Option ℕ) → Checked evac ctx st r settling true (settle_down evac st elapsed)
    unfolding settle_down advance write_status
    settle_down-Checked elapsed = ground arith

    settled-Checked :
        Checked evac ctx st r settling true
          (since st.quiesced_at >>= λ elapsed. settle_down evac st elapsed)
    unfolding since
    settled-Checked = started st.quiesced_at
      where
        started :
            (t : Option String)
            → Checked evac ctx st r settling true
                (since t >>= λ elapsed. settle_down evac st elapsed)
        started none = settle_down-Checked none
        started (some x) = λ elapsed. settle_down-Checked elapsed

    check_quiet-Checked : Checked evac ctx st r settling false (check_quiet ctx evac st r)
    unfolding check_quiet
    check_quiet-Checked = listed evac ctx st r settling false _ λ s pods quietly.
        unblocked evac ctx st r settling s pods _ quietly settled-Checked holding-Unguarded

    -- In Quiescing, TargetSelecting is written only after a list of the claim's namespace, taken in
    -- the same reconciliation, that shows no pod in the way.
    pub quiescing-Checked :
        st.pvc_ref ≡ some r → Checked evac ctx st r settling false (quiescing ctx evac st)
    unfolding quiescing since
    quiescing-Checked e =
        known evac ctx st r settling false st.pvc_ref r _ _ e (waited st.locked_at)
      where
        waited :
            (t : Option String)
            → Checked evac ctx st r settling false (
                since t >>= λ since_lock.
                let age = unwrap_or (2 ^ 64 - 1) since_lock in
                if ltb age lock_propagation_seconds
                then ret (requeue_secs (lock_propagation_seconds - age))
                else check_quiet ctx evac st r)
        waited none = check_quiet-Checked
        waited (some x) = λ lock.
            if_elim (Checked evac ctx st r settling false)
              (ltb (unwrap_or (2 ^ 64 - 1) lock) lock_propagation_seconds) _ _ (λ _. tt)
              (λ _. check_quiet-Checked)
