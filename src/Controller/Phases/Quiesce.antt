-- ===== src/Controller/Phases/Quiesce.antt =====
-- src/controller/state_machine.rs, `quiescing`.
use zfs_evacuation_controlle.Base.{
  ℕ, ◌-◌, ◌^◌, String, Option, none, some, unwrap_or, ltb, if◌then◌else◌,
}
use zfs_evacuation_controlle.Crd.Evacuation.{Evacuation, EvacuationStatus, Phase, PvcRef}
use zfs_evacuation_controlle.Effect.{M, ret, local, require, ◌>>=◌, ◌>>◌, now_rfc3339, secs_since}
use zfs_evacuation_controlle.Controller.Context.{
  Ctx, Action, requeue_secs, write_status, default_settle_seconds, lock_propagation_seconds,
}
use zfs_evacuation_controlle.Controller.Pods.{pods_referencing_pvc}
use zfs_evacuation_controlle.Controller.Steps.{advance, wait, blocking_reason}

-- `t.as_deref().and_then(secs_since)`
unfoldable pub since : Option String → M (Option ℕ)
since none = ret none
since (some t) = local (secs_since t)

-- The settle period, from the first time that nothing was in the way.
unfoldable pub settle_down : Evacuation → EvacuationStatus → Option ℕ → M Action
settle_down evac st elapsed =
    let settle = unwrap_or default_settle_seconds evac.spec.settle_seconds in
    elim elapsed [
      | none ↦ do
        now ← local now_rfc3339
        write_status evac.metadata.name (record st { quiesced_at = some now })
        ret (requeue_secs settle)
      | some secs ↦
          if ltb secs settle
          then ret (requeue_secs (settle - secs))
          else advance evac.metadata.name st Phase.target_selecting
    ]

unfoldable pub check_quiet : Ctx → Evacuation → EvacuationStatus → PvcRef → M Action
unfolding settle_down
check_quiet ctx evac st pvc_ref = do
  pods ← pods_referencing_pvc pvc_ref.namespace pvc_ref.name
  blocked ← blocking_reason ctx evac.spec.mode st pods
  elim blocked [
    | some msg ↦ wait evac.metadata.name (record st { quiesced_at = none }) msg 15
    | none ↦ do elapsed ← since st.quiesced_at; settle_down evac st elapsed
  ]

unfoldable pub quiescing : Ctx → Evacuation → EvacuationStatus → M Action
unfolding check_quiet
quiescing ctx evac st = do
  pvc_ref ← require st.pvc_ref "no pvcRef recorded"
  since_lock ← since st.locked_at
  let age = unwrap_or (2 ^ 64 - 1) since_lock
  if ltb age lock_propagation_seconds
      then ret (requeue_secs (lock_propagation_seconds - age))
      else check_quiet ctx evac st pvc_ref
