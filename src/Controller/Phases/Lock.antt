-- ===== src/Controller/Phases/Lock.antt =====
-- src/controller/state_machine.rs: `guarding`, `retaining` and `locking`.
use zfs_evacuation_controlle.Base.{String, some, List, [], ◌∷◌, ◌++◌, contains, ◌<>◌, if◌then◌else◌}
use zfs_evacuation_controlle.Crd.Evacuation.{Evacuation, EvacuationStatus, Phase, guard_finalizer}
use zfs_evacuation_controlle.Crd.Params.{lock}
use zfs_evacuation_controlle.Effect.{
  M, ask, local, require, ◌>>=◌, ◌>>◌, Kind, patch_reclaim_policy, patch_evacuating_label,
  now_rfc3339,
}
use zfs_evacuation_controlle.Controller.Context.{Action, update_params}
use zfs_evacuation_controlle.Controller.Steps.{advance, set_finalizers}

-- `if !v.iter().any(|f| f == GUARD_FINALIZER) { v.push(…) }`
abbrev pub with_guard : List String → List String
with_guard fins = if contains guard_finalizer fins then fins else fins ++ guard_finalizer ∷ []

unfoldable pub guarding : Evacuation → EvacuationStatus → M Action
guarding evac st = do
  source ← require st.source "no source recorded"
  set_finalizers Kind.zfs_volume source.volume_handle with_guard
  advance evac.metadata.name st Phase.retaining

unfoldable pub retaining : Evacuation → EvacuationStatus → M Action
retaining evac st = do
  ask (patch_reclaim_policy evac.spec.pv_name "Retain")
  advance evac.metadata.name st Phase.locking

unfoldable pub locking : Evacuation → EvacuationStatus → M Action
locking evac st = do
  pvc_ref ← require st.pvc_ref "no pvcRef recorded"
  update_params (lock (pvc_ref.namespace <> "/" <> pvc_ref.name) evac.spec.mode)
  ask (patch_evacuating_label pvc_ref.namespace pvc_ref.name (some "true"))
  now ← local now_rfc3339
  advance evac.metadata.name (record st { locked_at = some now }) Phase.quiescing
