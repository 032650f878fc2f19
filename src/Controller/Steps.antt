-- ===== src/Controller/Steps.antt =====
-- The steps that the phases share: src/controller/state_machine.rs, `advance` to
-- `remove_evac_finalizer`, `set_finalizers`, `source_repels_pods` and `blocking_reason`;
-- src/controller/transfer.rs, `strip_zfs_finalizer_if_node_gone` and `create_if_absent`;
-- src/controller/mod.rs, `adapt_to_target` and `target_zfsvolume`.
use zfs_evacuation_controlle.Base.{
  ℕ, String, Bool, true, false, not, ◌&&◌, Option, none, some, List, [], ◌∷◌, ◌++◌, eqs, keep,
  contains, unwrap_or, is_some, is_empty, insert, join, ◌<>◌, ◌==◌, if◌then◌else◌, is_some_and,
}
use zfs_evacuation_controlle.Kube.{Pod}
use zfs_evacuation_controlle.Crd.Openebs.{
  VolumeInfo, ZfsVolume, named, zfs_finalizer, zfs_status_pending,
}
use zfs_evacuation_controlle.Crd.Evacuation.{
  Evacuation, EvacuationStatus, EvacuationMode, Phase, TargetInfo, evacuation_finalizer, when_idle,
  when_claimed,
}
use zfs_evacuation_controlle.Effect.{
  M, ret, throw, ask, require, ◌>>=◌, ◌>>◌, Answer, ok, err, api, transport, kube, Kind, get_meta,
  patch_finalizers, get_node,
}
use zfs_evacuation_controlle.Controller.Context.{
  Ctx, Action, requeue, requeue_secs, await_change, write_status,
}
use zfs_evacuation_controlle.Controller.Nodes.{node_by_id, node_repels_pods}
use zfs_evacuation_controlle.Controller.Pods.{pod_is_scheduled, pod_names, blocking_pods_message}

unfoldable pub advance : String → EvacuationStatus → Phase → M Action
advance name st phase = do
  write_status name (record st { phase = phase; message = none })
  ret (requeue 500)

unfoldable pub fail : String → EvacuationStatus → String → M Action
fail name st msg = do
  write_status name (record st { phase = Phase.failed; message = some msg })
  ret await_change

-- The message is written only if it is new.
unfoldable pub say : String → EvacuationStatus → String → M (Unit {0})
say name st msg =
    if is_some_and (λ m. eqs m msg) st.message
    then ret tt
    else write_status name (record st { message = some msg })

unfoldable pub wait : String → EvacuationStatus → String → ℕ → M Action
unfolding say
wait name st msg secs = do say name st msg; ret (requeue_secs secs)

-- `new == cur` for lists of texts.
abbrev pub same_list : List String → List String → Bool
same_list [] [] = true
same_list (x ∷ xs) (y ∷ ys) = eqs x y && same_list xs ys
same_list _ _ = false

unfoldable pub set_finalizers : Kind → String → (List String → List String) → M (Unit {0})
set_finalizers kind name f = do
  obj ← ask (get_meta kind name)
  elim obj [
    | none ↦ ret tt
    | some meta ↦
        (let cur = unwrap_or [] meta.finalizers in
          if same_list (f cur) cur then ret tt else ask (patch_finalizers kind name (f cur)))
  ]

unfoldable pub ensure_evac_finalizer : Evacuation → M (Unit {0})
ensure_evac_finalizer evac =
    let fins = unwrap_or [] evac.metadata.finalizers in
    if contains evacuation_finalizer fins
    then ret tt
    else ask
        (patch_finalizers Kind.evacuation evac.metadata.name (fins ++ evacuation_finalizer ∷ []))

-- `iter().filter(|f| *f != finalizer)`
abbrev pub dropping : String → List String → List String
dropping finalizer = keep (λ f. not (eqs f finalizer))

unfoldable pub remove_evac_finalizer : String → M (Unit {0})
remove_evac_finalizer name = do
  obj ← ask (get_meta Kind.evacuation name)
  elim obj [
    | none ↦ ret tt
    | some meta ↦ ask (
        patch_finalizers Kind.evacuation name
          (dropping evacuation_finalizer (unwrap_or [] meta.finalizers)))
  ]

unfoldable pub strip_zfs_finalizer_if_node_gone : Kind → String → String → M (Unit {0})
strip_zfs_finalizer_if_node_gone kind name node_id = do
  node ← node_by_id node_id
  if is_some node then ret tt else set_finalizers kind name (dropping zfs_finalizer)

-- A create that finds the object there already is no error.
abbrev pub absent_or_there : Answer (Unit {0}) → M (Unit {0})
absent_or_there (ok _) = ret tt
absent_or_there (err (api code)) = if code == 409 then ret tt else throw (kube (api code))
absent_or_there (err transport) = throw (kube transport)

unfoldable pub adapt_to_target : VolumeInfo → TargetInfo → VolumeInfo
adapt_to_target info target = record info {
  owner_node_id = target.node_id;
  pool_name = target.pool;
  snapname = none;
}

unfoldable pub target_zfsvolume : VolumeInfo → TargetInfo → ZfsVolume
unfolding adapt_to_target
target_zfsvolume info target =
    let meta = named target.new_volume_handle in
    record {
      metadata = record meta {
        labels = insert "kubernetes.io/nodename" target.node_id meta.labels;
      };
      spec = adapt_to_target info target;
      state = some zfs_status_pending;
    }

unfoldable pub source_repels_pods : Ctx → EvacuationStatus → M Bool
source_repels_pods ctx st = do
  source ← require st.source "no source recorded"
  node ← ask (get_node source.node)
  ret (elim node [ some n ↦ node_repels_pods n ctx.cfg.taint_key | none ↦ true ])

unfoldable pub uncordoned : List Pod → String
uncordoned [] =
    "the source node is still schedulable; cordon it (kubectl cordon) or taint it with a NoSchedule effect so no consumer can land there mid-copy"
uncordoned (p ∷ ps) =
    "consumer "
    <> join ", " (pod_names (p ∷ ps))
    <> " is waiting for this volume, but the source node is still schedulable; cordon it (kubectl cordon) so the pod cannot land there mid-copy"

unfoldable pub blocking_reason :
    Ctx → EvacuationMode → EvacuationStatus → List Pod → M (Option String)
blocking_reason ctx when_idle st pods =
    ret (if is_empty pods then none else some (blocking_pods_message pods))
blocking_reason ctx when_claimed st pods =
    let scheduled = keep pod_is_scheduled pods in
    if not (is_empty scheduled) then ret (some (blocking_pods_message scheduled)) else do
      repels ← source_repels_pods ctx st
      ret (if repels then none else some (uncordoned pods))
