-- ===== src/Controller/PvSwap/Swap.antt =====
-- src/controller/pv_swap.rs: `committing` and `swapping`.
use zfs_evacuation_controlle.Base.{
  String, Bool, true, not, ◌&&◌, Option, none, some, List, eqs, keep, and_then, is_empty,
  is_some_and, unwrap_or, join, ◌<>◌, if◌then◌else◌,
}
use zfs_evacuation_controlle.Kube.{Meta, Pod, PersistentVolume}
use zfs_evacuation_controlle.Crd.Evacuation.{
  Evacuation, EvacuationStatus, EvacuationMode, Phase, PvcRef, SourceInfo, TargetInfo, when_idle,
  when_claimed,
}
use zfs_evacuation_controlle.Effect.{
  M, ret, ask, try, require, ◌>>=◌, ◌>>◌, Kind, get_pvc, get_pv, create_pv, patch_reclaim_policy,
  delete,
}
use zfs_evacuation_controlle.Controller.Context.{Ctx, Action, requeue_secs, write_status}
use zfs_evacuation_controlle.Controller.Pods.{pods_referencing_pvc, pod_is_scheduled, pod_names}
use zfs_evacuation_controlle.Controller.Steps.{
  advance, fail, wait, set_finalizers, absent_or_there, blocking_reason,
}
use zfs_evacuation_controlle.Controller.PvSwap.Render.{render_new_pv}

-- `uid().as_deref() == Some(uid)`
abbrev pub has_uid : String → Meta → Bool
has_uid uid meta = is_some_and (λ u. eqs u uid) meta.uid

-- An early return that turns to the abort path.
unfoldable pub abort_with : String → EvacuationStatus → String → M Action
abort_with name st msg = do
  write_status name (record st { phase = Phase.aborting; message = some msg })
  ret (requeue_secs 1)

-- The pods that must not be there at commit.
abbrev pub unexpected_pods : EvacuationMode → List Pod → List Pod
unexpected_pods when_idle pods = pods
unexpected_pods when_claimed pods = keep pod_is_scheduled pods

-- The commit record: both manifests and the flag.
abbrev pub commit_record : String → String → EvacuationStatus → EvacuationStatus
commit_record old_manifest new_manifest st = record st {
  old_pv_manifest = some old_manifest;
  new_pv_manifest = some new_manifest;
  committed = true;
}

-- It is written by the step that enters Swapping.
unfoldable pub commit :
    Ctx → Evacuation → EvacuationStatus → PvcRef → TargetInfo → PersistentVolume → M Action
commit ctx evac st pvc_ref target old_pv = do
  new_pv ← render_new_pv old_pv pvc_ref target
  old_manifest ← require (ctx.libs.pv_to_string old_pv) "serializing the old PV"
  new_manifest ← require (ctx.libs.pv_to_string new_pv) "serializing the new PV"
  advance evac.metadata.name (commit_record old_manifest new_manifest st) Phase.swapping

-- From the last check of the pods on.
unfoldable pub commit_old_pv :
    Ctx → Evacuation → EvacuationStatus → PvcRef → SourceInfo → TargetInfo → M Action
unfolding commit
commit_old_pv ctx evac st pvc_ref source target = do
  found ← ask (get_pv evac.spec.pv_name)
  old_pv ← require found "old PV vanished at commit"
  if has_uid source.pv_uid old_pv.metadata
      then commit ctx evac st pvc_ref target old_pv
      else fail evac.metadata.name st "old PV UID changed at commit"

unfoldable pub commit_pods :
    Ctx → Evacuation → EvacuationStatus → PvcRef → SourceInfo → TargetInfo → M Action
unfolding commit_old_pv abort_with
commit_pods ctx evac st pvc_ref source target = do
  let name = evac.metadata.name
  pods ← pods_referencing_pvc pvc_ref.namespace pvc_ref.name
  let unexpected = unexpected_pods evac.spec.mode pods
  if is_empty unexpected
      then (do
        blocked ← blocking_reason ctx evac.spec.mode st pods
        elim blocked [
          | some msg ↦ wait name st msg 15
          | none ↦ commit_old_pv ctx evac st pvc_ref source target
        ])
      else abort_with name st
          ("pods appeared at commit despite lock: " <> join ", " (pod_names unexpected))

unfoldable pub committing : Ctx → Evacuation → EvacuationStatus → M Action
unfolding commit_pods
committing ctx evac st = do
  pvc_ref ← require st.pvc_ref "no pvcRef recorded"
  source ← require st.source "no source recorded"
  target ← require st.target "no target recorded"
  found ← ask (get_pvc pvc_ref.namespace pvc_ref.name)
  pvc ← require found "PVC vanished at commit"
  if has_uid pvc_ref.uid pvc.metadata
      then commit_pods ctx evac st pvc_ref source target
      else abort_with evac.metadata.name st "PVC UID changed at commit; aborting"

-- The finalizers that hold a PV whose deletion is safe.
abbrev pub strip_pv_finalizers : List String → List String
strip_pv_finalizers = keep (λ f.
    not (eqs f "kubernetes.io/pv-protection")
    && not (eqs f "external-provisioner.volume.kubernetes.io/finalizer"))

-- The delete is issued, or was: free the old PV.
unfoldable pub release_old_pv : Evacuation → M Action
release_old_pv evac = do
  set_finalizers Kind.pv evac.spec.pv_name strip_pv_finalizers
  ret (requeue_secs 2)

-- The old PV is still there.
unfoldable pub delete_old_pv :
    Ctx → Evacuation → EvacuationStatus → PvcRef → PersistentVolume → M Action
unfolding release_old_pv
delete_old_pv ctx evac st pvc_ref pv = if pv.metadata.deleting then release_old_pv evac else do
  pods ← pods_referencing_pvc pvc_ref.namespace pvc_ref.name
  blocked ← blocking_reason ctx evac.spec.mode st pods
  elim blocked [
    | some msg ↦ wait evac.metadata.name st msg 10
    | none ↦ (do ask (delete Kind.pv evac.spec.pv_name); release_old_pv evac)
  ]

-- It is gone: create the replacement from the stored manifest.
unfoldable pub create_new_pv : Ctx → EvacuationStatus → M Action
create_new_pv ctx st = do
  manifest ← require st.new_pv_manifest "no newPVManifest recorded; cannot complete swap"
  new_pv ← require (ctx.libs.pv_from_str manifest) "parsing stored newPVManifest"
  created ← try (create_pv new_pv)
  absent_or_there created
  ret (requeue_secs 2)

-- Is the replacement bound to our PVC?
abbrev pub is_rebound : PvcRef → PersistentVolume → Bool
is_rebound pvc_ref pv =
    let claim_uid = unwrap_or "" (and_then (and_then pv.spec (λ s. s.claim_ref)) (λ c. c.uid)) in
    eqs (unwrap_or "" pv.phase) "Bound" && eqs claim_uid pvc_ref.uid

-- The policy goes back to what it was.
abbrev pub reset_policy : String → Option String → M (Unit {0})
reset_policy pv_name none = ret tt
reset_policy pv_name (some orig) = ask (patch_reclaim_policy pv_name orig)

unfoldable pub finish_swap : Evacuation → EvacuationStatus → M Action
finish_swap evac st = do
  reset_policy evac.spec.pv_name st.original_reclaim_policy
  advance evac.metadata.name st Phase.cleaning_up

unfoldable pub swapping : Ctx → Evacuation → EvacuationStatus → M Action
unfolding delete_old_pv create_new_pv finish_swap
swapping ctx evac st = do
  source ← require st.source "no source recorded"
  pvc_ref ← require st.pvc_ref "no pvcRef recorded"
  found ← ask (get_pv evac.spec.pv_name)
  elim found [
    | none ↦ create_new_pv ctx st
    | some pv ↦
        if has_uid source.pv_uid pv.metadata
        then delete_old_pv ctx evac st pvc_ref pv
        else if is_rebound pvc_ref pv
        then finish_swap evac st
        else ret (requeue_secs 3)
  ]
