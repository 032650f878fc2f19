-- ===== src/Controller/Pods.antt =====
-- src/controller/mod.rs: what the controller reads of a pod.
use Prim.Native.String.{compare}
use Prim.Native.Nat.{Ordering}
use zfs_evacuation_controlle.Base.{
  String, Bool, true, false, not, Option, none, some, List, [], ◌∷◌, ◌++◌, map, eqs, any, keep,
  collect, and_then, is_some_and, unwrap_or, is_empty, join, ◌<>◌, if◌then◌else◌,
}
use zfs_evacuation_controlle.Kube.{Pod, Volume}
use zfs_evacuation_controlle.Effect.{M, ret, ask, ◌>>=◌, list_pods}

-- The claim that a volume stands for: a plain one, or `<pod>-<volume>` of an ephemeral one.
abbrev volume_claim : String → Volume → Option String
volume_claim pod_name v = elim v.claim_name [
  | some c ↦ some c
  | none ↦ if v.ephemeral then some (pod_name <> "-" <> v.name) else none
]

unfoldable pub pod_pvc_names : Pod → List String
pod_pvc_names pod = unwrap_or [] (
    and_then pod.spec (λ s.
      and_then s.volumes (λ volumes. some (collect (volume_claim pod.metadata.name) volumes))))

unfoldable pub pod_references_pvc : Pod → String → Bool
unfolding pod_pvc_names
pod_references_pvc pod pvc_name = any (λ n. eqs n pvc_name) (pod_pvc_names pod)

unfoldable pub pods_referencing_pvc : String → String → M (List Pod)
pods_referencing_pvc namespace pvc_name = do
  list ← ask (list_pods namespace)
  ret (keep (λ p. pod_references_pvc p pvc_name) list)

unfoldable pub pod_is_scheduled : Pod → Bool
pod_is_scheduled pod = is_some_and (λ n. not (eqs n "")) (and_then pod.spec (λ s. s.node_name))

-- `sort_by_key(|p| p.name_any())`, which is stable.
name_le : Pod → Pod → Bool
name_le p q = elim (compare p.metadata.name q.metadata.name) [ Ordering.gt ↦ false | _ ↦ true ]

insert_by_name : Pod → List Pod → List Pod
insert_by_name p [] = p ∷ []
insert_by_name p (q ∷ qs) =
    let rest = insert_by_name p qs in if name_le p q then p ∷ q ∷ qs else q ∷ rest

unfoldable pub sort_by_name : List Pod → List Pod
unfolding insert_by_name name_le
sort_by_name [] = []
sort_by_name (p ∷ ps) = insert_by_name p (sort_by_name ps)

unfoldable pub unscheduled_pods : List Pod → List Pod
unfolding pod_is_scheduled sort_by_name
unscheduled_pods pods = sort_by_name (keep (λ p. not (pod_is_scheduled p)) pods)

unfoldable pub pod_names : List Pod → List String
pod_names pods = map (λ p. p.metadata.name) pods

unfoldable pub blocking_pods_message : List Pod → String
blocking_pods_message pods =
    let scheduled = keep pod_is_scheduled pods in
    let unscheduled = keep (λ p. not (pod_is_scheduled p)) pods in
    let released =
      if is_empty scheduled
      then []
      else ("waiting for pods to release PVC: " <> join ", " (pod_names scheduled)) ∷ [] in
    let predating =
      if is_empty unscheduled
      then []
      else ("never-scheduled pods predate the lock and hold it open: "
          <> join ", " (pod_names unscheduled)
          <> " (delete them; the attach-lock denies recreation until the volume has moved)")
        ∷ [] in
    join "; " (released ++ predating)
