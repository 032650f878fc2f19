-- ===== src/Controller/Nodes.antt =====
-- src/controller/mod.rs: what the controller reads of a node.
use zfs_evacuation_controlle.Base.{
  String, Bool, false, not, ◌&&◌, ◌||◌, Option, none, some, List, [], eqs, any, find, keep, collect,
  and_then, is_some_and, unwrap_or, lookup, codes, if◌then◌else◌,
}
use zfs_evacuation_controlle.Kube.{Node, Taint}
use zfs_evacuation_controlle.Crd.Openebs.{node_id_topology_key}
use zfs_evacuation_controlle.Effect.{M, ret, ask, ◌>>=◌, get_node, list_nodes, IpAddr}
use zfs_evacuation_controlle.Controller.Context.{Libs}

unfoldable pub node_has_evacuate_taint : Node → String → Bool
node_has_evacuate_taint node taint_key =
    is_some_and (any (λ t. eqs t.key taint_key)) (and_then node.spec (λ s. s.taints))

unfoldable pub node_id_of : Node → String
node_id_of node = unwrap_or node.metadata.name (lookup node_id_topology_key node.metadata.labels)

-- The second half of `node_by_id`: the search over all nodes.
unfoldable pub find_node_by_id : String → M (Option Node)
find_node_by_id node_id = do all ← ask list_nodes; ret (find (λ n. eqs (node_id_of n) node_id) all)

unfoldable pub node_by_id : String → M (Option Node)
unfolding find_node_by_id
node_by_id node_id = do
  named ← ask (get_node node_id)
  elim named [
    | none ↦ find_node_by_id node_id
    | some n ↦ if eqs (node_id_of n) node_id then ret (some n) else find_node_by_id node_id
  ]

unfoldable pub node_ips : Libs → Node → List IpAddr
node_ips libs node = unwrap_or [] (
    and_then node.status (λ s. and_then s.addresses (λ addrs. some (
      collect (λ a. libs.parse_ip (codes a.address))
        (keep (λ a. eqs a.type_ "InternalIP" || eqs a.type_ "ExternalIP") addrs)))))

unfoldable pub node_is_ready : Node → Bool
node_is_ready node =
    let ready =
      is_some_and (any (λ c. eqs c.type_ "Ready" && eqs c.status "True"))
        (and_then node.status (λ s. s.conditions)) in
    let schedulable = not (unwrap_or false (and_then node.spec (λ s. s.unschedulable))) in
    ready && schedulable

-- The evacuate taint with a hard effect.
abbrev pub is_hard_evacuate_taint : String → Taint → Bool
is_hard_evacuate_taint taint_key t =
    eqs t.key taint_key && (eqs t.effect "NoSchedule" || eqs t.effect "NoExecute")

unfoldable pub node_repels_pods : Node → String → Bool
node_repels_pods node taint_key =
    is_some_and
      (λ spec.
        unwrap_or false spec.unschedulable
        || is_some_and (any (is_hard_evacuate_taint taint_key)) spec.taints)
      node.spec
