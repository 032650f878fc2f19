-- ===== src/Controller/Target/Judge.antt =====
-- src/controller/target.rs, `select_target`: the candidates, and the one that is taken.
use zfs_evacuation_controlle.Base.{
  ℕ, ◌+◌, ◌*◌, ◌/◌, ◌-◌, String, Bool, true, false, not, ◌||◌, Option, none, some, List, [], ◌∷◌,
  ◌++◌, eqs, find, and_then, is_some_and, unwrap_or, contains, leb, show, ◌<>◌, if◌then◌else◌,
}
use zfs_evacuation_controlle.Kube.{Node, PersistentVolume}
use zfs_evacuation_controlle.Crd.Openebs.{ZfsNode, ZfsPool}
use zfs_evacuation_controlle.Crd.Evacuation.{EvacuationSpec}
use zfs_evacuation_controlle.Controller.Context.{Ctx, default_headroom_percent}
use zfs_evacuation_controlle.Controller.Quantity.{parse_quantity_or_bytes}
use zfs_evacuation_controlle.Controller.Nodes.{node_id_of, node_is_ready, node_has_evacuate_taint}
use zfs_evacuation_controlle.Controller.Placement.{Placement, admits}
use zfs_evacuation_controlle.Controller.Target.Ledger.{Ledger}

pub record SelectionInput : Type 0 where
  pub evac_name : String
  pub spec : EvacuationSpec
  pub source_node_id : String
  pub source_pool : String
  pub capacity_bytes : ℕ
  pub pv : PersistentVolume
  pub group_extra_bytes : ℕ
  pub anchor : Option String
  pub placement : Option Placement

-- What `select_target` has read and computed before it looks at the nodes.
pub record Selection : Type 0 where
  pub input : SelectionInput
  pub nodes : List Node
  pub ledger : Ledger
  pub allowed_ids : Option (List String)
  pub explicit : Option String
  pub wanted_component : String
  pub need : ℕ

pub record Candidate : Type 0 where
  pub node : String
  pub node_id : String
  pub pool : String
  pub free : ℕ

-- `bytes + bytes * headroom / 100`
unfoldable pub need_bytes : SelectionInput → ℕ
need_bytes input =
    let bytes = input.capacity_bytes + input.group_extra_bytes in
    bytes + bytes * unwrap_or default_headroom_percent input.spec.headroom_percent / 100

-- An explicit target is a node name or a node id.
unfoldable pub matches_explicit : List Node → String → Option String → Bool
matches_explicit nodes node_id none = true
matches_explicit nodes node_id (some explicit) =
    is_some_and (λ n. eqs (node_id_of n) node_id) (find (λ n. eqs n.metadata.name explicit) nodes)
    || eqs explicit node_id

abbrev pub Verdicts : Type 0
Verdicts = List Candidate × List String

-- `for pool in &zn.pools`: the free space after reservations must cover the need.
unfoldable pub judge_pool : Ctx → Selection → Node → String → ZfsPool → Verdicts
judge_pool ctx s node node_id pool =
    let free = unwrap_or 0 (and_then pool.free (parse_quantity_or_bytes ctx.libs)) in
    let res = s.ledger.reserved node_id pool.name in
    if leb s.need (free - res)
    then (
      record { node = node.metadata.name; node_id = node_id; pool = pool.name; free = free - res }
          ∷ [],
      [],
    )
    else (
      [],
      (node_id
            <> ": zpool "
            <> s.wanted_component
            <> " has "
            <> show (free - res)
            <> " bytes free after reservations, need "
            <> show s.need)
          ∷ [],
    )

unfoldable pub judge_pools : Ctx → Selection → Node → String → List ZfsPool → Verdicts
judge_pools ctx s node node_id [] = ([], [])
judge_pools ctx s node node_id (p ∷ ps) =
    let rest = judge_pools ctx s node node_id ps in
    if eqs p.name s.wanted_component
    then (let v = judge_pool ctx s node node_id p in (v.0 ++ rest.0, v.1 ++ rest.1))
    else rest

abbrev pub has_pool : String → List ZfsPool → Bool
has_pool wanted ps = elim (find (λ p. eqs p.name wanted) ps) [ none ↦ false | some _ ↦ true ]

-- The tests on the node of a ZFSNode, in order; none where it is not rejected.
unfoldable pub reject_reason : Ctx → Selection → String → Node → Option String
reject_reason ctx s node_id node =
    if not (node_is_ready node)
    then some "not Ready or unschedulable"
    else if node_has_evacuate_taint node ctx.cfg.taint_key
    then some "carries the evacuate taint"
    else if contains node_id s.ledger.busy_targets
    then some "already receiving another evacuation"
    else if is_some_and (λ p. not (admits p node)) s.input.placement
    then some "excluded by the consumer pod's nodeSelector/affinity/tolerations"
    else none

abbrev pub reject : String → String → Verdicts
reject node_id why = ([], (node_id <> ": " <> why) ∷ [])

-- The node's pools, once the node has passed.
unfoldable pub judge_node : Ctx → Selection → ZfsNode → Node → Verdicts
judge_node ctx s zn node =
    let node_id = zn.metadata.name in
    elim (reject_reason ctx s node_id node) [
      | some why ↦ reject node_id why
      | none ↦
          (let v = judge_pools ctx s node node_id zn.pools in
            if has_pool s.wanted_component zn.pools
            then v
            else (v.0, v.1 ++ (node_id <> ": no zpool " <> s.wanted_component) ∷ []))
    ]

-- `for zn in zfsnodes`
unfoldable pub judge : Ctx → Selection → ZfsNode → Verdicts
unfolding judge_node
judge ctx s zn =
    let node_id = zn.metadata.name in
    if eqs node_id s.input.source_node_id
    then ([], [])
    else if not (matches_explicit s.nodes node_id s.explicit)
    then ([], [])
    else if is_some_and (λ ids. not (contains node_id ids)) s.allowed_ids
    then reject node_id "outside the StorageClass allowedTopologies"
    else elim (find (λ n. eqs (node_id_of n) node_id) s.nodes) [
      | none ↦ reject node_id "no Node with this openebs.io/nodeid"
      | some node ↦ judge_node ctx s zn node
    ]

unfoldable pub judge_all : Ctx → Selection → List ZfsNode → Verdicts
judge_all ctx s [] = ([], [])
judge_all ctx s (zn ∷ zns) =
    let v = judge ctx s zn in let rest = judge_all ctx s zns in (v.0 ++ rest.0, v.1 ++ rest.1)
