-- ===== src/Controller/Target/Choice.antt =====
-- src/controller/target.rs, `select_target`: what the storage class allows, and the choice.
use zfs_evacuation_controlle.Base.{
  String, Bool, true, false, not, Option, none, some, List, [], ◌∷◌, ◌++◌, eqs, and_then, unwrap_or,
  first, lookup, leb, join, show, ◌<>◌, is_empty, if◌then◌else◌,
}
use zfs_evacuation_controlle.Kube.{PersistentVolume, TopologyTerm, TopologyExpr}
use zfs_evacuation_controlle.Crd.Openebs.{node_id_topology_key}
use zfs_evacuation_controlle.Crd.Evacuation.{TargetInfo}
use zfs_evacuation_controlle.Effect.{
  M, ret, throw, ask, ◌>>=◌, list_nodes, list_evacuations, list_zfs_nodes, get_storage_class, other,
}
use zfs_evacuation_controlle.Controller.Context.{Ctx}
use zfs_evacuation_controlle.Controller.Target.Ledger.{
  pool_component, resolve_dest_poolname, ledger_of,
}
use zfs_evacuation_controlle.Controller.Target.Judge.{
  SelectionInput, Selection, Candidate, need_bytes, Verdicts, judge_all,
}

-- `sort_by_key(|c| Reverse(c.3))`, which is stable.
unfoldable pub insert_candidate : Candidate → List Candidate → List Candidate
insert_candidate c [] = c ∷ []
insert_candidate c (d ∷ ds) =
    let rest = insert_candidate c ds in if leb d.free c.free then c ∷ d ∷ ds else d ∷ rest

unfoldable pub most_free_first : List Candidate → List Candidate
unfolding insert_candidate
most_free_first [] = []
most_free_first (c ∷ cs) = insert_candidate c (most_free_first cs)

unfoldable pub sc_poolname : PersistentVolume → M (Option String)
sc_poolname pv = elim (and_then pv.spec (λ s. s.storage_class_name)) [
  | none ↦ ret none
  | some sc_name ↦ do
    sc ← ask (get_storage_class sc_name)
    ret (and_then sc (λ c. and_then c.parameters (λ p. lookup "poolname" p)))
]

-- The values of the expressions on the node id key, and whether there is one.
unfoldable pub constrain : List TopologyExpr → Bool × List String → Bool × List String
constrain [] acc = acc
constrain (e ∷ es) (constrained, ids) =
    constrain es
      (if eqs e.key node_id_topology_key then (true, ids ++ e.values) else (constrained, ids))

unfoldable pub constrain_terms : List TopologyTerm → Bool × List String → Bool × List String
unfolding constrain
constrain_terms [] acc = acc
constrain_terms (t ∷ ts) acc =
    constrain_terms ts (constrain (unwrap_or [] t.match_label_expressions) acc)

unfoldable pub allowed_in : String → List TopologyTerm → M (Option (List String))
unfolding constrain_terms
allowed_in sc_name topos =
    let (constrained, ids) = constrain_terms topos (false, []) in
    if not constrained
    then ret none
    else if is_empty ids
    then throw (other ("StorageClass " <> sc_name <> " allowedTopologies excludes every node"))
    else ret (some ids)

unfoldable pub allowed_node_ids : PersistentVolume → M (Option (List String))
allowed_node_ids pv = elim (and_then pv.spec (λ s. s.storage_class_name)) [
  | none ↦ ret none
  | some sc_name ↦ do
    sc ← ask (get_storage_class sc_name)
    elim (and_then sc (λ c. c.allowed_topologies)) [
      | none ↦ ret none
      | some topos ↦ allowed_in sc_name topos
    ]
]

-- The refusal names every node that was looked at.
no_target : Selection → String → List String → String
no_target s dest_pool rejected =
    let reasons = if is_empty rejected then "" else "; " <> join ", " rejected in
    elim s.explicit [
      | some e ↦
          "target "
          <> e
          <> " ineligible (need "
          <> show s.need
          <> " bytes in zpool "
          <> s.wanted_component
          <> ")"
          <> reasons
      | none ↦
          "no eligible target: need "
          <> show s.need
          <> " bytes in zpool "
          <> s.wanted_component
          <> " (for destination "
          <> dest_pool
          <> ") on a ready node (excluding source "
          <> s.input.source_node_id
          <> ")"
          <> reasons
    ]

-- The first candidate after the sort, or the refusal.
unfoldable pub choose : Selection → String → Verdicts → M TargetInfo
unfolding no_target
choose s dest_pool (candidates, rejected) = elim (first (most_free_first candidates)) [
  | none ↦ throw (other (no_target s dest_pool rejected))
  | some c ↦
      ret (record { node = c.node; node_id = c.node_id; pool = dest_pool; new_volume_handle = "" })
]

unfoldable pub select_target : Ctx → SelectionInput → M TargetInfo
select_target ctx input = do
  nodes ← ask list_nodes
  all_evacs ← ask list_evacuations
  sc_pool ← sc_poolname input.pv
  let dest_pool = (resolve_dest_poolname input.spec.target_pool sc_pool input.source_pool).0
  allowed_ids ← allowed_node_ids input.pv
  zfsnodes ← ask list_zfs_nodes
  let s : Selection = record {
    input = input;
    nodes = nodes;
    ledger = ledger_of input.evac_name all_evacs;
    allowed_ids = allowed_ids;
    explicit = elim input.spec.target_node [ none ↦ input.anchor | some n ↦ some n ];
    wanted_component = pool_component dest_pool;
    need = need_bytes input;
  }
  choose s dest_pool (judge_all ctx s zfsnodes)
