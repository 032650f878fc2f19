-- ===== src/Behaviour/Selection.antt =====
-- src/controller/target.rs, `select_target`: what its calls read, and what the choice is of that.
pub mod Choice
use zfs_evacuation_controlle.Base.{
  ℕ, ◌≤◌, String, Option, none, some, List, [], ◌∷◌, Memᴰ, ◌≡◌, refl, sym, ap, ◌∙◌, subst, first,
  option_elim, and_then, unwrap_or, lookup,
}
use zfs_evacuation_controlle.Kube.{Node, StorageClass, TopologyTerm}
use zfs_evacuation_controlle.Crd.Openebs.{ZfsNode, ZfsPool}
use zfs_evacuation_controlle.Crd.Evacuation.{Evacuation, TargetInfo}
use zfs_evacuation_controlle.Effect.{
  M, ret, ask, lift, ◌>>=◌, Call, Value, Answer, ok, err, list_nodes, list_evacuations,
  list_zfs_nodes, get_storage_class, Returns, Monitor, Safe, Safe-bind, Safe-weaken, Outcome, done,
  raised,
}
use zfs_evacuation_controlle.Controller.Context.{Ctx}
use zfs_evacuation_controlle.Behaviour.MostFree.{Best, most_free_first-Best}
use zfs_evacuation_controlle.Controller.Target.{
  Selection, Candidate, judge_all, most_free_first, choose, select_target, SelectionInput,
  ledger_of, need_bytes, pool_component, sc_poolname, allowed_node_ids, allowed_in,
  resolve_dest_poolname,
}
use zfs_evacuation_controlle.Behaviour.Rivals.{Rival}
use zfs_evacuation_controlle.Behaviour.Eligible.{Eligible, judge_all-Eligible}
use zfs_evacuation_controlle.Behaviour.Topologies.{node_ids, node_ids_of, Limits, allowed_in_lem}

-- What a choice says of the target.
pub record Chosen (ctx : Ctx) (s : Selection) (zns : List ZfsNode) (dest_pool : String)
    (t : TargetInfo) : Type 0 where
  pub candidate : Candidate
  pub volume_node : ZfsNode
  pub listed : Memᴰ volume_node zns
  pub eligible : Eligible ctx s volume_node candidate
  pub node : t.node ≡ candidate.node
  pub node_id : t.node_id ≡ candidate.node_id
  pub pool : t.pool ≡ dest_pool
  -- Every node and pool that pass the same tests have at most as much.
  pub most_free :
      (zn : ZfsNode) (rival : ZfsPool) (free : ℕ)
      → Memᴰ zn zns
      → Rival ctx s zn rival free
      → free ≤ candidate.free

-- What the selection has read: each list as it was last answered, and every read of a storage class
-- by its name, the latest first.
pub record Readings : Type 0 where
  pub nodes : Option (List Node)
  pub evacuations : Option (List Evacuation)
  pub zfs_nodes : Option (List ZfsNode)
  pub classes : List (String × Option StorageClass)

abbrev pub nothing_read : Readings
nothing_read = record { nodes = none; evacuations = none; zfs_nodes = none; classes = [] }

abbrev pub reading : Readings → (c : Call) → Answer (Value c) → Readings
reading r list_nodes (ok ns) = record r { nodes = some ns }
reading r list_evacuations (ok es) = record r { evacuations = some es }
reading r list_zfs_nodes (ok zs) = record r { zfs_nodes = some zs }
reading r (get_storage_class name) (ok sc) = record r { classes = (name, sc) ∷ r.classes }
reading r c a = r

abbrev pub readings : Monitor
readings = record { State = Readings; Allowed = λ r c. Unit; next = reading }

-- The class of the PV, read twice; where the PV names none, it is not read.
abbrev pub class_name : SelectionInput → Option String
class_name input = and_then input.pv.spec (λ s. s.storage_class_name)

abbrev pub read_once :
    Option String
    → Option StorageClass
    → List (String × Option StorageClass)
    → List (String × Option StorageClass)
read_once none sc before = before
read_once (some name) sc before = (name, sc) ∷ before

abbrev pub class_of : Option String → Option StorageClass → Option StorageClass
class_of none sc = none
class_of (some name) sc = sc

-- The poolname parameter of a class.
abbrev pub poolname_of : Option StorageClass → Option String
poolname_of sc = and_then sc (λ c. and_then c.parameters (lookup "poolname"))

-- The choice, of an input and of what was read: the pool is the input's own, else that of the class,
-- else the source's; the target is the input's own, else the anchor.
pub record Decided (ctx : Ctx) (input : SelectionInput) (r : Readings) (t : TargetInfo)
    : Type 0 where
  pub evacuations : List Evacuation
  pub zfs_nodes : List ZfsNode
  pub for_pool : Option StorageClass
  pub for_topologies : Option StorageClass
  pub selection : Selection
  pub nodes_read : r.nodes ≡ some selection.nodes
  pub evacuations_read : r.evacuations ≡ some evacuations
  pub zfs_nodes_read : r.zfs_nodes ≡ some zfs_nodes
  pub classes_read :
      r.classes
      ≡ read_once (class_name input) for_topologies (read_once (class_name input) for_pool [])
  pub of_input : selection.input ≡ input
  pub reserved : selection.ledger ≡ ledger_of input.evac_name evacuations
  pub allowed : selection.allowed_ids ≡ node_ids_of (class_of (class_name input) for_topologies)
  pub own_target : (n : String) → input.spec.target_node ≡ some n → selection.explicit ≡ some n
  pub anchored : input.spec.target_node ≡ none → selection.explicit ≡ input.anchor
  pub need : selection.need ≡ need_bytes input
  pub wanted : selection.wanted_component ≡ pool_component t.pool
  pub pool :
      t.pool
      ≡ unwrap_or
          (unwrap_or input.source_pool (poolname_of (class_of (class_name input) for_pool)))
          input.spec.target_pool
  pub chosen : Chosen ctx selection zfs_nodes t.pool t
