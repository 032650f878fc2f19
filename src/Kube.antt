-- ===== src/Kube.antt =====
-- The Kubernetes objects that the controller reads and writes: of each type of `k8s_openapi` the
-- fields that the source uses, with the optional levels that it goes through.
use zfs_evacuation_controlle.Base.{String, Bool, Option, List, StrMap}

-- `ObjectMeta`. `labels` is empty where the object has none, as `ResourceExt::labels` returns it;
-- `deleting` is `deletion_timestamp.is_some()`.
pub record Meta : Type 0 where
  pub name : String
  pub uid : Option String
  pub resource_version : Option String
  pub labels : StrMap
  pub annotations : Option StrMap
  pub finalizers : Option (List String)
  pub deleting : Bool

-- A `NodeCondition` or a `PersistentVolumeClaimCondition`.
pub record Condition : Type 0 where
  pub type_ : String
  pub status : String

pub record Taint : Type 0 where
  pub key : String
  pub effect : String
  pub value : Option String

pub record Toleration : Type 0 where
  pub key : Option String
  pub operator : Option String
  pub effect : Option String
  pub value : Option String

pub record NodeSelectorRequirement : Type 0 where
  pub key : String
  pub operator : String
  pub values : Option (List String)

pub record NodeSelectorTerm : Type 0 where
  pub match_expressions : Option (List NodeSelectorRequirement)
  pub match_fields : Option (List NodeSelectorRequirement)

pub record NodeSelector : Type 0 where
  pub node_selector_terms : List NodeSelectorTerm

pub record NodeAffinity : Type 0 where
  pub required : Option NodeSelector

pub record Affinity : Type 0 where
  pub node_affinity : Option NodeAffinity

pub record NodeAddress : Type 0 where
  pub type_ : String
  pub address : String

pub record NodeSpec : Type 0 where
  pub unschedulable : Option Bool
  pub taints : Option (List Taint)
  pub pod_cidr : Option String
  pub pod_cidrs : Option (List String)

pub record NodeStatus : Type 0 where
  pub addresses : Option (List NodeAddress)
  pub conditions : Option (List Condition)

pub record Node : Type 0 where
  pub metadata : Meta
  pub spec : Option NodeSpec
  pub status : Option NodeStatus

-- A pod's volume: a claim by name, a generic ephemeral volume, or another kind.
pub record Volume : Type 0 where
  pub name : String
  pub claim_name : Option String
  pub ephemeral : Bool

pub record PodSpec : Type 0 where
  pub node_name : Option String
  pub volumes : Option (List Volume)
  pub node_selector : Option StrMap
  pub affinity : Option Affinity
  pub tolerations : Option (List Toleration)

pub record Pod : Type 0 where
  pub metadata : Meta
  pub spec : Option PodSpec

pub record CsiSource : Type 0 where
  pub driver : String
  pub volume_handle : String
  pub fs_type : Option String
  pub volume_attributes : Option StrMap

pub record ObjectReference : Type 0 where
  pub api_version : Option String
  pub kind : Option String
  pub namespace : Option String
  pub name : Option String
  pub uid : Option String

pub record PvSpec : Type 0 where
  pub csi : Option CsiSource
  pub claim_ref : Option ObjectReference
  pub reclaim_policy : Option String
  pub node_affinity : Option NodeAffinity
  pub storage_class_name : Option String
  pub capacity : Option StrMap
  pub access_modes : Option (List String)

pub record PersistentVolume : Type 0 where
  pub metadata : Meta
  pub spec : Option PvSpec
  pub phase : Option String

pub record PvcSpec : Type 0 where
  pub volume_name : Option String

pub record PersistentVolumeClaim : Type 0 where
  pub metadata : Meta
  pub spec : Option PvcSpec
  pub conditions : Option (List Condition)

pub record TopologyExpr : Type 0 where
  pub key : String
  pub values : List String

pub record TopologyTerm : Type 0 where
  pub match_label_expressions : Option (List TopologyExpr)

pub record StorageClass : Type 0 where
  pub parameters : Option StrMap
  pub allowed_topologies : Option (List TopologyTerm)
