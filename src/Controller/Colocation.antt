-- ===== src/Controller/Colocation.antt =====
-- src/controller/colocation.rs: the group of volumes that a waiting consumer defines.
use Prim.Native.String.{compare}
use Prim.Native.Nat.{Ordering}
use zfs_evacuation_controlle.Base.{
  ℕ, suc, ◌%◌, ◌^◌, String, Bool, true, false, not, Option, none, some, List, [], ◌∷◌, ◌++◌, eqs,
  find, and_then, map_option, is_some_and, unwrap_or, first, ltb, ◌==◌, ◌<>◌, if◌then◌else◌,
}
use zfs_evacuation_controlle.Kube.{Pod, PersistentVolume}
use zfs_evacuation_controlle.Crd.Openebs.{ZfsVolume, zfs_driver}
use zfs_evacuation_controlle.Crd.Evacuation.{ColocationMember, PvcRef, Evacuation, Phase}
use zfs_evacuation_controlle.Effect.{
  M, ret, ask, ◌>>=◌, get_pvc, get_pv, get_zfs_volume, get_evacuation,
}
use zfs_evacuation_controlle.Controller.Context.{Ctx}
use zfs_evacuation_controlle.Controller.Quantity.{parse_quantity_or_bytes}
use zfs_evacuation_controlle.Controller.Pods.{unscheduled_pods, pod_pvc_names}
use zfs_evacuation_controlle.Controller.Placement.{Placement, from_pod}

pub record Anchor : Type 0 where
  pub node : String
  pub pv_name : String
  pub how : String

pub record Group : Type 0 where
  pub pod : String
  pub placement : Placement
  pub members : List ColocationMember
  pub anchor : Option Anchor

-- `*votes.entry(node).or_default() += 1`
unfoldable pub add_vote : String → List (String × ℕ) → List (String × ℕ)
add_vote node [] = (node, 1) ∷ []
add_vote node ((n, c) ∷ vs) =
    let rest = add_vote node vs in if eqs n node then (n, suc c) ∷ vs else (n, c) ∷ rest

unfoldable pub count_votes : List Anchor → List (String × ℕ) → List (String × ℕ)
unfolding add_vote
count_votes [] votes = votes
count_votes (a ∷ as') votes = count_votes as' (add_vote a.node votes)

-- Does the second vote beat the first: `ca.cmp(cb).then_with(|| nb.cmp(na))` is not `Greater`?
unfoldable pub beaten_by : String × ℕ → String × ℕ → Bool
beaten_by (na, ca) (nb, cb) =
    if ltb ca cb
    then true
    else if ca == cb
    then elim (compare nb na) [ Ordering.gt ↦ false | _ ↦ true ]
    else false

unfoldable pub max_vote : String × ℕ → List (String × ℕ) → String × ℕ
unfolding beaten_by
max_vote best [] = best
max_vote best (v ∷ vs) = max_vote (if beaten_by best v then v else best) vs

unfoldable pub best_node : List (String × ℕ) → Option String
unfolding max_vote
best_node [] = none
best_node (v ∷ vs) = some (max_vote v vs).0

unfoldable pub pick_anchor : List Anchor → Option Anchor
unfolding best_node
pick_anchor anchors = elim (best_node (count_votes anchors [])) [
  | none ↦ none
  | some best ↦ find (λ a. eqs a.node best) anchors
]

-- A phase that no longer says where a sibling's data is heading.
abbrev is_over : Phase → Bool
is_over Phase.completed = true
is_over Phase.failed = true
is_over Phase.aborting = true
is_over _ = false

-- The sibling's evacuation, unless it is over.
abbrev pub live : Option Evacuation → Option Evacuation
live none = none
live (some e) = if is_some_and (λ s. is_over s.phase) e.status then none else some e

-- What the loop has found so far.
pub record Found : Type 0 where
  pub members : List ColocationMember
  pub anchors : List Anchor

abbrev anchored : String → String → String → Found → Found
anchored node pv_name how found = record found {
  anchors = found.anchors ++ record { node = node; pv_name = pv_name; how = how } ∷ [];
}

-- Where a sibling is, or is heading: its evacuation knows more than its volume.
unfoldable pub place_sibling :
    String → ColocationMember → ZfsVolume → Option Evacuation → Found → Found
place_sibling source_node_id member zv sibling found =
    elim (and_then sibling (λ e. e.spec.target_node)) [
      | some node ↦ anchored node member.pv_name "spec.targetNode" found
      | none ↦ elim (and_then sibling (λ e. and_then e.status (λ s. s.target))) [
        | some t ↦ anchored t.node_id member.pv_name "status.target" found
        | none ↦
            if not (eqs zv.spec.owner_node_id source_node_id)
            then anchored zv.spec.owner_node_id member.pv_name "ZFSVolume owner" found
            else record found { members = found.members ++ member ∷ [] }
      ]
    ]

-- `… .capacity….and_then(parse_quantity_or_bytes).unwrap_or(0) as u64`
unfoldable pub capacity_of_volume : Ctx → ZfsVolume → ℕ
capacity_of_volume ctx zv =
    unwrap_or 0 (and_then zv.spec.capacity (parse_quantity_or_bytes ctx.libs)) % 2 ^ 64

-- The volume of one claim of the consumer: its member and its ZFSVolume, or none to skip it.
unfoldable pub member_of_pv :
    Ctx → String → PersistentVolume → M (Option (ColocationMember × ZfsVolume))
member_of_pv ctx member_pv pv = elim (and_then pv.spec (λ s. s.csi)) [
  | none ↦ ret none
  | some csi ↦ if not (eqs csi.driver zfs_driver) then ret none else do
    zv ← ask (get_zfs_volume csi.volume_handle)
    ret (
        map_option
          (λ z. (record { pv_name = member_pv; capacity_bytes = capacity_of_volume ctx z }, z)) zv)
]

unfoldable pub member_of_claim : Ctx → String → String → M (Option (ColocationMember × ZfsVolume))
member_of_claim ctx namespace pvc_name = do
  pvc ← ask (get_pvc namespace pvc_name)
  elim (and_then pvc (λ p. and_then p.spec (λ s. s.volume_name))) [
    | none ↦ ret none
    | some member_pv ↦ do
      pv ← ask (get_pv member_pv)
      elim pv [ none ↦ ret none | some p ↦ member_of_pv ctx member_pv p ]
  ]

-- One round of the loop.
unfoldable pub visit_claim : Ctx → String → String → String → String → Found → M Found
visit_claim ctx pv_name namespace source_node_id pvc_name found = do
  member ← member_of_claim ctx namespace pvc_name
  elim member [
    | none ↦ ret found
    | some (m, zv) ↦
        if eqs m.pv_name pv_name
        then ret (record found { members = found.members ++ m ∷ [] })
        else do
          sibling ← ask (get_evacuation m.pv_name)
          ret (place_sibling source_node_id m zv (live sibling) found)
  ]

unfoldable pub visit_claims : Ctx → String → String → String → List String → Found → M Found
visit_claims ctx pv_name namespace source_node_id [] found = ret found
visit_claims ctx pv_name namespace source_node_id (c ∷ cs) found = do
  found' ← visit_claim ctx pv_name namespace source_node_id c found
  visit_claims ctx pv_name namespace source_node_id cs found'

unfoldable pub resolve : Ctx → String → PvcRef → String → List Pod → M (Option Group)
resolve ctx pv_name pvc_ref source_node_id pods = elim (first (unscheduled_pods pods)) [
  | none ↦ ret none
  | some pod ↦ do
    found ←
        visit_claims ctx pv_name pvc_ref.namespace source_node_id (pod_pvc_names pod)
          (record { members = []; anchors = [] })
    ret (
        some (record {
          pod = pvc_ref.namespace <> "/" <> pod.metadata.name;
          placement = from_pod pod;
          members = found.members;
          anchor = pick_anchor found.anchors;
        }))
]
