-- ===== src/Controller/Phases/Select.antt =====
-- src/controller/state_machine.rs, `target_selecting`.
use zfs_evacuation_controlle.Base.{
  ℕ, String, Bool, true, false, not, ◌&&◌, Option, none, some, map, eqs, keep, any, and_then,
  map_option, is_some, is_some_and, sum, ◌<>◌, if◌then◌else◌,
}
use zfs_evacuation_controlle.Kube.{PersistentVolume}
use zfs_evacuation_controlle.Crd.Evacuation.{
  Evacuation, EvacuationStatus, Phase, PvcRef, SourceInfo, TargetInfo, ColocationStatus,
  ColocationRole, when_idle, when_claimed,
}
use zfs_evacuation_controlle.Effect.{
  M, ret, ask, local, require, catch, Outcome, done, raised, ◌>>=◌, ◌>>◌, get_pv, list_evacuations,
  random_u128, lock_selection,
}
use zfs_evacuation_controlle.Controller.Context.{Ctx, Action, error_text}
use zfs_evacuation_controlle.Controller.Pods.{pods_referencing_pvc}
use zfs_evacuation_controlle.Controller.Steps.{advance, fail, wait}
use zfs_evacuation_controlle.Controller.Colocation.{Group, resolve}
use zfs_evacuation_controlle.Controller.Target.{SelectionInput, select_target}
use zfs_evacuation_controlle.Controller.Phases.Pending.{new_destination_handle}

abbrev is_moving : Phase → Bool
is_moving Phase.transferring = true
is_moving Phase.adopting = true
is_moving _ = false

-- Another evacuation that is sending from the same node.
abbrev pub is_busy_source : String → SourceInfo → Evacuation → Bool
is_busy_source name source e =
    not (eqs e.metadata.name name)
    && is_some_and
        (λ s. is_moving s.phase && is_some_and (λ src. eqs src.node_id source.node_id) s.source)
        e.status

-- WhenClaimed: the consumer's group, resolved anew at each attempt.
unfoldable pub group_of : Ctx → Evacuation → PvcRef → SourceInfo → M (Option Group)
group_of ctx evac pvc_ref source = elim evac.spec.mode [
  | when_claimed ↦ do
    pods ← pods_referencing_pvc pvc_ref.namespace pvc_ref.name
    resolve ctx evac.metadata.name pvc_ref source.node_id pods
  | when_idle ↦ ret none
]

abbrev pub group_extra_bytes : String → Option Group → ℕ
group_extra_bytes name none = 0
group_extra_bytes name (some g) =
    sum (map (λ m. m.capacity_bytes) (keep (λ m. not (eqs m.pv_name name)) g.members))

abbrev pub selection_input :
    Evacuation → SourceInfo → PersistentVolume → Option Group → SelectionInput
selection_input evac source pv group = record {
  evac_name = evac.metadata.name;
  spec = evac.spec;
  source_node_id = source.node_id;
  source_pool = source.pool;
  capacity_bytes = source.capacity_bytes;
  pv = pv;
  group_extra_bytes = group_extra_bytes evac.metadata.name group;
  anchor = map_option (λ a. a.node) (and_then group (λ g. g.anchor));
  placement = map_option (λ g. g.placement) group;
}

-- An anchor was followed unless `spec.targetNode` decided.
abbrev pub colocation_of : Evacuation → Group → ColocationStatus
colocation_of evac g =
    let followed = if is_some evac.spec.target_node then none else g.anchor in
    record {
      pod = g.pod;
      members = g.members;
      role = if is_some followed then ColocationRole.follower else ColocationRole.leader;
      followed = map_option (λ a. a.pv_name) followed;
    }

-- The status with the target, its group, and the fresh name of the dataset.
abbrev pub chosen : Evacuation → EvacuationStatus → Option Group → TargetInfo → ℕ → EvacuationStatus
chosen evac st group t random = record st {
  target = some (record t { new_volume_handle = new_destination_handle random });
  colocation = map_option (colocation_of evac) group;
}

-- The choice, with a fresh name for the dataset; or a wait, since a group is never split.
unfoldable pub settle_target :
    Ctx → Evacuation → EvacuationStatus → Option Group → Outcome TargetInfo → M Action
settle_target ctx evac st group (done t) = do
  random ← local random_u128
  advance evac.metadata.name (chosen evac st group t random) Phase.transferring
settle_target ctx evac st group (raised e) =
    wait evac.metadata.name st ("no target yet: " <> error_text ctx.libs e) 60

unfoldable pub select_for :
    Ctx → Evacuation → EvacuationStatus → PvcRef → SourceInfo → PersistentVolume → M Action
unfolding settle_target
select_for ctx evac st pvc_ref source pv = do
  group ← group_of ctx evac pvc_ref source
  outcome ← catch (select_target ctx (selection_input evac source pv group))
  settle_target ctx evac st group outcome

unfoldable pub target_selecting : Ctx → Evacuation → EvacuationStatus → M Action
unfolding select_for
target_selecting ctx evac st = do
  let name = evac.metadata.name
  source ← require st.source "no source recorded"
  pvc_ref ← require st.pvc_ref "no pvcRef recorded"
  local lock_selection
  evacs ← ask list_evacuations
  if any (is_busy_source name source) evacs
      then wait name st "another evacuation is transferring from this node" 60
      else do
        found ← ask (get_pv evac.spec.pv_name)
        elim found [
          | none ↦ fail name st "PV disappeared during target selection"
          | some pv ↦ select_for ctx evac st pvc_ref source pv
        ]
