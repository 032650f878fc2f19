-- ===== src/Controller/Trigger.antt =====
-- src/controller/trigger.rs: the poll that creates evacuations.
use zfs_evacuation_controlle.Base.{
  String, Bool, true, false, not, ◌&&◌, ◌||◌, Option, none, some, List, [], ◌∷◌, map, eqs, keep,
  contains, and_then, is_some_and, is_empty, lookup, ◌==◌, if◌then◌else◌,
}
use zfs_evacuation_controlle.Kube.{Node, PersistentVolume}
use zfs_evacuation_controlle.Crd.Openebs.{ZfsVolume, zfs_driver, named}
use zfs_evacuation_controlle.Crd.Evacuation.{
  Evacuation, EvacuationTrigger, EvacuationMode, Phase, evacuate_annotation, node_taint, annotation,
  when_idle, when_claimed,
}
use zfs_evacuation_controlle.Effect.{
  Call, M, ret, ask, try, catch, Outcome, done, raised, ◌>>=◌, ◌>>◌, Answer, ok, err, api,
  transport, Kind, get_evacuation, get_pv, get_zfs_volume, list_pvs, list_nodes, list_zfs_volumes,
  delete,
}
use zfs_evacuation_controlle.Controller.Context.{Ctx}
use zfs_evacuation_controlle.Controller.Nodes.{node_by_id, node_id_of, node_has_evacuate_taint}

unfoldable pub wants_evacuation : PersistentVolume → Bool
wants_evacuation pv =
    let annotated =
      is_some_and (λ v. eqs v "true")
        (and_then pv.metadata.annotations (lookup evacuate_annotation)) in
    let is_zfs = is_some_and (λ c. eqs c.driver zfs_driver) (and_then pv.spec (λ s. s.csi)) in
    annotated && (is_zfs && not pv.metadata.deleting)

abbrev is_completed : Phase → Bool
is_completed Phase.completed = true
is_completed _ = false

abbrev is_failed : Phase → Bool
is_failed Phase.failed = true
is_failed _ = false

-- A finished evacuation, or a cancelled one, makes room for a new request.
unfoldable pub replaceable : Evacuation → Bool
replaceable e =
    is_some_and (λ s. is_completed s.phase || (is_failed s.phase && s.cancelled)) e.status

-- The answer to the delete of a replaceable one.
abbrev pub removed : Answer (Unit {0}) → Bool
removed (ok _) = true
removed (err (api code)) = code == 404
removed (err transport) = false

unfoldable pub clear_for_creation : String → M Bool
clear_for_creation pv_name = do
  found ← try (get_evacuation pv_name)
  elim found [
    | ok (some existing) ↦
        if replaceable existing
        then (do gone ← try (delete Kind.evacuation pv_name); ret (removed gone))
        else ret false
    | ok none ↦ ret true
    | err e ↦ ret false
  ]

unfoldable pub annotation_condition_fresh : String → M Bool
annotation_condition_fresh pv_name = do
  found ← try (get_pv pv_name)
  ret (elim found [ ok (some pv) ↦ wants_evacuation pv | ok none ↦ false | err e ↦ false ])

abbrev pub has_handle : String → PersistentVolume → Bool
has_handle handle pv = is_some_and (λ c. eqs c.volume_handle handle) (and_then pv.spec (λ s. s.csi))

-- The volume's owner, and its taint.
unfoldable pub owner_tainted : Ctx → String → M Bool
owner_tainted ctx handle = do
  found ← ask (get_zfs_volume handle)
  elim found [
    | none ↦ ret false
    | some zv ↦ do
      node ← node_by_id zv.spec.owner_node_id
      ret (is_some_and (λ n. node_has_evacuate_taint n ctx.cfg.taint_key) node)
  ]

unfoldable pub taint_fresh : Ctx → String → String → M Bool
taint_fresh ctx pv_name handle = do
  pv ← ask (get_pv pv_name)
  if is_some_and (has_handle handle) pv then owner_tainted ctx handle else ret false

-- `match fresh.await`: an error counts as no.
abbrev pub or_false : Outcome Bool → Bool
or_false (done b) = b
or_false (raised e) = false

unfoldable pub taint_condition_fresh : Ctx → String → String → M Bool
taint_condition_fresh ctx pv_name handle = do
  fresh ← catch (taint_fresh ctx pv_name handle)
  ret (or_false fresh)

abbrev pub new_evacuation : String → EvacuationTrigger → EvacuationMode → Evacuation
new_evacuation pv_name trigger mode = record {
  metadata = named pv_name;
  spec = record {
    pv_name = pv_name;
    trigger = trigger;
    mode = mode;
    target_node = none;
    target_pool = none;
    settle_seconds = none;
    transfer_timeout_seconds = none;
    max_attempts = none;
    headroom_percent = none;
  };
  status = none;
}

-- The answer is only logged.
unfoldable pub create_evacuation : String → EvacuationTrigger → EvacuationMode → M (Unit {0})
create_evacuation pv_name trigger mode = do
  try (Call.create_evacuation (new_evacuation pv_name trigger mode))
  ret tt

-- The tests after the first, which are made only while the ones before hold.
abbrev pub both : M Bool → M Bool → M Bool
both a b = a >>= λ x. if x then b else ret false

unfoldable pub create_if : M Bool → String → EvacuationTrigger → EvacuationMode → M (Unit {0})
create_if test pv_name trigger mode =
    test >>= λ x. if x then create_evacuation pv_name trigger mode else ret tt

unfoldable pub visit_pv : PersistentVolume → M (Unit {0})
visit_pv pv =
    let name = pv.metadata.name in
    if wants_evacuation pv
    then create_if (both (clear_for_creation name) (annotation_condition_fresh name)) name
        annotation when_idle
    else ret tt

unfoldable pub visit_pvs : List PersistentVolume → M (Unit {0})
visit_pvs [] = ret tt
visit_pvs (pv ∷ pvs) = visit_pv pv >> visit_pvs pvs

-- `handle_to_pv.get(handle)`: of two with the same handle, the later one.
abbrev is_zfs_pv : String → PersistentVolume → Bool
is_zfs_pv handle pv =
    is_some_and (λ c. eqs c.driver zfs_driver && eqs c.volume_handle handle)
      (and_then pv.spec (λ s. s.csi))

unfoldable pub pv_of_handle : String → List PersistentVolume → Option PersistentVolume
pv_of_handle handle [] = none
pv_of_handle handle (pv ∷ pvs) =
    let rest = pv_of_handle handle pvs in
    elim rest [ some p ↦ some p | none ↦ if is_zfs_pv handle pv then some pv else none ]

unfoldable pub visit_volume : Ctx → List String → List PersistentVolume → ZfsVolume → M (Unit {0})
visit_volume ctx tainted_ids pvs zv =
    if not (contains zv.spec.owner_node_id tainted_ids)
    then ret tt
    else elim (pv_of_handle zv.metadata.name pvs) [
      | none ↦ ret tt
      | some pv ↦
          (let name = pv.metadata.name in
            create_if
              (both (clear_for_creation name) (taint_condition_fresh ctx name zv.metadata.name))
              name node_taint when_claimed)
    ]

unfoldable pub visit_volumes :
    Ctx → List String → List PersistentVolume → List ZfsVolume → M (Unit {0})
visit_volumes ctx tainted_ids pvs [] = ret tt
visit_volumes ctx tainted_ids pvs (zv ∷ zvs) =
    visit_volume ctx tainted_ids pvs zv >> visit_volumes ctx tainted_ids pvs zvs

abbrev pub tainted_node_ids : Ctx → List Node → List String
tainted_node_ids ctx nodes =
    map node_id_of (keep (λ n. node_has_evacuate_taint n ctx.cfg.taint_key) nodes)

-- One poll.
unfoldable pub tick : Ctx → M (Unit {0})
tick ctx = do
  pvs ← ask list_pvs
  visit_pvs pvs
  nodes ← ask list_nodes
  if is_empty (tainted_node_ids ctx nodes)
      then ret tt
      else (do zvs ← ask list_zfs_volumes; visit_volumes ctx (tainted_node_ids ctx nodes) pvs zvs)
