-- ===== src/Behaviour/Creation/Poll.antt =====
-- src/controller/trigger.rs, `tick`: the tests in their order, and both phases of the poll.
use zfs_evacuation_controlle.Base.{
  String, Bool, true, false, not, List, [], ◌∷◌, sym, subst, contains, is_empty, if_elim,
  option_elim, if◌then◌else◌,
}
use zfs_evacuation_controlle.Kube.{Node, PersistentVolume}
use zfs_evacuation_controlle.Crd.Openebs.{ZfsVolume}
use zfs_evacuation_controlle.Crd.Evacuation.{
  Evacuation, EvacuationTrigger, EvacuationMode, annotation, node_taint, when_idle, when_claimed,
}
use zfs_evacuation_controlle.Effect.{
  M, ret, throw, call, sense, try, ask, catch, lift, ◌>>=◌, Call, Answer, ok, err, list_nodes,
  list_zfs_volumes, Safe, Safe-bind, done,
}
use zfs_evacuation_controlle.Controller.Context.{Ctx}
use zfs_evacuation_controlle.Controller.Trigger.{
  wants_evacuation, clear_for_creation, or_false, taint_condition_fresh, new_evacuation,
  create_evacuation, both, create_if, visit_pv, visit_pvs, visit_volume, visit_volumes, tick,
  pv_of_handle, tainted_node_ids,
}
use zfs_evacuation_controlle.Behaviour.Creation.{
  Seen, nothing, clear, seen_after, creation_watch, Anyway, Cleared, Checked,
  clear_for_creation-Safe, annotation_condition_fresh-Safe, taint_fresh-Safe,
}

module _ (ctx : Ctx) where
  -- An error that is caught counts as no.
  caught-Safe :
      (e : Evacuation) (s : Seen) (t : M Bool)
      → Safe (creation_watch ctx) (Checked ctx e) s t
      → Safe (creation_watch ctx) (Checked ctx e) s (catch t >>= λ o. ret (or_false o))
  caught-Safe e s (ret b) h = h
  caught-Safe e s (throw x) h = tt
  caught-Safe e s (call c k) h = (h.0, λ r. caught-Safe e (seen_after ctx s c r) (k r) (h.1 r))
  caught-Safe e s (sense q k) h = λ r. caught-Safe e s (k r) (h r)

  both-Safe :
      (e : Evacuation) (n : String) (s : Seen) (t : M Bool)
      → Safe (creation_watch ctx) (Checked ctx e) (clear n) t
      → Safe (creation_watch ctx) (Checked ctx e) s (both (clear_for_creation n) t)
  both-Safe e n s t h =
      Safe-bind (creation_watch ctx) (Cleared ctx n) (Checked ctx e) s _ _
        (clear_for_creation-Safe ctx n s) onward (λ _ _ _. tt)
    where
      onward :
          (s' : Seen) (b : Bool)
          → Cleared ctx n s' (done b)
          → Safe (creation_watch ctx) (Checked ctx e) s' (if b then t else ret false)
      onward s' true at = subst (λ x. Safe (creation_watch ctx) (Checked ctx e) x t) (sym at) h
      onward s' false at = tt

  create_if-Safe :
      (test : M Bool) (n : String) (trigger : EvacuationTrigger) (mode : EvacuationMode) (s : Seen)
      → Safe (creation_watch ctx) (Checked ctx (new_evacuation n trigger mode)) s test
      → Safe (creation_watch ctx) (Anyway ctx) s (create_if test n trigger mode)
  unfolding create_if create_evacuation
  create_if-Safe test n trigger mode s h =
      Safe-bind (creation_watch ctx) (Checked ctx (new_evacuation n trigger mode)) (Anyway ctx) s
        test _ h onward (λ _ _ _. tt)
    where
      onward :
          (s' : Seen) (b : Bool)
          → Checked ctx (new_evacuation n trigger mode) s' (done b)
          → Safe (creation_watch ctx) (Anyway ctx) s' (
              if b
              then (try (Call.create_evacuation (new_evacuation n trigger mode)) >>= λ _. ret tt)
              else ret tt)
      onward s' true due = (due, λ _. tt)
      onward s' false due = tt

  visit_pv-Safe :
      (s : Seen) (pv : PersistentVolume) → Safe (creation_watch ctx) (Anyway ctx) s (visit_pv pv)
  unfolding visit_pv
  visit_pv-Safe s pv =
      let n = pv.metadata.name in
      if_elim (Safe (creation_watch ctx) (Anyway ctx) s) (wants_evacuation pv) _ _
        (λ _.
          create_if-Safe _ n annotation when_idle s
            (both-Safe _ n s _ (annotation_condition_fresh-Safe ctx n)))
        (λ _. tt)

  visit_volume-Safe :
      (s : Seen) (ids : List String) (pvs : List PersistentVolume) (zv : ZfsVolume)
      → Safe (creation_watch ctx) (Anyway ctx) s (visit_volume ctx ids pvs zv)
  unfolding visit_volume taint_condition_fresh
  visit_volume-Safe s ids pvs zv =
      if_elim (Safe (creation_watch ctx) (Anyway ctx) s) (not (contains zv.spec.owner_node_id ids))
        _ _ (λ _. tt)
        λ _.
          option_elim (Safe (creation_watch ctx) (Anyway ctx) s) (pv_of_handle zv.metadata.name pvs)
            _ _ (λ _. tt)
            λ pv _.
              let n = pv.metadata.name in
              create_if-Safe _ n node_taint when_claimed s (
                both-Safe _ n s _
                  (caught-Safe _ (clear n) _ (taint_fresh-Safe ctx n zv.metadata.name)))

  visit_pvs-Safe :
      (s : Seen) (pvs : List PersistentVolume)
      → Safe (creation_watch ctx) (Anyway ctx) s (visit_pvs pvs)
  unfolding visit_pvs
  visit_pvs-Safe s [] = tt
  visit_pvs-Safe s (pv ∷ pvs) =
      Safe-bind (creation_watch ctx) (Anyway ctx) (Anyway ctx) s _ _ (visit_pv-Safe s pv)
        (λ s' _ _. visit_pvs-Safe s' pvs) (λ _ _ _. tt)

  visit_volumes-Safe :
      (s : Seen) (ids : List String) (pvs : List PersistentVolume) (zvs : List ZfsVolume)
      → Safe (creation_watch ctx) (Anyway ctx) s (visit_volumes ctx ids pvs zvs)
  unfolding visit_volumes
  visit_volumes-Safe s ids pvs [] = tt
  visit_volumes-Safe s ids pvs (zv ∷ zvs) =
      Safe-bind (creation_watch ctx) (Anyway ctx) (Anyway ctx) s _ _
        (visit_volume-Safe s ids pvs zv) (λ s' _ _. visit_volumes-Safe s' ids pvs zvs) (λ _ _ _. tt)

  after_nodes :
      (s : Seen) (pvs : List PersistentVolume) (r : Answer (List Node))
      → Safe (creation_watch ctx) (Anyway ctx) (seen_after ctx s list_nodes r) (
          lift r >>= λ nodes.
          if is_empty (tainted_node_ids ctx nodes)
          then ret tt
          else (ask list_zfs_volumes >>= λ zvs.
              visit_volumes ctx (tainted_node_ids ctx nodes) pvs zvs))
  after_nodes s pvs (err e) = tt
  after_nodes s pvs (ok nodes) =
      if_elim (Safe (creation_watch ctx) (Anyway ctx) (seen_after ctx s list_nodes (ok nodes)))
        (is_empty (tainted_node_ids ctx nodes)) _ _ (λ _. tt)
        (λ _. (
          tt,
          elim [ ok zvs ↦ visit_volumes-Safe _ (tainted_node_ids ctx nodes) pvs zvs | err e ↦ tt ],
        ))

  -- In one poll, whatever the server answers: an evacuation is deleted only after it was read and is
  -- replaceable; and one is created only for a name whose old evacuation was then absent or
  -- removed, after a fresh read of its PV that still wants it (annotation, WhenIdle), or that still
  -- has the handle of a volume whose owner node, also read afresh, has the taint (WhenClaimed).
  pub tick-Safe : Safe (creation_watch ctx) (Anyway ctx) nothing (tick ctx)
  unfolding tick
  tick-Safe = (
    tt,
    elim [
      | err e ↦ tt
      | ok pvs ↦
          Safe-bind (creation_watch ctx) (Anyway ctx) (Anyway ctx) nothing _ _
            (visit_pvs-Safe nothing pvs) (λ s _ _. (tt, λ r. after_nodes s pvs r)) (λ _ _ _. tt)
    ],
  )
