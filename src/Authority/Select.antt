-- ===== src/Authority/Select.antt =====
-- src/controller/state_machine.rs, `target_selecting`, under the authority monitor: the resolution
-- of the group and the choice of the target only read.
use zfs_evacuation_controlle.Base.{
  String, Option, none, some, List, [], ◌∷◌, ◌≡◌, refl, arith, any, eqs, and_then, first,
}
use zfs_evacuation_controlle.Kube.{PersistentVolume, Pod}
use zfs_evacuation_controlle.Crd.Evacuation.{
  Evacuation, EvacuationStatus, EvacuationMode, Phase, PvcRef, SourceInfo, TargetInfo, when_idle,
  when_claimed,
}
use zfs_evacuation_controlle.Effect.{Outcome, done, raised}
use zfs_evacuation_controlle.Controller.Context.{Ctx}
use zfs_evacuation_controlle.Controller.Pods.{pod_pvc_names, unscheduled_pods}
use zfs_evacuation_controlle.Controller.Colocation.{
  Found, Group, visit_claim, visit_claims, resolve, member_of_claim, member_of_pv,
}
use zfs_evacuation_controlle.Controller.Target.{
  SelectionInput, select_target, sc_poolname, allowed_node_ids, choose, most_free_first, Selection,
  Candidate, allowed_in,
}
use zfs_evacuation_controlle.Controller.Phases.{
  is_busy_source, group_of, settle_target, chosen, select_for, target_selecting,
}
use zfs_evacuation_controlle.Authority.Diagram.{HasSource}
use zfs_evacuation_controlle.Authority.Rules.{
  Safely, Stays, Stays-bind, if-Stays, lift-Stays, option-Stays, require-Safely, lift-Safely,
  Stays-Safely, if-Safely,
}
use zfs_evacuation_controlle.Authority.Steps.{
  Any, advance-Safely, fail-Safely, wait-Safely, pods_referencing_pvc-Stays, catch-Stays,
}

module _ (evac : Evacuation) (ctx : Ctx) (st : EvacuationStatus) where
  member_of_pv-Stays :
      (member_pv : String) (pv : PersistentVolume)
      → Stays evac st Any (member_of_pv ctx member_pv pv)
  unfolding member_of_pv
  member_of_pv-Stays member_pv pv = ground arith

  member_of_claim-Stays : (ns claim : String) → Stays evac st Any (member_of_claim ctx ns claim)
  unfolding member_of_claim
  member_of_claim-Stays ns claim = (
    refl,
    tt,
    λ r. lift-Stays evac st Any r _ λ pvc.
        option-Stays evac st Any (and_then pvc (λ p. and_then p.spec (λ s. s.volume_name))) _ _
          (λ _. tt)
          λ member_pv _. (
            refl,
            tt,
            λ q.
                lift-Stays evac st Any q _
                  elim [ none ↦ tt | some pv ↦ member_of_pv-Stays member_pv pv ],
          ),
  )

  visit_claim-Stays :
      (pv_name ns source_node_id claim : String) (found : Found)
      → Stays evac st Any (visit_claim ctx pv_name ns source_node_id claim found)
  unfolding visit_claim
  visit_claim-Stays pv_name ns source_node_id claim found =
      Stays-bind evac Any Any st _ _ (member_of_claim-Stays ns claim) elim [
        | none ↦ λ _. tt
        | some (m, zv) ↦ λ _. if-Stays evac st Any (eqs m.pv_name pv_name) _ _ tt (ground arith)
      ]

  visit_claims-Stays :
      (pv_name ns source_node_id : String) (claims : List String) (found : Found)
      → Stays evac st Any (visit_claims ctx pv_name ns source_node_id claims found)
  unfolding visit_claims
  visit_claims-Stays pv_name ns source_node_id [] found = tt
  visit_claims-Stays pv_name ns source_node_id (c ∷ cs) found =
      Stays-bind evac Any Any st _ _ (visit_claim-Stays pv_name ns source_node_id c found)
        λ found' _. visit_claims-Stays pv_name ns source_node_id cs found'

  resolve-Stays :
      (pv_name : String) (r : PvcRef) (source_node_id : String) (pods : List Pod)
      → Stays evac st Any (resolve ctx pv_name r source_node_id pods)
  unfolding resolve
  resolve-Stays pv_name r source_node_id pods =
      option-Stays evac st Any (first (unscheduled_pods pods)) _ _ (λ _. tt)
        λ pod _.
          Stays-bind evac Any Any st _ _
            (visit_claims-Stays pv_name r.namespace source_node_id (pod_pvc_names pod) _)
            (λ found _. tt)

  group_of-Stays :
      (r : PvcRef) (source : SourceInfo) → Stays evac st Any (group_of ctx evac r source)
  unfolding group_of
  group_of-Stays r source = by_mode evac.spec.mode
    where
      by_mode :
          (mode : EvacuationMode)
          → Stays evac st Any
              (group_of ctx (record evac { spec = record (evac.spec) { mode = mode } }) r source)
      by_mode when_idle = tt
      by_mode when_claimed =
          Stays-bind evac Any Any st _ _ (pods_referencing_pvc-Stays evac st _ _)
            λ pods _. resolve-Stays evac.metadata.name r source.node_id pods

  sc_poolname-Stays : (pv : PersistentVolume) → Stays evac st Any (sc_poolname pv)
  unfolding sc_poolname
  sc_poolname-Stays pv = ground arith

  allowed_node_ids-Stays : (pv : PersistentVolume) → Stays evac st Any (allowed_node_ids pv)
  unfolding allowed_node_ids allowed_in
  allowed_node_ids-Stays pv = ground arith

  choose-Stays :
      (s : Selection) (dest_pool : String) (v : List Candidate × List String)
      → Stays evac st Any (choose s dest_pool v)
  unfolding choose
  choose-Stays s dest_pool (candidates, rejected) =
      option-Stays evac st Any (first (most_free_first candidates)) _ _ (λ _. tt) (λ c _. tt)

  select_target-Stays : (input : SelectionInput) → Stays evac st Any (select_target ctx input)
  unfolding select_target
  select_target-Stays input = (
    refl,
    tt,
    λ r. lift-Stays evac st Any r _ λ nodes. (
      refl,
      tt,
      λ q. lift-Stays evac st Any q _ λ evacs.
          Stays-bind evac Any Any st _ _ (sc_poolname-Stays input.pv) λ sc_pool _.
            Stays-bind evac Any Any st _ _ (allowed_node_ids-Stays input.pv)
              λ ids _. (refl, tt, λ z. lift-Stays evac st Any z _ λ zfsnodes. choose-Stays _ _ _),
    ),
  )

  module _ (at : st.phase ≡ Phase.target_selecting) (sound : HasSource st) where
    settle_target-Safely :
        (group : Option Group) (outcome : Outcome TargetInfo)
        → Safely evac st (settle_target ctx evac st group outcome)
    unfolding settle_target
    settle_target-Safely group (done t) = λ random.
        advance-Safely evac st (chosen evac st group t random) Phase.transferring (ground arith)
    settle_target-Safely group (raised e) = wait-Safely evac st st _ 60 (ground arith)

    select_for-Safely :
        (r : PvcRef) (source : SourceInfo) (pv : PersistentVolume)
        → Safely evac st (select_for ctx evac st r source pv)
    unfolding select_for
    select_for-Safely r source pv =
        Stays-Safely evac st Any _ _ (group_of-Stays r source) λ group _.
          Stays-Safely evac st Any _ _ (catch-Stays evac st _ (select_target-Stays _))
            λ outcome _. settle_target-Safely group outcome

    pub target_selecting-Safely : Safely evac st (target_selecting ctx evac st)
    unfolding target_selecting
    target_selecting-Safely = require-Safely evac st st.source _ _ λ source _.
        require-Safely evac st st.pvc_ref _ _ λ r _ _. (
          tt,
          λ q. lift-Safely evac st q _ λ evacs _.
              if-Safely evac st (any (is_busy_source evac.metadata.name source) evacs) _ _
                (λ _. wait-Safely evac st st _ 60 (ground arith))
                (λ _. (
                  tt,
                  λ a. lift-Safely evac st a _ elim [
                    | none ↦ λ _. fail-Safely evac st st _ (ground arith)
                    | some pv ↦ λ _. select_for-Safely r source pv
                  ],
                )),
        )
