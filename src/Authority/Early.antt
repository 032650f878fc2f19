-- ===== src/Authority/Early.antt =====
-- src/controller/state_machine.rs, `pending` to `quiescing`, under the authority monitor.
use zfs_evacuation_controlle.Base.{
  ℕ, ◌-◌, ◌^◌, String, false, not, Option, none, some, ◌≡◌, refl, arith, is_empty, is_some,
  is_some_and, eqs, lookup, and_then, unwrap_or, ltb, ◌==◌, not,
}
use zfs_evacuation_controlle.Kube.{PersistentVolume, PvSpec, CsiSource, ObjectReference}
use zfs_evacuation_controlle.Crd.Openebs.{ZfsVolume, zfs_driver, marked_for_deletion}
use zfs_evacuation_controlle.Crd.Evacuation.{Evacuation, EvacuationStatus, Phase, PvcRef}
use zfs_evacuation_controlle.Effect.{Kind}
use zfs_evacuation_controlle.Controller.Context.{
  Ctx, write_status, lock_propagation_seconds, default_settle_seconds,
}
use zfs_evacuation_controlle.Controller.Steps.{fail}
use zfs_evacuation_controlle.Controller.Colocation.{capacity_of_volume}
use zfs_evacuation_controlle.Controller.Phases.{
  Bound, recorded, check_source_node, check_volume, check_claim, check_bound, check_csi, pending,
  is_resizing, source_handle_fits_snapshot_label, guarding, retaining, locking, settle_down, since,
  check_quiet, quiescing,
}
use zfs_evacuation_controlle.Authority.Diagram.{HasSource}
use zfs_evacuation_controlle.Authority.Warrant.{to_guard, retain, at_locking}
use zfs_evacuation_controlle.Authority.Rules.{
  Safely, Stays, require-Safely, lift-Safely, Stays-Safely, if-Safely,
}
use zfs_evacuation_controlle.Authority.Steps.{
  Any, advance-Safely, fail-Safely, wait-Safely, blocking_reason-Stays, pods_referencing_pvc-Stays,
  set_finalizers-Stays, node_by_id-Stays, update_params-Stays,
}

module _ (evac : Evacuation) (ctx : Ctx) (st : EvacuationStatus) where
  module _ (at : st.phase ≡ Phase.pending) (fresh : st.committed ≡ false) where
    refuse : (msg : String) → Safely evac st (fail evac.metadata.name st msg)
    refuse msg = fail-Safely evac st st msg (ground arith)

    check_source_node-Safely :
        (b : Bound) (zv : ZfsVolume) → Safely evac st (check_source_node ctx evac st b zv)
    unfolding check_source_node
    check_source_node-Safely b zv =
        Stays-Safely evac st Any _ _ (node_by_id-Stays evac st zv.spec.owner_node_id) elim [
          | none ↦ λ _. refuse _
          | some src_node ↦ λ _.
              if-Safely evac st (capacity_of_volume ctx zv == 0) _ _ (λ _. refuse _)
                λ _.
                  advance-Safely evac st (recorded b zv src_node (capacity_of_volume ctx zv) st)
                    Phase.guarding (ground arith)
        ]

    check_volume-Safely :
        (b : Bound) (zv : ZfsVolume) → Safely evac st (check_volume ctx evac st b zv)
    unfolding check_volume
    check_volume-Safely b zv =
        if-Safely evac st (is_some (and_then zv.metadata.annotations (lookup marked_for_deletion)))
          _ _ (λ _. refuse _)
          λ _.
            if-Safely evac st (not (eqs (unwrap_or "" zv.spec.snapname) "")) _ _ (λ _. refuse _)
              λ _. (
                tt,
                λ r. lift-Safely evac st r _ λ snaps _.
                    if-Safely evac st (is_empty snaps) _ _ (λ _. check_source_node-Safely b zv)
                      (λ _. refuse _),
              )

    check_claim-Safely : (b : Bound) → Safely evac st (check_claim ctx evac st b)
    unfolding check_claim
    check_claim-Safely b =
        if-Safely evac st
          (not
            (is_some_and (λ v. eqs v evac.spec.pv_name) (and_then b.pvc.spec (λ s. s.volume_name))))
          _ _ (λ _. refuse _)
          λ _.
            if-Safely evac st (is_resizing b.pvc) _ _ (λ _. refuse _)
              λ _. (
                tt,
                λ r.
                    lift-Safely evac st r _
                      elim [ none ↦ λ _. refuse _ | some z ↦ λ _. check_volume-Safely b z ],
              )

    check_named-Safely :
        (pv : PersistentVolume) (spec : PvSpec) (handle : String) (claim : ObjectReference)
        (ns name : Option String)
        → Safely evac st
            (check_bound ctx evac st pv spec handle (record claim { namespace = ns; name = name }))
    unfolding check_bound
    check_named-Safely pv spec handle claim none name = refuse _
    check_named-Safely pv spec handle claim (some ns) none = refuse _
    check_named-Safely pv spec handle claim (some ns) (some name) = (
      tt,
      λ r.
          lift-Safely evac st r _
            elim [ none ↦ λ _. refuse _ | some pvc ↦ λ _. check_claim-Safely _ ],
    )

    check_claimed-Safely :
        (pv : PersistentVolume) (spec : PvSpec) (csi : CsiSource) (claim : Option ObjectReference)
        → Safely evac st (check_csi ctx evac st pv (record spec { claim_ref = claim }) csi)
    unfolding check_csi
    check_claimed-Safely pv spec csi claim =
        if-Safely evac st (not (eqs csi.driver zfs_driver)) _ _ (λ _. refuse _)
          λ _.
            if-Safely evac st (not (source_handle_fits_snapshot_label csi.volume_handle)) _ _
              (λ _. refuse _) (λ _. claimed claim)
      where
        claimed :
            (c : Option ObjectReference)
            → Safely evac st (elim c [
              | none ↦
                  fail evac.metadata.name st "PV has no claimRef (unbound PVs need no evacuation)"
              | some claim' ↦
                  check_bound ctx evac st pv
                    (record spec { claim_ref = claim })
                    csi.volume_handle
                    claim'
            ])
        claimed none = refuse _
        claimed (some c) =
            check_named-Safely pv (record spec { claim_ref = claim }) csi.volume_handle c
              c.namespace c.name

    sourced-Safely :
        (pv : PersistentVolume) (spec : PvSpec) (csi : Option CsiSource)
        → Safely evac st (elim csi [
          | none ↦ fail evac.metadata.name st "PV is not a CSI volume"
          | some c ↦ check_csi ctx evac st pv spec c
        ])
    sourced-Safely pv spec none = refuse _
    sourced-Safely pv spec (some csi) = check_claimed-Safely pv spec csi spec.claim_ref

    specified-Safely :
        (pv : PersistentVolume) (spec : Option PvSpec)
        → Safely evac st (elim spec [
          | none ↦ fail evac.metadata.name st "PV is not a CSI volume"
          | some s ↦ elim s.csi [
            | none ↦ fail evac.metadata.name st "PV is not a CSI volume"
            | some csi ↦ check_csi ctx evac st pv s csi
          ]
        ])
    specified-Safely pv none = refuse _
    specified-Safely pv (some spec) = sourced-Safely pv spec spec.csi

    pub pending-Safely : Safely evac st (pending ctx evac st)
    unfolding pending
    pending-Safely = (
      tt,
      λ r.
          lift-Safely evac st r _
            elim [ none ↦ λ _. refuse _ | some pv ↦ λ _. specified-Safely pv pv.spec ],
    )

  pub guarding-Safely : st.phase ≡ Phase.guarding → HasSource st → Safely evac st (guarding evac st)
  unfolding guarding
  guarding-Safely at sound = require-Safely evac st st.source _ _ λ source e.
      Stays-Safely evac st Any _ _
        (set_finalizers-Stays evac st Kind.zfs_volume source.volume_handle _
          (λ fins. to_guard (rw e refl) at))
        (λ _ _. advance-Safely evac st st Phase.retaining (ground arith))

  pub retaining-Safely :
      st.phase ≡ Phase.retaining → HasSource st → Safely evac st (retaining evac st)
  unfolding retaining
  retaining-Safely at sound = (
    (refl, retain at refl),
    λ r. lift-Safely evac st r _ λ _ _. advance-Safely evac st st Phase.locking (ground arith),
  )

  pub locking-Safely : st.phase ≡ Phase.locking → HasSource st → Safely evac st (locking evac st)
  unfolding locking
  locking-Safely at sound = require-Safely evac st st.pvc_ref _ _ λ pvc_ref _.
      Stays-Safely evac st Any _ _ (update_params-Stays evac st _ (at_locking at)) λ _ _. (
        at_locking at,
        λ r. lift-Safely evac st r _ λ _ _ now.
            advance-Safely evac st (record st { locked_at = some now }) Phase.quiescing
              (ground arith),
      )

  module _ (at : st.phase ≡ Phase.quiescing) (sound : HasSource st) where
    settle_down-Safely : (elapsed : Option ℕ) → Safely evac st (settle_down evac st elapsed)
    unfolding settle_down write_status
    settle_down-Safely none = λ now. ground arith
    settle_down-Safely (some secs) =
        if-Safely evac st (ltb secs (unwrap_or default_settle_seconds evac.spec.settle_seconds)) _ _
          (λ _. tt) (λ _. advance-Safely evac st st Phase.target_selecting (ground arith))

    since-Stays : (t : Option String) → Stays evac st Any (since t)
    unfolding since
    since-Stays none = tt
    since-Stays (some t) = λ r. tt

    check_quiet-Safely : (pvc_ref : PvcRef) → Safely evac st (check_quiet ctx evac st pvc_ref)
    unfolding check_quiet
    check_quiet-Safely pvc_ref =
        Stays-Safely evac st Any _ _ (pods_referencing_pvc-Stays evac st _ _) λ pods _.
          Stays-Safely evac st Any _ _ (blocking_reason-Stays evac st ctx evac.spec.mode st pods)
            elim [
              | some msg ↦
                  λ _. wait-Safely evac st (record st { quiesced_at = none }) msg 15 (ground arith)
              | none ↦ λ _.
                  Stays-Safely evac st Any _ _ (since-Stays st.quiesced_at)
                    λ elapsed _. settle_down-Safely elapsed
            ]

    pub quiescing-Safely : Safely evac st (quiescing ctx evac st)
    unfolding quiescing
    quiescing-Safely = require-Safely evac st st.pvc_ref _ _ λ pvc_ref _.
        Stays-Safely evac st Any _ _ (since-Stays st.locked_at) λ since_lock _.
          if-Safely evac st (ltb (unwrap_or (2 ^ 64 - 1) since_lock) lock_propagation_seconds) _ _
            (λ _. tt) (λ _. check_quiet-Safely pvc_ref)
