-- ===== src/Controller/StateMachine.antt =====
-- src/controller/state_machine.rs: `reconcile` and the cancel conditions.
use zfs_evacuation_controlle.Base.{
  String, Bool, true, false, not, ◌&&◌, Option, none, some, eqs, and_then, is_some_and, unwrap_or,
  lookup, if◌then◌else◌,
}
use zfs_evacuation_controlle.Kube.{PersistentVolume}
use zfs_evacuation_controlle.Crd.Evacuation.{
  Evacuation, EvacuationStatus, EvacuationTrigger, Phase, default_status, annotation, node_taint,
  evacuate_annotation,
}
use zfs_evacuation_controlle.Effect.{
  M, ret, throw, ask, ◌>>=◌, ◌>>◌, Error, get_pv, get_pvc, get_node, other,
}
use zfs_evacuation_controlle.Controller.Context.{
  Ctx, Action, requeue_secs, await_change, write_status,
}
use zfs_evacuation_controlle.Controller.Nodes.{node_has_evacuate_taint}
use zfs_evacuation_controlle.Controller.Steps.{ensure_evac_finalizer, remove_evac_finalizer}
use zfs_evacuation_controlle.Controller.Transfer.{transferring}
use zfs_evacuation_controlle.Controller.PvSwap.{committing, swapping, has_uid}
use zfs_evacuation_controlle.Controller.Phases.{
  pending, guarding, retaining, locking, quiescing, target_selecting, adopting, cleaning_up,
}
use zfs_evacuation_controlle.Controller.Abort

-- Is the evacuation's trigger withdrawn? The reason, if so.
unfoldable pub trigger_withdrawn :
    Ctx → EvacuationTrigger → EvacuationStatus → PersistentVolume → M (Option String)
trigger_withdrawn ctx annotation st pv = ret (
    if is_some_and (λ v. eqs v "true")
      (and_then pv.metadata.annotations (lookup evacuate_annotation))
    then none
    else some "evacuate annotation removed (cancelled)")
trigger_withdrawn ctx node_taint st pv = elim st.source [
  | none ↦ ret none
  | some src ↦ do
    node ← ask (get_node src.node)
    ret (
        if is_some_and (λ n. not (node_has_evacuate_taint n ctx.cfg.taint_key)) node
        then some "source node's evacuate taint removed (cancelled)"
        else none)
]

-- Is the claim gone or another one?
unfoldable pub claim_lost : EvacuationStatus → M (Option String)
claim_lost st = elim st.pvc_ref [
  | none ↦ ret none
  | some r ↦ do
    found ← ask (get_pvc r.namespace r.name)
    ret (elim found [
      | none ↦ some "PVC deleted during evacuation"
      | some pvc ↦
          if has_uid r.uid pvc.metadata
          then none
          else some "PVC replaced (UID changed) during evacuation"
    ])
]

abbrev pub is_pending : Phase → Bool
is_pending Phase.pending = true
is_pending _ = false

unfoldable pub cancel_reason_started : Ctx → Evacuation → EvacuationStatus → M (Option String)
unfolding trigger_withdrawn claim_lost
cancel_reason_started ctx evac st = do
  found ← ask (get_pv evac.spec.pv_name)
  elim found [
    | none ↦ ret (some "source PV disappeared before commit")
    | some pv ↦ do
      withdrawn ← trigger_withdrawn ctx evac.spec.trigger st pv
      elim withdrawn [ some reason ↦ ret (some reason) | none ↦ claim_lost st ]
  ]

unfoldable pub cancel_reason : Ctx → Evacuation → EvacuationStatus → M (Option String)
unfolding cancel_reason_started
cancel_reason ctx evac st =
    if is_pending st.phase then ret none else cancel_reason_started ctx evac st

-- `match st.phase`; the last clause is `unreachable!()`.
unfoldable pub dispatch : Ctx → Evacuation → EvacuationStatus → Phase → M Action
dispatch ctx evac st Phase.pending = pending ctx evac st
dispatch ctx evac st Phase.guarding = guarding evac st
dispatch ctx evac st Phase.retaining = retaining evac st
dispatch ctx evac st Phase.locking = locking evac st
dispatch ctx evac st Phase.quiescing = quiescing ctx evac st
dispatch ctx evac st Phase.target_selecting = target_selecting ctx evac st
dispatch ctx evac st Phase.transferring = transferring ctx evac st
dispatch ctx evac st Phase.adopting = adopting evac st
dispatch ctx evac st Phase.committing = committing ctx evac st
dispatch ctx evac st Phase.swapping = swapping ctx evac st
dispatch ctx evac st Phase.cleaning_up = cleaning_up evac st
dispatch ctx evac st _ = throw (other "unreachable")

-- A cancel condition, before the commit point.
unfoldable pub check_cancel : Ctx → Evacuation → EvacuationStatus → M (Option String)
check_cancel ctx evac st = if st.committed then ret none else cancel_reason ctx evac st

unfoldable pub cancel : String → EvacuationStatus → String → M Action
cancel name st reason = do
  write_status name (record st { phase = Phase.aborting; cancelled = true; message = some reason })
  ret (requeue_secs 1)

-- The object is live, or past its commit point.
unfoldable pub proceed : Ctx → Evacuation → EvacuationStatus → M Action
unfolding cancel check_cancel
proceed ctx evac st = do
  reason ← check_cancel ctx evac st
  elim reason [ some r ↦ cancel evac.metadata.name st r | none ↦ dispatch ctx evac st st.phase ]

abbrev pub is_terminal : Phase → Bool
is_terminal Phase.completed = true
is_terminal Phase.failed = true
is_terminal _ = false

-- Completed and Failed: only the finalizer is left to remove.
unfoldable pub let_go : Evacuation → M Action
let_go evac = do
  (if evac.metadata.deleting then remove_evac_finalizer evac.metadata.name else ret tt)
  ret await_change

-- Live, or past the commit point: our finalizer is put in place while the object is alive.
unfoldable pub carry_on : Ctx → Evacuation → EvacuationStatus → M Action
carry_on ctx evac st = do
  (if evac.metadata.deleting then ret tt else ensure_evac_finalizer evac)
  if Abort.is_aborting st.phase then Abort.run evac st else proceed ctx evac st

unfoldable pub reconcile_status : Ctx → Evacuation → EvacuationStatus → M Action
reconcile_status ctx evac st =
    if is_terminal st.phase
    then let_go evac
    else if evac.metadata.deleting && not st.committed
    then Abort.run evac
        (record st { message = some "ZFSEvacuation deleted before commit; aborting" })
    else carry_on ctx evac st

unfoldable pub reconcile : Ctx → Evacuation → M Action
reconcile ctx evac = reconcile_status ctx evac (unwrap_or default_status evac.status)

unfoldable pub error_policy : Error → Action
error_policy e = requeue_secs 15
