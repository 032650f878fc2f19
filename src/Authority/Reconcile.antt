-- ===== src/Authority/Reconcile.antt =====
-- src/controller/state_machine.rs, `reconcile`, under the authority monitor.
use zfs_evacuation_controlle.Base.{
  String, Bool, true, false, not, ◌&&◌, Option, none, some, ◌≡◌, refl, arith, if◌then◌else◌,
  unwrap_or,
}
use zfs_evacuation_controlle.Kube.{PersistentVolume}
use zfs_evacuation_controlle.Crd.Evacuation.{
  Evacuation, EvacuationStatus, EvacuationTrigger, Phase, default_status, annotation, node_taint,
}
use zfs_evacuation_controlle.Effect.{ret}
use zfs_evacuation_controlle.Controller.Context.{Ctx, write_status}
use zfs_evacuation_controlle.Controller.Steps.{ensure_evac_finalizer}
use zfs_evacuation_controlle.Controller.StateMachine.{
  trigger_withdrawn, claim_lost, cancel_reason_started, cancel_reason, check_cancel, dispatch,
  cancel, proceed, let_go, carry_on, reconcile_status, reconcile, is_pending, is_terminal,
}
use zfs_evacuation_controlle.Controller.Abort.{is_aborting, run}
use zfs_evacuation_controlle.Authority.Diagram.{IsSound, Needs, may_follow}
use zfs_evacuation_controlle.Authority.Rules.{
  Safely, Stays, Stays-bind, Stays-weaken, if-Stays, lift-Stays, option-Stays, Stays-Safely,
  if-Safely,
}
use zfs_evacuation_controlle.Authority.Steps.{Any, remove_evac_finalizer-Stays}
use zfs_evacuation_controlle.Authority.Swap.{committing-Safely, swapping-Safely}
use zfs_evacuation_controlle.Authority.Early.{
  pending-Safely, guarding-Safely, retaining-Safely, locking-Safely, quiescing-Safely,
}
use zfs_evacuation_controlle.Authority.Select.{target_selecting-Safely}
use zfs_evacuation_controlle.Authority.Transfer.{transferring-Safely}
use zfs_evacuation_controlle.Authority.Finish.{adopting-Safely}
use zfs_evacuation_controlle.Authority.Cleanup.{cleaning_up-Safely}
use zfs_evacuation_controlle.Authority.Abort.{run-Safely, is_aborting_lem}

module _ (evac : Evacuation) (ctx : Ctx) (s : EvacuationStatus) where
  trigger_withdrawn-Stays :
      (t : EvacuationTrigger) (pv : PersistentVolume)
      → Stays evac s Any (trigger_withdrawn ctx t s pv)
  unfolding trigger_withdrawn
  trigger_withdrawn-Stays annotation pv = tt
  trigger_withdrawn-Stays node_taint pv = ground arith

  claim_lost-Stays : Stays evac s Any (claim_lost s)
  unfolding claim_lost
  claim_lost-Stays = ground arith

  cancel_reason_started-Stays : Stays evac s Any (cancel_reason_started ctx evac s)
  unfolding cancel_reason_started
  cancel_reason_started-Stays = (
    refl,
    tt,
    λ r. lift-Stays evac s Any r _ λ found.
        option-Stays evac s Any found _ _ (λ _. tt)
          λ pv _.
            Stays-bind evac Any Any s _ _ (trigger_withdrawn-Stays evac.spec.trigger pv)
              λ withdrawn _.
                option-Stays evac s Any withdrawn _ _ (λ _. claim_lost-Stays) (λ _ _. tt),
  )

  -- A reason to cancel is found before the commit point only.
  abbrev OnlyBefore : Option String → Type 0
  OnlyBefore none = Unit
  OnlyBefore (some reason) = s.committed ≡ false

  only_before : s.committed ≡ false → (reason : Option String) → OnlyBefore reason
  only_before h none = tt
  only_before h (some reason) = h

  check_cancel-Stays : Stays evac s OnlyBefore (check_cancel ctx evac s)
  unfolding check_cancel cancel_reason
  check_cancel-Stays = tested s.committed refl
    where
      before :
          s.committed ≡ false
          → (b : Bool)
          → Stays evac s OnlyBefore (if b then ret none else cancel_reason_started ctx evac s)
      before h true = tt
      before h false =
          Stays-weaken evac Any OnlyBefore s (cancel_reason_started ctx evac s)
            cancel_reason_started-Stays (only_before h)

      tested :
          (b : Bool)
          → s.committed ≡ b
          → Stays evac s OnlyBefore (
              if b
              then ret none
              else if is_pending s.phase
              then ret none
              else cancel_reason_started ctx evac s)
      tested true h = tt
      tested false h = before h (is_pending s.phase)

  dispatch-Safely : (p : Phase) → s.phase ≡ p → Needs p s → Safely evac s (dispatch ctx evac s p)
  unfolding dispatch
  dispatch-Safely Phase.pending at sound = pending-Safely evac ctx s at sound
  dispatch-Safely Phase.guarding at sound = guarding-Safely evac ctx s at sound
  dispatch-Safely Phase.retaining at sound = retaining-Safely evac ctx s at sound
  dispatch-Safely Phase.locking at sound = locking-Safely evac ctx s at sound
  dispatch-Safely Phase.quiescing at sound = quiescing-Safely evac ctx s at sound
  dispatch-Safely Phase.target_selecting at sound = target_selecting-Safely evac ctx s at sound
  dispatch-Safely Phase.transferring at sound = transferring-Safely evac s ctx at sound
  dispatch-Safely Phase.adopting at sound = adopting-Safely evac s at sound
  dispatch-Safely Phase.committing at sound = committing-Safely evac ctx s at sound
  dispatch-Safely Phase.swapping at sound = swapping-Safely evac ctx s at sound
  dispatch-Safely Phase.cleaning_up at sound = cleaning_up-Safely evac s at sound
  dispatch-Safely _ at sound = tt

  may_abort :
      (p : Phase)
      → Needs p s
      → s.committed ≡ false
      → is_terminal p ≡ false
      → may_follow p Phase.aborting ≡ true
  may_abort p sound early live = ground arith

  ensure_evac_finalizer-Stays : Stays evac s Any (ensure_evac_finalizer evac)
  unfolding ensure_evac_finalizer
  ensure_evac_finalizer-Stays = ground arith

  cancel-Safely :
      (reason : String)
      → IsSound s
      → s.committed ≡ false
      → is_terminal s.phase ≡ false
      → Safely evac s (cancel evac.metadata.name s reason)
  unfolding cancel write_status
  cancel-Safely reason sound early live =
      let may = may_abort s.phase sound early live in ground arith

  proceed-Safely : IsSound s → is_terminal s.phase ≡ false → Safely evac s (proceed ctx evac s)
  unfolding proceed
  proceed-Safely sound live = Stays-Safely evac s OnlyBefore _ _ check_cancel-Stays elim [
    | none ↦ λ _. dispatch-Safely s.phase refl sound
    | some reason ↦ λ early. cancel-Safely reason sound early live
  ]

  let_go-Safely : Safely evac s (let_go evac)
  unfolding let_go
  let_go-Safely =
      Stays-Safely evac s Any _ _
        (if-Stays evac s Any evac.metadata.deleting _ _ (remove_evac_finalizer-Stays evac s) tt)
        (λ _ _. tt)

  carry_on-Safely : IsSound s → is_terminal s.phase ≡ false → Safely evac s (carry_on ctx evac s)
  unfolding carry_on
  carry_on-Safely sound live =
      Stays-Safely evac s Any _ _
        (if-Stays evac s Any evac.metadata.deleting _ _ tt ensure_evac_finalizer-Stays)
        λ _ _.
          if-Safely evac s (is_aborting s.phase) _ _
            (λ at.
              let phase = is_aborting_lem s.phase at in
              run-Safely evac s s.message (ground arith) (ground arith))
            (λ _. proceed-Safely sound live)

  reconcile_status-Safely : IsSound s → Safely evac s (reconcile_status ctx evac s)
  unfolding reconcile_status
  reconcile_status-Safely sound =
      tested (is_terminal s.phase) refl evac.metadata.deleting s.committed refl
    where
      tested :
          (b : Bool)
          → is_terminal s.phase ≡ b
          → (deleting c : Bool) → s.committed ≡ c
          → Safely evac s (
              if b
              then let_go evac
              else if deleting && not c
              then run evac
                  (record s { message = some "ZFSEvacuation deleted before commit; aborting" })
              else carry_on ctx evac s)
      tested true h deleting c e = let_go-Safely
      tested false h true false e = run-Safely evac s _ (may_abort s.phase sound e h) e
      tested false h true true e = carry_on-Safely sound h
      tested false h false c e = carry_on-Safely sound h

-- The status that the object carries; without one, the default.
abbrev pub status_of : Evacuation → EvacuationStatus
status_of evac = unwrap_or default_status evac.status

-- From a status that holds the data its phase needs, one reconciliation makes only calls that the
-- recorded status authorises at that moment, whatever the server answers: status writes along the
-- phase diagram that keep what is recorded, and deletions, creations, finalizers, policies and locks
-- as `Allowed` lists them.
pub reconcile-Safely :
    (ctx : Ctx) (evac : Evacuation)
    → IsSound (status_of evac)
    → Safely evac (status_of evac) (reconcile ctx evac)
unfolding reconcile
reconcile-Safely ctx evac sound = reconcile_status-Safely evac ctx (status_of evac) sound
