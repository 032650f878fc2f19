-- ===== src/Authority/Abort.antt =====
-- src/controller/abort.rs under the authority monitor.
use zfs_evacuation_controlle.Base.{
  String, true, false, Option, none, some, ◌≡◌, refl, sym, ◌∙◌, arith, is_some_and, eqs, and_then,
  if◌then◌else◌,
}
use zfs_evacuation_controlle.Crd.Openebs.{ZfsVolume, bkp_status_done}
use zfs_evacuation_controlle.Crd.Evacuation.{
  Evacuation, EvacuationStatus, Phase, TargetInfo, TransferStatus,
}
use zfs_evacuation_controlle.Effect.{ret, ◌>>=◌, Kind, Outcome, done, raised, Safe, Safe-bind}
use zfs_evacuation_controlle.Controller.Context.{write_status}
use zfs_evacuation_controlle.Controller.Steps.{target_zfsvolume, say}
use zfs_evacuation_controlle.Controller.Transfer.{drop_relay}
use zfs_evacuation_controlle.Controller.Abort.{
  Progress, requeue_msg, destroy_target, drop_transfer, adopt_orphan, undo_transfer, undo_target,
  unwind, is_aborting, run, later,
}
use zfs_evacuation_controlle.Authority.Diagram.{Follows, may_follow}
use zfs_evacuation_controlle.Authority.Warrant.{Recorded, the_target, to_free_target, authority}
use zfs_evacuation_controlle.Authority.Rules.{
  Anyhow, Safely, Safe-Stays, if-Stays, Stays-Safely, if-Safe, lift-Safe, option-Safe, require-Safe,
}
use zfs_evacuation_controlle.Authority.Steps.{Any, strip_zfs_finalizer-Stays, absent_or_there-Stays}
use zfs_evacuation_controlle.Authority.Transfer.{cleanup_transfer_crs-Stays, drop_relay-Stays}
use zfs_evacuation_controlle.Authority.Unwind.{Agrees, unwind-Safely}

-- An early return ends the run; otherwise nothing has been written.
abbrev Unwritten : EvacuationStatus → EvacuationStatus → Outcome Progress → Type 0
Unwritten st s' (done none) = Agrees s' st
Unwritten st s' (done (some action)) = Unit
Unwritten st s' (raised e) = Unit

module _ (evac : Evacuation) (s st : EvacuationStatus) (agrees : Agrees s st) where
  message-Follows : (msg : String) → Follows s (record st { message = some msg })
  message-Follows msg = ground arith

  requeue_msg-Safe :
      (msg : String)
      → Safe (authority evac) (Unwritten st) s (later (requeue_msg evac.metadata.name st msg))
  unfolding requeue_msg say write_status
  requeue_msg-Safe msg = let follows = message-Follows msg in ground arith

  destroy_target-Safe :
      (target : TargetInfo) (zv : ZfsVolume)
      → st.target ≡ some target
      → Safe (authority evac) (Unwritten st) s (destroy_target evac.metadata.name st target zv)
  unfolding destroy_target
  destroy_target-Safe target zv e =
      let is_target : Recorded s.target (λ x. x.new_volume_handle ≡ target.new_volume_handle) =
        rw (sym agrees.target ∙ e) refl in
      Safe-Stays evac Any (Unwritten st) s _ _
        (if-Stays evac s Any zv.metadata.deleting _ _ tt
          (refl, the_target is_target agrees.phase, λ r. ground arith))
        (λ _ _.
          Safe-Stays evac Any (Unwritten st) s _ _
            (strip_zfs_finalizer-Stays evac s Kind.zfs_volume target.new_volume_handle
              target.node_id (λ fins. to_free_target is_target agrees.phase))
            (λ _ _. requeue_msg-Safe _) (λ x. tt))
        (λ x. tt)

  drop_transfer-Safe :
      (t : TransferStatus)
      → st.transfer ≡ some t
      → Safe (authority evac) (Unwritten st) s (drop_transfer evac.metadata.name st t)
  unfolding drop_transfer
  drop_transfer-Safe t e =
      Safe-Stays evac Any (Unwritten st) s _ _
        (cleanup_transfer_crs-Stays evac s t st (sym agrees.transfer ∙ e))
        (λ gone _. if-Safe evac (Unwritten st) s gone _ _ (λ _. agrees) (λ _. requeue_msg-Safe _))
        (λ x. tt)

  adopt_orphan-Safe :
      (target : TargetInfo) (t : TransferStatus)
      → st.target ≡ some target
      → st.transfer ≡ some t
      → Safe (authority evac) (Unwritten st) s (adopt_orphan evac.metadata.name st target t)
  unfolding adopt_orphan target_zfsvolume
  adopt_orphan-Safe target t e f =
      require-Safe evac (Unwritten st) s (λ x. tt) st.source _ _
        λ src _. (
          tt,
          λ r.
              lift-Safe evac (Unwritten st) s (λ x. tt) r _
                elim [
                  | none ↦ λ _. drop_transfer-Safe t f
                  | some src_zv ↦ λ _. (
                    rw (sym agrees.target ∙ e) refl,
                    λ q.
                        Safe-Stays evac Any (Unwritten st) s _ _ (absent_or_there-Stays evac s q)
                          (λ _ _. requeue_msg-Safe _) (λ x. tt),
                  )
                ],
        )

  undo_transfer-Safe :
      (target : TargetInfo) (t : TransferStatus)
      → st.target ≡ some target
      → st.transfer ≡ some t
      → Safe (authority evac) (Unwritten st) s (undo_transfer evac.metadata.name st target t)
  unfolding undo_transfer
  undo_transfer-Safe target t e f = (
    tt,
    λ r.
        lift-Safe evac (Unwritten st) s (λ x. tt) r _
          λ rst _. (
            tt,
            λ q.
                lift-Safe evac (Unwritten st) s (λ x. tt) q _
                  elim [
                    | none ↦ λ _.
                        if-Safe evac (Unwritten st) s
                          (is_some_and (λ x. eqs x bkp_status_done) (and_then rst (λ x. x.status)))
                          _ _ (λ _. adopt_orphan-Safe target t e f) (λ _. drop_transfer-Safe t f)
                    | some zv ↦ λ _. destroy_target-Safe target zv e
                  ],
          ),
  )

  undo_target-Safe : Safe (authority evac) (Unwritten st) s (undo_target evac.metadata.name st)
  unfolding undo_target
  undo_target-Safe =
      option-Safe evac (Unwritten st) s st.target _ _ (λ _. agrees)
        λ target e.
          option-Safe evac (Unwritten st) s st.transfer _ _ (λ _. agrees)
            (λ t f. undo_transfer-Safe target t e f)

pub is_aborting_lem : (p : Phase) → is_aborting p ≡ true → p ≡ Phase.aborting
is_aborting_lem Phase.aborting h = refl
is_aborting_lem _ h = cc

module _ (evac : Evacuation) (s : EvacuationStatus) (msg : Option String) where
  abbrev brought : EvacuationStatus
  brought = record s { message = msg; phase = Phase.aborting }

  undo-Safely :
      (s' : EvacuationStatus)
      → Agrees s' brought
      → Safely evac s' (
          drop_relay evac.metadata.name >>= λ _. undo_target evac.metadata.name brought >>= λ early.
          elim early [ some action ↦ ret action | none ↦ unwind evac brought ])
  undo-Safely s' agrees = Stays-Safely evac s' Any _ _ (drop_relay-Stays evac s') λ _ _.
      Safe-bind (authority evac) (Unwritten brought) (Anyhow evac) s' _ _
        (undo_target-Safe evac s' brought agrees) onward (λ _ _ _. tt)
    where
      onward :
          (s'' : EvacuationStatus) (early : Progress)
          → Unwritten brought s'' (done early)
          → Safely evac s'' (elim early [ some action ↦ ret action | none ↦ unwind evac brought ])
      onward s'' none still = unwind-Safely evac s'' brought still
      onward s'' (some action) still = tt

  abbrev Brought : {A : Type 0} → EvacuationStatus → Outcome A → Type 0
  Brought s' (done a) = Agrees s' brought
  Brought s' (raised e) = Unit

  module _ (live : may_follow s.phase Phase.aborting ≡ true)
      (uncommitted : s.committed ≡ false) where
    bring-Safe :
        Safe
          (authority evac)
          Brought
          s
          (if is_aborting s.phase then ret tt else write_status evac.metadata.name brought)
    unfolding write_status
    bring-Safe =
        if-Safe evac Brought s (is_aborting s.phase) _ _
          (λ at. let phase = is_aborting_lem s.phase at in ground arith) (λ _. ground arith)

    pub run-Safely : Safely evac s (run evac (record s { message = msg }))
    unfolding run
    run-Safely =
        Safe-bind (authority evac) Brought (Anyhow evac) s _ _ bring-Safe
          (λ s' _ agrees. undo-Safely s' agrees) (λ _ _ _. tt)
