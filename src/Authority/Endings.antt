-- ===== src/Authority/Endings.antt =====
-- src/controller/state_machine.rs, `reconcile` in the terminal phases.
use zfs_evacuation_controlle.Base.{true, ◌≡◌, refl, sym, ◌∙◌, subst, arith}
use zfs_evacuation_controlle.Crd.Evacuation.{Evacuation, EvacuationStatus, Phase}
use zfs_evacuation_controlle.Effect.{M, call, sense, Call, Value, Answer, ok, err, patch_status}
use zfs_evacuation_controlle.Controller.Context.{Ctx}
use zfs_evacuation_controlle.Controller.StateMachine.{reconcile, is_terminal}
use zfs_evacuation_controlle.Authority.Diagram.{IsSound, may_follow}
use zfs_evacuation_controlle.Authority.Warrant.{Allowed, recorded_after}
use zfs_evacuation_controlle.Authority.Rules.{Safely}
use zfs_evacuation_controlle.Authority.Reconcile.{reconcile-Safely, status_of}
use zfs_evacuation_controlle.Authority.History.{Leaves}

no_way_out : (p q : Phase) → is_terminal p ≡ true → may_follow p q ≡ true → ⊥
no_way_out p q t e = ground arith

module _ (evac : Evacuation) where
  call_kept :
      (s : EvacuationStatus) (c : Call) (r : Answer (Value c))
      → is_terminal s.phase ≡ true
      → Allowed evac s c
      → recorded_after s c r ≡ s
  call_kept s (patch_status name t) (ok _) end h =
      elim (no_way_out s.phase t.phase end h.1.edge) [ ]
  call_kept s (patch_status name t) (err e) end h = refl
  call_kept s _ r end h = refl

  Leaves-kept :
      {A : Type 0} (s s' : EvacuationStatus) (t : M A)
      → is_terminal s.phase ≡ true
      → Safely evac s t
      → Leaves s t s'
      → s' ≡ s
  Leaves-kept s s' t end h Leaves.stopped = refl
  Leaves-kept s s' (call c k) end h (Leaves.answered r next) =
      let kept = call_kept s c r end h.0 in
      Leaves-kept (recorded_after s c r) s' (k r)
        (subst (λ x. is_terminal x.phase ≡ true) (sym kept) end) (h.1 r) next
      ∙ kept
  Leaves-kept s s' (sense q k) end h (Leaves.sensed r next) = Leaves-kept s s' (k r) end (h r) next

-- From a sound status in Completed or Failed, a reconciliation leaves the status as it is, at
-- whatever call it stops.
pub terminal_is_final :
    (ctx : Ctx) (evac : Evacuation) (s : EvacuationStatus)
    → IsSound (status_of evac)
    → is_terminal (status_of evac).phase ≡ true
    → Leaves (status_of evac) (reconcile ctx evac) s
    → s ≡ status_of evac
terminal_is_final ctx evac s sound end run =
    Leaves-kept evac (status_of evac) s (reconcile ctx evac) end (reconcile-Safely ctx evac sound)
      run
