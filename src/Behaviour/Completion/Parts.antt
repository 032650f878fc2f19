-- ===== src/Behaviour/Completion/Parts.antt =====
-- src/controller/state_machine.rs, `cleaning_up`: its parts under the watch of a duty.
use zfs_evacuation_controlle.Base.{
  String, ℕ, Bool, true, false, not, ◌&&◌, ◌||◌, Option, ◌≡◌, refl, arith, eqs, eq→eqs, and_then,
  is_some, is_some_and, lookup, if◌then◌else◌,
}
use zfs_evacuation_controlle.Kube.{PersistentVolume}
use zfs_evacuation_controlle.Crd.Openebs.{ZfsVolume}
use zfs_evacuation_controlle.Crd.Evacuation.{
  Evacuation, EvacuationStatus, SourceInfo, evacuate_annotation,
}
use zfs_evacuation_controlle.Effect.{ret, ask, ok, err, Kind, patch_evacuate_annotation_null}
use zfs_evacuation_controlle.Controller.Context.{write_status}
use zfs_evacuation_controlle.Controller.Steps.{say, wait}
use zfs_evacuation_controlle.Controller.StateMachine.{is_terminal}
use zfs_evacuation_controlle.Controller.Phases.{destroy_source, clear_trigger, transfer_gone}
use zfs_evacuation_controlle.Behaviour.Unwinding.{
  trigger_off, Performs, IsMiddle, IsMiddle-bind, IsMiddle-if, IsMiddle-option,
}
use zfs_evacuation_controlle.Behaviour.Unwinding.Parts.{
  set_finalizers-IsMiddle, strip-IsMiddle, cleanup-IsMiddle,
}
use zfs_evacuation_controlle.Behaviour.Unwinding.Performed.{or_right}

module _ (evac : Evacuation) where
  pub wait-IsMiddle :
      (st : EvacuationStatus) (msg : String) (secs : ℕ)
      → is_terminal st.phase ≡ false
      → IsMiddle (wait evac.metadata.name st msg secs)
  unfolding wait say write_status
  wait-IsMiddle st msg secs open' =
      IsMiddle-bind _ _
        (IsMiddle-if (is_some_and (λ m. eqs m msg) st.message) _ _ tt (open', λ r. ground arith))
        (λ _. tt)

  pub destroy_source-IsMiddle :
      (st : EvacuationStatus) (source : SourceInfo) (zv : ZfsVolume)
      → is_terminal st.phase ≡ false
      → IsMiddle (destroy_source evac st source zv)
  unfolding destroy_source
  destroy_source-IsMiddle st source zv open' =
      IsMiddle-bind _ _ (IsMiddle-if zv.metadata.deleting _ _ tt (refl, λ r. ground arith)) λ _.
        IsMiddle-bind _ _ (set_finalizers-IsMiddle Kind.zfs_volume source.volume_handle _ refl) λ _.
          IsMiddle-bind _ _
            (strip-IsMiddle Kind.zfs_volume source.volume_handle source.node_id refl)
            (λ _. wait-IsMiddle st _ 10 open')

  pub transfer_gone-IsMiddle : (st : EvacuationStatus) → IsMiddle (transfer_gone evac st)
  unfolding transfer_gone
  transfer_gone-IsMiddle st =
      IsMiddle-option st.transfer _ _ tt (λ t. cleanup-IsMiddle evac.metadata.name t.attempt st)

  -- The annotation is absent, or its removal was accepted.
  pub clear_trigger-Performs : (s : Bool) → Performs evac trigger_off s (clear_trigger evac)
  unfolding clear_trigger
  clear_trigger-Performs s = ((λ e. cc), elim [ ok found ↦ by_found found _ refl | err e ↦ tt ])
    where
      name_same : eqs evac.spec.pv_name evac.spec.pv_name ≡ true
      name_same = eq→eqs evac.spec.pv_name evac.spec.pv_name refl

      by_found :
          (found : Option PersistentVolume) (b : Bool)
          → is_some
              (and_then found (λ pv. and_then pv.metadata.annotations (lookup evacuate_annotation)))
            ≡ b
          → Performs evac trigger_off
              (s
                || (eqs evac.spec.pv_name evac.spec.pv_name
                    && not (
                        is_some (
                          and_then found (λ pv.
                            and_then pv.metadata.annotations (lookup evacuate_annotation))))))
              (if is_some (
                  and_then found
                    (λ pv. and_then pv.metadata.annotations (lookup evacuate_annotation)))
                then ask (patch_evacuate_annotation_null evac.spec.pv_name)
                else ret tt)
      by_found found true e = rw e (
        (λ x. cc),
        elim [ ok u ↦ or_right _ (eqs evac.spec.pv_name evac.spec.pv_name) name_same | err x ↦ tt ],
      )
      by_found found false e = rw e (or_right s _ (rw name_same refl))
