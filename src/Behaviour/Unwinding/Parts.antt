-- ===== src/Behaviour/Unwinding/Parts.antt =====
-- src/controller/abort.rs, `run`: the parts of the unwinding, none of which ends the abort.
use zfs_evacuation_controlle.Base.{
  ℕ, zero, suc, String, Bool, true, false, not, ◌&&◌, Option, none, some, List, ◌≡◌, refl, arith,
  eqs, is_some, is_some_and, and_then, ◌==◌, if◌then◌else◌,
}
use zfs_evacuation_controlle.Crd.Openebs.{ZfsVolume, ZfsBackup, ZfsRestore, bkp_status_done}
use zfs_evacuation_controlle.Crd.Params.{ParamsSpec, EvacuationParams, default_params}
use zfs_evacuation_controlle.Crd.Evacuation.{
  Evacuation, EvacuationStatus, SourceInfo, TargetInfo, TransferStatus,
}
use zfs_evacuation_controlle.Effect.{M, ret, ◌>>◌, Answer, ok, err, api, transport, Kind}
use zfs_evacuation_controlle.Controller.Context.{
  write_status, update_params, update_params_rounds, update_params_round, written,
}
use zfs_evacuation_controlle.Controller.Nodes.{node_by_id}
use zfs_evacuation_controlle.Controller.Steps.{
  say, set_finalizers, strip_zfs_finalizer_if_node_gone, absent_or_there,
}
use zfs_evacuation_controlle.Controller.Transfer.{
  delete_or_strip, cleanup_backup, cleanup_restore, cleanup_transfer_crs, drop_relay,
}
use zfs_evacuation_controlle.Controller.Abort.{
  later, requeue_msg, destroy_target, drop_transfer, adopt_orphan, undo_transfer, undo_target,
  restore_policy_of, restore_policy, unlock_pvc, pvc_is_gone, reclaim_source, honor_deletion,
  drop_guard,
}
use zfs_evacuation_controlle.Controller.StateMachine.{is_terminal}
use zfs_evacuation_controlle.Behaviour.Unwinding.{
  IsMiddle, IsMiddle-bind, IsMiddle-require, IsMiddle-lift, IsMiddle-if, IsMiddle-option,
}

abbrev is_evacuation : Kind → Bool
is_evacuation Kind.evacuation = true
is_evacuation _ = false

pub node_by_id-IsMiddle : (id : String) → IsMiddle (node_by_id id)
unfolding node_by_id
node_by_id-IsMiddle id = ground arith

pub set_finalizers-IsMiddle :
    (kind : Kind) (name : String) (f : List String → List String)
    → is_evacuation kind ≡ false
    → IsMiddle (set_finalizers kind name f)
unfolding set_finalizers
set_finalizers-IsMiddle kind name f h = ground arith

pub strip-IsMiddle :
    (kind : Kind) (name id : String)
    → is_evacuation kind ≡ false
    → IsMiddle (strip_zfs_finalizer_if_node_gone kind name id)
unfolding strip_zfs_finalizer_if_node_gone
strip-IsMiddle kind name id h =
    IsMiddle-bind _ _ (node_by_id-IsMiddle id)
      (λ node. IsMiddle-if (is_some node) _ _ tt (set_finalizers-IsMiddle kind name _ h))

pub delete_or_strip-IsMiddle :
    (kind : Kind) (name : String) (deleting : Bool) (id : Option String)
    → is_evacuation kind ≡ false
    → IsMiddle (delete_or_strip kind name deleting id)
unfolding delete_or_strip
delete_or_strip-IsMiddle kind name true none h = tt
delete_or_strip-IsMiddle kind name true (some id) h = strip-IsMiddle kind name id h
delete_or_strip-IsMiddle kind name false id h = ground arith

pub cleanup_backup-IsMiddle : (b : String) (id : Option String) → IsMiddle (cleanup_backup b id)
unfolding cleanup_backup
cleanup_backup-IsMiddle b id = (refl, λ r. IsMiddle-lift r _ λ cr. by_cr cr)
  where
    by_cr :
        (cr : Option ZfsBackup)
        → IsMiddle (elim cr [
          | none ↦ ret true
          | some c ↦ (do delete_or_strip Kind.zfs_backup b c.metadata.deleting id; ret false)
        ])
    by_cr none = tt
    by_cr (some c) =
        IsMiddle-bind _ _ (delete_or_strip-IsMiddle Kind.zfs_backup b c.metadata.deleting id refl)
          (λ _. tt)

pub cleanup_restore-IsMiddle : (r : String) (id : Option String) → IsMiddle (cleanup_restore r id)
unfolding cleanup_restore
cleanup_restore-IsMiddle r id = (
  refl,
  λ a. IsMiddle-lift a _ λ cr. IsMiddle-option cr _ _ tt (λ c.
      IsMiddle-bind _ _ (delete_or_strip-IsMiddle Kind.zfs_restore r c.metadata.deleting id refl)
        (λ _. tt)),
)

pub cleanup-IsMiddle :
    (name : String) (attempt : ℕ) (st : EvacuationStatus)
    → IsMiddle (cleanup_transfer_crs name attempt st)
unfolding cleanup_transfer_crs
cleanup-IsMiddle name attempt st =
    IsMiddle-bind _ _ (cleanup_backup-IsMiddle _ _)
      λ b. IsMiddle-bind _ _ (cleanup_restore-IsMiddle _ _) (λ r. tt)

pub drop_relay-IsMiddle : (name : String) → IsMiddle (drop_relay name)
unfolding drop_relay
drop_relay-IsMiddle name = λ r. tt

pub absent_or_there-IsMiddle : (r : Answer (Unit {0})) → IsMiddle (absent_or_there r)
absent_or_there-IsMiddle r = ground arith

update_params_rounds-IsMiddle :
    (n : ℕ) (mutate : ParamsSpec → ParamsSpec × Bool) → IsMiddle (update_params_rounds n mutate)
unfolding update_params_rounds
update_params_rounds-IsMiddle zero mutate = tt
update_params_rounds-IsMiddle (suc n) mutate = (
  refl,
  λ r.
      IsMiddle-lift r _
        (round (update_params_rounds n mutate) (update_params_rounds-IsMiddle n mutate)),
)
  where
    ending :
        (again : M (Unit {0}))
        → IsMiddle again
        → (r : Answer (Unit {0})) → IsMiddle (written again r)
    ending again h (ok _) = tt
    ending again h (err (api code)) = IsMiddle-if (code == 409) _ _ h tt
    ending again h (err transport) = tt

    round :
        (again : M (Unit {0}))
        → IsMiddle again
        → (p : Option EvacuationParams) → IsMiddle (update_params_round mutate again p)
    round again h none = IsMiddle-if (mutate default_params).1 _ _ (refl, ending again h) tt
    round again h (some p) = IsMiddle-if (mutate p.spec).1 _ _ (refl, ending again h) tt

restore_policy_of-IsMiddle :
    (evac : Evacuation) (source : SourceInfo) (orig : String)
    → IsMiddle (restore_policy_of evac source orig)
unfolding restore_policy_of
restore_policy_of-IsMiddle evac source orig = ground arith

pub restore_policy-IsMiddle :
    (evac : Evacuation) (st : EvacuationStatus) → IsMiddle (restore_policy evac st)
unfolding restore_policy
restore_policy-IsMiddle evac st = IsMiddle-option st.source _ _ tt λ source.
    IsMiddle-option st.original_reclaim_policy _ _ tt (restore_policy_of-IsMiddle evac source)

pub update_params-IsMiddle :
    (mutate : ParamsSpec → ParamsSpec × Bool) → IsMiddle (update_params mutate)
unfolding update_params
update_params-IsMiddle mutate = update_params_rounds-IsMiddle 8 mutate

pub unlock_pvc-IsMiddle : (st : EvacuationStatus) → IsMiddle (unlock_pvc st)
unfolding unlock_pvc
unlock_pvc-IsMiddle st =
    IsMiddle-option st.pvc_ref _ _ tt
      λ r. IsMiddle-bind _ _ (update_params-IsMiddle _) (λ _. (refl, λ x. tt))

reclaim_source-IsMiddle : (source : SourceInfo) → IsMiddle (reclaim_source source)
unfolding reclaim_source
reclaim_source-IsMiddle source = ground arith

pub honor_deletion-IsMiddle :
    (evac : Evacuation) (st : EvacuationStatus) (source : SourceInfo)
    → IsMiddle (honor_deletion evac st source)
unfolding honor_deletion pvc_is_gone
honor_deletion-IsMiddle evac st source =
    IsMiddle-bind _ _
      (IsMiddle-option st.pvc_ref _ _ tt λ r. (refl, λ x. IsMiddle-lift x _ (λ _. tt)))
      λ gone. (
        refl,
        λ x. IsMiddle-lift x _ λ pv.
            IsMiddle-if
              ((gone && not (is_some pv))
                && is_some_and (λ p. eqs p "Delete") st.original_reclaim_policy)
              (reclaim_source source) (ret tt) (reclaim_source-IsMiddle source) tt,
      )

pub drop_guard-IsMiddle : (source : SourceInfo) → IsMiddle (drop_guard source)
unfolding drop_guard
drop_guard-IsMiddle source =
    IsMiddle-bind _ _ (set_finalizers-IsMiddle Kind.zfs_volume source.volume_handle _ refl)
      (λ _. strip-IsMiddle Kind.zfs_volume source.volume_handle source.node_id refl)

-- The parts that wait write a message, in a phase that is not Failed.
module _ (name : String) (st : EvacuationStatus) (open' : is_terminal st.phase ≡ false) where
  pub requeue_msg-IsMiddle : (msg : String) → IsMiddle (requeue_msg name st msg)
  unfolding requeue_msg say write_status
  requeue_msg-IsMiddle msg =
      IsMiddle-bind _ _
        (IsMiddle-if (is_some_and (λ m. eqs m msg) st.message) _ _ tt (open', λ r. ground arith))
        (λ _. tt)

  later-IsMiddle : (msg : String) → IsMiddle (later (requeue_msg name st msg))
  later-IsMiddle msg = IsMiddle-bind _ _ (requeue_msg-IsMiddle msg) (λ a. tt)

  pub destroy_target-IsMiddle :
      (target : TargetInfo) (zv : ZfsVolume) → IsMiddle (destroy_target name st target zv)
  unfolding destroy_target
  destroy_target-IsMiddle target zv =
      IsMiddle-bind _ _ (IsMiddle-if zv.metadata.deleting _ _ tt (refl, λ r. ground arith)) λ _.
        IsMiddle-bind _ _
          (strip-IsMiddle Kind.zfs_volume target.new_volume_handle target.node_id refl)
          (λ _. later-IsMiddle _)

  pub drop_transfer-IsMiddle : (t : TransferStatus) → IsMiddle (drop_transfer name st t)
  unfolding drop_transfer
  drop_transfer-IsMiddle t =
      IsMiddle-bind _ _ (cleanup-IsMiddle name t.attempt st)
        (λ gone. IsMiddle-if gone _ _ tt (later-IsMiddle _))

  pub adopt_orphan-IsMiddle :
      (target : TargetInfo) (t : TransferStatus) → IsMiddle (adopt_orphan name st target t)
  unfolding adopt_orphan
  adopt_orphan-IsMiddle target t = IsMiddle-require st.source _ _ λ src. (
    refl,
    λ r. IsMiddle-lift r _ λ found.
        IsMiddle-option found _ _ (drop_transfer-IsMiddle t)
          λ zv. (refl, λ x. IsMiddle-bind _ _ (absent_or_there-IsMiddle x) (λ _. later-IsMiddle _)),
  )

  pub undo_transfer-IsMiddle :
      (target : TargetInfo) (t : TransferStatus) → IsMiddle (undo_transfer name st target t)
  unfolding undo_transfer
  undo_transfer-IsMiddle target t =
      (refl, λ r. IsMiddle-lift r _ λ rst. (refl, λ x. IsMiddle-lift x _ (by_volume rst)))
    where
      by_volume :
          (rst : Option ZfsRestore) (found : Option ZfsVolume)
          → IsMiddle (elim found [
            | some zv ↦ destroy_target name st target zv
            | none ↦
                if is_some_and (λ s. eqs s bkp_status_done) (and_then rst (λ r. r.status))
                then adopt_orphan name st target t
                else drop_transfer name st t
          ])
      by_volume rst none =
          IsMiddle-if (is_some_and (λ s. eqs s bkp_status_done) (and_then rst (λ r. r.status))) _ _
            (adopt_orphan-IsMiddle target t) (drop_transfer-IsMiddle t)
      by_volume rst (some zv) = destroy_target-IsMiddle target zv

  pub undo_target-IsMiddle : IsMiddle (undo_target name st)
  unfolding undo_target
  undo_target-IsMiddle =
      IsMiddle-option st.target _ _ tt
        λ target. IsMiddle-option st.transfer _ _ tt (undo_transfer-IsMiddle target)
