-- ===== src/Behaviour/Reclaim/Parts.antt =====
-- src/controller/abort.rs, `run`: the parts of the unwinding that delete no volume.
use zfs_evacuation_controlle.Base.{
  String, Bool, true, false, Option, none, some, ◌≡◌, refl, arith, is_some,
}
use zfs_evacuation_controlle.Crd.Params.{ParamsSpec}
use zfs_evacuation_controlle.Crd.Evacuation.{
  Evacuation, EvacuationStatus, SourceInfo, TargetInfo, TransferStatus,
}
use zfs_evacuation_controlle.Crd.Openebs.{ZfsBackup, ZfsRestore}
use zfs_evacuation_controlle.Controller.Transfer.{
  delete_or_strip, cleanup_backup, cleanup_restore, cleanup_transfer_crs, drop_relay,
}
use zfs_evacuation_controlle.Effect.{ret, lift, ◌>>=◌, ◌>>◌, Answer, ok, err, Kind, delete}
use zfs_evacuation_controlle.Controller.Context.{write_status, update_params}
use zfs_evacuation_controlle.Controller.Nodes.{node_by_id}
use zfs_evacuation_controlle.Controller.Steps.{
  say, absent_or_there, set_finalizers, strip_zfs_finalizer_if_node_gone, remove_evac_finalizer,
}
use zfs_evacuation_controlle.Controller.Abort.{
  restore_policy_of, restore_policy, unlock_pvc, drop_guard, later, requeue_msg, drop_transfer,
  adopt_orphan, conclude,
}
use zfs_evacuation_controlle.Behaviour.Reclaim.{
  is_reclaim, Spares, Spares-bind, Spares-require, Spares-lift, Spares-if, Spares-option,
  Spares-rounds,
}

pub restore_policy-Spares :
    (evac : Evacuation) (st : EvacuationStatus) → Spares (restore_policy evac st)
unfolding restore_policy restore_policy_of
restore_policy-Spares evac st = ground arith

pub update_params-Spares : (mutate : ParamsSpec → ParamsSpec × Bool) → Spares (update_params mutate)
unfolding update_params
update_params-Spares mutate = Spares-rounds 8 mutate

pub unlock_pvc-Spares : (st : EvacuationStatus) → Spares (unlock_pvc st)
unfolding unlock_pvc
unlock_pvc-Spares st =
    Spares-option st.pvc_ref _ _ tt
      λ r. Spares-bind _ _ (update_params-Spares _) (λ _. (refl, λ x. tt))

pub set_finalizers-Spares : (name : String) (f : _) → Spares (set_finalizers Kind.zfs_volume name f)
unfolding set_finalizers
set_finalizers-Spares name f = ground arith

pub node_by_id-Spares : (id : String) → Spares (node_by_id id)
unfolding node_by_id
node_by_id-Spares id = ground arith

pub strip-Spares :
    (name id : String) → Spares (strip_zfs_finalizer_if_node_gone Kind.zfs_volume name id)
unfolding strip_zfs_finalizer_if_node_gone
strip-Spares name id =
    Spares-bind _ _ (node_by_id-Spares id)
      (λ node. Spares-if (is_some node) _ _ tt (set_finalizers-Spares name _))

pub drop_guard-Spares : (source : SourceInfo) → Spares (drop_guard source)
unfolding drop_guard
drop_guard-Spares source =
    Spares-bind _ _ (set_finalizers-Spares source.volume_handle _)
      (λ _. strip-Spares source.volume_handle source.node_id)

pub conclude-Spares : (evac : Evacuation) (st : EvacuationStatus) → Spares (conclude evac st)
unfolding conclude write_status remove_evac_finalizer set_finalizers
conclude-Spares evac st = ground arith

pub write_status-Spares : (name : String) (st : EvacuationStatus) → Spares (write_status name st)
unfolding write_status
write_status-Spares name st = ground arith

pub drop_relay-Spares : (name : String) → Spares (drop_relay name)
unfolding drop_relay
drop_relay-Spares name = λ r. tt

pub later-Spares :
    (name : String) (st : EvacuationStatus) (msg : String)
    → Spares (later (requeue_msg name st msg))
unfolding requeue_msg say write_status
later-Spares name st msg = ground arith

-- The backup and the restore of an attempt are no volumes.
delete_or_strip-Spares :
    (kind : Kind) (name : String) (deleting : Bool) (id : Option String)
    → is_reclaim (delete kind name) ≡ false
    → Spares (delete_or_strip kind name deleting id)
unfolding delete_or_strip strip_zfs_finalizer_if_node_gone set_finalizers
delete_or_strip-Spares kind name true none h = tt
delete_or_strip-Spares kind name true (some id) h =
    Spares-bind _ _ (node_by_id-Spares id) (λ node. ground arith)
delete_or_strip-Spares kind name false id h = ground arith

cleanup_backup-Spares : (b : String) (id : Option String) → Spares (cleanup_backup b id)
unfolding cleanup_backup
cleanup_backup-Spares b id = (refl, by_answer)
  where
    by_answer :
        (r : Answer (Option ZfsBackup))
        → Spares (
            lift r >>= λ cr. elim cr [
              | none ↦ ret true
              | some c ↦ (do delete_or_strip Kind.zfs_backup b c.metadata.deleting id; ret false)
            ])
    by_answer (ok none) = tt
    by_answer (ok (some c)) =
        Spares-bind _ _ (delete_or_strip-Spares Kind.zfs_backup b c.metadata.deleting id refl)
          (λ _. tt)
    by_answer (err e) = tt

cleanup_restore-Spares : (r : String) (id : Option String) → Spares (cleanup_restore r id)
unfolding cleanup_restore
cleanup_restore-Spares r id = (refl, by_answer)
  where
    by_answer :
        (x : Answer (Option ZfsRestore))
        → Spares (
            lift x >>= λ cr. elim cr [
              | none ↦ ret true
              | some c ↦ (do delete_or_strip Kind.zfs_restore r c.metadata.deleting id; ret false)
            ])
    by_answer (ok none) = tt
    by_answer (ok (some c)) =
        Spares-bind _ _ (delete_or_strip-Spares Kind.zfs_restore r c.metadata.deleting id refl)
          (λ _. tt)
    by_answer (err e) = tt

module _ (name : String) (st : EvacuationStatus) where
  pub drop_transfer-Spares : (t : TransferStatus) → Spares (drop_transfer name st t)
  unfolding drop_transfer cleanup_transfer_crs
  drop_transfer-Spares t =
      Spares-bind _ _
        (Spares-bind _ _ (cleanup_backup-Spares _ _)
          λ b. Spares-bind _ _ (cleanup_restore-Spares _ _) (λ r. tt))
        (λ gone. Spares-if gone _ _ tt (later-Spares name st _))

  absent_or_there-Spares : (r : Answer (Unit {0})) → Spares (absent_or_there r)
  absent_or_there-Spares r = ground arith

  pub adopt_orphan-Spares :
      (target : TargetInfo) (t : TransferStatus) → Spares (adopt_orphan name st target t)
  unfolding adopt_orphan
  adopt_orphan-Spares target t = Spares-require st.source _ _ λ src. (
    refl,
    λ r. Spares-lift r _ λ found.
        Spares-option found _ _ (drop_transfer-Spares t) λ zv.
          (refl, λ x. Spares-bind _ _ (absent_or_there-Spares x) (λ _. later-Spares name st _)),
  )
