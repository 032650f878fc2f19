-- ===== src/Behaviour/Reclaim/Run.antt =====
-- src/controller/abort.rs, `run`: which volume an abort deletes, and after what.
use zfs_evacuation_controlle.Base.{
  String, Bool, true, not, ◌&&◌, Option, none, some, ◌≡◌, inl, inr, refl, ap, arith, eqs, eqs→eq,
  eq→eqs, is_some, is_some_and, and_then, if◌then◌else◌,
}
use zfs_evacuation_controlle.Kube.{PersistentVolume, PersistentVolumeClaim}
use zfs_evacuation_controlle.Crd.Openebs.{ZfsVolume, ZfsRestore, bkp_status_done}
use zfs_evacuation_controlle.Crd.Evacuation.{
  Evacuation, EvacuationStatus, Phase, SourceInfo, PvcRef, TargetInfo, TransferStatus,
}
use zfs_evacuation_controlle.Effect.{
  ret, ask, lift, ◌>>=◌, Answer, ok, err, Kind, get_pv, get_pvc, delete, Safe, Safe-bind, Safe-if,
  Safe-lift, Safe-option, Outcome, done, raised,
}
use zfs_evacuation_controlle.Controller.Abort.{
  pvc_is_gone, reclaim_source, honor_deletion, release_source, Progress, destroy_target,
  drop_transfer, adopt_orphan, undo_transfer, undo_target, is_aborting, run, unwind,
}
use zfs_evacuation_controlle.Behaviour.Reclaim.{
  Absent, unread, Spares-bind, Spares-if, lift-Spares, read_after, reclaim_watch, Anyway, Reclaims,
  spared, spared_last,
}
use zfs_evacuation_controlle.Behaviour.Reclaim.Parts.{
  restore_policy-Spares, unlock_pvc-Spares, drop_guard-Spares, conclude-Spares, strip-Spares,
  later-Spares, drop_transfer-Spares, adopt_orphan-Spares, write_status-Spares, drop_relay-Spares,
}

all_three : (a b c : Bool) → ((a && b) && c) ≡ true → (a ≡ true) × (b ≡ true) × (c ≡ true)
all_three a b c h = ground arith

-- The policy is Delete where the test says so.
is_delete : (o : Option String) → is_some_and (λ p. eqs p "Delete") o ≡ true → o ≡ some "Delete"
is_delete none h = cc
is_delete (some p) h = ap some (eqs→eq p "Delete" h)

module _ (evac : Evacuation) (st : EvacuationStatus) where
  -- The claim is taken for gone only if the last read has found nothing.
  abbrev Shown : Absent → Outcome Bool → Type 0
  Shown s (done gone) = gone ≡ true → s.claim ≡ true
  Shown s (raised e) = Unit

  pvc_is_gone-Shown : (s : Absent) → Safe (reclaim_watch evac st) Shown s (pvc_is_gone st)
  unfolding pvc_is_gone
  pvc_is_gone-Shown s =
      Safe-option (reclaim_watch evac st) Shown s st.pvc_ref _ _ (λ _ h. cc)
        λ r e. (tt, by_claim r e)
    where
      by_claim :
          (r : PvcRef)
          → st.pvc_ref ≡ some r
          → (x : Answer (Option PersistentVolumeClaim))
          → Safe
              (reclaim_watch evac st)
              Shown
              (read_after evac st s (get_pvc r.namespace r.name) x)
              (lift x >>= λ pvc. ret (not (is_some pvc)))
      by_claim r e (err x) = tt
      by_claim r e (ok pvc) =
          let ns = eq→eqs r.namespace r.namespace refl in
          let name = eq→eqs r.name r.name refl in λ h. rw (e, ns, name) h

  module _ (source : SourceInfo) (known : st.source ≡ some source) where
    reclaim_source-Reclaims :
        (s : Absent)
        → st.original_reclaim_policy ≡ some "Delete"
        → s.claim ≡ true
        → s.pv ≡ true
        → Reclaims evac st s (reclaim_source source)
    unfolding reclaim_source
    reclaim_source-Reclaims s p c v = (
      tt,
      λ r.
          Safe-lift (reclaim_watch evac st) (Anyway evac st) s (λ _. tt) r _
            λ found.
              Safe-if (reclaim_watch evac st) (Anyway evac st) s
                (is_some_and (λ zv. not zv.metadata.deleting) found) _ _ (λ _. once) (λ _. tt),
    )
      where
        once : Reclaims evac st s (ask (delete Kind.zfs_volume source.volume_handle))
        once = (inr (rw known refl, p, c, v), λ x. spared_last evac st s (lift x) (lift-Spares x))

    honor_deletion-Reclaims : (s : Absent) → Reclaims evac st s (honor_deletion evac st source)
    unfolding honor_deletion
    honor_deletion-Reclaims s =
        Safe-bind (reclaim_watch evac st) Shown (Anyway evac st) s _ _ (pvc_is_gone-Shown s)
          (λ s' gone shown. (tt, by_pv s' gone shown)) (λ _ _ _. tt)
      where
        by_pv :
            (s' : Absent) (gone : Bool)
            → Shown s' (done gone)
            → (r : Answer (Option PersistentVolume))
            → Reclaims evac st (read_after evac st s' (get_pv evac.spec.pv_name) r) (
                lift r >>= λ pv.
                if (gone && not (is_some pv))
                  && is_some_and (λ p. eqs p "Delete") st.original_reclaim_policy
                then reclaim_source source
                else ret tt)
        by_pv s' gone shown (err e) = tt
        by_pv s' gone shown (ok pv) =
            let b = is_some_and (λ p. eqs p "Delete") st.original_reclaim_policy in
            let same = eq→eqs evac.spec.pv_name evac.spec.pv_name refl in
            Safe-if (reclaim_watch evac st) (Anyway evac st) _ ((gone && not (is_some pv)) && b) _ _
              (λ h.
                let parts = all_three gone (not (is_some pv)) b h in
                reclaim_source-Reclaims _ (is_delete st.original_reclaim_policy parts.2)
                  (shown parts.0) (rw (same, parts.1) refl))
              (λ _. tt)

  unwind-Reclaims : (s : Absent) → Reclaims evac st s (unwind evac st)
  unfolding unwind release_source
  unwind-Reclaims s = spared evac st s _ _ (restore_policy-Spares evac st) λ s' _.
      spared evac st s' _ _ (unlock_pvc-Spares st) λ s'' _.
        Safe-bind (reclaim_watch evac st) (Anyway evac st) (Anyway evac st) s'' _ _
          (Safe-option (reclaim_watch evac st) (Anyway evac st) s'' st.source _ _ (λ _. tt)
            λ source e.
              Safe-bind (reclaim_watch evac st) (Anyway evac st) (Anyway evac st) s'' _ _
                (honor_deletion-Reclaims source e s'')
                (λ s' _ _. spared_last evac st s' _ (drop_guard-Spares source)) (λ _ _ _. tt))
          (λ s' _ _. spared_last evac st s' _ (conclude-Spares evac st)) (λ _ _ _. tt)

  module _ (target : TargetInfo) (aimed : st.target ≡ some target) where
    destroy_target-Reclaims :
        (s : Absent) (zv : ZfsVolume)
        → Reclaims evac st s (destroy_target evac.metadata.name st target zv)
    unfolding destroy_target
    destroy_target-Reclaims s zv =
        Safe-bind (reclaim_watch evac st) (Anyway evac st) (Anyway evac st) s _ _
          (Safe-if (reclaim_watch evac st) (Anyway evac st) s zv.metadata.deleting _ _ (λ _. tt)
            (λ _. once))
          (λ s' _ _. spared_last evac st s' _ (
            Spares-bind _ _ (strip-Spares target.new_volume_handle target.node_id)
              (λ _. later-Spares evac.metadata.name st _)))
          (λ _ _ _. tt)
      where
        once : Reclaims evac st s (ask (delete Kind.zfs_volume target.new_volume_handle))
        once = (inl (rw aimed refl), λ x. spared_last evac st s (lift x) (lift-Spares x))

    undo_transfer-Reclaims :
        (s : Absent) (t : TransferStatus)
        → Reclaims evac st s (undo_transfer evac.metadata.name st target t)
    unfolding undo_transfer
    undo_transfer-Reclaims s t = (
      tt,
      λ r.
          Safe-lift (reclaim_watch evac st) (Anyway evac st) _ (λ _. tt) r _
            λ rst. (
              tt,
              λ x.
                  Safe-lift (reclaim_watch evac st) (Anyway evac st) _ (λ _. tt) x _
                    (by_volume _ rst),
            ),
    )
      where
        by_volume :
            (s' : Absent) (rst : Option ZfsRestore) (found : Option ZfsVolume)
            → Reclaims evac st s' (elim found [
              | some zv ↦ destroy_target evac.metadata.name st target zv
              | none ↦
                  if is_some_and (λ y. eqs y bkp_status_done) (and_then rst (λ y. y.status))
                  then adopt_orphan evac.metadata.name st target t
                  else drop_transfer evac.metadata.name st t
            ])
        by_volume s' rst none = spared_last evac st s' _ (
            Spares-if (is_some_and (λ y. eqs y bkp_status_done) (and_then rst (λ y. y.status))) _ _
              (adopt_orphan-Spares evac.metadata.name st target t)
              (drop_transfer-Spares evac.metadata.name st t))
        by_volume s' rst (some zv) = destroy_target-Reclaims s' zv

  undo_target-Reclaims : (s : Absent) → Reclaims evac st s (undo_target evac.metadata.name st)
  unfolding undo_target
  undo_target-Reclaims s =
      Safe-option (reclaim_watch evac st) (Anyway evac st) s st.target _ _ (λ _. tt)
        λ target e.
          Safe-option (reclaim_watch evac st) (Anyway evac st) s st.transfer _ _ (λ _. tt)
            (λ t _. undo_transfer-Reclaims target e s t)

-- In an abort, a ZFSVolume is deleted only if it is the recorded target's; or it is the recorded
-- source's, the original policy is Delete, and the last reads of the evacuation's own claim and of
-- its PV, in the same reconciliation, have found neither.
pub run-Reclaims :
    (evac : Evacuation) (st : EvacuationStatus) → Reclaims evac st unread (run evac st)
unfolding run
run-Reclaims evac st =
    spared evac st unread _ _
      (Spares-if (is_aborting st.phase) _ _ tt
        (write_status-Spares evac.metadata.name (record st { phase = Phase.aborting })))
      λ s _. spared evac st s _ _ (drop_relay-Spares evac.metadata.name) λ s' _.
        Safe-bind (reclaim_watch evac st) (Anyway evac st) (Anyway evac st) s' _ _
          (undo_target-Reclaims evac (record st { phase = Phase.aborting }) s') onward (λ _ _ _. tt)
  where
    onward :
        (s : Absent) (early : Progress)
        → Unit {0}
        → Reclaims evac st s (elim early [
          | some action ↦ ret action
          | none ↦ unwind evac (record st { phase = Phase.aborting })
        ])
    onward s none _ = unwind-Reclaims evac (record st { phase = Phase.aborting }) s
    onward s (some a) _ = tt
