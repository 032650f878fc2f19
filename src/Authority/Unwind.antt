-- ===== src/Authority/Unwind.antt =====
-- src/controller/abort.rs, the unwinding after the target is undone, under the authority monitor.
use zfs_evacuation_controlle.Base.{
  String, Bool, true, false, not, ◌&&◌, Option, none, some, ◌≡◌, refl, sym, ap, ◌∙◌, arith, is_some,
  is_some_and, eqs, eqs→eq, if◌then◌else◌,
}
use zfs_evacuation_controlle.Crd.Evacuation.{Evacuation, EvacuationStatus, Phase, SourceInfo}
use zfs_evacuation_controlle.Effect.{ret, Kind}
use zfs_evacuation_controlle.Controller.Context.{write_status}
use zfs_evacuation_controlle.Controller.PvSwap.{has_uid}
use zfs_evacuation_controlle.Controller.Abort.{
  restore_policy_of, restore_policy, unlock_pvc, pvc_is_gone, reclaim_source, honor_deletion,
  drop_guard, release_source, conclude, unwind,
}
use zfs_evacuation_controlle.Authority.Warrant.{
  Recorded, at_closing, by_abort, the_source, reclaimed, to_free_source, restore_by_abort,
}
use zfs_evacuation_controlle.Authority.Rules.{
  Safely, Stays, Stays-bind, if-Stays, lift-Stays, option-Stays, Stays-Safely, if-Safely,
}
use zfs_evacuation_controlle.Authority.Steps.{
  Any, strip_zfs_finalizer-Stays, set_finalizers-Stays, update_params-Stays,
  remove_evac_finalizer-Stays,
}

-- The recorded status `s` and the one in memory differ in the message at most.
pub record Agrees (s st : EvacuationStatus) : Type 0 where
  pub phase : s.phase ≡ Phase.aborting
  pub phase_kept : st.phase ≡ Phase.aborting
  pub uncommitted : s.committed ≡ false
  pub still : st.committed ≡ false
  pub source : st.source ≡ s.source
  pub pvc_ref : st.pvc_ref ≡ s.pvc_ref
  pub target : st.target ≡ s.target
  pub transfer : st.transfer ≡ s.transfer
  pub policy : st.original_reclaim_policy ≡ s.original_reclaim_policy

module _ (evac : Evacuation) (s st : EvacuationStatus) (agrees : Agrees s st) where
  restore_policy-Stays : Stays evac s Any (restore_policy evac st)
  unfolding restore_policy restore_policy_of
  restore_policy-Stays =
      option-Stays evac s Any st.source _ _ (λ _. tt)
        λ source _.
          option-Stays evac s Any st.original_reclaim_policy _ _ (λ _. tt)
            λ orig e. (
              refl,
              tt,
              λ r. lift-Stays evac s Any r _ λ found.
                  if-Stays evac s Any (is_some_and (λ pv. has_uid source.pv_uid pv.metadata) found)
                    _ _
                    (
                      refl,
                      (refl, restore_by_abort agrees.phase (sym agrees.policy ∙ e)),
                      λ q. ground arith,
                    )
                    tt,
            )

  -- A test on the recorded policy tells what it is.
  policy_is : (o : Option String) (p : String) → is_some_and (λ x. eqs x p) o ≡ true → o ≡ some p
  policy_is none p h = cc
  policy_is (some x) p h = ap some (eqs→eq x p h)

  reclaim_source-Stays :
      (source : SourceInfo)
      → st.source ≡ some source
      → st.original_reclaim_policy ≡ some "Delete"
      → Stays evac s Any (reclaim_source source)
  unfolding reclaim_source
  reclaim_source-Stays source e p = (
    refl,
    tt,
    λ r. lift-Stays evac s Any r _ λ found.
        if-Stays evac s Any (is_some_and (λ zv. not zv.metadata.deleting) found) _ _
          (
            refl,
            the_source (rw (sym agrees.source ∙ e) refl)
                (reclaimed agrees.phase (sym agrees.policy ∙ p)),
            λ q. ground arith,
          )
          tt,
  )

  pvc_is_gone-Stays : Stays evac s Any (pvc_is_gone st)
  unfolding pvc_is_gone
  pvc_is_gone-Stays = ground arith

  honor_deletion-Stays :
      (source : SourceInfo)
      → st.source ≡ some source
      → Stays evac s Any (honor_deletion evac st source)
  unfolding honor_deletion
  honor_deletion-Stays source e = Stays-bind evac Any Any s _ _ pvc_is_gone-Stays λ pvc_gone _. (
    refl,
    tt,
    λ r. lift-Stays evac s Any r _ λ pv.
        tested (pvc_gone && not (is_some pv))
          (is_some_and (λ p. eqs p "Delete") st.original_reclaim_policy) refl,
  )
    where
      tested :
          (gone delete : Bool)
          → is_some_and (λ p. eqs p "Delete") st.original_reclaim_policy ≡ delete
          → Stays evac s Any (if gone && delete then reclaim_source source else ret tt)
      tested true true h = reclaim_source-Stays source e (policy_is _ _ h)
      tested true false h = tt
      tested false delete h = tt

  drop_guard-Stays :
      (source : SourceInfo) → st.source ≡ some source → Stays evac s Any (drop_guard source)
  unfolding drop_guard
  drop_guard-Stays source e =
      let is_source : Recorded s.source (λ x. x.volume_handle ≡ source.volume_handle) =
        rw (sym agrees.source ∙ e) refl in
      Stays-bind evac Any Any s _ _
        (set_finalizers-Stays evac s Kind.zfs_volume source.volume_handle _
          (λ fins. to_free_source is_source (by_abort agrees.phase)))
        (λ _ _.
          strip_zfs_finalizer-Stays evac s Kind.zfs_volume source.volume_handle source.node_id
            (λ fins. to_free_source is_source (by_abort agrees.phase)))

  release_source-Stays : Stays evac s Any (release_source evac st)
  unfolding release_source
  release_source-Stays =
      option-Stays evac s Any st.source _ _ (λ _. tt)
        λ source e.
          Stays-bind evac Any Any s _ _ (honor_deletion-Stays source e)
            (λ _ _. drop_guard-Stays source e)

  unlock-Stays : Stays evac s Any (unlock_pvc st)
  unfolding unlock_pvc
  unlock-Stays =
      let may = at_closing (by_abort agrees.phase) in
      option-Stays evac s Any st.pvc_ref _ _ (λ _. tt)
        λ r _.
          Stays-bind evac Any Any s _ _ (update_params-Stays evac s _ may)
            (λ _ _. (refl, may, λ q. tt))

  conclude-Safely : Safely evac s (conclude evac st)
  unfolding conclude write_status
  conclude-Safely =
      if-Safely evac s evac.metadata.deleting _ _
        (λ _. Stays-Safely evac s Any _ _ (remove_evac_finalizer-Stays evac s) (λ _ _. tt))
        (λ _. ground arith)

  pub unwind-Safely : Safely evac s (unwind evac st)
  unfolding unwind
  unwind-Safely = Stays-Safely evac s Any _ _ restore_policy-Stays λ _ _.
      Stays-Safely evac s Any _ _ unlock-Stays
        λ _ _. Stays-Safely evac s Any _ _ release_source-Stays (λ _ _. conclude-Safely)
