-- ===== src/Behaviour/Unwinding/Unlocking.antt =====
-- src/controller/abort.rs, `unlock_pvc`: it returns only once the claim is shown to be in no lock list.
use zfs_evacuation_controlle.Base.{
  ℕ, zero, suc, String, Bool, true, false, ◌||◌, Option, none, some, ◌≡◌, refl, subst, ◌∙◌, arith,
  eq→eqs, contains, ◌==◌, ◌<>◌,
}
use zfs_evacuation_controlle.Crd.Params.{ParamsSpec, EvacuationParams, default_params, unlock}
use zfs_evacuation_controlle.Crd.Params.Locking.{listed, unlock_lem, unlock_unchanged}
use zfs_evacuation_controlle.Crd.Evacuation.{Evacuation, EvacuationStatus, EvacuationMode, PvcRef}
use zfs_evacuation_controlle.Effect.{
  M, ok, err, api, transport, KubeError, Safe-known, Safe-if, Safe-bind, get_params,
}
use zfs_evacuation_controlle.Controller.Context.{
  update_params, update_params_rounds, update_params_round, written,
}
use zfs_evacuation_controlle.Controller.Abort.{unlock_pvc}
use zfs_evacuation_controlle.Behaviour.Unwinding.{
  unlocked, is_unlocked, shows, duty_watch, Performed, Performs,
}
use zfs_evacuation_controlle.Behaviour.Unwinding.Performed.{or_left, or_right}

module _ (evac : Evacuation) where
  module _ (r : PvcRef) where
    abbrev key : String
    key = r.namespace <> "/" <> r.name

    -- The lists after an unlock do not have the claim.
    unlock-unlocked : (p : ParamsSpec) → is_unlocked r (unlock key p).0 ≡ true
    unlock-unlocked p =
        let idle = without_key p EvacuationMode.when_idle in
        let claimed = without_key p EvacuationMode.when_claimed in ground arith
      where
        without_key :
            (q : ParamsSpec) (m : EvacuationMode) → contains key (listed m (unlock key q).0) ≡ false
        without_key q m = unlock_lem key q m key ∙ (rw (eq→eqs key key refl) refl)

    unlocked_already : (p : ParamsSpec) → (unlock key p).1 ≡ false → is_unlocked r p ≡ true
    unlocked_already p h =
        subst (λ q. is_unlocked r q ≡ true) (unlock_unchanged key p h) (unlock-unlocked p)

    module _ (again : M (Unit {0})) (h : (s : Bool) → Performs evac (unlocked r) s again) where
      -- A conflict goes to the next round.
      refused-Performs :
          (s : Bool) (e : KubeError) → Performs evac (unlocked r) s (written again (err e))
      refused-Performs s (api code) =
          Safe-if (duty_watch evac (unlocked r)) (Performed evac (unlocked r)) s (code == 409) _ _
            (λ _. h s) (λ _. tt)
      refused-Performs s transport = tt

      round-Performs :
          (s : Bool) (p : Option EvacuationParams)
          → Performs evac
              (unlocked r)
              (s || shows evac (unlocked r) get_params (ok p))
              (update_params_round (unlock key) again p)
      round-Performs s none =
          Safe-if (duty_watch evac (unlocked r)) (Performed evac (unlocked r)) (s || true)
            (unlock key default_params).1 _ _
            (λ _. (
              (λ e. cc),
              elim [
                | ok u ↦
                    or_right (s || true) (is_unlocked r (unlock key default_params).0)
                      (unlock-unlocked default_params)
                | err e ↦ refused-Performs _ e
              ],
            ))
            (λ _. or_right s true refl)
      round-Performs s (some p) =
          Safe-if (duty_watch evac (unlocked r)) (Performed evac (unlocked r))
            (s || is_unlocked r p.spec) (unlock key p.spec).1 _ _
            (λ _. (
              (λ e. cc),
              elim [
                | ok u ↦
                    or_right (s || is_unlocked r p.spec) (is_unlocked r (unlock key p.spec).0)
                      (unlock-unlocked p.spec)
                | err e ↦ refused-Performs _ e
              ],
            ))
            (λ same. or_right s (is_unlocked r p.spec) (unlocked_already p.spec same))

    rounds-Performs :
        (n : ℕ) (s : Bool) → Performs evac (unlocked r) s (update_params_rounds n (unlock key))
    unfolding update_params_rounds
    rounds-Performs zero s = tt
    rounds-Performs (suc n) s = (
      (λ e. cc),
      elim [
        | ok p ↦ round-Performs (update_params_rounds n (unlock key)) (rounds-Performs n) s p
        | err e ↦ tt
      ],
    )

    update_params-Performs : (s : Bool) → Performs evac (unlocked r) s (update_params (unlock key))
    unfolding update_params
    update_params-Performs s = rounds-Performs 8 s

    -- The label's answer is ignored: what follows keeps the duty done.
    pub unlock_pvc-Performs :
        (st : EvacuationStatus) (s : Bool)
        → st.pvc_ref ≡ some r
        → Performs evac (unlocked r) s (unlock_pvc st)
    unfolding unlock_pvc
    unlock_pvc-Performs st s e =
        Safe-known (duty_watch evac (unlocked r)) (Performed evac (unlocked r)) s st.pvc_ref r _ _ e
          (Safe-bind (duty_watch evac (unlocked r)) (Performed evac (unlocked r))
            (Performed evac (unlocked r)) s _ _ (update_params-Performs s)
            (λ s' u at. ((λ x. at), λ x. or_left s' _ at)) (λ _ _ _. tt))
