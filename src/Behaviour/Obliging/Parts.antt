-- ===== src/Behaviour/Obliging/Parts.antt =====
-- src/controller: the parts of the routines against such a server.
use zfs_evacuation_controlle.Base.{
  ℕ, String, Bool, true, Option, none, some, List, [], ◌≡◌, refl, arith, contains, unwrap_or,
  is_some, eqs,
}
use zfs_evacuation_controlle.Crd.Params.{ParamsSpec, EvacuationParams, default_params}
use zfs_evacuation_controlle.Crd.Evacuation.{Evacuation, EvacuationStatus, evacuation_finalizer}
use zfs_evacuation_controlle.Effect.{M, ok, err, Kind, get_params, get_node}
use zfs_evacuation_controlle.Controller.Context.{
  update_params, update_params_rounds, update_params_round,
}
use zfs_evacuation_controlle.Controller.Nodes.{node_id_of, node_by_id, find_node_by_id}
use zfs_evacuation_controlle.Controller.Steps.{
  set_finalizers, strip_zfs_finalizer_if_node_gone, ensure_evac_finalizer, remove_evac_finalizer,
}
use zfs_evacuation_controlle.Controller.Transfer.{
  cleanup_backup, cleanup_restore, cleanup_transfer_crs,
}
use zfs_evacuation_controlle.Controller.Abort.{unlock_pvc}
use zfs_evacuation_controlle.Behaviour.Obliging.{
  IsSteady, IsSteady-bind, IsSteady-ask, IsSteady-if, IsSteady-option,
}

-- Nothing is asked of the result.
abbrev pub SomeResult : {A : Type 0} → A → Type 0
SomeResult a = Unit

module _ (gone : String → Bool) where
  find_node-IsSteady : (id : String) → IsSteady gone SomeResult (find_node_by_id id)
  unfolding find_node_by_id
  find_node-IsSteady id = ground arith

  node_by_id-IsSteady : (id : String) → IsSteady gone SomeResult (node_by_id id)
  unfolding node_by_id
  node_by_id-IsSteady id = IsSteady-ask gone SomeResult (get_node id) _ refl λ named _.
      IsSteady-option gone SomeResult named _ _ (find_node-IsSteady id)
        λ n. IsSteady-if gone SomeResult (eqs (node_id_of n) id) _ _ tt (find_node-IsSteady id)

  pub set_finalizers-IsSteady :
      (kind : Kind) (name : String) (f : List String → List String)
      → IsSteady gone SomeResult (set_finalizers kind name f)
  unfolding set_finalizers
  set_finalizers-IsSteady kind name f = ground arith

  pub strip-IsSteady :
      (kind : Kind) (name id : String)
      → IsSteady gone SomeResult (strip_zfs_finalizer_if_node_gone kind name id)
  unfolding strip_zfs_finalizer_if_node_gone
  strip-IsSteady kind name id =
      IsSteady-bind gone SomeResult SomeResult _ _ (node_by_id-IsSteady id) λ node _.
        IsSteady-if gone SomeResult (is_some node) _ _ tt (set_finalizers-IsSteady kind name _)

  cleanup_backup-IsSteady :
      (b : String) (id : Option String) → IsSteady gone (λ x. x ≡ true) (cleanup_backup b id)
  unfolding cleanup_backup
  cleanup_backup-IsSteady b id =
      (refl, elim [ ok none ↦ λ o. refl | ok (some c) ↦ λ o. cc | err e ↦ λ o. absurd o ])

  cleanup_restore-IsSteady :
      (b : String) (id : Option String) → IsSteady gone (λ x. x ≡ true) (cleanup_restore b id)
  unfolding cleanup_restore
  cleanup_restore-IsSteady b id =
      (refl, elim [ ok none ↦ λ o. refl | ok (some c) ↦ λ o. cc | err e ↦ λ o. absurd o ])

  pub cleanup-IsSteady :
      (name : String) (attempt : ℕ) (st : EvacuationStatus)
      → IsSteady gone (λ b. b ≡ true) (cleanup_transfer_crs name attempt st)
  unfolding cleanup_transfer_crs
  cleanup-IsSteady name attempt st =
      IsSteady-bind gone (λ b. b ≡ true) (λ b. b ≡ true) _ _ (cleanup_backup-IsSteady _ _)
        λ b at.
          IsSteady-bind gone (λ c. c ≡ true) (λ c. c ≡ true) _ _ (cleanup_restore-IsSteady _ _)
            (λ r at'. ground arith)

  update_params-IsSteady :
      (mutate : ParamsSpec → ParamsSpec × Bool) → IsSteady gone SomeResult (update_params mutate)
  unfolding update_params update_params_rounds
  update_params-IsSteady mutate = IsSteady-ask gone SomeResult get_params _ refl λ p _. round p _
    where
      round :
          (p : Option EvacuationParams) (again : M (Unit {0}))
          → IsSteady gone SomeResult (update_params_round mutate again p)
      round none again =
          IsSteady-if gone SomeResult (mutate default_params).1 _ _
            (refl, elim [ ok u ↦ λ o. tt | err e ↦ λ o. absurd o ]) tt
      round (some p) again =
          IsSteady-if gone SomeResult (mutate p.spec).1 _ _
            (refl, elim [ ok u ↦ λ o. tt | err e ↦ λ o. absurd o ]) tt

  pub unlock_pvc-IsSteady : (st : EvacuationStatus) → IsSteady gone SomeResult (unlock_pvc st)
  unfolding unlock_pvc
  unlock_pvc-IsSteady st = IsSteady-option gone SomeResult st.pvc_ref _ _ tt λ r.
      IsSteady-bind gone SomeResult SomeResult _ _ (update_params-IsSteady _)
        λ u _. (refl, λ x o. tt)

  pub ensure-IsSteady : (evac : Evacuation) → IsSteady gone SomeResult (ensure_evac_finalizer evac)
  unfolding ensure_evac_finalizer
  ensure-IsSteady evac =
      IsSteady-if gone SomeResult
        (contains evacuation_finalizer (unwrap_or [] evac.metadata.finalizers)) _ _ tt
        (refl, λ r o. ground arith)

  pub remove-IsSteady : (name : String) → IsSteady gone SomeResult (remove_evac_finalizer name)
  unfolding remove_evac_finalizer
  remove-IsSteady name = ground arith
