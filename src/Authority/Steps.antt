-- ===== src/Authority/Steps.antt =====
-- The shared steps of src/controller under the authority monitor.
use zfs_evacuation_controlle.Base.{
  ℕ, ◌==◌, String, Bool, none, some, List, [], refl, arith, is_some, unwrap_or, zero, suc,
}
use zfs_evacuation_controlle.Kube.{Pod}
use zfs_evacuation_controlle.Crd.Evacuation.{
  Evacuation, EvacuationStatus, EvacuationMode, Phase, when_idle, when_claimed,
}
use zfs_evacuation_controlle.Crd.Params.{ParamsSpec, default_params}
use zfs_evacuation_controlle.Effect.{
  M, ret, throw, call, sense, Kind, catch, Answer, ok, err, patch_finalizers, api, transport,
}
use zfs_evacuation_controlle.Controller.Context.{
  Ctx, write_status, update_params, update_params_rounds, written,
}
use zfs_evacuation_controlle.Controller.Nodes.{node_by_id}
use zfs_evacuation_controlle.Controller.Pods.{pods_referencing_pvc}
use zfs_evacuation_controlle.Controller.Steps.{
  advance, fail, say, wait, set_finalizers, strip_zfs_finalizer_if_node_gone, blocking_reason,
  ensure_evac_finalizer, remove_evac_finalizer, absent_or_there, source_repels_pods,
}
use zfs_evacuation_controlle.Authority.Diagram.{Follows}
use zfs_evacuation_controlle.Authority.Warrant.{Allowed, MayChangeLock}
use zfs_evacuation_controlle.Authority.Rules.{Safely, Stays, Stays-bind, if-Stays}

-- Any result.
abbrev pub Any : {A : Type 0} → A → Type 0
Any a = Unit

module _ (evac : Evacuation) (s : EvacuationStatus) where
  pub node_by_id-Stays : (node_id : String) → Stays evac s Any (node_by_id node_id)
  unfolding node_by_id
  node_by_id-Stays node_id = ground arith

  pub pods_referencing_pvc-Stays :
      (ns name : String) → Stays evac s Any (pods_referencing_pvc ns name)
  unfolding pods_referencing_pvc
  pods_referencing_pvc-Stays ns name = ground arith

  pub blocking_reason-Stays :
      (ctx : Ctx) (mode : EvacuationMode) (st : EvacuationStatus) (pods : List Pod)
      → Stays evac s Any (blocking_reason ctx mode st pods)
  unfolding blocking_reason source_repels_pods
  blocking_reason-Stays ctx when_idle st pods = ground arith
  blocking_reason-Stays ctx when_claimed st pods = ground arith

  pub set_finalizers-Stays :
      (kind : Kind) (name : String) (f : List String → List String)
      → ((fins : List String) → Allowed evac s (patch_finalizers kind name fins))
      → Stays evac s Any (set_finalizers kind name f)
  unfolding set_finalizers
  set_finalizers-Stays kind name f h = (
    refl,
    tt,
    elim [
      | ok none ↦ tt
      | ok (some meta) ↦ ground (arith, h (f (unwrap_or [] meta.finalizers)))
      | err e ↦ tt
    ],
  )

  pub strip_zfs_finalizer-Stays :
      (kind : Kind) (name node_id : String)
      → ((fins : List String) → Allowed evac s (patch_finalizers kind name fins))
      → Stays evac s Any (strip_zfs_finalizer_if_node_gone kind name node_id)
  unfolding strip_zfs_finalizer_if_node_gone
  strip_zfs_finalizer-Stays kind name node_id h =
      Stays-bind evac Any Any s _ _ (node_by_id-Stays node_id)
        λ node _. if-Stays evac s Any (is_some node) _ _ tt (set_finalizers-Stays kind name _ h)

  pub say-Safely :
      (st : EvacuationStatus) (msg : String)
      → Follows s (record st { message = some msg })
      → Safely evac s (say evac.metadata.name st msg)
  unfolding say write_status
  say-Safely st msg h = ground arith

  pub absent_or_there-Stays : (r : Answer (Unit {0})) → Stays evac s Any (absent_or_there r)
  absent_or_there-Stays r = ground arith

  pub advance-Safely :
      (st : EvacuationStatus) (phase : Phase)
      → Follows s (record st { phase = phase; message = none })
      → Safely evac s (advance evac.metadata.name st phase)
  unfolding advance write_status
  advance-Safely st phase h = ((refl, h), ground arith)

  pub fail-Safely :
      (st : EvacuationStatus) (msg : String)
      → Follows s (record st { phase = Phase.failed; message = some msg })
      → Safely evac s (fail evac.metadata.name st msg)
  unfolding fail write_status
  fail-Safely st msg h = ((refl, h), ground arith)

  pub wait-Safely :
      (st : EvacuationStatus) (msg : String) (secs : ℕ)
      → Follows s (record st { message = some msg })
      → Safely evac s (wait evac.metadata.name st msg secs)
  unfolding wait write_status
  wait-Safely st msg secs h = ground arith

  pub ensure_evac_finalizer-Stays : Stays evac s Any (ensure_evac_finalizer evac)
  unfolding ensure_evac_finalizer
  ensure_evac_finalizer-Stays = ground arith

  pub remove_evac_finalizer-Stays : Stays evac s Any (remove_evac_finalizer evac.metadata.name)
  unfolding remove_evac_finalizer
  remove_evac_finalizer-Stays = ground arith

  written-Stays :
      (again : M (Unit {0})) (r : Answer (Unit {0}))
      → Stays evac s Any again
      → Stays evac s Any (written again r)
  written-Stays again (ok _) h = tt
  written-Stays again (err (api code)) h = if-Stays evac s Any (code == 409) _ _ h tt
  written-Stays again (err transport) h = tt

  update_params_rounds-Stays :
      (n : ℕ) (mutate : ParamsSpec → ParamsSpec × Bool)
      → MayChangeLock s.phase
      → Stays evac s Any (update_params_rounds n mutate)
  unfolding update_params_rounds
  update_params_rounds-Stays zero mutate h = tt
  update_params_rounds-Stays (suc n) mutate h =
      let again = update_params_rounds-Stays n mutate h in
      (
        refl,
        tt,
        elim [
          | ok none ↦
              if-Stays evac s Any (mutate default_params).1 _ _
                (refl, h, λ r. written-Stays _ r again) tt
          | ok (some p) ↦
              if-Stays evac s Any (mutate p.spec).1 _ _ (refl, h, λ r. written-Stays _ r again) tt
          | err e ↦ tt
        ],
      )

  pub update_params-Stays :
      (mutate : ParamsSpec → ParamsSpec × Bool)
      → MayChangeLock s.phase
      → Stays evac s Any (update_params mutate)
  unfolding update_params
  update_params-Stays mutate h = update_params_rounds-Stays 8 mutate h

  pub catch-Stays : {A : Type 0} (t : M A) → Stays evac s Any t → Stays evac s Any (catch t)
  catch-Stays (ret a) h = tt
  catch-Stays (throw e) h = tt
  catch-Stays (call c k) h = (h.0, h.1, λ r. catch-Stays (k r) (h.2 r))
  catch-Stays (sense q k) h = λ r. catch-Stays (k r) (h r)
