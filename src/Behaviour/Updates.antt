-- ===== src/Behaviour/Updates.antt =====
-- src/controller/mod.rs, `Ctx::update_params`: optimistic concurrency.
use zfs_evacuation_controlle.Base.{
  ℕ, zero, suc, Bool, true, false, Option, none, some, ◌≡◌, refl, ◌==◌, if_elim,
}
use zfs_evacuation_controlle.Crd.Params.{ParamsSpec, EvacuationParams, default_params}
use zfs_evacuation_controlle.Effect.{
  M, Call, Value, Answer, ok, err, api, transport, KubeError, get_params, create_params,
  replace_params, Monitor, Safe, Outcome, done, raised,
}
use zfs_evacuation_controlle.Controller.Context.{
  update_params, update_params_rounds, update_params_round, written,
}

-- What the calls of an update have led to: a read that no write has used up, or a write.
pub data Exchange : Type 0 where
  idle accepted : Exchange
  read : Option EvacuationParams → Exchange

abbrev pub spec_of : Option EvacuationParams → ParamsSpec
spec_of none = default_params
spec_of (some p) = p.spec

abbrev pub exchange : Exchange → (c : Call) → Answer (Value c) → Exchange
exchange s get_params (ok p) = read p
exchange s (create_params spec) (ok _) = accepted
exchange s (replace_params p) (ok _) = accepted
exchange s _ r = idle

module _ (mutate : ParamsSpec → ParamsSpec × Bool) where
  -- A write is the mutation of what was read last, with its resource version, if that changed.
  abbrev pub Permitted : Exchange → Call → Type 0
  Permitted s get_params = Unit
  Permitted (read none) (create_params spec) =
      (spec ≡ (mutate default_params).0) × ((mutate default_params).1 ≡ true)
  Permitted (read (some q)) (replace_params p) =
      (p.spec ≡ (mutate q.spec).0)
      × (p.resource_version ≡ q.resource_version)
      × ((mutate q.spec).1 ≡ true)
  Permitted s c = ⊥

  abbrev pub exchange_watch : Monitor
  exchange_watch = record { State = Exchange; Allowed = Permitted; next = exchange }

  -- It succeeds with an accepted write, or with a read in which there was nothing to change.
  abbrev pub Settled : Exchange → Outcome (Unit {0}) → Type 0
  Settled accepted (done _) = Unit
  Settled (read p) (done _) = (mutate (spec_of p)).1 ≡ false
  Settled idle (done _) = ⊥
  Settled s (raised e) = Unit

  module _ (again : M (Unit {0})) (h : Safe exchange_watch Settled idle again) where
    -- The end of a round, after a write that was accepted or not.
    refused-Safe : (e : KubeError) → Safe exchange_watch Settled idle (written again (err e))
    refused-Safe (api code) =
        if_elim (Safe exchange_watch Settled idle) (code == 409) _ _ (λ _. h) (λ _. tt)
    refused-Safe transport = tt

    round-Safe :
        (p : Option EvacuationParams)
        → Safe exchange_watch Settled (read p) (update_params_round mutate again p)
    round-Safe none =
        if_elim (Safe exchange_watch Settled (read none)) (mutate default_params).1 _ _
          (λ changed. ((refl, changed), elim [ ok x ↦ tt | err e ↦ refused-Safe e ])) (λ same. same)
    round-Safe (some p) =
        if_elim (Safe exchange_watch Settled (read (some p))) (mutate p.spec).1 _ _
          (λ changed. ((refl, refl, changed), elim [ ok x ↦ tt | err e ↦ refused-Safe e ]))
          (λ same. same)

  rounds-Safe :
      (n : ℕ) (s : Exchange) → Safe exchange_watch Settled s (update_params_rounds n mutate)
  unfolding update_params_rounds
  rounds-Safe zero s = tt
  rounds-Safe (suc n) s = (tt, elim [ ok p ↦ round-Safe _ (rounds-Safe n idle) p | err e ↦ tt ])

  -- Whatever the server answers: each write of the locked keys is the mutation of the object that
  -- was read right before, under the resource version read, and only if the mutation reports a
  -- change; after a conflict the object is read anew; and success means that a write was accepted,
  -- or that the mutation of what was read last reports no change.
  pub update_params-Safe : Safe exchange_watch Settled idle (update_params mutate)
  unfolding update_params
  update_params-Safe = rounds-Safe 8 idle
