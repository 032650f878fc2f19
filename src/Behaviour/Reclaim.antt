-- ===== src/Behaviour/Reclaim.antt =====
-- src/controller/abort.rs: the deletion of volumes in an abort, as a watch on the calls. The source
-- is deleted where the user asked for that meanwhile, which `honor_deletion` finds out.
pub mod Parts
pub mod Run
use zfs_evacuation_controlle.Base.{
  ℕ, zero, suc, String, Bool, true, false, not, ◌&&◌, Option, none, some, ◌≡◌, ◌⊎◌, inl, inr, refl,
  ap, arith, eqs, eqs→eq, eq→eqs, is_some, is_some_and, ◌==◌, if◌then◌else◌,
}
use zfs_evacuation_controlle.Kube.{PersistentVolume, PersistentVolumeClaim}
use zfs_evacuation_controlle.Crd.Params.{ParamsSpec, EvacuationParams, default_params}
use zfs_evacuation_controlle.Crd.Evacuation.{Evacuation, EvacuationStatus, SourceInfo, PvcRef}
use zfs_evacuation_controlle.Effect.{
  M, ret, ask, throw, call, sense, lift, require, ◌>>=◌, Call, Value, Answer, ok, err, api,
  transport, Kind, get_pv, get_pvc, delete, Monitor, Safe, Safe-bind, Safe-if, Safe-lift,
  Safe-option, Outcome, done, raised,
}
use zfs_evacuation_controlle.Controller.Context.{
  write_status, update_params, update_params_rounds, update_params_round, written,
}
use zfs_evacuation_controlle.Controller.Nodes.{node_by_id}
use zfs_evacuation_controlle.Controller.Steps.{
  set_finalizers, strip_zfs_finalizer_if_node_gone, remove_evac_finalizer,
}
use zfs_evacuation_controlle.Controller.Abort.{
  restore_policy_of, restore_policy, unlock_pvc, pvc_is_gone, reclaim_source, honor_deletion,
  drop_guard, release_source, conclude, unwind,
}
use zfs_evacuation_controlle.Authority.Warrant.{Recorded}

-- Did the last reads of the claim and of the PV find nothing?
pub record Absent : Type 0 where
  pub claim : Bool
  pub pv : Bool

abbrev pub unread : Absent
unread = record { claim = false; pv = false }

abbrev pub is_reclaim : Call → Bool
is_reclaim (delete Kind.zfs_volume name) = true
is_reclaim _ = false

-- A tree that deletes no volume.
abbrev pub Spares : {A : Type 0} → M A → Type 0
Spares (ret a) = Unit
Spares (throw e) = Unit
Spares (call c k) = (is_reclaim c ≡ false) × ((r : Answer (Value c)) → Spares (k r))
Spares (sense q k) = (r : _) → Spares (k r)

pub Spares-bind :
    {A B : Type 0} (tree : M A) (f : A → M B)
    → Spares tree
    → ((a : A) → Spares (f a))
    → Spares (tree >>= f)
Spares-bind (ret a) f h go = go a
Spares-bind (throw e) f h go = tt
Spares-bind (call c k) f h go = (h.0, λ r. Spares-bind (k r) f (h.1 r) go)
Spares-bind (sense q k) f h go = λ r. Spares-bind (k r) f (h r) go

pub lift-Spares : (x : Answer (Unit {0})) → Spares (lift x)
lift-Spares (ok a) = tt
lift-Spares (err e) = tt

pub Spares-require :
    {A B : Type 0} (o : Option A) (msg : String) (f : A → M B)
    → ((a : A) → Spares (f a))
    → Spares (require o msg >>= f)
Spares-require none msg f h = tt
Spares-require (some a) msg f h = h a

pub Spares-lift :
    {A B : Type 0} (r : Answer A) (f : A → M B) → ((a : A) → Spares (f a)) → Spares (lift r >>= f)
Spares-lift (ok a) f h = h a
Spares-lift (err e) f h = tt

pub Spares-if :
    {A : Type 0} (b : Bool) (t u : M A) → Spares t → Spares u → Spares (if b then t else u)
Spares-if true t u ht hu = ht
Spares-if false t u ht hu = hu

pub Spares-option :
    {A B : Type 0} (o : Option A) (t : M B) (f : A → M B)
    → Spares t
    → ((a : A) → Spares (f a))
    → Spares (elim o [ none ↦ t | some a ↦ f a ])
Spares-option none t f ht hf = ht
Spares-option (some a) t f ht hf = hf a

pub Spares-rounds :
    (n : ℕ) (mutate : ParamsSpec → ParamsSpec × Bool) → Spares (update_params_rounds n mutate)
unfolding update_params_rounds
Spares-rounds zero mutate = tt
Spares-rounds (suc n) mutate = (refl, by_read _ (Spares-rounds n mutate))
  where
    ending :
        (again : M (Unit {0})) → Spares again → (r : Answer (Unit {0})) → Spares (written again r)
    ending again h (ok _) = tt
    ending again h (err (api code)) = Spares-if (code == 409) _ _ h tt
    ending again h (err transport) = tt

    by_read :
        (again : M (Unit {0}))
        → Spares again
        → (r : Answer (Option EvacuationParams))
        → Spares (lift r >>= update_params_round mutate again)
    by_read again h (ok none) = Spares-if (mutate default_params).1 _ _ (refl, ending again h) tt
    by_read again h (ok (some p)) = Spares-if (mutate p.spec).1 _ _ (refl, ending again h) tt
    by_read again h (err e) = tt

module _ (evac : Evacuation) (st : EvacuationStatus) where
  abbrev is_claim : String → String → Bool
  is_claim ns name = is_some_and (λ r. eqs ns r.namespace && eqs name r.name) st.pvc_ref

  -- What the reads have last found, of the evacuation's own claim and PV.
  abbrev pub read_after : Absent → (c : Call) → Answer (Value c) → Absent
  read_after s (get_pvc ns name) (ok pvc) = record {
    claim = is_claim ns name && not (is_some pvc);
    pv = s.pv;
  }
  read_after s (get_pv name) (ok pv) = record {
    claim = s.claim;
    pv = eqs name evac.spec.pv_name && not (is_some pv);
  }
  read_after s c r = s

  -- A volume that is deleted is the recorded target's; or the recorded source's, under the policy
  -- Delete, where both were found absent.
  abbrev pub MayReclaim : Absent → Call → Type 0
  MayReclaim s (delete Kind.zfs_volume name) =
      Recorded st.target (λ t. t.new_volume_handle ≡ name)
      ⊎ (Recorded st.source (λ x. x.volume_handle ≡ name)
          × (st.original_reclaim_policy ≡ some "Delete")
          × (s.claim ≡ true)
          × (s.pv ≡ true))
  MayReclaim s _ = Unit

  abbrev pub reclaim_watch : Monitor
  reclaim_watch = record { State = Absent; Allowed = MayReclaim; next = read_after }

  abbrev pub Anyway : {A : Type 0} → Absent → Outcome A → Type 0
  Anyway s o = Unit

  abbrev pub Reclaims : {A : Type 0} → Absent → M A → Type 0
  Reclaims s t = Safe reclaim_watch Anyway s t

  spared-call : (s : Absent) (c : Call) → is_reclaim c ≡ false → MayReclaim s c
  spared-call s c h = ground arith

  -- A tree that deletes no volume may stand before the rest.
  pub spared :
      {A B : Type 0} (s : Absent) (t : M A) (f : A → M B)
      → Spares t
      → ((s' : Absent) (a : A) → Reclaims s' (f a))
      → Reclaims s (t >>= f)
  spared s (ret a) f h go = go s a
  spared s (throw e) f h go = tt
  spared s (call c k) f h go =
      (spared-call s c h.0, λ r. spared (read_after s c r) (k r) f (h.1 r) go)
  spared s (sense q k) f h go = λ r. spared s (k r) f (h r) go

  pub spared_last : {A : Type 0} (s : Absent) (t : M A) → Spares t → Reclaims s t
  spared_last s (ret a) h = tt
  spared_last s (throw e) h = tt
  spared_last s (call c k) h =
      (spared-call s c h.0, λ r. spared_last (read_after s c r) (k r) (h.1 r))
  spared_last s (sense q k) h = λ r. spared_last s (k r) (h r)
