-- ===== src/Behaviour/PodCheck.antt =====
-- The check of the pods right before the commit, the deletion and the end of Quiescing: a watch on
-- the calls, and rules for trees under it.
pub mod Swap
pub mod Settle
use zfs_evacuation_controlle.Base.{
  String, Bool, true, false, ◌&&◌, Option, none, some, List, ◌≡◌, refl, sym, arith, eqs, eq→eqs,
  ◌-◌, ◌^◌, subst, keep, is_empty, if◌then◌else◌,
}
use zfs_evacuation_controlle.Kube.{Pod}
use zfs_evacuation_controlle.Crd.Evacuation.{
  Evacuation, EvacuationStatus, EvacuationMode, Phase, PvcRef, when_idle, when_claimed,
}
use zfs_evacuation_controlle.Effect.{
  M, ret, throw, call, sense, lift, require, ◌>>=◌, Call, Value, Answer, ok, err, Kind, list_pods,
  delete, patch_status, Monitor, Safe, Safe-bind, Outcome, done, raised,
}
use zfs_evacuation_controlle.Controller.Context.{Ctx}
use zfs_evacuation_controlle.Controller.Pods.{
  pod_references_pvc, pod_is_scheduled, pods_referencing_pvc,
}
use zfs_evacuation_controlle.Controller.Steps.{blocking_reason, source_repels_pods}

-- No pod is in the way: none at all that uses the claim, or none that is scheduled.
abbrev pub quiet : EvacuationMode → List Pod → Bool
quiet when_idle pods = is_empty pods
quiet when_claimed pods = is_empty (keep pod_is_scheduled pods)

-- What needs the check: the write of the commit, the deletion of a PV, and the end of Quiescing.
pub data Guarded : Type 0 where
  commit_write deletion settling : Guarded

abbrev pub is_selecting : Phase → Bool
is_selecting Phase.target_selecting = true
is_selecting _ = false

abbrev pub is_guarded : Guarded → Call → Bool
is_guarded commit_write (patch_status name t) = t.committed
is_guarded deletion (delete Kind.pv name) = true
is_guarded settling (patch_status name t) = is_selecting t.phase
is_guarded _ _ = false

module _ (g : Guarded) (mode : EvacuationMode) (r : PvcRef) where
  -- Does the last list of the claim's namespace show that nothing is in the way?
  abbrev pub seen : Bool → (c : Call) → Answer (Value c) → Bool
  seen s (list_pods ns) (ok pods) =
      eqs ns r.namespace && quiet mode (keep (λ p. pod_references_pvc p r.name) pods)
  seen s (list_pods ns) (err e) = false
  seen s _ _ = s

  -- The guarded call needs that in the same reconciliation.
  abbrev pub pod_watch : Monitor
  pod_watch = record {
    State = Bool;
    Allowed = λ s c. is_guarded g c ≡ true → s ≡ true;
    next = seen;
  }

  abbrev pub Anyway : {A : Type 0} → Bool → Outcome A → Type 0
  Anyway s o = Unit

  abbrev pub Unblocked : Bool → Outcome (Option String) → Type 0
  Unblocked s (done none) = s ≡ true
  Unblocked s _ = Unit

  abbrev pub Listed : Bool → Outcome (List Pod) → Type 0
  Listed s (done pods) = s ≡ quiet mode pods
  Listed s (raised e) = Unit

  pods_referencing_pvc-Safe :
      (s : Bool) → Safe pod_watch Listed s (pods_referencing_pvc r.namespace r.name)
  unfolding pods_referencing_pvc
  pods_referencing_pvc-Safe s = let same = eq→eqs r.namespace r.namespace refl in ground arith

-- Nothing blocks only if the pods are quiet.
blocking_reason-Safe :
    (g : Guarded) (mode : EvacuationMode) (r : PvcRef) (ctx : Ctx) (st : EvacuationStatus)
    (pods : List Pod) (s : Bool)
    → s ≡ quiet mode pods
    → Safe (pod_watch g mode r) (Unblocked g mode r) s (blocking_reason ctx mode st pods)
unfolding blocking_reason source_repels_pods
blocking_reason-Safe commit_write when_idle r ctx st pods s h = ground arith
blocking_reason-Safe deletion when_idle r ctx st pods s h = ground arith
blocking_reason-Safe commit_write when_claimed r ctx st pods s h = ground arith
blocking_reason-Safe deletion when_claimed r ctx st pods s h = ground arith
blocking_reason-Safe settling when_idle r ctx st pods s h = ground arith
blocking_reason-Safe settling when_claimed r ctx st pods s h = ground arith

-- A tree that does not make the guarded call.
abbrev pub Unguarded : {A : Type 0} → Guarded → M A → Type 0
Unguarded g (ret a) = Unit
Unguarded g (throw e) = Unit
Unguarded g (call c k) = (is_guarded g c ≡ false) × ((x : Answer (Value c)) → Unguarded g (k x))
Unguarded g (sense q k) = (x : _) → Unguarded g (k x)

Unguarded-Safe :
    {A : Type 0} (g : Guarded) (mode : EvacuationMode) (r : PvcRef) (s : Bool) (t : M A)
    → Unguarded g t
    → Safe (pod_watch g mode r) (Anyway g mode r) s t
Unguarded-Safe g mode r s (ret a) h = tt
Unguarded-Safe g mode r s (throw e) h = tt
Unguarded-Safe g mode r s (call c k) h =
    ((λ x. ground arith), λ x. Unguarded-Safe g mode r (seen g mode r s c x) (k x) (h.1 x))
Unguarded-Safe g mode r s (sense q k) h = λ x. Unguarded-Safe g mode r s (k x) (h x)

module _ (evac : Evacuation) (ctx : Ctx) (st : EvacuationStatus) (r : PvcRef) where
  abbrev pub Checked : {A : Type 0} → Guarded → Bool → M A → Type 0
  Checked g s t = Safe (pod_watch g evac.spec.mode r) (Anyway g evac.spec.mode r) s t

  pub unguarded-Checked :
      {A : Type 0} (g : Guarded) (s : Bool) (t : M A) → Unguarded g t → Checked g s t
  unguarded-Checked g s t h = Unguarded-Safe g evac.spec.mode r s t h

  module _ {A : Type 0} (g : Guarded) (s : Bool) where
    pub required :
        {B : Type 0} (o : Option B) (msg : String) (f : B → M A)
        → ((b : B) → o ≡ some b → Checked g s (f b))
        → Checked g s (require o msg >>= f)
    required none msg f h = tt
    required (some b) msg f h = h b refl

    pub known :
        {B : Type 0} (o : Option B) (b : B) (msg : String) (f : B → M A)
        → o ≡ some b
        → Checked g s (f b)
        → Checked g s (require o msg >>= f)
    known o b msg f e h = rw e h

    pub lifted :
        {B : Type 0} (x : Answer B) (f : B → M A)
        → ((b : B) → Checked g s (f b))
        → Checked g s (lift x >>= f)
    lifted (ok b) f h = h b
    lifted (err e) f h = tt

  module _ {A : Type 0} (g : Guarded) where
    pub listed :
        (s : Bool) (f : List Pod → M A)
        → ((s' : Bool) (pods : List Pod) → s' ≡ quiet evac.spec.mode pods → Checked g s' (f pods))
        → Checked g s (pods_referencing_pvc r.namespace r.name >>= f)
    listed s f h =
        Safe-bind (pod_watch g evac.spec.mode r) (Listed g evac.spec.mode r)
          (Anyway g evac.spec.mode r) s _ f (pods_referencing_pvc-Safe g evac.spec.mode r s) h
          (λ _ _ _. tt)

    pub unblocked :
        (s : Bool) (pods : List Pod) (f : Option String → M A)
        → s ≡ quiet evac.spec.mode pods
        → Checked g true (f none)
        → ((msg : String) → Unguarded g (f (some msg)))
        → Checked g s (blocking_reason ctx evac.spec.mode st pods >>= f)
    unblocked s pods f h free blocked =
        Safe-bind (pod_watch g evac.spec.mode r) (Unblocked g evac.spec.mode r)
          (Anyway g evac.spec.mode r) s _ f
          (blocking_reason-Safe g evac.spec.mode r ctx st pods s h) onward (λ _ _ _. tt)
      where
        onward :
            (s' : Bool) (o : Option String)
            → Unblocked g evac.spec.mode r s' (done o)
            → Checked g s' (f o)
        onward s' none e = subst (λ x. Checked g x (f none)) (sym e) free
        onward s' (some msg) e = unguarded-Checked g s' (f (some msg)) (blocked msg)
