-- ===== src/Behaviour/Creation/Made.antt =====
-- src/controller/trigger.rs, `tick`: the poll makes the evacuation that an annotation asks for.
use zfs_evacuation_controlle.Base.{
  ℕ, suc, String, Bool, true, false, none, some, List, [], ◌∷◌, Memᴰ, ◌≡◌, ◌⊎◌, inl, inr, refl,
  subst, if◌then◌else◌, arith,
}
use zfs_evacuation_controlle.Kube.{PersistentVolume}
use zfs_evacuation_controlle.Crd.Evacuation.{annotation, when_idle}
use zfs_evacuation_controlle.Effect.{
  M, ret, throw, call, sense, ◌>>=◌, Call, Value, Answer, ok, list_pvs, get_pv, get_evacuation,
}
use zfs_evacuation_controlle.Controller.Context.{Ctx}
use zfs_evacuation_controlle.Controller.Trigger.{
  wants_evacuation, clear_for_creation, annotation_condition_fresh, new_evacuation,
  create_evacuation, create_if, visit_pv, visit_pvs, tick,
}
use zfs_evacuation_controlle.Behaviour.Obliging.{Surroundings}

-- The call is made in the run from step `n` on.
abbrev pub IsMade : {A : Type 0} → Surroundings → Call → ℕ → M A → Type 0
IsMade env c n (ret a) = ⊥
IsMade env c n (throw e) = ⊥
IsMade env c n (call d k) = (c ≡ d) ⊎ IsMade env c (suc n) (k (env.answer n d))
IsMade env c n (sense q k) = IsMade env c (suc n) (k (env.reply n q))

-- No answers make the tree fail.
abbrev IsTotal : {A : Type 0} → M A → Type 0
IsTotal (ret a) = Unit
IsTotal (throw e) = ⊥
IsTotal (call c k) = (r : Answer (Value c)) → IsTotal (k r)
IsTotal (sense q k) = (r : _) → IsTotal (k r)

IsTotal-bind :
    {A B : Type 0} (t : M A) (f : A → M B)
    → IsTotal t
    → ((a : A) → IsTotal (f a))
    → IsTotal (t >>= f)
IsTotal-bind (ret a) f h go = go a
IsTotal-bind (throw e) f h go = absurd h
IsTotal-bind (call c k) f h go = λ r. IsTotal-bind (k r) f (h r) go
IsTotal-bind (sense q k) f h go = λ r. IsTotal-bind (k r) f (h r) go

IsTotal-if :
    {A : Type 0} (b : Bool) (t u : M A) → IsTotal t → IsTotal u → IsTotal (if b then t else u)
IsTotal-if true t u ht hu = ht
IsTotal-if false t u ht hu = hu

module _ (env : Surroundings) (c : Call) where
  -- In the first part of a sequence, or after a first part that cannot fail.
  IsMade-bind :
      {A B : Type 0} (n : ℕ) (t : M A) (f : A → M B) → IsMade env c n t → IsMade env c n (t >>= f)
  IsMade-bind n (ret a) f h = absurd h
  IsMade-bind n (throw e) f h = absurd h
  IsMade-bind n (call d k) f (inl e) = inl e
  IsMade-bind n (call d k) f (inr h) = inr (IsMade-bind (suc n) (k (env.answer n d)) f h)
  IsMade-bind n (sense q k) f h = IsMade-bind (suc n) (k (env.reply n q)) f h

  IsMade-after :
      {A B : Type 0} (n : ℕ) (t : M A) (f : A → M B)
      → IsTotal t
      → ((m : ℕ) (a : A) → IsMade env c m (f a))
      → IsMade env c n (t >>= f)
  IsMade-after n (ret a) f h go = go n a
  IsMade-after n (throw e) f h go = absurd h
  IsMade-after n (call d k) f h go =
      inr (IsMade-after (suc n) (k (env.answer n d)) f (h (env.answer n d)) go)
  IsMade-after n (sense q k) f h go =
      IsMade-after (suc n) (k (env.reply n q)) f (h (env.reply n q)) go

clear_for_creation-IsTotal : (name : String) → IsTotal (clear_for_creation name)
unfolding clear_for_creation
clear_for_creation-IsTotal name = ground arith

fresh-IsTotal : (name : String) → IsTotal (annotation_condition_fresh name)
unfolding annotation_condition_fresh
fresh-IsTotal name = ground arith

visit_pv-IsTotal : (pv : PersistentVolume) → IsTotal (visit_pv pv)
unfolding visit_pv create_if create_evacuation
visit_pv-IsTotal pv =
    IsTotal-if (wants_evacuation pv) _ _
      (IsTotal-bind _ _
        (IsTotal-bind _ _ (clear_for_creation-IsTotal pv.metadata.name)
          (λ x. IsTotal-if x _ _ (fresh-IsTotal pv.metadata.name) tt))
        (λ x. IsTotal-if x _ _ (λ r. tt) tt))
      tt

module _ (env : Surroundings) (pv fresh : PersistentVolume)
    (vacant : (n : ℕ) → env.answer n (get_evacuation pv.metadata.name) ≡ ok none)
    (there : (n : ℕ) → env.answer n (get_pv pv.metadata.name) ≡ ok (some fresh))
    (wanted : wants_evacuation pv ≡ true) (still : wants_evacuation fresh ≡ true) where
  abbrev creation : Call
  creation = Call.create_evacuation (new_evacuation pv.metadata.name annotation when_idle)

  visit_pv-IsMade : (n : ℕ) → IsMade env creation n (visit_pv pv)
  unfolding visit_pv create_if create_evacuation clear_for_creation annotation_condition_fresh
  visit_pv-IsMade n = rw wanted (inr (rw (vacant n) (inr (rw (there (suc n), still) (inl refl)))))

  visit_pvs-IsMade :
      (n : ℕ) (pvs : List PersistentVolume) → Memᴰ pv pvs → IsMade env creation n (visit_pvs pvs)
  unfolding visit_pvs
  visit_pvs-IsMade n [] m = elim m [ ]
  visit_pvs-IsMade n (p ∷ ps) (Memᴰ.head e) =
      IsMade-bind env creation n (visit_pv p) _
        (subst (λ x. IsMade env creation n (visit_pv x)) e (visit_pv-IsMade n))
  visit_pvs-IsMade n (p ∷ ps) (Memᴰ.tail m) =
      IsMade-after env creation n (visit_pv p) _ (visit_pv-IsTotal p)
        (λ k _. visit_pvs-IsMade k ps m)

  -- Where the list of the PVs is answered with one that is annotated with "true", of our driver and not
  -- being deleted, no evacuation of its name is there, and the fresh read shows it so again: the poll
  -- creates its evacuation, with the annotation as trigger and in mode WhenIdle, whatever the calls for
  -- the other PVs are answered with.
  pub tick_creates :
      (ctx : Ctx) (pvs : List PersistentVolume)
      → ((n : ℕ) → env.answer n list_pvs ≡ ok pvs)
      → Memᴰ pv pvs
      → IsMade env creation 0 (tick ctx)
  unfolding tick
  tick_creates ctx pvs listed m =
      inr (rw (listed 0) (IsMade-bind env creation 1 (visit_pvs pvs) _ (visit_pvs-IsMade 1 pvs m)))
