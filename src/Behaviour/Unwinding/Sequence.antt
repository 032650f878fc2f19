-- ===== src/Behaviour/Unwinding/Sequence.antt =====
-- The parts of a routine one after the other, under the watch of a duty.
use zfs_evacuation_controlle.Base.{Bool, true, ◌||◌, ◌≡◌, arith}
use zfs_evacuation_controlle.Crd.Evacuation.{Evacuation}
use zfs_evacuation_controlle.Effect.{
  M, ret, throw, call, sense, ◌>>=◌, Safe, Safe-bind, Outcome, done, Returns,
}
use zfs_evacuation_controlle.Behaviour.Unwinding.{
  Duty, shows, duty_watch, Anyway, Performed, Watched, IsMiddle, middle,
}

module _ (evac : Evacuation) (d : Duty) where
  -- Once the duty is done, nothing is barred.
  pub free : {A : Type 0} (s : Bool) (tree : M A) → s ≡ true → Watched evac d s tree
  free s (ret a) at = tt
  free s (throw e) at = tt
  free s (call c k) at = ((λ _. at), λ r. free (s || shows evac d c r) (k r) (ground arith))
  free s (sense q k) at = λ r. free s (k r) at

  pub after_middle :
      {A B : Type 0} (s : Bool) (tree : M A) (f : A → M B)
      → IsMiddle tree
      → ((s' : Bool) (a : A) → Watched evac d s' (f a))
      → Watched evac d s (tree >>= f)
  after_middle s tree f h go =
      middle evac d (Anyway evac d) s tree f h (λ s' a _. go s' a) (λ _ _. tt)

  -- After the part that performs the duty.
  pub then_free :
      {A B : Type 0} (s : Bool) (tree : M A) (f : A → M B)
      → Safe (duty_watch evac d) (Performed evac d) s tree
      → Watched evac d s (tree >>= f)
  then_free s tree f h =
      Safe-bind (duty_watch evac d) (Performed evac d) (Anyway evac d) s tree f h
        (λ s' a at. free s' (f a) at) (λ _ _ _. tt)

  -- Such a part may also be the last.
  pub IsMiddle-Watched :
      {A : Type 0} (s : Bool) (tree : M A) → IsMiddle tree → Watched evac d s tree
  IsMiddle-Watched s (ret a) h = tt
  IsMiddle-Watched s (throw e) h = tt
  IsMiddle-Watched s (call c k) h =
      ((λ end. ground arith), λ r. IsMiddle-Watched (s || shows evac d c r) (k r) (h.1 r))
  IsMiddle-Watched s (sense q k) h = λ r. IsMiddle-Watched s (k r) (h r)

  -- After a part of which two things are known: its findings and its result.
  pub after_returning :
      {A B : Type 0} (Mid : Bool → Outcome A → Type 0) (R : A → Type 0) (s : Bool) (tree : M A)
      (f : A → M B)
      → Safe (duty_watch evac d) Mid s tree
      → Returns R tree
      → ((s' : Bool) (a : A) → Mid s' (done a) → R a → Watched evac d s' (f a))
      → Watched evac d s (tree >>= f)
  after_returning Mid R s (ret a) f h known go = go s a h known
  after_returning Mid R s (throw e) f h known go = tt
  after_returning Mid R s (call c k) f h known go =
      (h.0, λ r. after_returning Mid R (s || shows evac d c r) (k r) f (h.1 r) (known r) go)
  after_returning Mid R s (sense q k) f h known go =
      λ r. after_returning Mid R s (k r) f (h r) (known r) go
